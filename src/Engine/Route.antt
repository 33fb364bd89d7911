-- ===== src/Engine/Route.antt =====
-- `route_bundle` and `retry_unsynced_bundles` of src/routing/engine.rs.
use rusty_bundle.Prelude.{
  ℕ, List, [], ◌∷◌, ◌++◌, Option, none, some, Bool, true, false, not, ◌&&◌, ◌||◌, ltb, ◌==◌,
  if◌then◌else◌, contains, retain,
}
use rusty_bundle.Model.{
  Uuid, Bundle, MsgStatus, pending, in_transit, delivered, expired, Clock, is_ack, is_expired,
}
use rusty_bundle.Model.Ack.{new_ack}
use rusty_bundle.Disk.{Serde}
use rusty_bundle.BundleManager
use rusty_bundle.BundleManager.{BundleManager}
use rusty_bundle.Registry.{PeerRecord}
use rusty_bundle.Engine.{
  Destination, Net, State, Times, anti_entropy, get_peer_summary_vector, connected_peers, with_id,
  address_of, peers_needing, send_to_each, send_bundle, forward_to_each, is_nil,
}

-- `status == MsgStatus::Pending`
abbrev pub is_pending : MsgStatus → Bool
is_pending pending = true
is_pending _ = false

abbrev pub is_in_transit : MsgStatus → Bool
is_in_transit in_transit = true
is_in_transit _ = false

module _ (j : Serde) where
  open j use {Text}

  abbrev pub with_manager : State Text → BundleManager Text → State Text
  with_manager st m = record st { engine = record st.engine { bundle_manager = m } }

  abbrev pub with_net : State Text → Net → State Text
  with_net st n = record st { net = n }

  -- `self.bundle_manager.upsert_bundle(bundle)`, whose result is not read.
  abbrev pub upserted : Clock → Bundle → State Text → State Text
  upserted c b st = with_manager st (BundleManager.upsert_bundle j c b st.bundle_manager).1

  -- The peers are asked for the acknowledgement, and those that lack it are sent it.
  unfoldable pub propagate : Bundle → List PeerRecord → State Text → ℕ × State Text
  propagate a connected st =
      let (needing, n1) = peers_needing a.id connected st.net in
      let (sent_count, n2) = send_to_each a needing n1 in (sent_count, with_net st n2)

  -- The branch of an acknowledgement.
  unfoldable pub route_ack : Times → Bundle → State Text → Bundle × State Text
  route_ack t b st =
      let (connected, n1) = connected_peers st.node_id (with_id st.peers b.destination.id) st.net in
      let (first, m) = BundleManager.handle_incoming_ack j t.stored b st.bundle_manager in
      let st1 = with_manager (with_net st n1) m in
      let b_delivered = record b { shipment_status = delivered } in
      let b_in_transit = record b { shipment_status = in_transit } in
      let (sent_count, st2) = propagate b connected st1 in
      if st.node_id == b.destination.id
      then (b_delivered, upserted t.acked b_delivered st1)
      else if not first
      then (b, st1)
      else if ltb 0 sent_count
      then (b_in_transit, upserted t.marked b_in_transit st2)
      else (b, st2)

  -- A data bundle at its destination: it is kept, and acknowledged once.
  unfoldable pub deliver :
      Times → (fresh : Uuid) → Bundle → List PeerRecord → State Text → Bundle × State Text
  deliver t fresh b connected st =
      let b_delivered = record b { shipment_status = delivered } in
      let st1 = upserted t.stored b_delivered st in
      let a = new_ack t.acked fresh b_delivered in
      let (known, m2) = BundleManager.has_bundle j a.id st1.bundle_manager in
      let (saved, m3) = BundleManager.save_bundle j t.acked a m2 in
      let created_here = if known then false else saved in
      let st2 = with_manager st1 (if known then m2 else m3) in
      let (sent_count, st3) = propagate a connected st2 in
      if not created_here
      then (b_delivered, st2)
      else if ltb 0 sent_count
      then (b_delivered, upserted t.marked (record a { shipment_status = in_transit }) st3)
      else (b_delivered, st3)

  -- A data bundle on its way: it is stored, and what is pending goes to the peers that lack it.
  unfoldable pub forward : Times → Bundle → List PeerRecord → State Text → Bundle × State Text
  forward t b connected st =
      let m1 = (BundleManager.save_bundle j t.stored b st.bundle_manager).1 in
      let (local_sv, m2) = BundleManager.get_bundles_from_node j m1 in
      let pending_bundles = retain (λ b. is_pending b.shipment_status) local_sv in
      let (sent_to_peer, n2) = forward_to_each pending_bundles connected st.net in
      let st2 = with_net (with_manager st m2) n2 in
      let b_in_transit = record b { shipment_status = in_transit } in
      if sent_to_peer then (b_in_transit, upserted t.marked b_in_transit st2) else (b, st2)

  unfoldable pub route_data : Times → (fresh : Uuid) → Bundle → State Text → Bundle × State Text
  route_data t fresh b st =
      let m1 = (BundleManager.delete_bundle j b.id st.bundle_manager).1 in
      let (connected, n1) = connected_peers st.node_id (with_id st.peers b.source.id) st.net in
      let st1 = with_net st n1 in
      if is_expired t.tested b
      then (record b { shipment_status = expired }, with_manager st m1)
      else if st.node_id == b.destination.id
      then deliver t fresh b connected st1
      else forward t b connected st1

  -- `route_bundle`: the bundle and the state that it leaves. `fresh` is the `Uuid::new_v4()` of an
  -- acknowledgement that it may make.
  unfoldable pub route_bundle : Times → (fresh : Uuid) → Bundle → State Text → Bundle × State Text
  route_bundle t fresh b st = if is_ack b.kind then route_ack t b st else route_data t fresh b st

  -- The inner loop of `retry_unsynced_bundles`: the ids that were sent, each once.
  unfoldable pub retry_to : List Bundle → Destination → List Uuid → Net → List Uuid × Net
  retry_to [] to sent n = (sent, n)
  retry_to (b ∷ bs) to sent n =
      let (r, n1) = send_bundle b to n in
      retry_to bs to (if r && not (contains sent b.id) then sent ++ b.id ∷ [] else sent) n1

  unfoldable pub retry_each : List Bundle → List PeerRecord → List Uuid → Net → List Uuid × Net
  retry_each retryable [] sent n = (sent, n)
  retry_each retryable (p ∷ ps) sent n =
      let (peer_sv, n1) = get_peer_summary_vector n in
      let (sent1, n2) = retry_to (anti_entropy retryable peer_sv) (address_of p) sent n1 in
      retry_each retryable ps sent1 n2

  -- A bundle that was sent and is still in store becomes in transit.
  unfoldable pub mark_one : Clock → Option Bundle → BundleManager Text → BundleManager Text
  mark_one c none m = m
  mark_one c (some b) m =
      (BundleManager.upsert_bundle j c (record b { shipment_status = in_transit }) m).1

  unfoldable pub mark_sent : Clock → List Uuid → BundleManager Text → BundleManager Text
  mark_sent c [] m = m
  mark_sent c (id ∷ ids) m =
      let (found, m1) = BundleManager.get j id m in mark_sent c ids (mark_one c found m1)

  abbrev pub is_no_peer : List PeerRecord → Bool
  is_no_peer [] = true
  is_no_peer (p ∷ ps) = false

  -- The source passes `get_connected_peers_from_server` one of its two arguments; the registry
  -- address is the other one.
  unfoldable pub retry_unsynced_bundles : Clock → State Text → State Text
  retry_unsynced_bundles c st =
      let (connected, n1) = connected_peers st.node_id st.peers st.net in
      let (local_sv, m1) = BundleManager.get_bundles_from_node j st.bundle_manager in
      let retryable =
        retain (λ b. is_pending b.shipment_status || is_in_transit b.shipment_status) local_sv in
      let (sent_bundle_ids, n2) = retry_each retryable connected [] n1 in
      if is_no_peer connected
      then with_net st n1
      else if is_nil retryable
      then with_manager (with_net st n1) m1
      else with_manager (with_net st n2) (mark_sent c sent_bundle_ids m1)
