-- ===== src/Engine/Asking.antt =====
-- What `route_bundle` (src/routing/engine.rs) asks the registry server for.
use rusty_bundle.Prelude.{
  List, [], ◌∷◌, Bool-cases, true, false, not, ◌||◌, ◌≡◌, refl, ◌∙◌, arith, inl, inr, ltb, ◌==◌,
  any-append, contains, retain, if◌then◌else◌,
}
use rusty_bundle.Model.{Uuid, Bundle, delivered, is_ack, is_expired}
use rusty_bundle.Model.Ack.{new_ack}
use rusty_bundle.Disk.{Serde}
use rusty_bundle.BundleManager
use rusty_bundle.Registry.{PeerRecord}
use rusty_bundle.Engine.{
  Destination, Net, State, Times, anti_entropy, get_peer_summary_vector, address_of, with_id,
  connected_peers, peers_needing, send_to_each, send_bundle, send_all, forward_to_each,
}
use rusty_bundle.Engine.Route.{
  is_pending, upserted, propagate, route_ack, deliver, forward, route_data, route_bundle, with_net,
  with_manager,
}

asked-vector : (n : Net) → (get_peer_summary_vector n).1.asked ≡ n.asked
unfolding get_peer_summary_vector
asked-vector n = ground arith

asked-send : (b : Bundle) (to : Destination) (n : Net) → (send_bundle b to n).1.asked ≡ n.asked
asked-send b to n = ground arith

asked-peers_needing :
    (id : Uuid) (ps : List PeerRecord) (n : Net) → (peers_needing id ps n).1.asked ≡ n.asked
unfolding peers_needing
asked-peers_needing id [] n = refl
asked-peers_needing id (p ∷ ps) n =
    asked-peers_needing id ps (get_peer_summary_vector n).1 ∙ asked-vector n

asked-send_to_each :
    (b : Bundle) (ps : List PeerRecord) (n : Net) → (send_to_each b ps n).1.asked ≡ n.asked
unfolding send_to_each
asked-send_to_each b [] n = refl
asked-send_to_each b (p ∷ ps) n =
    asked-send_to_each b ps (send_bundle b (address_of p) n).1 ∙ asked-send b (address_of p) n

asked-send_all :
    (bs : List Bundle) (to : Destination) (n : Net) → (send_all bs to n).asked ≡ n.asked
unfolding send_all
asked-send_all [] to n = refl
asked-send_all (b ∷ bs) to n = asked-send_all bs to (send_bundle b to n).1 ∙ asked-send b to n

asked-forward_to_each :
    (bs : List Bundle) (ps : List PeerRecord) (n : Net)
    → (forward_to_each bs ps n).1.asked ≡ n.asked
unfolding forward_to_each
asked-forward_to_each bs [] n = refl
asked-forward_to_each bs (p ∷ ps) n =
    let (peer_sv, n1) = get_peer_summary_vector n in
    let to_forward = anti_entropy bs peer_sv in
    asked-forward_to_each bs ps (send_all to_forward (address_of p) n1)
    ∙ asked-send_all to_forward (address_of p) n1
    ∙ asked-vector n

contains-with_id :
    (peers : List Uuid) (id x : Uuid)
    → contains (with_id peers id) x ≡ (contains peers x || (id == x))
contains-with_id peers id x =
    let split = any-append (λ y. y == x) peers (id ∷ []) in
    elim (Bool-cases (contains peers id)) [ inl e ↦ ground arith | inr e ↦ ground arith ]

module _ (j : Serde) where
  asked-propagate :
      (a : Bundle) (ps : List PeerRecord) (st : State j.Text)
      → (propagate j a ps st).1.net.asked ≡ st.net.asked
  unfolding propagate
  asked-propagate a ps st =
      let (needing, n1) = peers_needing a.id ps st.net in
      asked-send_to_each a needing n1 ∙ asked-peers_needing a.id ps st.net

  asked-connected :
      (ids : List Uuid) (st : State j.Text)
      → (connected_peers st.node_id ids st.net).1.asked ≡ ids ∷ st.net.asked
  unfolding connected_peers
  asked-connected ids st = ground arith

  asked-route_ack :
      (t : Times) (b : Bundle) (st : State j.Text)
      → (route_ack j t b st).1.net.asked ≡ with_id st.peers b.destination.id ∷ st.net.asked
  unfolding route_ack
  asked-route_ack t b st =
      let ids = with_id st.peers b.destination.id in
      let (ps, n1) = connected_peers st.node_id ids st.net in
      let (first, m) = BundleManager.handle_incoming_ack j t.stored b st.bundle_manager in
      let st1 = with_manager j (with_net j st n1) m in
      let quiet = asked-connected ids st in
      let loud = asked-propagate b ps st1 ∙ quiet in
      elim (Bool-cases (st.node_id == b.destination.id)) [
        | inl x ↦ rw x quiet
        | inr x ↦ rw x (elim (Bool-cases (not first)) [
          | inl y ↦ rw y quiet
          | inr y ↦ rw y (elim (Bool-cases (ltb 0 (propagate j b ps st1).0)) [
            | inl z ↦ rw z loud
            | inr z ↦ rw z loud
          ])
        ])
      ]

  asked-deliver :
      (t : Times) (fresh : Uuid) (b : Bundle) (ps : List PeerRecord) (st : State j.Text)
      → (deliver j t fresh b ps st).1.net.asked ≡ st.net.asked
  unfolding deliver
  asked-deliver t fresh b ps st =
      let bd = record b { shipment_status = delivered } in
      let st1 = upserted j t.stored bd st in
      let a = new_ack t.acked fresh bd in
      let (known, m2) = BundleManager.has_bundle j a.id st1.bundle_manager in
      let (saved, m3) = BundleManager.save_bundle j t.acked a m2 in
      let st2 = with_manager j st1 (if known then m2 else m3) in
      let same : (propagate j a ps st2).1.net.asked ≡ st.net.asked = asked-propagate a ps st2 in
      elim (Bool-cases (not (if known then false else saved))) [
        | inl x ↦ rw x refl
        | inr x ↦ rw x (elim (Bool-cases (ltb 0 (propagate j a ps st2).0)) [
          | inl y ↦ rw y same
          | inr y ↦ rw y same
        ])
      ]

  asked-forward :
      (t : Times) (b : Bundle) (ps : List PeerRecord) (st : State j.Text)
      → (forward j t b ps st).1.net.asked ≡ st.net.asked
  unfolding forward
  asked-forward t b ps st =
      let m1 = (BundleManager.save_bundle j t.stored b st.bundle_manager).1 in
      let local_sv = (BundleManager.get_bundles_from_node j m1).0 in
      let pending_bundles = retain (λ b. is_pending b.shipment_status) local_sv in
      let same = asked-forward_to_each pending_bundles ps st.net in
      elim (Bool-cases (forward_to_each pending_bundles ps st.net).0) [
        | inl x ↦ rw x same
        | inr x ↦ rw x same
      ]

  asked-route_data :
      (t : Times) (fresh : Uuid) (b : Bundle) (st : State j.Text)
      → is_expired t.tested b ≡ false
      → (route_data j t fresh b st).1.net.asked ≡ with_id st.peers b.source.id ∷ st.net.asked
  unfolding route_data
  asked-route_data t fresh b st unexpired =
      let ids = with_id st.peers b.source.id in
      let (ps, n1) = connected_peers st.node_id ids st.net in
      let st1 = with_net j st n1 in
      let asks = asked-connected ids st in
      rw unexpired (elim (Bool-cases (st.node_id == b.destination.id)) [
        | inl y ↦ rw y (asked-deliver t fresh b ps st1 ∙ asks)
        | inr y ↦ rw y (asked-forward t b ps st1 ∙ asks)
      ])

  -- The node that is asked for beside the peers.
  abbrev pub forced : Bundle → Uuid
  forced b = if is_ack b.kind then b.destination.id else b.source.id

  -- Routing an acknowledgement, or a data bundle that has not expired, asks the registry server once:
  -- for exactly the engine's peers and, whether or not it is among them, the acknowledgement's
  -- destination or the data bundle's source.
  pub route_bundle-asks :
      (t : Times) (fresh : Uuid) (b : Bundle) (st : State j.Text)
      → (is_ack b.kind || not (is_expired t.tested b)) ≡ true
      → (ids : List Uuid) × ((route_bundle j t fresh b st).1.net.asked ≡ ids ∷ st.net.asked)
        × ((x : Uuid) → contains ids x ≡ (contains st.peers x || (forced b == x)))
  unfolding route_bundle
  route_bundle-asks t fresh b st asks = elim (Bool-cases (is_ack b.kind)) [
    | inl e ↦ (
      with_id st.peers b.destination.id,
      rw e (asked-route_ack t b st),
      λ x. rw e (contains-with_id st.peers b.destination.id x),
    )
    | inr e ↦
        (let unexpired : is_expired t.tested b ≡ false = ground arith in
          (
            with_id st.peers b.source.id,
            rw e (asked-route_data t fresh b st unexpired),
            λ x. rw e (contains-with_id st.peers b.source.id x),
          ))
  ]
