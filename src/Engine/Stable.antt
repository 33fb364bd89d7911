-- ===== src/Engine/Stable.antt =====
-- What the methods of src/storage/storage.rs keep, routing (src/routing/engine.rs) keeps, whatever
-- the network answers.
use rusty_bundle.Prelude.{
  List, [], ◌∷◌, Option, none, some, Bool-cases, false, not, inl, inr, ltb, ◌==◌, ◌||◌,
  if◌then◌else◌, retain,
}
use rusty_bundle.Model.{Uuid, Bundle, Clock, in_transit, delivered, is_ack, is_expired}
use rusty_bundle.Model.Ack.{new_ack}
use rusty_bundle.Disk.{Serde}
use rusty_bundle.Storage.{Store}
use rusty_bundle.Storage.Stable.{IsStable}
use rusty_bundle.BundleManager
use rusty_bundle.BundleManager.{BundleManager}
use rusty_bundle.BundleManager.Stable.{
  handle_incoming_ack-IsStable, upsert_bundle-IsStable, manager_save-IsStable,
  manager_delete-IsStable, has_bundle-IsStable, manager_get-IsStable,
  get_bundles_from_node-IsStable,
}
use rusty_bundle.Registry.{PeerRecord}
use rusty_bundle.Engine.{State, Times, connected_peers, with_id, forward_to_each, is_nil}
use rusty_bundle.Engine.Route.{
  is_pending, is_in_transit, with_manager, with_net, upserted, propagate, route_ack, deliver,
  forward, route_data, route_bundle, mark_one, mark_sent, retry_unsynced_bundles, is_no_peer,
  retry_each,
}

module _ (j : Serde) (P : Store j.Text → Type 0) (stable : IsStable j P) where
  -- The predicate of the engine's store.
  abbrev pub Keeps : State j.Text → Type 0
  Keeps st = P st.bundle_manager.storage

  upserted-IsStable :
      (c : Clock) (b : Bundle) (st : State j.Text) → Keeps st → Keeps (upserted j c b st)
  upserted-IsStable c b st w = upsert_bundle-IsStable j P stable c b st.bundle_manager w

  propagate-IsStable :
      (a : Bundle) (ps : List PeerRecord) (st : State j.Text)
      → Keeps st
      → Keeps (propagate j a ps st).1
  unfolding propagate
  propagate-IsStable a ps st w = w

  route_ack-IsStable :
      (t : Times) (b : Bundle) (st : State j.Text) → Keeps st → Keeps (route_ack j t b st).1
  unfolding route_ack
  route_ack-IsStable t b st w =
      let (connected, n1) = connected_peers st.node_id (with_id st.peers b.destination.id) st.net in
      let (first, m) = BundleManager.handle_incoming_ack j t.stored b st.bundle_manager in
      let w1 = handle_incoming_ack-IsStable j P stable t.stored b st.bundle_manager w in
      let st1 = with_manager j (with_net j st n1) m in
      let st2 = (propagate j b connected st1).1 in
      let w2 = propagate-IsStable b connected st1 w1 in
      let bd = record b { shipment_status = delivered } in
      let bt = record b { shipment_status = in_transit } in
      elim (Bool-cases (st.node_id == b.destination.id)) [
        | inl e ↦ rw e (upserted-IsStable t.acked bd st1 w1)
        | inr e ↦ rw e (elim (Bool-cases (not first)) [
          | inl e ↦ rw e (w1)
          | inr e ↦ rw e (elim (Bool-cases (ltb 0 (propagate j b connected st1).0)) [
            | inl e ↦ rw e (upserted-IsStable t.marked bt st2 w2)
            | inr e ↦ rw e (w2)
          ])
        ])
      ]

  deliver-IsStable :
      (t : Times) (fresh : Uuid) (b : Bundle) (ps : List PeerRecord) (st : State j.Text)
      → Keeps st
      → Keeps (deliver j t fresh b ps st).1
  unfolding deliver
  deliver-IsStable t fresh b ps st w =
      let bd = record b { shipment_status = delivered } in
      let st1 = upserted j t.stored bd st in
      let w1 = upserted-IsStable t.stored bd st w in
      let a = new_ack t.acked fresh bd in
      let (known, m2) = BundleManager.has_bundle j a.id st1.bundle_manager in
      let (saved, m3) = BundleManager.save_bundle j t.acked a m2 in
      let w2 = has_bundle-IsStable j P stable a.id st1.bundle_manager w1 in
      let w3 = manager_save-IsStable j P stable t.acked a m2 w2 in
      let st2 = with_manager j st1 (if known then m2 else m3) in
      let wk : Keeps st2 = elim (Bool-cases known) [ inl e ↦ rw e w2 | inr e ↦ rw e w3 ] in
      let st3 = (propagate j a ps st2).1 in
      let w4 = propagate-IsStable a ps st2 wk in
      let at = record a { shipment_status = in_transit } in
      elim (Bool-cases (not (if known then false else saved))) [
        | inl e ↦ rw e (wk)
        | inr e ↦ rw e (elim (Bool-cases (ltb 0 (propagate j a ps st2).0)) [
          | inl e ↦ rw e (upserted-IsStable t.marked at st3 w4)
          | inr e ↦ rw e (w4)
        ])
      ]

  forward-IsStable :
      (t : Times) (b : Bundle) (ps : List PeerRecord) (st : State j.Text)
      → Keeps st
      → Keeps (forward j t b ps st).1
  unfolding forward
  forward-IsStable t b ps st w =
      let m1 = (BundleManager.save_bundle j t.stored b st.bundle_manager).1 in
      let w1 = manager_save-IsStable j P stable t.stored b st.bundle_manager w in
      let (local_sv, m2) = BundleManager.get_bundles_from_node j m1 in
      let w2 = get_bundles_from_node-IsStable j P stable m1 w1 in
      let pending_bundles = retain (λ b. is_pending b.shipment_status) local_sv in
      let n2 = (forward_to_each pending_bundles ps st.net).1 in
      let st2 = with_net j (with_manager j st m2) n2 in
      let bt = record b { shipment_status = in_transit } in
      elim (Bool-cases ((forward_to_each pending_bundles ps st.net).0)) [
        | inl e ↦ rw e (upserted-IsStable t.marked bt st2 w2)
        | inr e ↦ rw e (w2)
      ]

  route_data-IsStable :
      (t : Times) (fresh : Uuid) (b : Bundle) (st : State j.Text)
      → Keeps st
      → Keeps (route_data j t fresh b st).1
  unfolding route_data
  route_data-IsStable t fresh b st w =
      let (ps, n1) = connected_peers st.node_id (with_id st.peers b.source.id) st.net in
      let st1 = with_net j st n1 in
      elim (Bool-cases (is_expired t.tested b)) [
        | inl e ↦ rw e (manager_delete-IsStable j P stable b.id st.bundle_manager w)
        | inr e ↦ rw e (elim (Bool-cases (st.node_id == b.destination.id)) [
          | inl e ↦ rw e (deliver-IsStable t fresh b ps st1 w)
          | inr e ↦ rw e (forward-IsStable t b ps st1 w)
        ])
      ]

  pub route_bundle-IsStable :
      (t : Times) (fresh : Uuid) (b : Bundle) (st : State j.Text)
      → Keeps st
      → Keeps (route_bundle j t fresh b st).1
  unfolding route_bundle
  route_bundle-IsStable t fresh b st w = elim (Bool-cases (is_ack b.kind)) [
    | inl e ↦ rw e (route_ack-IsStable t b st w)
    | inr e ↦ rw e (route_data-IsStable t fresh b st w)
  ]

  mark_one-IsStable :
      (c : Clock) (found : Option Bundle) (m : BundleManager j.Text)
      → P m.storage
      → P (mark_one j c found m).storage
  unfolding mark_one
  mark_one-IsStable c none m w = w
  mark_one-IsStable c (some b) m w =
      upsert_bundle-IsStable j P stable c (record b { shipment_status = in_transit }) m w

  mark_sent-IsStable :
      (c : Clock) (ids : List Uuid) (m : BundleManager j.Text)
      → P m.storage
      → P (mark_sent j c ids m).storage
  unfolding mark_sent
  mark_sent-IsStable c [] m w = w
  mark_sent-IsStable c (id ∷ ids) m w =
      let (found, m1) = BundleManager.get j id m in
      mark_sent-IsStable c ids (mark_one j c found m1)
        (mark_one-IsStable c found m1 (manager_get-IsStable j P stable id m w))

  pub retry_unsynced_bundles-IsStable :
      (c : Clock) (st : State j.Text) → Keeps st → Keeps (retry_unsynced_bundles j c st)
  unfolding retry_unsynced_bundles
  retry_unsynced_bundles-IsStable c st w =
      let (ps, n1) = connected_peers st.node_id st.peers st.net in
      let (local_sv, m1) = BundleManager.get_bundles_from_node j st.bundle_manager in
      let w1 = get_bundles_from_node-IsStable j P stable st.bundle_manager w in
      let retryable =
        retain (λ b. is_pending b.shipment_status || is_in_transit b.shipment_status) local_sv in
      let (ids, n2) = retry_each j retryable ps [] n1 in
      elim (Bool-cases (is_no_peer j ps)) [
        | inl e ↦ rw e w
        | inr e ↦ rw e (elim (Bool-cases (is_nil retryable)) [
          | inl e ↦ rw e w1
          | inr e ↦ rw e (mark_sent-IsStable c ids m1 w1)
        ])
      ]
