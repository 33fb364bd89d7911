-- ===== src/Engine/Recipients.antt =====
-- To whom `route_bundle` (src/routing/engine.rs) sends.
use mathlib.Core.Path.{subst, subst₂}
use rusty_bundle.Prelude.{
  List, [], Bool-cases, false, not, ◌≡◌, arith, ltb, inl, inr, if◌then◌else◌, retain, ◌==◌,
}
use rusty_bundle.Model.{Uuid, Bundle, delivered, is_ack, is_expired}
use rusty_bundle.Disk.{Serde}
use rusty_bundle.BundleManager
use rusty_bundle.Registry.{PeerRecord}
use rusty_bundle.Engine.{
  State, Times, connected_peers, with_id, peers_needing, send_to_each, forward_to_each,
  get_connected_peers_from_server,
}
use rusty_bundle.Engine.Route.{
  upserted, is_pending, propagate, route_ack, deliver, forward, route_data, route_bundle, with_net,
  with_manager,
}
use rusty_bundle.Model.Ack.{new_ack}
use rusty_bundle.Engine.Sending.{
  Grew, same, Grew-trans, log-peers_needing, mem-peers_needing, Grew-send_to_each,
  Grew-forward_to_each,
}

-- The peers that the server returns next, less this node itself.
abbrev pub reachable : {Text : Type 0} → State Text → List PeerRecord
reachable st =
    retain (λ p. not (p.node.id == st.node_id)) (get_connected_peers_from_server [] st.net).0

pub connected-reachable :
    {Text : Type 0} (ids : List Uuid) (st : State Text)
    → ((connected_peers st.node_id ids st.net).0 ≡ reachable st)
      × ((connected_peers st.node_id ids st.net).1.log ≡ st.net.log)
unfolding connected_peers
connected-reachable ids st = ground arith

module _ (j : Serde) where
  Grew-propagate :
      (a : Bundle) (ps : List PeerRecord) (st : State j.Text)
      → Grew ps st.net.log (propagate j a ps st).1.net.log
  unfolding propagate
  Grew-propagate a ps st =
      let (needing, n1) = peers_needing a.id ps st.net in
      subst (λ l. Grew ps l (send_to_each a needing n1).1.log) (log-peers_needing a.id ps st.net)
        (Grew-send_to_each ps a needing n1 (λ p h. mem-peers_needing a.id ps st.net p h))

  Grew-route_ack :
      (t : Times) (b : Bundle) (st : State j.Text)
      → Grew (reachable st) st.net.log (route_ack j t b st).1.net.log
  unfolding route_ack
  Grew-route_ack t b st =
      let ids = with_id st.peers b.destination.id in
      let (ps, n1) = connected_peers st.node_id ids st.net in
      let (first, m) = BundleManager.handle_incoming_ack j t.stored b st.bundle_manager in
      let st1 = with_manager j (with_net j st n1) m in
      let (e, l) = connected-reachable ids st in
      let quiet : Grew (reachable st) st.net.log n1.log = rw l same in
      let loud : Grew (reachable st) st.net.log (propagate j b ps st1).1.net.log =
        Grew-trans quiet (
          subst (λ qs. Grew qs n1.log (propagate j b ps st1).1.net.log) e
            (Grew-propagate b ps st1)) in
      elim (Bool-cases (st.node_id == b.destination.id)) [
        | inl x ↦ rw x quiet
        | inr x ↦ rw x (elim (Bool-cases (not first)) [
          | inl y ↦ rw y quiet
          | inr y ↦ rw y (elim (Bool-cases (ltb 0 (propagate j b ps st1).0)) [
            | inl z ↦ rw z loud
            | inr z ↦ rw z loud
          ])
        ])
      ]

  Grew-deliver :
      (t : Times) (fresh : Uuid) (b : Bundle) (ps : List PeerRecord) (st : State j.Text)
      → Grew ps st.net.log (deliver j t fresh b ps st).1.net.log
  unfolding deliver
  Grew-deliver t fresh b ps st =
      let bd = record b { shipment_status = delivered } in
      let st1 = upserted j t.stored bd st in
      let a = new_ack t.acked fresh bd in
      let (known, m2) = BundleManager.has_bundle j a.id st1.bundle_manager in
      let (saved, m3) = BundleManager.save_bundle j t.acked a m2 in
      let st2 = with_manager j st1 (if known then m2 else m3) in
      let loud : Grew ps st.net.log (propagate j a ps st2).1.net.log = Grew-propagate a ps st2 in
      elim (Bool-cases (not (if known then false else saved))) [
        | inl x ↦ rw x same
        | inr x ↦ rw x (elim (Bool-cases (ltb 0 (propagate j a ps st2).0)) [
          | inl y ↦ rw y loud
          | inr y ↦ rw y loud
        ])
      ]

  Grew-forward :
      (t : Times) (b : Bundle) (ps : List PeerRecord) (st : State j.Text)
      → Grew ps st.net.log (forward j t b ps st).1.net.log
  unfolding forward
  Grew-forward t b ps st =
      let m1 = (BundleManager.save_bundle j t.stored b st.bundle_manager).1 in
      let local_sv = (BundleManager.get_bundles_from_node j m1).0 in
      let pending_bundles = retain (λ b. is_pending b.shipment_status) local_sv in
      let loud = Grew-forward_to_each ps pending_bundles ps st.net (λ p h. h) in
      elim (Bool-cases (forward_to_each pending_bundles ps st.net).0) [
        | inl x ↦ rw x loud
        | inr x ↦ rw x loud
      ]

  Grew-route_data :
      (t : Times) (fresh : Uuid) (b : Bundle) (st : State j.Text)
      → Grew (reachable st) st.net.log (route_data j t fresh b st).1.net.log
  unfolding route_data
  Grew-route_data t fresh b st =
      let ids = with_id st.peers b.source.id in
      let (ps, n1) = connected_peers st.node_id ids st.net in
      let st1 = with_net j st n1 in
      let (e, l) = connected-reachable ids st in
      let from_here : (r : Bundle × State j.Text)
          → Grew ps n1.log r.1.net.log
          → Grew (reachable st) st.net.log r.1.net.log =
        λ r g. subst₂ (λ qs k. Grew qs k r.1.net.log) e l g in
      elim (Bool-cases (is_expired t.tested b)) [
        | inl x ↦ rw x same
        | inr x ↦ rw x (elim (Bool-cases (st.node_id == b.destination.id)) [
          | inl y ↦ rw y (from_here (deliver j t fresh b ps st1) (Grew-deliver t fresh b ps st1))
          | inr y ↦ rw y (from_here (forward j t b ps st1) (Grew-forward t b ps st1))
        ])
      ]

  -- Routing a bundle hands bundles only to the addresses of peers that the registry server
  -- returned to this call, and never to the node's own record among them.
  pub Grew-route_bundle :
      (t : Times) (fresh : Uuid) (b : Bundle) (st : State j.Text)
      → Grew (reachable st) st.net.log (route_bundle j t fresh b st).1.net.log
  unfolding route_bundle
  Grew-route_bundle t fresh b st = elim (Bool-cases (is_ack b.kind)) [
    | inl x ↦ rw x (Grew-route_ack t b st)
    | inr x ↦ rw x (Grew-route_data t fresh b st)
  ]
