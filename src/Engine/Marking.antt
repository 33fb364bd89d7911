-- ===== src/Engine/Marking.antt =====
-- What the status of a bundle that `route_bundle` (src/routing/engine.rs) returns tells of the sends.
use mathlib.Core.List.{Mem}
use mathlib.Core.Path.{subst}
use rusty_bundle.Prelude.{
  List, [], ◌∷◌, ◌++◌, Option, true, false, ◌≡◌, refl, ◌∙◌, ◌==◌, contains, retain, length,
  unwrap_or,
}
use rusty_bundle.Model.{Uuid, Bundle, pending, in_transit, is_ack, is_expired}
use rusty_bundle.Disk.{Serde, SerdeLaws}
use rusty_bundle.Storage.Contents.{live, admits}
use rusty_bundle.Storage.Access.{IsReliable}
use rusty_bundle.BundleManager
use rusty_bundle.Registry.{PeerRecord}
use rusty_bundle.Engine.{State, Times, connected_peers, with_id, forward_to_each}
use rusty_bundle.Engine.Route.{is_pending, route_data, route_bundle, forward}
use rusty_bundle.Engine.Recipients.{reachable, connected-reachable}
use rusty_bundle.Engine.Branches.{engine_holds}
use rusty_bundle.Engine.Handing.{forward_to_each-sends}
use rusty_bundle.Engine.Legs.{is_forwarded, vectors-connected}
use rusty_bundle.Engine.Carrying.{route_bundle-IsCarried}

module _ (j : Serde) (laws : SerdeLaws j) (t : Times) (fresh : Uuid) (b : Bundle)
    (st : State j.Text) (r : IsReliable st.bundle_manager.storage) where
  -- With no failure of the file system: a new data bundle that is pending, has not expired, is for
  -- another node, and is admitted by the store, is returned in transit and is in store so, if the
  -- summary vector of one connected peer lacks its id, whatever the sends return: also if every one
  -- of them fails.
  pub route_bundle_marks_unsent :
      (before after : List PeerRecord) (p : PeerRecord) (vs rest : List (Option (List Uuid)))
      → (v : Option (List Uuid)) → is_ack b.kind ≡ false
      → is_expired t.tested b ≡ false
      → (st.node_id == b.destination.id) ≡ false
      → b.shipment_status ≡ pending
      → admits st.bundle_manager.storage.capacity b (live t.stored (engine_holds j st)) ≡ true
      → reachable st ≡ before ++ p ∷ after
      → st.net.vectors ≡ vs ++ v ∷ rest
      → length before ≡ length vs
      → contains (unwrap_or v []) b.id ≡ false
      → let (b', st') = route_bundle j t fresh b st in
        (b' ≡ record b { shipment_status = in_transit })
        × Mem (record b { shipment_status = in_transit }) (engine_holds j st')
  unfolding route_bundle route_data forward
  route_bundle_marks_unsent before after p vs rest v k unexpired elsewhere waits ok' near answers
        place lacks =
      let ids = with_id st.peers b.source.id in
      let (ps, n1) = connected_peers st.node_id ids st.net in
      let near' : ps ≡ before ++ p ∷ after = (connected-reachable ids st).0 ∙ near in
      let m1 = (BundleManager.save_bundle j t.stored b st.bundle_manager).1 in
      let local_sv = (BundleManager.get_bundles_from_node j m1).0 in
      let pending_bundles = retain (λ x. is_pending x.shipment_status) local_sv in
      let sends : (forward_to_each pending_bundles ps n1).0 ≡ true = rw near' (
        forward_to_each-sends before after p vs rest v pending_bundles b n1
          (vectors-connected ids st ∙ answers) place lacks
          (is_forwarded j laws t fresh b st r ok' waits)) in
      let marked : (route_bundle j t fresh b st).0 ≡ record b { shipment_status = in_transit } =
        rw (k, unexpired, elsewhere, sends) refl in
      let kept =
        (route_bundle-IsCarried j laws t fresh b st r k unexpired elsewhere waits ok').in_store in
      (marked, subst (λ x. Mem x (engine_holds j (route_bundle j t fresh b st).1)) marked kept)
