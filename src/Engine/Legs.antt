-- ===== src/Engine/Legs.antt =====
-- The legs of a data bundle's way through `route_bundle` (src/routing/engine.rs): it leaves its
-- source, and it is delivered and acknowledged.
use mathlib.Core.List.{Mem, mem-cons_self, mem-append_right}
use rusty_bundle.Prelude.{
  ℕ, List, [], ◌∷◌, ◌++◌, Option, Bool, Bool-cases, true, false, ◌≡◌, refl, ap, ◌∙◌, arith, inl,
  inr, leb, ◌==◌, any, contains, retain, length, unwrap_or,
}
use rusty_bundle.Model.{Uuid, Bundle, pending, delivered, Clock, is_ack, is_expired}
use rusty_bundle.Model.Ack.{new_ack}
use rusty_bundle.Disk.{Serde, SerdeLaws}
use rusty_bundle.Storage
use rusty_bundle.Storage.{Store, has_id, is_ack_for}
use rusty_bundle.Storage.Contents.{live, admits, add, save}
use rusty_bundle.Storage.Access.{held, IsReliable}
use rusty_bundle.Storage.Refinement.{save_bundle-Refines, get_all_bundles-Holds}
use rusty_bundle.BundleManager
use rusty_bundle.BundleManager.{incoming, upsert}
use rusty_bundle.Registry.{PeerRecord}
use rusty_bundle.Engine.{State, Times, address_of, connected_peers, with_id, forward_to_each}
use rusty_bundle.Engine.Route.{is_pending, route_data, route_bundle, forward, with_net}
use rusty_bundle.Engine.Recipients.{reachable, connected-reachable}
use rusty_bundle.Engine.Branches.{engine_holds}
use rusty_bundle.Engine.Delivery.{kept_as_delivered, deliver_acknowledges, deliver-hands}
use rusty_bundle.Engine.Handing.{mem-retain, mem-forward_to_each}

pub vectors-connected :
    {Text : Type 0} (ids : List Uuid) (st : State Text)
    → (connected_peers st.node_id ids st.net).1.vectors ≡ st.net.vectors
unfolding connected_peers
vectors-connected ids st = ground arith

pub admitted :
    (c : Clock) (capacity : ℕ) (b : Bundle) (l : List Bundle)
    → admits capacity b (live c l) ≡ true
    → save c capacity b l ≡ (true, live c l ++ b ∷ [])
unfolding save add
admitted c capacity b l h = rw h refl

module _ (j : Serde) (laws : SerdeLaws j) (t : Times) (fresh : Uuid) (b : Bundle)
    (st : State j.Text) (r : IsReliable st.bundle_manager.storage) where
  -- A new bundle is in store, and pending, when the peers are asked.
  pub is_forwarded :
      admits st.bundle_manager.storage.capacity b (live t.stored (engine_holds j st)) ≡ true
      → b.shipment_status ≡ pending
      → let m1 = (BundleManager.save_bundle j t.stored b st.bundle_manager).1 in
        Mem b
          (retain (λ x. is_pending x.shipment_status) (BundleManager.get_bundles_from_node j m1).0)
  unfolding BundleManager.save_bundle BundleManager.get_bundles_from_node
  is_forwarded ok' waits =
      let s = st.bundle_manager.storage in
      let s1 = (Storage.save_bundle j t.stored b s).1 in
      let l = live t.stored (held j s) in
      let h = save_bundle-Refines j laws s r t.stored b in
      let all : (Storage.get_all_bundles j s1).0 ≡ l ++ b ∷ [] =
        (get_all_bundles-Holds j laws s1 h.state.reliable).0
        ∙ h.state.on_disk
        ∙ ap (λ (x : Bool × List Bundle). x.1) (admitted t.stored s.capacity b (held j s) ok') in
      mem-retain (λ x. is_pending x.shipment_status) (Storage.get_all_bundles j s1).0 b
        (rw waits refl) (rw all (mem-append_right l mem-cons_self))

  -- With no failure of the file system: a new data bundle that is pending, has not expired, is for
  -- another node, and is admitted by the store, is handed to each connected peer whose summary
  -- vector lacks its id.
  pub route_bundle-hands :
      (before after : List PeerRecord) (p : PeerRecord) (vs rest : List (Option (List Uuid)))
      → (v : Option (List Uuid)) → is_ack b.kind ≡ false
      → is_expired t.tested b ≡ false
      → (st.node_id == b.destination.id) ≡ false
      → b.shipment_status ≡ pending
      → admits st.bundle_manager.storage.capacity b (live t.stored (engine_holds j st)) ≡ true
      → reachable st ≡ before ++ p ∷ after
      → st.net.vectors ≡ vs ++ v ∷ rest
      → length before ≡ length vs
      → contains (unwrap_or v []) b.id ≡ false
      → Mem (b, address_of p) (route_bundle j t fresh b st).1.net.log
  unfolding route_bundle route_data forward
  route_bundle-hands before after p vs rest v k fresh_enough elsewhere waits ok' near answers place
        lacks =
      let ids = with_id st.peers b.source.id in
      let (ps, n1) = connected_peers st.node_id ids st.net in
      let near' : ps ≡ before ++ p ∷ after = (connected-reachable ids st).0 ∙ near in
      let m1 = (BundleManager.save_bundle j t.stored b st.bundle_manager).1 in
      let local_sv = (BundleManager.get_bundles_from_node j m1).0 in
      let pending_bundles = retain (λ x. is_pending x.shipment_status) local_sv in
      let handed : Mem (b, address_of p) (forward_to_each pending_bundles ps n1).1.log = rw near' (
        mem-forward_to_each before after p vs rest v pending_bundles b n1
          (vectors-connected ids st ∙ answers) place lacks (is_forwarded ok' waits)) in
      rw (k, fresh_enough, elsewhere)
        (elim (Bool-cases (forward_to_each pending_bundles ps n1).0) [
          | inl x ↦ rw x handed
          | inr x ↦ rw x handed
        ])

  -- With no failure of the file system: at its destination a data bundle that has not expired is
  -- acknowledged in store, and each connected peer whose summary vector lacks the acknowledgement
  -- is handed it, if the acknowledgement's id is new and the store has a place for it.
  pub route_bundle-delivers :
      (before after : List PeerRecord) (p : PeerRecord) (vs rest : List (Option (List Uuid)))
      → (v : Option (List Uuid)) → is_ack b.kind ≡ false
      → is_expired t.tested b ≡ false
      → (st.node_id == b.destination.id) ≡ true
      → (let l = kept_as_delivered t st.bundle_manager.storage.capacity b (engine_holds j st) in
          (any (has_id fresh) l ≡ false)
          × (leb st.bundle_manager.storage.capacity (length (live t.acked l)) ≡ false))
      → reachable st ≡ before ++ p ∷ after
      → st.net.vectors ≡ vs ++ v ∷ rest
      → length before ≡ length vs
      → contains (unwrap_or v []) fresh ≡ false
      → let st' = (route_bundle j t fresh b st).1 in
        (any (is_ack_for b.id) (engine_holds j st') ≡ true)
        × Mem
            (new_ack t.acked fresh (record b { shipment_status = delivered }), address_of p)
            st'.net.log
  unfolding route_bundle route_data
  route_bundle-delivers before after p vs rest v k fresh_enough here room near answers place lacks =
      let ids = with_id st.peers b.source.id in
      let (ps, n1) = connected_peers st.node_id ids st.net in
      let st1 = with_net j st n1 in
      rw (k, fresh_enough, here)
        (
          (deliver_acknowledges j laws t fresh b ps st1 r room).0,
          deliver-hands j laws t fresh b ps st1 r before after p vs rest v room.0 room.1
              ((connected-reachable ids st).0 ∙ near) (vectors-connected ids st ∙ answers) place
              lacks,
        )
