-- ===== src/Engine/Carrying.antt =====
-- Store and forward (src/routing/engine.rs): a bundle that is routed on its way is kept, and a later
-- retry pass hands it to peers that were not there before.
use mathlib.Core.List.{Mem, mem-cons_self, mem-cons_of_mem, mem-append_right}
use rusty_bundle.Prelude.{
  ℕ, List, [], ◌∷◌, ◌++◌, Option, Bool, Bool-cases, true, false, ◌≡◌, refl, ap, ◌∙◌, arith, inl,
  inr, ◌==◌, any, any-append, contains, retain, length, unwrap_or, modify_first,
}
use rusty_bundle.Model.{
  Uuid, Bundle, BundleKind, data_msg, ack, request_sv, summary_vector, pending, in_transit, Clock,
  is_ack, is_expired,
}
use rusty_bundle.Disk.{Serde, SerdeLaws}
use rusty_bundle.Storage
use rusty_bundle.Storage.{has_id, is_ack_for}
use rusty_bundle.Storage.Contents.{live, acked, admits, update}
use rusty_bundle.Storage.Access.{held, IsReliable}
use rusty_bundle.Storage.Refinement.{save_bundle-Refines, get_all_bundles-Holds}
use rusty_bundle.BundleManager
use rusty_bundle.BundleManager.{upsert}
use rusty_bundle.BundleManager.Refinement.{upsert-Refines}
use rusty_bundle.BundleManager.Contents as Lists
use rusty_bundle.Registry.{PeerRecord}
use rusty_bundle.Engine.{Net, State, Times, connected_peers, with_id, address_of, forward_to_each}
use rusty_bundle.Engine.Route.{
  is_pending, route_data, route_bundle, forward, retry_unsynced_bundles, with_net,
}
use rusty_bundle.Engine.Recipients.{reachable}
use rusty_bundle.Engine.Branches.{engine_holds}
use rusty_bundle.Engine.Legs.{admitted}
use rusty_bundle.Engine.Retrying.{is_unsynced, retry_unsynced_bundles-hands}

mem-modify_first :
    (id : Uuid) (b : Bundle) (l : List Bundle)
    → any (has_id id) l ≡ true
    → Mem b (modify_first (has_id id) (λ _. b) l)
mem-modify_first id b [] h = absurd (ground arith)
mem-modify_first id b (x ∷ xs) h = elim (Bool-cases (has_id id x)) [
  | inl e ↦ rw e mem-cons_self
  | inr e ↦
      (let later : any (has_id id) xs ≡ true = ground arith in
        rw e (mem-cons_of_mem x (mem-modify_first id b xs later)))
]

not_own_ack : (id : Uuid) (b : Bundle) → is_ack b.kind ≡ false → is_ack_for id b ≡ false
not_own_ack id b k = by_kind b.kind k
  where
    by_kind : (i : BundleKind) → is_ack i ≡ false → is_ack_for id (record b { kind = i }) ≡ false
    by_kind (data_msg m) h = refl
    by_kind (ack d) h = ground arith
    by_kind (request_sv f) h = refl
    by_kind (summary_vector ids) h = refl

mem-upsert :
    (c : Clock) (capacity : ℕ) (b : Bundle) (l : List Bundle)
    → is_ack b.kind ≡ false
    → acked b l ≡ false
    → let b' = record b { shipment_status = in_transit } in
      Mem b' (Lists.upsert c capacity b' (l ++ b ∷ [])).1
unfolding Lists.upsert update
mem-upsert c capacity b l k free =
    let there : any (has_id b.id) (l ++ b ∷ []) ≡ true =
      ground (arith, any-append (has_id b.id) l (b ∷ [])) in
    let free' : acked b (l ++ b ∷ []) ≡ false =
      ground (arith, any-append (is_ack_for b.id) l (b ∷ []), not_own_ack b.id b k) in
    rw (there, free') (mem-modify_first b.id _ (l ++ b ∷ []) there)

-- The routed bundle is in store as it is returned, and waits to be sent.
pub record IsCarried (j : Serde) (b : Bundle) (x : Bundle × State j.Text) : Type 0 where
  pub in_store : Mem x.0 (engine_holds j x.1)
  pub unsynced : is_unsynced x.0 ≡ true
  pub still_reliable : IsReliable x.1.bundle_manager.storage
  pub same_id : x.0.id ≡ b.id

module _ (j : Serde) (laws : SerdeLaws j) (t : Times) (b : Bundle) (st : State j.Text)
    (r : IsReliable st.bundle_manager.storage) where
  forward-IsCarried :
      (ps : List PeerRecord)
      → is_ack b.kind ≡ false
      → b.shipment_status ≡ pending
      → admits st.bundle_manager.storage.capacity b (live t.stored (engine_holds j st)) ≡ true
      → IsCarried j b (forward j t b ps st)
  unfolding forward BundleManager.save_bundle BundleManager.get_bundles_from_node
      BundleManager.upsert_bundle
  forward-IsCarried ps k waits ok' =
      let s = st.bundle_manager.storage in
      let l = live t.stored (held j s) in
      let h = save_bundle-Refines j laws s r t.stored b in
      let s1 = (Storage.save_bundle j t.stored b s).1 in
      let g = (get_all_bundles-Holds j laws s1 h.state.reliable).1 in
      let s2 = (Storage.get_all_bundles j s1).1 in
      let local_sv = (Storage.get_all_bundles j s1).0 in
      let kept : held j s2 ≡ l ++ b ∷ [] =
        g.on_disk
        ∙ h.state.on_disk
        ∙ ap (λ (x : Bool × List Bundle). x.1) (admitted t.stored s.capacity b (held j s) ok') in
      let bt = record b { shipment_status = in_transit } in
      let u = upsert-Refines j laws t.marked bt s2 g.reliable in
      let free : acked b l ≡ false = ground arith in
      let marked : Mem bt (held j (upsert j t.marked bt s2).1) =
        rw u.state.on_disk (rw kept (mem-upsert t.marked s2.capacity b l k free)) in
      elim (Bool-cases
        (forward_to_each (retain (λ x. is_pending x.shipment_status) local_sv) ps st.net).0) [
          | inl e ↦ rw e (record {
            in_store = marked;
            unsynced = refl;
            still_reliable = u.state.reliable;
            same_id = refl;
          })
          | inr e ↦ rw e (record {
            in_store = rw kept (mem-append_right l mem-cons_self);
            unsynced = rw waits refl;
            still_reliable = g.reliable;
            same_id = refl;
          })
        ]

module _ (j : Serde) (laws : SerdeLaws j) (t : Times) (fresh : Uuid) (b : Bundle)
    (st : State j.Text) (r : IsReliable st.bundle_manager.storage) where
  pub route_bundle-IsCarried :
      is_ack b.kind ≡ false
      → is_expired t.tested b ≡ false
      → (st.node_id == b.destination.id) ≡ false
      → b.shipment_status ≡ pending
      → admits st.bundle_manager.storage.capacity b (live t.stored (engine_holds j st)) ≡ true
      → IsCarried j b (route_bundle j t fresh b st)
  unfolding route_bundle route_data
  route_bundle-IsCarried k unexpired elsewhere waits ok' =
      let (ps, n1) = connected_peers st.node_id (with_id st.peers b.source.id) st.net in
      let c = with_net j st n1 in
      rw (k, unexpired, elsewhere) (forward-IsCarried j laws t b c r ps k waits ok')

  -- Store, carry and forward, with no failure of the file system: a new data bundle that is pending,
  -- has not expired, is for another node, and is admitted by the store, is in store as it is returned
  -- by `route_bundle`, whatever the network answers. A retry pass over this store, whatever the
  -- network has become by then, hands it to each connected peer whose summary vector lacks its id.
  pub route_bundle-carries :
      (c : Clock) (later : Net) (before after : List PeerRecord) (p : PeerRecord)
      → (vs rest : List (Option (List Uuid))) (v : Option (List Uuid)) → is_ack b.kind ≡ false
      → is_expired t.tested b ≡ false
      → (st.node_id == b.destination.id) ≡ false
      → b.shipment_status ≡ pending
      → admits st.bundle_manager.storage.capacity b (live t.stored (engine_holds j st)) ≡ true
      → reachable (with_net j (route_bundle j t fresh b st).1 later) ≡ before ++ p ∷ after
      → later.vectors ≡ vs ++ v ∷ rest
      → length before ≡ length vs
      → contains (unwrap_or v []) b.id ≡ false
      → let (b', st') = route_bundle j t fresh b st in
        Mem b' (engine_holds j st')
        × Mem (b', address_of p) (retry_unsynced_bundles j c (with_net j st' later)).net.log
  route_bundle-carries c later before after p vs rest v k unexpired elsewhere waits ok' near answers
        place lacks =
      let h = route_bundle-IsCarried k unexpired elsewhere waits ok' in
      let st' = (route_bundle j t fresh b st).1 in
      (
        h.in_store,
        retry_unsynced_bundles-hands j laws c (with_net j st' later) h.still_reliable before after p
            vs rest v (route_bundle j t fresh b st).0 h.in_store h.unsynced near answers place
            (rw h.same_id lacks),
      )
