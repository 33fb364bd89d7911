-- ===== src/Engine/Delivery.antt =====
-- A data bundle at its destination (src/routing/engine.rs): what is kept and what is returned.
use mathlib.Core.Path.{subst, subst₂}
use mathlib.Core.List.{Mem}
use rusty_bundle.Prelude.{
  ℕ, List, [], ◌∷◌, ◌++◌, Bool, Bool-cases, true, false, not, ◌≡◌, refl, ◌∙◌, ap, arith, ltb, leb,
  inl, inr, Option, contains, unwrap_or, any, any-append, any-retain-false, length, is_some,
  modify_first,
}
use rusty_bundle.Model.{Uuid, Bundle, ack, in_transit, delivered, Clock, is_expired}
use rusty_bundle.Model.Ack.{new_ack}
use rusty_bundle.Disk.{Serde, SerdeLaws}
use rusty_bundle.Storage
use rusty_bundle.Storage.{Store, has_id, is_ack_for}
use rusty_bundle.Storage.Contents.{live, add, save, update}
use rusty_bundle.Storage.Access.{held, IsReliable, Holds}
use rusty_bundle.Storage.Refinement.{Refines, get_bundle-Holds, save_bundle-Refines}
use rusty_bundle.BundleManager
use rusty_bundle.BundleManager.{upsert}
use rusty_bundle.BundleManager.Refinement.{upsert-Refines, from_held, found_of}
use rusty_bundle.BundleManager.Contents as Lists
use rusty_bundle.Registry.{PeerRecord}
use rusty_bundle.Engine.{State, Times, address_of, peers_needing}
use rusty_bundle.Engine.Handing.{mem-peers_needing_of_lacks, mem-send_to_each}
use rusty_bundle.Engine.Route.{propagate, deliver, with_manager}
use rusty_bundle.Engine.Branches.{engine_holds}

any-modify_first-true :
    (p q : Bundle → Bool) (b : Bundle) (l : List Bundle)
    → q b ≡ true
    → any p l ≡ true
    → any q (modify_first p (λ _. b) l) ≡ true
any-modify_first-true p q b [] h g = ground (arith, g)
any-modify_first-true p q b (x ∷ xs) h g = ground (arith, any-modify_first-true p q b xs)

-- An acknowledgement that replaces one of its id leaves the data bundle acknowledged.
any-upsert :
    (c : Clock) (capacity : ℕ) (d : Uuid) (a : Bundle) (l : List Bundle)
    → a.kind ≡ ack d
    → any (has_id a.id) l ≡ true
    → any (is_ack_for d) (Lists.upsert c capacity a l).1 ≡ true
unfolding Lists.upsert update
any-upsert c capacity d a l k h =
    ground (arith, any-modify_first-true (has_id a.id) (is_ack_for d) a l)

-- A fresh acknowledgement finds room.
add_ack :
    (capacity : ℕ) (d : Uuid) (a : Bundle) (l : List Bundle)
    → a.kind ≡ ack d
    → any (has_id a.id) l ≡ false
    → leb capacity (length l) ≡ false
    → add capacity a l ≡ (true, l ++ a ∷ [])
unfolding add
add_ack capacity d a l k h room = ground arith

-- The contents once the bundle is kept as delivered.
abbrev pub kept_as_delivered : Times → ℕ → Bundle → List Bundle → List Bundle
kept_as_delivered t capacity b l =
    (Lists.upsert t.stored capacity (record b { shipment_status = delivered }) l).1

module _ (j : Serde) (laws : SerdeLaws j) (t : Times) (fresh : Uuid) (b : Bundle)
    (ps : List PeerRecord) (st : State j.Text) (r : IsReliable st.bundle_manager.storage) where
  abbrev delivered_now : Bundle
  delivered_now = record b { shipment_status = delivered }

  -- The acknowledgement that is made.
  abbrev made : Bundle
  made = new_ack t.acked fresh delivered_now

  -- The store when the bundle is kept, and when the id of the acknowledgement has been looked up.
  abbrev stored_at : Store j.Text
  stored_at = (upsert j t.stored delivered_now st.bundle_manager.storage).1

  abbrev looked_up : Store j.Text
  looked_up = (Storage.get_bundle j fresh stored_at).1

  abbrev kept_then : List Bundle
  kept_then = kept_as_delivered t st.bundle_manager.storage.capacity b (engine_holds j st)

  -- The new acknowledgement is unknown, and is saved.
  deliver_saves :
      any (has_id fresh) kept_then ≡ false
      → leb st.bundle_manager.storage.capacity (length (live t.acked kept_then)) ≡ false
      → (is_some (Storage.get_bundle j fresh stored_at).0 ≡ false)
        × Refines j
            (true, live t.acked kept_then ++ made ∷ [])
            st.bundle_manager.storage.capacity
            (Storage.save_bundle j t.acked made looked_up)
  unfolding new_ack save
  deliver_saves unknown room =
      let s = st.bundle_manager.storage in
      let h1 = (upsert-Refines j laws t.stored delivered_now s r).state in
      let kept = live t.acked kept_then in
      let h2 : Holds j kept_then s.capacity looked_up =
        subst₂ (λ k n. Holds j k n looked_up) h1.on_disk h1.limit
          (get_bundle-Holds j laws stored_at h1.reliable fresh).1 in
      (
        found_of j laws fresh stored_at h1.reliable ∙ ap (any (has_id fresh)) h1.on_disk ∙ unknown,
        subst (λ x. Refines j x s.capacity (Storage.save_bundle j t.acked made looked_up))
            (add_ack s.capacity b.id made kept refl
              (any-retain-false (has_id fresh) (λ x. not (is_expired t.acked x)) kept_then unknown)
              room)
            (from_held j laws looked_up h2 (λ n k. save t.acked n made k)
              (Storage.save_bundle j t.acked made looked_up)
              (save_bundle-Refines j laws looked_up h2.reliable t.acked made)),
      )

  -- With no failure of the file system: at the destination of a data bundle, if the id of the new
  -- acknowledgement is in no bundle of the store and the store has a place for it when the bundle
  -- has been kept, then an acknowledgement of the bundle is in store at the end, whatever the
  -- network answers, and the bundle is returned as delivered.
  pub deliver_acknowledges :
      (let l = kept_as_delivered t st.bundle_manager.storage.capacity b (engine_holds j st) in
        (any (has_id fresh) l ≡ false)
        × (leb st.bundle_manager.storage.capacity (length (live t.acked l)) ≡ false))
      → let (b', st') = deliver j t fresh b ps st in
        (any (is_ack_for b.id) (engine_holds j st') ≡ true)
        × (b' ≡ record b { shipment_status = delivered })
  unfolding deliver propagate new_ack BundleManager.has_bundle BundleManager.save_bundle
      BundleManager.upsert_bundle
  deliver_acknowledges (unknown, room) =
      let kept = live t.acked kept_then in
      let (known, h3) = deliver_saves unknown room in
      let s3 = (Storage.save_bundle j t.acked made looked_up).1 in
      let acked_now : any (is_ack_for b.id) (held j s3) ≡ true =
        ap (any (is_ack_for b.id)) h3.state.on_disk
        ∙ any-append (is_ack_for b.id) kept (made ∷ [])
        ∙ ground arith in
      let there : any (has_id fresh) (held j s3) ≡ true =
        ap (any (has_id fresh)) h3.state.on_disk
        ∙ any-append (has_id fresh) kept (made ∷ [])
        ∙ ground arith in
      let a' = record made { shipment_status = in_transit } in
      let v = upsert-Refines j laws t.marked a' s3 h3.state.reliable in
      let m3 = record st.bundle_manager { storage = s3 } in
      rw (known, h3.result)
        (elim (Bool-cases (ltb 0 (propagate j made ps (with_manager j st m3)).0)) [
          | inl x ↦ rw x (
            ap (any (is_ack_for b.id)) v.state.on_disk
                ∙ any-upsert t.marked s3.capacity b.id a' (held j s3) refl there,
            refl,
          )
          | inr x ↦ rw x (acked_now, refl)
        ])

  -- Under the same conditions, the acknowledgement is handed to each peer whose vector lacks it.
  pub deliver-hands :
      (before after : List PeerRecord) (p : PeerRecord) (vs rest : List (Option (List Uuid)))
      → (v : Option (List Uuid)) → any (has_id fresh) kept_then ≡ false
      → leb st.bundle_manager.storage.capacity (length (live t.acked kept_then)) ≡ false
      → ps ≡ before ++ p ∷ after
      → st.net.vectors ≡ vs ++ v ∷ rest
      → length before ≡ length vs
      → contains (unwrap_or v []) fresh ≡ false
      → Mem (made, address_of p) (deliver j t fresh b ps st).1.net.log
  unfolding deliver propagate new_ack BundleManager.has_bundle BundleManager.save_bundle
      BundleManager.upsert_bundle
  deliver-hands before after p vs rest v unknown room at_p answers before_p lacks =
      let (known, h3) = deliver_saves unknown room in
      let s3 = (Storage.save_bundle j t.acked made looked_up).1 in
      let m3 = record st.bundle_manager { storage = s3 } in
      let (needing, n1) = peers_needing fresh ps st.net in
      let needs : Mem p needing =
        rw at_p (
          mem-peers_needing_of_lacks before after p vs rest v fresh st.net answers before_p
            lacks) in
      let handed : Mem (made, address_of p) (propagate j made ps (with_manager j st m3)).1.net.log =
        mem-send_to_each made needing p n1 needs in
      rw (known, h3.result)
        (elim (Bool-cases (ltb 0 (propagate j made ps (with_manager j st m3)).0)) [
          | inl x ↦ rw x handed
          | inr x ↦ rw x handed
        ])
