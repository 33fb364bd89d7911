-- ===== src/BundleManager/Refinement.antt =====
-- With no failure of the file system, the methods of src/routing/bundleManager.rs do to the file
-- what `BundleManager.Contents` says of lists.
use mathlib.Core.Path.{subst₂}
use rusty_bundle.Prelude.{
  ℕ, List, [], ◌∷◌, Option, none, some, Bool, Bool-cases, not, ◌&&◌, ◌||◌, ◌≡◌, refl, sym, ap, ◌∙◌,
  arith, inl, inr, any, is_some, find, is_some-find, find_sound, modify_first, retain-not_none,
}
use rusty_bundle.Model.{Uuid, Bundle, Clock, ack, delivered}
use rusty_bundle.Disk.{Serde, SerdeLaws}
use rusty_bundle.Storage
use rusty_bundle.Storage.{Store, has_id, is_ack_for}
use rusty_bundle.Storage.Contents.{without, acked, save, update, delete}
use rusty_bundle.Storage.Access.{Holds, held, IsReliable}
use rusty_bundle.Storage.Refinement.{
  Refines, save_bundle-Refines, delete_bundle-Refines, update_bundle-Refines, get_bundle-Holds,
  get_all_bundles-Holds,
}
use rusty_bundle.BundleManager.{upsert, settle, ack_known, incoming}
use rusty_bundle.BundleManager.Contents as Lists

module _ (j : Serde) (laws : SerdeLaws j) where
  -- A refinement from a state that holds `l`.
  pub from_held :
      {l : List Bundle} {capacity : ℕ} (s : Store j.Text)
      → Holds j l capacity s
      → (spec : ℕ → List Bundle → Bool × List Bundle) (r : Bool × Store j.Text)
      → Refines j (spec s.capacity (held j s)) s.capacity r
      → Refines j (spec capacity l) capacity r
  from_held s h spec r f = subst₂ (λ n l. Refines j (spec n l) n r) h.limit h.on_disk f

  pub found_of :
      (id : Uuid) (s : Store j.Text)
      → IsReliable s
      → is_some (Storage.get_bundle j id s).0 ≡ any (has_id id) (held j s)
  found_of id s r =
      ap is_some (get_bundle-Holds j laws s r id).0 ∙ is_some-find (has_id id) (held j s)

  -- With no failure, `upsert_bundle` updates the bundle where its id is in store, and saves it
  -- where not.
  pub upsert-Refines :
      (c : Clock) (b : Bundle) (s : Store j.Text)
      → IsReliable s
      → Refines j (Lists.upsert c s.capacity b (held j s)) s.capacity (upsert j c b s)
  unfolding upsert Lists.upsert
  upsert-Refines c b s r =
      let h = (get_bundle-Holds j laws s r b.id).1 in
      let s1 = (Storage.get_bundle j b.id s).1 in
      elim (Bool-cases (any (has_id b.id) (held j s))) [
        | inl e ↦
            rw (found_of b.id s r, e)
              (from_held s1 h (λ _ l. update b l) (Storage.update_bundle j b s1)
                (update_bundle-Refines j laws s1 h.reliable b))
        | inr e ↦
            rw (found_of b.id s r, e)
              (from_held s1 h (λ n l. save c n b l) (Storage.save_bundle j c b s1)
                (save_bundle-Refines j laws s1 h.reliable c b))
      ]

  without-modify_first :
      (d : Uuid) (x : Bundle) (l : List Bundle)
      → x.id ≡ d
      → without d (modify_first (has_id x.id) (λ _. x) l) ≡ without d l
  without-modify_first d x [] e = refl
  without-modify_first d x (b ∷ bs) e = ground (arith, without-modify_first d x bs)

  without-update :
      (d : Uuid) (x : Bundle) (l : List Bundle) → x.id ≡ d → without d (update x l).1 ≡ without d l
  unfolding update
  without-update d x l e = elim (Bool-cases (not (acked x l) && any (has_id x.id) l)) [
    | inl t ↦ rw t (without-modify_first d x l e)
    | inr f ↦ rw f refl
  ]

  settle-Holds :
      {l : List Bundle} {capacity : ℕ} (d : Uuid) (found : Option Bundle) (s : Store j.Text)
      → Holds j l capacity s
      → found ≡ find (has_id d) l
      → Holds j (without d l) capacity (settle j found d s)
  unfolding settle delete
  settle-Holds {l} {capacity} d none s h e =
      rw (retain-not_none (has_id d) l (sym (is_some-find (has_id d) l) ∙ sym (ap is_some e))) h
  settle-Holds {l} {capacity} d (some x) s h e =
      let x' = record x { shipment_status = delivered } in
      let is_d : x.id ≡ d = ground (arith, find_sound (has_id d) l x) in
      let u =
        from_held s h (λ _ k. update x' k) (Storage.update_bundle j x' s)
          (update_bundle-Refines j laws s h.reliable x') in
      let s1 = (Storage.update_bundle j x' s).1 in
      let v =
        from_held s1 u.state (λ _ k. delete d k) (Storage.delete_bundle j d s1)
          (delete_bundle-Refines j laws s1 u.state.reliable d) in
      rw (← without-update d x' l is_d) v.state

  ack_known-Holds :
      {l : List Bundle} {capacity : ℕ} (d id : Uuid) (s : Store j.Text)
      → Holds j l capacity s
      → ((ack_known j d id s).0 ≡ (any (is_ack_for d) l || any (has_id id) l))
        × Holds j l capacity (ack_known j d id s).1
  unfolding ack_known
  ack_known-Holds {l} {capacity} d id s h =
      let (e, h1) = get_all_bundles-Holds j laws s h.reliable in
      let s1 = (Storage.get_all_bundles j s).1 in
      let h1' : Holds j l capacity s1 = subst₂ (λ k n. Holds j k n s1) h.on_disk h.limit h1 in
      let (e2, h2) = get_bundle-Holds j laws s1 h1'.reliable id in
      elim (Bool-cases (any (is_ack_for d) l)) [
        | inl t ↦ rw (e ∙ h.on_disk, t) (refl, h1')
        | inr f ↦
            rw (e ∙ h.on_disk, f)
              (
                found_of id s1 h1'.reliable ∙ ap (any (has_id id)) h1'.on_disk,
                subst₂ (λ k n. Holds j k n (Storage.get_bundle j id s1).1) h1'.on_disk h1'.limit h2,
              )
      ]

  -- With no failure, `handle_incoming_ack` of an acknowledgement drops the data bundle that it
  -- names. It saves the acknowledgement, unless one for that bundle or one of its own id is in
  -- store: then it returns false.
  pub incoming-Refines :
      (c : Clock) (a : Bundle) (d : Uuid) (s : Store j.Text)
      → IsReliable s
      → Refines j
          (Lists.accept_ack c s.capacity d a (held j s))
          s.capacity
          (incoming j (ack d) c a s)
  unfolding incoming Lists.accept_ack
  incoming-Refines c a d s r =
      let (e, h) = get_bundle-Holds j laws s r d in
      let (found, s1) = Storage.get_bundle j d s in
      let s2 = settle j found d s1 in
      let (k, h') = ack_known-Holds d a.id s2 (settle-Holds d found s1 h e) in
      let s3 = (ack_known j d a.id s2).1 in
      let rest = without d (held j s) in
      elim (Bool-cases (any (is_ack_for d) rest || any (has_id a.id) rest)) [
        | inl t ↦ rw (k, t) (record { result = refl; state = h' })
        | inr f ↦
            rw (k, f)
              (from_held s3 h' (λ n l. save c n a l) (Storage.save_bundle j c a s3)
                (save_bundle-Refines j laws s3 h'.reliable c a))
      ]
