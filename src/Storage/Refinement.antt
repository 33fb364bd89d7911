-- ===== src/Storage/Refinement.antt =====
-- With no failure of the file system, each method of the storage layer (src/storage/storage.rs)
-- does to the file, the cache and its result what `Storage.Contents` says of lists.
use mathlib.Core.Path.{subst₂}
use rusty_bundle.Prelude.{
  lt→ltb, ltb_irrefl, retain-not_some, retain-not_none, ℕ, List, [], ◌∷◌, ◌++◌, Bool, Bool-cases,
  true, false, ◌&&◌, ◌≡◌, refl, sym, ap, ◌∙◌, inl, inr, leb, ltb, if◌then◌else◌, any, find, length,
  modify_first,
}
use rusty_bundle.Model.{Uuid, Bundle, Clock, is_data}
use rusty_bundle.Disk.{Serde, SerdeLaws, is_ok}
use rusty_bundle.Storage.{
  Store, has_id, is_ack_for, with_bundles, refresh_from_disk, save_to_file, cleanup_expired_bundles,
  has_ack_for_data_id, save_bundle, get_bundle, get_all_bundles, delete_bundle, update_bundle,
}
use rusty_bundle.Storage.Contents.{live, without, add, save, delete, update}
use rusty_bundle.Storage.Access.{
  IsReliable, Holds, held, refresh-Holds, save-Holds, cleanup-Holds, held-refresh, capacity-refresh,
}

-- A result and a state that are as a computation on lists says.
pub record Refines (j : Serde) (spec : Bool × List Bundle) (capacity : ℕ) (r : Bool × Store j.Text)
    : Type 0 where
  pub result : r.0 ≡ spec.0
  pub state : Holds j spec.1 capacity r.1

module _ (j : Serde) (laws : SerdeLaws j) where
  saved-Refines :
      (l : List Bundle) (s : Store j.Text)
      → IsReliable s
      → Refines j
          (true, l)
          s.capacity
          (let (ok', s') = save_to_file j (with_bundles s l) in (is_ok ok', s'))
  saved-Refines l s r =
      let (w, h) = save-Holds j laws (with_bundles s l) r in record { result = w; state = h }

  refused-Refines :
      {l : List Bundle} {capacity : ℕ} (s : Store j.Text)
      → Holds j l capacity s
      → Refines j (false, l) capacity (false, s)
  refused-Refines s h = record { result = refl; state = h }

  -- What `save_bundle` does once the cache is fresh.
  abbrev admit : Bundle → Store j.Text → Bool × Store j.Text
  admit b s =
      if is_data b.kind && any (is_ack_for b.id) s.bundles
      then (false, s)
      else if leb s.capacity (length s.bundles)
      then (false, s)
      else if any (has_id b.id) s.bundles
      then (false, s)
      else (let (ok', s') = save_to_file j (with_bundles s (s.bundles ++ b ∷ [])) in
          (is_ok ok', s'))

  admit_self :
      (b : Bundle) (s : Store j.Text)
      → Holds j s.bundles s.capacity s
      → Refines j (add s.capacity b s.bundles) s.capacity (admit b s)
  unfolding add
  admit_self b s h = elim (Bool-cases (is_data b.kind && any (is_ack_for b.id) s.bundles)) [
    | inl e ↦ rw e (refused-Refines s h)
    | inr e ↦ rw e (elim (Bool-cases (leb s.capacity (length s.bundles))) [
      | inl e ↦ rw e (refused-Refines s h)
      | inr e ↦ rw e (elim (Bool-cases (any (has_id b.id) s.bundles)) [
        | inl e ↦ rw e (refused-Refines s h)
        | inr e ↦ rw e (saved-Refines (s.bundles ++ b ∷ []) s h.reliable)
      ])
    ])
  ]

  -- A statement on what the cache holds, from one on the cache.
  at_contents :
      {l : List Bundle} {capacity : ℕ} (s : Store j.Text)
      → Holds j l capacity s
      → (spec : List Bundle → ℕ → Bool × List Bundle) (r : Bool × Store j.Text)
      → (Holds j s.bundles s.capacity s → Refines j (spec s.bundles s.capacity) s.capacity r)
      → Refines j (spec l capacity) capacity r
  at_contents s h spec r f =
      subst₂ (λ l capacity. Refines j (spec l capacity) capacity r) h.cached h.limit
        (f (record {
          cached = refl;
          on_disk = h.on_disk ∙ sym h.cached;
          reliable = h.reliable;
          limit = refl;
        }))

  abbrev drop_id : Uuid → Store j.Text → Bool × Store j.Text
  drop_id id s =
      let s2 = with_bundles s (without id s.bundles) in
      if ltb (length s2.bundles) (length s.bundles)
      then (let (ok', s') = save_to_file j s2 in (is_ok ok', s'))
      else (false, s2)

  drop_id_self :
      (id : Uuid) (s : Store j.Text)
      → Holds j s.bundles s.capacity s
      → Refines j (delete id s.bundles) s.capacity (drop_id id s)
  unfolding delete
  drop_id_self id s h = elim (Bool-cases (any (has_id id) s.bundles)) [
    | inl e ↦
        rw (e, lt→ltb _ _ (retain-not_some (has_id id) s.bundles e))
          (saved-Refines (without id s.bundles) s h.reliable)
    | inr e ↦
        rw (e, retain-not_none (has_id id) s.bundles e, ltb_irrefl (length s.bundles))
          (refused-Refines s h)
  ]

  abbrev replace : Bundle → Store j.Text → Bool × Store j.Text
  replace b s =
      if is_data b.kind && any (is_ack_for b.id) s.bundles
      then (false, s)
      else if any (has_id b.id) s.bundles
      then (let (ok', s') =
            save_to_file j (with_bundles s (modify_first (has_id b.id) (λ _. b) s.bundles)) in
          (is_ok ok', s'))
      else (false, s)

  replace_self :
      (b : Bundle) (s : Store j.Text)
      → Holds j s.bundles s.capacity s
      → Refines j (update b s.bundles) s.capacity (replace b s)
  unfolding update
  replace_self b s h = elim (Bool-cases (is_data b.kind && any (is_ack_for b.id) s.bundles)) [
    | inl e ↦ rw e (refused-Refines s h)
    | inr e ↦ rw e (elim (Bool-cases (any (has_id b.id) s.bundles)) [
      | inl e ↦ rw e (saved-Refines (modify_first (has_id b.id) (λ _. b) s.bundles) s h.reliable)
      | inr e ↦ rw e (refused-Refines s h)
    ])
  ]

module _ (j : Serde) (laws : SerdeLaws j) (s : Store j.Text) (r : IsReliable s) where
  -- With no failure of the file system, `save_bundle` first drops what has expired. Then it adds
  -- the bundle and returns true, unless the bundle is a data bundle whose acknowledgement is in
  -- store, or the store is full, or the bundle's id is in store: then it returns false.
  pub save_bundle-Refines :
      (c : Clock) (b : Bundle)
      → Refines j (save c s.capacity b (held j s)) s.capacity (save_bundle j c b s)
  unfolding save save_bundle has_ack_for_data_id
  save_bundle-Refines c b =
      let h0 = refresh-Holds j s r in
      let s0 = refresh_from_disk j s in
      let h1 = (cleanup-Holds j laws c s0 h0.reliable).1 in
      let s1 = (cleanup_expired_bundles j c s0).1 in
      let h : Holds j (live c (held j s)) s.capacity s1 =
        subst₂ (λ l capacity. Holds j (live c l) capacity s1) (held-refresh j s)
          (capacity-refresh j s) h1 in
      at_contents j laws s1 h (λ l capacity. add capacity b l) (admit j laws b s1)
        (admit_self j laws b s1)

  -- With no failure, `delete_bundle` removes the bundles with the id, and returns whether there
  -- was one.
  pub delete_bundle-Refines :
      (id : Uuid) → Refines j (delete id (held j s)) s.capacity (delete_bundle j id s)
  unfolding delete_bundle
  delete_bundle-Refines id =
      let s1 = refresh_from_disk j s in
      at_contents j laws s1 (refresh-Holds j s r) (λ l _. delete id l) (drop_id j laws id s1)
        (drop_id_self j laws id s1)

  -- With no failure, `update_bundle` replaces the bundle of the same id and returns true, unless
  -- there is none or the bundle is a data bundle whose acknowledgement is in store.
  pub update_bundle-Refines :
      (b : Bundle) → Refines j (update b (held j s)) s.capacity (update_bundle j b s)
  unfolding update_bundle has_ack_for_data_id
  update_bundle-Refines b =
      let s1 = refresh_from_disk j s in
      at_contents j laws s1 (refresh-Holds j s r) (λ l _. update b l) (replace j laws b s1)
        (replace_self j laws b s1)

  -- With no failure, `get_bundle` finds the first bundle of the file with the id.
  pub get_bundle-Holds :
      (id : Uuid)
      → ((get_bundle j id s).0 ≡ find (has_id id) (held j s))
        × Holds j (held j s) s.capacity (get_bundle j id s).1
  unfolding get_bundle
  get_bundle-Holds id = let h = refresh-Holds j s r in (ap (find (has_id id)) h.cached, h)

  pub get_all_bundles-Holds :
      ((get_all_bundles j s).0 ≡ held j s) × Holds j (held j s) s.capacity (get_all_bundles j s).1
  unfolding get_all_bundles
  get_all_bundles-Holds = let h = refresh-Holds j s r in (h.cached, h)
