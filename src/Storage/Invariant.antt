-- ===== src/Storage/Invariant.antt =====
-- However the accesses of the file system end, the methods of src/storage/storage.rs keep the file
-- well formed: no id twice, and no more bundles than the capacity.
use mathlib.Core.Path.{subst}
use rusty_bundle.Prelude.{
  ℕ, List, [], ◌∷◌, ◌++◌, Bool-cases, not, ◌&&◌, ◌≡◌, sym, inl, inr, leb, ltb, any, length,
  modify_first,
}
use rusty_bundle.Model.{Uuid, Bundle, Clock, is_data, is_expired}
use rusty_bundle.Disk.{Serde, SerdeLaws}
use rusty_bundle.Storage.{
  Store, has_id, is_ack_for, with_bundles, refresh_from_disk, save_to_file, cleanup_expired_bundles,
  has_ack_for_data_id, save_bundle, delete_bundle, update_bundle,
}
use rusty_bundle.Storage.Contents.{
  without, IsWellFormed, nil-IsWellFormed, retain-IsWellFormed, append-IsWellFormed,
  modify_first-IsWellFormed,
}
use rusty_bundle.Storage.Access.{
  held, refresh_cases, held-refresh, capacity-refresh, save_cases, capacity-save, cleanup_cases,
  capacity-cleanup,
}

-- The capacity, and that the file and the cache are well formed.
pub record IsSound (j : Serde) (capacity : ℕ) (s : Store j.Text) : Type 0 where
  pub limit : s.capacity ≡ capacity
  pub on_disk : IsWellFormed capacity (held j s)
  pub cached : IsWellFormed capacity s.bundles

-- The file of a store is well formed for the store's capacity.
abbrev pub IsKept : (j : Serde) → Store j.Text → Type 0
IsKept j s = IsWellFormed s.capacity (held j s)

module _ (j : Serde) (laws : SerdeLaws j) where
  refresh-IsSound : (s : Store j.Text) → IsKept j s → IsSound j s.capacity (refresh_from_disk j s)
  refresh-IsSound s w = record {
    limit = capacity-refresh j s;
    on_disk = rw held-refresh w;
    cached = elim (refresh_cases j s) [
      | inl e ↦ rw e w
      | inr e ↦ rw e (nil-IsWellFormed s.capacity)
    ];
  }

  cleanup-IsSound :
      (c : Clock) (s : Store j.Text)
      → IsKept j s
      → IsSound j s.capacity (cleanup_expired_bundles j c s).1
  cleanup-IsSound c s w =
      let kept = retain-IsWellFormed s.capacity (held j s) w (λ b. not (is_expired c b)) in
      elim (cleanup_cases j laws c s) [
        | inl (e, h) ↦ record {
          limit = capacity-cleanup j laws c s;
          on_disk = elim h [ inl e' ↦ rw e' w | inr e' ↦ rw e' kept ];
          cached = rw e kept;
        }
        | inr (e, h) ↦ record {
          limit = capacity-cleanup j laws c s;
          on_disk = rw h w;
          cached = rw e (nil-IsWellFormed s.capacity);
        }
      ]

  -- The result of a write of `l`, or of no write.
  save-IsKept :
      (l : List Bundle) (s : Store j.Text)
      → IsKept j s
      → IsWellFormed s.capacity l
      → IsKept j (save_to_file j (with_bundles s l)).1
  save-IsKept l s w wl = elim (save_cases j laws (with_bundles s l)) [
    | inl (_, e) ↦ rw (capacity-save, e) wl
    | inr (_, e) ↦ rw (capacity-save, e) w
  ]

  sound-IsKept : {capacity : ℕ} (s : Store j.Text) → IsSound j capacity s → IsKept j s
  sound-IsKept s h = subst (λ n. IsWellFormed n (held j s)) (sym h.limit) h.on_disk

  sound-cached :
      {capacity : ℕ} (s : Store j.Text) → IsSound j capacity s → IsWellFormed s.capacity s.bundles
  sound-cached s h = subst (λ n. IsWellFormed n s.bundles) (sym h.limit) h.cached

  -- `save_bundle` keeps the file well formed, whichever accesses of the file system fail.
  pub save_bundle-IsKept :
      (c : Clock) (b : Bundle) (s : Store j.Text) → IsKept j s → IsKept j (save_bundle j c b s).1
  unfolding save_bundle has_ack_for_data_id
  save_bundle-IsKept c b s w =
      let s0 = refresh_from_disk j s in
      let s1 = (cleanup_expired_bundles j c s0).1 in
      let h = cleanup-IsSound c s0 (sound-IsKept s0 (refresh-IsSound s w)) in
      let k = sound-IsKept s1 h in
      let wc = sound-cached s1 h in
      elim (Bool-cases (is_data b.kind && any (is_ack_for b.id) s1.bundles)) [
        | inl e ↦ rw e k
        | inr e ↦ rw e (elim (Bool-cases (leb s1.capacity (length s1.bundles))) [
          | inl e ↦ rw e k
          | inr room ↦ rw room (elim (Bool-cases (any (has_id b.id) s1.bundles)) [
            | inl e ↦ rw e k
            | inr new ↦ rw new (
                save-IsKept (s1.bundles ++ b ∷ []) s1 k
                  (append-IsWellFormed s1.capacity s1.bundles wc b new room))
          ])
        ])
      ]

  -- So does `delete_bundle`.
  pub delete_bundle-IsKept :
      (id : Uuid) (s : Store j.Text) → IsKept j s → IsKept j (delete_bundle j id s).1
  unfolding delete_bundle
  delete_bundle-IsKept id s w =
      let s1 = refresh_from_disk j s in
      let h = refresh-IsSound s w in
      let k = sound-IsKept s1 h in
      let wl =
        retain-IsWellFormed s1.capacity s1.bundles (sound-cached s1 h) (λ b. not (has_id id b)) in
      elim (Bool-cases (ltb (length (without id s1.bundles)) (length s1.bundles))) [
        | inl e ↦ rw e (save-IsKept (without id s1.bundles) s1 k wl)
        | inr e ↦ rw e k
      ]

  -- So does `update_bundle`.
  pub update_bundle-IsKept :
      (b : Bundle) (s : Store j.Text) → IsKept j s → IsKept j (update_bundle j b s).1
  unfolding update_bundle has_ack_for_data_id
  update_bundle-IsKept b s w =
      let s1 = refresh_from_disk j s in
      let h = refresh-IsSound s w in
      let k = sound-IsKept s1 h in
      elim (Bool-cases (is_data b.kind && any (is_ack_for b.id) s1.bundles)) [
        | inl e ↦ rw e k
        | inr e ↦ rw e (elim (Bool-cases (any (has_id b.id) s1.bundles)) [
          | inl e ↦ rw e (
              save-IsKept (modify_first (has_id b.id) (λ _. b) s1.bundles) s1 k
                (modify_first-IsWellFormed s1.capacity s1.bundles (sound-cached s1 h) b))
          | inr e ↦ rw e k
        ])
      ]

  -- So does `cleanup_expired_bundles`.
  pub cleanup-IsKept :
      (c : Clock) (s : Store j.Text) → IsKept j s → IsKept j (cleanup_expired_bundles j c s).1
  cleanup-IsKept c s w = sound-IsKept _ (cleanup-IsSound c s w)

  pub refresh-IsKept : (s : Store j.Text) → IsKept j s → IsKept j (refresh_from_disk j s)
  refresh-IsKept s w = sound-IsKept _ (refresh-IsSound s w)
