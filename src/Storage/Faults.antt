-- ===== src/Storage/Faults.antt =====
-- `save_bundle` (src/storage/storage.rs) where accesses of the file system fail.
use mathlib.Core.Path.{subst}
use rusty_bundle.Prelude.{
  ◌<◌, List, [], ◌∷◌, ◌++◌, Bool, Bool-cases, Option, true, false, ◌&&◌, ◌≡◌, ◌⊎◌, ap, arith, inl,
  inr, leb, some, any, length, String,
}
use rusty_bundle.Model.{Bundle, Clock, is_data}
use rusty_bundle.Disk.{
  Serde, SerdeLaws, is_ok, done, fails, stored, load_bundles_from_file, write_bundles,
}
use rusty_bundle.Disk.Persist.{parse_bundles-payload}
use rusty_bundle.Storage.{
  Store, has_id, is_ack_for, with_bundles, refresh_from_disk, save_to_file, cleanup_expired_bundles,
  has_ack_for_data_id, save_bundle,
}
use rusty_bundle.Storage.Contents.{live}
use rusty_bundle.Storage.Access.{held, held-refresh, save_cases, cleanup_cases}

-- The contents of the file before a call and after it, and the call's result.
abbrev pub Saves : Clock → Bundle → List Bundle → Bool → List Bundle → Type 0
Saves c b l true l' = (l' ≡ live c l ++ b ∷ []) ⊎ (l' ≡ b ∷ [])
Saves c b l false l' = (l' ≡ l) ⊎ (l' ≡ live c l)

module _ (j : Serde) (laws : SerdeLaws j) (c : Clock) (b : Bundle) where
  refused-Saves :
      (l : List Bundle) (s : Store j.Text)
      → ((s.bundles ≡ live c l) × ((held j s ≡ l) ⊎ (held j s ≡ live c l)))
        ⊎ ((s.bundles ≡ []) × (held j s ≡ l))
      → Saves c b l false (held j s)
  refused-Saves l s (inl (_, h)) = h
  refused-Saves l s (inr (_, h)) = inl h

  -- A write of the cache with the bundle at its end.
  append-Saves :
      (l : List Bundle) (s : Store j.Text)
      → ((s.bundles ≡ live c l) × ((held j s ≡ l) ⊎ (held j s ≡ live c l)))
        ⊎ ((s.bundles ≡ []) × (held j s ≡ l))
      → let (r, s') = save_to_file j (with_bundles s (s.bundles ++ b ∷ [])) in
        Saves c b l (is_ok r) (held j s')
  append-Saves l s h = elim (save_cases j laws (with_bundles s (s.bundles ++ b ∷ []))) [
    | inl (o, e) ↦
        rw (o, e)
          (elim h [
            | inl (e', _) ↦ inl (ap (λ bs. bs ++ b ∷ []) e')
            | inr (e', _) ↦ inr (ap (λ bs. bs ++ b ∷ []) e')
          ])
    | inr (o, e) ↦ rw (o, e) (refused-Saves l s h)
  ]

  -- Whichever accesses fail: if `save_bundle` returns true, the bundle stands at the end of the
  -- file, behind what had not expired, or alone. If it returns false, the file is as it was, or
  -- has lost what had expired.
  pub save_bundle-Saves :
      (s : Store j.Text) → let (r, s') = save_bundle j c b s in Saves c b (held j s) r (held j s')
  unfolding save_bundle has_ack_for_data_id
  save_bundle-Saves s =
      let s0 = refresh_from_disk j s in
      let s1 = (cleanup_expired_bundles j c s0).1 in
      let h =
        subst
          (λ l.
            ((s1.bundles ≡ live c l) × ((held j s1 ≡ l) ⊎ (held j s1 ≡ live c l)))
            ⊎ ((s1.bundles ≡ []) × (held j s1 ≡ l)))
          (held-refresh j s) (cleanup_cases j laws c s0) in
      elim (Bool-cases (is_data b.kind && any (is_ack_for b.id) s1.bundles)) [
        | inl e ↦ rw e (refused-Saves (held j s) s1 h)
        | inr e ↦ rw e (elim (Bool-cases (leb s1.capacity (length s1.bundles))) [
          | inl e ↦ rw e (refused-Saves (held j s) s1 h)
          | inr e ↦ rw e (elim (Bool-cases (any (has_id b.id) s1.bundles)) [
            | inl e ↦ rw e (refused-Saves (held j s) s1 h)
            | inr e ↦ rw e (append-Saves (held j s) s1 h)
          ])
        ])
      ]

  -- A read that fails once loses the store: if the file is there, the capacity is not 0, the
  -- second read of `save_bundle` fails and all other accesses succeed, then it returns true and
  -- the file holds the new bundle alone, whatever it held.
  pub save_bundle_forgets :
      (s : Store j.Text) (text : j.Text) (leftover : Option j.Text) (message : String)
      → s.disk.file ≡ some text
      → s.disk.outcomes ≡ done ∷ fails leftover message ∷ []
      → 0 < s.capacity
      → ((save_bundle j c b s).0 ≡ true) × (held j (save_bundle j c b s).1 ≡ b ∷ [])
  unfolding save_bundle has_ack_for_data_id refresh_from_disk cleanup_expired_bundles save_to_file
      load_bundles_from_file write_bundles stored
  save_bundle_forgets s text leftover message f o k =
      ground (arith, parse_bundles-payload j laws (b ∷ []))
