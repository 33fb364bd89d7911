-- ===== src/Storage/Access.antt =====
-- What `refresh_from_disk`, `save_to_file` and `cleanup_expired_bundles` (src/storage/storage.rs)
-- leave in the cache and in the file, on every outcome of the file system and on success.
use rusty_bundle.Prelude.{
  Bool, Bool-cases, inl, inr, ◌∙◌, sym, ap, ℕ, ◌-◌, List, [], true, false, not, ◌≡◌, ◌⊎◌, refl,
  arith, ltb, length, retain_all, if◌then◌else◌,
}
use rusty_bundle.Model.{Bundle, Clock, is_expired}
use rusty_bundle.Disk.{Serde, SerdeLaws, is_ok, stored}
use rusty_bundle.Disk.Persist.{stored-write, load_cases, stored-load, load_reliable, write_reliable}
use rusty_bundle.Storage.{
  Store, with_bundles, refresh_from_disk, save_to_file, cleanup_expired_bundles,
}
use rusty_bundle.Storage.Contents.{live}

-- No access to come fails.
abbrev pub IsReliable : {Text : Type 0} → Store Text → Type 0
IsReliable s = s.disk.outcomes ≡ []

module _ (j : Serde) where
  abbrev pub held : Store j.Text → List Bundle
  held s = stored j s.disk

  -- The cache and the file hold `l`, and no failure is to come.
  pub record Holds (l : List Bundle) (capacity : ℕ) (s : Store j.Text) : Type 0 where
    pub cached : s.bundles ≡ l
    pub on_disk : held s ≡ l
    pub reliable : IsReliable s
    pub limit : s.capacity ≡ capacity

module _ (j : Serde) (s : Store j.Text) where
  pub refresh_cases :
      ((refresh_from_disk j s).bundles ≡ held j s) ⊎ ((refresh_from_disk j s).bundles ≡ [])
  unfolding refresh_from_disk
  refresh_cases = load_cases j s.disk

  pub held-refresh : held j (refresh_from_disk j s) ≡ held j s
  unfolding refresh_from_disk
  held-refresh = stored-load j s.disk

  pub capacity-refresh : (refresh_from_disk j s).capacity ≡ s.capacity
  unfolding refresh_from_disk
  capacity-refresh = refl

  pub capacity-save : (save_to_file j s).1.capacity ≡ s.capacity
  unfolding save_to_file
  capacity-save = refl

  pub refresh-Holds : IsReliable s → Holds j (held j s) s.capacity (refresh_from_disk j s)
  unfolding refresh_from_disk
  refresh-Holds r = record {
    cached = ground (arith, load_reliable j s.disk r);
    on_disk = ground (arith, load_reliable j s.disk r);
    reliable = ground (arith, load_reliable j s.disk r);
    limit = refl;
  }

module _ (j : Serde) (laws : SerdeLaws j) (s : Store j.Text) where
  pub save_cases :
      ((is_ok (save_to_file j s).0 ≡ true) × (held j (save_to_file j s).1 ≡ s.bundles))
      ⊎ ((is_ok (save_to_file j s).0 ≡ false) × (held j (save_to_file j s).1 ≡ held j s))
  unfolding save_to_file
  save_cases = stored-write j laws s.bundles s.disk

  pub save-Holds :
      IsReliable s
      → (is_ok (save_to_file j s).0 ≡ true) × Holds j s.bundles s.capacity (save_to_file j s).1
  unfolding save_to_file
  save-Holds r =
      let w = write_reliable j s.bundles s.disk r in
      (
        w.0,
        record {
          cached = refl;
          on_disk = ground (arith, stored-write j laws s.bundles s.disk);
          reliable = w.1;
          limit = refl;
        },
      )

module _ (j : Serde) (laws : SerdeLaws j) (flush : Bool) (s : Store j.Text) where
  -- A write that is made on a condition.
  flush_cases :
      let s' = if flush then (save_to_file j s).1 else s in
      (s'.bundles ≡ s.bundles)
      × (s'.capacity ≡ s.capacity)
      × ((held j s' ≡ held j s) ⊎ (held j s' ≡ s.bundles))
  unfolding save_to_file
  flush_cases = ground (arith, stored-write j laws s.bundles s.disk)

  flush-Holds :
      (l : List Bundle) (capacity : ℕ)
      → s.bundles ≡ l
      → s.capacity ≡ capacity
      → IsReliable s
      → (flush ≡ false → held j s ≡ l)
      → Holds j l capacity (if flush then (save_to_file j s).1 else s)
  flush-Holds l capacity e k r same = elim (Bool-cases flush) [
    | inl t ↦ rw t (rw (← e, ← k) (save-Holds j laws s r).1)
    | inr f ↦ rw f (record { cached = e; on_disk = same f; reliable = r; limit = k })
  ]

module _ (j : Serde) (laws : SerdeLaws j) (c : Clock) (s : Store j.Text) where
  abbrev kept_by : Store j.Text → Store j.Text
  kept_by s1 = with_bundles s1 (live c s1.bundles)

  abbrev dropped_by : Store j.Text → Bool
  dropped_by s1 = ltb 0 (length s1.bundles - length (live c s1.bundles))

  pub capacity-cleanup : (cleanup_expired_bundles j c s).1.capacity ≡ s.capacity
  unfolding cleanup_expired_bundles
  capacity-cleanup =
      let s1 = refresh_from_disk j s in
      (flush_cases j laws (dropped_by s1) (kept_by s1)).1 ∙ capacity-refresh j s

  -- The cache is what is left of the contents, and the file too or as it was; or, after a failed
  -- read, the cache is empty and the file as it was.
  pub cleanup_cases :
      let s' = (cleanup_expired_bundles j c s).1 in
      ((s'.bundles ≡ live c (held j s))
        × ((held j s' ≡ held j s) ⊎ (held j s' ≡ live c (held j s))))
      ⊎ ((s'.bundles ≡ []) × (held j s' ≡ held j s))
  unfolding cleanup_expired_bundles
  cleanup_cases =
      let s1 = refresh_from_disk j s in
      let (b, _, h) = flush_cases j laws (dropped_by s1) (kept_by s1) in
      elim (refresh_cases j s) [
        | inl e ↦ inl (
          b ∙ ap (live c) e,
          elim h [ inl e' ↦ inl (e' ∙ held-refresh j s) | inr e' ↦ inr (e' ∙ ap (live c) e) ],
        )
        | inr e ↦ inr (b ∙ ap (live c) e, rw e (held-refresh j s))
      ]

  -- With no failure it drops the expired bundles, from the file too, and counts them.
  pub cleanup-Holds :
      IsReliable s
      → ((cleanup_expired_bundles j c s).0 ≡ length (held j s) - length (live c (held j s)))
        × Holds j (live c (held j s)) s.capacity (cleanup_expired_bundles j c s).1
  unfolding cleanup_expired_bundles
  cleanup-Holds r =
      let s1 = refresh_from_disk j s in
      let h = refresh-Holds j s r in
      let none_dropped : dropped_by s1 ≡ false → live c s1.bundles ≡ s1.bundles =
        λ f. retain_all (λ b. not (is_expired c b)) s1.bundles (ground arith) in
      (
        rw h.cached refl,
        flush-Holds j laws (dropped_by s1) (kept_by s1) (live c (held j s)) s.capacity
            (ap (live c) h.cached) h.limit h.reliable
            (λ f. h.on_disk ∙ sym h.cached ∙ sym (none_dropped f) ∙ ap (live c) h.cached),
      )
