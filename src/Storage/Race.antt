-- ===== src/Storage/Race.antt =====
-- Two threads that save at once (src/storage/storage.rs).
use mathlib.Core.Path.{subst}
use rusty_bundle.Prelude.{
  ℕ, List, [], ◌∷◌, ◌++◌, Bool, true, false, ◌≡◌, ◌≢◌, refl, ap, ◌∙◌, arith, ltb, any, any-append,
  length, ◌-◌,
}
use rusty_bundle.Model.{Bundle, Clock}
use rusty_bundle.Disk.{Serde, SerdeLaws, Disk, stored, write_bundles}
use rusty_bundle.Disk.Persist.{load_reliable, stored-write, write_reliable}
use rusty_bundle.Storage.{has_id}
use rusty_bundle.Storage.Contents.{live, admits}
use rusty_bundle.Storage.Calls.{saves}
use rusty_bundle.Storage.Sections.{
  Code, returned, reads, writes, admit_code, cleanup_code, code_of, section,
}
use rusty_bundle.Storage.Threads.{System, set_thread, calls, passes, Reach, here, next}

-- A bundle that the fresh cache admits is next written.
admitted_code :
    (capacity : ℕ) (b : Bundle) (l : List Bundle)
    → admits capacity b l ≡ true
    → admit_code capacity b l ≡ writes (l ++ b ∷ []) returned
unfolding admit_code
admitted_code capacity b l h = ground arith

clean_code :
    (c : Clock) (l : List Bundle) (rest : List Bundle → Code)
    → live c l ≡ l
    → cleanup_code c l rest ≡ rest l
unfolding cleanup_code
clean_code c l rest h =
    let none_dropped : ltb 0 (length l - length l) ≡ false = ground arith in
    rw (cleanup_code, h, none_dropped) refl

module _ (j : Serde) (laws : SerdeLaws j) (capacity : ℕ) where
  -- A step of a thread whose code and next section are known.
  pass :
      {s t : System j.Text} (i : ℕ) (code rest : Code) (d : Disk j.Text)
      → Reach j capacity s t
      → t.threads i ≡ code
      → section j code t.disk ≡ (rest, d)
      → Reach j capacity s (record { disk = d; threads = set_thread t.threads i rest })
  pass {s} {t} i code rest d r e h =
      subst (λ q. Reach j capacity s (record { disk = q.1; threads = set_thread t.threads i q.0 }))
        (ap (λ k. section j k t.disk) e ∙ h) (next r (passes i))

  section_reads :
      (rest : List Bundle → Code) (d : Disk j.Text)
      → d.outcomes ≡ []
      → section j (reads rest) d ≡ (rest (stored j d), d)
  unfolding section
  section_reads rest d r = ap (λ q. (rest q.0, q.1)) (load_reliable j d r)

  section_writes :
      (l : List Bundle) (d : Disk j.Text)
      → d.outcomes ≡ []
      → section j (writes l returned) d ≡ (returned true, (write_bundles j l d).1)
  unfolding section
  section_writes l d r = ap (λ w. (returned w, (write_bundles j l d).1)) (write_reliable j l d r).0

  stored_written :
      (l : List Bundle) (d : Disk j.Text) → d.outcomes ≡ [] → stored j (write_bundles j l d).1 ≡ l
  stored_written l d r =
      let ok' = (write_reliable j l d r).0 in ground (arith, stored-write j laws l d)

  -- An update is lost: of two threads that are in no call, each saves a bundle that the store admits,
  -- at an instant at which nothing in store has expired. There is an interleaving with no failure of
  -- the file system in which both calls return true and the file lacks the first bundle.
  pub saves_race :
      (c : Clock) (b1 b2 : Bundle) (r1 r2 : Bool) (s : System j.Text)
      → s.threads 0 ≡ returned r1
      → s.threads 1 ≡ returned r2
      → s.disk.outcomes ≡ []
      → live c (stored j s.disk) ≡ stored j s.disk
      → admits capacity b1 (stored j s.disk) ≡ true
      → admits capacity b2 (stored j s.disk) ≡ true
      → b1.id ≢ b2.id
      → (t : System j.Text) × Reach j capacity s t
        × (t.threads 0 ≡ returned true)
        × (t.threads 1 ≡ returned true)
        × (any (has_id b1.id) (stored j t.disk) ≡ false)
  unfolding code_of
  saves_race c b1 b2 r1 r2 s e0 e1 reliable unexpired ok1 ok2 distinct =
      let l = stored j s.disk in
      let ready = λ (b : Bundle). writes (l ++ b ∷ []) returned in
      let cleaned = λ (b : Bundle). cleanup_code c l (admit_code capacity b) in
      let d1 = (write_bundles j (l ++ b1 ∷ []) s.disk).1 in
      let d2 = (write_bundles j (l ++ b2 ∷ []) d1).1 in
      let is_ready : (b : Bundle) → admits capacity b l ≡ true → cleaned b ≡ ready b =
        λ b h. clean_code c l (admit_code capacity b) unexpired ∙ admitted_code capacity b l h in
      let again = λ (b : Bundle). reads (λ l. cleanup_code c l (admit_code capacity b)) in
      let later = λ (b : Bundle). reads (λ (l : List Bundle). again b) in
      let reliable1 = (write_reliable j (l ++ b1 ∷ []) s.disk reliable).1 in
      let called = next (next here (calls 0 r1 c (saves b1) e0)) (calls 1 r2 c (saves b2) e1) in
      let p1 = pass 0 (later b1) (again b1) s.disk called refl (section_reads _ s.disk reliable) in
      let p2 = pass 0 (again b1) (cleaned b1) s.disk p1 refl (section_reads _ s.disk reliable) in
      let p3 = pass 1 (later b2) (again b2) s.disk p2 refl (section_reads _ s.disk reliable) in
      let p4 = pass 1 (again b2) (cleaned b2) s.disk p3 refl (section_reads _ s.disk reliable) in
      let p5 =
        pass 0 (ready b1) (returned true) d1 p4 (is_ready b1 ok1)
          (section_writes (l ++ b1 ∷ []) s.disk reliable) in
      let p6 =
        pass 1 (ready b2) (returned true) d2 p5 (is_ready b2 ok2)
          (section_writes (l ++ b2 ∷ []) d1 reliable1) in
      let held : stored j d2 ≡ l ++ b2 ∷ [] = stored_written (l ++ b2 ∷ []) d1 reliable1 in
      (_, p6, refl, refl, rw held (ground (arith, any-append (has_id b1.id) l (b2 ∷ []))))
