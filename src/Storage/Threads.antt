-- ===== src/Storage/Threads.antt =====
-- Threads that share the file of a node: the calls of src/storage/storage.rs, section by section in
-- any order. Each thread has a clone of the storage layer.
use rusty_bundle.Prelude.{
  ℕ, List, Bool, Bool-cases, true, not, ◌&&◌, ◌≡◌, inl, inr, ltb, leb, ◌==◌, if◌then◌else◌, any,
  length, ◌-◌,
}
use rusty_bundle.Model.{Uuid, Bundle, Clock, is_data, is_expired}
use rusty_bundle.Disk.{Serde, SerdeLaws, Disk, stored, load_bundles_from_file, write_bundles, is_ok}
use rusty_bundle.Disk.Persist.{load_cases, stored-load, stored-write}
use rusty_bundle.Storage.{has_id, is_ack_for}
use rusty_bundle.Storage.Contents.{
  live, without, IsWellFormed, nil-IsWellFormed, retain-IsWellFormed, append-IsWellFormed,
  modify_first-IsWellFormed,
}
use rusty_bundle.Storage.Calls.{Call, saves, updates, deletes, gets, gets_all, cleans}
use rusty_bundle.Storage.Sections.{
  Code, returned, reads, writes, admit_code, cleanup_code, delete_code, update_code, code_of,
  section,
}

-- The value at one index replaced.
abbrev pub set_thread : (ℕ → Code) → ℕ → Code → ℕ → Code
set_thread threads i code k = if i == k then code else threads k

-- A thread that is at no call has the result of its last one.
pub record System (Text : Type 0) : Type 0 where
  pub disk : Disk Text
  pub threads : ℕ → Code

-- A thread whose call has returned makes another call, at some instant; or a thread passes through
-- its next section.
pub data Step (j : Serde) (capacity : ℕ) (s : System j.Text) : System j.Text → Type 0 where
  calls :
      (i : ℕ) (r : Bool) (c : Clock) (call : Call)
      → s.threads i ≡ returned r
      → Step j capacity s (record s { threads = set_thread s.threads i (code_of capacity c call) })
  passes :
      (i : ℕ)
      → Step j capacity s (record {
        disk = (section j (s.threads i) s.disk).1;
        threads = set_thread s.threads i (section j (s.threads i) s.disk).0;
      })

pub data Reach (j : Serde) (capacity : ℕ) (s : System j.Text) : System j.Text → Type 0 where
  here : Reach j capacity s s
  next : {t u : System j.Text} → Reach j capacity s t → Step j capacity t u → Reach j capacity s u

-- Whatever well-formed lists it reads, a call writes well-formed lists only.
pub IsSafe : ℕ → Code → Type 0
IsSafe capacity (returned r) = Unit
IsSafe capacity (reads rest) =
    (l : List Bundle) → IsWellFormed capacity l → IsSafe capacity (rest l)
IsSafe capacity (writes l rest) = IsWellFormed capacity l × ((w : Bool) → IsSafe capacity (rest w))

module _ (capacity : ℕ) where
  admit_code-IsSafe :
      (b : Bundle) (l : List Bundle)
      → IsWellFormed capacity l
      → IsSafe capacity (admit_code capacity b l)
  unfolding admit_code IsSafe
  admit_code-IsSafe b l w = elim (Bool-cases (is_data b.kind && any (is_ack_for b.id) l)) [
    | inl e ↦ rw e tt
    | inr e ↦ rw e (elim (Bool-cases (leb capacity (length l))) [
      | inl e ↦ rw e tt
      | inr room ↦ rw room (elim (Bool-cases (any (has_id b.id) l)) [
        | inl e ↦ rw e tt
        | inr new ↦ rw new (append-IsWellFormed capacity l w b new room, λ r. tt)
      ])
    ])
  ]

  cleanup_code-IsSafe :
      (c : Clock) (l : List Bundle) (rest : List Bundle → Code)
      → IsWellFormed capacity l
      → ((k : List Bundle) → IsWellFormed capacity k → IsSafe capacity (rest k))
      → IsSafe capacity (cleanup_code c l rest)
  unfolding cleanup_code IsSafe
  cleanup_code-IsSafe c l rest w safe =
      let kept = retain-IsWellFormed capacity l w (λ b. not (is_expired c b)) in
      elim (Bool-cases (ltb 0 (length l - length (live c l)))) [
        | inl e ↦ rw e (kept, λ r. safe (live c l) kept)
        | inr e ↦ rw e (safe (live c l) kept)
      ]

  delete_code-IsSafe :
      (id : Uuid) (l : List Bundle) → IsWellFormed capacity l → IsSafe capacity (delete_code id l)
  unfolding delete_code IsSafe
  delete_code-IsSafe id l w = elim (Bool-cases (ltb (length (without id l)) (length l))) [
    | inl e ↦ rw e (retain-IsWellFormed capacity l w (λ b. not (has_id id b)), λ r. tt)
    | inr e ↦ rw e tt
  ]

  update_code-IsSafe :
      (b : Bundle) (l : List Bundle) → IsWellFormed capacity l → IsSafe capacity (update_code b l)
  unfolding update_code IsSafe
  update_code-IsSafe b l w = elim (Bool-cases (is_data b.kind && any (is_ack_for b.id) l)) [
    | inl e ↦ rw e tt
    | inr e ↦ rw e (elim (Bool-cases (any (has_id b.id) l)) [
      | inl e ↦ rw e (modify_first-IsWellFormed capacity l w b, λ r. tt)
      | inr e ↦ rw e tt
    ])
  ]

  code_of-IsSafe : (c : Clock) (call : Call) → IsSafe capacity (code_of capacity c call)
  unfolding code_of IsSafe
  code_of-IsSafe c (saves b) =
      λ l w k wk. cleanup_code-IsSafe c k (admit_code capacity b) wk (admit_code-IsSafe b)
  code_of-IsSafe c (updates b) = update_code-IsSafe b
  code_of-IsSafe c (deletes id) = delete_code-IsSafe id
  code_of-IsSafe c (gets id) = λ l w. tt
  code_of-IsSafe c gets_all = λ l w. tt
  code_of-IsSafe c cleans = λ l w. cleanup_code-IsSafe c l (λ _. returned true) w (λ k wk. tt)

-- The file is well formed, and every thread is at a safe place.
pub record IsKept (j : Serde) (capacity : ℕ) (s : System j.Text) : Type 0 where
  pub on_disk : IsWellFormed capacity (stored j s.disk)
  pub safe : (i : ℕ) → IsSafe capacity (s.threads i)

module _ (j : Serde) (laws : SerdeLaws j) (capacity : ℕ) where
  section-IsKept :
      (code : Code) (d : Disk j.Text)
      → IsWellFormed capacity (stored j d)
      → IsSafe capacity code
      → IsWellFormed capacity (stored j (section j code d).1) × IsSafe capacity (section j code d).0
  unfolding section IsSafe
  section-IsKept (returned r) d w safe = (w, tt)
  section-IsKept (reads rest) d w safe = (
    rw (stored-load j d) w,
    safe (load_bundles_from_file j d).0
        (elim (load_cases j d) [ inl e ↦ rw e w | inr e ↦ rw e (nil-IsWellFormed capacity) ]),
  )
  section-IsKept (writes l rest) d w (wl, safe) = (
    elim (stored-write j laws l d) [ inl (_, e) ↦ rw e wl | inr (_, e) ↦ rw e w ],
    safe (is_ok (write_bundles j l d).0),
  )

  set_thread-IsSafe :
      (threads : ℕ → Code) (i : ℕ) (code : Code)
      → ((k : ℕ) → IsSafe capacity (threads k))
      → IsSafe capacity code
      → (k : ℕ) → IsSafe capacity (set_thread threads i code k)
  set_thread-IsSafe threads i code safe h k = elim (Bool-cases (i == k)) [
    | inl e ↦ rw e h
    | inr e ↦ rw e (safe k)
  ]

  Step-IsKept :
      {s t : System j.Text} → Step j capacity s t → IsKept j capacity s → IsKept j capacity t
  Step-IsKept {s} (calls i r c call e) k = record {
    on_disk = k.on_disk;
    safe =
        set_thread-IsSafe s.threads i (code_of capacity c call) k.safe
          (code_of-IsSafe capacity c call);
  }
  Step-IsKept {s} (passes i) k =
      let (w, safe) = section-IsKept (s.threads i) s.disk k.on_disk (k.safe i) in
      record {
        on_disk = w;
        safe = set_thread-IsSafe s.threads i (section j (s.threads i) s.disk).0 k.safe safe;
      }

  Reach-IsKept :
      {s t : System j.Text} → Reach j capacity s t → IsKept j capacity s → IsKept j capacity t
  Reach-IsKept here k = k
  Reach-IsKept (next r st) k = Step-IsKept st (Reach-IsKept r k)

  returned-IsSafe : (code : Code) (r : Bool) → code ≡ returned r → IsSafe capacity code
  unfolding IsSafe
  returned-IsSafe code r e = rw e tt

  -- Whichever calls the threads make, however their sections interleave, and whichever accesses of
  -- the file system fail: if no thread is in a call at the start, and the file has no id twice and no
  -- more bundles than the capacity, then the file is so in every reachable state.
  pub Reach-IsWellFormed :
      {s t : System j.Text}
      → Reach j capacity s t
      → ((i : ℕ) → (r : Bool) × (s.threads i ≡ returned r))
      → IsWellFormed capacity (stored j s.disk)
      → IsWellFormed capacity (stored j t.disk)
  Reach-IsWellFormed {s} r idle w =
      (Reach-IsKept r (record {
        on_disk = w;
        safe = λ i. (let (x, e) = idle i in returned-IsSafe (s.threads i) x e);
      })).on_disk
