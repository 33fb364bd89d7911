-- ===== src/Storage/Settled.antt =====
-- A data bundle that is gone while its acknowledgement is in store does not come back
-- (`save_bundle` and `update_bundle` of src/storage/storage.rs).
use rusty_bundle.Prelude.{
  ℕ, List, [], ◌∷◌, Bool, Bool-cases, true, false, not, ◌&&◌, ◌≡◌, ap, arith, ◌==◌, inl, inr, any,
  retain, modify_first, any-append, any-retain-false,
}
use rusty_bundle.Model.{Uuid, Bundle, Clock, is_data, is_expired}
use rusty_bundle.Disk.{Serde, SerdeLaws}
use rusty_bundle.Storage.{Store, has_id, is_ack_for}
use rusty_bundle.Storage.Contents.{live, acked, add, save, delete, update}
use rusty_bundle.Storage.Access.{held, IsReliable}
use rusty_bundle.Storage.Calls.{Call, saves, updates, deletes, gets, gets_all, cleans, run}
use rusty_bundle.Storage.Sequences.{step_list, run_list, held-run}

-- The data bundle of an id.
abbrev pub is_data_of : Uuid → Bundle → Bool
is_data_of d b = is_data b.kind && (b.id == d)

-- The acknowledgement of `d` is there, and has not expired, at each call of a sequence.
abbrev pub AckStays : Uuid → ℕ → List Bundle → List (Clock × Call) → Type 0
AckStays d capacity l [] = Unit
AckStays d capacity l ((c, call) ∷ calls) =
    (any (is_ack_for d) (live c l) ≡ true)
    × AckStays d capacity (step_list capacity l (c, call)) calls

any-retain-true :
    (p q : Bundle → Bool) (l : List Bundle) → any p (retain q l) ≡ true → any p l ≡ true
any-retain-true p q [] h = h
any-retain-true p q (b ∷ bs) h = ground (arith, any-retain-true p q bs)

is_acked :
    (d : Uuid) (b : Bundle) (l : List Bundle)
    → any (is_ack_for d) l ≡ true
    → is_data_of d b ≡ true
    → acked b l ≡ true
is_acked d b l a h =
    let e : b.id ≡ d = ground arith in ground (arith, ap (λ i. any (is_ack_for i) l) e)

any-modify_first-false :
    (p q : Bundle → Bool) (b : Bundle) (l : List Bundle)
    → q b ≡ false
    → any q l ≡ false
    → any q (modify_first p (λ _. b) l) ≡ false
any-modify_first-false p q b [] h g = g
any-modify_first-false p q b (x ∷ xs) h g = ground (arith, any-modify_first-false p q b xs)

module _ (d : Uuid) (b : Bundle) (l : List Bundle) (a : any (is_ack_for d) l ≡ true) where
  add-gone :
      (capacity : ℕ)
      → any (is_data_of d) l ≡ false
      → any (is_data_of d) (add capacity b l).1 ≡ false
  unfolding add
  add-gone capacity g = elim (Bool-cases (is_data_of d b)) [
    | inl h ↦ rw (is_acked d b l a h) g
    | inr n ↦ ground (arith, any-append (is_data_of d) l (b ∷ []))
  ]

  update-gone : any (is_data_of d) l ≡ false → any (is_data_of d) (update b l).1 ≡ false
  unfolding update
  update-gone g = elim (Bool-cases (is_data_of d b)) [
    | inl h ↦ rw (is_acked d b l a h) g
    | inr n ↦ ground (arith, any-modify_first-false (has_id b.id) (is_data_of d) b l n g)
  ]

step-gone :
    (d : Uuid) (capacity : ℕ) (l : List Bundle) (c : Clock) (call : Call)
    → any (is_ack_for d) (live c l) ≡ true
    → any (is_data_of d) l ≡ false
    → any (is_data_of d) (step_list capacity l (c, call)) ≡ false
unfolding step_list save delete
step-gone d capacity l c (saves b) a g =
    add-gone d b (live c l) a capacity
      (any-retain-false (is_data_of d) (λ x. not (is_expired c x)) l g)
step-gone d capacity l c (updates b) a g =
    update-gone d b l (any-retain-true (is_ack_for d) (λ x. not (is_expired c x)) l a) g
step-gone d capacity l c (deletes id) a g =
    any-retain-false (is_data_of d) (λ x. not (has_id id x)) l g
step-gone d capacity l c (gets id) a g = g
step-gone d capacity l c gets_all a g = g
step-gone d capacity l c cleans a g =
    any-retain-false (is_data_of d) (λ x. not (is_expired c x)) l g

run-gone :
    (d : Uuid) (capacity : ℕ) (l : List Bundle) (calls : List (Clock × Call))
    → AckStays d capacity l calls
    → any (is_data_of d) l ≡ false
    → any (is_data_of d) (run_list capacity l calls) ≡ false
unfolding run_list
run-gone d capacity l [] a g = g
run-gone d capacity l ((c, call) ∷ calls) a g =
    run-gone d capacity (step_list capacity l (c, call)) calls a.1
      (step-gone d capacity l c call a.0 g)

-- With no failure of the file system: if the file has no data bundle of id d, and at each call of a
-- sequence it has an acknowledgement of d that has not expired, then it has no data bundle of id d
-- after the sequence, whatever bundles the calls save or update.
pub run-stays_gone :
    (j : Serde) (laws : SerdeLaws j) (d : Uuid) (s : Store j.Text) (calls : List (Clock × Call))
    → IsReliable s
    → AckStays d s.capacity (held j s) calls
    → any (is_data_of d) (held j s) ≡ false
    → any (is_data_of d) (held j (run j s calls)) ≡ false
run-stays_gone j laws d s calls r a g =
    rw (held-run j laws s calls r).0 (run-gone d s.capacity (held j s) calls a g)
