-- ===== src/Storage/Contents.antt =====
-- What each method of the storage layer (src/storage/storage.rs) does to the list of bundles in the
-- file, with no cache and no input or output, and what makes such a list well formed.
use rusty_bundle.Prelude.{
  ℕ, ◌≤◌, List, [], ◌∷◌, ◌++◌, Bool, true, false, not, ◌&&◌, ◌≡◌, refl, leb, if◌then◌else◌, any,
  retain, modify_first, length, length-append, length-retain-le, length-modify_first, any-append,
  any-retain-false, arith,
}
use rusty_bundle.Model.{Uuid, Bundle, Clock, is_data, is_expired}
use rusty_bundle.Storage.{has_id, is_ack_for}

-- The bundles that have not outlived their ttl.
abbrev pub live : Clock → List Bundle → List Bundle
live c = retain (λ b. not (is_expired c b))

abbrev pub without : Uuid → List Bundle → List Bundle
without id = retain (λ b. not (has_id id b))

-- A data bundle whose acknowledgement is in the list.
abbrev pub acked : Bundle → List Bundle → Bool
acked b l = is_data b.kind && any (is_ack_for b.id) l

-- Whether a list admits one more bundle.
abbrev pub admits : ℕ → Bundle → List Bundle → Bool
admits capacity b l =
    not (acked b l) && (not (leb capacity (length l)) && not (any (has_id b.id) l))

unfoldable pub add : ℕ → Bundle → List Bundle → Bool × List Bundle
add capacity b l = if admits capacity b l then (true, l ++ b ∷ []) else (false, l)

unfoldable pub save : Clock → ℕ → Bundle → List Bundle → Bool × List Bundle
save c capacity b l = add capacity b (live c l)

unfoldable pub delete : Uuid → List Bundle → Bool × List Bundle
delete id l = (any (has_id id) l, without id l)

unfoldable pub update : Bundle → List Bundle → Bool × List Bundle
update b l =
    if not (acked b l) && any (has_id b.id) l
    then (true, modify_first (has_id b.id) (λ _. b) l)
    else (false, l)

abbrev pub UniqueIds : List Bundle → Type 0
UniqueIds [] = Unit
UniqueIds (b ∷ bs) = (any (has_id b.id) bs ≡ false) × UniqueIds bs

pub record IsWellFormed (capacity : ℕ) (l : List Bundle) : Type 0 where
  pub unique : UniqueIds l
  pub bounded : length l ≤ capacity

retain-UniqueIds : (p : Bundle → Bool) (l : List Bundle) → UniqueIds l → UniqueIds (retain p l)
retain-UniqueIds p [] u = tt
retain-UniqueIds p (b ∷ bs) u =
    ground (arith, retain-UniqueIds p bs u.1, any-retain-false (has_id b.id) p bs u.0)

append-UniqueIds :
    (b : Bundle) (l : List Bundle)
    → any (has_id b.id) l ≡ false
    → UniqueIds l
    → UniqueIds (l ++ b ∷ [])
append-UniqueIds b [] h u = (refl, tt)
append-UniqueIds b (x ∷ xs) h u =
    ground (arith, append-UniqueIds b xs, any-append (has_id x.id) xs (b ∷ []))

any-modify_first :
    (id : Uuid) (b : Bundle) (l : List Bundle)
    → any (has_id id) (modify_first (has_id b.id) (λ _. b) l) ≡ any (has_id id) l
any-modify_first id b [] = refl
any-modify_first id b (x ∷ xs) = ground (arith, any-modify_first id b xs)

modify_first-UniqueIds :
    (b : Bundle) (l : List Bundle) → UniqueIds l → UniqueIds (modify_first (has_id b.id) (λ _. b) l)
modify_first-UniqueIds b [] u = tt
modify_first-UniqueIds b (x ∷ xs) u =
    ground (arith, modify_first-UniqueIds b xs u.1, any-modify_first x.id b xs)

pub nil-IsWellFormed : (capacity : ℕ) → IsWellFormed capacity []
nil-IsWellFormed capacity = record { unique = tt; bounded = omega arith }

module _ (capacity : ℕ) (l : List Bundle) (w : IsWellFormed capacity l) where
  pub retain-IsWellFormed : (p : Bundle → Bool) → IsWellFormed capacity (retain p l)
  retain-IsWellFormed p = record {
    unique = retain-UniqueIds p l w.unique;
    bounded = ground (arith, w.bounded, length-retain-le p l);
  }

  pub append-IsWellFormed :
      (b : Bundle)
      → any (has_id b.id) l ≡ false
      → leb capacity (length l) ≡ false
      → IsWellFormed capacity (l ++ b ∷ [])
  append-IsWellFormed b h k = record {
    unique = append-UniqueIds b l h w.unique;
    bounded = ground (arith, length-append l (b ∷ []));
  }

  pub modify_first-IsWellFormed :
      (b : Bundle) → IsWellFormed capacity (modify_first (has_id b.id) (λ _. b) l)
  modify_first-IsWellFormed b = record {
    unique = modify_first-UniqueIds b l w.unique;
    bounded = ground (arith, w.bounded, length-modify_first (has_id b.id) (λ _. b) l);
  }
