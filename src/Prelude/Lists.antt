-- ===== src/Prelude/Lists.antt =====
-- Lists as the program walks its vectors: closures are Boolean tests, lengths are native numbers.
use Prim.Native.Nat.{ℕ, suc, ◌+◌, ◌≤◌, ◌<◌}
use mathlib.Core.Path.{◌≡◌, refl}
use mathlib.Core.Bool.{Bool, true, false, ◌||◌, not}
use mathlib.Core.List.{List, [], ◌∷◌, ◌++◌}
use mathlib.Core.Option.{Option, none, some}
use native.Mathlib.Omega.{arith}
use rusty_bundle.Prelude.Tests.{◌==◌, if◌then◌else◌}

module _ {ℓ} {A : Type ℓ} where
  abbrev pub length : List A → ℕ
  length [] = 0
  length (x ∷ xs) = suc (length xs)

  -- `iter().any(p)`
  abbrev pub any : (A → Bool) → List A → Bool
  any p [] = false
  any p (x ∷ xs) = p x || any p xs

  -- `retain(p)`, and `iter().filter(p).cloned().collect()`
  abbrev pub retain : (A → Bool) → List A → List A
  retain p [] = []
  retain p (x ∷ xs) = let rest = retain p xs in if p x then x ∷ rest else rest

  -- `iter().find(p)`
  abbrev pub find : (A → Bool) → List A → Option A
  find p [] = none
  find p (x ∷ xs) = if p x then some x else find p xs

  -- `if let Some(x) = iter_mut().find(p) { *x = f(x) }`
  abbrev pub modify_first : (A → Bool) → (A → A) → List A → List A
  modify_first p f [] = []
  modify_first p f (x ∷ xs) = if p x then f x ∷ xs else x ∷ modify_first p f xs

  abbrev pub is_some : Option A → Bool
  is_some none = false
  is_some (some x) = true

  abbrev pub unwrap_or : Option A → A → A
  unwrap_or none d = d
  unwrap_or (some x) d = x

  abbrev pub All {κ} : (A → Type κ) → List A → Type κ
  All P [] = Unit
  All P (x ∷ xs) = P x × All P xs

-- `xs.contains(&x)`, of ids.
abbrev pub contains : List ℕ → ℕ → Bool
contains xs x = any (λ y. y == x) xs

module _ {ℓ} {A : Type ℓ} where
  pub length-append : (xs ys : List A) → length (xs ++ ys) ≡ length xs + length ys
  length-append [] ys = omega arith
  length-append (x ∷ xs) ys = omega (arith, length-append xs ys)

  pub All-append {κ} : (P : A → Type κ) (xs ys : List A) → All P xs → All P ys → All P (xs ++ ys)
  All-append P [] ys h k = k
  All-append P (x ∷ xs) ys (h, hs) k = (h, All-append P xs ys hs k)

  pub All-split {κ} : (P : A → Type κ) (xs ys : List A) → All P (xs ++ ys) → All P xs × All P ys
  All-split P [] ys h = (tt, h)
  All-split P (x ∷ xs) ys (h, hs) = let (a, b) = All-split P xs ys hs in ((h, a), b)

  -- A predicate that holds everywhere.
  pub All-trivial : (xs : List A) → All (λ _. Unit {0}) xs
  All-trivial [] = tt
  All-trivial (x ∷ xs) = (tt, All-trivial xs)

  pub length-retain-le : (p : A → Bool) (xs : List A) → length (retain p xs) ≤ length xs
  length-retain-le p [] = omega arith
  length-retain-le p (x ∷ xs) = ground (arith, length-retain-le p xs)

  pub length-modify_first :
      (p : A → Bool) (f : A → A) (xs : List A) → length (modify_first p f xs) ≡ length xs
  length-modify_first p f [] = refl
  length-modify_first p f (x ∷ xs) = ground (arith, length-modify_first p f xs)

  -- A `retain` that drops nothing leaves the list as it was.
  pub retain_all :
      (p : A → Bool) (xs : List A) → length xs ≤ length (retain p xs) → retain p xs ≡ xs
  retain_all p [] h = refl
  retain_all p (x ∷ xs) h = ground (arith, retain_all p xs, length-retain-le p xs)

  pub retain-not_none :
      (p : A → Bool) (xs : List A) → any p xs ≡ false → retain (λ x. not (p x)) xs ≡ xs
  retain-not_none p [] h = refl
  retain-not_none p (x ∷ xs) h = ground (arith, retain-not_none p xs)

  pub retain-not_some :
      (p : A → Bool) (xs : List A)
      → any p xs ≡ true
      → length (retain (λ x. not (p x)) xs) < length xs
  retain-not_some p [] h = ground arith
  retain-not_some p (x ∷ xs) h =
      ground (arith, retain-not_some p xs, length-retain-le (λ y. not (p y)) xs)

  pub any-append : (p : A → Bool) (xs ys : List A) → any p (xs ++ ys) ≡ (any p xs || any p ys)
  any-append p [] ys = refl
  any-append p (x ∷ xs) ys = ground (arith, any-append p xs ys)

  pub any-retain-false :
      (p q : A → Bool) (xs : List A) → any p xs ≡ false → any p (retain q xs) ≡ false
  any-retain-false p q [] h = refl
  any-retain-false p q (x ∷ xs) h = ground (arith, any-retain-false p q xs)

  pub is_some-find : (p : A → Bool) (xs : List A) → is_some (find p xs) ≡ any p xs
  is_some-find p [] = refl
  is_some-find p (x ∷ xs) = ground (arith, is_some-find p xs)

  pub find_sound : (p : A → Bool) (xs : List A) (y : A) → find p xs ≡ some y → p y ≡ true
  find_sound p [] y h = ground arith
  find_sound p (x ∷ xs) y h = ground (arith, find_sound p xs y)
