-- ===== src/Cli/Ports.antt =====
-- Lists of ports and of threads, as the commands of src/cli/handler.rs grow them.
use mathlib.Core.Bool.{false≢true}
use rusty_bundle.Prelude.{
  ℕ, List, [], ◌∷◌, ◌++◌, map, Bool-cases, true, false, ◌≡◌, refl, arith, sym, ap, ◌∙◌, inl, inr,
  ◌==◌, contains, any-append, All,
}

-- No number twice.
abbrev pub Unique : List ℕ → Type 0
Unique [] = Unit
Unique (x ∷ xs) = (contains xs x ≡ false) × Unique xs

pub Unique-append :
    (xs : List ℕ) (x : ℕ) → Unique xs → contains xs x ≡ false → Unique (xs ++ x ∷ [])
Unique-append [] x u h = (refl, tt)
Unique-append (y ∷ ys) x (f, u) h =
    let split = any-append (λ z. z == y) ys (x ∷ []) in
    (grind arith, Unique-append ys x u (ground arith))

-- A port that is not in use is that of no listener.
pub not_listened :
    {E : Type 0} (ports : List ℕ) (l : List (ℕ × E)) (port : ℕ)
    → All (λ t. contains ports t.0 ≡ true) l
    → contains ports port ≡ false
    → contains (map (λ t. t.0) l) port ≡ false
not_listened ports [] port h free = refl
not_listened ports (t ∷ ts) port (there, h) free =
    let rest = not_listened ports ts port h free in
    elim (Bool-cases (t.0 == port)) [
      | inl e ↦
          (let same : t.0 ≡ port = ground arith in
            absurd (false≢true (sym free ∙ ap (contains ports) (sym same) ∙ there)))
      | inr e ↦ rw e rest
    ]

-- The ports of the listeners stay in use when another one is.
pub still_used :
    {E : Type 0} (ports : List ℕ) (l : List (ℕ × E)) (port : ℕ)
    → All (λ t. contains ports t.0 ≡ true) l
    → All (λ t. contains (ports ++ port ∷ []) t.0 ≡ true) l
still_used ports [] port h = tt
still_used ports (t ∷ ts) port (there, h) =
    let split = any-append (λ z. z == t.0) ports (port ∷ []) in
    (ground arith, still_used ports ts port h)

pub contains-last : (xs : List ℕ) (x : ℕ) → contains (xs ++ x ∷ []) x ≡ true
contains-last xs x = let split = any-append (λ z. z == x) xs (x ∷ []) in ground arith

pub map-append :
    {A B : Type 0} (g : A → B) (xs : List A) (x : A) → map g (xs ++ x ∷ []) ≡ map g xs ++ g x ∷ []
map-append g [] x = refl
map-append g (y ∷ ys) x = ap (g y ∷◌) (map-append g ys x)
