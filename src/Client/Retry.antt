-- ===== src/Client/Retry.antt =====
-- `connect_with_retry` (src/network/client.rs) against the answers that the attempts get.
use rusty_bundle.Prelude.{
  ℕ, zero, suc, ◌+◌, List, [], ◌∷◌, Option, none, some, ◌≡◌, refl, arith, ◌∙◌,
}
use rusty_bundle.Stream.{TcpStream}
use rusty_bundle.Client.{connect_with_retry}

-- The first stream among the first n answers.
abbrev pub first_stream : ℕ → List (Option TcpStream) → Option TcpStream
first_stream zero os = none
first_stream (suc n) [] = none
first_stream (suc n) (none ∷ os) = first_stream n os
first_stream (suc n) (some s ∷ os) = some s

-- How many attempts are refused before a stream opens, the last one of n not counted.
abbrev pub pauses : ℕ → List (Option TcpStream) → ℕ
pauses zero os = 0
pauses (suc zero) os = 0
pauses (suc (suc n)) [] = suc (pauses (suc n) [])
pauses (suc (suc n)) (none ∷ os) = suc (pauses (suc n) os)
pauses (suc (suc n)) (some s ∷ os) = 0

-- `connect_with_retry` returns the first stream among the answers to as many attempts as it may
-- make, and sleeps once after each refused attempt but the last one that it may make.
pub connect_with_retry_first :
    (n : ℕ) (os : List (Option TcpStream)) (k : ℕ)
    → let (r, d) = connect_with_retry n (record { answers = os; naps = k }) in
      (r ≡ first_stream n os) × (d.naps ≡ k + pauses n os)
unfolding connect_with_retry
connect_with_retry_first zero os k = (refl, omega arith)
connect_with_retry_first (suc zero) [] k = (refl, omega arith)
connect_with_retry_first (suc zero) (none ∷ os) k = (refl, omega arith)
connect_with_retry_first (suc zero) (some s ∷ os) k = (refl, omega arith)
connect_with_retry_first (suc (suc n)) [] k =
    let (r, m) = connect_with_retry_first (suc n) [] (suc k) in (r, m ∙ omega arith)
connect_with_retry_first (suc (suc n)) (none ∷ os) k =
    let (r, m) = connect_with_retry_first (suc n) os (suc k) in (r, m ∙ omega arith)
connect_with_retry_first (suc (suc n)) (some s ∷ os) k = (refl, omega arith)
