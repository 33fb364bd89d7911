-- ===== src/Stream.antt =====
-- TCP streams, as src/network/client.rs uses those of the standard library: the bytes that come and
-- those that were sent. A stream that ends or breaks has no more bytes to come.
use rusty_bundle.Prelude.{
  ℕ, zero, suc, ◌+◌, ◌*◌, ◌/◌, ◌%◌, List, [], ◌∷◌, ◌++◌, Option, none, some, Bool, true, false,
}

-- How the next write ends: all is sent, or it fails when `count` bytes are.
pub data WriteOutcome : Type 0 where
  written : WriteOutcome
  broken : (count : ℕ) → WriteOutcome

pub record TcpStream : Type 0 where
  pub incoming : List ℕ
  -- A `read` finds one byte and the next number here of others; all, once the list is used up.
  pub arrivals : List ℕ
  -- How the coming writes end; all that are not listed succeed.
  pub writes : List WriteOutcome
  pub outgoing : List ℕ

abbrev pub cons_first : ℕ → Option (List ℕ × List ℕ) → Option (List ℕ × List ℕ)
cons_first b none = none
cons_first b (some (bs, rest)) = some (b ∷ bs, rest)

-- The first n bytes, if there are as many, and the rest.
abbrev pub split_exact : ℕ → List ℕ → Option (List ℕ × List ℕ)
split_exact zero bs = some ([], bs)
split_exact (suc n) [] = none
split_exact (suc n) (b ∷ bs) = cons_first b (split_exact n bs)

-- At most the first n bytes, and the rest.
abbrev pub split_upto : ℕ → List ℕ → List ℕ × List ℕ
split_upto zero bs = ([], bs)
split_upto (suc n) [] = ([], [])
split_upto (suc n) (b ∷ bs) = let (first, rest) = split_upto n bs in (b ∷ first, rest)

-- `u32::to_be_bytes` and `u32::from_be_bytes`
unfoldable pub to_be_bytes : ℕ → List ℕ
to_be_bytes n = n / 16777216 % 256 ∷ n / 65536 % 256 ∷ n / 256 % 256 ∷ n % 256 ∷ []

abbrev pub fold_be : ℕ → List ℕ → ℕ
fold_be acc [] = acc
fold_be acc (b ∷ bs) = fold_be (acc * 256 + b) bs

abbrev pub from_be_bytes : List ℕ → ℕ
from_be_bytes bs = fold_be 0 bs

-- `stream.peek(&mut first)` of one byte.
abbrev pub peek : TcpStream → Option ℕ
peek s = elim s.incoming [ [] ↦ none | b ∷ bs ↦ some b ]

-- `stream.read_exact(&mut buf)` of n bytes. When it fails, the bytes that came are lost.
abbrev pub read_exact : ℕ → TcpStream → Option (List ℕ) × TcpStream
read_exact n s = elim (split_exact n s.incoming) [
  | none ↦ (none, record s { incoming = [] })
  | some bs ↦ (some bs.0, record s { incoming = bs.1 })
]

-- `stream.read(&mut buffer)` of a buffer of 4096 bytes.
abbrev pub read_upto : ℕ → TcpStream → List ℕ × TcpStream
read_upto limit s = elim s.arrivals [
  | [] ↦ (let (bs, rest) = split_upto limit s.incoming in (bs, record s { incoming = rest }))
  | k ∷ ks ↦
      (let (now, later) = split_upto (suc k) s.incoming in
        let (bs, rest) = split_upto limit now in
        (bs, record s { incoming = rest ++ later; arrivals = ks }))
]

-- `stream.write_all(bytes)`, and whether it succeeds.
abbrev pub write_all : List ℕ → TcpStream → Bool × TcpStream
write_all bs s = elim s.writes [
  | [] ↦ (true, record s { outgoing = s.outgoing ++ bs })
  | written ∷ ws ↦ (true, record s { writes = ws; outgoing = s.outgoing ++ bs })
  | broken n ∷ ws ↦ (false, record s { writes = ws; outgoing = s.outgoing ++ (split_upto n bs).0 })
]
