-- ===== src/Client/Frames.antt =====
-- The length-prefixed frames of src/network/client.rs.
use rusty_bundle.Prelude.{
  ℕ, ◌%◌, ◌^◌, ◌<◌, List, [], ◌∷◌, ◌++◌, some, true, ◌≡◌, refl, arith, ap, ◌∙◌, length,
}
use rusty_bundle.Stream.{
  TcpStream, read_exact, split_exact, cons_first, to_be_bytes, from_be_bytes, write_all,
}
use rusty_bundle.Client.{length_prefix, read_frame, write_frame}

-- A payload behind its length.
abbrev pub frame : List ℕ → List ℕ
frame payload = length_prefix payload ++ payload

pub append_assoc : (xs ys zs : List ℕ) → (xs ++ ys) ++ zs ≡ xs ++ (ys ++ zs)
append_assoc [] ys zs = refl
append_assoc (x ∷ xs) ys zs = ap (x ∷◌) (append_assoc xs ys zs)

split_exact-append : (xs ys : List ℕ) → split_exact (length xs) (xs ++ ys) ≡ some (xs, ys)
split_exact-append [] ys = refl
split_exact-append (x ∷ xs) ys = ap (cons_first x) (split_exact-append xs ys)

pub from_be_bytes-to_be_bytes : (n : ℕ) → n < 2 ^ 32 → from_be_bytes (to_be_bytes n) ≡ n
unfolding to_be_bytes
from_be_bytes-to_be_bytes n h = omega arith

-- A read of as many bytes as come first takes them.
pub read_exact-append :
    (n : ℕ) (xs ys : List ℕ) (s : TcpStream)
    → n ≡ length xs
    → s.incoming ≡ xs ++ ys
    → read_exact n s ≡ (some xs, record s { incoming = ys })
read_exact-append n xs ys s en e =
    let split : split_exact n s.incoming ≡ some (xs, ys) = rw (en, e) (split_exact-append xs ys) in
    rw (read_exact, split) refl

prefix_value :
    (payload : List ℕ)
    → length payload < 2 ^ 32
    → from_be_bytes (length_prefix payload) ≡ length payload
prefix_value payload small =
    from_be_bytes-to_be_bytes (length payload % 2 ^ 32) (omega arith) ∙ omega (arith, small)

prefix_length : (n : ℕ) → 4 ≡ length (to_be_bytes n)
unfolding to_be_bytes
prefix_length n = refl

-- A frame is read whole, and what follows it stays.
pub read_frame-frame :
    (payload rest : List ℕ) (s : TcpStream)
    → length payload < 2 ^ 32
    → s.incoming ≡ frame payload ++ rest
    → read_frame s ≡ (some payload, record s { incoming = rest })
unfolding read_frame
read_frame-frame payload rest s small e =
    let p = length_prefix payload in
    let first =
      read_exact-append 4 p (payload ++ rest) s (prefix_length (length payload % 2 ^ 32))
        (e ∙ append_assoc p payload rest) in
    let second =
      read_exact-append (from_be_bytes p) payload rest (record s { incoming = payload ++ rest })
        (prefix_value payload small) refl in
    rw (read_frame, first, ap (λ r. r.1) first) second

pub write_all_reliable :
    (bs : List ℕ) (s : TcpStream)
    → s.writes ≡ []
    → write_all bs s ≡ (true, record s { outgoing = s.outgoing ++ bs })
write_all_reliable bs s e = rw e refl

-- With no failing write, the frame is sent behind what was sent before.
pub write_frame_reliable :
    (payload : List ℕ) (s : TcpStream)
    → s.writes ≡ []
    → write_frame payload s ≡ (true, record s { outgoing = s.outgoing ++ frame payload })
unfolding write_frame
write_frame_reliable payload s e =
    let p = length_prefix payload in
    let s1 = record s { outgoing = s.outgoing ++ p } in
    rw (write_frame, write_all_reliable p s e)
      (write_all_reliable payload s1 e
        ∙ ap (λ bs. (true, record s { outgoing = bs })) (append_assoc s.outgoing p payload))
