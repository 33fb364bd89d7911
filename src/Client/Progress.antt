-- ===== src/Client/Progress.antt =====
-- Each turn of `handle_peer_to_peer` (src/network/client.rs) that goes on takes bytes from the
-- stream, so that the loop ends.
use rusty_bundle.Prelude.{
  ℕ, zero, suc, ◌+◌, ◌≤◌, ◌<◌, List, [], ◌∷◌, ◌++◌, map, Option, Option-cases, none, some,
  Bool-cases, true, false, ◌≡◌, refl, arith, length, length-append, inl, inr, ◌==◌, is_some,
}
use rusty_bundle.Model.{Bundle, BundleKind, data_msg, ack, request_sv, summary_vector}
use rusty_bundle.Disk.{Serde}
use rusty_bundle.Stream.{
  TcpStream, peek, read_exact, read_upto, write_all, split_exact, split_upto, from_be_bytes,
}
use rusty_bundle.Protobuf.{Formats}
use rusty_bundle.BundleManager
use rusty_bundle.Engine.{State}
use rusty_bundle.Client.{
  Codec, Moment, ack_bytes, read_frame, write_frame, receive_bundle, answer_sv, respond_peer_sv,
  route_received, peer_turn, handle_peer_to_peer, by_first_byte,
}

split_exact-length :
    (n : ℕ) (bs : List ℕ) (r : List ℕ × List ℕ)
    → split_exact n bs ≡ some r
    → n + length r.1 ≡ length bs
split_exact-length zero bs r e = grind arith
split_exact-length (suc n) [] r e = ground arith
split_exact-length (suc n) (b ∷ bs) r e = elim (Option-cases (split_exact n bs)) [
  | inl h ↦ grind arith
  | inr (q, h) ↦ grind (arith, split_exact-length n bs q h)
]

split_upto-length : (n : ℕ) (bs : List ℕ) → length (split_upto n bs).1 ≤ length bs
split_upto-length zero bs = omega arith
split_upto-length (suc n) [] = omega arith
split_upto-length (suc n) (b ∷ bs) = omega (arith, split_upto-length n bs)

split_upto-total :
    (n : ℕ) (bs : List ℕ) → length (split_upto n bs).0 + length (split_upto n bs).1 ≡ length bs
split_upto-total zero bs = omega arith
split_upto-total (suc n) [] = omega arith
split_upto-total (suc n) (b ∷ bs) = omega (arith, split_upto-total n bs)

pub write_all-incoming : (bs : List ℕ) (s : TcpStream) → (write_all bs s).1.incoming ≡ s.incoming
write_all-incoming bs s = ground arith

write_frame-incoming : (bs : List ℕ) (s : TcpStream) → (write_frame bs s).1.incoming ≡ s.incoming
unfolding write_frame
write_frame-incoming bs s = grind (arith, write_all-incoming)

read_exact-le : (n : ℕ) (s : TcpStream) → length (read_exact n s).1.incoming ≤ length s.incoming
read_exact-le n s = elim (Option-cases (split_exact n s.incoming)) [
  | inl e ↦ rw (read_exact, e) (omega arith)
  | inr (r, e) ↦ rw (read_exact, e) (omega (arith, split_exact-length n s.incoming r e))
]

read_exact-lt :
    (n : ℕ) (s : TcpStream)
    → 0 < length s.incoming
    → length (read_exact (suc n) s).1.incoming < length s.incoming
read_exact-lt n s h = elim (Option-cases (split_exact (suc n) s.incoming)) [
  | inl e ↦ rw (read_exact, e) h
  | inr (r, e) ↦ rw (read_exact, e) (omega (arith, split_exact-length (suc n) s.incoming r e))
]

read_frame-lt :
    (s : TcpStream) → 0 < length s.incoming → length (read_frame s).1.incoming < length s.incoming
unfolding read_frame
read_frame-lt s h = elim (Option-cases (read_exact 4 s).0) [
  | inl e ↦ rw (read_frame, e) (read_exact-lt 3 s h)
  | inr (bs, e) ↦
      rw (read_frame, e)
        (omega (arith, read_exact-lt 3 s h, read_exact-le (from_be_bytes bs) (read_exact 4 s).1))
]

split_upto-lt : (n : ℕ) (bs : List ℕ) → 0 < length bs → length (split_upto (suc n) bs).1 < length bs
split_upto-lt n [] h = h
split_upto-lt n (b ∷ bs) h = omega (arith, split_upto-length n bs)

shorter_after :
    (n k : ℕ) (bs : List ℕ)
    → 0 < length bs
    → let (now, later) = split_upto (suc k) bs in
      length ((split_upto (suc n) now).1 ++ later) < length bs
shorter_after n k [] h = h
shorter_after n k (b ∷ bs) h =
    let (now, later) = split_upto k bs in
    omega (
      arith,
      length-append (split_upto n now).1 later,
      split_upto-length n now,
      split_upto-total k bs,
    )

read_upto-lt :
    (n : ℕ) (s : TcpStream) (found : List ℕ)
    → s.arrivals ≡ found
    → 0 < length s.incoming
    → length (read_upto (suc n) s).1.incoming < length s.incoming
read_upto-lt n s [] e h = rw (read_upto, e) (split_upto-lt n s.incoming h)
read_upto-lt n s (k ∷ ks) e h = rw (read_upto, e) (shorter_after n k s.incoming h)

some_come :
    (bs : List ℕ) (s : TcpStream)
    → s.incoming ≡ bs
    → is_some (peek s) ≡ true
    → 0 < length s.incoming
some_come [] s e h = let none_come : is_some (peek s) ≡ false = rw (peek, e) refl in ground arith
some_come (b ∷ bs) s e h = rw e (omega arith)

module _ (f : Formats) (codec : Codec) where
  receive_bundle-lt :
      (s : TcpStream)
      → 0 < length s.incoming
      → length (receive_bundle f codec s).1.incoming < length s.incoming
  unfolding receive_bundle
  receive_bundle-lt s h = elim (Option-cases (read_frame s).0) [
    | inl e ↦ rw (receive_bundle, e) (read_frame-lt s h)
    | inr (bs, e) ↦ elim (Option-cases (codec.parse_from_bytes bs)) [
      | inl e' ↦ rw (receive_bundle, e, e') (read_frame-lt s h)
      | inr (p, e') ↦
          rw (receive_bundle, e, e')
            (rw (write_all-incoming ack_bytes (read_frame s).1) (read_frame-lt s h))
    ]
  ]

module _ (j : Serde) (f : Formats) (codec : Codec) where
  answer_sv-incoming :
      (k : Option BundleKind) (s : TcpStream) (st : State j.Text)
      → (answer_sv j f codec k s st).0.incoming ≡ s.incoming
  unfolding answer_sv
  answer_sv-incoming (some (request_sv from)) s st =
      let bundles = (BundleManager.get_bundles_from_node j st.bundle_manager).0 in
      elim (Option-cases (codec.to_vec (summary_vector (map (λ b. b.id) bundles)))) [
        | inl e ↦ rw (answer_sv, e) refl
        | inr (payload, e) ↦ rw (answer_sv, e) (write_frame-incoming payload s)
      ]
  answer_sv-incoming (some (data_msg m)) s st = refl
  answer_sv-incoming (some (ack i)) s st = refl
  answer_sv-incoming (some (summary_vector ids)) s st = refl
  answer_sv-incoming none s st = refl

  route_received-stream :
      (m : Moment) (r : Option Bundle) (s : TcpStream) (st : State j.Text)
      → (route_received j f codec m r s st).1 ≡ s
  unfolding route_received
  route_received-stream m none s st = refl
  route_received-stream m (some b) s st = ground arith

  respond_peer_sv-lt :
      (s : TcpStream) (st : State j.Text)
      → 0 < length s.incoming
      → length (respond_peer_sv j f codec s st).0.incoming < length s.incoming
  unfolding respond_peer_sv
  respond_peer_sv-lt s st h =
      let (buffer, s1) = read_upto 4096 s in
      rw (respond_peer_sv, answer_sv-incoming (codec.from_slice buffer) s1 st)
        (read_upto-lt 4095 s s.arrivals refl h)

  by_first_byte-lt :
      (m : Moment) (first : Option ℕ) (s : TcpStream) (st : State j.Text)
      → (is_some first ≡ true → 0 < length s.incoming)
      → (by_first_byte j f codec m first s st).0 ≡ true
      → length (by_first_byte j f codec m first s st).1.incoming < length s.incoming
  unfolding by_first_byte
  by_first_byte-lt m none s st h goes_on = ground arith
  by_first_byte-lt m (some b) s st h goes_on =
      let (received, s1) = receive_bundle f codec s in
      elim (Bool-cases (b == 123)) [
        | inl e ↦ rw (by_first_byte, e) (respond_peer_sv-lt s st (h refl))
        | inr e ↦
            rw (by_first_byte, e, route_received-stream m received s1 st)
              (receive_bundle-lt f codec s (h refl))
      ]

  -- A turn that goes on leaves fewer bytes.
  pub peer_turn-lt :
      (m : Moment) (s : TcpStream) (st : State j.Text)
      → (peer_turn j f codec m s st).0 ≡ true
      → length (peer_turn j f codec m s st).1.incoming < length s.incoming
  peer_turn-lt m s st h = by_first_byte-lt m (peek s) s st (some_come s.incoming s refl) h

  -- The loop ends within one turn more than bytes come, and any two amounts of fuel above the number
  -- of bytes give the same result.
  pub handle_peer_to_peer_ends :
      (fuel fuel' : ℕ) (moments : ℕ → Moment) (n : ℕ) (s : TcpStream) (st : State j.Text)
      → length s.incoming < fuel
      → length s.incoming < fuel'
      → (is_some (handle_peer_to_peer j f codec fuel moments n s st) ≡ true)
        × (handle_peer_to_peer j f codec fuel moments n s st
            ≡ handle_peer_to_peer j f codec fuel' moments n s st)
  unfolding handle_peer_to_peer
  handle_peer_to_peer_ends zero fuel' moments n s st h h' = ground arith
  handle_peer_to_peer_ends (suc fuel) zero moments n s st h h' = ground arith
  handle_peer_to_peer_ends (suc fuel) (suc fuel') moments n s st h h' =
      let (goes_on, s1, st1) = peer_turn j f codec (moments n) s st in
      elim (Bool-cases goes_on) [
        | inl e ↦
            rw (handle_peer_to_peer, e)
              (let shorter = peer_turn-lt (moments n) s st e in
                handle_peer_to_peer_ends fuel fuel' moments (suc n) s1 st1 (omega (arith, shorter))
                  (omega (arith, shorter)))
        | inr e ↦ rw (handle_peer_to_peer, e) (refl, refl)
      ]
