-- ===== src/Client/Arrivals.antt =====
-- What `handle_peer_to_peer` (src/network/client.rs) does with the frames of bundles.
use rusty_bundle.Prelude.{
  ℕ, zero, suc, ◌/◌, ◌%◌, ◌*◌, ◌^◌, ◌<◌, List, [], ◌∷◌, ◌++◌, none, some, Bool, Bool-cases, true,
  false, ◌≡◌, refl, arith, ap, ◌∙◌, length, inl, inr, ◌==◌, All, if◌then◌else◌, not, leb, ltb, ◌&&◌,
}
use rusty_bundle.Model.{Bundle}
use rusty_bundle.Disk.{Serde}
use rusty_bundle.Stream.{TcpStream, peek, write_all, to_be_bytes}
use rusty_bundle.Protobuf.{Formats, ProtobufBundle, from_proto}
use rusty_bundle.BundleManager
use rusty_bundle.Engine.{State}
use rusty_bundle.Engine.Route.{with_manager, route_bundle}
use rusty_bundle.Client.{
  Codec, Moment, ack_bytes, route_received, respond_peer_sv, by_first_byte, peer_turn,
  handle_peer_to_peer,
}
use rusty_bundle.Client.Frames.{frame}
use rusty_bundle.Client.Exchange.{receive_bundle-frame}
use rusty_bundle.Client.Progress.{write_all-incoming}

-- The first byte of the prefix.
abbrev high_byte : ℕ → ℕ
high_byte n = n % 2 ^ 32 / 16777216 % 256

peek-frame :
    (payload rest : List ℕ) (s : TcpStream)
    → s.incoming ≡ frame payload ++ rest
    → peek s ≡ some (high_byte (length payload))
unfolding to_be_bytes
peek-frame payload rest s e = rw (peek, e) refl

-- Whether a payload has from 123 * 2^24 to 124 * 2^24 - 1 bytes.
abbrev pub has_brace_length : List ℕ → Bool
has_brace_length payload =
    leb (123 * 2 ^ 24) (length payload) && ltb (length payload) (124 * 2 ^ 24)

high_byte_is_brace :
    (payload : List ℕ)
    → length payload < 2 ^ 32
    → (high_byte (length payload) == 123) ≡ has_brace_length payload
high_byte_is_brace payload small = ground arith

-- The bytes of several frames, each with the message that it stands for.
abbrev pub frames : List (List ℕ × ProtobufBundle) → List ℕ
frames [] = []
frames (x ∷ xs) = frame x.0 ++ frames xs

-- The payload is read as the message, and is too short to be taken for a control message.
abbrev pub IsSent : Codec → List ℕ × ProtobufBundle → Type 0
IsSent codec (payload, p) =
    (length payload < 123 * 2 ^ 24) × (codec.parse_from_bytes payload ≡ some p)

module _ (j : Serde) (f : Formats) (codec : Codec) where
  -- What a bundle that arrives makes of the node: it is routed, unless it is in store or no runtime
  -- can be built for it.
  unfoldable pub arrive : Moment → Bundle → State j.Text → State j.Text
  arrive m b st =
      let (known, manager) = BundleManager.has_bundle j b.id st.bundle_manager in
      let st1 = with_manager j st manager in
      if known
      then st1
      else if not m.has_runtime
      then st1
      else (route_bundle j m.times m.fresh b st1).1

  unfoldable pub arrive_each :
      (ℕ → Moment) → (n : ℕ) → List (List ℕ × ProtobufBundle) → State j.Text → State j.Text
  arrive_each moments n [] st = st
  arrive_each moments n (x ∷ xs) st =
      arrive_each moments (suc n) xs (arrive (moments n) (from_proto f x.1) st)

  route_received-arrive :
      (m : Moment) (b : Bundle) (s : TcpStream) (st : State j.Text)
      → m.has_runtime ≡ true
      → route_received j f codec m (some b) s st ≡ (true, s, arrive m b st)
  unfolding route_received arrive
  route_received-arrive m b s st runtime =
      let known = (BundleManager.has_bundle j b.id st.bundle_manager).0 in
      elim (Bool-cases known) [
        | inl e ↦ rw (route_received, arrive, e) refl
        | inr e ↦ rw (route_received, arrive, e, runtime) refl
      ]

  -- One turn on a frame whose payload, below 2^32 bytes, is read as a bundle, with a runtime that can
  -- be built: the bundle is received and acknowledged, and routed unless it is in store, exactly if
  -- the payload has not from 123 * 2^24 to 124 * 2^24 - 1 bytes. If it has, its first byte is that of
  -- `{`, and the turn answers it as a request of a summary vector.
  pub peer_turn-frame :
      (m : Moment) (payload rest : List ℕ) (p : ProtobufBundle) (s : TcpStream) (st : State j.Text)
      → length payload < 2 ^ 32
      → codec.parse_from_bytes payload ≡ some p
      → s.incoming ≡ frame payload ++ rest
      → m.has_runtime ≡ true
      → let s' = (write_all ack_bytes (record s { incoming = rest })).1 in
        peer_turn j f codec m s st ≡ (
          if has_brace_length payload
          then (let (s2, st2) = respond_peer_sv j f codec s st in (true, s2, st2))
          else (true, s', arrive m (from_proto f p) st))
  unfolding by_first_byte
  peer_turn-frame m payload rest p s st small parsed e runtime =
      let first = peek-frame payload rest s e in
      let test = high_byte_is_brace payload small in
      elim (Bool-cases (has_brace_length payload)) [
        | inl x ↦
            (let brace : (high_byte (length payload) == 123) ≡ true = test ∙ x in
              rw (x, first, by_first_byte, brace) refl)
        | inr x ↦
            (let other : (high_byte (length payload) == 123) ≡ false = test ∙ x in
              let got = receive_bundle-frame f codec payload rest p s small parsed e in
              rw (x, first, by_first_byte, other, got)
                (route_received-arrive m (from_proto f p) _ st runtime))
      ]

  turn-frame :
      (m : Moment) (payload rest : List ℕ) (p : ProtobufBundle) (s : TcpStream) (st : State j.Text)
      → IsSent codec (payload, p)
      → s.incoming ≡ frame payload ++ rest
      → m.has_runtime ≡ true
      → let s' = (write_all ack_bytes (record s { incoming = rest })).1 in
        peer_turn j f codec m s st ≡ (true, s', arrive m (from_proto f p) st)
  turn-frame m payload rest p s st (short, parsed) e runtime =
      let small : length payload < 2 ^ 32 = omega arith in
      let other : has_brace_length payload ≡ false = ground arith in
      peer_turn-frame m payload rest p s st small parsed e runtime ∙ rw other refl

  handle_step :
      (fuel : ℕ) (moments : ℕ → Moment) (n : ℕ) (s : TcpStream) (st : State j.Text)
      → (r : Bool × TcpStream × State j.Text) → peer_turn j f codec (moments n) s st ≡ r
      → handle_peer_to_peer j f codec (suc fuel) moments n s st ≡ (
          if r.0
          then handle_peer_to_peer j f codec fuel moments (suc n) r.1 r.2
          else some (r.1, r.2))
  unfolding handle_peer_to_peer
  handle_step fuel moments n s st r t =
      ap
        (λ r.
          if r.0
          then handle_peer_to_peer j f codec fuel moments (suc n) r.1 r.2
          else some (r.1, r.2))
        t

  turn-end :
      (m : Moment) (s : TcpStream) (st : State j.Text)
      → s.incoming ≡ []
      → peer_turn j f codec m s st ≡ (false, s, st)
  unfolding by_first_byte
  turn-end m s st e =
      let ended : peek s ≡ none = rw (peek, e) refl in
      ap (λ o. by_first_byte j f codec m o s st) ended

  -- A peer that sends frames of bundles and then ends the stream: the loop receives them in order,
  -- and routes each one that is not in store at that time. The frames are read as the messages,
  -- their payloads are shorter than 123 * 2^24 bytes, and a runtime can be built for each.
  pub handle_peer_to_peer-frames :
      (fuel : ℕ) (moments : ℕ → Moment) (n : ℕ) (xs : List (List ℕ × ProtobufBundle))
      → (s : TcpStream) (st : State j.Text) → All (IsSent codec) xs
      → ((k : ℕ) → (moments k).has_runtime ≡ true)
      → s.incoming ≡ frames xs
      → length xs < fuel
      → (s' : TcpStream) × (handle_peer_to_peer j f codec fuel moments n s st
          ≡ some (s', arrive_each moments n xs st))
  unfolding arrive_each
  handle_peer_to_peer-frames zero moments n xs s st sent runtime e h = ground arith
  handle_peer_to_peer-frames (suc fuel) moments n [] s st sent runtime e h =
      (s, handle_step fuel moments n s st (false, s, st) (turn-end (moments n) s st e))
  handle_peer_to_peer-frames (suc fuel) moments n (x ∷ xs) s st (sent, more) runtime e h =
      let rest = frames xs in
      let s1 = (write_all ack_bytes (record s { incoming = rest })).1 in
      let st1 = arrive (moments n) (from_proto f x.1) st in
      let t = turn-frame (moments n) x.0 rest x.1 s st sent e (runtime n) in
      let left = write_all-incoming ack_bytes (record s { incoming = rest }) in
      let (s', ends) =
        handle_peer_to_peer-frames fuel moments (suc n) xs s1 st1 more runtime left (omega arith) in
      (s', handle_step fuel moments n s st (true, s1, st1) t ∙ ends)
