-- ===== src/Client.antt =====
-- src/network/client.rs: connections to peers, the frames of bundles and of summary vectors, and
-- the loop that serves a peer.
pub mod Frames
pub mod Exchange
pub mod Retry
pub mod Progress
pub mod Stable
pub mod Serving
pub mod Vectors
pub mod Arrivals
pub mod Directory
use rusty_bundle.Prelude.{
  ℕ, zero, suc, ◌%◌, ◌^◌, List, [], ◌∷◌, map, Option, none, some, Bool, true, false, not, ltb, ◌==◌,
  if◌then◌else◌, length, is_some,
}
use rusty_bundle.Model.{Uuid, Bundle, BundleKind, data_msg, ack, request_sv, summary_vector}
use rusty_bundle.Disk.{Serde}
use rusty_bundle.Stream.{
  TcpStream, peek, read_exact, read_upto, write_all, to_be_bytes, from_be_bytes,
}
use rusty_bundle.Protobuf.{Formats, ProtobufBundle, to_proto, from_proto}
use rusty_bundle.BundleManager
use rusty_bundle.Engine.{State, Times}
use rusty_bundle.Engine.Route.{with_manager, route_bundle}

-- What the next calls of `TcpStream::connect` return (an error, once the list is used up), and how
-- often the thread slept.
pub record Dial : Type 0 where
  pub answers : List (Option TcpStream)
  pub naps : ℕ

-- The result of one `TcpStream::connect`.
abbrev pub dial_once : Dial → Option TcpStream × Dial
dial_once d = elim d.answers [ [] ↦ (none, d) | a ∷ rest ↦ (a, record d { answers = rest }) ]

-- The pause after a refused attempt, when any are left.
abbrev pub nap_before : (left : ℕ) → Dial → Dial
nap_before zero d = d
nap_before (suc left) d = record d { naps = suc d.naps }

-- The attempts that are left of `1..=max_retries`.
unfoldable pub connect_with_retry : (attempts : ℕ) → Dial → Option TcpStream × Dial
connect_with_retry zero d = (none, d)
connect_with_retry (suc left) d =
    let (answer, d1) = dial_once d in
    let retried = connect_with_retry left (nap_before left d1) in
    elim answer [ none ↦ retried | some stream ↦ (some stream, d1) ]

-- What the client calls of serde_json and of the code that protobuf generates.
pub record Codec : Type 0 where
  -- `serde_json::to_vec` and `serde_json::from_slice` of a `BundleKind`
  pub to_vec : BundleKind → Option (List ℕ)
  pub from_slice : List ℕ → Option BundleKind
  -- `write_to_bytes` and `parse_from_bytes` of a `ProtobufBundle`
  pub write_to_bytes : ProtobufBundle → Option (List ℕ)
  pub parse_from_bytes : List ℕ → Option ProtobufBundle

-- `(payload.len() as u32).to_be_bytes()`
abbrev pub length_prefix : List ℕ → List ℕ
length_prefix payload = to_be_bytes (length payload % 2 ^ 32)

-- `b"ack\n"`
abbrev pub ack_bytes : List ℕ
ack_bytes = 97 ∷ 99 ∷ 107 ∷ 10 ∷ []

-- `stream.write_all(&len).and_then(|_| stream.write_all(&payload))`
unfoldable pub write_frame : List ℕ → TcpStream → Bool × TcpStream
write_frame payload s =
    let (prefix_written, s1) = write_all (length_prefix payload) s in
    if prefix_written then write_all payload s1 else (false, s1)

-- `read_exact` of the prefix, then of as many bytes as it says.
unfoldable pub read_frame : TcpStream → Option (List ℕ) × TcpStream
read_frame s =
    let (len_buf, s1) = read_exact 4 s in
    elim len_buf [ none ↦ (none, s1) | some bs ↦ read_exact (from_be_bytes bs) s1 ]

module _ (f : Formats) (codec : Codec) where
  -- `send_bundle` over the stream that was opened: the result, and the stream at its end.
  unfoldable pub send_over : List ℕ → TcpStream → Bool × TcpStream
  send_over payload s =
      let (sent, s1) = write_frame payload s in
      let (reply, s2) = read_exact 4 s1 in if sent then (is_some reply, s2) else (false, s1)

  -- `serialize`, `connect_to_peer` and the exchange. The stream is returned for what it has sent.
  unfoldable pub send_bundle : Bundle → Dial → Bool × Option TcpStream × Dial
  send_bundle b d = elim (codec.write_to_bytes (to_proto f b)) [
    | none ↦ (false, none, d)
    | some payload ↦
        (let (connection, d1) = connect_with_retry 3 d in
          elim connection [
            | none ↦ (false, none, d1)
            | some s ↦ (let (r, s1) = send_over payload s in (r, some s1, d1))
          ])
  ]

  -- The result of the reply is not read.
  unfoldable pub receive_bundle : TcpStream → Option Bundle × TcpStream
  receive_bundle s =
      let (payload, s1) = read_frame s in
      elim payload [
        | none ↦ (none, s1)
        | some bytes ↦ (elim (codec.parse_from_bytes bytes) [
          | none ↦ (none, s1)
          | some p ↦ (some (from_proto f p), (write_all ack_bytes s1).1)
        ])
      ]

  abbrev pub requested_ids : BundleKind → Option (List Uuid)
  requested_ids (summary_vector ids) = some ids
  requested_ids _ = none

  -- `request_peer_sv` over the stream that was opened; none for an error.
  unfoldable pub request_over : Uuid → TcpStream → Option (List Uuid) × TcpStream
  request_over self_id s = elim (codec.to_vec (request_sv self_id)) [
    | none ↦ (none, s)
    | some payload ↦
        (let (sent, s1) = write_all payload s in
          let (buffer, s2) = read_frame s1 in
          if not sent then (none, s1) else elim buffer [
            | none ↦ (none, s2)
            | some bytes ↦ (elim (codec.from_slice bytes) [
              | none ↦ (none, s2)
              | some kind ↦ (requested_ids kind, s2)
            ])
          ])
  ]

  unfoldable pub request_peer_sv : Uuid → Dial → Option (List Uuid) × Option TcpStream × Dial
  request_peer_sv self_id d =
      let (connection, d1) = connect_with_retry 3 d in
      elim connection [
        | none ↦ (none, none, d1)
        | some s ↦ (let (r, s1) = request_over self_id s in (r, some s1, d1))
      ]

-- What a turn of the loop takes from outside: the clock, a fresh id, and whether a runtime could
-- be built.
pub record Moment : Type 0 where
  pub times : Times
  pub fresh : Uuid
  pub has_runtime : Bool

module _ (j : Serde) (f : Formats) (codec : Codec) where
  open j use {Text}

  -- The request that was read, if it is one, is answered with the ids in store.
  unfoldable pub answer_sv : Option BundleKind → TcpStream → State Text → TcpStream × State Text
  answer_sv (some (request_sv from)) s st =
      let (bundles, m) = BundleManager.get_bundles_from_node j st.bundle_manager in
      let st1 = with_manager j st m in
      elim (codec.to_vec (summary_vector (map (λ b. b.id) bundles))) [
        | none ↦ (s, st1)
        | some payload ↦ ((write_frame payload s).1, st1)
      ]
  answer_sv (some (data_msg m)) s st = (s, st)
  answer_sv (some (ack i)) s st = (s, st)
  answer_sv (some (summary_vector ids)) s st = (s, st)
  answer_sv none s st = (s, st)

  unfoldable pub respond_peer_sv : TcpStream → State Text → TcpStream × State Text
  respond_peer_sv s st =
      let (buffer, s1) = read_upto 4096 s in answer_sv (codec.from_slice buffer) s1 st

  -- What follows `receive_bundle`; true if the loop goes on.
  unfoldable pub route_received :
      Moment → Option Bundle → TcpStream → State Text → Bool × TcpStream × State Text
  route_received m none s st = (false, s, st)
  route_received m (some b) s st =
      let (known, manager) = BundleManager.has_bundle j b.id st.bundle_manager in
      let st1 = with_manager j st manager in
      if known
      then (true, s, st1)
      else if not m.has_runtime
      then (false, s, st1)
      else (true, s, (route_bundle j m.times m.fresh b st1).1)

  -- A turn on the first byte that was seen. 123 is `b'{'`.
  unfoldable pub by_first_byte :
      Moment → Option ℕ → TcpStream → State Text → Bool × TcpStream × State Text
  by_first_byte m none s st = (false, s, st)
  by_first_byte m (some first) s st =
      let (received, s1) = receive_bundle f codec s in
      if first == 123
      then (let (s2, st2) = respond_peer_sv s st in (true, s2, st2))
      else route_received m received s1 st

  -- One turn of the loop.
  abbrev pub peer_turn : Moment → TcpStream → State Text → Bool × TcpStream × State Text
  peer_turn m s st = by_first_byte m (peek s) s st

  -- The loop, on fuel; `n` counts its turns. None if the fuel ends before the loop does.
  unfoldable pub handle_peer_to_peer :
      (fuel : ℕ) → (ℕ → Moment) → (n : ℕ) → TcpStream → State Text → Option (TcpStream × State Text)
  handle_peer_to_peer zero moments n s st = none
  handle_peer_to_peer (suc fuel) moments n s st =
      let (goes_on, s1, st1) = peer_turn (moments n) s st in
      let rest = handle_peer_to_peer fuel moments (suc n) s1 st1 in
      if goes_on then rest else some (s1, st1)
