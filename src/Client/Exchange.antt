-- ===== src/Client/Exchange.antt =====
-- A bundle that `send_bundle` sends to a peer's `receive_bundle` (src/network/client.rs).
use rusty_bundle.Prelude.{
  ℕ, ◌^◌, ◌<◌, List, [], ◌∷◌, ◌++◌, Option, some, true, ◌≡◌, refl, ap, ◌∙◌, length,
}
use rusty_bundle.Model.{Bundle, MsgStatus}
use rusty_bundle.Stream.{TcpStream, write_all}
use rusty_bundle.Protobuf.{Formats, ProtobufBundle, to_proto, from_proto}
use rusty_bundle.Protobuf.RoundTrip.{FormatLaws, sent_kind, from_proto-to_proto}
use rusty_bundle.Client.{
  Dial, Codec, connect_with_retry, ack_bytes, send_over, send_bundle, receive_bundle,
}
use rusty_bundle.Client.Frames.{
  frame, read_frame-frame, read_exact-append, write_all_reliable, write_frame_reliable,
}

pub connect_first :
    (s : TcpStream) (more : List (Option TcpStream)) (d : Dial)
    → d.answers ≡ some s ∷ more
    → connect_with_retry 3 d ≡ (some s, record d { answers = more })
unfolding connect_with_retry
connect_first s more d e = rw e refl

module _ (f : Formats) (codec : Codec) where
  -- A frame of a message is received as its bundle, and answered.
  pub receive_bundle-frame :
      (payload rest : List ℕ) (p : ProtobufBundle) (s : TcpStream)
      → length payload < 2 ^ 32
      → codec.parse_from_bytes payload ≡ some p
      → s.incoming ≡ frame payload ++ rest
      → receive_bundle f codec s
        ≡ (some (from_proto f p), (write_all ack_bytes (record s { incoming = rest })).1)
  unfolding receive_bundle
  receive_bundle-frame payload rest p s small parsed e =
      let whole = read_frame-frame payload rest s small e in
      rw (receive_bundle, whole, parsed, ap (λ r. r.1) whole) refl

  send_over-reply :
      (payload later : List ℕ) (s : TcpStream)
      → s.writes ≡ []
      → s.incoming ≡ ack_bytes ++ later
      → send_over f codec payload s
        ≡ (true, record s { incoming = later; outgoing = s.outgoing ++ frame payload })
  unfolding send_over
  send_over-reply payload later s reliable e =
      let sent = write_frame_reliable payload s reliable in
      let s1 = record s { outgoing = s.outgoing ++ frame payload } in
      let reply = read_exact-append 4 ack_bytes later s1 refl e in rw (send_over, sent, reply) refl

  -- A bundle whose ports are `u16`, and whose message is below 2^32 bytes and read as what was
  -- written, is sent over a fresh connection whose first attempt and writes succeed. The sender returns true once the four
  -- bytes of the reply are there. A peer that reads what was sent receives the bundle with its id,
  -- nodes and ttl, as pending, its timestamp cut to whole seconds and its kind as the message keeps
  -- it. It replies with exactly those four bytes, and what came behind the frame is still to read.
  pub send-receive :
      FormatLaws f
      → (b : Bundle) (payload later rest : List ℕ)
      → (sender receiver : TcpStream) (more : List (Option TcpStream)) (d : Dial)
      → b.source.port < 2 ^ 16
      → b.destination.port < 2 ^ 16
      → codec.write_to_bytes (to_proto f b) ≡ some payload
      → codec.parse_from_bytes payload ≡ some (to_proto f b)
      → length payload < 2 ^ 32
      → d.answers ≡ some sender ∷ more
      → sender.writes ≡ []
      → sender.outgoing ≡ []
      → sender.incoming ≡ ack_bytes ++ later
      → receiver.writes ≡ []
      → (let arrived = record b {
        timestamp = record b.timestamp { nanos = 0 };
        kind = sent_kind f b.kind;
        shipment_status = MsgStatus.pending;
      } in
          let sender' = record sender { incoming = later; outgoing = frame payload } in
          (send_bundle f codec b d ≡ (true, some sender', record d { answers = more }))
          × (receive_bundle f codec (record receiver { incoming = sender'.outgoing ++ rest }) ≡ (
            some arrived,
            record receiver { incoming = rest; outgoing = receiver.outgoing ++ ack_bytes },
          )))
  unfolding send_bundle
  send-receive laws b payload later rest sender receiver more d ps pd encoded parsed small answered
        reliable fresh reply reliable' =
      let connected = connect_first sender more d answered in
      let sent = send_over-reply payload later sender reliable reply in
      let replied = record receiver {
        incoming = rest;
        outgoing = receiver.outgoing ++ ack_bytes;
      } in
      let got =
        receive_bundle-frame payload rest (to_proto f b)
          (record receiver { incoming = frame payload ++ rest }) small parsed refl in
      (
        rw (send_bundle, encoded, connected, sent, fresh, ap (λ r. r.1) connected) refl,
        got
            ∙ ap (λ r. (some (from_proto f (to_proto f b)), r.1))
                (write_all_reliable ack_bytes (record receiver { incoming = rest }) reliable')
            ∙ ap (λ b'. (some b', replied)) (from_proto-to_proto f laws b ps pd),
      )
