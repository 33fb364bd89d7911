-- ===== src/Tests/Streams.antt =====
-- Peers on streams: src/network/client.rs at work.
use rusty_bundle.Prelude.{
  ℕ, ◌++◌, List, [], ◌∷◌, none, some, true, false, ◌≡◌, refl, arith, is_some, Option, ◌==◌,
  if◌then◌else◌, filter_map,
}
use rusty_bundle.Model.{MsgStatus}
use rusty_bundle.Disk.{stored, parse_bundles, load_bundles_from_file}
use rusty_bundle.Stream.{TcpStream, to_be_bytes}
use rusty_bundle.Storage
use rusty_bundle.Storage.{refresh_from_disk}
use rusty_bundle.BundleManager
use rusty_bundle.Protobuf.{to_proto, from_proto}
use rusty_bundle.Protobuf.RoundTrip.{sent_kind}
use rusty_bundle.Engine.{State}
use rusty_bundle.Client.{
  respond_peer_sv, answer_sv, write_frame, read_frame, Moment, send_bundle, receive_bundle,
  request_over, handle_peer_to_peer, peer_turn, ack_bytes,
}
use rusty_bundle.Client.Frames.{frame}
use rusty_bundle.Client.Exchange.{send-receive}
use rusty_bundle.Client.Progress.{handle_peer_to_peer_ends}
use rusty_bundle.Client.Serving.{EndIsKept, handle_peer_to_peer-IsKept}
use rusty_bundle.Client.Arrivals.{
  arrive, peer_turn-frame, arrive_each, frames, handle_peer_to_peer-frames,
}
use rusty_bundle.Registry.{
  Registry, ServerRequest, register, get_connected, peers, connect_as, handle_read,
  get_connected_peers,
}
use rusty_bundle.Registry.Wire.{ServerCodec, received_of, write_json, write_each, serve_read}
use rusty_bundle.Client.Directory.{
  DirectoryCodec, get_connected_peers_from_server, query_over, query-serve_read,
}
use rusty_bundle.Client.Vectors.{request-respond, ids_held}
use rusty_bundle.Samples.{
  alice, bob, Json, json, json_laws, hello, at, formats, format_laws, codec, stream_of,
}
use rusty_bundle.Tests.Routing.{times, at_node, bob_state, bob_state-IsKept}

abbrev bytes : List ℕ
bytes = 0 ∷ 7 ∷ []

send-receive_example :
    (send_bundle formats codec hello
        (record { answers = some (stream_of ack_bytes) ∷ []; naps = 0 })
      ≡ (
        true,
        some (record (stream_of []) { outgoing = frame bytes }),
        record { answers = []; naps = 0 },
      ))
    × (receive_bundle formats codec (stream_of (frame bytes ++ 9 ∷ [])) ≡ (
      some (record hello {
        timestamp = at 100;
        kind = sent_kind formats hello.kind;
        shipment_status = MsgStatus.pending;
      }),
      record (stream_of (9 ∷ [])) { outgoing = ack_bytes },
    ))
send-receive_example =
    send-receive formats codec format_laws hello bytes [] (9 ∷ []) (stream_of ack_bytes)
      (stream_of []) [] (record { answers = some (stream_of ack_bytes) ∷ []; naps = 0 })
      (omega arith) (omega arith) refl refl (omega arith) refl refl refl refl refl

abbrev moments : ℕ → Moment
moments k = record { times = times 101; fresh = 30; has_runtime = true }

abbrev two_frames : List ℕ
two_frames = frames ((bytes, to_proto formats hello) ∷ (bytes, to_proto formats hello) ∷ [])

handle_peer_to_peer_ends_example :
    (is_some (
        handle_peer_to_peer json formats codec 4 moments 0 (stream_of (123 ∷ 1 ∷ 5 ∷ [])) bob_state)
      ≡ true)
    × (handle_peer_to_peer json formats codec 4 moments 0 (stream_of (123 ∷ 1 ∷ 5 ∷ [])) bob_state
        ≡ handle_peer_to_peer json formats codec 9 moments 0
            (stream_of (123 ∷ 1 ∷ 5 ∷ []))
            bob_state)
handle_peer_to_peer_ends_example =
    handle_peer_to_peer_ends json formats codec 4 9 moments 0 (stream_of (123 ∷ 1 ∷ 5 ∷ []))
      bob_state (omega arith) (omega arith)

handle_peer_to_peer-IsKept_example :
    EndIsKept json
      (handle_peer_to_peer json formats codec 20 moments 0 (stream_of two_frames) bob_state)
handle_peer_to_peer-IsKept_example =
    handle_peer_to_peer-IsKept json json_laws formats codec 20 moments 0 (stream_of two_frames)
      bob_state bob_state-IsKept

peer_turn-frame_example :
    peer_turn json formats codec (moments 0) (stream_of (frame bytes ++ 9 ∷ [])) bob_state ≡ (
      true,
      record (stream_of (9 ∷ [])) { outgoing = ack_bytes },
      arrive json formats codec (moments 0) (from_proto formats (to_proto formats hello)) bob_state,
    )
peer_turn-frame_example =
    peer_turn-frame json formats codec (moments 0) bytes (9 ∷ []) (to_proto formats hello)
      (stream_of (frame bytes ++ 9 ∷ [])) bob_state (omega arith) refl refl refl

handle_peer_to_peer-frames_example :
    (s' : TcpStream) × (handle_peer_to_peer json formats codec 3 moments 0
        (stream_of two_frames)
        bob_state
      ≡ some (
        s',
        arrive_each json formats codec moments 0
            ((bytes, to_proto formats hello) ∷ (bytes, to_proto formats hello) ∷ [])
            bob_state,
      ))
handle_peer_to_peer-frames_example =
    handle_peer_to_peer-frames json formats codec 3 moments 0
      ((bytes, to_proto formats hello) ∷ (bytes, to_proto formats hello) ∷ [])
      (stream_of two_frames) bob_state ((omega arith, refl), ((omega arith, refl), tt)) (λ k. refl)
      refl (omega arith)

abbrev bob_hello : State Json
bob_hello = at_node 2 (hello ∷ []) []

request-respond_example :
    (request_over formats codec 1 (stream_of (frame (123 ∷ 2 ∷ 10 ∷ [])))).0
    ≡ some (ids_held json bob_hello)
unfolding stored parse_bundles filter_map respond_peer_sv answer_sv write_frame refresh_from_disk
    BundleManager.get_bundles_from_node Storage.get_all_bundles load_bundles_from_file request_over
    read_frame to_be_bytes
request-respond_example =
    request-respond json json_laws formats codec 1 (123 ∷ 1 ∷ 1 ∷ []) (123 ∷ 2 ∷ 10 ∷ [])
      (stream_of (frame (123 ∷ 2 ∷ 10 ∷ []))) (stream_of (123 ∷ 1 ∷ 1 ∷ [])) bob_hello refl refl
      refl (omega arith) refl refl (omega arith) refl refl refl refl refl refl refl

-- A query as `{` and its ids, and the registry's answer about alice as one byte.
abbrev asked_for : ServerRequest → Option (List ℕ)
asked_for (register node) = some (91 ∷ [])
asked_for (get_connected ids) = some (123 ∷ ids)

abbrev directory : DirectoryCodec
directory = record {
  to_vec = λ r. asked_for r;
  from_slice = λ bs. some (peers (connect_as alice ∷ []));
}

abbrev read_as : List ℕ → Option ServerRequest
read_as [] = none
read_as (b ∷ ids) = if b == 123 then some (get_connected ids) else none

abbrev server : ServerCodec
server = record {
  request_from_slice = λ bs. read_as bs;
  invalid_message = λ bs. "no request";
  response_to_vec = λ r. some (7 ∷ []);
}

abbrev alice_and_bob : Registry
alice_and_bob = record { records = connect_as alice ∷ connect_as bob ∷ []; poisoned = false }

-- The registry is asked for alice.
query-serve_read_example :
    (get_connected_peers_from_server directory
      (1 ∷ [])
      (record { answers = some (stream_of (7 ∷ [])) ∷ []; naps = 0 })).0
    ≡ get_connected_peers (1 ∷ []) alice_and_bob
unfolding query_over serve_read received_of handle_read write_each write_json get_connected_peers
query-serve_read_example =
    query-serve_read directory server (1 ∷ []) none alice_and_bob (123 ∷ 1 ∷ []) (7 ∷ [])
      (stream_of (7 ∷ [])) (stream_of (123 ∷ 1 ∷ [])) []
      (record { answers = some (stream_of (7 ∷ [])) ∷ []; naps = 0 }) refl refl refl refl
      (omega arith) (omega arith) (omega arith) refl refl refl refl refl refl refl refl refl
