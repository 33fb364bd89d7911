-- ===== src/Tests/Peers.antt =====
-- Connections of the registry server, and bundles on the wire: src/network/server.rs and
-- src/network/protobuf.rs at work.
use rusty_bundle.Prelude.{ℕ, List, [], ◌∷◌, none, some, false, ◌≡◌, refl, arith}
use rusty_bundle.Model.{MsgStatus}
use rusty_bundle.Registry.{
  Registry, connect_as, register, get_connected, Received, closed, invalid, request, open_as,
  get_connected_peers, handle_read,
}
use rusty_bundle.Registry.Records.{UniqueNodes, record_of, record_of-get_connected_peers}
use rusty_bundle.Registry.Connections.{
  start, turn, turns, IsBacked, AllRegisterOne, turns-UniqueNodes, turns-IsBacked,
}
use rusty_bundle.Registry.StaleClose.{stale_close_hides}
use rusty_bundle.Protobuf.{to_proto, from_proto}
use rusty_bundle.Protobuf.RoundTrip.{sent_kind, from_proto-to_proto}
use rusty_bundle.Samples.{alice, bob, hello, at, formats, format_laws}

-- Alice registers on connection 0 and sends rubbish, bob registers on 1 and asks, alice goes.
abbrev traffic : List (ℕ × Received)
traffic =
    (0, request (register alice))
    ∷ (0, invalid "expected value")
    ∷ (1, request (register bob))
    ∷ (1, request (get_connected (1 ∷ [])))
    ∷ (0, closed)
    ∷ []

turns-UniqueNodes_example : UniqueNodes (turns start traffic).registry.records
turns-UniqueNodes_example = turns-UniqueNodes start traffic tt

start-IsBacked : IsBacked start
start-IsBacked id up = ground arith

traffic_registers_one : AllRegisterOne start traffic
unfolding turn handle_read
traffic_registers_one = (tt, (tt, (tt, (tt, (tt, tt)))))

turns-IsBacked_example : IsBacked (turns start traffic)
turns-IsBacked_example = turns-IsBacked start traffic refl traffic_registers_one start-IsBacked

stale_close_hides_example :
    let w' =
      turns start
        ((0, request (register alice)) ∷ (1, request (register alice)) ∷ (0, closed) ∷ []) in
    (record_of 1 (get_connected_peers [] w'.registry) ≡ none)
    × (w'.connections 1 ≡ open_as (some 1))
stale_close_hides_example =
    stale_close_hides start 0 1 alice [] refl tt refl refl (λ e. omega arith)

abbrev two_nodes : Registry
two_nodes = record { records = connect_as alice ∷ connect_as bob ∷ []; poisoned = false }

record_of-get_connected_peers_example : record_of 2 (get_connected_peers (1 ∷ []) two_nodes) ≡ none
record_of-get_connected_peers_example =
    record_of-get_connected_peers 2 (1 ∷ []) two_nodes refl (refl, (refl, tt))

from_proto-to_proto_example : from_proto formats (to_proto formats hello) ≡ record hello {
  timestamp = at 100;
  kind = sent_kind formats hello.kind;
  shipment_status = MsgStatus.pending;
}
from_proto-to_proto_example =
    from_proto-to_proto formats format_laws hello (omega arith) (omega arith)
