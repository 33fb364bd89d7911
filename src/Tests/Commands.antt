-- ===== src/Tests/Commands.antt =====
-- A session of commands: src/cli/handler.rs at work, with engines that are their peers.
use rusty_bundle.Prelude.{ℕ, List, [], ◌∷◌, none, some, true, refl, map, ◌≡◌}
use rusty_bundle.Model.{Uuid}
use rusty_bundle.Cli.{
  EngineOps, Process, NodeCommands, start, stop, send, peers, add, remove, handle_each,
  handle_command, start_node, stop_node, send_from, handle_peer_command, with_engine, set_registry,
  listen, retry, sync_node_engine_peers, known_node, add_peer, remove_peer,
}
use mathlib.Core.Option as Option

-- The world counts the calls.
abbrev ops : EngineOps (List Uuid) ℕ
ops = record {
  new_engine = λ id ps name w. (ps, w);
  peers_of = λ e. e;
  with_peers = λ ps e. ps;
  with_registry = λ server e. e;
  route_new = λ a b m ttl e w. (e, w);
  read_all = λ e w. (e, w);
  connect_to_server = λ n server w. (true, w);
  bind = λ port w. (true, w);
  parse_str = λ s. none;
  query = λ e ids w. w;
}

abbrev demo : Process (List Uuid) ℕ
demo = record {
  nodes =
      record {
        id = 1;
        name = "alice";
        address = "127.0.0.1";
        port = 9001;
        peers = 2 ∷ [];
        routing_engine = some (2 ∷ []);
      }
      ∷ record {
        id = 2;
        name = "bob";
        address = "127.0.0.1";
        port = 9002;
        peers = [];
        routing_engine = none;
      }
      ∷ [];
  registry_streams = [];
  listening_ports = [];
  retrying_nodes = [];
  listeners = [];
  retriers = [];
  world = 0;
}

abbrev session : List NodeCommands
session =
    start "bob" "127.0.0.1:9100"
    ∷ peers "bob" (add "alice")
    ∷ start "bob" "127.0.0.1:9100"
    ∷ peers "alice" (remove "bob")
    ∷ send "alice" "bob" "hi" 60
    ∷ stop "bob"
    ∷ []

-- Each start opened the port of bob only once, and the peers follow the commands.
session_end :
    Option.map {B = List (List Uuid) × List ℕ × List Uuid}
      (λ (p : Process (List Uuid) ℕ).
        (map (λ n. n.peers) p.nodes, p.listening_ports, p.retrying_nodes))
      (handle_each ops session demo)
    ≡ some ([] ∷ (1 ∷ []) ∷ [], 9002 ∷ [], 2 ∷ [])
unfolding handle_each handle_command start_node stop_node send_from handle_peer_command with_engine
    set_registry listen retry sync_node_engine_peers known_node add_peer remove_peer
session_end = refl
