-- ===== src/Cli.antt =====
-- src/cli/handler.rs: the commands of the demo process, with the enums of src/cli/cli.rs.
-- The output of a command is not kept. A process that has exited is `none`.
pub mod Nodes
pub mod Stable
pub mod Sessions
pub mod Sync
pub mod Ports
pub mod Threads
pub mod Engines
pub mod Files
use rusty_bundle.Prelude.{
  ℕ, String, List, [], ◌∷◌, ◌++◌, map, Option, none, some, Bool, true, false, not, ltb, ◌==◌, ◌≡◌,
  if◌then◌else◌, any, contains, retain, find, modify_first, length, is_some,
}
use text.Mathlib.Text.{◌==◌ as str_eq}
use rusty_bundle.Model.{Uuid, Node, PlainNode, skip_engine}

pub data PeerCommands : Type 0 where
  list_peers : PeerCommands
  get_connected_peers : (ids : List String) → PeerCommands
  add remove : (name : String) → PeerCommands

pub data NodeCommands : Type 0 where
  all : NodeCommands
  start : (name server : String) → NodeCommands
  stop status : (name : String) → NodeCommands
  send : (sender to message : String) → (ttl : ℕ) → NodeCommands
  peers : (name : String) → PeerCommands → NodeCommands

-- What the commands use of the routing engine `E` and of the world `W` around the process.
pub record EngineOps (E W : Type 0) : Type 0 where
  -- `RoutingEngine::new`
  pub new_engine : Uuid → List Uuid → String → W → E × W
  -- The fields `peers` and `registry_address`.
  pub peers_of : E → List Uuid
  pub with_peers : List Uuid → E → E
  pub with_registry : String → E → E
  -- `Bundle::new` of a data message, and `route_bundle` of it.
  pub route_new : PlainNode → PlainNode → (message : String) → (ttl : ℕ) → E → W → E × W
  -- `engine.bundle_manager.all()`
  pub read_all : E → W → E × W
  -- Whether `connect_to_server` returns a stream.
  pub connect_to_server : PlainNode → (server : String) → W → Bool × W
  -- Whether `TcpListener::bind` of the port, in the thread that is started for it, gives a listener.
  pub bind : (port : ℕ) → W → Bool × W
  -- `Uuid::parse_str(s)`, and the query of the registry.
  pub parse_str : String → Option Uuid
  pub query : E → List Uuid → W → W

-- What the commands rely on: the engine's own operations leave its peers as they are.
pub record EngineLaws {E W : Type 0} (o : EngineOps E W) : Type 0 where
  pub peers_of-new_engine :
      (id : Uuid) (ps : List Uuid) (name : String) (w : W)
      → o.peers_of (o.new_engine id ps name w).0 ≡ ps
  pub peers_of-with_peers : (ps : List Uuid) (e : E) → o.peers_of (o.with_peers ps e) ≡ ps
  pub peers_of-with_registry :
      (server : String) (e : E) → o.peers_of (o.with_registry server e) ≡ o.peers_of e
  pub peers_of-route_new :
      (a b : PlainNode) (m : String) (ttl : ℕ) (e : E) (w : W)
      → o.peers_of (o.route_new a b m ttl e w).0 ≡ o.peers_of e
  pub peers_of-read_all : (e : E) (w : W) → o.peers_of (o.read_all e w).0 ≡ o.peers_of e

-- The nodes, the three statics, the threads that run with the engines that they were given, and the
-- world.
pub record Process (E W : Type 0) : Type 0 where
  pub nodes : List (Node E)
  pub registry_streams : List Uuid
  pub listening_ports : List ℕ
  pub retrying_nodes : List Uuid
  pub listeners : List (ℕ × E)
  pub retriers : List (Uuid × E)
  pub world : W

-- `n.name == name`
abbrev pub is_named : {E : Type 0} → String → Node E → Bool
is_named name n = str_eq n.name name

-- `HashSet::insert`, of a value that may be there.
abbrev pub insert : ℕ → List ℕ → List ℕ
insert x xs = if contains xs x then xs else xs ++ x ∷ []

module _ {E W : Type 0} (o : EngineOps E W) where
  unfoldable pub sync_node_engine_peers : Node E → Node E
  sync_node_engine_peers n = elim n.routing_engine [
    | none ↦ n
    | some e ↦ record n { routing_engine = some (o.with_peers n.peers e) }
  ]

  -- A node without an engine gets one; then its peers are synchronised.
  unfoldable pub with_engine : Node E → W → Node E × W
  with_engine n w = elim n.routing_engine [
    | none ↦
        (let (e, w1) = o.new_engine n.id n.peers n.name w in
          (sync_node_engine_peers (record n { routing_engine = some e }), w1))
    | some e ↦ (sync_node_engine_peers n, w)
  ]

  abbrev pub replaced : String → Node E → Process E W → Process E W
  replaced name n p = record p { nodes = modify_first (is_named name) (λ _. n) p.nodes }

  abbrev pub with_world : Process E W → W → Process E W
  with_world p w = record p { world = w }

  -- The two threads that a start may make. The port is in use from then on; a thread that cannot bind
  -- it ends at once. The thread binds when it is started.
  unfoldable pub listen : ℕ → Option E → Process E W → Process E W
  listen port none p = p
  listen port (some e) p =
      let (bound, w1) = o.bind port p.world in
      let p1 = record p { listening_ports = p.listening_ports ++ port ∷ []; world = w1 } in
      if contains p.listening_ports port
      then p
      else if bound
      then record p1 { listeners = p.listeners ++ (port, e) ∷ [] }
      else p1

  unfoldable pub retry : Uuid → Option E → Process E W → Process E W
  retry id none p = p
  retry id (some e) p = if contains p.retrying_nodes id then p else record p {
    retrying_nodes = p.retrying_nodes ++ id ∷ [];
    retriers = p.retriers ++ (id, e) ∷ [];
  }

  unfoldable pub set_registry : String → Node E → Node E
  set_registry server n = elim n.routing_engine [
    | none ↦ n
    | some e ↦ record n { routing_engine = some (o.with_registry server e) }
  ]

  unfoldable pub start_node : String → String → Node E → Process E W → Process E W
  start_node name server n p =
      let (connected, w1) = o.connect_to_server (skip_engine n) server p.world in
      let (n1, w2) = with_engine n w1 in
      let n2 = set_registry server n1 in
      let p1 = record p { registry_streams = insert n.id p.registry_streams; world = w2 } in
      if connected
      then retry n.id n2.routing_engine (listen n.port n2.routing_engine (replaced name n2 p1))
      else with_world p w1

  unfoldable pub stop_node : Node E → Process E W → Process E W
  stop_node n p = record p { registry_streams = retain (λ id. not (id == n.id)) p.registry_streams }

  unfoldable pub status_node : String → Node E → Process E W → Process E W
  status_node name n p = elim n.routing_engine [
    | none ↦ p
    | some e ↦
        (let (e1, w1) = o.read_all e p.world in
          with_world (replaced name (record n { routing_engine = some e1 }) p) w1)
  ]

  unfoldable pub send_from : String → PlainNode → String → ℕ → Node E → Process E W → Process E W
  send_from sender destination message ttl n p =
      let (n1, w1) = with_engine n p.world in
      elim n1.routing_engine [
        | none ↦ with_world (replaced sender n1 p) w1
        | some e ↦
            (let (e1, w2) = o.route_new (skip_engine n1) destination message ttl e w1 in
              with_world (replaced sender (record n1 { routing_engine = some e1 }) p) w2)
      ]

  unfoldable pub add_peer : Uuid → Node E → Node E
  add_peer id n =
      if contains n.peers id
      then n
      else sync_node_engine_peers (record n { peers = n.peers ++ id ∷ [] })

  unfoldable pub remove_peer : Uuid → Node E → Node E
  remove_peer id n =
      let n1 = record n { peers = retain (λ p. not (p == id)) n.peers } in
      if ltb (length n1.peers) (length n.peers) then sync_node_engine_peers n1 else n1

  -- The value of `known_nodes` for a name: of two nodes of one name, the later one's id.
  unfoldable pub known_node : String → List (Node E) → Option Uuid
  known_node name [] = none
  known_node name (n ∷ ns) =
      let later = known_node name ns in
      elim later [ none ↦ (if is_named name n then some n.id else none) | some id ↦ some id ]

  unfoldable pub parse_all : List String → Option (List Uuid)
  parse_all [] = some []
  parse_all (s ∷ ss) =
      let rest = parse_all ss in
      elim (o.parse_str s) [
        | none ↦ none
        | some id ↦ (elim rest [ none ↦ none | some ids ↦ some (id ∷ ids) ])
      ]

  -- `name` is the node's name, by which it was found.
  unfoldable pub handle_peer_command :
      PeerCommands → String → Node E → Process E W → Option (Process E W)
  handle_peer_command list_peers name n p = some p
  handle_peer_command (get_connected_peers ids) name n p = elim (parse_all ids) [
    | none ↦ none
    | some uuids ↦ (elim n.routing_engine [
      | none ↦ some p
      | some e ↦ some (with_world p (o.query e uuids p.world))
    ])
  ]
  handle_peer_command (add peer) name n p = elim (known_node peer p.nodes) [
    | none ↦ some p
    | some id ↦ some (replaced name (add_peer id n) p)
  ]
  handle_peer_command (remove peer) name n p = elim (known_node peer p.nodes) [
    | none ↦ some p
    | some id ↦ some (replaced name (remove_peer id n) p)
  ]

  -- `find_node`, or the end of the process if there is no node of the name.
  abbrev pub on_node :
      String → (Node E → Process E W → Option (Process E W)) → Process E W → Option (Process E W)
  on_node name command p = elim (find (is_named name) p.nodes) [
    | none ↦ none
    | some n ↦ command n p
  ]

  unfoldable pub handle_command : NodeCommands → Process E W → Option (Process E W)
  handle_command all p = some p
  handle_command (start name server) p = on_node name (λ n p. some (start_node name server n p)) p
  handle_command (stop name) p = on_node name (λ n p. some (stop_node n p)) p
  handle_command (status name) p = on_node name (λ n p. some (status_node name n p)) p
  handle_command (send sender to message ttl) p =
      on_node to
        (λ d. on_node sender (λ n p. some (send_from sender (skip_engine d) message ttl n p))) p
  handle_command (peers name command) p = on_node name (handle_peer_command command name) p

  -- The commands of a session, until the process exits.
  unfoldable pub handle_each : List NodeCommands → Process E W → Option (Process E W)
  handle_each [] p = some p
  handle_each (c ∷ cs) p = elim (handle_command c p) [ none ↦ none | some p1 ↦ handle_each cs p1 ]
