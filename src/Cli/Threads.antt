-- ===== src/Cli/Threads.antt =====
-- The threads that the commands of src/cli/handler.rs start.
use mathlib.Core.Path.{subst}
use rusty_bundle.Prelude.{
  ℕ, String, List, [], ◌∷◌, ◌++◌, map, Option, Option-cases, none, some, Bool-cases, ◌≡◌, refl, sym,
  ap, ◌∙◌, inl, inr, contains, find, All, All-append, true,
}
use rusty_bundle.Model.{Uuid, Node, PlainNode, skip_engine}
use rusty_bundle.Cli.Ports.{
  Unique, Unique-append, not_listened, still_used, contains-last, map-append,
}
use rusty_bundle.Cli.{
  PeerCommands, list_peers, get_connected_peers, add, remove, NodeCommands, all, start, stop,
  status, send, peers, handle_peer_command, handle_command, handle_each, on_node, stop_node,
  status_node, send_from, is_named, parse_all, known_node, insert, EngineOps, Process, with_engine,
  replaced, listen, retry, set_registry, start_node,
}

module _ {E W : Type 0} (o : EngineOps E W) where
  -- Every listener's port is in use, and no two listeners have one port. The nodes that are retried
  -- are those of the retriers, each once.
  pub record OneEach (p : Process E W) : Type 0 where
    pub ports_used : All (λ t. contains p.listening_ports t.0 ≡ true) p.listeners
    pub ports_once : Unique (map (λ t. t.0) p.listeners)
    pub nodes_of : map (λ t. t.0) p.retriers ≡ p.retrying_nodes
    pub nodes_once : Unique p.retrying_nodes

  listen-OneEach :
      (port : ℕ) (r : Option E) (p : Process E W) → OneEach p → OneEach (listen o port r p)
  unfolding listen
  listen-OneEach port none p h = h
  listen-OneEach port (some e) p h = elim (Bool-cases (contains p.listening_ports port)) [
    | inl t ↦ rw (listen, t) h
    | inr t ↦
        (let used = still_used p.listening_ports p.listeners port h.ports_used in
          let free = not_listened p.listening_ports p.listeners port h.ports_used t in
          let last = contains-last p.listening_ports port in
          elim (Bool-cases (o.bind port p.world).0) [
            | inl y ↦
                rw (listen, t, y)
                  (record {
                    ports_used =
                        All-append (λ t. contains (p.listening_ports ++ port ∷ []) t.0 ≡ true)
                          p.listeners ((port, e) ∷ []) used (last, tt);
                    ports_once =
                        subst Unique (sym (map-append (λ t. t.0) p.listeners (port, e)))
                          (Unique-append (map (λ t. t.0) p.listeners) port h.ports_once free);
                    nodes_of = h.nodes_of;
                    nodes_once = h.nodes_once;
                  })
            | inr y ↦
                rw (listen, t, y)
                  (record {
                    ports_used = used;
                    ports_once = h.ports_once;
                    nodes_of = h.nodes_of;
                    nodes_once = h.nodes_once;
                  })
          ])
  ]

  retry-OneEach :
      (id : Uuid) (r : Option E) (p : Process E W) → OneEach p → OneEach (retry o id r p)
  unfolding retry
  retry-OneEach id none p h = h
  retry-OneEach id (some e) p h = elim (Bool-cases (contains p.retrying_nodes id)) [
    | inl t ↦ rw (retry, t) h
    | inr t ↦
        rw (retry, t)
          (record {
            ports_used = h.ports_used;
            ports_once = h.ports_once;
            nodes_of = map-append (λ t. t.0) p.retriers (id, e) ∙ ap (◌++ id ∷ []) h.nodes_of;
            nodes_once = Unique-append p.retrying_nodes id h.nodes_once t;
          })
  ]

  -- The statics and threads of a process other than the streams, in which most commands agree.
  abbrev SameThreads : Process E W → Process E W → Type 0
  SameThreads p q =
      (q.listeners ≡ p.listeners)
      × (q.listening_ports ≡ p.listening_ports)
      × (q.retriers ≡ p.retriers)
      × (q.retrying_nodes ≡ p.retrying_nodes)

  same-OneEach : (p q : Process E W) → SameThreads p q → OneEach p → OneEach q
  same-OneEach p q (l, lp, r, rn) h = record {
    ports_used = rw (l, lp) h.ports_used;
    ports_once = rw l h.ports_once;
    nodes_of = ap (map (λ t. t.0)) r ∙ h.nodes_of ∙ sym rn;
    nodes_once = subst Unique (sym rn) h.nodes_once;
  }

  start_node-OneEach :
      (name server : String) (n : Node E) (p : Process E W)
      → OneEach p
      → OneEach (start_node o name server n p)
  unfolding start_node
  start_node-OneEach name server n p h =
      let (connected, w1) = o.connect_to_server (skip_engine n) server p.world in
      let n2 = set_registry o server (with_engine o n w1).0 in
      let p1 = record p {
        registry_streams = insert n.id p.registry_streams;
        world = (with_engine o n w1).1;
      } in
      let p2 = replaced o name n2 p1 in
      let h2 = same-OneEach p p2 (refl, refl, refl, refl) h in
      elim (Bool-cases connected) [
        | inl e ↦
            rw (start_node, e)
              (retry-OneEach n.id n2.routing_engine (listen o n.port n2.routing_engine p2)
                (listen-OneEach n.port n2.routing_engine p2 h2))
        | inr e ↦ rw (start_node, e) (same-OneEach p _ (refl, refl, refl, refl) h)
      ]

  status_node-OneEach :
      (name : String) (n : Node E) (p : Process E W) → OneEach p → OneEach (status_node o name n p)
  unfolding status_node
  status_node-OneEach name n p h = elim (Option-cases n.routing_engine) [
    | inl e ↦ rw (status_node, e) h
    | inr (engine, e) ↦ rw (status_node, e) (same-OneEach p _ (refl, refl, refl, refl) h)
  ]

  send_from-OneEach :
      (sender message : String) (d : PlainNode) (ttl : ℕ) (n : Node E) (p : Process E W)
      → OneEach p
      → OneEach (send_from o sender d message ttl n p)
  unfolding send_from
  send_from-OneEach sender message d ttl n p h =
      elim (Option-cases (with_engine o n p.world).0.routing_engine) [
        | inl e ↦ rw (send_from, e) (same-OneEach p _ (refl, refl, refl, refl) h)
        | inr (engine, e) ↦ rw (send_from, e) (same-OneEach p _ (refl, refl, refl, refl) h)
      ]

  -- Likewise for the process that a command leaves, if it has not exited.
  abbrev pub EndOneEach : Option (Process E W) → Type 0
  EndOneEach none = Unit
  EndOneEach (some p) = OneEach p

  handle_peer_command-OneEach :
      (c : PeerCommands) (name : String) (n : Node E) (p : Process E W)
      → OneEach p
      → EndOneEach (handle_peer_command o c name n p)
  unfolding handle_peer_command
  handle_peer_command-OneEach list_peers name n p h = h
  handle_peer_command-OneEach (get_connected_peers ids) name n p h =
      elim (Option-cases (parse_all o ids)) [
        | inl e ↦ rw (handle_peer_command, e) tt
        | inr (uuids, e) ↦ elim (Option-cases n.routing_engine) [
          | inl e' ↦ rw (handle_peer_command, e, e') h
          | inr (engine, e') ↦
              rw (handle_peer_command, e, e') (same-OneEach p _ (refl, refl, refl, refl) h)
        ]
      ]
  handle_peer_command-OneEach (add peer) name n p h =
      elim (Option-cases (known_node o peer p.nodes)) [
        | inl e ↦ rw (handle_peer_command, e) h
        | inr (id, e) ↦ rw (handle_peer_command, e) (same-OneEach p _ (refl, refl, refl, refl) h)
      ]
  handle_peer_command-OneEach (remove peer) name n p h =
      elim (Option-cases (known_node o peer p.nodes)) [
        | inl e ↦ rw (handle_peer_command, e) h
        | inr (id, e) ↦ rw (handle_peer_command, e) (same-OneEach p _ (refl, refl, refl, refl) h)
      ]

  on_node-OneEach :
      (name : String) (command : Node E → Process E W → Option (Process E W)) (p : Process E W)
      → ((n : Node E) → EndOneEach (command n p))
      → EndOneEach (on_node o name command p)
  on_node-OneEach name command p step = elim (Option-cases (find (is_named name) p.nodes)) [
    | inl e ↦ rw (on_node, e) tt
    | inr (n, e) ↦ rw (on_node, e) (step n)
  ]

  handle_command-OneEach :
      (c : NodeCommands) (p : Process E W) → OneEach p → EndOneEach (handle_command o c p)
  unfolding handle_command stop_node
  handle_command-OneEach all p h = h
  handle_command-OneEach (start name server) p h =
      on_node-OneEach name (λ n p. some (start_node o name server n p)) p
        (λ n. start_node-OneEach name server n p h)
  handle_command-OneEach (stop name) p h =
      on_node-OneEach name (λ n p. some (stop_node o n p)) p
        (λ n. same-OneEach p _ (refl, refl, refl, refl) h)
  handle_command-OneEach (status name) p h =
      on_node-OneEach name (λ n p. some (status_node o name n p)) p
        (λ n. status_node-OneEach name n p h)
  handle_command-OneEach (send sender to message ttl) p h =
      let from = λ (d : Node E) (n : Node E) (p : Process E W).
        some (send_from o sender (skip_engine d) message ttl n p) in
      on_node-OneEach to (λ d. on_node o sender (from d)) p
        (λ d.
          on_node-OneEach sender (from d) p
            (λ n. send_from-OneEach sender message (skip_engine d) ttl n p h))
  handle_command-OneEach (peers name c) p h =
      on_node-OneEach name (handle_peer_command o c name) p
        (λ n. handle_peer_command-OneEach c name n p h)

  -- Along every session of commands, whichever nodes are started again and whichever ports cannot be
  -- bound: as long as every listening thread's port is in LISTENING_PORTS, no two have one port, and
  -- each retried node has one retry thread, this stays so.
  pub handle_each-OneEach :
      (cs : List NodeCommands) (p : Process E W) → OneEach p → EndOneEach (handle_each o cs p)
  unfolding handle_each
  handle_each-OneEach [] p h = h
  handle_each-OneEach (c ∷ cs) p h =
      let h1 = handle_command-OneEach c p h in
      elim (Option-cases (handle_command o c p)) [
        | inl e ↦ rw (handle_each, e) tt
        | inr (p1, e) ↦ rw (handle_each, e) (handle_each-OneEach cs p1 (subst EndOneEach e h1))
      ]
