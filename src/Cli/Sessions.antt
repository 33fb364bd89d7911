-- ===== src/Cli/Sessions.antt =====
-- What the steps of the commands of src/cli/handler.rs keep, every command and session keeps.
use mathlib.Core.Path.{subst}
use rusty_bundle.Prelude.{List, [], ◌∷◌, Option, Option-cases, none, some, inl, inr, find, String}
use rusty_bundle.Model.{Node, skip_engine}
use rusty_bundle.Cli.Nodes.{All-find}
use rusty_bundle.Cli.{
  PeerCommands, list_peers, get_connected_peers, add, remove, NodeCommands, all, start, stop,
  status, send, peers, EngineOps, Process, is_named, start_node, stop_node, status_node, send_from,
  add_peer, remove_peer, known_node, parse_all, handle_peer_command, handle_command, handle_each,
  on_node,
}
use rusty_bundle.Cli.Stable.{
  IsStable, AllKept, replaced-AllKept, start_node-AllKept, status_node-AllKept, send_from-AllKept,
}

module _ {E W : Type 0} (o : EngineOps E W) (N : Node E → Type 0) (R : E → Type 0) (Q : W → Type 0)
    (stable : IsStable o N R Q) where
  -- The process that is left, if it has not exited.
  abbrev pub EndIsKept : Option (Process E W) → Type 0
  EndIsKept none = Unit
  EndIsKept (some p) = AllKept o N R Q stable p

  handle_peer_command-AllKept :
      (c : PeerCommands) (name : String) (n : Node E) (p : Process E W)
      → N n
      → AllKept o N R Q stable p
      → EndIsKept (handle_peer_command o c name n p)
  unfolding handle_peer_command
  handle_peer_command-AllKept list_peers name n p h hs = hs
  handle_peer_command-AllKept (get_connected_peers ids) name n p h hs =
      elim (Option-cases (parse_all o ids)) [
        | inl e ↦ rw (handle_peer_command, e) tt
        | inr (uuids, e) ↦ elim (Option-cases n.routing_engine) [
          | inl e' ↦ rw (handle_peer_command, e, e') hs
          | inr (engine, e') ↦
              rw (handle_peer_command, e, e') (hs.0, stable.queries engine uuids p.world hs.1)
        ]
      ]
  handle_peer_command-AllKept (add peer) name n p h hs =
      elim (Option-cases (known_node o peer p.nodes)) [
        | inl e ↦ rw (handle_peer_command, e) hs
        | inr (id, e) ↦
            rw (handle_peer_command, e)
              (replaced-AllKept o N R Q stable name (add_peer o id n) p.world p (stable.adds id n h)
                hs.1 hs)
      ]
  handle_peer_command-AllKept (remove peer) name n p h hs =
      elim (Option-cases (known_node o peer p.nodes)) [
        | inl e ↦ rw (handle_peer_command, e) hs
        | inr (id, e) ↦
            rw (handle_peer_command, e)
              (replaced-AllKept o N R Q stable name (remove_peer o id n) p.world p
                (stable.removes id n h) hs.1 hs)
      ]

  on_node-AllKept :
      (name : String) (command : Node E → Process E W → Option (Process E W)) (p : Process E W)
      → AllKept o N R Q stable p
      → ((n : Node E) → N n → EndIsKept (command n p))
      → EndIsKept (on_node o name command p)
  on_node-AllKept name command p hs step = elim (Option-cases (find (is_named name) p.nodes)) [
    | inl e ↦ rw (on_node, e) tt
    | inr (n, e) ↦ rw (on_node, e) (step n (All-find N (is_named name) p.nodes n hs.0.0 e))
  ]

  handle_command-AllKept :
      (c : NodeCommands) (p : Process E W)
      → AllKept o N R Q stable p
      → EndIsKept (handle_command o c p)
  unfolding handle_command stop_node
  handle_command-AllKept all p hs = hs
  handle_command-AllKept (start name server) p hs =
      on_node-AllKept name (λ n p. some (start_node o name server n p)) p hs
        (λ n h. start_node-AllKept o N R Q stable name server n p h hs)
  handle_command-AllKept (stop name) p hs =
      on_node-AllKept name (λ n p. some (stop_node o n p)) p hs (λ n h. hs)
  handle_command-AllKept (status name) p hs =
      on_node-AllKept name (λ n p. some (status_node o name n p)) p hs
        (λ n h. status_node-AllKept o N R Q stable name n p h hs)
  handle_command-AllKept (send sender to message ttl) p hs =
      let from = λ (d : Node E) (n : Node E) (p : Process E W).
        some (send_from o sender (skip_engine d) message ttl n p) in
      on_node-AllKept to (λ d. on_node o sender (from d)) p hs
        (λ d hd.
          on_node-AllKept sender (from d) p hs
            (λ n h. send_from-AllKept o N R Q stable sender message (skip_engine d) ttl n p h hs))
  handle_command-AllKept (peers name c) p hs =
      on_node-AllKept name (handle_peer_command o c name) p hs
        (λ n h. handle_peer_command-AllKept c name n p h hs)

  pub handle_each-AllKept :
      (cs : List NodeCommands) (p : Process E W)
      → AllKept o N R Q stable p
      → EndIsKept (handle_each o cs p)
  unfolding handle_each
  handle_each-AllKept [] p hs = hs
  handle_each-AllKept (c ∷ cs) p hs =
      let h1 = handle_command-AllKept c p hs in
      elim (Option-cases (handle_command o c p)) [
        | inl e ↦ rw (handle_each, e) tt
        | inr (p1, e) ↦ rw (handle_each, e) (handle_each-AllKept cs p1 (subst EndIsKept e h1))
      ]
