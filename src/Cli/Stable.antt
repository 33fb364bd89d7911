-- ===== src/Cli/Stable.antt =====
-- What every step of the commands of src/cli/handler.rs keeps, of each node and of the world, the
-- commands keep.
use rusty_bundle.Prelude.{
  List, [], ◌∷◌, Option, Option-cases, none, some, Bool-cases, ◌≡◌, inl, inr, All, All-append,
  String, ℕ, contains,
}
use rusty_bundle.Model.{Uuid, Node, PlainNode, skip_engine}
use rusty_bundle.Cli.Nodes.{All-modify_first}
use rusty_bundle.Cli.{
  EngineOps, Process, is_named, with_engine, replaced, listen, retry, set_registry, start_node,
  status_node, send_from, add_peer, remove_peer, with_world, insert,
}

-- What the engine's operations and the steps on one node keep.
pub record IsStable {E W : Type 0} (o : EngineOps E W) (N : Node E → Type 0) (R : E → Type 0)
    (Q : W → Type 0) : Type 0 where
  pub connects :
      (n : PlainNode) (server : String) (w : W) → Q w → Q (o.connect_to_server n server w).1
  pub binds : (port : ℕ) (w : W) → Q w → Q (o.bind port w).1
  pub makes : (n : Node E) (w : W) → N n → Q w → N (with_engine o n w).0 × Q (with_engine o n w).1
  pub registers : (server : String) (n : Node E) → N n → N (set_registry o server n)
  pub reads :
      (n : Node E) (e : E) (w : W)
      → N n
      → n.routing_engine ≡ some e
      → Q w
      → N (record n { routing_engine = some (o.read_all e w).0 }) × Q (o.read_all e w).1
  pub routes :
      (n : Node E) (e : E) (a b : PlainNode) (m : String) (ttl : ℕ) (w : W)
      → N n
      → n.routing_engine ≡ some e
      → Q w
      → N (record n { routing_engine = some (o.route_new a b m ttl e w).0 })
        × Q (o.route_new a b m ttl e w).1
  pub gives : (n : Node E) (e : E) → N n → n.routing_engine ≡ some e → R e
  pub adds : (id : Uuid) (n : Node E) → N n → N (add_peer o id n)
  pub removes : (id : Uuid) (n : Node E) → N n → N (remove_peer o id n)
  pub queries : (e : E) (ids : List Uuid) (w : W) → Q w → Q (o.query e ids w)

module _ {E W : Type 0} (o : EngineOps E W) (N : Node E → Type 0) (R : E → Type 0) (Q : W → Type 0)
    (stable : IsStable o N R Q) where
  -- Every node, every engine that a thread was given, and the world.
  abbrev pub AllKept : Process E W → Type 0
  AllKept p =
      (All N p.nodes × All (λ t. R t.1) p.listeners × All (λ t. R t.1) p.retriers) × Q p.world

  abbrev Given : Option E → Type 0
  Given none = Unit
  Given (some e) = R e

  engine-Given : (n : Node E) → N n → Given n.routing_engine
  engine-Given n h = elim (Option-cases n.routing_engine) [
    | inl e ↦ rw e tt
    | inr (engine, e) ↦ rw e (stable.gives n engine h e)
  ]

  listen-AllKept :
      (port : ℕ) (r : Option E) (p : Process E W)
      → Given r
      → AllKept p
      → AllKept (listen o port r p)
  unfolding listen
  listen-AllKept port none p g h = h
  listen-AllKept port (some e) p g ((hs, hl, hr), hw) =
      elim (Bool-cases (contains p.listening_ports port)) [
        | inl x ↦ rw (listen, x) ((hs, hl, hr), hw)
        | inr x ↦
            (let hw1 = stable.binds port p.world hw in
              elim (Bool-cases (o.bind port p.world).0) [
                | inl y ↦
                    rw (listen, x, y)
                      (
                        (hs, All-append (λ t. R t.1) p.listeners ((port, e) ∷ []) hl (g, tt), hr),
                        hw1,
                      )
                | inr y ↦ rw (listen, x, y) ((hs, hl, hr), hw1)
              ])
      ]

  retry-AllKept :
      (id : Uuid) (r : Option E) (p : Process E W) → Given r → AllKept p → AllKept (retry o id r p)
  unfolding retry
  retry-AllKept id none p g h = h
  retry-AllKept id (some e) p g ((hs, hl, hr), hw) =
      elim (Bool-cases (contains p.retrying_nodes id)) [
        | inl x ↦ rw (retry, x) ((hs, hl, hr), hw)
        | inr x ↦
            rw (retry, x)
              ((hs, hl, All-append (λ t. R t.1) p.retriers ((id, e) ∷ []) hr (g, tt)), hw)
      ]

  pub replaced-AllKept :
      (name : String) (n : Node E) (w : W) (p : Process E W)
      → N n
      → Q w
      → AllKept p
      → AllKept (with_world o (replaced o name n p) w)
  replaced-AllKept name n w p h hw ((hs, hl, hr), _) =
      ((All-modify_first N (is_named name) n p.nodes h hs, hl, hr), hw)

  pub start_node-AllKept :
      (name server : String) (n : Node E) (p : Process E W)
      → N n
      → AllKept p
      → AllKept (start_node o name server n p)
  unfolding start_node
  start_node-AllKept name server n p hn (hs, hw) =
      let (connected, w1) = o.connect_to_server (skip_engine n) server p.world in
      let (n1, w2) = with_engine o n w1 in
      let n2 = set_registry o server n1 in
      let hw1 = stable.connects (skip_engine n) server p.world hw in
      let (h1, hw2) = stable.makes n w1 hn hw1 in
      elim (Bool-cases connected) [
        | inl e ↦
            rw (start_node, e)
              (let p1 = record p {
                registry_streams = insert n.id p.registry_streams;
                world = w2;
              } in
                let p2 = replaced o name n2 p1 in
                let p3 = listen o n.port n2.routing_engine p2 in
                let h2 =
                  replaced-AllKept name n2 w2 p1 (stable.registers server n1 h1) hw2 (hs, hw2) in
                let g = engine-Given n2 (stable.registers server n1 h1) in
                retry-AllKept n.id n2.routing_engine p3 g
                  (listen-AllKept n.port n2.routing_engine p2 g h2))
        | inr e ↦ rw (start_node, e) (hs, hw1)
      ]

  pub status_node-AllKept :
      (name : String) (n : Node E) (p : Process E W)
      → N n
      → AllKept p
      → AllKept (status_node o name n p)
  unfolding status_node
  status_node-AllKept name n p h (hs, hw) = elim (Option-cases n.routing_engine) [
    | inl e ↦ rw (status_node, e) (hs, hw)
    | inr (engine, e) ↦
        (let (h1, hw1) = stable.reads n engine p.world h e hw in
          let (engine1, w1) = o.read_all engine p.world in
          rw (status_node, e)
            (replaced-AllKept name (record n { routing_engine = some engine1 }) w1 p h1 hw1
              (hs, hw)))
  ]

  pub send_from-AllKept :
      (sender message : String) (d : PlainNode) (ttl : ℕ) (n : Node E) (p : Process E W)
      → N n
      → AllKept p
      → AllKept (send_from o sender d message ttl n p)
  unfolding send_from
  send_from-AllKept sender message d ttl n p hn (hs, hw) =
      let (n1, w1) = with_engine o n p.world in
      let (h1, hw1) = stable.makes n p.world hn hw in
      elim (Option-cases n1.routing_engine) [
        | inl e ↦ rw (send_from, e) (replaced-AllKept sender n1 w1 p h1 hw1 (hs, hw))
        | inr (engine, e) ↦
            (let (e1, w2) = o.route_new (skip_engine n1) d message ttl engine w1 in
              let (h2, hw2) = stable.routes n1 engine (skip_engine n1) d message ttl w1 h1 e hw1 in
              rw (send_from, e)
                (replaced-AllKept sender (record n1 { routing_engine = some e1 }) w2 p h2 hw2
                  (hs, hw)))
      ]
