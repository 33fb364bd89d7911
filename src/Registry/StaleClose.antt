-- ===== src/Registry/StaleClose.antt =====
-- Two connections of one node in src/network/server.rs: the end of the older one.
use rusty_bundle.Prelude.{ℕ, List, [], ◌∷◌, Option, none, some, false, ◌≡◌, ◌≢◌, arith, ◌∙◌, sym}
use rusty_bundle.Model.{Uuid, PlainNode}
use rusty_bundle.Registry.{
  Registry, register, closed, request, Connection, open_as, ended, handle_read, get_connected_peers,
  close, register_node,
}
use rusty_bundle.Registry.Records.{
  UniqueNodes, register-UniqueNodes, close-UniqueNodes, record_of, record_of-close,
  record_of-get_connected_peers,
}
use rusty_bundle.Registry.Connections.{World, set_connection, set_connection_self, turn, turns}

turn_register :
    (w : World) (i : ℕ) (d : Option Uuid) (n : PlainNode)
    → w.connections i ≡ open_as d
    → turn w (i, request (register n)) ≡ record {
      registry = (register_node n w.registry).1;
      connections = set_connection w.connections i (open_as (some n.id));
    }
unfolding turn handle_read
turn_register w i d n e = rw (e, turn)

turn_closed :
    (w : World) (i : ℕ) (d : Option Uuid)
    → w.connections i ≡ open_as d
    → turn w (i, closed)
      ≡ record { registry = close d w.registry; connections = set_connection w.connections i ended }
unfolding turn handle_read
turn_closed w i d e = rw (e, turn)

set_connection_other :
    (connections : ℕ → Connection) (i k : ℕ) (c : Connection)
    → i ≢ k
    → set_connection connections i c k ≡ connections k
set_connection_other connections i k c n = ground arith

register_sound :
    (n : PlainNode) (g : Registry)
    → g.poisoned ≡ false
    → UniqueNodes g.records
    → ((register_node n g).1.poisoned ≡ false) × UniqueNodes (register_node n g).1.records
unfolding register_node
register_sound n g p u = (ground arith, ground (arith, register-UniqueNodes n g.records u))

hidden_once_closed :
    (id : Uuid) (ids : List Uuid) (g : Registry)
    → g.poisoned ≡ false
    → UniqueNodes g.records
    → record_of id (get_connected_peers ids (close (some id) g)) ≡ none
hidden_once_closed id ids g p u =
    let q : (close (some id) g).poisoned ≡ false = unfold close in ground arith in
    ground (
      arith,
      record_of-get_connected_peers id ids (close (some id) g) q (close-UniqueNodes (some id) g u),
      record_of-close id id g p,
    )

-- A connected node may count as disconnected: if a node registers on one connection and then on another, and the first one
-- ends, then no query finds the node, though its second connection has not ended.
pub stale_close_hides :
    (w : World) (i k : ℕ) (n : PlainNode) (ids : List Uuid)
    → w.registry.poisoned ≡ false
    → UniqueNodes w.registry.records
    → w.connections i ≡ open_as none
    → w.connections k ≡ open_as none
    → i ≢ k
    → let w' = turns w ((i, request (register n)) ∷ (k, request (register n)) ∷ (i, closed) ∷ []) in
      (record_of n.id (get_connected_peers ids w'.registry) ≡ none)
      × (w'.connections k ≡ open_as (some n.id))
unfolding turns
stale_close_hides w i k n ids p u ei ek i≢k =
    let reg = request (register n) in
    let some_n = open_as (some n.id) in
    let k≢i : k ≢ i = λ e. i≢k (sym e) in
    let g1 = (register_node n w.registry).1 in
    let g2 = (register_node n g1).1 in
    let (p1, u1) = register_sound n w.registry p u in
    let (p2, u2) = register_sound n g1 p1 u1 in
    let v1 : World = record {
      registry = g1;
      connections = set_connection w.connections i some_n;
    } in
    let v2 : World = record {
      registry = g2;
      connections = set_connection v1.connections k some_n;
    } in
    let e1 : turn w (i, reg) ≡ v1 = turn_register w i none n ei in
    let e2 : turn v1 (k, reg) ≡ v2 =
      turn_register v1 k none n (set_connection_other w.connections i k some_n i≢k ∙ ek) in
    let at_i : v2.connections i ≡ some_n =
      set_connection_other v1.connections k i some_n k≢i ∙ set_connection_self w i some_n in
    let e3 = turn_closed v2 i (some n.id) at_i in
    rw (e1, e2, e3)
      (
        hidden_once_closed n.id ids g2 p2 u2,
        set_connection_other v2.connections i k ended i≢k ∙ set_connection_self v1 k some_n,
      )
