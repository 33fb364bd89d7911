-- ===== src/Registry/Connections.antt =====
-- The threads of `handle_client` (src/network/server.rs) side by side: each turn of a loop takes the
-- lock once, so an interleaving is a sequence of turns, each of one connection.
use native.Mathlib.Decide.{ℕ_discrete}
use mathlib.Core.Bool.{false≢true}
use rusty_bundle.Prelude.{
  ℕ, List, [], ◌∷◌, Option, none, some, Bool, true, false, ◌≡◌, ◌≢◌, ◌⊎◌, inl, inr, refl, arith,
  ◌==◌, if◌then◌else◌, ◌∙◌, sym, ap,
}
use rusty_bundle.Model.{Uuid, PlainNode}
use rusty_bundle.Registry.{
  PeerRecord, Registry, is_connected, register, get_connected, Received, closed, failed, invalid,
  request, Connection, open_as, ended, handle_read, close, register_node, new_server,
}
use rusty_bundle.Registry.Records.{
  UniqueNodes, register-UniqueNodes, close-UniqueNodes, record_of, record_of-register_records,
  record_of-close,
}

pub record World : Type 0 where
  pub registry : Registry
  pub connections : ℕ → Connection

-- No node has registered, and every connection may be opened.
abbrev pub start : World
start = record { registry = new_server; connections = λ i. open_as none }

abbrev pub set_connection : (ℕ → Connection) → ℕ → Connection → ℕ → Connection
set_connection connections i c k = if k == i then c else connections k

abbrev turn_of : World → ℕ → Received → Connection → World
turn_of w i r ended = w
turn_of w i r (open_as node_id) =
    let (c, responses, g) = handle_read node_id r w.registry in
    record { registry = g; connections = set_connection w.connections i c }

-- One turn of the thread of connection `i`.
unfoldable pub turn : World → ℕ × Received → World
turn w (i, r) = turn_of w i r (w.connections i)

unfoldable pub turns : World → List (ℕ × Received) → World
turns w [] = w
turns w (t ∷ ts) = turns (turn w t) ts

handle_read-UniqueNodes :
    (node_id : Option Uuid) (r : Received) (g : Registry)
    → UniqueNodes g.records
    → UniqueNodes (handle_read node_id r g).2.records
unfolding handle_read register_node
handle_read-UniqueNodes node_id closed g u = close-UniqueNodes node_id g u
handle_read-UniqueNodes node_id failed g u = close-UniqueNodes node_id g u
handle_read-UniqueNodes node_id (invalid m) g u = u
handle_read-UniqueNodes node_id (request (register n)) g u =
    ground (arith, register-UniqueNodes n g.records u)
handle_read-UniqueNodes node_id (request (get_connected ids)) g u = u

turn_of-UniqueNodes :
    (w : World) (i : ℕ) (r : Received) (c : Connection)
    → UniqueNodes w.registry.records
    → UniqueNodes (turn_of w i r c).registry.records
turn_of-UniqueNodes w i r ended u = u
turn_of-UniqueNodes w i r (open_as node_id) u = handle_read-UniqueNodes node_id r w.registry u

-- However the connections interleave and whatever they send, no node ever has two records.
pub turns-UniqueNodes :
    (w : World) (ts : List (ℕ × Received))
    → UniqueNodes w.registry.records
    → UniqueNodes (turns w ts).registry.records
unfolding turns turn
turns-UniqueNodes w [] u = u
turns-UniqueNodes w ((i, r) ∷ ts) u =
    turns-UniqueNodes (turn w (i, r)) ts (turn_of-UniqueNodes w i r (w.connections i) u)

-- Whether a record is there and connected.
abbrev pub is_up : Option PeerRecord → Bool
is_up none = false
is_up (some r) = is_connected r

-- Every connected node has a connection that registered it and has not ended.
abbrev pub IsBacked : World → Type 0
IsBacked w =
    (id : Uuid)
    → is_up (record_of id w.registry.records) ≡ true
    → (i : ℕ) × (w.connections i ≡ open_as (some id))

-- A connection registers no second node.
abbrev pub RegistersOne : Connection → Received → Type 0
RegistersOne (open_as (some d)) (request (register n)) = d ≡ n.id
RegistersOne _ _ = Unit

set_connection_ne :
    (w : World) (i k : ℕ) (c d : Connection)
    → w.connections i ≢ d
    → w.connections k ≡ d
    → set_connection w.connections i c k ≡ d
set_connection_ne w i k c d n e = elim (ℕ_discrete k i) [
  | yes z ↦ absurd (n (sym (ap w.connections z) ∙ e))
  | no z ↦ ground arith
]

set_connection_same :
    (w : World) (i k : ℕ) (c : Connection)
    → w.connections i ≡ c
    → set_connection w.connections i c k ≡ w.connections k
set_connection_same w i k c e = elim (ℕ_discrete k i) [
  | yes z ↦ ground (arith, ap w.connections z)
  | no z ↦ ground arith
]

pub set_connection_self :
    (w : World) (i : ℕ) (c : Connection) → set_connection w.connections i c i ≡ c
set_connection_self w i c = ground arith

is_up-close :
    (g : Registry) (d id : Uuid)
    → g.poisoned ≡ false
    → is_up (record_of id (close (some d) g).records) ≡ true
    → (d ≢ id) × (is_up (record_of id g.records) ≡ true)
is_up-close g d id p up = elim (ℕ_discrete d id) [
  | yes e ↦ absurd (false≢true (ground (arith, record_of-close id d g p)))
  | no n ↦ (n, ground (arith, record_of-close id d g p))
]

is_up-register :
    (g : Registry) (n : PlainNode) (id : Uuid)
    → g.poisoned ≡ false
    → is_up (record_of id (register_node n g).1.records) ≡ true
    → (n.id ≡ id) ⊎ (is_up (record_of id g.records) ≡ true)
unfolding register_node
is_up-register g n id p up = elim (ℕ_discrete n.id id) [
  | yes e ↦ inl e
  | no m ↦ inr (ground (arith, record_of-register_records id n g.records))
]

-- The end of connection `i`.
ended-IsBacked :
    (w : World) (i : ℕ) (node_id : Option Uuid)
    → w.connections i ≡ open_as node_id
    → w.registry.poisoned ≡ false
    → IsBacked w
    → IsBacked (record {
      registry = close node_id w.registry;
      connections = set_connection w.connections i ended;
    })
unfolding close
ended-IsBacked w i none e p h id up =
    let (k, q) = h id up in (k, set_connection_ne w i k ended _ (λ x. cc) q)
ended-IsBacked w i (some d) e p h id up =
    let (d≢id, up') = is_up-close w.registry d id p up in
    let (k, q) = h id up' in (k, set_connection_ne w i k ended _ (λ x. d≢id (ground arith)) q)

turn_of-IsBacked :
    (w : World) (i : ℕ) (r : Received) (c : Connection)
    → w.connections i ≡ c
    → w.registry.poisoned ≡ false
    → RegistersOne c r
    → IsBacked w
    → IsBacked (turn_of w i r c)
unfolding handle_read
turn_of-IsBacked w i r ended e p o h = h
turn_of-IsBacked w i closed (open_as node_id) e p o h = ended-IsBacked w i node_id e p h
turn_of-IsBacked w i failed (open_as node_id) e p o h = ended-IsBacked w i node_id e p h
turn_of-IsBacked w i (invalid m) (open_as node_id) e p o h =
    λ id up. let (k, q) = h id up in (k, set_connection_same w i k _ e ∙ q)
turn_of-IsBacked w i (request (register n)) (open_as none) e p o h = λ id up.
    elim (is_up-register w.registry n id p up) [
      | inl z ↦ (i, set_connection_self w i _ ∙ ap (λ x. open_as (some x)) z)
      | inr up' ↦ let (k, q) = h id up' in (k, set_connection_ne w i k _ _ (λ x. cc) q)
    ]
turn_of-IsBacked w i (request (register n)) (open_as (some d)) e p o h = λ id up.
    elim (is_up-register w.registry n id p up) [
      | inl z ↦ (i, set_connection_self w i _ ∙ ap (λ x. open_as (some x)) z)
      | inr up' ↦
          let (k, q) = h id up' in
          (k, set_connection_same w i k _ (e ∙ ap (λ x. open_as (some x)) o) ∙ q)
    ]
turn_of-IsBacked w i (request (get_connected ids)) (open_as node_id) e p o h =
    λ id up. let (k, q) = h id up in (k, set_connection_same w i k _ e ∙ q)

turn_of-poisoned :
    (w : World) (i : ℕ) (r : Received) (c : Connection)
    → w.registry.poisoned ≡ false
    → (turn_of w i r c).registry.poisoned ≡ false
unfolding handle_read register_node close
turn_of-poisoned w i r ended p = p
turn_of-poisoned w i closed (open_as none) p = p
turn_of-poisoned w i closed (open_as (some d)) p = ground arith
turn_of-poisoned w i failed (open_as none) p = p
turn_of-poisoned w i failed (open_as (some d)) p = ground arith
turn_of-poisoned w i (invalid m) (open_as node_id) p = p
turn_of-poisoned w i (request (register n)) (open_as node_id) p = ground arith
turn_of-poisoned w i (request (get_connected ids)) (open_as node_id) p = p

-- Along the sequence, no connection registers a second node.
abbrev pub AllRegisterOne : World → List (ℕ × Received) → Type 0
AllRegisterOne w [] = Unit
AllRegisterOne w ((i, r) ∷ ts) =
    RegistersOne (w.connections i) r × AllRegisterOne (turn w (i, r)) ts

-- If no connection registers a second node and the lock is sound: as long as every connected node
-- has a connection that registered it and has not ended, this stays so along every interleaving.
pub turns-IsBacked :
    (w : World) (ts : List (ℕ × Received))
    → w.registry.poisoned ≡ false
    → AllRegisterOne w ts
    → IsBacked w
    → IsBacked (turns w ts)
unfolding turns turn
turns-IsBacked w [] p o h = h
turns-IsBacked w ((i, r) ∷ ts) p o h =
    turns-IsBacked (turn w (i, r)) ts (turn_of-poisoned w i r (w.connections i) p) o.1
      (turn_of-IsBacked w i r (w.connections i) refl p o.0 h)
