-- ===== src/Registry/Records.antt =====
-- The records of src/network/server.rs by node id, and what a query returns of them.
use native.Mathlib.Decide.{ℕ_discrete}
use rusty_bundle.Prelude.{
  ap, List, [], ◌∷◌, ◌++◌, Option, none, some, Bool, true, false, ◌&&◌, ◌||◌, ◌==◌, ◌≡◌, refl,
  arith, if◌then◌else◌, any, find, contains, retain, modify_first, any-append,
}
use rusty_bundle.Model.{Uuid, PlainNode}
use rusty_bundle.Registry.{
  PeerRecord, Registry, is_connected, is_node, is_empty, connect_as, disconnect, register_records,
  close, get_connected_peers,
}

-- No node has two records.
abbrev pub UniqueNodes : List PeerRecord → Type 0
UniqueNodes [] = Unit
UniqueNodes (r ∷ rs) = (any (is_node r.node.id) rs ≡ false) × UniqueNodes rs

any-modify_first :
    (id k : Uuid) (f : PeerRecord → PeerRecord) (rs : List PeerRecord)
    → ((r : PeerRecord) → r.node.id ≡ k → (f r).node.id ≡ k)
    → any (is_node id) (modify_first (is_node k) f rs) ≡ any (is_node id) rs
any-modify_first id k f [] h = refl
any-modify_first id k f (r ∷ rs) h = ground (arith, h r, any-modify_first id k f rs h)

modify_first-UniqueNodes :
    (k : Uuid) (f : PeerRecord → PeerRecord) (rs : List PeerRecord)
    → ((r : PeerRecord) → r.node.id ≡ k → (f r).node.id ≡ k)
    → UniqueNodes rs
    → UniqueNodes (modify_first (is_node k) f rs)
modify_first-UniqueNodes k f [] h u = tt
modify_first-UniqueNodes k f (r ∷ rs) h u =
    ground (arith, h r, modify_first-UniqueNodes k f rs h u.1, any-modify_first r.node.id k f rs h)

append-UniqueNodes :
    (r : PeerRecord) (rs : List PeerRecord)
    → any (is_node r.node.id) rs ≡ false
    → UniqueNodes rs
    → UniqueNodes (rs ++ r ∷ [])
append-UniqueNodes r [] h u = (refl, tt)
append-UniqueNodes r (x ∷ xs) h u =
    ground (arith, append-UniqueNodes r xs, any-append (is_node x.node.id) xs (r ∷ []))

pub register-UniqueNodes :
    (n : PlainNode) (rs : List PeerRecord) → UniqueNodes rs → UniqueNodes (register_records n rs)
unfolding register_records
register-UniqueNodes n rs u = ground (
  arith,
  modify_first-UniqueNodes n.id (λ _. connect_as n) rs (λ _ _. refl) u,
  append-UniqueNodes (connect_as n) rs,
)

pub close-UniqueNodes :
    (id : Option Uuid) (g : Registry) → UniqueNodes g.records → UniqueNodes (close id g).records
unfolding close
close-UniqueNodes none g u = u
close-UniqueNodes (some id) g u =
    ground (arith, modify_first-UniqueNodes id disconnect g.records (λ _ e. e) u)

-- The record of a node.
abbrev pub record_of : Uuid → List PeerRecord → Option PeerRecord
record_of id = find (is_node id)

-- What a query returns of one node.
abbrev pub answer : Bool → Option PeerRecord → Option PeerRecord
answer asked none = none
answer asked (some r) = if is_connected r && asked then some r else none

find-retain-none :
    (p q : PeerRecord → Bool) (rs : List PeerRecord)
    → any p rs ≡ false
    → find p (retain q rs) ≡ none
find-retain-none p q [] h = refl
find-retain-none p q (r ∷ rs) h = ground (arith, find-retain-none p q rs)

record_of-retain :
    (id : Uuid) (ids : List Uuid) (rs : List PeerRecord)
    → UniqueNodes rs
    → record_of id (retain (λ r. is_connected r && (is_empty ids || contains ids r.node.id)) rs)
      ≡ answer (is_empty ids || contains ids id) (record_of id rs)
record_of-retain id ids [] u = refl
record_of-retain id ids (r ∷ rs) u =
    let q : PeerRecord → Bool = λ x. is_connected x && (is_empty ids || contains ids x.node.id) in
    elim (ℕ_discrete r.node.id id) [
      | yes e ↦ here e (find-retain-none (is_node id) q rs (rw (← e) u.0))
      | no n ↦ ground (arith, record_of-retain id ids rs u.1)
    ]
  where
    here :
        r.node.id ≡ id
        → record_of id (retain (λ r. is_connected r && (is_empty ids || contains ids r.node.id)) rs)
          ≡ none
        → record_of id
            (retain (λ r. is_connected r && (is_empty ids || contains ids r.node.id)) (r ∷ rs))
          ≡ answer (is_empty ids || contains ids id) (record_of id (r ∷ rs))
    here e gone = ground (arith, ap (contains ids) e)

-- In a registry with no node twice and a sound lock, a query answers for a node exactly if the
-- node is connected and the request is empty or names it, and then with its record.
pub record_of-get_connected_peers :
    (id : Uuid) (ids : List Uuid) (g : Registry)
    → g.poisoned ≡ false
    → UniqueNodes g.records
    → record_of id (get_connected_peers ids g)
      ≡ answer (is_empty ids || contains ids id) (record_of id g.records)
unfolding get_connected_peers
record_of-get_connected_peers id ids g p u = rw p (record_of-retain id ids g.records u)

abbrev pub map_record : (PeerRecord → PeerRecord) → Option PeerRecord → Option PeerRecord
map_record f none = none
map_record f (some r) = some (f r)

record_of-modify_first :
    (id k : Uuid) (f : PeerRecord → PeerRecord) (rs : List PeerRecord)
    → ((r : PeerRecord) → r.node.id ≡ k → (f r).node.id ≡ k)
    → record_of id (modify_first (is_node k) f rs)
      ≡ (if k == id then map_record f (record_of id rs) else record_of id rs)
record_of-modify_first id k f [] h = ground arith
record_of-modify_first id k f (r ∷ rs) h = ground (arith, h r, record_of-modify_first id k f rs h)

record_of-append :
    (id : Uuid) (x : PeerRecord) (rs : List PeerRecord)
    → any (is_node x.node.id) rs ≡ false
    → record_of id (rs ++ x ∷ []) ≡ (if x.node.id == id then some x else record_of id rs)
record_of-append id x [] h = refl
record_of-append id x (r ∷ rs) h = ground (arith, record_of-append id x rs)

map_record-const :
    (id : Uuid) (n : PlainNode) (rs : List PeerRecord)
    → any (is_node n.id) rs ≡ true
    → n.id ≡ id
    → map_record (λ _. connect_as n) (record_of id rs) ≡ some (connect_as n)
map_record-const id n [] h e = ground arith
map_record-const id n (r ∷ rs) h e = ground (arith, map_record-const id n rs)

-- The record of every node after one registers: that node's is the new one, connected, and every
-- other is as it was.
pub record_of-register_records :
    (id : Uuid) (n : PlainNode) (rs : List PeerRecord)
    → record_of id (register_records n rs)
      ≡ (if n.id == id then some (connect_as n) else record_of id rs)
unfolding register_records
record_of-register_records id n rs = ground (
  arith,
  record_of-modify_first id n.id (λ _. connect_as n) rs (λ _ _. refl),
  record_of-append id (connect_as n) rs,
  map_record-const id n rs,
)

-- And after a connection closes: the record of its node is disconnected.
pub record_of-close :
    (id k : Uuid) (g : Registry)
    → g.poisoned ≡ false
    → record_of id (close (some k) g).records
      ≡ (if k == id then map_record disconnect (record_of id g.records) else record_of id g.records)
unfolding close
record_of-close id k g p = rw p (record_of-modify_first id k disconnect g.records (λ _ e. e))
