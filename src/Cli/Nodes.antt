-- ===== src/Cli/Nodes.antt =====
-- The peers of a node and those of its engine, in the steps of src/cli/handler.rs on one node.
use mathlib.Core.Path.{subst}
use rusty_bundle.Prelude.{
  List, [], ◌∷◌, ◌++◌, Option, Option-cases, none, some, Bool, Bool-cases, not, ◌≡◌, arith, sym,
  ◌∙◌, inl, inr, ltb, ◌==◌, contains, retain, retain_all, find, modify_first, length, All, String,
}
use rusty_bundle.Model.{Uuid, Node}
use rusty_bundle.Cli.{
  EngineOps, EngineLaws, sync_node_engine_peers, with_engine, set_registry, add_peer, remove_peer,
}

pub All-modify_first :
    {A : Type 0} (P : A → Type 0) (p : A → Bool) (y : A) (xs : List A)
    → P y
    → All P xs
    → All P (modify_first p (λ _. y) xs)
All-modify_first P p y [] h hs = hs
All-modify_first P p y (x ∷ xs) h (hx, hs) = elim (Bool-cases (p x)) [
  | inl e ↦ rw e (h, hs)
  | inr e ↦ rw e (hx, All-modify_first P p y xs h hs)
]

pub All-find :
    {A : Type 0} (P : A → Type 0) (p : A → Bool) (xs : List A) (y : A)
    → All P xs
    → find p xs ≡ some y
    → P y
All-find P p [] y hs e = ground arith
All-find P p (x ∷ xs) y (hx, hs) e = elim (Bool-cases (p x)) [
  | inl t ↦ (let same : x ≡ y = ground arith in subst P same hx)
  | inr t ↦ (let later : find p xs ≡ some y = ground arith in All-find P p xs y hs later)
]

module _ {E W : Type 0} (o : EngineOps E W) (laws : EngineLaws o) where
  abbrev pub EnginePeers : Option E → List Uuid → Type 0
  EnginePeers none ps = Unit
  EnginePeers (some e) ps = o.peers_of e ≡ ps

  -- The engine of a node, if it has one, knows the node's peers.
  abbrev pub InSync : Node E → Type 0
  InSync n = EnginePeers n.routing_engine n.peers

  pub engine_peers :
      (n : Node E) (engine : E)
      → n.routing_engine ≡ some engine
      → InSync n
      → o.peers_of engine ≡ n.peers
  engine_peers n engine e h = subst (λ r. EnginePeers r n.peers) e h

  pub sync-InSync : (n : Node E) → InSync (sync_node_engine_peers o n)
  unfolding sync_node_engine_peers
  sync-InSync n = elim (Option-cases n.routing_engine) [
    | inl e ↦ rw (sync_node_engine_peers, e) (rw e tt)
    | inr (engine, e) ↦ rw (sync_node_engine_peers, e) (laws.peers_of-with_peers n.peers engine)
  ]

  pub with_engine-InSync : (n : Node E) (w : W) → InSync (with_engine o n w).0
  unfolding with_engine
  with_engine-InSync n w = elim (Option-cases n.routing_engine) [
    | inl e ↦
        (let engine = (o.new_engine n.id n.peers n.name w).0 in
          rw (with_engine, e) (sync-InSync (record n { routing_engine = some engine })))
    | inr (engine, e) ↦ rw (with_engine, e) (sync-InSync n)
  ]

  pub set_registry-InSync :
      (server : String) (n : Node E) → InSync n → InSync (set_registry o server n)
  unfolding set_registry
  set_registry-InSync server n h = elim (Option-cases n.routing_engine) [
    | inl e ↦ rw (set_registry, e) (rw e tt)
    | inr (engine, e) ↦
        rw (set_registry, e) (laws.peers_of-with_registry server engine ∙ engine_peers n engine e h)
  ]

  pub add_peer-InSync : (id : Uuid) (n : Node E) → InSync n → InSync (add_peer o id n)
  unfolding add_peer
  add_peer-InSync id n h = elim (Bool-cases (contains n.peers id)) [
    | inl e ↦ rw (add_peer, e) h
    | inr e ↦ rw (add_peer, e) (sync-InSync (record n { peers = n.peers ++ id ∷ [] }))
  ]

  pub remove_peer-InSync : (id : Uuid) (n : Node E) → InSync n → InSync (remove_peer o id n)
  unfolding remove_peer
  remove_peer-InSync id n h =
      let left = retain (λ p. not (p == id)) n.peers in
      elim (Bool-cases (ltb (length left) (length n.peers))) [
        | inl e ↦ rw (remove_peer, e) (sync-InSync (record n { peers = left }))
        | inr e ↦
            (let same : left ≡ n.peers = retain_all (λ p. not (p == id)) n.peers (ground arith) in
              rw (remove_peer, e) (subst (EnginePeers n.routing_engine) (sym same) h))
      ]
