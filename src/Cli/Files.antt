-- ===== src/Cli/Files.antt =====
-- The bundle files of all nodes, along the commands of src/cli/handler.rs.
use mathlib.Core.Path.{subst}
use text.Mathlib.Text.{◌==◌ as str_eq}
use rusty_bundle.Prelude.{
  ℕ, String, List, [], ◌∷◌, ◌++◌, Option, Option-cases, none, some, Bool-cases, not, ◌≡◌, refl,
  arith, inl, inr, ltb, ◌==◌, contains, retain, length,
}
use rusty_bundle.Model.{Uuid, Node, PlainNode, data_msg, new_bundle}
use rusty_bundle.Disk.{Serde, SerdeLaws, stored}
use rusty_bundle.Disk.Persist.{stored-load}
use rusty_bundle.Storage
use rusty_bundle.Storage.{Store}
use rusty_bundle.Storage.Contents.{IsWellFormed}
use rusty_bundle.Storage.Access.{held}
use rusty_bundle.Storage.Stable.{IsKeptAt, IsKeptAt-IsStable}
use rusty_bundle.BundleManager
use rusty_bundle.Engine.{RoutingEngine, State, new_engine}
use rusty_bundle.Engine.Route.{route_bundle}
use rusty_bundle.Engine.Stable.{route_bundle-IsStable}
use rusty_bundle.Cli.{
  EngineOps, sync_node_engine_peers, with_engine, set_registry, add_peer, remove_peer,
}
use rusty_bundle.Cli.Stable.{IsStable}
use rusty_bundle.Cli.Engines.{
  World, directory, opened, closed_at, make_engine, route_new, read_all, connect, bind, engine_ops,
}

module _ (j : Serde) where
  -- Every bundle directory's file is well formed for the capacity that `BundleManager::new` sets.
  abbrev pub FilesAreKept : World j.Text → Type 0
  FilesAreKept w = (dir : String) → IsWellFormed 100 (stored j (w.disks dir))

  abbrev pub EngineFits : RoutingEngine j.Text → Type 0
  EngineFits e = e.bundle_manager.storage.capacity ≡ 100

  abbrev pub Fits : Option (RoutingEngine j.Text) → Type 0
  Fits none = Unit
  Fits (some e) = EngineFits e

  -- The engine of a node, if it has one, has that capacity.
  abbrev pub NodeFits : Node (RoutingEngine j.Text) → Type 0
  NodeFits n = Fits n.routing_engine

  capacity_of :
      (r : Option (RoutingEngine j.Text)) (e : RoutingEngine j.Text)
      → r ≡ some e
      → Fits r
      → e.bundle_manager.storage.capacity ≡ 100
  capacity_of r e p h = subst Fits p h

  pub closed_at-FilesAreKept :
      (dir : String) (e : RoutingEngine j.Text) (w : World j.Text)
      → IsWellFormed 100 (held j e.bundle_manager.storage)
      → FilesAreKept w
      → FilesAreKept (closed_at j dir e w)
  closed_at-FilesAreKept dir e w h hw d = elim (Bool-cases (str_eq d dir)) [
    | inl x ↦ rw x h
    | inr x ↦ rw x (hw d)
  ]

  connect-FilesAreKept : (w : World j.Text) → FilesAreKept w → FilesAreKept (connect j w).1
  unfolding connect
  connect-FilesAreKept w h dir =
      let same : (connect j w).1.disks ≡ w.disks = ground arith in rw same (h dir)

  bind-FilesAreKept : (w : World j.Text) → FilesAreKept w → FilesAreKept (bind j w).1
  unfolding bind
  bind-FilesAreKept w h dir =
      let same : (bind j w).1.disks ≡ w.disks = ground arith in rw same (h dir)

  pub make_engine-FilesAreKept :
      (id : Uuid) (ps : List Uuid) (name : String) (w : World j.Text)
      → FilesAreKept w
      → Fits (some (make_engine j id ps name w).0) × FilesAreKept (make_engine j id ps name w).1
  unfolding make_engine new_engine BundleManager.new_manager Storage.new_storage
  make_engine-FilesAreKept id ps name w h =
      let e = (make_engine j id ps name w).0 in
      let dir = directory j e in (refl, closed_at-FilesAreKept _ e w (rw stored-load (h _)) h)

  module _ (laws : SerdeLaws j) where
    pub opened-IsKeptAt :
        (e : RoutingEngine j.Text) (w : World j.Text)
        → e.bundle_manager.storage.capacity ≡ 100
        → FilesAreKept w
        → IsKeptAt j laws 100 (opened j e w).bundle_manager.storage
    opened-IsKeptAt e w c h = record { limit = c; kept = rw c (h (directory j e)) }

    pub kept_file : (s : Store j.Text) → IsKeptAt j laws 100 s → IsWellFormed 100 (held j s)
    kept_file s k = subst (λ n. IsWellFormed n (held j s)) k.limit k.kept

    route_new-FilesAreKept :
        (a b : PlainNode) (m : String) (ttl : ℕ) (e : RoutingEngine j.Text) (w : World j.Text)
        → Fits (some e)
        → FilesAreKept w
        → Fits (some (route_new j a b m ttl e w).0) × FilesAreKept (route_new j a b m ttl e w).1
    unfolding route_new
    route_new-FilesAreKept a b m ttl e w c h =
        let o = w.occasions w.sent in
        let bundle = new_bundle o.made o.bundle_id a b (data_msg m) ttl in
        let st : State j.Text = record { engine = opened j e w; net = w.net } in
        let k =
          route_bundle-IsStable j (IsKeptAt j laws 100) (IsKeptAt-IsStable j laws 100) o.times
            o.ack_id bundle st (opened-IsKeptAt e w c h) in
        let e1 = (route_bundle j o.times o.ack_id bundle st).1.engine in
        (k.limit, closed_at-FilesAreKept (directory j e) e1 w (kept_file _ k) h)

    read_all-FilesAreKept :
        (e : RoutingEngine j.Text) (w : World j.Text)
        → Fits (some e)
        → FilesAreKept w
        → Fits (some (read_all j e w).0) × FilesAreKept (read_all j e w).1
    unfolding read_all BundleManager.all Storage.get_all_bundles
    read_all-FilesAreKept e w c h =
        let k =
          (IsKeptAt-IsStable j laws 100).refreshes (opened j e w).bundle_manager.storage
            (opened-IsKeptAt e w c h) in
        (k.limit, closed_at-FilesAreKept (directory j e) (read_all j e w).0 w (kept_file _ k) h)

  module _ (laws : SerdeLaws j) (parse_str : String → Option Uuid) where
    abbrev ops : EngineOps (RoutingEngine j.Text) (World j.Text)
    ops = engine_ops j parse_str

    sync-NodeFits :
        (n : Node (RoutingEngine j.Text)) → NodeFits n → NodeFits (sync_node_engine_peers ops n)
    unfolding sync_node_engine_peers
    sync-NodeFits n h = elim (Option-cases n.routing_engine) [
      | inl e ↦ rw (sync_node_engine_peers, e) (rw e tt)
      | inr (engine, e) ↦ rw (sync_node_engine_peers, e) (capacity_of n.routing_engine engine e h)
    ]

    with_engine-NodeFits :
        (n : Node (RoutingEngine j.Text)) (w : World j.Text)
        → NodeFits n
        → FilesAreKept w
        → NodeFits (with_engine ops n w).0 × FilesAreKept (with_engine ops n w).1
    unfolding with_engine
    with_engine-NodeFits n w h hw = elim (Option-cases n.routing_engine) [
      | inl e ↦
          (let (c, kept) = make_engine-FilesAreKept n.id n.peers n.name w hw in
            let engine = (make_engine j n.id n.peers n.name w).0 in
            rw (with_engine, e) (sync-NodeFits (record n { routing_engine = some engine }) c, kept))
      | inr (engine, e) ↦ rw (with_engine, e) (sync-NodeFits n h, hw)
    ]

    set_registry-NodeFits :
        (server : String) (n : Node (RoutingEngine j.Text))
        → NodeFits n
        → NodeFits (set_registry ops server n)
    unfolding set_registry
    set_registry-NodeFits server n h = elim (Option-cases n.routing_engine) [
      | inl e ↦ rw (set_registry, e) (rw e tt)
      | inr (engine, e) ↦ rw (set_registry, e) (capacity_of n.routing_engine engine e h)
    ]

    add_peer-NodeFits :
        (id : Uuid) (n : Node (RoutingEngine j.Text)) → NodeFits n → NodeFits (add_peer ops id n)
    unfolding add_peer
    add_peer-NodeFits id n h = elim (Bool-cases (contains n.peers id)) [
      | inl e ↦ rw (add_peer, e) h
      | inr e ↦ rw (add_peer, e) (sync-NodeFits (record n { peers = n.peers ++ id ∷ [] }) h)
    ]

    remove_peer-NodeFits :
        (id : Uuid) (n : Node (RoutingEngine j.Text)) → NodeFits n → NodeFits (remove_peer ops id n)
    unfolding remove_peer
    remove_peer-NodeFits id n h =
        let left = retain (λ p. not (p == id)) n.peers in
        elim (Bool-cases (ltb (length left) (length n.peers))) [
          | inl e ↦ rw (remove_peer, e) (sync-NodeFits (record n { peers = left }) h)
          | inr e ↦ rw (remove_peer, e) h
        ]

    pub NodeFits-IsStable : IsStable ops NodeFits EngineFits FilesAreKept
    NodeFits-IsStable = record {
      connects = λ n server w h. connect-FilesAreKept w h;
      binds = λ port w h. bind-FilesAreKept w h;
      makes = with_engine-NodeFits;
      registers = set_registry-NodeFits;
      reads = λ n e w h known hw.
          read_all-FilesAreKept laws e w (capacity_of n.routing_engine e known h) hw;
      routes = λ n e a b m ttl w h known hw.
          route_new-FilesAreKept laws a b m ttl e w (capacity_of n.routing_engine e known h) hw;
      gives = λ n e h known. capacity_of n.routing_engine e known h;
      adds = add_peer-NodeFits;
      removes = remove_peer-NodeFits;
      queries = λ e ids w h. h;
    }
