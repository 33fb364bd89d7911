-- ===== src/Cli/Engines.antt =====
-- The commands of src/cli/handler.rs with the routing engine of src/routing/engine.rs. The bundle
-- directories are part of the world: engines of one node, and clones of an engine, share the file.
use Prim.Native.String.{◌++◌ as append}
use text.Mathlib.Text.{◌==◌ as str_eq}
use rusty_bundle.Prelude.{ℕ, suc, String, List, [], ◌∷◌, Option, Bool, false, refl, if◌then◌else◌}
use rusty_bundle.Model.{Uuid, PlainNode, Clock, data_msg, new_bundle}
use rusty_bundle.Disk.{Serde, Disk}
use rusty_bundle.BundleManager
use rusty_bundle.Engine.{Net, RoutingEngine, Times, new_engine, get_connected_peers_from_server}
use rusty_bundle.Engine.Route.{route_bundle}
use rusty_bundle.Engine.Identity.{route_bundle-SameNode}
use rusty_bundle.Cli.{EngineOps, EngineLaws}

-- The instants and the new ids of one send.
pub record Occasion : Type 0 where
  pub made : Clock
  pub bundle_id : Uuid
  pub times : Times
  pub ack_id : Uuid

pub record World (Text : Type 0) : Type 0 where
  -- The files of each bundle directory.
  pub disks : String → Disk Text
  pub net : Net
  -- Whether the next calls of `connect_to_server` return a stream; they do not, once it is used up.
  pub connects : List Bool
  -- Likewise for the next calls of `TcpListener::bind`.
  pub binds : List Bool
  pub occasions : ℕ → Occasion
  -- How many bundles were sent.
  pub sent : ℕ

module _ (j : Serde) where
  open j use {Text}

  abbrev pub directory : RoutingEngine Text → String
  directory e = e.bundle_manager.storage.storage_dir

  -- The engine as it finds its directory.
  abbrev pub opened : RoutingEngine Text → World Text → RoutingEngine Text
  opened e w = record e {
    bundle_manager = record e.bundle_manager {
      storage = record e.bundle_manager.storage { disk = w.disks (directory e) };
    };
  }

  -- The world with what the engine left in the directory.
  abbrev pub closed_at : String → RoutingEngine Text → World Text → World Text
  closed_at dir e w = record w {
    disks = λ d. if str_eq d dir then e.bundle_manager.storage.disk else w.disks d;
  }

  unfoldable pub make_engine :
      Uuid → List Uuid → String → World Text → RoutingEngine Text × World Text
  make_engine id peers name w =
      let dir = append "./bundles/" name in
      let e = new_engine j id peers (BundleManager.new_manager j id name (w.disks dir)) in
      (e, closed_at dir e w)

  -- `Bundle::new`, and `route_bundle` of it.
  unfoldable pub route_new :
      PlainNode
      → PlainNode
      → String
      → ℕ
      → RoutingEngine Text
      → World Text
      → RoutingEngine Text × World Text
  route_new source destination message ttl e w =
      let o = w.occasions w.sent in
      let b = new_bundle o.made o.bundle_id source destination (data_msg message) ttl in
      let st =
        (route_bundle j o.times o.ack_id b (record { engine = opened e w; net = w.net })).1 in
      let w1 = record w { net = st.net; sent = suc w.sent } in
      (st.engine, closed_at (directory e) st.engine w1)

  unfoldable pub read_all : RoutingEngine Text → World Text → RoutingEngine Text × World Text
  read_all e w =
      let m = (BundleManager.all j (opened e w).bundle_manager).1 in
      let e1 = record e { bundle_manager = m } in (e1, closed_at (directory e) e1 w)

  unfoldable pub connect : World Text → Bool × World Text
  connect w = elim w.connects [ [] ↦ (false, w) | r ∷ rest ↦ (r, record w { connects = rest }) ]

  unfoldable pub bind : World Text → Bool × World Text
  bind w = elim w.binds [ [] ↦ (false, w) | r ∷ rest ↦ (r, record w { binds = rest }) ]

  -- `parse_str` is that of the uuid crate.
  abbrev pub engine_ops : (String → Option Uuid) → EngineOps (RoutingEngine Text) (World Text)
  engine_ops parse_str = record {
    new_engine = make_engine;
    peers_of = λ e. e.peers;
    with_peers = λ peers e. record e { peers = peers };
    with_registry = λ server e. record e { registry_address = server };
    route_new = route_new;
    read_all = read_all;
    connect_to_server = λ n server w. connect w;
    bind = λ port w. bind w;
    parse_str = parse_str;
    query = λ e ids w. record w { net = (get_connected_peers_from_server ids w.net).1 };
  }

  -- The engine meets what the commands rely on.
  pub engine_ops-EngineLaws : (parse_str : String → Option Uuid) → EngineLaws (engine_ops parse_str)
  unfolding make_engine new_engine route_new read_all
  engine_ops-EngineLaws parse_str = record {
    peers_of-new_engine = λ id ps name w. refl;
    peers_of-with_peers = λ ps e. refl;
    peers_of-with_registry = λ server e. refl;
    peers_of-route_new = λ a b m ttl e w.
        (let o = w.occasions w.sent in
          (route_bundle-SameNode j o.times o.ack_id
            (new_bundle o.made o.bundle_id a b (data_msg m) ttl)
            (record { engine = opened e w; net = w.net })).same_peers);
    peers_of-read_all = λ e w. refl;
  }
