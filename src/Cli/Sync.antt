-- ===== src/Cli/Sync.antt =====
-- The peers of a node and those of its engine, along the commands of src/cli/handler.rs.
use rusty_bundle.Prelude.{List, Option, none, some, ◌∙◌, All, All-trivial}
use rusty_bundle.Cli.Nodes.{
  InSync, engine_peers, with_engine-InSync, set_registry-InSync, add_peer-InSync,
  remove_peer-InSync,
}
use rusty_bundle.Cli.Stable.{IsStable}
use rusty_bundle.Cli.Sessions.{EndIsKept, handle_each-AllKept}
use rusty_bundle.Cli.{NodeCommands, EngineOps, EngineLaws, Process, handle_each}

module _ {E W : Type 0} (o : EngineOps E W) (laws : EngineLaws o) where
  -- Every node of the process is in sync.
  abbrev pub AllInSync : Process E W → Type 0
  AllInSync p = All (InSync o laws) p.nodes

  -- The nodes of the process that is left are in sync, if it has not exited.
  abbrev pub EndInSync : Option (Process E W) → Type 0
  EndInSync none = Unit
  EndInSync (some p) = AllInSync p

  InSync-IsStable : IsStable o (InSync o laws) (λ e. Unit {0}) (λ w. Unit {0})
  InSync-IsStable = record {
    connects = λ n server w h. tt;
    binds = λ port w h. tt;
    makes = λ n w h hw. (with_engine-InSync o laws n w, tt);
    registers = set_registry-InSync o laws;
    reads = λ n e w h known hw. (laws.peers_of-read_all e w ∙ engine_peers o laws n e known h, tt);
    routes = λ n e a b m ttl w h known hw.
        (laws.peers_of-route_new a b m ttl e w ∙ engine_peers o laws n e known h, tt);
    gives = λ n e h known. tt;
    adds = add_peer-InSync o laws;
    removes = remove_peer-InSync o laws;
    queries = λ e ids w h. tt;
  }

  end_in_sync :
      (q : Option (Process E W))
      → EndIsKept o (InSync o laws) (λ e. Unit {0}) (λ w. Unit {0}) InSync-IsStable q
      → EndInSync q
  end_in_sync none h = tt
  end_in_sync (some p) h = h.0.0

  -- If the engine's own operations keep its peers: as long as the engine of every node, if it has
  -- one, has the peers of the node, this stays so along every session of commands.
  pub handle_each-InSync :
      (cs : List NodeCommands) (p : Process E W) → AllInSync p → EndInSync (handle_each o cs p)
  handle_each-InSync cs p hs = end_in_sync (handle_each o cs p) (
      handle_each-AllKept o (InSync o laws) (λ e. Unit {0}) (λ w. Unit {0}) InSync-IsStable cs p
        ((hs, All-trivial p.listeners, All-trivial p.retriers), tt))
