-- ===== src/Program/Invariant.antt =====
-- What holds of the process of src/main.rs whenever it is at its prompt, sleeps or returns.
use rusty_bundle.Prelude.{String, List, Option, none, some, refl}
use rusty_bundle.Model.{Uuid, new_node}
use rusty_bundle.Cli.{EngineOps, EngineLaws, Process, NodeCommands, handle_each}
use rusty_bundle.Cli.Sync.{AllInSync, EndInSync, handle_each-InSync}
use rusty_bundle.Cli.Threads.{OneEach, EndOneEach, handle_each-OneEach}
use rusty_bundle.Program.{demo_node, demo_nodes, new_process, main}
use rusty_bundle.Program.Endings.{Ends, RunEnds, main-Ends}

module _ {E W : Type 0} (o : EngineOps E W) (laws : EngineLaws o) where
  -- The engine of every node has the node's peers, the listening threads have different ports, all in
  -- LISTENING_PORTS, and a retried node has one retry thread.
  pub record IsOrderly (p : Process E W) : Type 0 where
    pub in_sync : AllInSync o laws p
    pub one_each : OneEach o p

  both : (q : Option (Process E W)) → EndInSync o laws q → EndOneEach o q → Ends IsOrderly q
  both none s t = tt
  both (some p) s t = record { in_sync = s; one_each = t }

  handle_each-IsOrderly :
      (cs : List NodeCommands) (p : Process E W) → IsOrderly p → Ends IsOrderly (handle_each o cs p)
  handle_each-IsOrderly cs p h =
      both (handle_each o cs p) (handle_each-InSync o laws cs p h.in_sync)
        (handle_each-OneEach o cs p h.one_each)

  module _ (new_v5 : Uuid → String → Uuid)
      (try_parse_from : List String → Option NodeCommands) where
    new_process-IsOrderly :
        (ns : Uuid) (w : W) → IsOrderly (new_process o new_v5 try_parse_from ns w)
    unfolding new_process demo_nodes demo_node new_node
    new_process-IsOrderly ns w =
        let new = laws.peers_of-new_engine in
        record {
          in_sync = (new _ _ _ _, (new _ _ _ _, (new _ _ _ _, (new _ _ _ _, tt))));
          one_each = record { ports_used = tt; ports_once = tt; nodes_of = refl; nodes_once = tt };
        }

    -- Whatever the arguments, and whatever is typed, from the start of the program: as long as the
    -- engine's own operations keep its peers, in the process that is at its prompt, sleeps or
    -- returns the engine of every node, if it has one, has the peers of the node; every listening
    -- thread's port is in LISTENING_PORTS, and no two have one port, whichever ports cannot be bound;
    -- and each retried node has one retry thread. Of the engines that the threads were given nothing
    -- is said.
    pub main-IsOrderly :
        (args : List String) (reads : List (Option String)) (w : W)
        → RunEnds IsOrderly (main o new_v5 try_parse_from args reads w)
    main-IsOrderly args reads w =
        main-Ends o new_v5 try_parse_from IsOrderly handle_each-IsOrderly args reads w
          (λ ns. new_process-IsOrderly ns w)
