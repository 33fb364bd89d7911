-- ===== src/Program/Files.antt =====
-- The bundle files along every run of src/main.rs with the routing engine.
use rusty_bundle.Prelude.{String, List, Option, none, some, ℕ, All}
use rusty_bundle.Model.{Uuid, new_node}
use rusty_bundle.Disk.{Serde, SerdeLaws}
use rusty_bundle.Engine.{RoutingEngine}
use rusty_bundle.Cli.{Process, NodeCommands, handle_each}
use rusty_bundle.Cli.Sessions.{EndIsKept, handle_each-AllKept}
use rusty_bundle.Cli.Engines.{World, engine_ops}
use rusty_bundle.Cli.Files.{
  FilesAreKept, NodeFits, EngineFits, NodeFits-IsStable, make_engine-FilesAreKept,
}
use rusty_bundle.Program.{demo_node, demo_nodes, new_process, main}
use rusty_bundle.Program.Endings.{Ends, RunEnds, main-Ends}

module _ (j : Serde) where
  -- The files are well formed, and the engines keep them to the capacity of their stores.
  pub record KeepsFiles (p : Process (RoutingEngine j.Text) (World j.Text)) : Type 0 where
    pub engines : All (NodeFits j) p.nodes
    pub listeners : All (λ t. EngineFits j t.1) p.listeners
    pub retriers : All (λ t. EngineFits j t.1) p.retriers
    pub files : FilesAreKept j p.world

module _ (j : Serde) (laws : SerdeLaws j) (parse_str : String → Option Uuid) where
  ends :
      (q : Option (Process (RoutingEngine j.Text) (World j.Text)))
      → EndIsKept
          (engine_ops j parse_str)
          (NodeFits j)
          (EngineFits j)
          (FilesAreKept j)
          (NodeFits-IsStable j laws parse_str)
          q
      → Ends (KeepsFiles j) q
  ends none h = tt
  ends (some p) h = record { engines = h.0.0; listeners = h.0.1; retriers = h.0.2; files = h.1 }

  pub handle_each-KeepsFiles :
      (cs : List NodeCommands) (p : Process (RoutingEngine j.Text) (World j.Text))
      → KeepsFiles j p
      → Ends (KeepsFiles j) (handle_each (engine_ops j parse_str) cs p)
  handle_each-KeepsFiles cs p h = ends (handle_each (engine_ops j parse_str) cs p) (
      handle_each-AllKept (engine_ops j parse_str) (NodeFits j) (EngineFits j) (FilesAreKept j)
        (NodeFits-IsStable j laws parse_str) cs p ((h.engines, h.listeners, h.retriers), h.files))

module _ (j : Serde) (laws : SerdeLaws j) (parse_str : String → Option Uuid)
    (new_v5 : Uuid → String → Uuid) (try_parse_from : List String → Option NodeCommands) where
  demo_node-Fits :
      (ns : Uuid) (name : String) (port : ℕ) (ps : List Uuid) (w : World j.Text)
      → FilesAreKept j w
      → let (n, w1) = demo_node (engine_ops j parse_str) new_v5 try_parse_from ns name port ps w in
        NodeFits j n × FilesAreKept j w1
  unfolding demo_node new_node
  demo_node-Fits ns name port ps w h = make_engine-FilesAreKept j _ ps name w h

  pub new_process-KeepsFiles :
      (ns : Uuid) (w : World j.Text)
      → FilesAreKept j w
      → KeepsFiles j (new_process (engine_ops j parse_str) new_v5 try_parse_from ns w)
  unfolding new_process demo_nodes
  new_process-KeepsFiles ns w h =
      let (alice, h1) = demo_node-Fits ns "alice" 9001 _ w h in
      let (bob, h2) = demo_node-Fits ns "bob" 9002 _ _ h1 in
      let (carol, h3) = demo_node-Fits ns "carol" 9003 _ _ h2 in
      let (syrine, h4) = demo_node-Fits ns "syrine" 9004 _ _ h3 in
      record {
        engines = (alice, (bob, (carol, (syrine, tt))));
        listeners = tt;
        retriers = tt;
        files = h4;
      }

  -- Whatever the arguments, whatever is typed, whatever the network answers and whichever accesses
  -- of the file system fail: if at the start the file of every bundle directory has no id twice and
  -- at most 100 bundles, then so has it in the process that is at its prompt, sleeps or returns.
  pub main-KeepsFiles :
      (args : List String) (reads : List (Option String)) (w : World j.Text)
      → FilesAreKept j w
      → RunEnds (KeepsFiles j) (main (engine_ops j parse_str) new_v5 try_parse_from args reads w)
  main-KeepsFiles args reads w h =
      main-Ends (engine_ops j parse_str) new_v5 try_parse_from (KeepsFiles j)
        (handle_each-KeepsFiles j laws parse_str) args reads w (λ ns. new_process-KeepsFiles ns w h)
