-- ===== src/Tests/Programs.antt =====
-- Runs of the program: src/main.rs at work, over nodes with empty or used bundle directories.
use Prim.Native.Char.{code}
use rusty_bundle.Prelude.{
  String, List, [], ◌∷◌, map, Option, none, some, true, ◌≡◌, refl, arith, any, contains, filter_map,
}
use rusty_bundle.Model.{Uuid, new_node}
use rusty_bundle.Disk.{stored, parse_bundles, done, fails}
use rusty_bundle.BundleManager
use rusty_bundle.Engine.{RoutingEngine, new_engine}
use rusty_bundle.Cli.{
  sync_node_engine_peers, handle_command, start_node, with_engine, set_registry, listen, retry,
  Process, NodeCommands, start, stop, peers, add, handle_each,
}
use rusty_bundle.Cli.Engines.{make_engine, connect, bind, World, engine_ops, engine_ops-EngineLaws}
use rusty_bundle.Cli.Files.{FilesAreKept}
use rusty_bundle.Program.Lines.{trim, split_whitespace, eq_ignore_ascii_case}
use rusty_bundle.Program.{node_id, demo_nodes, demo_node, main, interactive, new_process}
use rusty_bundle.Program.Session.{
  request_of, commands_of, quits_loop, end_of, interactive-handle_each,
}
use rusty_bundle.Program.Endings.{RunEnds}
use rusty_bundle.Program.Invariant.{IsOrderly, main-IsOrderly}
use rusty_bundle.Program.Threads.{retry_pass, commands, retries, Leads, here, next}
use rusty_bundle.Program.Threads.Files.{Leads-FilesAreKept}
use rusty_bundle.Program.Files.{KeepsFiles, main-KeepsFiles}
use rusty_bundle.Samples.{formats, codec, Json, json, json_laws, clock_at, brief, disk_of}
use rusty_bundle.Tests.Routing.{net, times}

-- A parser of three commands.
abbrev command_of : List String → Option NodeCommands
command_of (_ ∷ _ ∷ name ∷ server ∷ []) = some (start name server)
command_of (_ ∷ _ ∷ name ∷ []) = some (stop name)
command_of (_ ∷ _ ∷ name ∷ _ ∷ peer ∷ []) = some (peers name (add peer))
command_of _ = none

abbrev first_code : Uuid → String → Uuid
first_code ns String.[] = ns
first_code ns (String.◌∷◌ c s) = code c

abbrev parse_uuid : String → Option Uuid
parse_uuid s = some 0

-- Every directory holds one bundle, and its second access fails.
abbrev world : World Json
world = record {
  disks = λ d. disk_of (brief ∷ []) (done ∷ fails none "interrupted" ∷ []);
  net = net;
  connects = true ∷ [];
  binds = true ∷ [];
  occasions = λ n. record { made = clock_at 101; bundle_id = 40; times = times 101; ack_id = 41 };
  sent = 0;
}

world-FilesAreKept : FilesAreKept json world
unfolding stored parse_bundles filter_map
world-FilesAreKept dir = record { unique = (refl, tt); bounded = omega arith }

abbrev typed : List (Option String)
typed =
    some "start alice 127.0.0.1:9100\n"
    ∷ some "  \n"
    ∷ some "peers alice add carol\n"
    ∷ none
    ∷ some "Quit\n"
    ∷ some "stop alice\n"
    ∷ []

main-IsOrderly_example :
    RunEnds
      (IsOrderly (engine_ops json parse_uuid) (engine_ops-EngineLaws json parse_uuid))
      (main (engine_ops json parse_uuid) first_code command_of ("ws" ∷ []) typed world)
main-IsOrderly_example =
    main-IsOrderly (engine_ops json parse_uuid) (engine_ops-EngineLaws json parse_uuid) first_code
      command_of ("ws" ∷ []) typed world

main-KeepsFiles_example :
    RunEnds
      (KeepsFiles json)
      (main (engine_ops json parse_uuid) first_code command_of ("ws" ∷ []) typed world)
main-KeepsFiles_example =
    main-KeepsFiles json json_laws parse_uuid first_code command_of ("ws" ∷ []) typed world
      world-FilesAreKept

abbrev demo : Process (RoutingEngine Json) (World Json)
demo = new_process (engine_ops json parse_uuid) first_code command_of 0 world

interactive-handle_each_example :
    let requests = map (request_of command_of) typed in
    interactive (engine_ops json parse_uuid) first_code command_of typed demo
    ≡ end_of
        (any quits_loop requests)
        (handle_each (engine_ops json parse_uuid) (commands_of command_of requests) demo)
interactive-handle_each_example =
    interactive-handle_each (engine_ops json parse_uuid) first_code command_of typed demo

-- What is typed starts alice, gives her a peer and quits.
typed_commands :
    commands_of command_of (map (request_of command_of) typed)
    ≡ start "alice" "127.0.0.1:9100" ∷ peers "alice" (add "carol") ∷ []
unfolding commands_of request_of trim split_whitespace eq_ignore_ascii_case
typed_commands = refl

-- Alice is started, and her retry thread passes once.
abbrev start_alice : NodeCommands
start_alice = start "alice" "127.0.0.1:9100"

abbrev started : Process (RoutingEngine Json) (World Json)
started = elim (handle_command (engine_ops json parse_uuid) start_alice demo) [
  | none ↦ demo
  | some q ↦ q
]

start_alice_runs : handle_command (engine_ops json parse_uuid) start_alice demo ≡ some started
unfolding handle_command new_process demo_nodes demo_node new_node
start_alice_runs = refl

abbrev retrier : Uuid × RoutingEngine Json
retrier = elim started.retriers [
  | [] ↦ (0, new_engine json 0 [] (BundleManager.new_manager json 0 "" (disk_of [] [])))
  | t ∷ _ ↦ t
]

one_retrier : started.retriers ≡ retrier ∷ []
unfolding handle_command new_process demo_nodes demo_node new_node start_node connect bind
    with_engine set_registry listen retry make_engine sync_node_engine_peers
one_retrier = refl

retrier_connected : contains started.registry_streams retrier.0 ≡ true
unfolding handle_command new_process demo_nodes demo_node new_node start_node connect bind
    with_engine set_registry listen retry make_engine sync_node_engine_peers node_id
retrier_connected = refl

abbrev passed : Process (RoutingEngine Json) (World Json)
passed = retry_pass json (clock_at 101) [] [] retrier.0 retrier.1 started

passed-Leads :
    Leads json formats codec parse_uuid
      (record { process = demo; connections = [] })
      (record { process = passed; connections = [] })
passed-Leads =
    next (next here (commands start_alice started start_alice_runs))
      (retries (clock_at 101) [] [] retrier.0 retrier.1 one_retrier retrier_connected)

Leads-FilesAreKept_example : FilesAreKept json passed.world
Leads-FilesAreKept_example =
    Leads-FilesAreKept json json_laws formats codec parse_uuid first_code command_of 0 world
      world-FilesAreKept passed-Leads
