-- ===== src/Program.antt =====
-- src/main.rs: the three modes of the binary and its prompt.
-- What is printed is not kept. Each read of a line from standard input is an error, `none`, or the
-- line, which is empty at the end of the input.
pub mod Lines
pub mod Session
pub mod Endings
pub mod Invariant
pub mod Files
pub mod Threads
use text.Mathlib.Text.{◌==◌ as str_eq}
use rusty_bundle.Prelude.{
  ℕ, String, List, [], ◌∷◌, Option, none, some, Bool, true, false, ◌||◌, if◌then◌else◌,
}
use rusty_bundle.Model.{Uuid, Node, new_node}
use rusty_bundle.Registry.{Registry, new_server}
use rusty_bundle.Cli.{EngineOps, Process, NodeCommands, start, handle_command}
use rusty_bundle.Program.Lines.{is_empty, trim, split_whitespace, eq_ignore_ascii_case}

-- What a line at the prompt leads to: the next prompt, the end of `main`, or the end of the process
-- in a command.
pub data Turn (E W : Type 0) : Type 0 where
  prompts leaves : Process E W → Turn E W
  dies : Turn E W

-- What `main` comes to: the registry server runs, the process exits or panics, `main` returns, or
-- sleeps for ever, or is at its prompt.
pub data Run (E W : Type 0) : Type 0 where
  serves : Registry → Run E W
  exits : Run E W
  returns sleeps waits : Process E W → Run E W

-- `matches!(&cli.command, NodeCommands::Start { .. })`
abbrev pub is_start : NodeCommands → Bool
is_start (start name server) = true
is_start _ = false

-- `input.eq_ignore_ascii_case("exit") || input.eq_ignore_ascii_case("quit")`
abbrev pub is_quit : String → Bool
is_quit input = eq_ignore_ascii_case input "exit" || eq_ignore_ascii_case input "quit"

-- `new_v5` is that of the uuid crate, `try_parse_from` the parser that clap derives, of the words
-- of a command line.
module _ {E W : Type 0} (o : EngineOps E W) (new_v5 : Uuid → String → Uuid)
    (try_parse_from : List String → Option NodeCommands) where
  -- `node_id`, once the namespace is parsed.
  unfoldable pub node_id : Uuid → String → Uuid
  node_id namespace name = new_v5 namespace name

  -- `Node::new`, whose engine reads the node's file.
  unfoldable pub demo_node :
      Uuid → (name : String) → (port : ℕ) → (peers : List Uuid) → W → Node E × W
  demo_node namespace name port peers w =
      let (e, w1) = o.new_engine (node_id namespace name) peers name w in
      (new_node (node_id namespace) (λ _ _ _. e) name "127.0.0.1" port peers, w1)

  unfoldable pub demo_nodes : Uuid → W → List (Node E) × W
  demo_nodes ns w =
      let (alice, w1) = demo_node ns "alice" 9001 (node_id ns "bob" ∷ []) w in
      let (bob, w2) = demo_node ns "bob" 9002 (node_id ns "carol" ∷ []) w1 in
      let (carol, w3) = demo_node ns "carol" 9003 (node_id ns "syrine" ∷ []) w2 in
      let (syrine, w4) = demo_node ns "syrine" 9004 [] w3 in (alice ∷ bob ∷ carol ∷ syrine ∷ [], w4)

  unfoldable pub new_process : Uuid → W → Process E W
  new_process ns w =
      let (nodes, w1) = demo_nodes ns w in
      record {
        nodes = nodes;
        registry_streams = [];
        listening_ports = [];
        retrying_nodes = [];
        listeners = [];
        retriers = [];
        world = w1;
      }

  -- `handle_command` in the loop.
  abbrev pub after_command : Option (Process E W) → Turn E W
  after_command none = dies
  after_command (some p) = prompts p

  -- The command of a line at the prompt, if the parser takes it.
  unfoldable pub run_parsed : Option NodeCommands → Process E W → Turn E W
  run_parsed none p = prompts p
  run_parsed (some c) p = after_command (handle_command o c p)

  unfoldable pub take_line : String → Process E W → Turn E W
  take_line line p =
      let input = trim line in
      if is_empty input
      then prompts p
      else if is_quit input
      then leaves p
      else if eq_ignore_ascii_case input "help"
      then prompts p
      else run_parsed (try_parse_from ("WhatSpace" ∷ split_whitespace input)) p

  unfoldable pub take_read : Option String → Process E W → Turn E W
  take_read none p = prompts p
  take_read (some line) p = take_line line p

  -- The loop, along the reads so far.
  unfoldable pub interactive : List (Option String) → Process E W → Turn E W
  interactive [] p = prompts p
  interactive (r ∷ rs) p = elim (take_read r p) [
    | prompts p1 ↦ interactive rs p1
    | leaves p1 ↦ leaves p1
    | dies ↦ dies
  ]

  -- One command from the command line.
  unfoldable pub one_shot : Option NodeCommands → Process E W → Run E W
  one_shot none p = exits
  one_shot (some c) p = elim (handle_command o c p) [
    | none ↦ exits
    | some p1 ↦ if is_start c then sleeps p1 else returns p1
  ]

  abbrev pub at_prompt : Turn E W → Run E W
  at_prompt (prompts p) = waits p
  at_prompt (leaves p) = returns p
  at_prompt dies = exits

  -- The mode, by the arguments, the first of which is the program's name.
  unfoldable pub run_mode : List String → List (Option String) → Process E W → Run E W
  run_mode [] reads p = at_prompt (interactive reads p)
  run_mode (program ∷ []) reads p = at_prompt (interactive reads p)
  run_mode (program ∷ first ∷ rest) reads p =
      if str_eq first "serve" || str_eq first "server"
      then serves new_server
      else one_shot (try_parse_from (program ∷ first ∷ rest)) p

  unfoldable pub main : (args : List String) → (reads : List (Option String)) → W → Run E W
  main args reads w = elim (o.parse_str "6ba7b810-9dad-11d1-80b4-00c04fd430c8") [
    | none ↦ exits
    | some ns ↦ run_mode args reads (new_process ns w)
  ]
