-- ===== src/Program/Session.antt =====
-- The prompt of src/main.rs as a session of commands.
use rusty_bundle.Prelude.{
  String, List, [], ◌∷◌, map, Option, Option-cases, none, some, Bool, Bool-cases, true, false, ◌≡◌,
  refl, sym, ◌∙◌, ap, ◌⊎◌, inl, inr, if◌then◌else◌, any,
}
use rusty_bundle.Model.{Uuid}
use rusty_bundle.Cli.{EngineOps, Process, NodeCommands, handle_command, handle_each}
use rusty_bundle.Program.Lines.{is_empty, trim, split_whitespace, eq_ignore_ascii_case}
use rusty_bundle.Program.{
  Turn, prompts, leaves, dies, is_quit, after_command, run_parsed, take_line, take_read,
  interactive,
}

-- What a read asks for.
pub data Request : Type 0 where
  nothing quits : Request
  runs : NodeCommands → Request

abbrev pub quits_loop : Request → Bool
quits_loop quits = true
quits_loop _ = false

module _ (try_parse_from : List String → Option NodeCommands) where
  abbrev parsed_request : Option NodeCommands → Request
  parsed_request none = nothing
  parsed_request (some c) = runs c

  -- Nothing for a failed read, a blank line, a request for help, and what the parser refuses.
  unfoldable pub request_of : Option String → Request
  request_of none = nothing
  request_of (some line) =
      let input = trim line in
      if is_empty input
      then nothing
      else if is_quit input
      then quits
      else if eq_ignore_ascii_case input "help"
      then nothing
      else parsed_request (try_parse_from ("WhatSpace" ∷ split_whitespace input))

  -- The commands before the first `exit` or `quit`.
  unfoldable pub commands_of : List Request → List NodeCommands
  commands_of [] = []
  commands_of (nothing ∷ rs) = commands_of rs
  commands_of (quits ∷ rs) = []
  commands_of (runs c ∷ rs) = c ∷ commands_of rs

-- How a session ends that may have been quit.
abbrev pub end_of : {E W : Type 0} → Bool → Option (Process E W) → Turn E W
end_of quit none = dies
end_of true (some p) = leaves p
end_of false (some p) = prompts p

module _ {E W : Type 0} (o : EngineOps E W) (new_v5 : Uuid → String → Uuid)
    (try_parse_from : List String → Option NodeCommands) where
  abbrev turn_of : Request → Process E W → Turn E W
  turn_of nothing p = prompts p
  turn_of quits p = leaves p
  turn_of (runs c) p = after_command o new_v5 try_parse_from (handle_command o c p)

  run_parsed-request :
      (c : Option NodeCommands) (p : Process E W)
      → run_parsed o new_v5 try_parse_from c p ≡ turn_of (parsed_request try_parse_from c) p
  unfolding run_parsed
  run_parsed-request none p = refl
  run_parsed-request (some c) p = refl

  take_read-request_of :
      (r : Option String) (p : Process E W)
      → take_read o new_v5 try_parse_from r p ≡ turn_of (request_of try_parse_from r) p
  unfolding take_read take_line request_of
  take_read-request_of none p = refl
  take_read-request_of (some line) p =
      let input = trim line in
      let parsed = try_parse_from ("WhatSpace" ∷ split_whitespace input) in
      elim (Bool-cases (is_empty input)) [
        | inl e ↦ rw e refl
        | inr e ↦ rw e (elim (Bool-cases (is_quit input)) [
          | inl e ↦ rw e refl
          | inr e ↦ rw e (elim (Bool-cases (eq_ignore_ascii_case input "help")) [
            | inl e ↦ rw e refl
            | inr e ↦ rw e (run_parsed-request parsed p)
          ])
        ])
      ]

  abbrev go_on : List (Option String) → Turn E W → Turn E W
  go_on rs (prompts p) = interactive o new_v5 try_parse_from rs p
  go_on rs (leaves p) = leaves p
  go_on rs dies = dies

  interactive_step :
      (r : Option String) (rs : List (Option String)) (p : Process E W)
      → interactive o new_v5 try_parse_from (r ∷ rs) p
        ≡ go_on rs (turn_of (request_of try_parse_from r) p)
  unfolding interactive
  interactive_step r rs p = elim (turn_cases (take_read o new_v5 try_parse_from r p)) [
    | inl (q, e) ↦ rw (interactive, e) (ap (go_on rs) (sym e ∙ take_read-request_of r p))
    | inr (inl (q, e)) ↦ rw (interactive, e) (ap (go_on rs) (sym e ∙ take_read-request_of r p))
    | inr (inr e) ↦ rw (interactive, e) (ap (go_on rs) (sym e ∙ take_read-request_of r p))
  ]
    where
      turn_cases :
          (t : Turn E W)
          → ((q : Process E W) × (t ≡ prompts q))
            ⊎ ((q : Process E W) × (t ≡ leaves q))
            ⊎ (t ≡ dies)
      turn_cases (prompts q) = inl (q, refl)
      turn_cases (leaves q) = inr (inl (q, refl))
      turn_cases dies = inr (inr refl)

  abbrev then_each : List NodeCommands → Option (Process E W) → Option (Process E W)
  then_each cs none = none
  then_each cs (some p) = handle_each o cs p

  handle_each_step :
      (c : NodeCommands) (cs : List NodeCommands) (p : Process E W)
      → handle_each o (c ∷ cs) p ≡ then_each cs (handle_command o c p)
  unfolding handle_each
  handle_each_step c cs p = elim (Option-cases (handle_command o c p)) [
    | inl e ↦ rw (handle_each, e) refl
    | inr (q, e) ↦ rw (handle_each, e) refl
  ]

  -- Whatever is typed at the prompt: the loop runs the commands that the parser takes from the
  -- lines before the first `exit` or `quit`, one after the other. It leaves if there is such a line
  -- and no command ended the process, and else is at its prompt again, unless a command ended the
  -- process.
  pub interactive-handle_each :
      (reads : List (Option String)) (p : Process E W)
      → let requests = map (request_of try_parse_from) reads in
        interactive o new_v5 try_parse_from reads p
        ≡ end_of (any quits_loop requests) (handle_each o (commands_of try_parse_from requests) p)
  unfolding interactive handle_each commands_of
  interactive-handle_each [] p = refl
  interactive-handle_each (r ∷ rs) p =
      interactive_step r rs p
      ∙ by_request (λ q. interactive-handle_each rs q) (request_of try_parse_from r)
    where
      requests : List Request
      requests = map (request_of try_parse_from) rs

      Onwards : Type 0
      Onwards =
          (q : Process E W)
          → interactive o new_v5 try_parse_from rs q
            ≡ end_of (any quits_loop requests)
                (handle_each o (commands_of try_parse_from requests) q)

      by_result :
          Onwards
          → (q : Option (Process E W))
          → go_on rs (after_command o new_v5 try_parse_from q)
            ≡ end_of (any quits_loop requests) (then_each (commands_of try_parse_from requests) q)
      by_result onwards none = refl
      by_result onwards (some q) = onwards q

      by_request :
          Onwards
          → (x : Request)
          → go_on rs (turn_of x p)
            ≡ end_of
                (any quits_loop (x ∷ requests))
                (handle_each o (commands_of try_parse_from (x ∷ requests)) p)
      by_request onwards nothing = onwards p
      by_request onwards quits = refl
      by_request onwards (runs c) =
          by_result onwards (handle_command o c p)
          ∙ ap (end_of (any quits_loop requests))
              (sym (handle_each_step c (commands_of try_parse_from requests) p))
