-- ===== src/Program/Endings.antt =====
-- What the commands keep holds whenever the process of src/main.rs is at its prompt, sleeps or
-- returns.
use rusty_bundle.Prelude.{
  String, List, [], ◌∷◌, map, Option, Option-cases, none, some, Bool, Bool-cases, true, false, ◌≡◌,
  refl, ◌||◌, inl, inr, any,
}
use mathlib.Core.Path.{subst}
use text.Mathlib.Text.{◌==◌ as str_eq}
use rusty_bundle.Model.{Uuid}
use rusty_bundle.Cli.{EngineOps, Process, NodeCommands, handle_command, handle_each}
use rusty_bundle.Program.{
  Run, serves, exits, returns, sleeps, waits, is_start, new_process, interactive, one_shot,
  at_prompt, run_mode, main,
}
use rusty_bundle.Program.Session.{
  request_of, commands_of, quits_loop, end_of, interactive-handle_each,
}

-- The process that is left, if it has not exited.
abbrev pub Ends : {E W : Type 0} → (Process E W → Type 0) → Option (Process E W) → Type 0
Ends P none = Unit
Ends P (some p) = P p

-- The process that a run has come to, if there is one.
abbrev pub RunEnds : {E W : Type 0} → (Process E W → Type 0) → Run E W → Type 0
RunEnds P (serves r) = Unit
RunEnds P exits = Unit
RunEnds P (returns p) = P p
RunEnds P (sleeps p) = P p
RunEnds P (waits p) = P p

module _ {E W : Type 0} (o : EngineOps E W) (new_v5 : Uuid → String → Uuid)
    (try_parse_from : List String → Option NodeCommands) (P : Process E W → Type 0)
    (keeps : (cs : List NodeCommands) (p : Process E W) → P p → Ends P (handle_each o cs p)) where
  end_of-Ends :
      (quit : Bool) (q : Option (Process E W))
      → Ends P q
      → RunEnds P (at_prompt o new_v5 try_parse_from (end_of quit q))
  end_of-Ends true none h = tt
  end_of-Ends false none h = tt
  end_of-Ends true (some p) h = h
  end_of-Ends false (some p) h = h

  interactive-Ends :
      (reads : List (Option String)) (p : Process E W)
      → P p
      → RunEnds P (at_prompt o new_v5 try_parse_from (interactive o new_v5 try_parse_from reads p))
  interactive-Ends reads p h =
      let requests = map (request_of try_parse_from) reads in
      let cs = commands_of try_parse_from requests in
      rw (interactive-handle_each o new_v5 try_parse_from reads p)
        (end_of-Ends (any quits_loop requests) (handle_each o cs p) (keeps cs p h))

  one_shot-Ends :
      (c : Option NodeCommands) (p : Process E W)
      → P p
      → RunEnds P (one_shot o new_v5 try_parse_from c p)
  unfolding one_shot handle_each
  one_shot-Ends none p h = tt
  one_shot-Ends (some c) p h =
      let done = keeps (c ∷ []) p h in
      elim (Option-cases (handle_command o c p)) [
        | inl e ↦ rw (one_shot, e) tt
        | inr (q, e) ↦
            (let ran : handle_each o (c ∷ []) p ≡ some q = rw (handle_each, e) refl in
              let kept : P q = subst (Ends P) ran done in
              rw (one_shot, e)
                (elim (Bool-cases (is_start c)) [ inl x ↦ rw x kept | inr x ↦ rw x kept ]))
      ]

  run_mode-Ends :
      (args : List String) (reads : List (Option String)) (p : Process E W)
      → P p
      → RunEnds P (run_mode o new_v5 try_parse_from args reads p)
  unfolding run_mode
  run_mode-Ends [] reads p h = interactive-Ends reads p h
  run_mode-Ends (program ∷ []) reads p h = interactive-Ends reads p h
  run_mode-Ends (program ∷ first ∷ rest) reads p h =
      elim (Bool-cases (str_eq first "serve" || str_eq first "server")) [
        | inl e ↦ rw e tt
        | inr e ↦ rw e (one_shot-Ends (try_parse_from (program ∷ first ∷ rest)) p h)
      ]

  pub main-Ends :
      (args : List String) (reads : List (Option String)) (w : W)
      → ((ns : Uuid) → P (new_process o new_v5 try_parse_from ns w))
      → RunEnds P (main o new_v5 try_parse_from args reads w)
  unfolding main
  main-Ends args reads w h =
      elim (Option-cases (o.parse_str "6ba7b810-9dad-11d1-80b4-00c04fd430c8")) [
        | inl e ↦ rw (main, e) tt
        | inr (ns, e) ↦
            rw (main, e)
              (run_mode-Ends args reads (new_process o new_v5 try_parse_from ns w) (h ns))
      ]
