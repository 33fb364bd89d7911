-- ===== src/Program/Threads/Files.antt =====
-- The bundle files, whatever the threads of the process do.
use rusty_bundle.Prelude.{
  String, List, [], ◌∷◌, ◌++◌, Option, some, Bool-cases, ◌≡◌, inl, inr, if◌then◌else◌, All,
  All-append, All-split, refl,
}
use mathlib.Core.Path.{subst}
use rusty_bundle.Model.{Uuid, Clock}
use rusty_bundle.Disk.{Serde, SerdeLaws}
use rusty_bundle.Stream.{TcpStream}
use rusty_bundle.Protobuf.{Formats}
use rusty_bundle.Storage.Stable.{IsKeptAt, IsKeptAt-IsStable}
use rusty_bundle.Engine.{RoutingEngine, State}
use rusty_bundle.Engine.Route.{retry_unsynced_bundles}
use rusty_bundle.Engine.Stable.{retry_unsynced_bundles-IsStable}
use rusty_bundle.Client.{Codec, Moment, peer_turn}
use rusty_bundle.Client.Stable.{peer_turn-IsStable}
use rusty_bundle.Cli.{Process, NodeCommands, handle_command, handle_each}
use rusty_bundle.Cli.Engines.{World, directory, engine_ops}
use rusty_bundle.Cli.Files.{
  FilesAreKept, EngineFits, closed_at-FilesAreKept, opened-IsKeptAt, kept_file,
}
use rusty_bundle.Program.{new_process}
use rusty_bundle.Program.Endings.{Ends}
use rusty_bundle.Program.Files.{KeepsFiles, handle_each-KeepsFiles, new_process-KeepsFiles}
use rusty_bundle.Program.Threads.{
  Host, at_work, after_work, retry_pass, connection_turn, Happens, commands, retries, accepts,
  turns, Leads, here, next,
}

-- The files are well formed, and all engines, those of the connections too, keep them so.
pub record HostKeepsFiles (j : Serde) (s : Host j.Text) : Type 0 where
  pub of_process : KeepsFiles j s.process
  pub of_connections : All (λ t. EngineFits j t.1) s.connections

module _ (j : Serde) (laws : SerdeLaws j) where
  abbrev AtWork : State j.Text → Type 0
  AtWork st = IsKeptAt j laws 100 st.bundle_manager.storage

  after_work-FilesAreKept :
      (e : RoutingEngine j.Text) (st : State j.Text) (w : World j.Text)
      → AtWork st
      → FilesAreKept j w
      → FilesAreKept j (after_work j e st w)
  after_work-FilesAreKept e st w k h =
      closed_at-FilesAreKept j (directory j e) st.engine w
        (kept_file j laws st.bundle_manager.storage k) h

  -- The engine of one thread among those of others.
  one_of :
      {A : Type 0} (before after : List (A × RoutingEngine j.Text)) (a : A)
      (e : RoutingEngine j.Text)
      → (l : List (A × RoutingEngine j.Text)) → l ≡ before ++ ((a, e) ∷ after)
      → All (λ t. EngineFits j t.1) l
      → All (λ t. EngineFits j t.1) before × EngineFits j e × All (λ t. EngineFits j t.1) after
  one_of before after a e l p h =
      let (hb, (he, ha)) =
        All-split (λ t. EngineFits j t.1) before ((a, e) ∷ after)
          (subst (All (λ t. EngineFits j t.1)) p h) in
      (hb, he, ha)

  retry_pass-KeepsFiles :
      (c : Clock) (before after : List (Uuid × RoutingEngine j.Text)) (id : Uuid)
      → (e : RoutingEngine j.Text) (p : Process (RoutingEngine j.Text) (World j.Text))
      → p.retriers ≡ before ++ ((id, e) ∷ after)
      → KeepsFiles j p
      → KeepsFiles j (retry_pass j c before after id e p)
  unfolding retry_pass
  retry_pass-KeepsFiles c before after id e p there h =
      let (hb, he, ha) = one_of before after id e p.retriers there h.retriers in
      let st = retry_unsynced_bundles j c (at_work j e p.world) in
      let k : AtWork st =
        retry_unsynced_bundles-IsStable j (IsKeptAt j laws 100) (IsKeptAt-IsStable j laws 100) c
          (at_work j e p.world) (opened-IsKeptAt j laws e p.world he h.files) in
      record {
        engines = h.engines;
        listeners = h.listeners;
        retriers =
            All-append (λ t. EngineFits j t.1) before ((id, st.engine) ∷ after) hb (k.limit, ha);
        files = after_work-FilesAreKept e st p.world k h.files;
      }

  module _ (f : Formats) (codec : Codec) where
    connection_turn-HostKeepsFiles :
        (m : Moment) (before after : List (TcpStream × RoutingEngine j.Text)) (stream : TcpStream)
        → (e : RoutingEngine j.Text) (s : Host j.Text)
        → s.connections ≡ before ++ ((stream, e) ∷ after)
        → HostKeepsFiles j s
        → HostKeepsFiles j (connection_turn j f codec m before after stream e s.process)
    unfolding connection_turn
    connection_turn-HostKeepsFiles m before after stream e s there h =
        let p = s.process in
        let (hb, he, ha) = one_of before after stream e s.connections there h.of_connections in
        let (goes_on, stream1, st) = peer_turn j f codec m stream (at_work j e p.world) in
        let k : AtWork st =
          peer_turn-IsStable j (IsKeptAt j laws 100) (IsKeptAt-IsStable j laws 100) f codec m stream
            (at_work j e p.world) (opened-IsKeptAt j laws e p.world he h.of_process.files) in
        let left : All (λ t. EngineFits j t.1)
            (if goes_on then (stream1, st.engine) ∷ after else after) =
          elim (Bool-cases goes_on) [ inl x ↦ rw x (k.limit, ha) | inr x ↦ rw x ha ] in
        record {
          of_process = record {
            engines = h.of_process.engines;
            listeners = h.of_process.listeners;
            retriers = h.of_process.retriers;
            files = after_work-FilesAreKept e st p.world k h.of_process.files;
          };
          of_connections = All-append (λ t. EngineFits j t.1) before _ hb left;
        }

    module _ (parse_str : String → Option Uuid) where
      command-KeepsFiles :
          (c : NodeCommands) (p q : Process (RoutingEngine j.Text) (World j.Text))
          → handle_command (engine_ops j parse_str) c p ≡ some q
          → KeepsFiles j p
          → KeepsFiles j q
      unfolding handle_each
      command-KeepsFiles c p q e h =
          let ran : handle_each (engine_ops j parse_str) (c ∷ []) p ≡ some q =
            rw (handle_each, e) refl in
          subst (Ends (KeepsFiles j)) ran (handle_each-KeepsFiles j laws parse_str (c ∷ []) p h)

      Happens-HostKeepsFiles :
          {s t : Host j.Text}
          → Happens j f codec parse_str s t
          → HostKeepsFiles j s
          → HostKeepsFiles j t
      Happens-HostKeepsFiles {s} (commands c q e) h = record {
        of_process = command-KeepsFiles c s.process q e h.of_process;
        of_connections = h.of_connections;
      }
      Happens-HostKeepsFiles {s} (retries c before after id e there up) h = record {
        of_process = retry_pass-KeepsFiles c before after id e s.process there h.of_process;
        of_connections = h.of_connections;
      }
      Happens-HostKeepsFiles {s} (accepts stream before after port e there) h = record {
        of_process = h.of_process;
        of_connections = (
          (one_of before after port e s.process.listeners there h.of_process.listeners).1,
          h.of_connections,
        );
      }
      Happens-HostKeepsFiles {s} (turns m before after stream e there) h =
          connection_turn-HostKeepsFiles m before after stream e s there h

      Leads-HostKeepsFiles :
          {s t : Host j.Text}
          → Leads j f codec parse_str s t
          → HostKeepsFiles j s
          → HostKeepsFiles j t
      Leads-HostKeepsFiles here h = h
      Leads-HostKeepsFiles (next l e) h = Happens-HostKeepsFiles e (Leads-HostKeepsFiles l h)

      -- Whatever commands are given, whichever retry threads pass, whichever peers connect and
      -- whatever they send, in any order of these steps, whatever the network answers and whichever
      -- accesses of the file system fail: if the file of every bundle directory has no id twice and at
      -- most 100 bundles when the program starts, then so it is in every state that is reached.
      pub Leads-FilesAreKept :
          (new_v5 : Uuid → String → Uuid) (try_parse_from : List String → Option NodeCommands)
          → (ns : Uuid) (w : World j.Text) {t : Host j.Text} → FilesAreKept j w
          → Leads j f codec parse_str
              (record {
                process = new_process (engine_ops j parse_str) new_v5 try_parse_from ns w;
                connections = [];
              })
              t
          → FilesAreKept j t.process.world
      Leads-FilesAreKept new_v5 try_parse_from ns w h l =
          (Leads-HostKeepsFiles l (record {
            of_process = new_process-KeepsFiles j laws parse_str new_v5 try_parse_from ns w h;
            of_connections = tt;
          })).of_process.files
