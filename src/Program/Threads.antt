-- ===== src/Program/Threads.antt =====
-- The threads of the process beside its commands: those that src/cli/handler.rs starts to retry and
-- to listen, and one for each peer that is served (src/network/client.rs). A step is a command, a
-- pass of a retry thread, a connection that is accepted, or a turn on a connection.
pub mod Files
use rusty_bundle.Prelude.{
  ℕ, String, List, [], ◌∷◌, ◌++◌, Option, none, some, Bool, Bool-cases, true, ◌≡◌, arith, inl, inr,
  if◌then◌else◌, contains, All, All-append, All-split, refl,
}
use mathlib.Core.Path.{subst}
use rusty_bundle.Model.{Uuid, Clock}
use rusty_bundle.Disk.{Serde, SerdeLaws}
use rusty_bundle.Stream.{TcpStream}
use rusty_bundle.Protobuf.{Formats}
use rusty_bundle.Storage.Stable.{IsKeptAt, IsKeptAt-IsStable}
use rusty_bundle.Engine.{RoutingEngine, State}
use rusty_bundle.Engine.Route.{retry_unsynced_bundles}
use rusty_bundle.Engine.Stable.{retry_unsynced_bundles-IsStable}
use rusty_bundle.Client.{Codec, Moment, peer_turn}
use rusty_bundle.Client.Stable.{peer_turn-IsStable}
use rusty_bundle.Cli.{Process, NodeCommands, handle_command, handle_each}
use rusty_bundle.Cli.Engines.{World, directory, opened, closed_at, engine_ops}
use rusty_bundle.Cli.Files.{
  FilesAreKept, EngineFits, closed_at-FilesAreKept, opened-IsKeptAt, kept_file,
}
use rusty_bundle.Program.{new_process}
use rusty_bundle.Program.Endings.{Ends}
use rusty_bundle.Program.Files.{KeepsFiles, handle_each-KeepsFiles, new_process-KeepsFiles}

-- The process, and the connections of peers, each with its clone of the engine.
pub record Host (Text : Type 0) : Type 0 where
  pub process : Process (RoutingEngine Text) (World Text)
  pub connections : List (TcpStream × RoutingEngine Text)

module _ (j : Serde) where
  open j use {Text}

  -- The engine and the network, with the file that is in the engine's directory.
  abbrev pub at_work : RoutingEngine Text → World Text → State Text
  at_work e w = record { engine = opened j e w; net = w.net }

  abbrev pub after_work : RoutingEngine Text → State Text → World Text → World Text
  after_work e st w = closed_at j (directory j e) st.engine (record w { net = st.net })

  -- A pass of the retry thread between `before` and `after`.
  unfoldable pub retry_pass :
      Clock
      → (before after : List (Uuid × RoutingEngine Text)) → Uuid
      → RoutingEngine Text
      → Process (RoutingEngine Text) (World Text)
      → Process (RoutingEngine Text) (World Text)
  retry_pass c before after id e p =
      let st = retry_unsynced_bundles j c (at_work e p.world) in
      record p { retriers = before ++ ((id, st.engine) ∷ after); world = after_work e st p.world }

  -- A turn on the connection between `before` and `after`, which is dropped if the loop ends.
  unfoldable pub connection_turn :
      Formats
      → Codec
      → Moment
      → (before after : List (TcpStream × RoutingEngine Text)) → TcpStream
      → RoutingEngine Text
      → Process (RoutingEngine Text) (World Text)
      → Host Text
  connection_turn f codec m before after stream e p =
      let (goes_on, stream1, st) = peer_turn j f codec m stream (at_work e p.world) in
      record {
        process = record p { world = after_work e st p.world };
        connections = before ++ (if goes_on then (stream1, st.engine) ∷ after else after);
      }

module _ (j : Serde) (f : Formats) (codec : Codec) (parse_str : String → Option Uuid) where
  -- A retry thread passes only while its node is connected to the registry.
  pub data Happens (s : Host j.Text) : Host j.Text → Type 0 where
    commands :
        (c : NodeCommands) (q : Process (RoutingEngine j.Text) (World j.Text))
        → handle_command (engine_ops j parse_str) c s.process ≡ some q
        → Happens s (record s { process = q })
    retries :
        (c : Clock) (before after : List (Uuid × RoutingEngine j.Text)) (id : Uuid)
        → (e : RoutingEngine j.Text) → s.process.retriers ≡ before ++ ((id, e) ∷ after)
        → contains s.process.registry_streams id ≡ true
        → Happens s (record s { process = retry_pass j c before after id e s.process })
    accepts :
        (stream : TcpStream) (before after : List (ℕ × RoutingEngine j.Text)) (port : ℕ)
        → (e : RoutingEngine j.Text) → s.process.listeners ≡ before ++ ((port, e) ∷ after)
        → Happens s (record s { connections = (stream, e) ∷ s.connections })
    turns :
        (m : Moment) (before after : List (TcpStream × RoutingEngine j.Text)) (stream : TcpStream)
        → (e : RoutingEngine j.Text) → s.connections ≡ before ++ ((stream, e) ∷ after)
        → Happens s (connection_turn j f codec m before after stream e s.process)

  pub data Leads (s : Host j.Text) : Host j.Text → Type 0 where
    here : Leads s s
    next : {t u : Host j.Text} → Leads s t → Happens t u → Leads s u
