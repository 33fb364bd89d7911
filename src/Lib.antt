-- ===== src/Lib.antt =====
-- WhatSpace (rusty_bundle): a delay-tolerant bundle network.
--
-- A node keeps bundles in a file. A bundle is a message, an acknowledgement, or a request of the
-- peer protocol. A bundle that arrives is routed: it is delivered here, sent to the connected peers
-- that lack it, or kept until a peer is there. A registry server knows which nodes are connected.
--
-- Which file models what:
--   Model            src/routing/model.rs, src/routing/ack.rs: bundles, kinds, statuses, expiry
--   Disk             load_bundles_from_file and write_bundles of src/storage/storage.rs, over the
--                    file system and the JSON library
--   Storage          StorageLayer of src/storage/storage.rs: the cached vector, the capacity and
--                    the file bundles.json, with one function per method
--   BundleManager    src/routing/bundleManager.rs, src/routing/scf.rs: a node's bundles over the
--                    storage layer, and the dropping of what has expired
--   Engine           src/routing/engine.rs: route_bundle and retry_unsynced_bundles, with their
--                    loops over the peers (Engine/Route holds the two handlers)
--   Protobuf         src/network/protobuf.rs, src/network/bundle.proto: the wire form of bundles
--   Registry         src/network/server.rs: the registry, and the thread of a connection
--                    (Registry/Wire: its messages as bytes)
--   Stream           the TCP streams of the standard library, as bytes to come and bytes sent
--   Client           src/network/client.rs: sending and receiving of frames, summary vectors, and
--                    the loop that serves a peer (Client/Directory: the calls of the registry)
--   Cli              src/cli/handler.rs, src/cli/cli.rs: the commands, the process's statics and the
--                    threads that it starts, over an interface of the engine (EngineOps), which
--                    Cli/Engines implements by Engine over the files of all bundle directories
--   Program          src/main.rs: the modes, the demo nodes and the prompt (Program/Lines: what it
--                    uses of text), and the threads beside its commands (Program/Threads)
--   Journey          a bundle's way over three nodes, through Engine, Protobuf and Client
-- The engine holds a bundle manager, which holds a storage layer; each operation returns its result
-- and the new state of what it holds, and the engine's operations thread the network as well. Each
-- file's children prove what the component promises: Storage/Refinement, BundleManager/Refinement
-- against lists of bundles (Storage/Contents, BundleManager/Contents), the Invariant files that a
-- stored file stays well formed, Storage/Faults what a failure of the file system may do,
-- Storage/Sequences and Storage/Settled what holds along sequences of calls. Samples has concrete
-- values and Tests runs the code on them.
--
-- How the program's state is written:
--   * A `Uuid` is a number. Fresh ones (`new_v4`) are arguments: the engine's `fresh` is the id of
--     the acknowledgement that a delivery may make.
--   * A `Clock` is what `Utc::now()` and `num_seconds` of chrono answer. One reading stands for one
--     pass over the bundles; route_bundle gets a reading for each of its four uses (`Times`).
--     `ttl as i64` wraps around at 2^63, and a port from the wire at 2^16.
--   * JSON and the text form of ids are interfaces (Disk.Serde, Protobuf.Formats); the laws used,
--     that reading what was written gives it back, are the records SerdeLaws and FormatLaws.
--   * The file system answers each access by an outcome in a list: done, or failed with what it
--     left in the temporary file and a message. The list's end means that all goes well from then
--     on. A rename replaces the file or leaves it. `IsReliable` says that no failure comes.
--   * The network (Engine.Net) holds the answers to come: the directories that the registry
--     returns, the peers' summary vectors, and whether a send succeeds. The calls' requests and the
--     log of what was handed to whom are kept beside them. Past the end of a list the
--     answer is a failure or an empty one.
--   * The interleavings of the registry's connections are lists of turns, each by one connection:
--     the lock is held for no longer than one turn. A poisoned lock is a flag.
--   * The threads of a node share its file: Storage/Sections writes each method of the storage layer
--     as the sections that it makes under STORAGE_IO_LOCK, and Storage/Threads lets threads make
--     calls and pass through their sections in any order. Program/Threads lets the process's threads
--     take turns in any order; there and elsewhere a call, a pass or a turn is taken as a whole, as in
--     Storage/Serial.
-- Only handle_peer_to_peer, a loop on what a peer sends, has fuel. Each of its turns takes a byte at
-- least, so one more than there are bytes is enough (Client/Progress). Other loops run over a list.
--
-- The engine's calls of the client are answered by its Net; what the client's functions do on
-- streams is proved beside it, under Client.
--
-- What is kept by every method of the storage layer is kept by all that is built from them
-- (Storage/Stable, BundleManager/Stable, Engine/Stable), and so with the commands (Cli/Sessions) and
-- the runs of the program (Program/Endings).
--
-- Not modelled: the accept loop of `start_server`, the parser that clap derives (a parameter of
-- Program), the code that protobuf generates from bundle.proto, and the printing of messages, which
-- is all that the commands All, Debug and ListPeers do. `StorageLayer::new` is given its directory:
-- that a relative path is taken from CARGO_MANIFEST_DIR, and the panic if the directory cannot be
-- made, are left out. A thread that listens binds its port in the step that starts it. Two processes
-- that use one bundles.json at once are not modelled.
pub mod Prelude
pub mod Model
pub mod Disk
pub mod Storage
pub mod Samples
pub mod BundleManager
pub mod Protobuf
pub mod Registry
pub mod Engine
pub mod Stream
pub mod Client
pub mod Cli
pub mod Journey
pub mod Program
pub mod Tests
