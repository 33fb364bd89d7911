-- ===== src/Tests.antt =====
-- The theorems at concrete inputs, and runs of the code.
mod Stores
mod Routing
mod Peers
mod Streams
mod Commands
mod Threads
mod Journeys
mod Programs
