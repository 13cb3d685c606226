-- ===== src/Tests.antt =====
-- The theorems of the library at concrete inputs, and runs of the model.
pub mod Memory
pub mod Threads
pub mod Conditions
pub mod Sockets
pub mod Text
pub mod Matrices
pub mod CommandLine
pub mod Start
pub mod Servers
pub mod Calls
pub mod Conversations
pub mod Traces
