-- ===== src/Core.antt =====
-- src/core: threads, sockets and servers.
pub mod Queue
pub mod Thread
pub mod Worker
pub mod Condition
pub mod Channel
pub mod Message
pub mod ParameterServer
pub mod Proto
pub mod Server
pub mod ServerMain
pub mod ThreadLocal
