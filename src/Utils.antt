-- ===== src/Utils.antt =====
-- src/utils: logging, string helpers, flags, start-up.
pub mod Logging
pub mod Str
pub mod StackTrace
pub mod Flags
pub mod Init
pub mod Version
