-- ===== src/Math.antt =====
-- src/math: memory, and the matrix operations.
pub mod Pool
pub mod Memory
pub mod Storage
pub mod Number
pub mod Matrix
pub mod Vector
