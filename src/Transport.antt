-- ===== src/Transport.antt =====
-- src/transport: the data plane between two ranks.
pub mod Shm
pub mod Tcp
