-- ===== src/Transport.antt =====
-- transport.go: the leaf connection, and the connections of a pool.
pub mod Connection
pub mod Pool
pub mod Target
pub mod Timeout
pub mod Request
pub mod Main
