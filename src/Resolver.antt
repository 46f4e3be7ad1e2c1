-- ===== src/Resolver.antt =====
-- The package resolver: the addresses that the balancer is given.
pub mod MinConns
pub mod Rendezvous
pub mod Dns
pub mod Polling
mod Tests
