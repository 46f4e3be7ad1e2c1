-- ===== src/Picker.antt =====
-- The package picker: how a connection is chosen for a request.
pub mod LeastLoaded
pub mod RoundRobin
pub mod PowerOfTwo
mod Tests
