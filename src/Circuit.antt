-- ===== src/Circuit.antt =====
-- Package circuit: the failure sampler, the breaker settings, the breakers and their registry.
pub mod Sampler
pub mod Settings
pub mod Breaker
pub mod Registry
mod Tests
