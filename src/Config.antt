-- ===== src/Config.antt =====
-- internal/config: the gateway's configuration.
pub mod Types
pub mod Load
pub mod Valid
pub mod Sample
mod Tests
