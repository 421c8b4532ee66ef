-- ===== src/Router.antt =====
-- internal/router: routing rules, the choice of an upstream API key, failover and health probes.
pub mod Types
pub mod Manager
pub mod Publish
pub mod Failover
pub mod Health
