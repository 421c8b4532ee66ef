-- ===== src/Handler.antt =====
-- internal/handler: the handlers of the gateway's HTTP API.
pub mod Gateway
pub mod Upstream
pub mod Chat
pub mod Wired
pub mod Replays
