-- ===== src/Adapter.antt =====
-- internal/adapter: the translation between OpenAI's API and those of the upstream services.
pub mod Types
pub mod Errors
pub mod Cursor
pub mod Antigravity
pub mod Kiro
pub mod Factory
mod Tests
