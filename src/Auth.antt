-- ===== src/Auth.antt =====
-- internal/auth: the API keys of the gateway's own users.
pub mod Keys
pub mod Sound
pub mod Issue
pub mod Tests
