-- ===== src/Quota.antt =====
-- internal/quota: the token quotas of users, apps and models.
pub mod Types
pub mod Redis
pub mod Manager
pub mod Increments
pub mod Budget
pub mod Reserve
pub mod Settle
pub mod Refuse
mod Tests
