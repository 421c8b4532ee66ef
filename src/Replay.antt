-- ===== src/Replay.antt =====
-- internal/replay: the records of past requests and their replay.
pub mod Types
pub mod Similarity
pub mod Service
pub mod Run
pub mod Report
pub mod Collector
mod Tests
