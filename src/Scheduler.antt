-- ===== src/Scheduler.antt =====
-- src/service/scheduler.go: the job scheduler.
pub mod World
pub mod Receipts
pub mod Sync
pub mod Poll
pub mod Kept
pub mod Steps
pub mod Ticker
pub mod Loops
