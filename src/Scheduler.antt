-- ===== src/Scheduler.antt =====
-- ahjoorxmr/src/scheduler: the cron jobs that change groups, and the lock and the retry around each.
pub mod Lock
pub mod Retry
pub mod RoundAdvance
pub mod Statuses
mod Tests
