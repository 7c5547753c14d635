-- ===== src/Core.antt =====
-- libs/core: the deterministic event scheduler.
pub mod Scheduler
