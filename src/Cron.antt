-- ===== src/Cron.antt =====
-- cron/cron.go: cron expressions, schedules, and the scheduler.
pub mod Clock
pub mod Expr
pub mod Schedule
pub mod Scheduler
mod Tests
