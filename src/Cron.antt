-- ===== src/Cron.antt =====
-- server/internal/cron/cron.go: cron expressions of five fields, and the next time of a schedule.
pub mod Fields
pub mod Schedule
mod Examples
