-- ===== src/Retention.antt =====
-- Retention (server/internal/backup/retention/service.go): the calendar, the selection policies and
-- the cleanup run.
pub mod Calendar
pub mod Select
pub mod Cleanup
