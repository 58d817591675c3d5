-- ===== src/Backup.antt =====
-- packages/backup: which backups go, and what a repository holds of them.
pub mod Periods
pub mod Rules
pub mod Policy
pub mod Prune
pub mod Lock
pub mod Chain
mod Examples
