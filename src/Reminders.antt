-- ===== src/Reminders.antt =====
-- Reminders: the repository over the `reminders` table (henk/store/reminders.py) and the polling
-- scheduler that delivers them (henk/reminders/scheduler.py).
pub mod Row
pub mod Table
pub mod Repository
pub mod World
pub mod PreWork
pub mod Compose
pub mod Selection
pub mod Scheduler
pub mod Retention
pub mod Induction
pub mod Cap
pub mod Grace
pub mod Promptness
pub mod Summary
mod Examples
