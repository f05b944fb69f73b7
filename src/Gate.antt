-- ===== src/Gate.antt =====
-- The authorization gate of henk/gate/approval.py.
pub mod State
pub mod Reply
pub mod Authorize
pub mod Permission
pub mod Conforms
pub mod FirstAnswer
pub mod Decision
pub mod Policy
pub mod Taint
pub mod Receipts
mod Examples
