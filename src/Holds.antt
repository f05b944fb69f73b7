-- ===== src/Holds.antt =====
-- Held events of maintenance windows: the rows of henk/store/holds.py (here), its repository
-- (Table), the grouping of a release (Groups) and the ledger (Ledger) of henk/events/holds.py, and
-- the release of henk/events/release.py (Release).
pub mod Table
pub mod Groups
pub mod Ledger
mod Examples
use henk.Base.{ℕ, Option, Text}
use henk.Events.{EventState}

pub record HoldWindow : Type 0 where
  pub window_id : Text
  pub title : Text
  pub start : ℕ
  pub end : ℕ
  pub released_at : Option ℕ

pub record HeldEvent : Type 0 where
  pub event_id : Text
  pub window_id : Text
  pub identity_key : Text
  pub state : EventState
  pub title : Text
  pub message : Text
  pub raw_json : Text
  pub published_at : ℕ
  pub arrival_time : ℕ
  pub held_at : ℕ

-- A maintenance window as the calendar knows it.
pub record MaintenanceWindow : Type 0 where
  pub id : Text
  pub title : Text
  pub start : ℕ
  pub end : ℕ
