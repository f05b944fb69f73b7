-- ===== src/Reminders/Row.antt =====
-- The row type of henk/store/reminders.py: the status vocabulary, `Reminder` and `ReminderPage`.
-- An instant is a count of one fixed unit since the epoch (the source has epoch seconds).
use henk.Base.{ℕ, Bool, Option, List, Text, ◌==◌}

pub data Status : Type 0 where
  pending delivered delivered_late missed cancelled abandoned : Status

-- The status as the column stores it: a comparison of statuses is one of these codes.
abbrev pub status_code : Status → ℕ
status_code Status.pending = 0
status_code Status.delivered = 1
status_code Status.delivered_late = 2
status_code Status.missed = 3
status_code Status.cancelled = 4
status_code Status.abandoned = 5

abbrev pub same_status : Status → Status → Bool
same_status s t = status_code s == status_code t

pub data Source : Type 0 where
  tool command : Source

pub record Reminder : Type 0 where
  pub id : ℕ
  pub text : Text
  pub due_at : ℕ
  pub due_tz : Text
  pub input_spec : Text
  pub created_at : ℕ
  pub source : Source
  pub status : Status
  pub next_attempt_at : ℕ
  pub send_attempts : ℕ
  pub delivered_at : Option ℕ
  pub surfaced_at : Option ℕ
  pub reported_at : Option ℕ

pub record ReminderPage : Type 0 where
  pub items : List Reminder
  pub remainder : ℕ
