-- ===== src/Reminders/World.antt =====
-- The state around one tick of henk/reminders/scheduler.py: the configuration, what other tasks do
-- to the repository while a send is in flight, receipts, messages, and the plan of a tick.
-- A send suspends the scheduler. What happens then is a parameter: for each send, a `Suspension`
-- gives the calls of the repository that other tasks make meanwhile and the outcome observed.
use henk.Base.{ℕ, Bool, Option, List, [], ◌∷◌, Text}
use henk.Channel.{SendOutcome}
use henk.Reminders.Row.{Status, Reminder}
use henk.Reminders.Repository.{Db, Limits, Request, schedule, cancel, reinstate, mark_surfaced}

-- `RemindersConfig`, the keys that a tick reads.
pub record Config : Type 0 where
  pub limits : Limits
  pub retry_floor : ℕ
  pub crash_attempt_limit : ℕ
  pub late_grace : ℕ
  pub late_delivery_threshold : ℕ
  pub tick_delivery_limit : ℕ
  pub report_horizon : ℕ

-- The calls of the repository that other tasks make while a send is in flight.
pub data OtherTask : Type 0 where
  schedules : ℕ → Request → OtherTask
  cancels : ℕ → OtherTask
  reinstates : ℕ → OtherTask
  surfaces : ℕ → List ℕ → OtherTask

unfoldable pub other_task : Config → OtherTask → Db → Db
other_task cfg (OtherTask.schedules now q) db = (schedule cfg.limits now q db).1
other_task cfg (OtherTask.cancels i) db = (cancel cfg.limits i db).1
other_task cfg (OtherTask.reinstates i) db = (reinstate cfg.limits i db).1
other_task cfg (OtherTask.surfaces now ids) db = mark_surfaced now ids db

unfoldable pub other_tasks : Config → List OtherTask → Db → Db
other_tasks cfg [] db = db
other_tasks cfg (a ∷ as') db = other_tasks cfg as' (other_task cfg a db)

pub record Suspension : Type 0 where
  pub meanwhile : List OtherTask
  pub outcome : SendOutcome

-- One call of the receipts' `record`, which the scheduler initiates.
pub record Receipt : Type 0 where
  pub reminder_id : ℕ
  pub due_at : ℕ
  pub transition : Status
  pub detail : Option Text

-- What `send_proactive` was given, with the rows that the message is about.
pub data Message : Type 0 where
  delivery : Reminder → Bool → Text → Option Text → Message
  summary : List Reminder → Text → Message

-- The state a tick works on: the database, the messages handed to the channel, the number of the
-- next send, and the receipts (`none` where no recorder is configured).
pub record World : Type 0 where
  pub db : Db
  pub sent : List Message
  pub sends : ℕ
  pub receipts : Option (List Receipt)

-- `_Tick`, and the transaction's state while it is computed.
pub record Plan : Type 0 where
  pub db : Db
  pub deliveries : List Reminder
  pub report : List Reminder
  pub receipts : List Receipt
