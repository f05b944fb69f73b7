-- ===== src/Reminders/Scheduler.antt =====
-- `ReminderScheduler` of henk/reminders/scheduler.py: the sends of one tick and their post-send
-- writes. A failure inside a tick, and the loop that logs it and ticks again, are not modelled.
use henk.Base.{
  ℕ, suc, ◌+◌, Bool, false, Option, none, some, List, [], ◌∷◌, ◌++◌, Text, codes, ltb,
  if◌then◌else◌, has, keep, not,
}
use henk.Channel.{SendOutcome}
use henk.Reminders.Row.{Status, pending, delivered, delivered_late, same_status, Reminder}
use henk.Reminders.Table.{order_by_due, ids_of}
use henk.Reminders.Repository.{Db, status_of, mark_delivered, schedule_retry, mark_reported}
use henk.Reminders.World.{Config, other_tasks, Suspension, Receipt, Message, World}
use henk.Reminders.PreWork.{pre_work}
use henk.Reminders.Compose.{compose_delivery, notice_for, compose_summary}

-- `_receipt`
unfoldable pub record_receipt : Receipt → World → World
record_receipt r w = record w {
  receipts = elim w.receipts [ none ↦ none | some rs ↦ some (rs ++ r ∷ []) ];
}

unfoldable pub record_receipts : List Receipt → World → World
unfolding record_receipt
record_receipts [] w = w
record_receipts (r ∷ rs) w = record_receipts rs (record_receipt r w)

-- `send_proactive`: the message goes to the channel, and the other tasks run before it returns.
unfoldable pub send_proactive : Config → (ℕ → Suspension) → Message → World → SendOutcome × World
send_proactive cfg wire m w =
    let s = wire w.sends in
    (
      s.outcome,
      record w {
        db = other_tasks cfg s.meanwhile w.db;
        sent = w.sent ++ m ∷ [];
        sends = suc w.sends;
      },
    )

-- The post-send write of one delivery, and its receipt.
unfoldable pub settle_delivery : Config → ℕ → Reminder → Bool → SendOutcome → World → World
settle_delivery cfg now row late SendOutcome.failed w = record w {
  db = schedule_retry (now + cfg.retry_floor) row.id w.db;
}
settle_delivery cfg now row late outcome w =
    record_receipt
      (record {
        reminder_id = row.id;
        due_at = row.due_at;
        transition = if late then delivered_late else delivered;
        detail = elim outcome [ SendOutcome.partial ↦ some (codes "partial") | _ ↦ none ];
      })
      (record w { db = mark_delivered now late row.id w.db })

abbrev pub still_pending : Option Status → Bool
still_pending none = false
still_pending (some s) = same_status s pending

-- `_report`'s post-send writes, of the rows in the order of the summary
unfoldable pub retry_all : ℕ → List Reminder → Db → Db
retry_all at [] db = db
retry_all at (row ∷ rows) db = retry_all at rows (schedule_retry at row.id db)

-- Past the report horizon at `now`
abbrev pub past_horizon : Config → ℕ → Reminder → Bool
past_horizon cfg now row = ltb (row.due_at + (cfg.late_grace + cfg.report_horizon)) now

-- The rows that a partial summary gives up on.
unfoldable pub expired_of : Config → ℕ → List Reminder → SendOutcome → List Reminder
unfolding keep
expired_of cfg now rows SendOutcome.partial = keep (past_horizon cfg now) rows
expired_of cfg now rows outcome = []

unfoldable pub settle_report : Config → ℕ → List Reminder → SendOutcome → Db → Db
settle_report cfg now rows SendOutcome.delivered db = mark_reported now (ids_of rows) db
settle_report cfg now rows outcome db =
    let expired = expired_of cfg now rows outcome in
    let retrying = keep (λ row. not (has row.id (ids_of expired))) rows in
    retry_all (now + cfg.retry_floor) retrying (mark_reported now (ids_of expired) db)

module _ (cfg : Config) (render : ℕ → Text) (wire : ℕ → Suspension) (now : ℕ) where
  -- The dispatch of `_deliver`, after the pre-send re-read.
  unfoldable pub dispatch : Reminder → World → World
  dispatch row w =
      let late = ltb (row.due_at + cfg.late_delivery_threshold) now in
      let (outcome, w') =
        send_proactive cfg wire
          (Message.delivery row late (compose_delivery render row late) (notice_for render row))
          w in
      settle_delivery cfg now row late outcome w'

  -- `_deliver`
  unfoldable pub deliver : Reminder → World → World
  deliver row w = if still_pending (status_of row.id w.db) then dispatch row w else w

  unfoldable pub deliver_all : List Reminder → World → World
  deliver_all [] w = w
  deliver_all (row ∷ rows) w = deliver_all rows (deliver row w)

  -- `_report`
  unfoldable pub report : List Reminder → World → World
  report rows w =
      let ordered = order_by_due rows in
      let (outcome, w') =
        send_proactive cfg wire (Message.summary ordered (compose_summary render ordered)) w in
      record w' { db = settle_report cfg now ordered outcome w'.db }

  -- `if plan.report:`
  unfoldable pub report_if_any : List Reminder → World → World
  report_if_any [] w = w
  report_if_any (row ∷ rows) w = report (row ∷ rows) w

  -- `tick`, at the instant `now` that it read
  unfoldable pub tick : World → World
  tick w =
      let plan = pre_work cfg now w.db in
      let committed = record_receipts plan.receipts (record w { db = plan.db }) in
      report_if_any plan.report (deliver_all plan.deliveries committed)
