-- ===== src/Reminders/PreWork.antt =====
-- `_pre_work` of henk/reminders/scheduler.py: the grace pass, the two selections against the state
-- after it, the increments and the crash bound.
use henk.Base.{ℕ, none, List, [], ◌∷◌, ◌++◌, leb, if◌then◌else◌}
use henk.Reminders.Row.{Status, missed, abandoned, Reminder}
use henk.Reminders.Repository.{
  Db, select_due, select_reportable, select_past_grace, charge_attempt, mark_missed, mark_abandoned,
  mark_reported,
}
use henk.Reminders.World.{Config, Receipt, Plan}

abbrev pub receipt_of : Reminder → Status → Receipt
receipt_of row to = record {
  reminder_id = row.id;
  due_at = row.due_at;
  transition = to;
  detail = none;
}

-- 1. Grace: every past-grace row becomes missed.
unfoldable pub grace_pass : ℕ → List Reminder → Plan → Plan
unfolding mark_missed
grace_pass now [] p = p
grace_pass now (row ∷ rows) p = grace_pass now rows (record p {
  db = mark_missed now row.id p.db;
  receipts = p.receipts ++ receipt_of row missed ∷ [];
})

-- 3. One selected row: the increment, and the crash bound beside it.
unfoldable pub charge_due : Config → ℕ → Reminder → Plan → Plan
charge_due cfg now row p =
    let (attempts, db') = charge_attempt row.id p.db in
    if leb cfg.crash_attempt_limit attempts
    then record p {
      db = mark_abandoned now row.id db';
      receipts = p.receipts ++ receipt_of row abandoned ∷ [];
      report = p.report ++ (record row { status = abandoned }) ∷ [];
    }
    else record p { db = db'; deliveries = p.deliveries ++ row ∷ [] }

unfoldable pub charge_dues : Config → ℕ → List Reminder → Plan → Plan
charge_dues cfg now [] p = p
charge_dues cfg now (row ∷ rows) p = charge_dues cfg now rows (charge_due cfg now row p)

unfoldable pub charge_reportable : Config → ℕ → Reminder → Plan → Plan
charge_reportable cfg now row p =
    let (attempts, db') = charge_attempt row.id p.db in
    if leb cfg.crash_attempt_limit attempts
    then record p { db = mark_reported now (row.id ∷ []) db' }
    else record p { db = db'; report = p.report ++ row ∷ [] }

unfoldable pub charge_reportables : Config → ℕ → List Reminder → Plan → Plan
charge_reportables cfg now [] p = p
charge_reportables cfg now (row ∷ rows) p =
    charge_reportables cfg now rows (charge_reportable cfg now row p)

-- The state after the grace pass, and the two selections against it.
unfoldable pub after_grace : Config → ℕ → Db → Plan
after_grace cfg now db =
    grace_pass now (select_past_grace now cfg.late_grace db)
      (record { db = db; deliveries = []; report = []; receipts = [] })

-- `_pre_work`
unfoldable pub pre_work : Config → ℕ → Db → Plan
pre_work cfg now db =
    let graced = after_grace cfg now db in
    let due = select_due now cfg.tick_delivery_limit graced.db in
    let reportable = select_reportable now graced.db in
    charge_reportables cfg now reportable (charge_dues cfg now due graced)
