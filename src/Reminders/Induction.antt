-- ===== src/Reminders/Induction.antt =====
-- An invariant of the reminders table that each repository call of henk/reminders/scheduler.py
-- keeps is kept by a tick.
use henk.Base.{ℕ, ◌+◌, ◌≡◌, refl, inl, inr, Bool, List, [], ◌∷◌, leb, Text, Bool-cases}
use henk.Channel.{SendOutcome}
use henk.Reminders.Row.{Reminder}
use henk.Reminders.Repository.{
  Db, status_of, charge_attempt, mark_delivered, schedule_retry, mark_missed, mark_abandoned,
  mark_reported,
}
use henk.Reminders.World.{
  Config, OtherTask, other_task, other_tasks, Suspension, Receipt, World, Plan,
}
use henk.Reminders.PreWork.{
  grace_pass, charge_due, charge_dues, charge_reportable, charge_reportables, after_grace, pre_work,
}
use henk.Reminders.Scheduler.{
  record_receipt, record_receipts, send_proactive, settle_delivery, still_pending, retry_all,
  settle_report, dispatch, deliver, deliver_all, report, report_if_any, tick,
}

-- Every call keeps `P`, of any row and at any instant.
pub record IsStable (cfg : Config) (P : Db → Type 0) : Type 0 where
  pub charge : (i : ℕ) (db : Db) → P db → P (charge_attempt i db).1
  pub miss : (now i : ℕ) (db : Db) → P db → P (mark_missed now i db)
  pub abandon : (now i : ℕ) (db : Db) → P db → P (mark_abandoned now i db)
  pub deliver : (now : ℕ) (late : Bool) (i : ℕ) (db : Db) → P db → P (mark_delivered now late i db)
  pub retry : (at i : ℕ) (db : Db) → P db → P (schedule_retry at i db)
  pub report : (now : ℕ) (ids : List ℕ) (db : Db) → P db → P (mark_reported now ids db)
  pub other : (a : OtherTask) (db : Db) → P db → P (other_task cfg a db)

pub receipts_keep : (l : List Receipt) (w : World) → (record_receipts l w).db ≡ w.db
unfolding record_receipts
receipts_keep [] w = refl
receipts_keep (r ∷ l) w = receipts_keep l (record_receipt r w)

module _ (cfg : Config) (P : Db → Type 0) (s : IsStable cfg P) where
  others_keep : (l : List OtherTask) (db : Db) → P db → P (other_tasks cfg l db)
  unfolding other_tasks
  others_keep [] db h = h
  others_keep (a ∷ l) db h = others_keep l (other_task cfg a db) (s.other a db h)

  grace_keeps : (now : ℕ) (rows : List Reminder) (p : Plan) → P p.db → P (grace_pass now rows p).db
  unfolding grace_pass
  grace_keeps now [] p h = h
  grace_keeps now (row ∷ rows) p h = grace_keeps now rows _ (s.miss now row.id p.db h)

  due_keeps : (now : ℕ) (row : Reminder) (p : Plan) → P p.db → P (charge_due cfg now row p).db
  unfolding charge_due
  due_keeps now row p h =
      let h' = s.charge row.id p.db h in
      elim (Bool-cases (leb cfg.crash_attempt_limit (charge_attempt row.id p.db).0)) [
        | inl e ↦ rw e (s.abandon now row.id (charge_attempt row.id p.db).1 h')
        | inr e ↦ rw e h'
      ]

  dues_keep :
      (now : ℕ) (rows : List Reminder) (p : Plan) → P p.db → P (charge_dues cfg now rows p).db
  unfolding charge_dues
  dues_keep now [] p h = h
  dues_keep now (row ∷ rows) p h =
      dues_keep now rows (charge_due cfg now row p) (due_keeps now row p h)

  reportable_keeps :
      (now : ℕ) (row : Reminder) (p : Plan) → P p.db → P (charge_reportable cfg now row p).db
  unfolding charge_reportable
  reportable_keeps now row p h =
      let h' = s.charge row.id p.db h in
      elim (Bool-cases (leb cfg.crash_attempt_limit (charge_attempt row.id p.db).0)) [
        | inl e ↦ rw e (s.report now (row.id ∷ []) (charge_attempt row.id p.db).1 h')
        | inr e ↦ rw e h'
      ]

  reportables_keep :
      (now : ℕ) (rows : List Reminder) (p : Plan)
      → P p.db
      → P (charge_reportables cfg now rows p).db
  unfolding charge_reportables
  reportables_keep now [] p h = h
  reportables_keep now (row ∷ rows) p h =
      reportables_keep now rows (charge_reportable cfg now row p) (reportable_keeps now row p h)

  pre_work_keeps : (now : ℕ) (db : Db) → P db → P (pre_work cfg now db).db
  unfolding pre_work after_grace
  pre_work_keeps now db h = reportables_keep now _ _ (dues_keep now _ _ (grace_keeps now _ _ h))

  settle_keeps :
      (now : ℕ) (row : Reminder) (late : Bool) (o : SendOutcome) (w : World)
      → P w.db
      → P (settle_delivery cfg now row late o w).db
  unfolding settle_delivery record_receipt
  settle_keeps now row late SendOutcome.failed w h = s.retry (now + cfg.retry_floor) row.id w.db h
  settle_keeps now row late _ w h = s.deliver now late row.id w.db h

  retry_all_keeps : (at : ℕ) (rows : List Reminder) (db : Db) → P db → P (retry_all at rows db)
  unfolding retry_all
  retry_all_keeps at [] db h = h
  retry_all_keeps at (row ∷ rows) db h =
      retry_all_keeps at rows (schedule_retry at row.id db) (s.retry at row.id db h)

  settle_report_keeps :
      (now : ℕ) (rows : List Reminder) (o : SendOutcome) (db : Db)
      → P db
      → P (settle_report cfg now rows o db)
  unfolding settle_report
  settle_report_keeps now rows SendOutcome.delivered db h = s.report now _ db h
  settle_report_keeps now rows _ db h = retry_all_keeps _ _ _ (s.report now _ db h)

  module _ (render : ℕ → Text) (wire : ℕ → Suspension) (now : ℕ) where
    deliver_keeps : (row : Reminder) (w : World) → P w.db → P (deliver cfg render wire now row w).db
    unfolding deliver dispatch send_proactive
    deliver_keeps row w h = elim (Bool-cases (still_pending (status_of row.id w.db))) [
      | inl e ↦ rw e (settle_keeps now row _ (wire w.sends).outcome _ (others_keep _ w.db h))
      | inr e ↦ rw e h
    ]

    deliver_all_keeps :
        (rows : List Reminder) (w : World) → P w.db → P (deliver_all cfg render wire now rows w).db
    unfolding deliver_all
    deliver_all_keeps [] w h = h
    deliver_all_keeps (row ∷ rows) w h =
        deliver_all_keeps rows (deliver cfg render wire now row w) (deliver_keeps row w h)

    report_keeps :
        (rows : List Reminder) (w : World)
        → P w.db
        → P (report_if_any cfg render wire now rows w).db
    unfolding report_if_any report send_proactive
    report_keeps [] w h = h
    report_keeps (row ∷ rows) w h = settle_report_keeps now _ _ _ (others_keep _ w.db h)

    pub tick_keeps : (w : World) → P w.db → P (tick cfg render wire now w).db
    unfolding tick
    tick_keeps w h =
        let plan : Plan = pre_work cfg now w.db in
        report_keeps plan.report _ (
          deliver_all_keeps plan.deliveries _ (
            rw (receipts_keep plan.receipts (record w { db = plan.db }))
              (pre_work_keeps now w.db h)))
