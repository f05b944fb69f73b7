-- ===== src/Reminders/Retention/Tick.antt =====
-- A tick of henk/reminders/scheduler.py keeps rows, requests and final statuses, whatever the
-- channel reports and whatever other tasks do while its sends are in flight.
use henk.Base.{
  ℕ, suc, ◌+◌, ◌≡◌, refl, inl, inr, Bool, true, List, [], ◌∷◌, ◌++◌, arith, ltb, if◌then◌else◌,
  Text, has, not, keep, All-map, Bool-cases, Option-cases,
}
use henk.Channel.{SendOutcome}
use henk.Reminders.Row.{Status, pending, delivered, delivered_late, same_status, Reminder}
use henk.Reminders.Table.{by_id, find_id, order_by_due, ids_of}
use henk.Reminders.Table.Laws.{find_id-some}
use henk.Reminders.Repository.{Db, status_of, mark_delivered, schedule_retry, mark_reported}
use henk.Reminders.World.{Config, other_tasks, Suspension, Receipt, Message, World, Plan}
use henk.Reminders.PreWork.{pre_work}
use henk.Reminders.Compose.{compose_delivery, notice_for}
use henk.Reminders.Scheduler.{
  record_receipt, record_receipts, send_proactive, settle_delivery, still_pending, retry_all,
  expired_of, settle_report, dispatch, deliver, deliver_all, report, report_if_any, tick,
}
use henk.Reminders.Retention.{IsValid, Evolves, Evolves-refl, Evolves-trans, AtId, Marks}
use henk.Reminders.Retention.Writes.{
  quiet-Evolves, mark-Evolves, retry-IsQuiet, report-IsQuiet, delivered-IsMark,
}
use henk.Reminders.Retention.Tasks.{Open, other_tasks-IsBenign}
use henk.Reminders.Retention.PreWork.{AtId-of_In, pre_work-Evolves}

abbrev late_status : Bool → Status
late_status late = if late then delivered_late else delivered

retry-Evolves : (at i : ℕ) (db : Db) → IsValid db → Evolves db (schedule_retry at i db)
unfolding schedule_retry
retry-Evolves at i db v = quiet-Evolves (by_id i) _ (retry-IsQuiet at) db v

reported-Evolves :
    (now : ℕ) (ids : List ℕ) (db : Db) → IsValid db → Evolves db (mark_reported now ids db)
unfolding mark_reported
reported-Evolves now ids db v = quiet-Evolves (λ r. has r.id ids) _ (report-IsQuiet now) db v

delivered-Evolves :
    (now : ℕ) (late : Bool) (i : ℕ) (db : Db)
    → IsValid db
    → AtId Open i db.rows
    → Evolves db (mark_delivered now late i db)
unfolding mark_delivered
delivered-Evolves now late i db v h =
    mark-Evolves (late_status late) _ (delivered-IsMark now late) i db v (
      All-map (λ r. r.id ≡ i → Open r.status) (λ r. r.id ≡ i → Marks (late_status late) r.status)
        db.rows (λ r f e. inl (f e)) h)

settle_delivery-Evolves :
    (cfg : Config) (now : ℕ) (row : Reminder) (late : Bool) (outcome : SendOutcome) (w : World)
    → IsValid w.db
    → AtId Open row.id w.db.rows
    → Evolves w.db (settle_delivery cfg now row late outcome w).db
unfolding settle_delivery record_receipt
settle_delivery-Evolves cfg now row late SendOutcome.failed w v h =
    retry-Evolves (now + cfg.retry_floor) row.id w.db v
settle_delivery-Evolves cfg now row late _ w v h = delivered-Evolves now late row.id w.db v h

retry_all-Evolves :
    (at : ℕ) (rows : List Reminder) (db : Db) → IsValid db → Evolves db (retry_all at rows db)
unfolding retry_all
retry_all-Evolves at [] db v = Evolves-refl db v
retry_all-Evolves at (row ∷ rows) db v =
    let step = retry-Evolves at row.id db v in
    let db' : Db = schedule_retry at row.id db in
    Evolves-trans db db' (retry_all at rows db') step (retry_all-Evolves at rows db' step.valid)

settle_report-Evolves :
    (cfg : Config) (now : ℕ) (rows : List Reminder) (outcome : SendOutcome) (db : Db)
    → IsValid db
    → Evolves db (settle_report cfg now rows outcome db)
unfolding settle_report
settle_report-Evolves cfg now rows SendOutcome.delivered db v =
    reported-Evolves now (ids_of rows) db v
settle_report-Evolves cfg now rows outcome db v =
    let ids = ids_of (expired_of cfg now rows outcome) in
    let db' : Db = mark_reported now ids db in
    let step = reported-Evolves now ids db v in
    let retrying : List Reminder = keep (λ row. not (has row.id ids)) rows in
    Evolves-trans db db' (retry_all (now + cfg.retry_floor) retrying db') step
      (retry_all-Evolves (now + cfg.retry_floor) retrying db' step.valid)

-- The pre-send re-read finds a pending row only where every row with that id is open.
still_pending-AtId :
    (i : ℕ) (db : Db) → IsValid db → still_pending (status_of i db) ≡ true → AtId Open i db.rows
unfolding status_of
still_pending-AtId i db v h = elim (Option-cases (find_id i db.rows)) [
  | inl e ↦ absurd (cc (rw (e, status_of) at h))
  | inr (r, e) ↦
      let (m, same) = find_id-some i db.rows r e in
      let h' : same_status r.status pending ≡ true = rw (e, status_of) at h in
      let open_r : Open r.status = ground (arith, h') in
      rw same at (AtId-of_In Open r db v m open_r)
]

receipts_keep_db : (l : List Receipt) (w : World) → (record_receipts l w).db ≡ w.db
unfolding record_receipts
receipts_keep_db [] w = refl
receipts_keep_db (r ∷ l) w = receipts_keep_db l (record_receipt r w)

module _ (cfg : Config) (render : ℕ → Text) (wire : ℕ → Suspension) (now : ℕ) where
  dispatch-Evolves :
      (row : Reminder) (w : World)
      → IsValid w.db
      → AtId Open row.id w.db.rows
      → Evolves w.db (dispatch cfg render wire now row w).db
  unfolding dispatch send_proactive
  dispatch-Evolves row w v h =
      let s : Suspension = wire w.sends in
      let late = ltb (row.due_at + cfg.late_delivery_threshold) now in
      let benign = other_tasks-IsBenign cfg s.meanwhile w.db v in
      let w' : World = record w {
        db = other_tasks cfg s.meanwhile w.db;
        sent =
            w.sent
            ++ Message.delivery row late (compose_delivery render row late) (notice_for render row)
              ∷ [];
        sends = suc w.sends;
      } in
      Evolves-trans w.db w'.db (settle_delivery cfg now row late s.outcome w').db benign.evolves (
        settle_delivery-Evolves cfg now row late s.outcome w' benign.evolves.valid
          (benign.stays_open row.id h))

  deliver-Evolves :
      (row : Reminder) (w : World)
      → IsValid w.db
      → Evolves w.db (deliver cfg render wire now row w).db
  unfolding deliver
  deliver-Evolves row w v = elim (Bool-cases (still_pending (status_of row.id w.db))) [
    | inl e ↦ rw e (dispatch-Evolves row w v (still_pending-AtId row.id w.db v e))
    | inr e ↦ rw e (Evolves-refl w.db v)
  ]

  deliver_all-Evolves :
      (rows : List Reminder) (w : World)
      → IsValid w.db
      → Evolves w.db (deliver_all cfg render wire now rows w).db
  unfolding deliver_all
  deliver_all-Evolves [] w v = Evolves-refl w.db v
  deliver_all-Evolves (row ∷ rows) w v =
      let w' : World = deliver cfg render wire now row w in
      let step = deliver-Evolves row w v in
      Evolves-trans w.db w'.db (deliver_all cfg render wire now rows w').db step
        (deliver_all-Evolves rows w' step.valid)

  report_if_any-Evolves :
      (rows : List Reminder) (w : World)
      → IsValid w.db
      → Evolves w.db (report_if_any cfg render wire now rows w).db
  unfolding report_if_any report send_proactive
  report_if_any-Evolves [] w v = Evolves-refl w.db v
  report_if_any-Evolves (row ∷ rows) w v =
      let s : Suspension = wire w.sends in
      let benign = other_tasks-IsBenign cfg s.meanwhile w.db v in
      let db' : Db = other_tasks cfg s.meanwhile w.db in
      let ordered = order_by_due (row ∷ rows) in
      Evolves-trans w.db db' (settle_report cfg now ordered s.outcome db') benign.evolves
        (settle_report-Evolves cfg now ordered s.outcome db' benign.evolves.valid)

  -- From a valid table, a tick deletes no row, rewrites no column of a request, leaves every final
  -- status (delivered, delivered late, missed, abandoned) as it is, and leaves a valid table: for
  -- every outcome of its sends and every scheduling, cancelling, reinstating and surfacing that
  -- other tasks do while a send is in flight.
  pub tick-Evolves : (w : World) → IsValid w.db → Evolves w.db (tick cfg render wire now w).db
  unfolding tick
  tick-Evolves w v =
      let plan : Plan = pre_work cfg now w.db in
      let first = pre_work-Evolves cfg now w.db v in
      let w₁ : World = record_receipts plan.receipts (record w { db = plan.db }) in
      let same : w₁.db ≡ plan.db = receipts_keep_db plan.receipts (record w { db = plan.db }) in
      let v₁ : IsValid w₁.db = rw same first.valid in
      let w₂ : World = deliver_all cfg render wire now plan.deliveries w₁ in
      let second = deliver_all-Evolves plan.deliveries w₁ v₁ in
      let third = report_if_any-Evolves plan.report w₂ second.valid in
      let first' : Evolves w.db w₁.db = rw same first in
      Evolves-trans w.db w₁.db (report_if_any cfg render wire now plan.report w₂).db first' (
        Evolves-trans w₁.db w₂.db (report_if_any cfg render wire now plan.report w₂).db second
          third)
