-- ===== src/Reminders/Retention/PreWork.antt =====
-- The pre-work transaction of henk/reminders/scheduler.py keeps rows, requests and final statuses:
-- grace and the crash bound mark only rows that were selected as pending.
use henk.Base.{
  ℕ, ◌≡◌, refl, inl, inr, Bool, true, false, List, [], ◌∷◌, ◌++◌, arith, leb, ◌&&◌, has, All,
  All-map, All-take, All-of_In, In, Bool-cases,
}
use henk.Reminders.Row.{Status, pending, missed, abandoned, same_status, Reminder}
use henk.Reminders.Table.{by_id, select}
use henk.Reminders.Table.Laws.{All-select, Ascending-unique}
use henk.Reminders.Repository.{
  Db, select_due, select_reportable, select_past_grace, past_grace, charge_attempt, mark_missed,
  mark_abandoned, mark_reported,
}
use henk.Reminders.World.{Config, Plan}
use henk.Reminders.PreWork.{
  grace_pass, charge_due, charge_dues, charge_reportable, charge_reportables, after_grace, pre_work,
  receipt_of,
}
use henk.Reminders.Retention.{final, IsValid, Evolves, Evolves-refl, Evolves-trans, AtId, Marks}
use henk.Reminders.Retention.Writes.{
  quiet-Evolves, quiet-AtId, mark-Evolves, mark-AtId, charge-IsQuiet, report-IsQuiet, missed-IsMark,
  abandoned-IsMark,
}

-- A row of the table whose status is `s`: every row with its id has a status in `Q`.
pub AtId-of_In :
    (Q : Status → Type 0) (x : Reminder) (db : Db)
    → IsValid db
    → In x db.rows
    → Q x.status
    → AtId Q x.id db.rows
AtId-of_In Q x db v m h = Ascending-unique (λ r. Q r.status) 0 x db.rows v.ascending m h

-- The rows that a selection of pending rows returns may be marked with any status.
selected-Marks :
    (s : Status) (p : Reminder → Bool)
    → ((r : Reminder) → p r ≡ true → final r.status ≡ false)
    → (db : Db) → IsValid db
    → All (λ x. AtId (Marks s) x.id db.rows) (select p db.rows)
selected-Marks s p nonfinal db v =
    All-map (λ x. In x db.rows × (p x ≡ true)) (λ x. AtId (Marks s) x.id db.rows) (select p db.rows)
      (λ x h. AtId-of_In (Marks s) x db v h.0 (inl (nonfinal x h.1)))
      (All-select (λ x. In x db.rows) p db.rows (All-of_In (λ x. In x db.rows) db.rows (λ a m. m)))

grace_pass-Evolves :
    (now : ℕ) (rows : List Reminder) (p : Plan)
    → IsValid p.db
    → All (λ x. AtId (Marks missed) x.id p.db.rows) rows
    → Evolves p.db (grace_pass now rows p).db
unfolding grace_pass mark_missed
grace_pass-Evolves now [] p v h = Evolves-refl p.db v
grace_pass-Evolves now (row ∷ rows) p v h =
    let step = mark-Evolves missed _ (missed-IsMark now) row.id p.db v h.0 in
    let db' : Db = mark_missed now row.id p.db in
    let p' : Plan = record p { db = db'; receipts = p.receipts ++ receipt_of row missed ∷ [] } in
    let rest = grace_pass-Evolves now rows p' step.valid (
      All-map (λ x. AtId (Marks missed) x.id p.db.rows) (λ x. AtId (Marks missed) x.id db'.rows)
        rows
        (λ x a. mark-AtId missed _ (missed-IsMark now) row.id (Marks missed) (inr refl) x.id p.db a)
        h.1) in
    Evolves-trans p.db db' (grace_pass now rows p').db step rest

module _ (cfg : Config) (now : ℕ) where
  pub after_grace-Evolves : (db : Db) → IsValid db → Evolves db (after_grace cfg now db).db
  unfolding after_grace select_past_grace
  after_grace-Evolves db v =
      grace_pass-Evolves now (select (past_grace now cfg.late_grace) db.rows)
        (record { db = db; deliveries = []; report = []; receipts = [] }) v
        (selected-Marks missed (past_grace now cfg.late_grace) (λ r e. ground arith) db v)

  charged : ℕ → Db → Db
  charged i db = (charge_attempt i db).1

  charge-Evolves : (i : ℕ) (db : Db) → IsValid db → Evolves db (charged i db)
  unfolding charged charge_attempt
  charge-Evolves i db v = quiet-Evolves (by_id i) _ charge-IsQuiet db v

  charge-AtId :
      (i : ℕ) (Q : Status → Type 0) (j : ℕ) (db : Db)
      → AtId Q j db.rows
      → AtId Q j (charged i db).rows
  unfolding charged charge_attempt
  charge-AtId i Q j db h = quiet-AtId (by_id i) _ charge-IsQuiet Q j db.rows h

  abandon-Evolves :
      (i : ℕ) (db : Db)
      → IsValid db
      → AtId (Marks abandoned) i db.rows
      → Evolves db (mark_abandoned now i db)
  unfolding mark_abandoned
  abandon-Evolves i db v h = mark-Evolves abandoned _ (abandoned-IsMark now) i db v h

  -- One charge of a due row, and what it leaves markable.
  charge_due_step :
      (row : Reminder) (p : Plan)
      → IsValid p.db
      → AtId (Marks abandoned) row.id p.db.rows
      → Evolves p.db (charge_due cfg now row p).db
        × ((j : ℕ)
            → AtId (Marks abandoned) j p.db.rows
            → AtId (Marks abandoned) j (charge_due cfg now row p).db.rows)
  unfolding charge_due
  charge_due_step row p v h =
      let c : Db = charged row.id p.db in
      let step = charge-Evolves row.id p.db v in
      elim (Bool-cases (leb cfg.crash_attempt_limit (charge_attempt row.id p.db).0)) [
        | inl e ↦ rw e (
            unfold charged in
            (
              Evolves-trans p.db c (mark_abandoned now row.id c) step (
                  abandon-Evolves row.id c step.valid
                    (charge-AtId row.id (Marks abandoned) row.id p.db h)),
              λ j a.
                  unfold mark_abandoned in
                  mark-AtId abandoned _ (abandoned-IsMark now) row.id (Marks abandoned) (inr refl) j
                    c (charge-AtId row.id (Marks abandoned) j p.db a),
            ))
        | inr e ↦
            rw e (unfold charged in (step, λ j a. charge-AtId row.id (Marks abandoned) j p.db a))
      ]

  charge_dues-Evolves :
      (rows : List Reminder) (p : Plan)
      → IsValid p.db
      → All (λ x. AtId (Marks abandoned) x.id p.db.rows) rows
      → Evolves p.db (charge_dues cfg now rows p).db
  unfolding charge_dues
  charge_dues-Evolves [] p v h = Evolves-refl p.db v
  charge_dues-Evolves (row ∷ rows) p v h =
      let p' : Plan = charge_due cfg now row p in
      let (step, stays) = charge_due_step row p v h.0 in
      Evolves-trans p.db p'.db (charge_dues cfg now rows p').db step (
        charge_dues-Evolves rows p' step.valid (
          All-map (λ x. AtId (Marks abandoned) x.id p.db.rows)
            (λ x. AtId (Marks abandoned) x.id p'.db.rows) rows (λ x a. stays x.id a) h.1))

  charge_reportable-Evolves :
      (row : Reminder) (p : Plan) → IsValid p.db → Evolves p.db (charge_reportable cfg now row p).db
  unfolding charge_reportable mark_reported
  charge_reportable-Evolves row p v =
      let c : Db = charged row.id p.db in
      let step = charge-Evolves row.id p.db v in
      elim (Bool-cases (leb cfg.crash_attempt_limit (charge_attempt row.id p.db).0)) [
        | inl e ↦ rw e (
            unfold charged in
            Evolves-trans p.db c (mark_reported now (row.id ∷ []) c) step
              (quiet-Evolves (λ r. has r.id (row.id ∷ [])) _ (report-IsQuiet now) c step.valid))
        | inr e ↦ rw e (unfold charged in step)
      ]

  charge_reportables-Evolves :
      (rows : List Reminder) (p : Plan)
      → IsValid p.db
      → Evolves p.db (charge_reportables cfg now rows p).db
  unfolding charge_reportables
  charge_reportables-Evolves [] p v = Evolves-refl p.db v
  charge_reportables-Evolves (row ∷ rows) p v =
      let p' : Plan = charge_reportable cfg now row p in
      let step = charge_reportable-Evolves row p v in
      Evolves-trans p.db p'.db (charge_reportables cfg now rows p').db step
        (charge_reportables-Evolves rows p' step.valid)

  pub pre_work-Evolves : (db : Db) → IsValid db → Evolves db (pre_work cfg now db).db
  unfolding pre_work select_due
  pre_work-Evolves db v =
      let g : Plan = after_grace cfg now db in
      let graced = after_grace-Evolves db v in
      let due : List Reminder = select_due now cfg.tick_delivery_limit g.db in
      let p : Plan = charge_dues cfg now due g in
      let open_due =
        All-take (λ x. AtId (Marks abandoned) x.id g.db.rows) cfg.tick_delivery_limit
          (select
            (λ r. same_status r.status pending && leb r.next_attempt_at now && leb r.due_at now)
            g.db.rows)
          (selected-Marks abandoned
            (λ r. same_status r.status pending && leb r.next_attempt_at now && leb r.due_at now)
            (λ r e. ground arith) g.db graced.valid) in
      let dues = charge_dues-Evolves due g graced.valid open_due in
      let rest = charge_reportables-Evolves (select_reportable now g.db) p dues.valid in
      Evolves-trans db g.db (pre_work cfg now db).db graced
        (Evolves-trans g.db p.db (pre_work cfg now db).db dues rest)
