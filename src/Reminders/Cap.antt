-- ===== src/Reminders/Cap.antt =====
-- The pending cap of henk/store/reminders.py over the writes of a tick and of other tasks.
use henk.Base.{
  ℕ, ◌≤◌, ◌≡◌, refl, inl, inr, Bool, false, List, [], ◌∷◌, arith, leb, ◌==◌, ◌&&◌, if◌then◌else◌,
  Text, has, tally, Bool-cases,
}
use henk.Store.Content.{Result, ok, err, checked_content}
use henk.Reminders.Row.{pending, cancelled, same_status, Reminder}
use henk.Reminders.Table.{update_where, by_id}
use henk.Reminders.Table.Laws.{
  All-update_where, tally-update_where_le, tally-update_where_add, tally-append, Ascending,
  Ascending-update_where,
}
use henk.Reminders.Repository.{
  Db, Limits, Request, is_pending, count_pending, schedule, schedule_checked, cancel, reinstate,
  set_status, charge_attempt, mark_delivered, schedule_retry, mark_missed, mark_abandoned,
  mark_reported, mark_surfaced,
}
use henk.Reminders.World.{Config, OtherTask, other_task, Suspension, World}
use henk.Reminders.Scheduler.{tick}
use henk.Reminders.Retention.{IsValid}
use henk.Reminders.Retention.Tasks.{schedule-IsBenign, cancel-IsBenign, reinstate-IsBenign}
use henk.Reminders.Induction.{IsStable, tick_keeps}

-- No more pending reminders than the cap, in a table whose ids rise strictly.
pub record IsCapped (lim : Limits) (db : Db) : Type 0 where
  pub valid : IsValid db
  pub capped : count_pending db ≤ lim.max_pending

module _ (lim : Limits) where
  -- An `UPDATE` that keeps ids and makes no row pending.
  update-IsCapped :
      (p : Reminder → Bool) (f : Reminder → Reminder)
      → ((r : Reminder) → (if p r then f r else r).id ≡ r.id)
      → ((r : Reminder) → is_pending r ≡ false → is_pending (if p r then f r else r) ≡ false)
      → (db : Db) → IsCapped lim db
      → IsCapped lim (record db { rows = update_where p f db.rows })
  unfolding count_pending
  update-IsCapped p f same step db c = record {
    valid = record {
      ascending = Ascending-update_where p f same 0 db.rows c.valid.ascending;
      bounded =
          All-update_where p f (λ r. r.id ≤ db.last_id) (λ r. r.id ≤ db.last_id)
            (λ r le. rw (same r) le) db.rows c.valid.bounded;
    };
    capped = omega (arith, c.capped, tally-update_where_le p f is_pending step db.rows);
  }

  charge-IsCapped : (i : ℕ) (db : Db) → IsCapped lim db → IsCapped lim (charge_attempt i db).1
  unfolding charge_attempt
  charge-IsCapped i = update-IsCapped (by_id i) _ (λ r. ground arith) (λ r h. ground arith)

  miss-IsCapped : (now i : ℕ) (db : Db) → IsCapped lim db → IsCapped lim (mark_missed now i db)
  unfolding mark_missed
  miss-IsCapped now i = update-IsCapped (by_id i) _ (λ r. ground arith) (λ r h. ground arith)

  abandon-IsCapped :
      (now i : ℕ) (db : Db) → IsCapped lim db → IsCapped lim (mark_abandoned now i db)
  unfolding mark_abandoned
  abandon-IsCapped now i = update-IsCapped (by_id i) _ (λ r. ground arith) (λ r h. ground arith)

  deliver-IsCapped :
      (now : ℕ) (late : Bool) (i : ℕ) (db : Db)
      → IsCapped lim db
      → IsCapped lim (mark_delivered now late i db)
  unfolding mark_delivered
  deliver-IsCapped now late i =
      update-IsCapped (by_id i) _ (λ r. ground arith) (λ r h. ground arith)

  retry-IsCapped : (at i : ℕ) (db : Db) → IsCapped lim db → IsCapped lim (schedule_retry at i db)
  unfolding schedule_retry
  retry-IsCapped at i = update-IsCapped (by_id i) _ (λ r. ground arith) (λ r h. ground arith)

  report-IsCapped :
      (now : ℕ) (ids : List ℕ) (db : Db) → IsCapped lim db → IsCapped lim (mark_reported now ids db)
  unfolding mark_reported
  report-IsCapped now ids =
      update-IsCapped (λ r. has r.id ids) _ (λ r. ground arith) (λ r h. ground arith)

  surface-IsCapped :
      (now : ℕ) (ids : List ℕ) (db : Db) → IsCapped lim db → IsCapped lim (mark_surfaced now ids db)
  unfolding mark_surfaced
  surface-IsCapped now ids =
      update-IsCapped (λ r. has r.id ids) _ (λ r. ground arith) (λ r h. ground arith)

  -- The cap check of `schedule` leaves room for the row that it inserts.
  schedule_checked_count :
      (now : ℕ) (q : Request) (content : Text) (db : Db)
      → count_pending db ≤ lim.max_pending
      → count_pending (schedule_checked lim now q content db).1 ≤ lim.max_pending
  unfolding schedule_checked
  schedule_checked_count now q content db c =
      elim (Bool-cases (leb lim.max_pending (tally is_pending db.rows))) [
        | inl e ↦ rw e c
        | inr e ↦ rw e (rw tally-append (ground (arith, e)))
      ]

  schedule_count :
      (now : ℕ) (q : Request) (db : Db)
      → count_pending db ≤ lim.max_pending
      → count_pending (schedule lim now q db).1 ≤ lim.max_pending
  unfolding schedule
  schedule_count now q db c =
      elim (checked_content lim.text_length_limit q.text)
        as (λ r.
          count_pending (
            let out : Result Reminder × Db = elim r [
              | err e ↦ (err e, db)
              | ok content ↦ schedule_checked lim now q content db
            ] in
            out.1)
          ≤ lim.max_pending) [ ok content ↦ schedule_checked_count now q content db c | err x ↦ c ]

-- At most one row of a valid table has a given id, whatever else is asked of it.
hits_above :
    (i : ℕ) (q : Reminder → Bool) (lo : ℕ) (rows : List Reminder)
    → Ascending lo rows
    → i ≤ lo
    → tally (λ r. by_id i r && q r) rows ≡ 0
unfolding tally
hits_above i q lo [] h le = refl
hits_above i q lo (r ∷ rs) h le = ground (arith, hits_above i q r.id rs h.1 (omega arith))

hits_once :
    (i : ℕ) (q : Reminder → Bool) (lo : ℕ) (rows : List Reminder)
    → Ascending lo rows
    → tally (λ r. by_id i r && q r) rows ≤ 1
unfolding tally
hits_once i q lo [] h = omega arith
hits_once i q lo (r ∷ rs) h = elim (Bool-cases (r.id == i)) [
  | inl e ↦ let rest = hits_above i q r.id rs h.1 (ground (arith, e)) in rw (e, rest) (ground arith)
  | inr e ↦ rw e (omega (arith, hits_once i q r.id rs h.1))
]

module _ (lim : Limits) where
  cancel_count :
      (i : ℕ) (db : Db)
      → count_pending db ≤ lim.max_pending
      → count_pending (cancel lim i db).1 ≤ lim.max_pending
  unfolding cancel count_pending
  cancel_count i db c =
      let hit : Reminder → Bool = λ r. by_id i r && same_status r.status pending in
      elim (Bool-cases (tally hit db.rows == 0)) [
        | inl e ↦ rw e c
        | inr e ↦ rw e (
            omega (
              arith,
              c,
              tally-update_where_le hit (set_status cancelled) is_pending (λ r h. ground arith)
                  db.rows,
            ))
      ]

  -- The cap check of `reinstate` leaves room for the one row that it reinstates.
  reinstate_count :
      (i : ℕ) (db : Db) → IsCapped lim db → count_pending (reinstate lim i db).1 ≤ lim.max_pending
  unfolding reinstate count_pending
  reinstate_count i db c =
      let hit : Reminder → Bool = λ r. by_id i r && same_status r.status cancelled in
      let bound = tally-update_where_add hit (set_status pending) is_pending db.rows in
      let once = hits_once i (λ r. same_status r.status cancelled) 0 db.rows c.valid.ascending in
      elim (Bool-cases (leb lim.max_pending (tally is_pending db.rows))) [
        | inl e ↦ rw e c.capped
        | inr e ↦ rw e (elim (Bool-cases (tally hit db.rows == 0)) [
          | inl f ↦ rw f c.capped
          | inr f ↦ rw f (ground (arith, bound, once, e))
        ])
      ]

other_task-IsCapped :
    (cfg : Config) (a : OtherTask) (db : Db)
    → IsCapped cfg.limits db
    → IsCapped cfg.limits (other_task cfg a db)
unfolding other_task
other_task-IsCapped cfg (OtherTask.schedules now q) db c = record {
  valid = (schedule-IsBenign cfg.limits now q db c.valid).evolves.valid;
  capped = schedule_count cfg.limits now q db c.capped;
}
other_task-IsCapped cfg (OtherTask.cancels i) db c = record {
  valid = (cancel-IsBenign cfg.limits i db c.valid).evolves.valid;
  capped = cancel_count cfg.limits i db c.capped;
}
other_task-IsCapped cfg (OtherTask.reinstates i) db c = record {
  valid = (reinstate-IsBenign cfg.limits i db c.valid).evolves.valid;
  capped = reinstate_count cfg.limits i db c;
}
other_task-IsCapped cfg (OtherTask.surfaces now ids) db c = surface-IsCapped cfg.limits now ids db c

IsCapped-IsStable : (cfg : Config) → IsStable cfg (IsCapped cfg.limits)
IsCapped-IsStable cfg = record {
  charge = charge-IsCapped cfg.limits;
  miss = miss-IsCapped cfg.limits;
  abandon = abandon-IsCapped cfg.limits;
  deliver = deliver-IsCapped cfg.limits;
  retry = retry-IsCapped cfg.limits;
  report = report-IsCapped cfg.limits;
  other = other_task-IsCapped cfg;
}

-- From a table with ids rising strictly and no more pending reminders than the cap, a tick leaves
-- such a table, whatever is scheduled, cancelled and reinstated while its sends are in flight.
pub tick-IsCapped :
    (cfg : Config) (render : ℕ → Text) (wire : ℕ → Suspension) (now : ℕ) (w : World)
    → IsCapped cfg.limits w.db
    → IsCapped cfg.limits (tick cfg render wire now w).db
tick-IsCapped cfg render wire now w c =
    tick_keeps cfg (IsCapped cfg.limits) (IsCapped-IsStable cfg) render wire now w c
