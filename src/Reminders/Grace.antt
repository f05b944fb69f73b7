-- ===== src/Reminders/Grace.antt =====
-- The grace pass of henk/reminders/scheduler.py reaches every row past its window, and each such
-- row is named in the catch-up summary of the same tick.
mod Charges
pub mod Named
use henk.Base.{
  ℕ, suc, ◌+◌, ◌≤◌, ◌<◌, ◌≡◌, refl, ◌⊎◌, inl, inr, Bool, true, false, ◌||◌, Option, none, some,
  List, [], ◌∷◌, ◌++◌, arith, leb, ltb, ◌==◌, if◌then◌else◌, has, All, All-map, All-of_In, In,
  Bool-cases,
}
use henk.Reminders.Row.{Status, pending, missed, same_status, Reminder}
use henk.Reminders.Table.{by_id, select, ids_of}
use henk.Reminders.Table.Laws.{All-update_where}
use henk.Reminders.Table.Select.{In-select, has-ids_of}
use henk.Reminders.Repository.{Db, past_grace, select_past_grace, mark_missed}
use henk.Reminders.World.{Config, Plan}
use henk.Reminders.PreWork.{grace_pass, after_grace, receipt_of}

-- Every row past its window is still to be marked.
abbrev pub Remaining : ℕ → ℕ → List ℕ → List Reminder → Type 0
Remaining now grace ids rows = All (λ r. past_grace now grace r ≡ true → has r.id ids ≡ true) rows

-- The row as `mark_missed` writes it.
abbrev pub missed_row : ℕ → Reminder → Reminder
missed_row now r = record r {
  status = missed;
  send_attempts = 0;
  next_attempt_at = now;
  reported_at = none;
}

missed_row-Remaining :
    (now grace i : ℕ) (ids : List ℕ) (r : Reminder)
    → (past_grace now grace r ≡ true → has r.id (i ∷ ids) ≡ true)
    → past_grace now grace (if r.id == i then missed_row now r else r) ≡ true
    → has (if r.id == i then missed_row now r else r).id ids ≡ true
unfolding has
missed_row-Remaining now grace i ids r f = elim (Bool-cases (r.id == i)) [
  | inl e ↦ rw e (λ q. cc)
  | inr e ↦ rw e (λ q. let h = f q in rw e at h)
]

mark_missed-Remaining :
    (now grace i : ℕ) (ids : List ℕ) (db : Db)
    → Remaining now grace (i ∷ ids) db.rows
    → Remaining now grace ids (mark_missed now i db).rows
unfolding mark_missed
mark_missed-Remaining now grace i ids db h =
    All-update_where (by_id i) (missed_row now)
      (λ r. past_grace now grace r ≡ true → has r.id (i ∷ ids) ≡ true)
      (λ r. past_grace now grace r ≡ true → has r.id ids ≡ true)
      (λ r f. missed_row-Remaining now grace i ids r f) db.rows h

grace_pass-Remaining :
    (now grace : ℕ) (rows : List Reminder) (p : Plan)
    → Remaining now grace (ids_of rows) p.db.rows
    → Remaining now grace [] (grace_pass now rows p).db.rows
unfolding grace_pass
grace_pass-Remaining now grace [] p h = h
grace_pass-Remaining now grace (row ∷ rows) p h =
    grace_pass-Remaining now grace rows
      (record p {
        db = mark_missed now row.id p.db;
        receipts = p.receipts ++ receipt_of row missed ∷ [];
      })
      (mark_missed-Remaining now grace row.id (ids_of rows) p.db h)

-- After the grace pass no pending row is past its window, whatever the delivery cap.
pub after_grace_complete :
    (cfg : Config) (now : ℕ) (db : Db)
    → All (λ r. past_grace now cfg.late_grace r ≡ false) (after_grace cfg now db).db.rows
unfolding after_grace select_past_grace has
after_grace_complete cfg now db =
    All-map (λ r. past_grace now cfg.late_grace r ≡ true → has r.id [] ≡ true)
      (λ r. past_grace now cfg.late_grace r ≡ false) _ (λ r f. none_left r f)
      (grace_pass-Remaining now cfg.late_grace (select (past_grace now cfg.late_grace) db.rows)
        (record { db = db; deliveries = []; report = []; receipts = [] })
        (All-of_In _ db.rows (λ r m e.
          has-ids_of r (select (past_grace now cfg.late_grace) db.rows)
            (In-select (past_grace now cfg.late_grace) r db.rows m e))))
  where
    none_left :
        (r : Reminder)
        → (past_grace now cfg.late_grace r ≡ true → has r.id [] ≡ true)
        → past_grace now cfg.late_grace r ≡ false
    none_left r f = elim (Bool-cases (past_grace now cfg.late_grace r)) [
      | inl e ↦ absurd (let q = f e in cc q)
      | inr e ↦ e
    ]
