-- ===== src/Reminders/Retention/Writes.antt =====
-- Each method of the repository of henk/store/reminders.py keeps rows, requests and final
-- statuses, and the statuses at an id that a later mark of the same tick may overwrite.
use henk.Base.{
  ℕ, ◌+◌, ◌≡◌, refl, inl, inr, Bool, none, some, List, arith, ◌==◌, if◌then◌else◌, All-always,
  Bool-cases,
}
use henk.Reminders.Row.{Status, delivered, delivered_late, missed, abandoned, Reminder}
use henk.Reminders.Table.{update_where, by_id}
use henk.Reminders.Repository.{Db, write}
use henk.Reminders.Retention.{
  Keeps, Keeps-refl, IsValid, Evolves, AtId, Marks, IsQuiet, IsMark, update-Evolves, update-AtId,
}

module _ (p : Reminder → Bool) (f : Reminder → Reminder) (q : IsQuiet f) where
  quiet-Keeps : (r : Reminder) → Keeps r (if p r then f r else r)
  quiet-Keeps r = elim (Bool-cases (p r)) [ inl e ↦ rw e (q.keeps r) | inr e ↦ rw e (Keeps-refl r) ]

  quiet_id : (r : Reminder) → (if p r then f r else r).id ≡ r.id
  quiet_id r = (quiet-Keeps r).same_id

  quiet_status : (r : Reminder) → (if p r then f r else r).status ≡ r.status
  quiet_status r = elim (Bool-cases (p r)) [ inl e ↦ rw e (q.same_status r) | inr e ↦ rw e ]

  pub quiet-Evolves :
      (db : Db) → IsValid db → Evolves db (record db { rows = update_where p f db.rows })
  quiet-Evolves db v =
      update-Evolves p f db v (λ _. Unit {0}) (λ r _. quiet-Keeps r) quiet_id
        (All-always (λ _. Unit {0}) db.rows (λ _. tt))

  pub quiet-AtId :
      (Q : Status → Type 0) (i : ℕ) (rows : List Reminder)
      → AtId Q i rows
      → AtId Q i (update_where p f rows)
  quiet-AtId Q = update-AtId p f Q quiet_id (λ r h. rw (quiet_status r) h)

module _ (s : Status) (f : Reminder → Reminder) (m : IsMark s f) (i : ℕ) where
  mark_id : (r : Reminder) → (if r.id == i then f r else r).id ≡ r.id
  mark_id r = elim (Bool-cases (r.id == i)) [ inl e ↦ rw e (m.keeps_id r) | inr e ↦ rw e ]

  mark-Keeps :
      (r : Reminder) → (r.id ≡ i → Marks s r.status) → Keeps r (if r.id == i then f r else r)
  mark-Keeps r h = elim (Bool-cases (r.id == i)) [
    | inl e ↦ rw e (m.keeps r (h (ground arith)))
    | inr e ↦ rw e (Keeps-refl r)
  ]

  mark_status :
      (Q : Status → Type 0) (r : Reminder)
      → Q s
      → Q r.status
      → Q (if r.id == i then f r else r).status
  mark_status Q r qs qr = elim (Bool-cases (r.id == i)) [
    | inl e ↦ rw (e, m.marked r) qs
    | inr e ↦ rw e qr
  ]

  pub mark-Evolves : (db : Db) → IsValid db → AtId (Marks s) i db.rows → Evolves db (write f i db)
  unfolding write
  mark-Evolves db v h =
      update-Evolves (by_id i) f db v (λ r. r.id ≡ i → Marks s r.status) mark-Keeps mark_id h

  pub mark-AtId :
      (Q : Status → Type 0)
      → Q s
      → (j : ℕ) (db : Db) → AtId Q j db.rows
      → AtId Q j (write f i db).rows
  unfolding write
  mark-AtId Q qs j db h =
      update-AtId (by_id i) f Q mark_id (λ r qr. mark_status Q r qs qr) j db.rows h

-- The `SET` clauses of the source.
pub retry-IsQuiet : (at : ℕ) → IsQuiet (λ r. record r { next_attempt_at = at; send_attempts = 0 })
retry-IsQuiet at = record { keeps = λ r. ground arith; same_status = λ r. refl }

pub charge-IsQuiet : IsQuiet (λ r. record r { send_attempts = r.send_attempts + 1 })
charge-IsQuiet = record { keeps = λ r. ground arith; same_status = λ r. refl }

pub report-IsQuiet :
    (now : ℕ) → IsQuiet (λ r. record r { reported_at = some now; send_attempts = 0 })
report-IsQuiet now = record { keeps = λ r. ground arith; same_status = λ r. refl }

pub surface-IsQuiet : (now : ℕ) → IsQuiet (λ r. record r { surfaced_at = some now })
surface-IsQuiet now = record { keeps = λ r. ground arith; same_status = λ r. refl }

pub missed-IsMark :
    (now : ℕ)
    → IsMark missed (λ r. record r {
      status = missed;
      send_attempts = 0;
      next_attempt_at = now;
      reported_at = none;
    })
missed-IsMark now = record { keeps = λ r h. ground arith; marked = λ r. refl; keeps_id = λ r. refl }

pub abandoned-IsMark :
    (now : ℕ)
    → IsMark abandoned (λ r. record r {
      status = abandoned;
      send_attempts = 0;
      next_attempt_at = now;
      reported_at = none;
    })
abandoned-IsMark now = record {
  keeps = λ r h. ground arith;
  marked = λ r. refl;
  keeps_id = λ r. refl;
}

pub delivered-IsMark :
    (now : ℕ) (late : Bool)
    → IsMark (if late then delivered_late else delivered) (λ r. record r {
      status = if late then delivered_late else delivered;
      delivered_at = some now;
      send_attempts = 0;
    })
delivered-IsMark now late = record {
  keeps = λ r h. ground arith;
  marked = λ r. refl;
  keeps_id = λ r. refl;
}
