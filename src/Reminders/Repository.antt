-- ===== src/Reminders/Repository.antt =====
-- `ReminderStore` of henk/store/reminders.py. A method takes the database state and returns the
-- new one with its result. An exception inside a transaction rolls it back: the state that comes
-- with an `err` is the one before the call.
use henk.Base.{
  ℕ, suc, ◌+◌, ◌-◌, Bool, true, false, not, ◌&&◌, ◌||◌, Option, none, some, List, [], ◌∷◌, ◌++◌,
  Text, ltb, leb, ◌==◌, if◌then◌else◌, length, take, tally, has,
}
use henk.Store.Content.{Rejection, Result, ok, err, checked_content}
use henk.Reminders.Row.{
  Status, pending, delivered, delivered_late, missed, cancelled, abandoned, same_status, Source,
  Reminder, ReminderPage,
}
use henk.Reminders.Table.{update_where, by_id, find_id, select}

-- The table, and the last id that `AUTOINCREMENT` gave out.
pub record Db : Type 0 where
  pub rows : List Reminder
  pub last_id : ℕ

-- The constructor's settings.
pub record Limits : Type 0 where
  pub max_pending : ℕ
  pub text_length_limit : ℕ
  pub page_size : ℕ
  pub input_spec_limit : ℕ

abbrev pub is_pending : Reminder → Bool
is_pending r = same_status r.status pending

-- `_count_pending_locked`
unfoldable pub count_pending : Db → ℕ
unfolding tally
count_pending db = tally is_pending db.rows

-- The arguments of `schedule`.
pub record Request : Type 0 where
  pub text : Text
  pub due_at : ℕ
  pub due_tz : Text
  pub input_spec : Text
  pub source : Source

-- The row that `_insert_locked` writes, with the column defaults.
abbrev pub new_row : ℕ → Request → Text → Text → ℕ → Reminder
new_row i q content spec now = record {
  id = i;
  text = content;
  due_at = q.due_at;
  due_tz = q.due_tz;
  input_spec = spec;
  created_at = now;
  source = q.source;
  status = pending;
  next_attempt_at = q.due_at;
  send_attempts = 0;
  delivered_at = none;
  surfaced_at = none;
  reported_at = none;
}

-- `_insert_locked`
unfoldable pub insert_row : Request → Text → Text → ℕ → Db → Reminder × Db
insert_row q content spec now db =
    let row = new_row (suc db.last_id) q content spec now in
    (row, record { rows = db.rows ++ row ∷ []; last_id = suc db.last_id })

-- The transaction of `schedule`: the cap check and the insert.
unfoldable pub schedule_checked : Limits → ℕ → Request → Text → Db → Result Reminder × Db
unfolding insert_row count_pending
schedule_checked lim now q content db =
    let (row, db') = insert_row q content (take lim.input_spec_limit q.input_spec) now db in
    if leb lim.max_pending (count_pending db)
    then (err (Rejection.cap_reached lim.max_pending), db)
    else (ok row, db')

unfoldable pub schedule : Limits → ℕ → Request → Db → Result Reminder × Db
unfolding schedule_checked
schedule lim now q db = elim (checked_content lim.text_length_limit q.text) [
  | err e ↦ (err e, db)
  | ok content ↦ schedule_checked lim now q content db
]

-- The `SET` clauses of `_transition`
abbrev pub set_status : Status → Reminder → Reminder
set_status to r =
    if same_status to pending
    then record r { status = to; next_attempt_at = r.due_at }
    else record r { status = to }

-- The `UPDATE` of `_transition` and its read-back
unfoldable pub transition_update : ℕ → Status → Status → Db → Result (Option Reminder) × Db
unfolding update_where find_id tally
transition_update i from to db =
    let hit = λ (r : Reminder). by_id i r && same_status r.status from in
    let rows' = update_where hit (set_status to) db.rows in
    if tally hit db.rows == 0
    then (ok none, db)
    else (ok (find_id i rows'), record db { rows = rows' })

-- `_transition`
unfoldable pub transition : Limits → ℕ → Status → Status → Bool → Db → Result (Option Reminder) × Db
unfolding transition_update count_pending
transition lim i from to enforce_cap db =
    if (enforce_cap && same_status to pending) && leb lim.max_pending (count_pending db)
    then (err (Rejection.cap_reached lim.max_pending), db)
    else transition_update i from to db

unfoldable pub cancel : Limits → ℕ → Db → Result (Option Reminder) × Db
unfolding transition
cancel lim i = transition lim i pending cancelled false

unfoldable pub reinstate : Limits → ℕ → Db → Result (Option Reminder) × Db
unfolding transition
reinstate lim i = transition lim i cancelled pending true

-- `select_due`: the delivery selector
unfoldable pub select_due : ℕ → ℕ → Db → List Reminder
unfolding select
select_due now limit db = take limit (
    select (λ r. same_status r.status pending && leb r.next_attempt_at now && leb r.due_at now)
      db.rows)

abbrev pub is_some : Option ℕ → Bool
is_some none = false
is_some (some _) = true

-- `status IN (missed, abandoned)`
abbrev pub undelivered : Status → Bool
undelivered s = same_status s missed || same_status s abandoned

unfoldable pub select_reportable : ℕ → Db → List Reminder
unfolding select
select_reportable now db =
    select (λ r. undelivered r.status && not (is_some r.reported_at) && leb r.next_attempt_at now)
      db.rows

abbrev pub past_grace : ℕ → ℕ → Reminder → Bool
past_grace now grace r = same_status r.status pending && ltb (r.due_at + grace) now

unfoldable pub select_past_grace : ℕ → ℕ → Db → List Reminder
unfolding select
select_past_grace now grace db = select (past_grace now grace) db.rows

unfoldable pub status_of : ℕ → Db → Option Status
unfolding find_id
status_of i db = elim (find_id i db.rows) [ none ↦ none | some r ↦ some r.status ]

-- `_write`: one `UPDATE … WHERE id = ?`
unfoldable pub write : (Reminder → Reminder) → ℕ → Db → Db
unfolding update_where
write f i db = record db { rows = update_where (by_id i) f db.rows }

-- `charge_attempt`, with the new count (0 if there is no such row)
unfoldable pub charge_attempt : ℕ → Db → ℕ × Db
unfolding write find_id
charge_attempt i db =
    let db' = write (λ r. record r { send_attempts = r.send_attempts + 1 }) i db in
    (elim (find_id i db'.rows) [ none ↦ 0 | some r ↦ r.send_attempts ], db')

unfoldable pub mark_delivered : ℕ → Bool → ℕ → Db → Db
unfolding write
mark_delivered now late = write λ r. record r {
  status = if late then delivered_late else delivered;
  delivered_at = some now;
  send_attempts = 0;
}

unfoldable pub schedule_retry : ℕ → ℕ → Db → Db
unfolding write
schedule_retry at = write λ r. record r { next_attempt_at = at; send_attempts = 0 }

unfoldable pub mark_missed : ℕ → ℕ → Db → Db
unfolding write
mark_missed now =
    write λ r. record r {
      status = missed;
      send_attempts = 0;
      next_attempt_at = now;
      reported_at = none;
    }

unfoldable pub mark_abandoned : ℕ → ℕ → Db → Db
unfolding write
mark_abandoned now = write λ r. record r {
  status = abandoned;
  send_attempts = 0;
  next_attempt_at = now;
  reported_at = none;
}

-- `mark_reported`: one statement for the whole set; the empty set writes nothing, by `has`
unfoldable pub mark_reported : ℕ → List ℕ → Db → Db
unfolding update_where has
mark_reported now ids db = record db {
  rows =
      update_where (λ r. has r.id ids) (λ r. record r { reported_at = some now; send_attempts = 0 })
        db.rows;
}

unfoldable pub mark_surfaced : ℕ → List ℕ → Db → Db
unfolding update_where has
mark_surfaced now ids db = record db {
  rows = update_where (λ r. has r.id ids) (λ r. record r { surfaced_at = some now }) db.rows;
}

unfoldable pub get : ℕ → Db → Option Reminder
unfolding find_id
get i db = find_id i db.rows

-- `list_pending`: the argument is `effective`, `none` for every pending reminder.
unfoldable pub list_pending : Option ℕ → Db → ReminderPage
unfolding select
list_pending none db = record { items = select is_pending db.rows; remainder = 0 }
list_pending (some n) db =
    let items = select is_pending db.rows in
    record { items = take n items; remainder = length items - n }
