-- ===== src/Reminders/Table.antt =====
-- The SQL of henk/store/reminders.py over the table as a list of rows in rowid order: the `WHERE`
-- of an `UPDATE`, its `rowcount`, `SELECT … ORDER BY due_at ASC, id ASC`, and one row by id.
pub mod Laws
pub mod Select
use henk.Base.{
  ℕ, Bool, true, false, Option, none, some, List, [], ◌∷◌, ltb, ◌==◌, if◌then◌else◌, keep, map,
}
use henk.Reminders.Row.{Reminder}

-- `UPDATE reminders SET … WHERE p`
unfoldable pub update_where :
    (Reminder → Bool) → (Reminder → Reminder) → List Reminder → List Reminder
update_where p f [] = []
update_where p f (r ∷ rs) = (if p r then f r else r) ∷ update_where p f rs

abbrev pub by_id : ℕ → Reminder → Bool
by_id i r = r.id == i

-- `SELECT … WHERE id = ?` and `fetchone`
unfoldable pub find_id : ℕ → List Reminder → Option Reminder
find_id i [] = none
find_id i (r ∷ rs) = let rest = find_id i rs in if r.id == i then some r else rest

-- The order of `(due_at, id)`: `x` does not come after `y`.
abbrev pub due_before : Reminder → Reminder → Bool
due_before x y =
    if ltb x.due_at y.due_at
    then true
    else if ltb y.due_at x.due_at
    then false
    else if ltb y.id x.id
    then false
    else true

unfoldable pub insert_due : Reminder → List Reminder → List Reminder
insert_due x [] = x ∷ []
insert_due x (y ∷ ys) =
    let rest = insert_due x ys in if due_before x y then x ∷ y ∷ ys else y ∷ rest

-- `ORDER BY due_at ASC, id ASC`, and Python's `sorted(rows, key=…)` by the same key
unfoldable pub order_by_due : List Reminder → List Reminder
unfolding insert_due
order_by_due [] = []
order_by_due (r ∷ rs) = insert_due r (order_by_due rs)

-- `_select` with an `ORDER BY`
unfoldable pub select : (Reminder → Bool) → List Reminder → List Reminder
unfolding order_by_due keep
select p rows = order_by_due (keep p rows)

-- `[row.id for row in rows]`
abbrev pub ids_of : List Reminder → List ℕ
ids_of = map (λ (r : Reminder). r.id)
