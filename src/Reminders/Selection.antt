-- ===== src/Reminders/Selection.antt =====
-- The delivery selector of henk/store/reminders.py as `SELECT … ORDER BY … LIMIT` promises it.
use henk.Base.{ℕ, ◌&&◌, leb}
use henk.Reminders.Row.{pending, same_status}
use henk.Reminders.Table.Select.{IsSelection, take-select-IsSelection}
use henk.Reminders.Repository.{Db, select_due}

-- `select_due` returns only rows that are pending, not deferred and due, oldest due first and then
-- by id, at most `limit` of them; and a row that it leaves out although it qualifies comes before
-- none of those that it returns, of which there are then `limit`.
pub select_due-IsSelection :
    (now limit : ℕ) (db : Db)
    → IsSelection
        (λ r. same_status r.status pending && leb r.next_attempt_at now && leb r.due_at now)
        limit
        db.rows
        (select_due now limit db)
unfolding select_due
select_due-IsSelection now limit db =
    take-select-IsSelection
      (λ r. same_status r.status pending && leb r.next_attempt_at now && leb r.due_at now) limit
      db.rows
