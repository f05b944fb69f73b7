-- ===== src/Reminders/Retention/Tasks.antt =====
-- What other tasks do while a send of henk/reminders/scheduler.py is in flight (scheduling,
-- cancelling, reinstating, surfacing) keeps rows, requests and final statuses.
use henk.Base.{
  ℕ, suc, ◌≤◌, ◌≡◌, refl, inl, inr, Bool, false, List, [], ◌∷◌, arith, leb, ◌==◌, ◌&&◌,
  if◌then◌else◌, Text, take, has, All-map, All-append, All-always, Grows-append, Bool-cases, tally,
}
use henk.Store.Content.{Result, ok, err, checked_content}
use henk.Reminders.Row.{Status, pending, cancelled, same_status, Reminder}
use henk.Reminders.Table.{by_id}
use henk.Reminders.Table.Laws.{Ascending-append}
use henk.Reminders.Repository.{
  Db, Limits, Request, new_row, insert_row, count_pending, schedule, schedule_checked, cancel,
  reinstate, transition_update, set_status, mark_surfaced,
}
use henk.Reminders.World.{Config, OtherTask, other_task, other_tasks}
use henk.Reminders.Retention.{
  final, Keeps, Keeps-refl, IsValid, Evolves, Evolves-refl, Evolves-trans, AtId, update-Evolves,
  update-AtId,
}
use henk.Reminders.Retention.Writes.{quiet-Evolves, quiet-AtId, surface-IsQuiet}

-- A status that a delivery may still overwrite.
abbrev pub Open : Status → Type 0
Open t = final t ≡ false

-- What a step of another task does to the database.
pub record IsBenign (d e : Db) : Type 0 where
  pub evolves : Evolves d e
  pub stays_open : (i : ℕ) → AtId Open i d.rows → AtId Open i e.rows

pub IsBenign-refl : (d : Db) → IsValid d → IsBenign d d
IsBenign-refl d v = record { evolves = Evolves-refl d v; stays_open = λ i h. h }

pub insert-IsBenign :
    (q : Request) (content spec : Text) (now : ℕ) (db : Db)
    → IsValid db
    → IsBenign db (insert_row q content spec now db).1
unfolding insert_row
insert-IsBenign q content spec now db v =
    let row : Reminder = new_row (suc db.last_id) q content spec now in
    record {
      evolves = record {
        retained = Grows-append Keeps Keeps-refl db.rows (row ∷ []);
        valid = record {
          ascending =
              Ascending-append 0 db.last_id db.rows row v.ascending (omega arith) v.bounded
                (omega arith);
          bounded =
              All-append (λ r. r.id ≤ suc db.last_id) db.rows (row ∷ [])
                (All-map (λ r. r.id ≤ db.last_id) (λ r. r.id ≤ suc db.last_id) db.rows
                  (λ r le. omega arith) v.bounded)
                (omega arith, tt);
        };
      };
      stays_open =
          λ i h. All-append (λ r. r.id ≡ i → Open r.status) db.rows (row ∷ []) h ((λ _. refl), tt);
    }

schedule_checked-IsBenign :
    (lim : Limits) (now : ℕ) (q : Request) (content : Text) (db : Db)
    → IsValid db
    → IsBenign db (schedule_checked lim now q content db).1
unfolding schedule_checked
schedule_checked-IsBenign lim now q content db v =
    elim (Bool-cases (leb lim.max_pending (count_pending db))) [
      | inl e ↦ rw e (IsBenign-refl db v)
      | inr e ↦ rw e (insert-IsBenign q content (take lim.input_spec_limit q.input_spec) now db v)
    ]

pub schedule-IsBenign :
    (lim : Limits) (now : ℕ) (q : Request) (db : Db)
    → IsValid db
    → IsBenign db (schedule lim now q db).1
unfolding schedule
schedule-IsBenign lim now q db v =
    elim (checked_content lim.text_length_limit q.text)
      as (λ r. IsBenign db (
        let out : Result Reminder × Db = elim r [
          | err e ↦ (err e, db)
          | ok content ↦ schedule_checked lim now q content db
        ] in
        out.1)) [
          | ok content ↦ schedule_checked-IsBenign lim now q content db v
          | err x ↦ IsBenign-refl db v
        ]

-- The `UPDATE` of a transition between the two statuses that are not final.
module _ (i : ℕ) (from to : Status) (open_from : Open from) (open_to : Open to) where
  hit : Reminder → Bool
  hit r = by_id i r && same_status r.status from

  moves : (r : Reminder) → Keeps r (if hit r then set_status to r else r)
  unfolding hit
  moves r = ground arith

  moves_id : (r : Reminder) → (if hit r then set_status to r else r).id ≡ r.id
  moves_id r = (moves r).same_id

  moves-Open : (r : Reminder) → Open r.status → Open (if hit r then set_status to r else r).status
  unfolding hit
  moves-Open r h = ground arith

  pub transition_update-IsBenign :
      (db : Db) → IsValid db → IsBenign db (transition_update i from to db).1
  unfolding transition_update hit
  transition_update-IsBenign db v = elim (Bool-cases (tally hit db.rows == 0)) [
    | inl e ↦ rw e (IsBenign-refl db v)
    | inr e ↦ rw e (record {
      evolves =
          update-Evolves hit (set_status to) db v (λ _. Unit {0}) (λ r _. moves r) moves_id
            (All-always (λ _. Unit {0}) db.rows (λ _. tt));
      stays_open = λ j h. update-AtId hit (set_status to) Open moves_id moves-Open j db.rows h;
    })
  ]

pub cancel-IsBenign :
    (lim : Limits) (i : ℕ) (db : Db) → IsValid db → IsBenign db (cancel lim i db).1
unfolding cancel
cancel-IsBenign lim i db v = transition_update-IsBenign i pending cancelled refl refl db v

pub reinstate-IsBenign :
    (lim : Limits) (i : ℕ) (db : Db) → IsValid db → IsBenign db (reinstate lim i db).1
unfolding reinstate
reinstate-IsBenign lim i db v = elim (Bool-cases (leb lim.max_pending (count_pending db))) [
  | inl e ↦ rw e (IsBenign-refl db v)
  | inr e ↦ rw e (transition_update-IsBenign i cancelled pending refl refl db v)
]

pub surface-IsBenign :
    (now : ℕ) (ids : List ℕ) (db : Db) → IsValid db → IsBenign db (mark_surfaced now ids db)
unfolding mark_surfaced
surface-IsBenign now ids db v = record {
  evolves = quiet-Evolves (λ r. has r.id ids) _ (surface-IsQuiet now) db v;
  stays_open = λ i h. quiet-AtId (λ r. has r.id ids) _ (surface-IsQuiet now) Open i db.rows h;
}

other_task-IsBenign :
    (cfg : Config) (a : OtherTask) (db : Db) → IsValid db → IsBenign db (other_task cfg a db)
unfolding other_task
other_task-IsBenign cfg (OtherTask.schedules now q) db v = schedule-IsBenign cfg.limits now q db v
other_task-IsBenign cfg (OtherTask.cancels i) db v = cancel-IsBenign cfg.limits i db v
other_task-IsBenign cfg (OtherTask.reinstates i) db v = reinstate-IsBenign cfg.limits i db v
other_task-IsBenign cfg (OtherTask.surfaces now ids) db v = surface-IsBenign now ids db v

pub other_tasks-IsBenign :
    (cfg : Config) (l : List OtherTask) (db : Db) → IsValid db → IsBenign db (other_tasks cfg l db)
unfolding other_tasks
other_tasks-IsBenign cfg [] db v = IsBenign-refl db v
other_tasks-IsBenign cfg (a ∷ l) db v =
    let first = other_task-IsBenign cfg a db v in
    let later = other_tasks-IsBenign cfg l (other_task cfg a db) first.evolves.valid in
    record {
      evolves =
          Evolves-trans db (other_task cfg a db) (other_tasks cfg l (other_task cfg a db))
            first.evolves later.evolves;
      stays_open = λ i h. later.stays_open i (first.stays_open i h);
    }
