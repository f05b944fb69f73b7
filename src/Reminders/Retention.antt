-- ===== src/Reminders/Retention.antt =====
-- What every write of henk/store/reminders.py keeps: no row is deleted, the columns of the
-- request are never rewritten, a final status stays, and ids rise strictly.
pub mod Writes
pub mod Tasks
pub mod PreWork
pub mod Tick
use henk.Base.{
  ℕ, suc, ◌≤◌, ◌≡◌, refl, ◌⊎◌, inl, inr, Bool, true, false, List, [], ◌∷◌, arith, if◌then◌else◌,
  Text, All, All-map, In, Grows, Grows-refl, Grows-trans,
}
use henk.Reminders.Row.{
  Status, pending, delivered, delivered_late, missed, cancelled, abandoned, Source, Reminder,
}
use henk.Reminders.Table.{update_where}
use henk.Reminders.Table.Laws.{
  Ascending, All-update_where, Grows-update_where, Ascending-update_where,
}
use henk.Reminders.Repository.{Db}

-- The statuses that nothing leaves.
abbrev pub final : Status → Bool
final pending = false
final cancelled = false
final _ = true

-- `b` is the row `a` later: the same request, and the same status if that was final.
pub record Keeps (a b : Reminder) : Type 0 where
  pub same_id : b.id ≡ a.id
  pub same_text : b.text ≡ a.text
  pub same_due_at : b.due_at ≡ a.due_at
  pub same_due_tz : b.due_tz ≡ a.due_tz
  pub same_input_spec : b.input_spec ≡ a.input_spec
  pub same_created_at : b.created_at ≡ a.created_at
  pub same_source : b.source ≡ a.source
  pub settled : final a.status ≡ true → b.status ≡ a.status

pub Keeps-refl : (a : Reminder) → Keeps a a
Keeps-refl a = ground arith

pub Keeps-trans : (a b c : Reminder) → Keeps a b → Keeps b c → Keeps a c
Keeps-trans a b c h k = record {
  same_id = cc (h.same_id, k.same_id);
  same_text = cc (h.same_text, k.same_text);
  same_due_at = cc (h.same_due_at, k.same_due_at);
  same_due_tz = cc (h.same_due_tz, k.same_due_tz);
  same_input_spec = cc (h.same_input_spec, k.same_input_spec);
  same_created_at = cc (h.same_created_at, k.same_created_at);
  same_source = cc (h.same_source, k.same_source);
  settled = λ e.
      let q = h.settled e in
      let e' : final b.status ≡ true = rw q e in let q' = k.settled e' in cc (q, q');
}

pub record IsValid (db : Db) : Type 0 where
  pub ascending : Ascending 0 db.rows
  pub bounded : All (λ r. r.id ≤ db.last_id) db.rows

pub record Evolves (d e : Db) : Type 0 where
  pub retained : Grows Keeps d.rows e.rows
  pub valid : IsValid e

pub Evolves-refl : (d : Db) → IsValid d → Evolves d d
Evolves-refl d v = record { retained = Grows-refl Keeps Keeps-refl d.rows; valid = v }

pub Evolves-trans : (a b c : Db) → Evolves a b → Evolves b c → Evolves a c
Evolves-trans a b c h k = record {
  retained = Grows-trans Keeps Keeps-trans a.rows b.rows c.rows h.retained k.retained;
  valid = k.valid;
}

-- Every row with the id `i` has a status in `Q`.
abbrev pub AtId : (Status → Type 0) → ℕ → List Reminder → Type 0
AtId Q i rows = All (λ r. r.id ≡ i → Q r.status) rows

-- The statuses that a mark with `s` may overwrite.
abbrev pub Marks : Status → Status → Type 0
Marks s t = (final t ≡ false) ⊎ (t ≡ s)

-- A `SET` clause that writes neither the request nor the status.
pub record IsQuiet (f : Reminder → Reminder) : Type 0 where
  pub keeps : (r : Reminder) → Keeps r (f r)
  pub same_status : (r : Reminder) → (f r).status ≡ r.status

-- A `SET` clause that writes the status `s`, and no column of the request.
pub record IsMark (s : Status) (f : Reminder → Reminder) : Type 0 where
  pub keeps : (r : Reminder) → Marks s r.status → Keeps r (f r)
  pub marked : (r : Reminder) → (f r).status ≡ s
  pub keeps_id : (r : Reminder) → (f r).id ≡ r.id

module _ (p : Reminder → Bool) (f : Reminder → Reminder) (db : Db) (v : IsValid db) where
  -- An `UPDATE` whose `SET` keeps each row that it may write.
  pub update-Evolves :
      (P : Reminder → Type 0)
      → ((r : Reminder) → P r → Keeps r (if p r then f r else r))
      → ((r : Reminder) → (if p r then f r else r).id ≡ r.id)
      → All P db.rows
      → Evolves db (record db { rows = update_where p f db.rows })
  update-Evolves P step same h = record {
    retained = Grows-update_where p f Keeps P step db.rows h;
    valid = record {
      ascending = Ascending-update_where p f same 0 db.rows v.ascending;
      bounded =
          All-update_where p f (λ r. r.id ≤ db.last_id) (λ r. r.id ≤ db.last_id)
            (λ r le. rw (same r) le) db.rows v.bounded;
    };
  }

-- An `UPDATE` that keeps ids and takes statuses in `Q` into `Q`.
pub update-AtId :
    (p : Reminder → Bool) (f : Reminder → Reminder) (Q : Status → Type 0)
    → ((r : Reminder) → (if p r then f r else r).id ≡ r.id)
    → ((r : Reminder) → Q r.status → Q (if p r then f r else r).status)
    → (i : ℕ) (rows : List Reminder) → AtId Q i rows
    → AtId Q i (update_where p f rows)
update-AtId p f Q same step i rows h =
    All-update_where p f (λ r. r.id ≡ i → Q r.status) (λ r. r.id ≡ i → Q r.status)
      (λ r g e. step r (g (rw (same r) at e))) rows h
