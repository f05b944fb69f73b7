-- ===== src/Reminders/Grace/Charges.antt =====
-- What the pre-work transaction of henk/reminders/scheduler.py does to one row that is past its
-- window: grace marks it missed and uncharged, and charges of other rows leave it alone.
use henk.Base.{
  ℕ, ◌+◌, ◌≤◌, ◌≡◌, ◌≢◌, refl, ◌⊎◌, inl, inr, Bool, true, Option, none, some, List, [], ◌∷◌, arith,
  leb, ◌==◌, if◌then◌else◌, has, All, All-In, Bool-cases,
}
use henk.Reminders.Row.{missed, Reminder}
use henk.Reminders.Table.{update_where, by_id, find_id}
use henk.Reminders.Table.Laws.{All-update_where, find_id-some}
use henk.Reminders.Repository.{
  Db, past_grace, mark_missed, mark_abandoned, mark_reported, charge_attempt,
}
use henk.Reminders.World.{Config, Plan}
use henk.Reminders.PreWork.{grace_pass, charge_due, charge_dues, charge_reportable}
use henk.Reminders.Grace.{missed_row}

-- Every row with the id `i` is in `Q`.
abbrev pub AtRow : (Reminder → Type 0) → ℕ → List Reminder → Type 0
AtRow Q i rows = All (λ r. r.id ≡ i → Q r) rows

abbrev pub Lapsed : ℕ → Reminder → Type 0
Lapsed now r =
    (r.status ≡ missed) × (r.reported_at ≡ none) × (r.next_attempt_at ≡ now) × (r.send_attempts ≡ 0)

abbrev pub Lapsing : ℕ → ℕ → Reminder → Type 0
Lapsing now grace r = (past_grace now grace r ≡ true) ⊎ Lapsed now r

missed_row-Lapsing :
    (now grace i j : ℕ) (r : Reminder)
    → (r.id ≡ i → Lapsing now grace r)
    → (if r.id == j then missed_row now r else r).id ≡ i
    → Lapsing now grace (if r.id == j then missed_row now r else r)
missed_row-Lapsing now grace i j r f = elim (Bool-cases (r.id == j)) [
  | inl e ↦ rw e (λ q. inr (refl, refl, refl, refl))
  | inr e ↦ rw e f
]

pub grace_pass-Lapsing :
    (now grace i : ℕ) (rows : List Reminder) (p : Plan)
    → AtRow (Lapsing now grace) i p.db.rows
    → AtRow (Lapsing now grace) i (grace_pass now rows p).db.rows
unfolding grace_pass mark_missed
grace_pass-Lapsing now grace i [] p h = h
grace_pass-Lapsing now grace i (row ∷ rows) p h = grace_pass-Lapsing now grace i rows _ (
    All-update_where (by_id row.id) (missed_row now) (λ r. r.id ≡ i → Lapsing now grace r)
      (λ r. r.id ≡ i → Lapsing now grace r) (λ r f. missed_row-Lapsing now grace i row.id r f)
      p.db.rows h)

-- A write at another id leaves what holds at `i`.
update-AtRow :
    (Q : Reminder → Type 0) (i : ℕ) (p : Reminder → Bool) (f : Reminder → Reminder)
    → ((r : Reminder) → p r ≡ true → (f r).id ≢ i)
    → (rows : List Reminder) → AtRow Q i rows
    → AtRow Q i (update_where p f rows)
update-AtRow Q i p f other rows h =
    All-update_where p f (λ r. r.id ≡ i → Q r) (λ r. r.id ≡ i → Q r) step rows h
  where
    step :
        (r : Reminder)
        → (r.id ≡ i → Q r)
        → (if p r then f r else r).id ≡ i
        → Q (if p r then f r else r)
    step r g = elim (Bool-cases (p r)) [ inl e ↦ rw e (λ q. absurd (other r e q)) | inr e ↦ rw e g ]

apart : (a i j : ℕ) → i ≢ j → (a == j) ≡ true → a ≢ i
apart a i j ne e q = ne (ground arith)

module _ (cfg : Config) (now : ℕ) (i : ℕ) where
  charge-AtRow :
      (Q : Reminder → Type 0) (j : ℕ) (db : Db)
      → i ≢ j
      → AtRow Q i db.rows
      → AtRow Q i (charge_attempt j db).1.rows
  unfolding charge_attempt
  charge-AtRow Q j db ne h = update-AtRow Q i (by_id j) _ (λ r e. apart r.id i j ne e) db.rows h

  charge_due-AtRow :
      (Q : Reminder → Type 0) (row : Reminder) (p : Plan)
      → i ≢ row.id
      → AtRow Q i p.db.rows
      → AtRow Q i (charge_due cfg now row p).db.rows
  unfolding charge_due mark_abandoned
  charge_due-AtRow Q row p ne h =
      let h' = charge-AtRow Q row.id p.db ne h in
      elim (Bool-cases (leb cfg.crash_attempt_limit (charge_attempt row.id p.db).0)) [
        | inl e ↦ rw e (
            update-AtRow Q i (by_id row.id) _ (λ r q. apart r.id i row.id ne q)
              (charge_attempt row.id p.db).1.rows h')
        | inr e ↦ rw e h'
      ]

  pub charge_dues-AtRow :
      (Q : Reminder → Type 0) (rows : List Reminder) (p : Plan)
      → All (λ x. i ≢ x.id) rows
      → AtRow Q i p.db.rows
      → AtRow Q i (charge_dues cfg now rows p).db.rows
  unfolding charge_dues
  charge_dues-AtRow Q [] p ne h = h
  charge_dues-AtRow Q (row ∷ rows) p ne h =
      charge_dues-AtRow Q rows (charge_due cfg now row p) ne.1 (charge_due-AtRow Q row p ne.0 h)

  pub charge_reportable-AtRow :
      (Q : Reminder → Type 0) (row : Reminder) (p : Plan)
      → i ≢ row.id
      → AtRow Q i p.db.rows
      → AtRow Q i (charge_reportable cfg now row p).db.rows
  unfolding charge_reportable mark_reported has
  charge_reportable-AtRow Q row p ne h =
      let h' = charge-AtRow Q row.id p.db ne h in
      elim (Bool-cases (leb cfg.crash_attempt_limit (charge_attempt row.id p.db).0)) [
        | inl e ↦ rw e (
            update-AtRow Q i (λ r. has r.id (row.id ∷ [])) _
              (λ r q. apart r.id i row.id ne (ground arith)) (charge_attempt row.id p.db).1.rows h')
        | inr e ↦ rw e h'
      ]

abbrev pub Fresh : Reminder → Type 0
Fresh r = r.send_attempts ≡ 0

-- The first charge of a row that was not charged before counts at most one attempt.
pub charge_once : (i : ℕ) (db : Db) → AtRow Fresh i db.rows → (charge_attempt i db).0 ≤ 1
unfolding charge_attempt
charge_once i db h = counted (find_id i rows') (λ r e.
    let (m, q) = find_id-some i rows' r e in
    All-In (λ s. s.id ≡ i → s.send_attempts ≤ 1) r rows' charged m q)
  where
    rows' : List Reminder
    rows' = update_where (by_id i) (λ r. record r { send_attempts = r.send_attempts + 1 }) db.rows

    charged : All (λ s. s.id ≡ i → s.send_attempts ≤ 1) rows'
    charged =
        All-update_where (by_id i) (λ r. record r { send_attempts = r.send_attempts + 1 })
          (λ r. r.id ≡ i → Fresh r) (λ s. s.id ≡ i → s.send_attempts ≤ 1) (λ r f. one r f) db.rows h
      where
        one :
            (r : Reminder)
            → (r.id ≡ i → Fresh r)
            → (if r.id == i then record r { send_attempts = r.send_attempts + 1 } else r).id ≡ i
            → (if r.id == i
                then record r { send_attempts = r.send_attempts + 1 }
                else r).send_attempts
              ≤ 1
        one r f = elim (Bool-cases (r.id == i)) [
          | inl e ↦ rw e (λ q. omega (arith, f q))
          | inr e ↦ rw e (λ q. omega (arith, f q))
        ]

    counted :
        (o : Option Reminder)
        → ((r : Reminder) → o ≡ some r → r.send_attempts ≤ 1)
        → (let n : ℕ = elim o [ none ↦ 0 | some r ↦ r.send_attempts ] in n ≤ 1)
    counted none f = omega arith
    counted (some r) f = f r refl
