-- ===== src/Reminders/Grace/Named.antt =====
-- A row that the grace pass of henk/reminders/scheduler.py marks missed is reported in the same
-- tick: it was not charged before, so the crash bound does not retire it unnamed.
use henk.Base.{
  ℕ, ◌≤◌, ◌<◌, ◌≡◌, ◌≢◌, refl, sym, inl, inr, Bool, true, false, ◌||◌, ◌&&◌, not, List, [], ◌∷◌,
  ◌++◌, arith, leb, ◌==◌, has, All, All-map, All-take, All-In, All-of_In, In, Bool-cases, Grows,
  ==_iff,
}
use henk.Reminders.Row.{pending, same_status, Reminder}
use henk.Reminders.Table.{select, ids_of}
use henk.Reminders.Table.Laws.{All-select, Ascending-unique}
use henk.Reminders.Table.Select.{In-select, has-ids_of}
use henk.Reminders.Repository.{
  Db, past_grace, select_past_grace, select_due, select_reportable, undelivered, is_some,
  charge_attempt,
}
use henk.Reminders.World.{Config, Plan}
use henk.Reminders.PreWork.{
  after_grace, charge_dues, charge_reportable, charge_reportables, pre_work,
}
use henk.Reminders.Retention.{IsValid, Keeps}
use henk.Reminders.Retention.PreWork.{after_grace-Evolves}
use henk.Reminders.Grace.{after_grace_complete}
use henk.Reminders.Grace.Charges.{
  AtRow, Lapsed, Lapsing, Fresh, grace_pass-Lapsing, charge_dues-AtRow, charge_reportable-AtRow,
  charge_once,
}

-- A row of a table that has evolved is still there, by its id.
kept_row :
    (x : Reminder) (xs ys : List Reminder)
    → In x xs
    → Grows Keeps xs ys
    → (y : Reminder) × In y ys × (y.id ≡ x.id)
kept_row x [] ys m g = absurd m
kept_row x (a ∷ xs) [] m g = absurd g
kept_row x (a ∷ xs) (b ∷ ys) (inl e) g = (b, inl refl, rw e g.0.same_id)
kept_row x (a ∷ xs) (b ∷ ys) (inr m) g = let (y, n, q) = kept_row x xs ys m g.1 in (y, inr n, q)

has-append :
    (i : ℕ) (xs ys : List Reminder)
    → has i (ids_of (xs ++ ys)) ≡ (has i (ids_of xs) || has i (ids_of ys))
unfolding has
has-append i [] ys = refl
has-append i (x ∷ xs) ys = rw (has-append i xs ys) (ground arith)

module _ (cfg : Config) (now : ℕ) (i : ℕ) where
  -- What the report names it goes on naming.
  charge_reportables_keep :
      (rows : List Reminder) (p : Plan)
      → has i (ids_of p.report) ≡ true
      → has i (ids_of (charge_reportables cfg now rows p).report) ≡ true
  unfolding charge_reportables charge_reportable
  charge_reportables_keep [] p h = h
  charge_reportables_keep (row ∷ rows) p h =
      charge_reportables_keep rows (charge_reportable cfg now row p)
        (elim (Bool-cases (leb cfg.crash_attempt_limit (charge_attempt row.id p.db).0)) [
          | inl e ↦ rw e h
          | inr e ↦ rw (e, has-append i p.report (row ∷ []), h) (ground arith)
        ])

  -- A selected row that was not charged before is named, if the crash bound allows one attempt.
  charge_reportables_name :
      (rows : List Reminder) (p : Plan)
      → 1 < cfg.crash_attempt_limit
      → AtRow Fresh i p.db.rows
      → has i (ids_of rows) ≡ true
      → has i (ids_of (charge_reportables cfg now rows p).report) ≡ true
  unfolding charge_reportables has
  charge_reportables_name [] p lim h m = cc
  charge_reportables_name (row ∷ rows) p lim h m = elim (Bool-cases (i == row.id)) [
    | inl e ↦
        let same : i ≡ row.id = (==_iff i row.id).0 e in
        let once : (charge_attempt row.id p.db).0 ≤ 1 = charge_once row.id p.db (rw same at h) in
        let under : leb cfg.crash_attempt_limit (charge_attempt row.id p.db).0 ≡ false =
          ground (arith, once, lim) in
        charge_reportables_keep rows (charge_reportable cfg now row p) (
          unfold charge_reportable in
          rw (under, has-append i p.report (row ∷ []), e) (ground arith))
    | inr e ↦
        let ne : i ≢ row.id = λ q. let t = (==_iff i row.id).1 q in cc (t, e) in
        charge_reportables_name rows (charge_reportable cfg now row p) lim
          (charge_reportable-AtRow cfg now i Fresh row p ne h) (rw e at m)
  ]

abbrev due_test : ℕ → Reminder → Bool
due_test now r = same_status r.status pending && leb r.next_attempt_at now && leb r.due_at now

abbrev report_test : ℕ → Reminder → Bool
report_test now r = undelivered r.status && not (is_some r.reported_at) && leb r.next_attempt_at now

Lapsed-reportable : (now : ℕ) (r : Reminder) → Lapsed now r → report_test now r ≡ true
Lapsed-reportable now r h = ground arith

Lapsed-not_due : (now : ℕ) (r : Reminder) → Lapsed now r → due_test now r ≡ true → ⊥
Lapsed-not_due now r h q = ground arith

Lapsing-after :
    (now grace : ℕ) (r : Reminder)
    → past_grace now grace r ≡ false
    → Lapsing now grace r
    → Lapsed now r
Lapsing-after now grace r e (inl q) = absurd (cc)
Lapsing-after now grace r e (inr q) = q

module _ (cfg : Config) (now : ℕ) (db : Db) (v : IsValid db) (x : Reminder) where
  graced : Plan
  graced = after_grace cfg now db

  -- After the grace pass the row is missed, unreported and uncharged.
  after_grace-Lapsed :
      In x db.rows → past_grace now cfg.late_grace x ≡ true → AtRow (Lapsed now) x.id graced.db.rows
  unfolding graced
  after_grace-Lapsed m past =
      All-of_In (λ r. r.id ≡ x.id → Lapsed now r) (after_grace cfg now db).db.rows
        (λ r n e.
          Lapsing-after now cfg.late_grace r
            (All-In (λ s. past_grace now cfg.late_grace s ≡ false) r
              (after_grace cfg now db).db.rows (after_grace_complete cfg now db) n)
            (All-In (λ s. s.id ≡ x.id → Lapsing now cfg.late_grace s) r
              (after_grace cfg now db).db.rows lapsing n e))
    where
      lapsing : AtRow (Lapsing now cfg.late_grace) x.id (after_grace cfg now db).db.rows
      lapsing =
          unfold after_grace in
          grace_pass-Lapsing now cfg.late_grace x.id (select_past_grace now cfg.late_grace db)
            (record { db = db; deliveries = []; report = []; receipts = [] })
            (Ascending-unique (Lapsing now cfg.late_grace) 0 x db.rows v.ascending m (inl past))

  -- The pre-work transaction puts every row that is past its window into the tick's report.
  pub pre_work-names :
      1 < cfg.crash_attempt_limit
      → In x db.rows
      → past_grace now cfg.late_grace x ≡ true
      → has x.id (ids_of (pre_work cfg now db).report) ≡ true
  unfolding pre_work graced select_due select_reportable
  pre_work-names lim m past =
      let g : Plan = after_grace cfg now db in
      let lapsed = after_grace-Lapsed m past in
      let (y, n, same) =
        kept_row x db.rows g.db.rows m (after_grace-Evolves cfg now db v).retained in
      let y_lapsed : Lapsed now y =
        All-In (λ r. r.id ≡ x.id → Lapsed now r) y g.db.rows lapsed n same in
      let due : List Reminder = select_due now cfg.tick_delivery_limit g.db in
      let others : All (λ r. x.id ≢ r.id) due =
        All-take (λ r. x.id ≢ r.id) cfg.tick_delivery_limit (select (due_test now) g.db.rows)
          (All-map (λ r. In r g.db.rows × (due_test now r ≡ true)) (λ r. x.id ≢ r.id)
            (select (due_test now) g.db.rows)
            (λ r h e.
              Lapsed-not_due now r
                (All-In (λ s. s.id ≡ x.id → Lapsed now s) r g.db.rows lapsed h.0 (sym e)) h.1)
            (All-select (λ r. In r g.db.rows) (due_test now) g.db.rows
              (All-of_In (λ r. In r g.db.rows) g.db.rows (λ r h. h)))) in
      let fresh : AtRow Fresh x.id (charge_dues cfg now due g).db.rows =
        charge_dues-AtRow cfg now x.id Fresh due g others (
          All-map (λ r. r.id ≡ x.id → Lapsed now r) (λ r. r.id ≡ x.id → Fresh r) g.db.rows
            (λ r f e. (f e).3) lapsed) in
      let selected = In-select (report_test now) y g.db.rows n (Lapsed-reportable now y y_lapsed) in
      charge_reportables_name cfg now x.id (select_reportable now g.db) (charge_dues cfg now due g)
        lim fresh (rw same at (has-ids_of y (select (report_test now) g.db.rows) selected))
