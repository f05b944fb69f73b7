-- ===== src/Reminders/Summary.antt =====
-- The rows that the grace window of henk/reminders/scheduler.py drops, and the catch-up summary of the
-- same tick.
use henk.Base.{
  ℕ, ◌+◌, ◌<◌, ◌≡◌, refl, sym, ap, ◌∙◌, inl, inr, true, List, [], ◌∷◌, ◌++◌, arith, ◌==◌, has, In,
  Bool-cases, Text, ==_iff,
}
use henk.Reminders.Row.{pending, Reminder}
use henk.Reminders.Table.{ids_of, order_by_due}
use henk.Reminders.Table.Select.{In-order_by_due, has-ids_of}
use henk.Reminders.Repository.{past_grace}
use henk.Reminders.World.{Config, Suspension, Message, World}
use henk.Reminders.PreWork.{pre_work}
use henk.Reminders.Compose.{compose_summary}
use henk.Reminders.Scheduler.{tick}
use henk.Reminders.Retention.{IsValid}
use henk.Reminders.Grace.Named.{pre_work-names}
use henk.Reminders.Promptness.{closing, tick-Hands}

named_row :
    (i : ℕ) (rows : List Reminder)
    → has i (ids_of rows) ≡ true
    → (y : Reminder) × In y rows × (y.id ≡ i)
unfolding has
named_row i [] h = absurd (cc)
named_row i (r ∷ rs) h = elim (Bool-cases (i == r.id)) [
  | inl e ↦ (r, inl refl, sym ((==_iff i r.id).0 e))
  | inr e ↦ let (y, m, q) = named_row i rs (rw e at h) in (y, inr m, q)
]

closing_names :
    (render : ℕ → Text) (i : ℕ) (rows : List Reminder)
    → has i (ids_of rows) ≡ true
    → (named : List Reminder) × (closing render rows
        ≡ Message.summary named (compose_summary render named) ∷ [])
      × (has i (ids_of named) ≡ true)
closing_names render i [] h = absurd (let (y, m, q) = named_row i [] h in m)
closing_names render i (r ∷ rs) h =
    let (y, m, q) = named_row i (r ∷ rs) h in
    (
      order_by_due (r ∷ rs),
      refl,
      rw q at (has-ids_of y (order_by_due (r ∷ rs)) (In-order_by_due y (r ∷ rs) m)),
    )

-- Where the crash bound allows more than one attempt: a reminder of a valid table that is pending
-- and past its grace window when a tick reads the clock is named in the catch-up summary that this
-- tick sends last, whatever the delivery cap, the outcomes of the sends and other tasks do.
pub tick-names_lapsed :
    (cfg : Config) (render : ℕ → Text) (wire : ℕ → Suspension) (now : ℕ) (w : World) (x : Reminder)
    → IsValid w.db
    → 1 < cfg.crash_attempt_limit
    → In x w.db.rows
    → x.status ≡ pending
    → x.due_at + cfg.late_grace < now
    → (before : List Message) × (named : List Reminder) × ((tick cfg render wire now w).sent
        ≡ before ++ Message.summary named (compose_summary render named) ∷ [])
      × (has x.id (ids_of named) ≡ true)
tick-names_lapsed cfg render wire now w x v lim m waiting lapsed =
    let past : past_grace now cfg.late_grace x ≡ true = ground arith in
    let named = pre_work-names cfg now w.db v x lim m past in
    let (rows, e, q) = closing_names render x.id (pre_work cfg now w.db).report named in
    let (ds, sent, _, _) = tick-Hands cfg render wire now w in
    (w.sent ++ ds, rows, sent ∙ ap (λ l. (w.sent ++ ds) ++ l) e, q)
