-- ===== src/Reminders/Promptness.antt =====
-- What a tick of henk/reminders/scheduler.py hands to the channel: which reminders, when, with what
-- text, and how many.
use henk.Base.{
  ℕ, ◌+◌, ◌≤◌, ◌≡◌, refl, sym, ap, ◌∙◌, inl, inr, Bool, true, false, ◌&&◌, List, [], ◌∷◌, ◌++◌,
  arith, leb, ltb, length, length-append, length-take_le, All, All-map, All-append, All-take,
  Bool-cases, Text, Option, none, some, codes,
}
use mathlib.Core.List.{append_assoc, append-nil}
use henk.Reminders.Row.{Status, pending, same_status, Reminder}
use henk.Reminders.Table.{select, order_by_due}
use henk.Reminders.Table.Laws.{All-select}
use henk.Reminders.Repository.{
  Db, past_grace, select_due, select_reportable, status_of, charge_attempt,
}
use henk.Channel.{SendOutcome}
use henk.Reminders.World.{Config, Suspension, Receipt, Message, World, Plan}
use henk.Reminders.PreWork.{
  grace_pass, after_grace, charge_due, charge_dues, charge_reportable, charge_reportables, pre_work,
}
use henk.Reminders.Compose.{compose_delivery, notice_for, compose_summary}
use henk.Reminders.Scheduler.{
  record_receipt, record_receipts, send_proactive, settle_delivery, still_pending, dispatch,
  deliver, deliver_all, report, report_if_any, tick,
}
use henk.Reminders.Grace.{after_grace_complete}

-- A row that may be delivered at `now`: due, not deferred, and within the grace window.
pub record IsDeliverable (cfg : Config) (now : ℕ) (row : Reminder) : Type 0 where
  pub was_pending : row.status ≡ pending
  pub due : row.due_at ≤ now
  pub not_deferred : row.next_attempt_at ≤ now
  pub in_grace : now ≤ row.due_at + cfg.late_grace

abbrev due_test : ℕ → Reminder → Bool
due_test now r = same_status r.status pending && leb r.next_attempt_at now && leb r.due_at now

module _ (cfg : Config) (now : ℕ) where
  deliverable :
      (r : Reminder)
      → (past_grace now cfg.late_grace r ≡ false) × (due_test now r ≡ true)
      → IsDeliverable cfg now r
  deliverable r h = ground arith

  charge_due_deliveries :
      (P : Reminder → Type 0) (row : Reminder) (p : Plan)
      → P row
      → All P p.deliveries
      → All P (charge_due cfg now row p).deliveries
        × (length (charge_due cfg now row p).deliveries ≤ length p.deliveries + 1)
  unfolding charge_due
  charge_due_deliveries P row p h k =
      elim (Bool-cases (leb cfg.crash_attempt_limit (charge_attempt row.id p.db).0)) [
        | inl e ↦ rw e (k, omega arith)
        | inr e ↦ rw e (
          All-append P p.deliveries (row ∷ []) k (h, tt),
          omega (arith, length-append p.deliveries (row ∷ [])),
        )
      ]

  -- The deliveries of a plan come from the rows charged, in addition to those it had.
  charge_dues_deliveries :
      (P : Reminder → Type 0) (rows : List Reminder) (p : Plan)
      → All P rows
      → All P p.deliveries
      → All P (charge_dues cfg now rows p).deliveries
        × (length (charge_dues cfg now rows p).deliveries ≤ length p.deliveries + length rows)
  unfolding charge_dues
  charge_dues_deliveries P [] p h k = (k, omega arith)
  charge_dues_deliveries P (row ∷ rows) p h k =
      let (all, n) = charge_due_deliveries P row p h.0 k in
      let (all', n') = charge_dues_deliveries P rows (charge_due cfg now row p) h.1 all in
      (all', omega arith)

  reportables_deliveries :
      (rows : List Reminder) (p : Plan)
      → (charge_reportables cfg now rows p).deliveries ≡ p.deliveries
  unfolding charge_reportables charge_reportable
  reportables_deliveries [] p = refl
  reportables_deliveries (row ∷ rows) p =
      reportables_deliveries rows (charge_reportable cfg now row p)
      ∙ elim (Bool-cases (leb cfg.crash_attempt_limit (charge_attempt row.id p.db).0)) [
        | inl e ↦ rw e
        | inr e ↦ rw e
      ]

  grace_deliveries :
      (rows : List Reminder) (p : Plan) → (grace_pass now rows p).deliveries ≡ p.deliveries
  unfolding grace_pass
  grace_deliveries [] p = refl
  grace_deliveries (row ∷ rows) p = grace_deliveries rows _

  pub pre_work_deliveries :
      (db : Db)
      → All (IsDeliverable cfg now) (pre_work cfg now db).deliveries
        × (length (pre_work cfg now db).deliveries ≤ cfg.tick_delivery_limit)
  unfolding pre_work select_due
  pre_work_deliveries db =
      let g : Plan = after_grace cfg now db in
      let due : List Reminder = select_due now cfg.tick_delivery_limit g.db in
      let none_yet : g.deliveries ≡ [] = unfold after_grace in grace_deliveries _ _ in
      let eligible : All (IsDeliverable cfg now) due =
        All-take (IsDeliverable cfg now) cfg.tick_delivery_limit (select (due_test now) g.db.rows) (
          All-map (λ r. (past_grace now cfg.late_grace r ≡ false) × (due_test now r ≡ true))
            (IsDeliverable cfg now) (select (due_test now) g.db.rows) deliverable
            (All-select (λ r. past_grace now cfg.late_grace r ≡ false) (due_test now) g.db.rows
              (after_grace_complete cfg now db))) in
      let (all, n) =
        charge_dues_deliveries (IsDeliverable cfg now) due g eligible (rw none_yet tt) in
      let few = length-take_le cfg.tick_delivery_limit (select (due_test now) g.db.rows) in
      rw (reportables_deliveries (select_reportable now g.db) (charge_dues cfg now due g))
        (all, omega (arith, few, n, ap length none_yet))

-- The text of a delivery: the marker, when it was due if it is late, and the reminder's own text.
abbrev pub Carries : (ℕ → Text) → Reminder → Bool → Text → Type 0
Carries render row true text =
    text ≡ codes "⏰ Reminder (was due " ++ (render row.due_at ++ (codes "): " ++ row.text))
Carries render row false text = text ≡ codes "⏰ Reminder: " ++ row.text

-- A message that a tick may hand to the channel: of a deliverable row, stated late exactly past the
-- threshold, with the row's own text.
abbrev pub IsPrompt : Config → (ℕ → Text) → ℕ → Message → Type 0
IsPrompt cfg render now (Message.delivery row late text notice) =
    IsDeliverable cfg now row
    × (late ≡ ltb (row.due_at + cfg.late_delivery_threshold) now)
    × Carries render row late text
IsPrompt cfg render now (Message.summary rows text) = ⊥

compose_delivery-Carries :
    (render : ℕ → Text) (row : Reminder) (late : Bool)
    → Carries render row late (compose_delivery render row late)
unfolding compose_delivery
compose_delivery-Carries render row true = refl
compose_delivery-Carries render row false = refl

still_pending_lem : (o : Option Status) → still_pending o ≡ true → o ≡ some pending
still_pending_lem none h = absurd (cc)
still_pending_lem (some s) h = ground arith

receipts_sent : (l : List Receipt) (w : World) → (record_receipts l w).sent ≡ w.sent
unfolding record_receipts
receipts_sent [] w = refl
receipts_sent (r ∷ l) w = receipts_sent l (record_receipt r w)

settle_sent :
    (cfg : Config) (now : ℕ) (row : Reminder) (late : Bool) (o : SendOutcome) (w : World)
    → (settle_delivery cfg now row late o w).sent ≡ w.sent
unfolding settle_delivery record_receipt
settle_sent cfg now row late SendOutcome.failed w = refl
settle_sent cfg now row late _ w = refl

-- The summary that closes a tick, if there is anything to report.
abbrev pub closing : (ℕ → Text) → List Reminder → List Message
closing render [] = []
closing render (row ∷ rows) =
    let ordered = order_by_due (row ∷ rows) in
    Message.summary ordered (compose_summary render ordered) ∷ []

module _ (cfg : Config) (render : ℕ → Text) (wire : ℕ → Suspension) (now : ℕ) where
  -- From a state of the tick, the messages are handed to the channel one by one: each is prompt, and
  -- its reminder is pending in the table as it stands when the message is sent. Then what runs during
  -- its send, and the write after it, give the table for the next.
  abbrev pub Hands : World → List Message → Type 0
  Hands w [] = Unit
  Hands w (Message.summary rows text ∷ l) = ⊥
  Hands w (Message.delivery row late text notice ∷ l) =
      IsPrompt cfg render now (Message.delivery row late text notice)
      × (status_of row.id w.db ≡ some pending)
      × Hands (dispatch cfg render wire now row w) l

  -- The messages added to those already sent: at most `k`, handed on from `w`.
  record Sends (k : ℕ) (w w' : World) : Type 0 where
    more : List Message
    appended : w'.sent ≡ w.sent ++ more
    each : Hands w more
    few : length more ≤ k

  dispatch_sent :
      (row : Reminder) (w : World)
      → (m : Message) × ((dispatch cfg render wire now row w).sent ≡ w.sent ++ m ∷ [])
        × (IsDeliverable cfg now row
            → status_of row.id w.db ≡ some pending
            → (l : List Message) → Hands (dispatch cfg render wire now row w) l
            → Hands w (m ∷ l))
  dispatch_sent row w =
      let late = ltb (row.due_at + cfg.late_delivery_threshold) now in
      (
        Message.delivery row late (compose_delivery render row late) (notice_for render row),
        unfold dispatch in
            unfold send_proactive in settle_sent cfg now row late (wire w.sends).outcome _,
        λ h p l k. ((h, refl, compose_delivery-Carries render row late), p, k),
      )

  deliver_all-Sends :
      (rows : List Reminder) (w : World)
      → All (IsDeliverable cfg now) rows
      → Sends (length rows) w (deliver_all cfg render wire now rows w)
  unfolding deliver_all deliver
  deliver_all-Sends [] w h = record {
    more = [];
    appended = sym (append-nil w.sent);
    each = tt;
    few = omega arith;
  }
  deliver_all-Sends (row ∷ rows) w h = elim (Bool-cases (still_pending (status_of row.id w.db))) [
    | inr e ↦
        let b = deliver_all-Sends rows w h.1 in
        rw e (record {
          more = b.more;
          appended = b.appended;
          each = b.each;
          few = omega (arith, b.few);
        })
    | inl e ↦
        let (m, a, k) = dispatch_sent row w in
        let b = deliver_all-Sends rows (dispatch cfg render wire now row w) h.1 in
        rw e (record {
          more = m ∷ b.more;
          appended =
              b.appended
              ∙ ap (λ (l : List Message). l ++ b.more) a
              ∙ append_assoc w.sent (m ∷ []) b.more;
          each = k h.0 (still_pending_lem (status_of row.id w.db) e) b.more b.each;
          few = omega (arith, b.few);
        })
  ]

  report_sent :
      (rows : List Reminder) (w : World)
      → (report_if_any cfg render wire now rows w).sent ≡ w.sent ++ closing render rows
  unfolding report_if_any report send_proactive
  report_sent [] w = sym (append-nil w.sent)
  report_sent (row ∷ rows) w = refl

  -- A tick hands the channel at most `tick_delivery_limit` deliveries and then, if its report is
  -- not empty, one summary. Each delivery is of a row that was due, not deferred and within the grace
  -- window when the tick began, and whose reminder is still pending in the table at the moment of its
  -- send, after everything that ran during the earlier sends; it states its lateness exactly past the
  -- threshold, and its text is the marker, the due time if it is late, and the reminder's own text.
  -- This holds for every outcome of the sends and every interleaving.
  pub tick-Hands :
      (w : World)
      → (ds : List Message) × ((tick cfg render wire now w).sent
          ≡ (w.sent ++ ds) ++ closing render (pre_work cfg now w.db).report)
        × Hands
            (record_receipts
              (pre_work cfg now w.db).receipts
              (record w { db = (pre_work cfg now w.db).db }))
            ds
        × (length ds ≤ cfg.tick_delivery_limit)
  unfolding tick
  tick-Hands w =
      let plan : Plan = pre_work cfg now w.db in
      let w₁ : World = record_receipts plan.receipts (record w { db = plan.db }) in
      let w₂ : World = deliver_all cfg render wire now plan.deliveries w₁ in
      let (eligible, n) = pre_work_deliveries cfg now w.db in
      let s = deliver_all-Sends plan.deliveries w₁ eligible in
      let same : w₁.sent ≡ w.sent = receipts_sent plan.receipts (record w { db = plan.db }) in
      (
        s.more,
        report_sent plan.report w₂
            ∙ ap (λ l. l ++ closing render plan.report)
                (s.appended ∙ ap (λ (l : List Message). l ++ s.more) same),
        s.each,
        omega (arith, s.few, n),
      )
