-- ===== src/Agent/Core/Durable/Triaging.antt =====
-- The state in which a triage is flushed.
use henk.Base.{
  ◌≡◌, refl, sym, ap, ◌∙◌, subst, inl, inr, Option, none, some, List, [], ◌∷◌, ◌++◌, Text, arith,
  Bool-cases, All,
}
use henk.Events.{EventTurn}
use henk.Coordinator.{HeldRelease}
use henk.Agent.Core.{
  ToolCall, SessionAudit, Core, Run, CoreTurn, CoreConfig, take_recall, run_turn, counted,
  ending_of, open_session, recall, send_triage, start_event_session,
}
use henk.Agent.Core.Durable.Steps.{IsWritten, IsCalm, IsDurable, Covers, Moves, Quiet}
use henk.Agent.Core.Durable.Sessions.{close_session-Quiet, Tells}
use henk.Agent.Core.Durable.Turns.{take_recall-Quiet}
use henk.Agent.Core.Durable.Flush.{IsTriage}

module _ (cfg : CoreConfig) where
  -- The turn's session is open, with the accumulator of its triage.
  abbrev pub IsTriaging : EventTurn HeldRelease → Core → Type 0
  IsTriaging t c =
      (l : List ToolCall) × (a : SessionAudit) × (c.session ≡ some l)
      × (c.acc ≡ some a)
      × IsTriage cfg t a

  pub take_recall-IsTriaging :
      (t : EventTurn HeldRelease) (hash : Option (Option Text)) (a : SessionAudit)
      (l : List ToolCall) (c : Core)
      → c.session ≡ some l
      → c.acc ≡ some a
      → IsTriage cfg t a
      → IsTriaging t (take_recall hash a c)
  unfolding take_recall
  take_recall-IsTriaging t none a l c hs ha i = (l, a, hs, ha, i)
  take_recall-IsTriaging t (some none) a l c hs ha i = elim (Bool-cases c.recall_given) [
    | inl e ↦ simp e (l, a, hs, ha, i)
    | inr e ↦ simp e (l, a, hs, refl, i)
  ]
  take_recall-IsTriaging t (some (some h)) a l c hs ha i = elim (Bool-cases c.recall_given) [
    | inl e ↦ simp e (l, a, hs, ha, i)
    | inr e ↦ simp e (l, record a { memory_hash = some h }, hs, refl, i)
  ]

  pub run_turn-IsTriaging :
      (t : EventTurn HeldRelease) (run : Run) (c : Core)
      → IsTriaging t c
      → let f : SessionAudit → SessionAudit =
          λ a. counted run (record a { outcome = ending_of run }) in
        IsTriaging t (run_turn run f c)
  unfolding run_turn
  run_turn-IsTriaging t run c (l, a, hs, ha, i) =
      let b : SessionAudit = record a { approvals = a.approvals ++ run.receipts } in
      let k : IsTriage cfg t (counted run (record b { outcome = ending_of run })) = ground arith in
      (
        l ++ run.calls,
        counted run (record b { outcome = ending_of run }),
        rw hs refl,
        rw ha refl,
        k,
      )

  pub send_triage_lem :
      (t : EventTurn HeldRelease) (run : Run) (x : Option Text × Core)
      → let d = send_triage cfg t run x in
        (d.checkpoints ≡ x.1.checkpoints)
        × (d.checkpoint_blocked ≡ x.1.checkpoint_blocked)
        × (d.attempted ≡ x.1.attempted)
        × (d.acc ≡ x.1.acc)
  unfolding send_triage
  send_triage_lem t run (handoff, c) = elim (Bool-cases t.announceable) [
    | inl e ↦ simp e (refl, refl, refl, refl)
    | inr e ↦ simp e (refl, refl, refl, refl)
  ]

  -- What Moves and IsDurable read of the state after.
  pub same_after :
      (t : CoreTurn) (c d e : Core)
      → e.checkpoints ≡ d.checkpoints
      → e.checkpoint_blocked ≡ d.checkpoint_blocked
      → e.attempted ≡ d.attempted
      → e.acc ≡ d.acc
      → IsDurable d × Moves t c d
      → IsDurable e × Moves t c e
  same_after t c d e p b l a (v, m) = (
    record {
      calm = subst IsCalm (sym a) v.calm;
      latched = elim v.latched [
        | inl h ↦ inl (b ∙ h)
        | inr h ↦ inr (subst (All IsWritten) (sym l) h)
      ];
    },
    elim m [
      | inl h ↦ inl (p ∙ h)
      | inr (o, h, q, f, w, u) ↦
          inr (o, h, p ∙ q, f, subst (All IsWritten) (sym l) w, subst (Covers t) (sym l) u)
    ],
  )

  -- What Moves reads of the state before.
  pub same_before :
      (t : CoreTurn) (c d e : Core)
      → d.checkpoints ≡ c.checkpoints
      → d.checkpoint_blocked ≡ c.checkpoint_blocked
      → Moves t d e
      → Moves t c e
  same_before t c d e p b (inl h) = inl (h ∙ p)
  same_before t c d e p b (inr (o, h, q, f, w, u)) =
      inr (o, h, q ∙ ap (λ x. x ++ o ∷ []) p, sym b ∙ f, w, u)

  pub told_nothing : (o : Option SessionAudit) → Tells cfg (λ _. Unit) o
  told_nothing none = tt
  told_nothing (some a) = tt

  pub started :
      (t : EventTurn HeldRelease) (run : Run) (c : Core)
      → IsDurable c
      → Quiet c (start_event_session cfg t run c)
        × ((start_event_session cfg t run c).session ≡ some [])
        × ((a : SessionAudit) × ((start_event_session cfg t run c).acc ≡ some a) × IsTriage cfg t a)
  unfolding start_event_session open_session
  started t run c v =
      let (q, k) = close_session-Quiet cfg run.close_writes c v.calm in
      (
        record { still = q.still; unlatched = q.unlatched; kept = q.kept; grows = q.grows },
        refl,
        (_, refl, (refl, refl, refl)),
      )

  pub recalled :
      (t : EventTurn HeldRelease) (run : Run) (c : Core)
      → c.session ≡ some []
      → (a : SessionAudit) × (c.acc ≡ some a) × IsTriage cfg t a
      → Quiet c (recall cfg run c) × IsTriaging t (recall cfg run c)
  unfolding recall
  recalled t run c hs (a, ha, i) =
      subst
        (λ o.
          let d = elim o as (λ _. Core) [ none ↦ c | some b ↦ take_recall run.recall b c ] in
          Quiet c d × IsTriaging t d)
        (sym ha)
        (take_recall-Quiet cfg run.recall a c, take_recall-IsTriaging t run.recall a [] c hs ha i)
