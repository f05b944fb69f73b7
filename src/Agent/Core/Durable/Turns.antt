-- ===== src/Agent/Core/Durable/Turns.antt =====
-- An owner's turn leaves the checkpoint and the latch.
use henk.Base.{
  refl, sym, subst, inl, inr, Option, none, some, List, ◌++◌, Text, codes, text_eq, arith,
  Bool-cases, Option-cases,
}
use henk.Store.Content.{strip}
use henk.Agent.Ending.{TriageEnding}
use henk.Agent.Core.{
  SessionAudit, Sent, Core, Run, CoreConfig, take_recall, run_turn, counted, masked, ending_of,
  close_session, ensure_open, recall, owner_turn, conclude_owner, process_agent_turn, process_owner,
}
use henk.Agent.Core.Durable.Steps.{IsCalm, Quiet, Quiet-refl, Quiet-trans}
use henk.Agent.Core.Durable.Sessions.{
  close_session-Quiet, Tells, NoTriage, IsPlain, IsPlain-IsCalm, QuietOpen, ensure_open-QuietOpen,
}

module _ (cfg : CoreConfig) where
  pub take_recall-Quiet :
      (hash : Option (Option Text)) (a : SessionAudit) (c : Core) → Quiet c (take_recall hash a c)
  unfolding take_recall
  take_recall-Quiet none a c = Quiet-refl c
  take_recall-Quiet (some hash) a c = elim (Bool-cases c.recall_given) [
    | inl e ↦ simp e (Quiet-refl c)
    | inr e ↦ simp e (record { still = refl; unlatched = refl; kept = λ h. h; grows = λ x i. i })
  ]

  pub take_recall-Tells :
      (P : SessionAudit → Type 0) (hash : Option (Option Text)) (a : SessionAudit) (c : Core)
      → ((b : SessionAudit) (h : Option Text) → P b → P (record b { memory_hash = h }))
      → P a
      → Tells cfg P c.acc
      → Tells cfg P (take_recall hash a c).acc
  unfolding take_recall
  take_recall-Tells P none a c k p q = q
  take_recall-Tells P (some none) a c k p q = elim (Bool-cases c.recall_given) [
    | inl e ↦ simp e q
    | inr e ↦ simp e p
  ]
  take_recall-Tells P (some (some h)) a c k p q = elim (Bool-cases c.recall_given) [
    | inl e ↦ simp e q
    | inr e ↦ simp e (k a (some h) p)
  ]

  pub recall_lem :
      (P : SessionAudit → Type 0) (run : Run) (o : Option SessionAudit) (c : Core)
      → ((b : SessionAudit) (h : Option Text) → P b → P (record b { memory_hash = h }))
      → Tells cfg P o
      → Tells cfg P c.acc
      → let d = elim o as (λ _. Core) [ none ↦ c | some a ↦ take_recall run.recall a c ] in
        Quiet c d × Tells cfg P d.acc
  recall_lem P run none c k p q = (Quiet-refl c, q)
  recall_lem P run (some a) c k p q =
      (take_recall-Quiet run.recall a c, take_recall-Tells P run.recall a c k p q)

  pub run_turn_lem :
      (P Q : SessionAudit → Type 0) (run : Run) (f : SessionAudit → SessionAudit) (c : Core)
      → ((a : SessionAudit) → P a → Q (f (record a { approvals = a.approvals ++ run.receipts })))
      → Tells cfg P c.acc
      → Quiet c (run_turn run f c) × Tells cfg Q (run_turn run f c).acc
  unfolding run_turn
  run_turn_lem P Q run f c k p = (
    record { still = refl; unlatched = refl; kept = λ h. h; grows = λ x i. i },
    elim (Option-cases c.acc) [
      | inl e ↦
          subst
            (λ o. Tells cfg Q (elim o as (λ _. Option SessionAudit) [
              | none ↦ none
              | some a ↦ some (f (record a { approvals = a.approvals ++ run.receipts }))
            ]))
            (sym e) tt
      | inr (a, e) ↦
          subst
            (λ o. Tells cfg Q (elim o as (λ _. Option SessionAudit) [
              | none ↦ none
              | some a ↦ some (f (record a { approvals = a.approvals ++ run.receipts }))
            ]))
            (sym e) (k a (subst (Tells cfg P) e p))
    ],
  )

  pub told-Quiet : (c d : Core) (sent : List Sent) → Quiet c d → Quiet c (record d { sent = sent })
  told-Quiet c d sent q = record {
    still = q.still;
    unlatched = q.unlatched;
    kept = q.kept;
    grows = q.grows;
  }

  pub owner_turn-Quiet :
      (run : Run) (c : Core)
      → IsPlain cfg c.acc
      → Quiet c (owner_turn cfg run c) × IsPlain cfg (owner_turn cfg run c).acc
  unfolding owner_turn recall run_turn
  owner_turn-Quiet run c p =
      let r = recall_lem (NoTriage cfg) run c.acc c (λ b h q. q) p p in
      let d = recall cfg run c in
      let f : SessionAudit → SessionAudit =
        λ a. record a { outcome = TriageEnding.error none none } in
      let g : SessionAudit → SessionAudit = λ a. masked (ending_of run) (counted run a) in
      let x = run_turn_lem (NoTriage cfg) (NoTriage cfg) run f d (λ a q. q) r.1 in
      let y = run_turn_lem (NoTriage cfg) (NoTriage cfg) run g d (λ a q. ground arith) r.1 in
      elim (Bool-cases run.raised) [
        | inl e ↦
            simp e
              (told-Quiet c (run_turn run f d) _ (Quiet-trans c d (run_turn run f d) r.0 x.0), x.1)
        | inr e ↦
            simp e
              (told-Quiet c (run_turn run g d) _ (Quiet-trans c d (run_turn run g d) r.0 y.0), y.1)
      ]

  pub conclude_owner-Quiet :
      (run : Run) (o : Option Core) (c d : Core)
      → QuietOpen cfg c o
      → Quiet c d
      → IsCalm d.acc
      → Quiet c (conclude_owner cfg run o d) × IsCalm (conclude_owner cfg run o d).acc
  unfolding conclude_owner
  conclude_owner-Quiet run none c d h q k = (told-Quiet c d _ q, k)
  conclude_owner-Quiet run (some e) c d h q k =
      let x = owner_turn-Quiet run e h.1 in
      (
        Quiet-trans c e (owner_turn cfg run e) h.0 x.0,
        IsPlain-IsCalm cfg (owner_turn cfg run e).acc x.1,
      )

  pub process_owner-Quiet :
      (text : Text) (command : Option Text) (run : Run) (c : Core)
      → IsCalm c.acc
      → Quiet c (process_owner cfg text command run c)
        × IsCalm (process_owner cfg text command run c).acc
  unfolding process_owner process_agent_turn
  process_owner-Quiet text command run c k =
      let (q, k') = close_session-Quiet cfg run.close_writes c k in
      elim (Bool-cases (text_eq (strip text) (codes "/new"))) [
        | inl e ↦ rw e (
          record { still = q.still; unlatched = q.unlatched; kept = q.kept; grows = q.grows },
          k',
        )
        | inr e ↦ elim (Option-cases command) [
          | inl n ↦
              rw (e, n)
                (conclude_owner-Quiet run (ensure_open cfg run c.session c.acc c) c
                  (close_session cfg run.close_writes c)
                  (ensure_open-QuietOpen cfg run c.session c.acc c k k) q k')
          | inr (r, n) ↦ rw (e, n) (told-Quiet c c _ (Quiet-refl c), k)
        ]
      ]
