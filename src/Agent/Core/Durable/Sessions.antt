-- ===== src/Agent/Core/Durable/Sessions.antt =====
-- A session that closes, opens or goes on leaves the checkpoint and the latch.
use henk.Base.{
  ◌≡◌, refl, ◌⊎◌, inl, inr, Bool, true, false, Option, none, some, List, arith, Bool-cases,
  All-append, In-append_left,
}
use henk.Agent.Core.{
  ToolCall, SessionAudit, Core, Run, CoreConfig, write_audit_record, close_open, close_session,
  open_session, continued, is_expired, renew_session, ensure_open,
}
use henk.Agent.Core.Durable.Steps.{IsWritten, IsCalm, Quiet, session_record-IsWritten}

module _ (cfg : CoreConfig) where
  pub close_open-Quiet :
      (w : Bool) (s : Option (List ToolCall)) (a : Option SessionAudit) (c : Core)
      → IsCalm a
      → IsCalm c.acc
      → Quiet c (close_open cfg w s a c) × IsCalm (close_open cfg w s a c).acc
  unfolding close_open write_audit_record
  close_open-Quiet w none a c k k' =
      (record { still = refl; unlatched = refl; kept = λ h. h; grows = λ x i. i }, k')
  close_open-Quiet w (some l) none c k k' =
      (record { still = refl; unlatched = refl; kept = λ h. h; grows = λ x i. i }, tt)
  close_open-Quiet w (some l) (some a) c k k' = elim (Bool-cases a.flushed) [
    | inl e ↦
        simp e (record { still = refl; unlatched = refl; kept = λ h. h; grows = λ x i. i }, tt)
    | inr e ↦
        let plain : a.had_event_turn ≡ false = elim k [ inl f ↦ absurd (cc) | inr f ↦ f ] in
        elim (Bool-cases cfg.audited) [
          | inl h ↦
              simp (e, h)
                (
                  record {
                    still = refl;
                    unlatched = refl;
                    kept = λ o.
                        All-append IsWritten c.attempted _ o
                          (session_record-IsWritten l a w plain, tt);
                    grows = λ x i. In-append_left x c.attempted _ i;
                  },
                  tt,
                )
          | inr h ↦
              simp (e, h)
                (record { still = refl; unlatched = refl; kept = λ o. o; grows = λ x i. i }, tt)
        ]
  ]

  pub close_session-Quiet :
      (w : Bool) (c : Core)
      → IsCalm c.acc
      → Quiet c (close_session cfg w c) × IsCalm (close_session cfg w c).acc
  unfolding close_session
  close_session-Quiet w c k = close_open-Quiet w c.session c.acc c k k

  -- The fields of an accumulator that tell a triage, in the state of a turn.
  abbrev pub Tells : (SessionAudit → Type 0) → Option SessionAudit → Type 0
  Tells P none = Unit
  Tells P (some a) = P a

  -- An accumulator that is of no triage.
  abbrev pub NoTriage : SessionAudit → Type 0
  NoTriage a = a.had_event_turn ≡ false

  abbrev pub IsPlain : Option SessionAudit → Type 0
  IsPlain o = Tells NoTriage o

  pub IsPlain-IsCalm : (a : Option SessionAudit) → IsPlain a → IsCalm a
  IsPlain-IsCalm none h = tt
  IsPlain-IsCalm (some a) h = inr h

  abbrev pub QuietOpen : Core → Option Core → Type 0
  QuietOpen c none = Unit
  QuietOpen c (some d) = Quiet c d × IsPlain d.acc

  pub renew_session-QuietOpen :
      (run : Run) (c : Core) → IsCalm c.acc → QuietOpen c (renew_session cfg run c)
  unfolding renew_session open_session
  renew_session-QuietOpen run c k =
      let q = close_session-Quiet run.close_writes c k in
      elim (Bool-cases run.create_fails) [
        | inl e ↦ rw e tt
        | inr e ↦ rw e (
          record {
            still = q.0.still;
            unlatched = q.0.unlatched;
            kept = q.0.kept;
            grows = q.0.grows;
          },
          refl,
        )
      ]

  pub continued_plain :
      (l : List ToolCall) (a : SessionAudit)
      → (a.flushed ≡ true) ⊎ (a.had_event_turn ≡ false)
      → (continued cfg l a).had_event_turn ≡ false
  continued_plain l a k = ground arith

  pub ensure_open-QuietOpen :
      (run : Run) (s : Option (List ToolCall)) (a : Option SessionAudit) (c : Core)
      → IsCalm a
      → IsCalm c.acc
      → QuietOpen c (ensure_open cfg run s a c)
  unfolding ensure_open
  ensure_open-QuietOpen run none a c k k' = renew_session-QuietOpen run c k'
  ensure_open-QuietOpen run (some l) none c k k' =
      elim (Bool-cases (is_expired cfg run.now c.last_activity)) [
        | inl e ↦ rw e (renew_session-QuietOpen run c k')
        | inr e ↦
            simp e (record { still = refl; unlatched = refl; kept = λ h. h; grows = λ x i. i }, tt)
      ]
  ensure_open-QuietOpen run (some l) (some a) c k k' =
      elim (Bool-cases (is_expired cfg run.now c.last_activity)) [
        | inl e ↦ rw e (renew_session-QuietOpen run c k')
        | inr e ↦ simp e (
          record { still = refl; unlatched = refl; kept = λ h. h; grows = λ x i. i },
          continued_plain l a k,
        )
      ]
