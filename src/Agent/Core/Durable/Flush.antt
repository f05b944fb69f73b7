-- ===== src/Agent/Core/Durable/Flush.antt =====
-- A triage's flush of henk/agent/core.py, the checkpoint and the latch.
use henk.Base.{
  ◌≡◌, ◌≢◌, refl, sym, ap, ◌∙◌, subst, ◌⊎◌, inl, inr, Bool, true, false, not, ◌||◌, Option, none,
  some, List, [], ◌∷◌, ◌++◌, Text, ◌==◌, length, drop, arith, Bool-cases, All, All-append, In-last,
}
use henk.Events.{EventTurn}
use henk.Coordinator.{HeldRelease, CoreItem}
use henk.Agent.Core.{
  ToolCall, SessionAudit, Core, Run, CoreTurn, CoreConfig, handoff_of, session_record,
  advance_checkpoint, write_audit_record, identity_keys, note_handoff_ids, mark_release, latch,
  conclude_flush, flush_acc, flush_open,
}
use henk.Agent.Core.Durable.Steps.{
  IsWritten, IsCalm, IsDurable, offset_of, Covers, Moves, Quiet, Quiet-refl,
}
use henk.Agent.Core.Durable.Sessions.{Tells}

module _ (cfg : CoreConfig) where
  pub note_handoff_ids-Quiet :
      (t : EventTurn HeldRelease) (o : Option Text) (c : Core)
      → Quiet c (note_handoff_ids cfg t o c)
        × ((note_handoff_ids cfg t o c).acc ≡ c.acc)
        × ((note_handoff_ids cfg t o c).attempted ≡ c.attempted)
  unfolding note_handoff_ids
  note_handoff_ids-Quiet t none c = (Quiet-refl c, refl, refl)
  note_handoff_ids-Quiet t (some id) c =
      (record { still = refl; unlatched = refl; kept = λ h. h; grows = λ x i. i }, refl, refl)

  pub mark_release-Quiet :
      (r : Option HeldRelease) (ok : Bool) (c : Core)
      → Quiet c (mark_release cfg r ok c)
        × ((mark_release cfg r ok c).acc ≡ c.acc)
        × ((mark_release cfg r ok c).attempted ≡ c.attempted)
  unfolding mark_release
  mark_release-Quiet none ok c = (Quiet-refl c, refl, refl)
  mark_release-Quiet (some r) ok c = elim (Bool-cases (ok || not cfg.audited)) [
    | inl e ↦
        simp e
          (record { still = refl; unlatched = refl; kept = λ h. h; grows = λ x i. i }, refl, refl)
    | inr e ↦ simp e (Quiet-refl c, refl, refl)
  ]

  -- A record that is written lets the checkpoint move; one that is not freezes it.
  pub latch_lem :
      (c : Core)
      → (latch cfg true c ≡ c)
        × ((latch cfg false c).checkpoints ≡ c.checkpoints)
        × ((latch cfg false c).acc ≡ c.acc)
        × ((latch cfg false c).attempted ≡ c.attempted)
        × ((cfg.audited ≡ true → (latch cfg false c).checkpoint_blocked ≡ true)
            × (c.checkpoint_blocked ≡ true → (latch cfg false c).checkpoint_blocked ≡ true))
  unfolding latch
  latch_lem c = elim (Bool-cases cfg.audited) [
    | inl h ↦ elim (Bool-cases c.checkpoint_blocked) [
      | inl b ↦ simp (h, b) (refl, refl, refl, refl, (λ _. refl, λ _. refl))
      | inr b ↦ simp (h, b) (refl, refl, refl, refl, (λ _. refl, λ _. refl))
    ]
    | inr h ↦ simp h (refl, refl, refl, refl, (λ e. absurd (cc), λ b. b))
  ]

  pub advance_checkpoint-Moves :
      (t : CoreTurn) (offset : Option Text) (c d : Core)
      → offset_of t ≡ offset
      → d.checkpoints ≡ c.checkpoints
      → d.checkpoint_blocked ≡ c.checkpoint_blocked
      → (c.checkpoint_blocked ≡ true) ⊎ All IsWritten d.attempted
      → Covers t d.attempted
      → IsCalm d.acc
      → IsDurable (advance_checkpoint offset d) × Moves t c (advance_checkpoint offset d)
  unfolding advance_checkpoint
  advance_checkpoint-Moves t none c d o p b l v k =
      (record { calm = k; latched = elim l [ inl e ↦ inl (b ∙ e) | inr h ↦ inr h ] }, inl p)
  advance_checkpoint-Moves t (some offset) c d o p b l v k =
      elim (Bool-cases (d.checkpoint_blocked || length offset == 0)) [
        | inl e ↦
            simp e
              (record { calm = k; latched = elim l [ inl e ↦ inl (b ∙ e) | inr h ↦ inr h ] }, inl p)
        | inr e ↦
            let free : d.checkpoint_blocked ≡ false = ground arith in
            let all : All IsWritten d.attempted = elim l [
              | inl f ↦ absurd (let g = b ∙ f in cc)
              | inr h ↦ h
            ] in
            simp e (
              record { calm = k; latched = inr all },
              inr (offset, o, ap (λ x. x ++ offset ∷ []) p, sym b ∙ free, all, v),
            )
      ]

  abbrev pub IsTriage : EventTurn HeldRelease → SessionAudit → Type 0
  IsTriage t a = (a.flushed ≡ false) × (a.had_event_turn ≡ true) × (a.events ≡ identity_keys t)

  pub session_record-events :
      (t : EventTurn HeldRelease) (l : List ToolCall) (a : SessionAudit)
      → IsTriage t a
      → (session_record l a).events ≡ some (identity_keys t)
  unfolding session_record
  session_record-events t l a (_, h, e) = simp (h, e) refl

  -- The flush of a triage, from a state whose other records are written or whose latch is set.
  pub conclude_flush-written :
      (t : EventTurn HeldRelease) (offset handoff : Option Text) (l : List ToolCall)
      (a : SessionAudit) (c : Core)
      → IsTriage t a
      → (c.checkpoint_blocked ≡ true) ⊎ All IsWritten c.attempted
      → let d =
          conclude_flush cfg t offset handoff a
            (true, record c { attempted = c.attempted ++ (session_record l a, true) ∷ [] }) in
        IsDurable d × Moves (CoreTurn.submitted (CoreItem.turn t offset)) c d
  unfolding conclude_flush
  conclude_flush-written t offset handoff l a c i v =
      let attempted = c.attempted ++ (session_record l a, true) ∷ [] in
      let c₀ : Core = record c {
        attempted = attempted;
        acc = some (record a { flushed = true });
      } in
      let c₁ = note_handoff_ids cfg t handoff c₀ in
      let c₂ = mark_release cfg t.held_release true c₁ in
      let (q, qa, ql) = note_handoff_ids-Quiet t handoff c₀ in
      let (r, ra, rl) = mark_release-Quiet t.held_release true c₁ in
      let list : c₂.attempted ≡ attempted = rl ∙ ql in
      let acc : c₂.acc ≡ some (record a { flushed = true }) = ra ∙ qa in
      let same = (latch_lem c₂).0 in
      subst
        (λ d.
          IsDurable (advance_checkpoint offset d)
          × Moves (CoreTurn.submitted (CoreItem.turn t offset)) c (advance_checkpoint offset d))
        (sym same)
        (advance_checkpoint-Moves (CoreTurn.submitted (CoreItem.turn t offset)) offset c c₂ refl
          (r.still ∙ q.still) (r.unlatched ∙ q.unlatched)
          (elim v [
            | inl b ↦ inl b
            | inr h ↦ inr (
                subst (All IsWritten) (sym list)
                  (All-append IsWritten c.attempted _ h (inr refl, tt)))
          ])
          (subst (λ x. Covers (CoreTurn.submitted (CoreItem.turn t offset)) x) (sym list)
            (
              session_record l a,
              In-last c.attempted (session_record l a, true),
              session_record-events t l a i,
            ))
          (subst IsCalm (sym acc) (inl refl)))

  -- The flush of a triage whose record is not written.
  pub conclude_flush-unwritten :
      (t : EventTurn HeldRelease) (offset handoff : Option Text) (a : SessionAudit) (c x : Core)
      → x.checkpoints ≡ c.checkpoints
      → (cfg.audited ≡ true) ⊎ ((x.checkpoint_blocked ≡ true) ⊎ All IsWritten x.attempted)
      → let d = conclude_flush cfg t offset handoff a (false, x) in
        IsDurable d × Moves (CoreTurn.submitted (CoreItem.turn t offset)) c d
  unfolding conclude_flush
  conclude_flush-unwritten t offset handoff a c x p v =
      let c₀ : Core = record x { acc = some (record a { flushed = true }) } in
      let c₁ = note_handoff_ids cfg t handoff c₀ in
      let c₂ = mark_release cfg t.held_release false c₁ in
      let (q, qa, ql) = note_handoff_ids-Quiet t handoff c₀ in
      let (r, ra, rl) = mark_release-Quiet t.held_release false c₁ in
      let (_, still, acc, list, frozen) = latch_lem c₂ in
      (
        record {
          calm = subst IsCalm (sym (acc ∙ ra ∙ qa)) (inl refl);
          latched = elim v [
            | inl h ↦ inl (frozen.0 h)
            | inr (inl b) ↦ inl (frozen.1 (r.unlatched ∙ q.unlatched ∙ b))
            | inr (inr h) ↦ inr (subst (All IsWritten) (sym (list ∙ rl ∙ ql)) h)
          ];
        },
        inl (still ∙ r.still ∙ q.still ∙ p),
      )

  pub flush_acc-Moves :
      (t : EventTurn HeldRelease) (offset : Option Text) (run : Run) (l : List ToolCall)
      (a : SessionAudit) (c : Core)
      → IsTriage t a
      → (c.checkpoint_blocked ≡ true) ⊎ All IsWritten c.attempted
      → let d = (flush_acc cfg t offset run l a c).1 in
        IsDurable d × Moves (CoreTurn.submitted (CoreItem.turn t offset)) c d
  unfolding flush_acc write_audit_record
  flush_acc-Moves t offset run l a c i v =
      let handoff = handoff_of (drop a.stats_baseline l) in
      elim (Bool-cases cfg.audited) [
        | inr h ↦ simp h (conclude_flush-unwritten t offset handoff a c c refl (inr v))
        | inl h ↦ elim (Bool-cases run.flush_writes) [
          | inl w ↦ simp (h, w) (conclude_flush-written t offset handoff l a c i v)
          | inr w ↦
              simp (h, w)
                (conclude_flush-unwritten t offset handoff a c
                  (record c { attempted = c.attempted ++ (session_record l a, false) ∷ [] }) refl
                  (inl h))
        ]
      ]

  abbrev pub HasSession : Option (List ToolCall) → Type 0
  HasSession none = ⊥
  HasSession (some _) = Unit

  pub flush_open-Moves :
      (t : EventTurn HeldRelease) (offset : Option Text) (run : Run) (s : Option (List ToolCall))
      (o : Option SessionAudit) (c : Core)
      → HasSession s
      → Tells cfg (IsTriage t) o
      → o ≢ none
      → (c.checkpoint_blocked ≡ true) ⊎ All IsWritten c.attempted
      → let d = (flush_open cfg t offset run s o c).1 in
        IsDurable d × Moves (CoreTurn.submitted (CoreItem.turn t offset)) c d
  unfolding flush_open
  flush_open-Moves t offset run none o c hs i n v = absurd hs
  flush_open-Moves t offset run (some l) none c hs i n v = absurd (n refl)
  flush_open-Moves t offset run (some l) (some a) c hs i n v =
      let open_acc : a.flushed ≡ false = i.0 in
      simp open_acc (flush_acc-Moves t offset run l a c i v)
