-- ===== src/Agent/Core/Accounting/Flush.antt =====
-- The accounts of a triage's flush.
use henk.Base.{
  ◌≤◌, ◌≡◌, ◌∙◌, inl, inr, Bool, true, false, not, ◌||◌, ◌&&◌, Option, none, some, List, [], ◌∷◌,
  ◌++◌, Text, ◌==◌, if◌then◌else◌, length, drop, append_nil, Bool-cases,
}
use henk.Events.{EventTurn}
use henk.Coordinator.{HeldRelease}
use henk.Agent.Core.{
  ToolCall, SessionAudit, Core, Run, CoreConfig, handoff_of, advance_checkpoint, write_audit_record,
  note_handoff_ids, mark_release, latch, conclude_flush, flush_acc, flush_open,
}
use henk.Agent.Core.Accounting.Records.{
  reported, received, pending_calls, pending_receipts, IsAccounted, reported-session_record,
  received-session_record,
}
use henk.Agent.Core.Accounting.Turns.{aside-IsAccounted}

module _ (cfg : CoreConfig) where
  pub advance_checkpoint-IsAccounted :
      (o : Option Text) (c : Core) → IsAccounted c → IsAccounted (advance_checkpoint o c)
  unfolding advance_checkpoint
  advance_checkpoint-IsAccounted none c v = v
  advance_checkpoint-IsAccounted (some offset) c v =
      elim (Bool-cases (c.checkpoint_blocked || length offset == 0)) [
        | inl e ↦ simp e v
        | inr e ↦ simp e (
            aside-IsAccounted cfg c c.sent c.released c.handoffs (c.checkpoints ++ offset ∷ [])
              c.checkpoint_blocked v)
      ]

  pub note_handoff_ids-IsAccounted :
      (t : EventTurn HeldRelease) (o : Option Text) (c : Core)
      → IsAccounted c
      → IsAccounted (note_handoff_ids cfg t o c)
  unfolding note_handoff_ids
  note_handoff_ids-IsAccounted t none c v = v
  note_handoff_ids-IsAccounted t (some id) c v =
      aside-IsAccounted cfg c c.sent c.released _ c.checkpoints c.checkpoint_blocked v

  pub mark_release-IsAccounted :
      (r : Option HeldRelease) (ok : Bool) (c : Core)
      → IsAccounted c
      → IsAccounted (mark_release cfg r ok c)
  unfolding mark_release
  mark_release-IsAccounted none ok c v = v
  mark_release-IsAccounted (some r) ok c v = elim (Bool-cases (ok || not cfg.audited)) [
    | inl e ↦
        simp e (aside-IsAccounted cfg c c.sent _ c.handoffs c.checkpoints c.checkpoint_blocked v)
    | inr e ↦ simp e v
  ]

  pub latch-IsAccounted : (ok : Bool) (c : Core) → IsAccounted c → IsAccounted (latch cfg ok c)
  unfolding latch
  latch-IsAccounted ok c v =
      elim (Bool-cases (cfg.audited && (not ok && not c.checkpoint_blocked))) [
        | inl e ↦ simp e (aside-IsAccounted cfg c _ c.released c.handoffs c.checkpoints true v)
        | inr e ↦ simp e v
      ]

  pub write_audit_record-IsAccounted :
      (w : Bool) (l : List ToolCall) (a : SessionAudit) (c : Core)
      → cfg.audited ≡ true
      → IsAccounted c
      → c.session ≡ some l
      → c.acc ≡ some a
      → a.flushed ≡ false
      → IsAccounted
          (record (write_audit_record cfg w l a c).1 { acc = some (record a { flushed = true }) })
  unfolding write_audit_record
  write_audit_record-IsAccounted w l a c h v hs ha e =
      let p : a.stats_baseline ≤ length l = let p = v.paired in rw (hs, ha) at p in
      let q : reported c.attempted ++ pending_calls (some l) (some a) ≡ c.calls =
        let q = v.all_calls in rw (hs, ha) at q in
      let r : received c.attempted ++ pending_receipts (some l) (some a) ≡ c.receipts =
        let r = v.all_receipts in rw (hs, ha) at r in
      let q' : reported c.attempted ++ drop a.stats_baseline l ≡ c.calls = simp e at q in
      let r' : received c.attempted ++ a.approvals ≡ c.receipts = simp e at r in
      rw h (record {
        paired = rw hs p;
        all_calls = rw hs (append_nil _ ∙ reported-session_record c.attempted l a w ∙ q');
        all_receipts = rw hs (append_nil _ ∙ received-session_record c.attempted l a w ∙ r');
      })

  pub conclude_flush-IsAccounted :
      (t : EventTurn HeldRelease) (offset handoff : Option Text) (a : SessionAudit)
      (x : Bool × Core)
      → IsAccounted (record x.1 { acc = some (record a { flushed = true }) })
      → IsAccounted (conclude_flush cfg t offset handoff a x)
  unfolding conclude_flush
  conclude_flush-IsAccounted t offset handoff a (ok, c) v =
      let c₁ =
        note_handoff_ids cfg t handoff (record c { acc = some (record a { flushed = true }) }) in
      let c₂ = mark_release cfg t.held_release ok c₁ in
      let w = latch-IsAccounted ok c₂ (
        mark_release-IsAccounted t.held_release ok c₁
          (note_handoff_ids-IsAccounted t handoff _ v)) in
      elim ok
        as (λ b.
          IsAccounted
            (if b then advance_checkpoint offset (latch cfg ok c₂) else latch cfg ok c₂)) [
              | true ↦ advance_checkpoint-IsAccounted offset (latch cfg ok c₂) w
              | false ↦ w
            ]

  pub flush_open-IsAccounted :
      (t : EventTurn HeldRelease) (offset : Option Text) (run : Run) (s : Option (List ToolCall))
      (a : Option SessionAudit) (c : Core)
      → cfg.audited ≡ true
      → IsAccounted c
      → c.session ≡ s
      → c.acc ≡ a
      → IsAccounted (flush_open cfg t offset run s a c).1
  unfolding flush_open flush_acc
  flush_open-IsAccounted t offset run none a c h v hs ha = v
  flush_open-IsAccounted t offset run (some l) none c h v hs ha = v
  flush_open-IsAccounted t offset run (some l) (some a) c h v hs ha = elim (Bool-cases a.flushed) [
    | inl e ↦ simp e v
    | inr e ↦ simp e (
        conclude_flush-IsAccounted t offset (handoff_of (drop a.stats_baseline l)) a
          (write_audit_record cfg run.flush_writes l a c)
          (write_audit_record-IsAccounted run.flush_writes l a c h v hs ha e))
  ]
