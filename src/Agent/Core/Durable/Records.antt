-- ===== src/Agent/Core/Durable/Records.antt =====
-- What a turn of henk/agent/core.py leaves in the audit log of the earlier triages and of its own.
use henk.Base.{
  ◌≡◌, refl, sym, ap, ◌∙◌, subst, ◌⊎◌, inl, inr, Bool, true, false, ◌||◌, Option, none, some, List,
  [], ◌∷◌, ◌++◌, Text, ◌==◌, length, drop, Bool-cases, In, In-last, In-append_left,
}
use henk.Events.{EventTurn}
use henk.Coordinator.{HeldRelease}
use henk.Agent.Core.{
  ToolCall, SessionAudit, SessionRecord, Core, Run, CoreConfig, handoff_of, session_record,
  advance_checkpoint, write_audit_record, identity_keys, note_handoff_ids, mark_release, latch,
  conclude_flush, flush_acc, flush_open, flush_event_triage, start_event_session, process_event,
  recall, run_turn, counted, ending_of,
}
use henk.Agent.Core.Durable.Steps.{IsDurable, Quiet-trans}
use henk.Agent.Core.Durable.Sessions.{close_session-Quiet}
use henk.Agent.Core.Durable.Turns.{run_turn_lem}
use henk.Agent.Core.Durable.Flush.{
  note_handoff_ids-Quiet, mark_release-Quiet, latch_lem, IsTriage, session_record-events,
}
use henk.Agent.Core.Durable.Triaging.{
  IsTriaging, run_turn-IsTriaging, send_triage_lem, told_nothing, started, recalled,
}

-- No record is lost.
abbrev pub Grows : List (SessionRecord × Bool) → List (SessionRecord × Bool) → Type 0
Grows l m = (x : SessionRecord × Bool) → In x l → In x m

-- A record with the incidents of the triage was given to the audit log.
abbrev pub Attempted : EventTurn HeldRelease → List (SessionRecord × Bool) → Type 0
Attempted t l = (r : SessionRecord) × (w : Bool) × In (r, w) l × (r.events ≡ some (identity_keys t))

module _ (cfg : CoreConfig) where
  pub advance_checkpoint-attempted :
      (offset : Option Text) (c : Core) → (advance_checkpoint offset c).attempted ≡ c.attempted
  unfolding advance_checkpoint
  advance_checkpoint-attempted none c = refl
  advance_checkpoint-attempted (some o) c =
      elim (Bool-cases (c.checkpoint_blocked || length o == 0)) [
        | inl e ↦ simp e refl
        | inr e ↦ simp e refl
      ]

  latch-attempted : (ok : Bool) (c : Core) → (latch cfg ok c).attempted ≡ c.attempted
  latch-attempted true c = ap (λ (d : Core). d.attempted) (latch_lem cfg c).0
  latch-attempted false c = (latch_lem cfg c).3

  -- The state before the checkpoint is advanced
  latched-attempted :
      (t : EventTurn HeldRelease) (handoff : Option Text) (ok : Bool) (c : Core)
      → (latch cfg ok
          (mark_release cfg t.held_release ok (note_handoff_ids cfg t handoff c))).attempted
        ≡ c.attempted
  latched-attempted t handoff ok c =
      let c₁ = note_handoff_ids cfg t handoff c in
      let (_, _, n) = note_handoff_ids-Quiet cfg t handoff c in
      let (_, _, m) = mark_release-Quiet cfg t.held_release ok c₁ in
      latch-attempted ok (mark_release cfg t.held_release ok c₁) ∙ m ∙ n

  conclude_flush-attempted :
      (t : EventTurn HeldRelease) (offset handoff : Option Text) (a : SessionAudit) (ok : Bool)
      (c : Core)
      → (conclude_flush cfg t offset handoff a (ok, c)).attempted ≡ c.attempted
  unfolding conclude_flush
  conclude_flush-attempted t offset handoff a true c =
      advance_checkpoint-attempted offset _
      ∙ latched-attempted t handoff true (record c { acc = some (record a { flushed = true }) })
  conclude_flush-attempted t offset handoff a false c =
      latched-attempted t handoff false (record c { acc = some (record a { flushed = true }) })

  -- After a flush: the earlier records are there, and the triage's own was given to the log.
  abbrev Flushed : EventTurn HeldRelease → Core → Core → Type 0
  Flushed t c d = Grows c.attempted d.attempted × ((cfg.audited ≡ false) ⊎ Attempted t d.attempted)

  flush_open-Flushed :
      (t : EventTurn HeldRelease) (offset : Option Text) (run : Run) (l : List ToolCall)
      (a : SessionAudit) (c : Core)
      → IsTriage cfg t a
      → Flushed t c (flush_open cfg t offset run (some l) (some a) c).1
  unfolding flush_open flush_acc write_audit_record
  flush_open-Flushed t offset run l a c i =
      let open_acc : a.flushed ≡ false = i.0 in
      let handoff = handoff_of (drop a.stats_baseline l) in
      let rec : SessionRecord × Bool = (session_record l a, run.flush_writes) in
      let more = c.attempted ++ rec ∷ [] in
      elim (Bool-cases cfg.audited) [
        | inr h ↦
            let e = conclude_flush-attempted t offset handoff a false c in
            simp (open_acc, h) ((λ x m. subst (In x) (sym e) m), inl refl)
        | inl h ↦
            let e =
              conclude_flush-attempted t offset handoff a run.flush_writes
                (record c { attempted = more }) in
            simp (open_acc, h)
              (
                (λ x m. subst (In x) (sym e) (In-append_left x c.attempted (rec ∷ []) m)),
                inr (
                  session_record l a,
                  run.flush_writes,
                  subst (In rec) (sym e) (In-last c.attempted rec),
                  session_record-events cfg t l a i,
                ),
              )
      ]

  flush_event_triage-Flushed :
      (t : EventTurn HeldRelease) (offset : Option Text) (run : Run) (c : Core)
      → IsTriaging cfg t c
      → Flushed t c (flush_event_triage cfg t offset run c).1
  unfolding flush_event_triage
  flush_event_triage-Flushed t offset run c (l, a, hs, ha, i) =
      subst (λ s. Flushed t c (flush_open cfg t offset run s c.acc c).1) (sym hs)
        (subst (λ o. Flushed t c (flush_open cfg t offset run (some l) o c).1) (sym ha)
          (flush_open-Flushed t offset run l a c i))

  -- A triage loses no earlier record and, if its session opens, gives its own to the audit log.
  pub process_event-Records :
      (t : EventTurn HeldRelease) (offset : Option Text) (run : Run) (c : Core)
      → IsDurable c
      → let d = process_event cfg t offset run c in
        Grows c.attempted d.attempted
        × ((run.create_fails ≡ true) ⊎ ((cfg.audited ≡ false) ⊎ Attempted t d.attempted))
  unfolding process_event
  process_event-Records t offset run c v =
      let f : SessionAudit → SessionAudit =
        λ a. counted run (record a { outcome = ending_of run }) in
      let (q, k) = close_session-Quiet cfg run.close_writes c v.calm in
      let s = start_event_session cfg t run c in
      let (sq, ss, st) = started cfg t run c v in
      let (dq, dt) = recalled cfg t run s ss st in
      let d = recall cfg run s in
      let e = run_turn run f d in
      let (eq, _) =
        run_turn_lem cfg (λ _. Unit) (λ _. Unit) run f d (λ _ _. tt) (told_nothing cfg d.acc) in
      let all = Quiet-trans c s e sq (Quiet-trans s d e dq eq) in
      let (g, own) =
        flush_event_triage-Flushed t offset run e (run_turn-IsTriaging cfg t run d dt) in
      let x = flush_event_triage cfg t offset run e in
      let (_, _, al, _) = send_triage_lem cfg t run x in
      elim (Bool-cases run.create_fails) [
        | inl z ↦ simp z (q.grows, inl refl)
        | inr z ↦ simp z (
          (λ y m. subst (In y) (sym al) (g y (all.grows y m))),
          inr (subst (λ h. (cfg.audited ≡ false) ⊎ Attempted t h) (sym al) own),
        )
      ]
