-- ===== src/Agent/Core/Accounting.antt =====
-- Tool calls and receipts in the session records of henk/agent/core.py.
pub mod Records
pub mod Sessions
pub mod Turns
pub mod Flush
use henk.Base.{
  ℕ, zero, suc, ◌+◌, ◌≤◌, ◌≡◌, refl, sym, ap, ◌∙◌, subst, inl, inr, Bool, true, false, not, ◌||◌,
  ◌&&◌, Option, none, some, List, [], ◌∷◌, ◌++◌, map, Text, codes, text_eq, ◌==◌, if◌then◌else◌,
  length, drop, append_nil, length-append, arith, Bool-cases, Option-cases,
}
use mathlib.Core.List.{append_assoc}
use henk.Tools.{ToolClass}
use henk.Events.{EventTurn}
use henk.Store.Content.{strip}
use henk.Coordinator.{HeldRelease, CoreItem}
use henk.Agent.Ending.{TriageEnding}
use henk.Agent.Core.{
  Trigger, ToolCall, Approval, SessionAudit, SessionRecord, Sent, Core, Run, CoreTurn, CoreConfig,
  new_acc, pop_outcome, with_executed, handoff_of, session_record, advance_checkpoint, take_recall,
  run_turn, counted, masked, ending_of, is_completed, is_error, write_audit_record, close_open,
  close_session, open_session, continued, is_expired, renew_session, ensure_open, recall,
  owner_turn, conclude_owner, process_agent_turn, process_owner, note_handoff_ids, mark_release,
  latch, conclude_flush, send_triage, flush_acc, flush_open, flush_event_triage,
  start_event_session, process_event, process, process_all,
}
use henk.Agent.Core.Accounting.Records.{
  reported, received, pending_calls, pending_receipts, IsPaired, IsAccounted, IsSettled, IsLive,
  map-with_executed, reported-append, received-append, reported-session_record,
  received-session_record, drop-append, drop-length,
}
use henk.Agent.Core.Accounting.Sessions.{
  close_open-IsSettled, close_session-IsSettled, open_session-IsLive, recalled-IsLive,
  take_recall-IsLive, recall-IsLive, run_turn-IsLive, IsLive-IsAccounted, IsSettled-IsAccounted,
  IsOpened, renew_session-IsOpened, continued-IsLive, ensure_open-IsOpened,
}
use henk.Agent.Core.Accounting.Turns.{
  same_masked, aside, aside-IsAccounted, told-IsAccounted, owner_turn-IsAccounted,
  conclude_owner-IsAccounted, close_session-IsAccounted, process_owner-IsAccounted,
}
use henk.Agent.Core.Accounting.Flush.{
  advance_checkpoint-IsAccounted, note_handoff_ids-IsAccounted, mark_release-IsAccounted,
  latch-IsAccounted, write_audit_record-IsAccounted, conclude_flush-IsAccounted,
  flush_open-IsAccounted,
}

module _ (cfg : CoreConfig) where
  send_triage-IsAccounted :
      (t : EventTurn HeldRelease) (run : Run) (x : Option Text × Core)
      → IsAccounted x.1
      → IsAccounted (send_triage cfg t run x)
  unfolding send_triage
  send_triage-IsAccounted t run (handoff, c) v = elim (Bool-cases t.announceable) [
    | inl e ↦ simp e (told-IsAccounted cfg c _ v)
    | inr e ↦ simp e v
  ]

  start_event_session-IsLive :
      (t : EventTurn HeldRelease) (run : Run) (c : Core)
      → cfg.audited ≡ true
      → IsAccounted c
      → IsLive (start_event_session cfg t run c)
  unfolding start_event_session open_session
  start_event_session-IsLive t run c h v =
      let w = close_session-IsSettled cfg run.close_writes c h v in
      record {
        own = [];
        audit = _;
        opened = refl;
        has_acc = refl;
        unflushed = refl;
        based = omega arith;
        all_calls = append_nil _ ∙ w.all_calls;
        all_receipts = append_nil _ ∙ w.all_receipts;
      }

  same_counted :
      (run : Run) (a : SessionAudit)
      → let b = counted run (record a { outcome = ending_of run }) in
        (b.flushed ≡ a.flushed)
        × (b.stats_baseline ≡ a.stats_baseline)
        × (b.approvals ≡ a.approvals)
  same_counted run a = ground arith

  process_event-IsAccounted :
      (t : EventTurn HeldRelease) (offset : Option Text) (run : Run) (c : Core)
      → cfg.audited ≡ true
      → IsAccounted c
      → IsAccounted (process_event cfg t offset run c)
  unfolding process_event flush_event_triage
  process_event-IsAccounted t offset run c h v =
      let f : SessionAudit → SessionAudit =
        λ a. counted run (record a { outcome = ending_of run }) in
      let d = recall cfg run (start_event_session cfg t run c) in
      let live =
        recall-IsLive cfg run (start_event_session cfg t run c)
          (start_event_session-IsLive t run c h v) in
      let e = run_turn run f d in
      let ran = IsLive-IsAccounted cfg e (run_turn-IsLive cfg run f d (same_counted run) live) in
      let sent =
        send_triage-IsAccounted t run (flush_open cfg t offset run e.session e.acc e)
          (flush_open-IsAccounted cfg t offset run e.session e.acc e h ran refl refl) in
      elim (Bool-cases run.create_fails) [
        | inl q ↦ simp q (close_session-IsAccounted cfg run.close_writes c h v)
        | inr q ↦ simp q sent
      ]

  process-IsAccounted :
      (t : CoreTurn) (run : Run) (c : Core)
      → cfg.audited ≡ true
      → IsAccounted c
      → IsAccounted (process cfg t run c)
  unfolding process
  process-IsAccounted (CoreTurn.owner text command) run c h v =
      process_owner-IsAccounted cfg text command run c h v
  process-IsAccounted (CoreTurn.submitted (CoreItem.turn t offset)) run c h v =
      process_event-IsAccounted t offset run c h v
  process-IsAccounted (CoreTurn.submitted (CoreItem.marker offset)) run c h v =
      advance_checkpoint-IsAccounted cfg (some offset) c v

  -- Where an audit log is configured, over every sequence of turns, whatever raises and whether or
  -- not the log can write: the records given to the audit log, and what the open session has still to
  -- report, hold every tool call of every session and every receipt, each once and in order. So a
  -- triage's calls and approvals are never in the record of the conversation that continues it.
  pub process_all-IsAccounted :
      (l : List (CoreTurn × Run)) (c : Core)
      → cfg.audited ≡ true
      → IsAccounted c
      → IsAccounted (process_all cfg l c)
  unfolding process_all
  process_all-IsAccounted [] c h v = v
  process_all-IsAccounted ((t, r) ∷ l) c h v =
      process_all-IsAccounted l (process cfg t r c) h (process-IsAccounted t r c h v)
