-- ===== src/Agent/Core.antt =====
-- `AgentCore` of henk/agent/core.py: the turns, the sessions, their audit records and the checkpoint.
-- What a turn meets outside the core (the model's session, the store, the clocks, the audit log) is
-- given by a run. The checkpoint, the two sinks and a gate are configured, and a send never raises.
-- What is prefixed to a turn's text is left out, but for the hash of the recall block.
pub mod Accounting
pub mod Durable
mod Session
unfoldable pub use Session.*
use henk.Base.{
  ℕ, suc, ◌+◌, Bool, true, false, not, ◌||◌, ◌&&◌, Option, none, some, List, [], ◌∷◌, ◌++◌, map,
  Text, codes, text_eq, ltb, ◌==◌, if◌then◌else◌, length, drop,
}
use henk.Tools.{ToolClass}
use henk.Gate.State.{ApprovalOutcome, executing}
use henk.Events.{EventTurn, EventTurnItem}
use henk.Store.Content.{strip}
use henk.Coordinator.{HeldRelease, CoreItem}
use henk.Agent.Ending.{TurnEnding, TriageEnding, classify_ending}

module _ (cfg : CoreConfig) where
  -- `_write_audit_record`
  unfoldable pub write_audit_record : Bool → List ToolCall → SessionAudit → Core → Bool × Core
  write_audit_record writes calls acc c =
      if cfg.audited
      then (writes, record c { attempted = c.attempted ++ (session_record calls acc, writes) ∷ [] })
      else (false, c)

  -- `_close_session`, of what is open
  unfoldable pub close_open : Bool → Option (List ToolCall) → Option SessionAudit → Core → Core
  close_open writes none acc c = record c { tainted = false }
  close_open writes (some calls) none c = record c {
    session = none;
    acc = none;
    recall_given = false;
    tainted = false;
  }
  close_open writes (some calls) (some acc) c =
      let c' = record c { session = none; acc = none; recall_given = false; tainted = false } in
      if acc.flushed then c' else (write_audit_record writes calls acc c').1

  -- `_close_session`
  unfoldable pub close_session : Bool → Core → Core
  close_session writes c = close_open writes c.session c.acc c

  unfoldable pub open_session : Trigger → ℕ → Bool → Core → Core
  open_session trigger now tainted c = record c {
    session = some [];
    acc = some (new_acc trigger);
    last_activity = some now;
    tainted = tainted;
    recall_given = false;
  }

  -- The accumulator of a session that goes on.
  abbrev pub continued : List ToolCall → SessionAudit → SessionAudit
  continued calls acc =
      if acc.flushed
      then record (new_acc Trigger.owner_message) {
        stats_baseline = length calls;
        memory_hash = acc.memory_hash;
      }
      else acc

  abbrev pub is_expired : ℕ → Option ℕ → Bool
  is_expired now none = false
  is_expired now (some t) = ltb (t + cfg.idle_timeout) now

  unfoldable pub renew_session : Run → Core → Option Core
  renew_session run c =
      let c' = close_session run.close_writes c in
      if run.create_fails then none else some (open_session Trigger.owner_message run.now false c')

  -- `_ensure_session`, by what is open; none where the factory raises.
  unfoldable pub ensure_open :
      Run → Option (List ToolCall) → Option SessionAudit → Core → Option Core
  ensure_open run none acc c = renew_session run c
  ensure_open run (some calls) acc c =
      if is_expired run.now c.last_activity
      then renew_session run c
      else some (record c { acc = elim acc [ none ↦ none | some a ↦ some (continued calls a) ] })

  -- `_take_recall`, where there is an accumulator
  unfoldable pub recall : Run → Core → Core
  recall run c = elim c.acc [ none ↦ c | some a ↦ take_recall run.recall a c ]

  -- The owner's turn once its session is there.
  unfoldable pub owner_turn : Run → Core → Core
  owner_turn run c =
      let e = ending_of run in
      let c' = recall run c in
      if run.raised
      then (let d = run_turn run (λ a. record a { outcome = TriageEnding.error none none }) c' in
          record d { sent = d.sent ++ Sent.error_reply ∷ [] })
      else (let d = run_turn run (λ a. masked e (counted run a)) c' in
          record d { sent = d.sent ++ owner_reply e run.reply })

  unfoldable pub conclude_owner : Run → Option Core → Core → Core
  conclude_owner run none closed = record closed { sent = closed.sent ++ Sent.error_reply ∷ [] }
  conclude_owner run (some c) closed = owner_turn run c

  unfoldable pub process_agent_turn : Run → Core → Core
  process_agent_turn run c =
      conclude_owner run (ensure_open run c.session c.acc c) (close_session run.close_writes c)

  -- `_process_owner`
  unfoldable pub process_owner : Text → Option Text → Run → Core → Core
  process_owner text command run c =
      if text_eq (strip text) (codes "/new")
      then (let d = close_session run.close_writes c in
          record d { last_activity = none; sent = d.sent ++ Sent.reset_confirmation ∷ [] })
      else elim command [
        | some r ↦ record c { sent = c.sent ++ Sent.command_reply r ∷ [] }
        | none ↦ process_agent_turn run c
      ]

  unfoldable pub note_handoff_ids : EventTurn HeldRelease → Option Text → Core → Core
  note_handoff_ids t none c = c
  note_handoff_ids t (some id) c = record c {
    handoffs = c.handoffs ++ map (λ (k : Text). (k, id)) (identity_keys t);
  }

  unfoldable pub mark_release : Option HeldRelease → Bool → Core → Core
  mark_release none ok c = c
  mark_release (some r) ok c =
      if ok || not cfg.audited then record c { released = c.released ++ r.window_id ∷ [] } else c

  -- The durability latch
  unfoldable pub latch : Bool → Core → Core
  latch ok c =
      if cfg.audited && (not ok && not c.checkpoint_blocked)
      then record c { checkpoint_blocked = true; sent = c.sent ++ Sent.degraded_notice ∷ [] }
      else c

  -- The end of `_flush_event_triage`, once the audit log has answered.
  unfoldable pub conclude_flush :
      EventTurn HeldRelease → Option Text → Option Text → SessionAudit → Bool × Core → Core
  conclude_flush t offset handoff acc (ok, c) =
      let c₁ =
        note_handoff_ids t handoff (record c { acc = some (record acc { flushed = true }) }) in
      let c₂ = latch ok (mark_release t.held_release ok c₁) in
      if ok then advance_checkpoint offset c₂ else c₂

  unfoldable pub flush_acc :
      EventTurn HeldRelease
      → Option Text
      → Run
      → List ToolCall
      → SessionAudit
      → Core
      → Option Text × Core
  flush_acc t offset run calls acc c =
      let handoff = handoff_of (drop acc.stats_baseline calls) in
      (
        handoff,
        conclude_flush t offset handoff acc (write_audit_record run.flush_writes calls acc c),
      )

  unfoldable pub flush_open :
      EventTurn HeldRelease
      → Option Text
      → Run
      → Option (List ToolCall)
      → Option SessionAudit
      → Core
      → Option Text × Core
  flush_open t offset run none acc c = (none, c)
  flush_open t offset run (some calls) none c = (none, c)
  flush_open t offset run (some calls) (some acc) c =
      if acc.flushed then (none, c) else flush_acc t offset run calls acc c

  -- `_flush_event_triage`
  unfoldable pub flush_event_triage :
      EventTurn HeldRelease → Option Text → Run → Core → Option Text × Core
  flush_event_triage t offset run c = flush_open t offset run c.session c.acc c

  abbrev pub is_given_id : Option Text → Bool
  is_given_id none = false
  is_given_id (some _) = true

  abbrev pub triage_message :
      EventTurn HeldRelease → TriageEnding → Option Text → Option Text → Sent
  triage_message t e reply handoff =
      if is_completed e
      then Sent.triage (elim reply [ none ↦ [] | some r ↦ r ]) t.suppressed_count t.held_release
      else Sent.incomplete_triage e (is_given_id handoff) t.suppressed_count t.held_release

  -- `_start_event_session`, and what the turn notes in its accumulator first
  unfoldable pub start_event_session : EventTurn HeldRelease → Run → Core → Core
  start_event_session t run c =
      let d = open_session Trigger.event run.now true (close_session run.close_writes c) in
      record d {
        acc = some (record (new_acc Trigger.event) {
          had_event_turn = true;
          announceable = some t.announceable;
          events = identity_keys t;
        });
      }

  -- The send that ends `_process_event`.
  unfoldable pub send_triage : EventTurn HeldRelease → Run → Option Text × Core → Core
  send_triage t run (handoff, c) =
      if t.announceable
      then record c { sent = c.sent ++ triage_message t (ending_of run) run.reply handoff ∷ [] }
      else c

  -- `_process_event`; where the factory raises, the session that was open is closed and no more.
  unfoldable pub process_event : EventTurn HeldRelease → Option Text → Run → Core → Core
  process_event t offset run c =
      let f : SessionAudit → SessionAudit =
        λ a. counted run (record a { outcome = ending_of run }) in
      if run.create_fails
      then close_session run.close_writes c
      else send_triage t run (
          flush_event_triage t offset run
            (run_turn run f (recall run (start_event_session t run c))))

  -- `process`
  unfoldable pub process : CoreTurn → Run → Core → Core
  process (CoreTurn.owner text command) run c = process_owner text command run c
  process (CoreTurn.submitted (CoreItem.turn t offset)) run c = process_event t offset run c
  process (CoreTurn.submitted (CoreItem.marker offset)) run c = advance_checkpoint (some offset) c

  -- `run`, over the turns of the queue
  unfoldable pub process_all : List (CoreTurn × Run) → Core → Core
  process_all [] c = c
  process_all ((t, r) ∷ l) c = process_all l (process t r c)
