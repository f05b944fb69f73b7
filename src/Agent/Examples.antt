-- ===== src/Agent/Examples.antt =====
-- The theorems on the agent core at a triage, an owner's follow-up and a new conversation, and tests.
use henk.Base.{ℕ, ◌+◌, ◌≡◌, refl, Bool, true, false, none, some, List, [], ◌∷◌, codes, text_eq}
use henk.Tools.{ToolClass}
use henk.Gate.State.{ApprovalOutcome}
use henk.Events.{EventState, EventTurn}
use henk.Channel.Split.{starts_with}
use henk.Store.Content.{is_space, strip_left, strip}
use henk.Coordinator.{CoreItem, HeldRelease}
use henk.Agent.Ending.{TurnEnding, classify_ending, signals_error}
use henk.Agent.Ending.Meaning.{Means, Says}
use henk.Agent.Ending.Delivered.{classify_ending-Means}
use henk.Agent.Core.{
  ToolCall, Approval, Core, Run, CoreTurn, CoreConfig, process_all, process, process_owner,
  process_agent_turn, process_event, conclude_owner, owner_turn, ensure_open, renew_session,
  open_session, close_session, close_open, write_audit_record, session_record, with_executed,
  pop_outcome, handoff_of, recall, take_recall, run_turn, owner_reply, start_event_session,
  flush_event_triage, flush_open, flush_acc, conclude_flush, note_handoff_ids, mark_release, latch,
  send_triage, advance_checkpoint,
}
use henk.Agent.Core.Accounting.Records.{IsAccounted}
use henk.Agent.Core.Accounting.{process_all-IsAccounted}

abbrev overloaded : TurnEnding
overloaded = record {
  refusal = false;
  assistant_error = some (codes "overloaded");
  api_error_status = some 529;
  result_is_error = true;
  terminal_reason = none;
}

classify_ending-Means_example :
    Means
      (some overloaded)
      false
      (some (codes "ok"))
      (classify_ending (some overloaded) false (some (codes "ok")))
    × Says (some overloaded) (classify_ending (some overloaded) false (some (codes "ok")))
classify_ending-Means_example = classify_ending-Means (some overloaded) false (some (codes "ok"))

abbrev config : CoreConfig
config = record { idle_timeout = 3600; audited = true }

abbrev idle_core : Core
idle_core = record {
  session = none;
  acc = none;
  last_activity = none;
  tainted = false;
  recall_given = false;
  checkpoint_blocked = false;
  checkpoints = [];
  attempted = [];
  sent = [];
  released = [];
  handoffs = [];
  calls = [];
  receipts = [];
}

abbrev health_call : ToolCall
health_call = record {
  name = codes "homelab_health";
  tool_class = ToolClass.read_only;
  result_id = none;
}

abbrev note_call : ToolCall
note_call = record { name = codes "capture"; tool_class = ToolClass.mutating; result_id = none }

abbrev approval : Approval
approval = record { tool = codes "capture"; outcome = ApprovalOutcome.approved }

abbrev turn_run : ℕ → List ToolCall → List Approval → Bool → Run
turn_run at calls receipts writes = record {
  now = at;
  done = at + 1;
  create_fails = false;
  close_writes = true;
  flush_writes = writes;
  recall = none;
  calls = calls;
  receipts = receipts;
  taints = false;
  raised = false;
  signals = none;
  reply = some (codes "ok");
}

abbrev incident : EventTurn HeldRelease
incident = record {
  items =
      (record {
        event = record {
          id = codes "e1";
          title = codes "disk";
          message = [];
          arrival_time = 10;
          raw = [];
          published_at = none;
        };
        identity = record {
          key = codes "disk";
          source = codes "other";
          name = codes "disk";
          state = EventState.firing;
        };
        recurrence = false;
        prior_handoff_ref = none;
      })
      ∷ [];
  announceable = true;
  suppressed_count = 0;
  held_release = none;
}

-- A triage; the owner follows up in its session; another triage, whose record is not written; and a
-- marker after it.
abbrev turns : List (CoreTurn × Run)
turns =
    (
      CoreTurn.submitted (CoreItem.turn incident (some (codes "e1"))),
      turn_run 20 (health_call ∷ []) [] true,
    )
    ∷ (CoreTurn.owner (codes "note it") none, turn_run 30 (note_call ∷ []) (approval ∷ []) true)
    ∷ (
      CoreTurn.submitted (CoreItem.turn incident (some (codes "e2"))),
      turn_run 40 (health_call ∷ []) [] false,
    )
    ∷ (CoreTurn.submitted (CoreItem.marker (codes "e3")), turn_run 50 [] [] true)
    ∷ []

frozen_after_failed_record : (process_all config turns idle_core).checkpoints ≡ codes "e1" ∷ []
unfolding process_all process process_owner process_agent_turn process_event conclude_owner
    owner_turn ensure_open renew_session open_session close_session close_open write_audit_record
    session_record with_executed pop_outcome handoff_of recall take_recall run_turn owner_reply
    start_event_session flush_event_triage flush_open flush_acc conclude_flush note_handoff_ids
    mark_release latch send_triage advance_checkpoint classify_ending signals_error starts_with
    strip strip_left is_space text_eq
frozen_after_failed_record = refl

idle_core-IsAccounted : IsAccounted idle_core
idle_core-IsAccounted = record { paired = tt; all_calls = refl; all_receipts = refl }

process_all-IsAccounted_example : IsAccounted (process_all config turns idle_core)
process_all-IsAccounted_example =
    process_all-IsAccounted config turns idle_core refl idle_core-IsAccounted

-- A triage whose session factory raises has no record, and the marker after it moves the checkpoint.
leapfrog :
    (process_all config
      ((
        CoreTurn.submitted (CoreItem.turn incident (some (codes "e1"))),
        record (turn_run 20 [] [] true) { create_fails = true },
      )
        ∷ (CoreTurn.submitted (CoreItem.marker (codes "e3")), turn_run 50 [] [] true)
        ∷ [])
      idle_core).checkpoints
    ≡ codes "e3" ∷ []
unfolding process_all process process_event close_session close_open advance_checkpoint
leapfrog = refl
