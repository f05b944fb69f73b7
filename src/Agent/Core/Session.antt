-- ===== src/Agent/Core/Session.antt =====
-- The data of henk/agent/core.py: the turns, the accumulator and the record of a session, and how a
-- turn counts in them.
use henk.Base.{
  ℕ, suc, Bool, true, false, ◌||◌, Option, none, some, List, [], ◌∷◌, ◌++◌, map, Text, codes,
  text_eq, ◌==◌, if◌then◌else◌, length, drop,
}
use henk.Tools.{ToolClass}
use henk.Gate.State.{ApprovalOutcome, executing}
use henk.Events.{EventTurn, EventTurnItem}
use henk.Coordinator.{HeldRelease, CoreItem}
use henk.Agent.Ending.{TurnEnding, TriageEnding, classify_ending}

pub data Trigger : Type 0 where
  owner_message event : Trigger

pub record ToolCall : Type 0 where
  pub name : Text
  pub tool_class : ToolClass
  pub result_id : Option Text

pub record Approval : Type 0 where
  pub tool : Text
  pub outcome : ApprovalOutcome

-- `_SessionAudit`; the baseline is how many calls the session had made.
pub record SessionAudit : Type 0 where
  pub trigger : Trigger
  pub events : List Text
  pub had_event_turn : Bool
  pub announceable : Option Bool
  pub turn_count : ℕ
  pub outcome : TriageEnding
  pub flushed : Bool
  pub approvals : List Approval
  pub memory_hash : Option Text
  pub stats_baseline : ℕ

pub record SessionRecord : Type 0 where
  pub trigger : Trigger
  pub events : Option (List Text)
  pub tool_calls : List (ToolCall × Bool)
  pub handoff_message_id : Option Text
  pub approvals : List Approval
  pub memory_hash : Option Text
  pub outcome : TriageEnding
  pub announceable : Option Bool
  pub turn_count : ℕ

pub data Sent : Type 0 where
  reset_confirmation error_reply degraded_notice : Sent
  command_reply agent_reply : Text → Sent
  triage : Text → (suppressed : ℕ) → Option HeldRelease → Sent
  incomplete_triage : TriageEnding → (published : Bool) (suppressed : ℕ) → Option HeldRelease → Sent

-- `checkpoints` are the writes to the checkpoint. `attempted` are the records given to the audit log, each with whether it was written; `calls` and
-- `receipts`, all that the sessions made and the gate gave, are kept for the statements only.
pub record Core : Type 0 where
  pub session : Option (List ToolCall)
  pub acc : Option SessionAudit
  pub last_activity : Option ℕ
  pub tainted : Bool
  pub recall_given : Bool
  pub checkpoint_blocked : Bool
  pub checkpoints : List Text
  pub attempted : List (SessionRecord × Bool)
  pub sent : List Sent
  pub released : List Text
  pub handoffs : List (Text × Text)
  pub calls : List ToolCall
  pub receipts : List Approval

-- What a turn meets: the clock before and after it, whether the factory raises, whether the record of
-- a closed session and of a triage are written, the recall block's hash (none where the read fails),
-- and what the session does: its calls, the gate's receipts and taint, and how it ends.
pub record Run : Type 0 where
  pub now : ℕ
  pub done : ℕ
  pub create_fails : Bool
  pub close_writes : Bool
  pub flush_writes : Bool
  pub recall : Option (Option Text)
  pub calls : List ToolCall
  pub receipts : List Approval
  pub taints : Bool
  pub raised : Bool
  pub signals : Option TurnEnding
  pub reply : Option Text

-- An owner's turn, with what its command handler answers, or what the coordinator submitted.
pub data CoreTurn : Type 0 where
  owner : (text : Text) (command : Option Text) → CoreTurn
  submitted : CoreItem → CoreTurn

pub record CoreConfig : Type 0 where
  pub idle_timeout : ℕ
  pub audited : Bool

abbrev pub new_acc : Trigger → SessionAudit
new_acc trigger = record {
  trigger = trigger;
  events = [];
  had_event_turn = false;
  announceable = none;
  turn_count = 0;
  outcome = TriageEnding.completed;
  flushed = false;
  approvals = [];
  memory_hash = none;
  stats_baseline = 0;
}

-- The next outcome of a tool, taken off
unfoldable pub pop_outcome : Text → List Approval → Option ApprovalOutcome × List Approval
pop_outcome name [] = (none, [])
pop_outcome name (a ∷ l) =
    let (o, rest) = pop_outcome name l in
    if text_eq a.tool name then (some a.outcome, l) else (o, a ∷ rest)

abbrev pub is_executing : Option ApprovalOutcome → Bool
is_executing none = false
is_executing (some o) = executing o

-- `_was_executed`, for each call in order
unfoldable pub with_executed : List ToolCall → List Approval → List (ToolCall × Bool)
with_executed [] pending = []
with_executed (c ∷ l) pending = elim c.tool_class [
  | ToolClass.mutating ↦
      let (o, rest) = pop_outcome c.name pending in (c, is_executing o) ∷ with_executed l rest
  | ToolClass.read_only ↦ (c, true) ∷ with_executed l pending
  | ToolClass.notify_only ↦ (c, true) ∷ with_executed l pending
]

abbrev pub or_later : Option Text → Option Text → Option Text
or_later found none = found
or_later found (some later) = some later

-- The last id that `publish_handoff` returned.
unfoldable pub handoff_of : List ToolCall → Option Text
handoff_of [] = none
handoff_of (c ∷ l) =
    or_later
      (elim c.result_id [
        | none ↦ none
        | some [] ↦ none
        | some (d ∷ s) ↦ if text_eq c.name (codes "publish_handoff") then some (d ∷ s) else none
      ])
      (handoff_of l)

-- The record of `_write_audit_record`
unfoldable pub session_record : List ToolCall → SessionAudit → SessionRecord
session_record calls acc =
    let own = drop acc.stats_baseline calls in
    record {
      trigger = acc.trigger;
      events = if acc.had_event_turn then some acc.events else none;
      tool_calls = with_executed own acc.approvals;
      handoff_message_id = handoff_of own;
      approvals = acc.approvals;
      memory_hash = acc.memory_hash;
      outcome = acc.outcome;
      announceable = acc.announceable;
      turn_count = acc.turn_count;
    }

-- `_advance_checkpoint`
unfoldable pub advance_checkpoint : Option Text → Core → Core
advance_checkpoint none c = c
advance_checkpoint (some offset) c =
    if c.checkpoint_blocked || length offset == 0
    then c
    else record c { checkpoints = c.checkpoints ++ offset ∷ [] }

-- `_take_recall`
unfoldable pub take_recall : Option (Option Text) → SessionAudit → Core → Core
take_recall none acc c = c
take_recall (some hash) acc c = if c.recall_given then c else record c {
  recall_given = true;
  acc = some (elim hash [ none ↦ acc | some h ↦ record acc { memory_hash = some h } ]);
}

-- What a session's turn leaves, its accumulator updated by `f`.
unfoldable pub run_turn : Run → (SessionAudit → SessionAudit) → Core → Core
run_turn run f c = record c {
  session = elim c.session [ none ↦ none | some calls ↦ some (calls ++ run.calls) ];
  acc = elim c.acc [
    | none ↦ none
    | some a ↦ some (f (record a { approvals = a.approvals ++ run.receipts }))
  ];
  tainted = c.tainted || run.taints;
  last_activity = some run.done;
  calls = c.calls ++ run.calls;
  receipts = c.receipts ++ run.receipts;
}

-- How a turn counts in its accumulator.
abbrev pub counted : Run → SessionAudit → SessionAudit
counted run a = if run.raised then a else record a { turn_count = suc a.turn_count }

abbrev pub is_error : TriageEnding → Bool
is_error (TriageEnding.error _ _) = true
is_error TriageEnding.completed = false
is_error TriageEnding.refused = false
is_error TriageEnding.no_reply = false

abbrev pub is_completed : TriageEnding → Bool
is_completed TriageEnding.completed = true
is_completed TriageEnding.refused = false
is_completed TriageEnding.no_reply = false
is_completed (TriageEnding.error _ _) = false

-- An owner session's outcome: a later turn never masks an earlier error.
abbrev pub masked : TriageEnding → SessionAudit → SessionAudit
masked e a = if is_completed e || is_error a.outcome then a else record a { outcome = e }

abbrev pub ending_of : Run → TriageEnding
ending_of run = classify_ending run.signals run.raised run.reply

unfoldable pub owner_reply : TriageEnding → Option Text → List Sent
owner_reply (TriageEnding.error _ _) reply = Sent.error_reply ∷ []
owner_reply e none = []
owner_reply e (some []) = []
owner_reply e (some (c ∷ s)) = Sent.agent_reply (c ∷ s) ∷ []

abbrev pub identity_keys : EventTurn HeldRelease → List Text
identity_keys t = map (λ (i : EventTurnItem). i.identity.key) t.items
