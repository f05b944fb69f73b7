-- ===== src/Gate/State.antt =====
-- The state of `ApprovalGate` of henk/gate/approval.py, its decisions and receipts.
-- An approval reference `appr-n` is its number. A recorder is configured, and it accepts what it is
-- given; the prompt handed to the channel and its edit are not modelled beyond their outcome.
use henk.Base.{ℕ, Bool, Option, none, List, Text, true, false}
use henk.Channel.{SendOutcome}
use henk.Tools.{AuthorizationTier, TurnType}

pub data ApprovalOutcome : Type 0 where
  authorized approved denied cancelled timeout suppressed out_of_scope rejected_busy :
      ApprovalOutcome

-- `EXECUTING_OUTCOMES`
abbrev pub executing : ApprovalOutcome → Bool
executing ApprovalOutcome.authorized = true
executing ApprovalOutcome.approved = true
executing _ = false

pub data Classification : Type 0 where
  approve deny unrelated ignored : Classification

pub record TurnContext : Type 0 where
  pub turn_type : TurnType
  pub announceable : Bool
  pub tainted : Bool
  pub taint_source : Option Text

-- `_UNFRAMED_CONTEXT`
abbrev pub unframed_context : TurnContext
unframed_context = record {
  turn_type = TurnType.owner;
  announceable = true;
  tainted = false;
  taint_source = none;
}

-- `answered_by`
pub data Answer : Type 0 where
  keyword reaction : Answer

-- `_Pending`: `future` holds the outcome once it is set.
pub record Pending : Type 0 where
  pub tool_name : Text
  pub reference : ℕ
  pub future : Option ApprovalOutcome
  pub prompt_ref : Option Text
  pub answered_by : Option Answer

pub data Detail : Type 0 where
  taint_raised_by : Text → Detail
  undeclared_argument prompt_too_large : Detail
  answered : Answer → Detail

-- The model-facing reasons.
pub data Reason : Type 0 where
  none_given event_turn tainted_by_tool tainted_by_incident not_scoped : Reason
  cap_suppressed undeclared_key busy : Reason
  too_large not_sent denied_by_owner unrelated_message timed_out : Reason

-- One call of the recorder, which the model initiates.
pub record Receipt : Type 0 where
  pub tool : Text
  pub tier : Option AuthorizationTier
  pub outcome : ApprovalOutcome
  pub reference : ℕ
  pub turn_type : TurnType
  pub detail : Option Detail

pub record GateDecision : Type 0 where
  pub outcome : ApprovalOutcome
  pub reference : Option ℕ
  pub reason : Reason

-- The gate: `next_ref` is what the reference counter gives next.
pub record Gate : Type 0 where
  pub demote_standing : Bool
  pub pending : Option Pending
  pub next_ref : ℕ
  pub turn_context : Option TurnContext
  pub receipts : List Receipt

-- What `send_prompt` observed.
pub record PromptSent : Type 0 where
  pub outcome : SendOutcome
  pub ref : Option Text
  pub too_large : Bool

pub record InboundReaction : Type 0 where
  pub emoji : Text
  pub target_ref : Option Text
  pub removed : Bool
