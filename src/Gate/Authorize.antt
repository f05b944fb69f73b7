-- ===== src/Gate/Authorize.antt =====
-- `authorize` of henk/gate/approval.py. It suspends in `send_prompt`, in the wait for the owner and
-- in the prompt's edit; an `Exchange` gives what reaches the gate at each of these points.
-- The cancellation of the turn while it waits is not modelled.
mod Begin
unfoldable pub use Begin.*
use henk.Base.{
  ℕ, suc, Bool, true, false, not, ◌||◌, ◌&&◌, Option, none, some, List, [], ◌∷◌, ◌++◌, Text,
  text_eq, if◌then◌else◌,
}
use henk.Channel.{SendOutcome}
use henk.Tools.{Tool, ToolClass, AuthorizationTier, TurnType, same_turn, in_scope}
use henk.Gate.State.{
  ApprovalOutcome, executing, TurnContext, unframed_context, Answer, Pending, Detail, Reason,
  GateDecision, Gate, PromptSent, InboundReaction,
}
use henk.Gate.Reply.{deliver, deliver_reaction}

-- What else reaches the gate while an invocation is suspended: the owner's messages and reactions,
-- the core framing turns, and other invocations.
pub data Action : Type 0 where
  message : Text → Action
  reacts : InboundReaction → Action
  enters : TurnContext → Action
  exits : Action
  invokes : Tool → List Text → Action

unfoldable pub act : Action → Gate → Gate
act (Action.message text) g = (deliver text g).1
act (Action.reacts r) g = (deliver_reaction r g).1
act (Action.enters c) g = record g { turn_context = some c }
act Action.exits g = record g { turn_context = none }
act (Action.invokes tool keys) g = (begin_authorize tool keys g).0

unfoldable pub act_all : List Action → Gate → Gate
act_all [] g = g
act_all (a ∷ l) g = act_all l (act a g)

-- What happens while one invocation waits: `sent` is `none` where `send_prompt` raised.
pub record Exchange : Type 0 where
  pub during_send : List Action
  pub sent : Option PromptSent
  pub during_wait : List Action
  pub during_edit : List Action

-- `pending.prompt_ref = sent.ref`
abbrev pub note_ref : Option Text → Gate → Gate
note_ref ref g = elim g.pending [
  | none ↦ g
  | some p ↦ record g { pending = some (record p { prompt_ref = ref }) }
]

-- What the wait gives: the answer, or the timeout of a future that is not done.
abbrev pub outcome_of : Option Pending → ApprovalOutcome
outcome_of none = ApprovalOutcome.timeout
outcome_of (some p) = elim p.future [ none ↦ ApprovalOutcome.timeout | some o ↦ o ]

-- `_OUTCOME_REASONS`
abbrev pub outcome_reason : ApprovalOutcome → Reason
outcome_reason ApprovalOutcome.denied = Reason.denied_by_owner
outcome_reason ApprovalOutcome.cancelled = Reason.unrelated_message
outcome_reason ApprovalOutcome.timeout = Reason.timed_out
outcome_reason _ = Reason.none_given

abbrev pub by_answer : Option Answer → Option Detail
by_answer none = none
by_answer (some a) = some (Detail.answered a)

abbrev pub answer_detail : ApprovalOutcome → Option Pending → Option Detail
answer_detail ApprovalOutcome.approved (some p) = by_answer p.answered_by
answer_detail ApprovalOutcome.denied (some p) = by_answer p.answered_by
answer_detail _ _ = none

-- The end of `authorize`: the slot is free, the receipt is written, the prompt is edited, and a
-- permitted tool raises taint.
unfoldable pub conclude :
    Ask → ApprovalOutcome → Reason → Option Detail → List Action → Gate → Gate × GateDecision
conclude ask outcome reason detail during_edit g =
    let (g', d) =
      resolve ask.tool outcome ask.reference ask.context reason detail
        (record g { pending = none }) in
    let edited = act_all during_edit g' in
    (if executing outcome then raise_taint ask.tool ask.framed_at_start edited else edited, d)

-- A prompt without a reference is not edited.
abbrev pub edits : Option Text → List Action → List Action
edits none l = []
edits (some _) l = l

-- A prompt that reached the owner is waited on.
unfoldable pub await_answer :
    Ask → Option Text → List Action → List Action → Gate → Gate × GateDecision
await_answer ask ref during_wait during_edit g =
    let g' = act_all during_wait (note_ref ref g) in
    let outcome = outcome_of g'.pending in
    conclude ask outcome (outcome_reason outcome) (answer_detail outcome g'.pending)
      (edits ref during_edit) g'

-- `_prompt_and_wait` by the outcome of `send_prompt`: only a delivered prompt is waited on.
unfoldable pub after_outcome :
    Ask → PromptSent → List Action → List Action → Gate → SendOutcome → Gate × GateDecision
after_outcome ask s during_wait during_edit g SendOutcome.delivered =
    await_answer ask s.ref during_wait during_edit g
after_outcome ask s during_wait during_edit g _ =
    if s.too_large
    then conclude ask ApprovalOutcome.cancelled Reason.too_large (some Detail.prompt_too_large) [] g
    else conclude ask ApprovalOutcome.cancelled Reason.not_sent none [] g

unfoldable pub after_send :
    Ask → List Action → List Action → Gate → Option PromptSent → Gate × GateDecision
after_send ask during_wait during_edit g none =
    conclude ask ApprovalOutcome.cancelled Reason.not_sent none [] g
after_send ask during_wait during_edit g (some s) =
    after_outcome ask s during_wait during_edit g s.outcome

-- `_prompt_and_wait`, and what `authorize` does after it.
unfoldable pub finish : Ask → Exchange → Gate → Gate × GateDecision
finish ask x g = after_send ask x.during_wait x.during_edit (act_all x.during_send g) x.sent

unfoldable pub complete : Exchange → Gate → Progress → Gate × GateDecision
complete x g (Progress.decided d) = (g, d)
complete x g (Progress.asking ask) = finish ask x g

unfoldable pub authorize : Tool → List Text → Exchange → Gate → Gate × GateDecision
authorize tool keys x g = let (g', p) = begin_authorize tool keys g in complete x g' p
