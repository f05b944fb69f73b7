-- ===== src/Gate/Authorize/Begin.antt =====
-- `authorize` of henk/gate/approval.py up to the prompt: scope, taint, tiers, the cap's suppression,
-- undeclared arguments and the one pending slot.
use henk.Base.{
  ℕ, suc, Bool, true, false, not, ◌||◌, ◌&&◌, Option, none, some, List, [], ◌∷◌, ◌++◌, Text,
  text_eq, if◌then◌else◌,
}
use henk.Tools.{Tool, ToolClass, AuthorizationTier, TurnType, same_turn, in_scope}
use henk.Gate.State.{
  ApprovalOutcome, TurnContext, unframed_context, Pending, Detail, Reason, GateDecision, Gate,
}

-- `effective_tier`
unfoldable pub effective_tier : Gate → Tool → Option AuthorizationTier
effective_tier g tool = elim tool.authorization [
  | some AuthorizationTier.standing ↦
      if g.demote_standing
      then some AuthorizationTier.per_instance
      else some AuthorizationTier.standing
  | other ↦ other
]

abbrev pub is_standing : Option AuthorizationTier → Bool
is_standing (some AuthorizationTier.standing) = true
is_standing _ = false

-- `_scope_denial_reason`
unfoldable pub scope_denial : Tool → TurnContext → Option Reason
scope_denial tool c =
    let covered = in_scope TurnType.event tool.turn_scope in
    if not covered && same_turn c.turn_type TurnType.event
    then some Reason.event_turn
    else if not covered && c.tainted
    then elim c.taint_source [
      | none ↦ some Reason.tainted_by_incident
      | some _ ↦ some Reason.tainted_by_tool
    ]
    else if in_scope c.turn_type tool.turn_scope
    then none
    else some Reason.not_scoped

-- The detail of a scope denial's receipt.
unfoldable pub scope_detail : Tool → TurnContext → Option Detail
scope_detail tool c = elim c.taint_source [
  | none ↦ none
  | some source ↦
      if same_turn c.turn_type TurnType.owner && not (in_scope TurnType.event tool.turn_scope)
      then some (Detail.taint_raised_by source)
      else none
]

unfoldable pub declares : Text → List Text → Bool
declares key [] = false
declares key (p ∷ ps) = text_eq key p || declares key ps

-- `_undeclared_key`
unfoldable pub undeclared_key : Tool → List Text → Bool
unfolding declares
undeclared_key tool [] = false
undeclared_key tool (key ∷ keys) = not (declares key tool.properties) || undeclared_key tool keys

-- `_raise_taint`
unfoldable pub raise_taint : Tool → Bool → Gate → Gate
raise_taint tool framed_at_start g =
    let taint = λ (c : TurnContext). if c.tainted then g else record g {
      turn_context = some (record c { tainted = true; taint_source = some tool.name });
    } in
    if tool.raises_taint
    then elim g.turn_context [
      | none ↦ if framed_at_start then g else taint unframed_context
      | some c ↦ taint c
    ]
    else g

-- `_resolve`
unfoldable pub resolve :
    Tool → ApprovalOutcome → ℕ → TurnContext → Reason → Option Detail → Gate → Gate × GateDecision
resolve tool outcome reference c reason detail g = (
  record g {
    receipts =
        g.receipts
        ++ (record {
          tool = tool.name;
          tier = tool.authorization;
          outcome = outcome;
          reference = reference;
          turn_type = c.turn_type;
          detail = detail;
        })
          ∷ [];
  },
  record { outcome = outcome; reference = some reference; reason = reason },
)

-- An invocation that waits for the owner.
pub record Ask : Type 0 where
  pub tool : Tool
  pub reference : ℕ
  pub context : TurnContext
  pub framed_at_start : Bool

pub data Progress : Type 0 where
  decided : GateDecision → Progress
  asking : Ask → Progress

abbrev pub decide : Gate × GateDecision → Gate × Progress
decide (g, d) = (g, Progress.decided d)

abbrev pub context_or_unframed : Option TurnContext → TurnContext
context_or_unframed none = unframed_context
context_or_unframed (some c) = c

abbrev pub is_framed : Option TurnContext → Bool
is_framed none = false
is_framed (some _) = true

abbrev pub bypasses : Option ToolClass → Bool
bypasses (some ToolClass.read_only) = true
bypasses (some ToolClass.notify_only) = true
bypasses _ = false

-- The prompt is asked for, unless another approval is pending.
unfoldable pub ask_or_busy : Tool → ℕ → TurnContext → Bool → Gate → Option Pending → Gate × Progress
ask_or_busy tool reference c framed g (some _) =
    decide (resolve tool ApprovalOutcome.rejected_busy reference c Reason.busy none g)
ask_or_busy tool reference c framed g none = (
  record g {
    pending = some (record {
      tool_name = tool.name;
      reference = reference;
      future = none;
      prompt_ref = none;
      answered_by = none;
    });
  },
  Progress.asking
      (record { tool = tool; reference = reference; context = c; framed_at_start = framed }),
)

-- `authorize` from the suppression of a cap-suppressed event turn on, up to the prompt.
unfoldable pub begin_per_instance :
    Tool → List Text → ℕ → TurnContext → Bool → Gate → Gate × Progress
begin_per_instance tool keys reference c framed g =
    if same_turn c.turn_type TurnType.event && not c.announceable
    then decide (resolve tool ApprovalOutcome.suppressed reference c Reason.cap_suppressed none g)
    else if undeclared_key tool keys
    then decide (
        resolve tool ApprovalOutcome.cancelled reference c Reason.undeclared_key
          (some Detail.undeclared_argument) g)
    else ask_or_busy tool reference c framed g g.pending

-- A standing action is authorized without asking.
unfoldable pub authorize_standing : Tool → ℕ → TurnContext → Bool → Gate → Gate × Progress
authorize_standing tool reference c framed g =
    let (g', d) = resolve tool ApprovalOutcome.authorized reference c Reason.none_given none g in
    (raise_taint tool framed g', Progress.decided d)

-- `authorize` of a mutating tool, up to the prompt.
unfoldable pub begin_mutating : Tool → List Text → Gate → Gate × Progress
begin_mutating tool keys g₀ =
    let framed = is_framed g₀.turn_context in
    let c = context_or_unframed g₀.turn_context in
    let reference = g₀.next_ref in
    let g : Gate = record g₀ { next_ref = suc g₀.next_ref } in
    elim (scope_denial tool c) [
      | some reason ↦
          decide
            (resolve tool ApprovalOutcome.out_of_scope reference c reason (scope_detail tool c) g)
      | none ↦
          if is_standing (effective_tier g₀ tool)
          then authorize_standing tool reference c framed g
          else begin_per_instance tool keys reference c framed g
    ]

-- `authorize`, up to the prompt; `keys` are the argument keys in call order.
unfoldable pub begin_authorize : Tool → List Text → Gate → Gate × Progress
begin_authorize tool keys g =
    if bypasses tool.tool_class
    then (
      raise_taint tool (is_framed g.turn_context) g,
      Progress.decided (record {
        outcome = ApprovalOutcome.approved;
        reference = none;
        reason = Reason.none_given;
      }),
    )
    else begin_mutating tool keys g
