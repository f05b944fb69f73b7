-- ===== src/Gate/Examples.antt =====
-- The theorems on the gate and the registry at concrete tools, and tests of an approval.
use henk.Base.{◌≡◌, refl, inr, true, false, none, some, List, [], ◌∷◌, Text, text_eq, keep, codes}
use henk.Channel.{SendOutcome}
use henk.Tools.{Tool, ToolClass, AuthorizationTier, TurnType, in_scope, register}
use henk.Tools.Registered.{Registers, register-Registers}
use henk.Store.Content.{strip, strip_left, is_space}
use henk.Gate.State.{ApprovalOutcome, TurnContext, Gate, PromptSent}
use henk.Gate.Reply
use henk.Gate.Reply.{classify, classify_reaction, lower}
use henk.Gate.Authorize.{
  Exchange, Action, authorize, begin_authorize, begin_mutating, begin_per_instance, ask_or_busy,
  resolve, raise_taint, scope_denial, effective_tier, undeclared_key, complete, finish, after_send,
  after_outcome, await_answer, conclude, act_all, act,
}
use henk.Gate.FirstAnswer.{first_answer, or_else}
use henk.Gate.Decision.{policy}
use henk.Gate.Policy.{authorize-eq-policy, authorize_out_of_scope, executes_only_approved}
use henk.Gate.Taint.{taint_blocks_writes}
use henk.Gate.Receipts.{IsReceipted, authorize-IsReceipted}

abbrev calendar_tool : Tool
calendar_tool = record {
  name = codes "calendar_create_event";
  class_name = codes "CalendarCreate";
  tool_class = some ToolClass.mutating;
  authorization = some AuthorizationTier.per_instance;
  turn_scope = TurnType.owner ∷ [];
  raises_taint = false;
  label = codes "Add a calendar event";
  properties = codes "title" ∷ codes "start" ∷ [];
}

abbrev docs_tool : Tool
docs_tool = record {
  name = codes "homelab_docs";
  class_name = codes "HomelabDocs";
  tool_class = some ToolClass.read_only;
  authorization = none;
  turn_scope = TurnType.owner ∷ [];
  raises_taint = true;
  label = [];
  properties = [];
}

abbrev owner_turn : TurnContext
owner_turn = record {
  turn_type = TurnType.owner;
  announceable = true;
  tainted = false;
  taint_source = none;
}

abbrev docs_turn : TurnContext
docs_turn = record owner_turn { tainted = true; taint_source = some (codes "homelab_docs") }

abbrev idle : Gate
idle = record {
  demote_standing = false;
  pending = none;
  next_ref = 1;
  turn_context = some owner_turn;
  receipts = [];
}

-- A removed thumb, a thumb on another prompt, and then the thumb that counts.
abbrev thumbs : Exchange
thumbs = record {
  during_send = [];
  sent =
      some (record { outcome = SendOutcome.delivered; ref = some (codes "t1"); too_large = false });
  during_wait =
      Action.reacts
        (record { emoji = 0x1F44D ∷ []; target_ref = some (codes "t1"); removed = true })
      ∷ Action.reacts
          (record { emoji = 0x1F44D ∷ []; target_ref = some (codes "t0"); removed = false })
      ∷ Action.reacts (record {
        emoji = 0x1F44D ∷ 0x1F3FD ∷ [];
        target_ref = some (codes "t1");
        removed = false;
      })
      ∷ Action.message (codes "no")
      ∷ [];
  during_edit = [];
}

abbrev keys : List Text
keys = codes "title" ∷ []

approved_by_thumb : (authorize calendar_tool keys thumbs idle).1.outcome ≡ ApprovalOutcome.approved
unfolding authorize begin_authorize begin_mutating begin_per_instance ask_or_busy resolve
    raise_taint scope_denial effective_tier undeclared_key in_scope complete finish after_send
    after_outcome await_answer conclude act_all act classify text_eq strip strip_left is_space lower
    classify_reaction keep Reply.deliver Reply.deliver_reaction Reply.answer_reaction
    Reply.answer_message Reply.answer
approved_by_thumb = refl

authorize-eq-policy_example :
    (authorize calendar_tool keys thumbs idle).1.outcome ≡ policy calendar_tool keys thumbs idle
authorize-eq-policy_example = authorize-eq-policy calendar_tool keys thumbs idle

authorize_out_of_scope_example :
    (authorize calendar_tool keys thumbs (record idle { turn_context = some docs_turn })).1.outcome
    ≡ ApprovalOutcome.out_of_scope
unfolding in_scope
authorize_out_of_scope_example =
    authorize_out_of_scope calendar_tool keys thumbs (record idle { turn_context = some docs_turn })
      docs_turn refl refl refl (inr refl)

executes_only_approved_example :
    (s : PromptSent) × (thumbs.sent ≡ some s)
    × (s.outcome ≡ SendOutcome.delivered)
    × (or_else (first_answer none thumbs.during_send) (first_answer s.ref thumbs.during_wait)
        ≡ some ApprovalOutcome.approved)
unfolding effective_tier
executes_only_approved_example =
    executes_only_approved calendar_tool keys thumbs idle refl refl (rw approved_by_thumb refl)

taint_blocks_writes_example :
    (authorize calendar_tool keys thumbs (authorize docs_tool [] thumbs idle).0).1.outcome
    ≡ ApprovalOutcome.out_of_scope
unfolding authorize begin_authorize raise_taint complete in_scope
taint_blocks_writes_example =
    taint_blocks_writes docs_tool [] thumbs idle calendar_tool keys thumbs docs_turn refl refl refl
      refl refl

authorize-IsReceipted_example : IsReceipted calendar_tool (authorize calendar_tool keys thumbs idle)
authorize-IsReceipted_example = authorize-IsReceipted calendar_tool keys thumbs idle refl

register-Registers_example :
    Registers
      (register calendar_tool ((codes "homelab_docs", docs_tool) ∷ []))
      calendar_tool
      ((codes "homelab_docs", docs_tool) ∷ [])
register-Registers_example =
    register-Registers calendar_tool ((codes "homelab_docs", docs_tool) ∷ [])
