-- ===== src/Gate/Policy.antt =====
-- `authorize` of henk/gate/approval.py against the permission model, and its tools that are out of
-- scope or must ask.
use henk.Base.{
  suc, ◌≡◌, ◌≢◌, refl, sym, if◌then◌else◌, ◌∙◌, ◌⊎◌, inl, inr, true, false, Option, none, some,
  List, [], ◌∷◌, Text, arith, Bool-cases, Option-cases,
}
use henk.Channel.{SendOutcome}
use henk.Tools.{Tool, TurnType, in_scope}
use henk.Gate.State.{ApprovalOutcome, executing, TurnContext, Gate, PromptSent}
use henk.Gate.Authorize.{
  Action, Exchange, scope_denial, resolve, authorize_standing, begin_mutating, begin_authorize,
  is_standing, effective_tier, bypasses, context_or_unframed, is_framed, complete, authorize,
}
use henk.Gate.Permission.{is_harmless, is_out_of_reach, stands}
use henk.Gate.Conforms.{is_reason, bypasses_lem, scope_denial_lem, effective_tier_lem}
use henk.Gate.FirstAnswer.{answer_given, first_answer, or_else}
use henk.Gate.Decision.{
  owner_decides, sent_decides, or_timeout, turn_of, asking_policy, policy,
  begin_per_instance-policy,
}

turn_of_lem : (o : Option TurnContext) → context_or_unframed o ≡ turn_of o
turn_of_lem none = refl
turn_of_lem (some c) = refl

begin_mutating-policy :
    (tool : Tool) (keys : List Text) (x : Exchange) (g : Gate)
    → is_harmless tool.tool_class ≡ false
    → (complete x (begin_mutating tool keys g).0 (begin_mutating tool keys g).1).1.outcome
      ≡ policy tool keys x g
unfolding begin_mutating policy
begin_mutating-policy tool keys x g b =
    let c : TurnContext = context_or_unframed g.turn_context in
    let reach = scope_denial_lem tool c in
    let tier = effective_tier_lem g tool in
    let asks =
      begin_per_instance-policy tool keys g.next_ref c (is_framed g.turn_context) x
        (record g { next_ref = suc g.next_ref }) in
    rw (b, ← turn_of_lem g.turn_context, ← reach, ← tier)
      (elim (Option-cases (scope_denial tool c)) [
        | inr (reason, e) ↦ rw (e, begin_mutating) (unfold resolve complete in refl)
        | inl e ↦ elim (Bool-cases (is_standing (effective_tier g tool))) [
          | inl s ↦ rw (e, begin_mutating, s) (unfold authorize_standing resolve complete in refl)
          | inr s ↦ rw (e, begin_mutating, s) asks
        ]
      ])

-- `authorize` decides as the permission model says, whatever the tool, its arguments, the state of
-- the gate and the exchange: reads and notifications pass; then a tool is denied where its scope does
-- not list the turn's type or, in a tainted session, event turns; then a standing tier is authorized
-- unless the kill-switch is on; then a cap-suppressed event turn, an argument that is no declared
-- parameter and a pending approval each refuse; and otherwise the first answer that the owner gives
-- to the delivered prompt decides, an undelivered prompt cancels, and no answer is a timeout. The
-- model is written without the tests of the code.
pub authorize-eq-policy :
    (tool : Tool) (keys : List Text) (x : Exchange) (g : Gate)
    → (authorize tool keys x g).1.outcome ≡ policy tool keys x g
unfolding authorize begin_authorize
authorize-eq-policy tool keys x g =
    rw (bypasses_lem tool.tool_class) (elim (Bool-cases (is_harmless tool.tool_class)) [
      | inl e ↦ rw e (unfold complete policy in rw e)
      | inr e ↦ rw e (begin_mutating-policy tool keys x g e)
    ])

scope_denied :
    (tool : Tool) (c : TurnContext)
    → in_scope TurnType.event tool.turn_scope ≡ false
    → (c.turn_type ≡ TurnType.event) ⊎ (c.tainted ≡ true)
    → is_reason (scope_denial tool c) ≡ true
unfolding scope_denial
scope_denied tool c s bad = ground arith

-- An owner-only tool that does not bypass the gate is decided out of scope, so not executed, in
-- every event turn and in every turn of a tainted session, whatever its tier, its arguments, the
-- pending approval and the owner's answers.
pub authorize_out_of_scope :
    (tool : Tool) (keys : List Text) (x : Exchange) (g : Gate) (c : TurnContext)
    → bypasses tool.tool_class ≡ false
    → in_scope TurnType.event tool.turn_scope ≡ false
    → g.turn_context ≡ some c
    → (c.turn_type ≡ TurnType.event) ⊎ (c.tainted ≡ true)
    → (authorize tool keys x g).1.outcome ≡ ApprovalOutcome.out_of_scope
authorize_out_of_scope tool keys x g c b s t bad =
    let harmful = sym (bypasses_lem tool.tool_class) ∙ b in
    let reach = sym (scope_denial_lem tool c) ∙ scope_denied tool c s bad in
    authorize-eq-policy tool keys x g ∙ decided (rw t reach) harmful
  where
    decided :
        is_out_of_reach tool (turn_of g.turn_context) ≡ true
        → is_harmless tool.tool_class ≡ false
        → policy tool keys x g ≡ ApprovalOutcome.out_of_scope
    decided r h = unfold policy in rw (h, r)

-- The owner's first answer to a delivered prompt.
abbrev pub OwnerApproved : Exchange → Type 0
OwnerApproved x =
    (s : PromptSent) × (x.sent ≡ some s)
    × (s.outcome ≡ SendOutcome.delivered)
    × (or_else (first_answer none x.during_send) (first_answer s.ref x.during_wait)
        ≡ some ApprovalOutcome.approved)

or_timeout_approved :
    (o : Option ApprovalOutcome)
    → executing (or_timeout o) ≡ true
    → (o ≡ some ApprovalOutcome.authorized) ⊎ (o ≡ some ApprovalOutcome.approved)
or_timeout_approved o h = ground arith

-- First answers are approvals, denials or cancellations.
given_cases :
    (ref : Option Text) (a : Action) → answer_given ref a ≢ some ApprovalOutcome.authorized
given_cases ref (Action.message text) = λ e. ground arith
given_cases ref (Action.reacts r) = λ e. ground arith
given_cases ref (Action.enters c) = λ e. cc
given_cases ref Action.exits = λ e. cc
given_cases ref (Action.invokes tool keys) = λ e. cc

first_cases :
    (ref : Option Text) (l : List Action) → first_answer ref l ≢ some ApprovalOutcome.authorized
first_cases ref [] e = cc
first_cases ref (a ∷ l) e = ground (arith, given_cases ref a, first_cases ref l)

both_cases :
    (a b : Option ApprovalOutcome)
    → a ≢ some ApprovalOutcome.authorized
    → b ≢ some ApprovalOutcome.authorized
    → or_else a b ≢ some ApprovalOutcome.authorized
both_cases none b h k = k
both_cases (some o) b h k = h

owner_approved :
    (before later : List Action) (sent : Option PromptSent)
    → executing (owner_decides before later sent) ≡ true
    → (s : PromptSent) × (sent ≡ some s)
      × (s.outcome ≡ SendOutcome.delivered)
      × (or_else (first_answer none before) (first_answer s.ref later)
          ≡ some ApprovalOutcome.approved)
owner_approved before later none h = absurd (cc)
owner_approved before later (some s) h = (
  s,
  refl,
  delivered_only (or_else (first_answer none before) (first_answer s.ref later)) s.outcome h,
  approved_only s.outcome h,
)
  where
    delivered_only :
        (o : Option ApprovalOutcome) (d : SendOutcome)
        → executing (sent_decides o d) ≡ true
        → d ≡ SendOutcome.delivered
    delivered_only o d q = ground arith

    approved_only :
        (d : SendOutcome)
        → executing (sent_decides (or_else (first_answer none before) (first_answer s.ref later)) d)
          ≡ true
        → or_else (first_answer none before) (first_answer s.ref later)
          ≡ some ApprovalOutcome.approved
    approved_only SendOutcome.delivered q =
        elim (or_timeout_approved (or_else (first_answer none before) (first_answer s.ref later))
          q) [
            | inl e ↦ absurd (
                both_cases (first_answer none before) (first_answer s.ref later)
                  (first_cases none before) (first_cases s.ref later) e)
            | inr e ↦ e
          ]
    approved_only SendOutcome.partial q = cc
    approved_only SendOutcome.failed q = cc

-- A mutating tool, or one of no known class, whose tier is not standing or has its standing switched
-- off, executes only if the prompt was delivered and the first answer to it approves: a message that
-- says yes or approve in any case of letters, or a thumb up that is no removal, on that very prompt
-- and after its reference was known, with no other message, and no other thumb on it, before.
pub executes_only_approved :
    (tool : Tool) (keys : List Text) (x : Exchange) (g : Gate)
    → is_harmless tool.tool_class ≡ false
    → stands g.demote_standing tool.authorization ≡ false
    → executing (authorize tool keys x g).1.outcome ≡ true
    → (s : PromptSent) × (x.sent ≡ some s)
      × (s.outcome ≡ SendOutcome.delivered)
      × (or_else (first_answer none x.during_send) (first_answer s.ref x.during_wait)
          ≡ some ApprovalOutcome.approved)
executes_only_approved tool keys x g b st h =
    owner_approved x.during_send x.during_wait x.sent (chosen (rw authorize-eq-policy at h))
  where
    asked :
        executing (
            if is_out_of_reach tool (turn_of g.turn_context)
            then ApprovalOutcome.out_of_scope
            else asking_policy tool keys (turn_of g.turn_context) x g)
          ≡ true
        → executing (owner_decides x.during_send x.during_wait x.sent) ≡ true
    asked q = ground arith

    chosen :
        executing (policy tool keys x g) ≡ true
        → executing (owner_decides x.during_send x.during_wait x.sent) ≡ true
    chosen q = unfold policy in asked (rw (b, st) at q)
