-- ===== src/Gate/Taint.antt =====
-- Session taint in henk/gate/approval.py, from the tool that raises it to the tools that it denies.
use henk.Base.{
  ℕ, suc, ◌≡◌, refl, inl, inr, Bool, true, false, not, ◌&&◌, Option, none, some, List, [], Text,
  arith, Bool-cases, Option-cases,
}
use henk.Channel.{SendOutcome}
use henk.Tools.{Tool, TurnType, same_turn, in_scope}
use henk.Gate.State.{
  ApprovalOutcome, executing, TurnContext, Detail, Reason, GateDecision, Gate, PromptSent,
}
use henk.Gate.Authorize.{
  Ask, Action, act_all, Exchange, scope_denial, raise_taint, resolve, ask_or_busy,
  begin_per_instance, authorize_standing, begin_mutating, begin_authorize, is_standing,
  effective_tier, bypasses, context_or_unframed, is_framed, conclude, await_answer, after_outcome,
  after_send, finish, complete, authorize, undeclared_key,
}
use henk.Gate.Policy.{authorize_out_of_scope}

-- The turn framed after a decision that permits execution is tainted.
abbrev Taints : Gate × GateDecision → Type 0
Taints r =
    executing r.1.outcome ≡ true → (c : TurnContext) → r.0.turn_context ≡ some c → c.tainted ≡ true

raise_taint-Tainted :
    (tool : Tool) (framed : Bool) (g : Gate)
    → tool.raises_taint ≡ true
    → (c : TurnContext) → (raise_taint tool framed g).turn_context ≡ some c
    → c.tainted ≡ true
unfolding raise_taint
raise_taint-Tainted tool framed g r c h = ground arith

module _ (tool : Tool) (r : tool.raises_taint ≡ true) where
  conclude-Taints :
      (ask : Ask) (o : ApprovalOutcome) (reason : Reason) (detail : Option Detail) (l : List Action)
      (g : Gate)
      → ask.tool ≡ tool
      → Taints (conclude ask o reason detail l g)
  unfolding conclude resolve
  conclude-Taints ask o reason detail l g same p c h =
      raise_taint-Tainted ask.tool ask.framed_at_start _ (rw same r) c (rw p at h)

  after_outcome-Taints :
      (ask : Ask) (s : PromptSent) (later edit : List Action) (g : Gate) (o : SendOutcome)
      → ask.tool ≡ tool
      → Taints (after_outcome ask s later edit g o)
  unfolding after_outcome await_answer
  after_outcome-Taints ask s later edit g SendOutcome.delivered same =
      conclude-Taints ask _ _ _ _ _ same
  after_outcome-Taints ask s later edit g _ same = elim (Bool-cases s.too_large) [
    | inl e ↦ rw e (conclude-Taints ask _ _ _ [] g same)
    | inr e ↦ rw e (conclude-Taints ask _ _ _ [] g same)
  ]

  finish-Taints : (ask : Ask) (x : Exchange) (g : Gate) → ask.tool ≡ tool → Taints (finish ask x g)
  unfolding finish
  finish-Taints ask x g same = go (act_all x.during_send g) x.sent
    where
      go :
          (g' : Gate) (sent : Option PromptSent)
          → Taints (after_send ask x.during_wait x.during_edit g' sent)
      go g' none = unfold after_send in conclude-Taints ask _ _ _ [] g' same
      go g' (some s) =
          unfold after_send in
          after_outcome-Taints ask s x.during_wait x.during_edit g' s.outcome same

  begin_per_instance-Taints :
      (keys : List Text) (n : ℕ) (c : TurnContext) (framed : Bool) (x : Exchange) (g : Gate)
      → Taints (
          complete x
            (begin_per_instance tool keys n c framed g).0
            (begin_per_instance tool keys n c framed g).1)
  unfolding begin_per_instance ask_or_busy resolve complete
  begin_per_instance-Taints keys n c framed x g =
      elim (Bool-cases (same_turn c.turn_type TurnType.event && not c.announceable)) [
        | inl e ↦ rw e (λ p d h. cc)
        | inr e ↦ rw e (elim (Bool-cases (undeclared_key tool keys)) [
          | inl u ↦ rw u (λ p d h. cc)
          | inr u ↦ rw u (elim (Option-cases g.pending) [
            | inr (p, q) ↦ rw q (λ p d h. cc)
            | inl q ↦ rw q (
                finish-Taints
                  (record { tool = tool; reference = n; context = c; framed_at_start = framed }) x _
                  refl)
          ])
        ])
      ]

  begin_mutating-Taints :
      (keys : List Text) (x : Exchange) (g : Gate)
      → Taints (complete x (begin_mutating tool keys g).0 (begin_mutating tool keys g).1)
  unfolding begin_mutating
  begin_mutating-Taints keys x g =
      elim (Option-cases (scope_denial tool (context_or_unframed g.turn_context))) [
        | inr (reason, e) ↦ rw (e, begin_mutating) (unfold resolve complete in λ p d h. cc)
        | inl e ↦ elim (Bool-cases (is_standing (effective_tier g tool))) [
          | inl s ↦
              rw (e, begin_mutating, s)
                (unfold authorize_standing resolve complete in
                  λ p d h. raise_taint-Tainted tool (is_framed g.turn_context) _ r d h)
          | inr s ↦
              rw (e, begin_mutating, s)
                (begin_per_instance-Taints keys g.next_ref (context_or_unframed g.turn_context)
                  (is_framed g.turn_context) x (record g { next_ref = suc g.next_ref }))
        ]
      ]

  authorize-Taints : (keys : List Text) (x : Exchange) (g : Gate) → Taints (authorize tool keys x g)
  unfolding authorize begin_authorize
  authorize-Taints keys x g = elim (Bool-cases (bypasses tool.tool_class)) [
    | inl e ↦
        rw e
          (unfold complete in λ p d h. raise_taint-Tainted tool (is_framed g.turn_context) g r d h)
    | inr e ↦ rw e (begin_mutating-Taints keys x g)
  ]

-- Once a tool that raises taint has been permitted, whatever class and tier it has and whatever
-- happened while it waited, every owner-only tool that does not bypass the gate is out of scope in
-- the turn that is then framed, whatever the owner answers.
pub taint_blocks_writes :
    (source : Tool) (keys : List Text) (x : Exchange) (g : Gate) (writer : Tool) (keys' : List Text)
    (x' : Exchange) (c : TurnContext)
    → source.raises_taint ≡ true
    → executing (authorize source keys x g).1.outcome ≡ true
    → (authorize source keys x g).0.turn_context ≡ some c
    → bypasses writer.tool_class ≡ false
    → in_scope TurnType.event writer.turn_scope ≡ false
    → (authorize writer keys' x' (authorize source keys x g).0).1.outcome
      ≡ ApprovalOutcome.out_of_scope
taint_blocks_writes source keys x g writer keys' x' c r p h b s =
    authorize_out_of_scope writer keys' x' (authorize source keys x g).0 c b s h
      (inr (authorize-Taints source r keys x g p c h))
