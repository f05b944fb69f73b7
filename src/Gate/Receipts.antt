-- ===== src/Gate/Receipts.antt =====
-- The receipts of decisions on tools that do not bypass the gate: henk/gate/approval.py.
use henk.Base.{
  ℕ, suc, ◌≡◌, refl, inl, inr, Bool, false, not, ◌&&◌, Option, none, some, List, [], ◌∷◌, ◌++◌,
  Text, arith, Bool-cases, Option-cases, In,
}
use henk.Channel.{SendOutcome}
use henk.Tools.{Tool, TurnType, same_turn}
use henk.Gate.State.{
  ApprovalOutcome, executing, Pending, TurnContext, Detail, Reason, Receipt, GateDecision, Gate,
  PromptSent,
}
use henk.Gate.Reply.{deliver, deliver_reaction}
use henk.Gate.Authorize.{
  Action, act, act_all, Exchange, scope_denial, raise_taint, resolve, ask_or_busy,
  begin_per_instance, authorize_standing, begin_mutating, begin_authorize, is_standing,
  effective_tier, bypasses, context_or_unframed, is_framed, conclude, await_answer, after_outcome,
  after_send, finish, complete, authorize, undeclared_key,
}

In-append_left : (a : Receipt) (xs ys : List Receipt) → In a xs → In a (xs ++ ys)
In-append_left a [] ys m = absurd m
In-append_left a (x ∷ xs) ys (inl e) = inl e
In-append_left a (x ∷ xs) ys (inr m) = inr (In-append_left a xs ys m)

In-append_last : (a : Receipt) (xs : List Receipt) → In a (xs ++ a ∷ [])
In-append_last a [] = inl refl
In-append_last a (x ∷ xs) = inr (In-append_last a xs)

raise_taint-receipts :
    (tool : Tool) (framed : Bool) (g : Gate) → (raise_taint tool framed g).receipts ≡ g.receipts
unfolding raise_taint
raise_taint-receipts tool framed g = ground arith

resolve-keeps :
    (a : Receipt) (tool : Tool) (o : ApprovalOutcome) (n : ℕ) (c : TurnContext) (reason : Reason)
    (detail : Option Detail) (g : Gate)
    → In a g.receipts
    → In a (resolve tool o n c reason detail g).0.receipts
unfolding resolve
resolve-keeps a tool o n c reason detail g m = In-append_left a g.receipts _ m

ask_or_busy-keeps :
    (a : Receipt) (tool : Tool) (n : ℕ) (c : TurnContext) (framed : Bool) (g : Gate)
    (p : Option Pending)
    → In a g.receipts
    → In a (ask_or_busy tool n c framed g p).0.receipts
unfolding ask_or_busy
ask_or_busy-keeps a tool n c framed g (some p) m = resolve-keeps a tool _ n c _ _ g m
ask_or_busy-keeps a tool n c framed g none m = m

begin_per_instance-keeps :
    (a : Receipt) (tool : Tool) (keys : List Text) (n : ℕ) (c : TurnContext) (framed : Bool)
    (g : Gate)
    → In a g.receipts
    → In a (begin_per_instance tool keys n c framed g).0.receipts
unfolding begin_per_instance
begin_per_instance-keeps a tool keys n c framed g m =
    elim (Bool-cases (same_turn c.turn_type TurnType.event && not c.announceable)) [
      | inl e ↦ rw e (resolve-keeps a tool _ n c _ _ g m)
      | inr e ↦ rw e (elim (Bool-cases (undeclared_key tool keys)) [
        | inl u ↦ rw u (resolve-keeps a tool _ n c _ _ g m)
        | inr u ↦ rw u (ask_or_busy-keeps a tool n c framed g g.pending m)
      ])
    ]

begin_mutating-keeps :
    (a : Receipt) (tool : Tool) (keys : List Text) (g : Gate)
    → In a g.receipts
    → In a (begin_mutating tool keys g).0.receipts
unfolding begin_mutating
begin_mutating-keeps a tool keys g m =
    let c : TurnContext = context_or_unframed g.turn_context in
    let g' : Gate = record g { next_ref = suc g.next_ref } in
    elim (Option-cases (scope_denial tool c)) [
      | inr (reason, e) ↦ rw (e, begin_mutating) (resolve-keeps a tool _ g.next_ref c _ _ g' m)
      | inl e ↦ elim (Bool-cases (is_standing (effective_tier g tool))) [
        | inl s ↦
            rw (e, begin_mutating, s)
              (unfold authorize_standing in
                rw raise_taint-receipts (resolve-keeps a tool _ g.next_ref c _ _ g' m))
        | inr s ↦
            rw (e, begin_mutating, s)
              (begin_per_instance-keeps a tool keys g.next_ref c (is_framed g.turn_context) g' m)
      ]
    ]

begin_authorize-keeps :
    (a : Receipt) (tool : Tool) (keys : List Text) (g : Gate)
    → In a g.receipts
    → In a (begin_authorize tool keys g).0.receipts
unfolding begin_authorize
begin_authorize-keeps a tool keys g m = elim (Bool-cases (bypasses tool.tool_class)) [
  | inl e ↦ rw (e, raise_taint-receipts) m
  | inr e ↦ rw e (begin_mutating-keeps a tool keys g m)
]

act-keeps : (a : Receipt) (b : Action) (g : Gate) → In a g.receipts → In a (act b g).receipts
unfolding act
act-keeps a (Action.message text) g m = rw message_receipts m
  where
    message_receipts : (deliver text g).1.receipts ≡ g.receipts
    message_receipts = unfold deliver in ground arith
act-keeps a (Action.reacts r) g m = rw reaction_receipts m
  where
    reaction_receipts : (deliver_reaction r g).1.receipts ≡ g.receipts
    reaction_receipts = unfold deliver_reaction in ground arith
act-keeps a (Action.enters c) g m = m
act-keeps a Action.exits g m = m
act-keeps a (Action.invokes tool keys) g m = begin_authorize-keeps a tool keys g m

-- What else reaches the gate removes no receipt.
act_all-keeps :
    (a : Receipt) (l : List Action) (g : Gate) → In a g.receipts → In a (act_all l g).receipts
unfolding act_all
act_all-keeps a [] g m = m
act_all-keeps a (b ∷ l) g m = act_all-keeps a l (act b g) (act-keeps a b g m)

-- A receipt of the decision stands in the log.
abbrev pub IsReceipted : Tool → Gate × GateDecision → Type 0
IsReceipted tool r =
    (a : Receipt) × In a r.0.receipts
    × (a.tool ≡ tool.name)
    × (a.tier ≡ tool.authorization)
    × (a.outcome ≡ r.1.outcome)
    × (some a.reference ≡ r.1.reference)

module _ (tool : Tool) where
  resolve-IsReceipted :
      (o : ApprovalOutcome) (n : ℕ) (c : TurnContext) (reason : Reason) (detail : Option Detail)
      (g : Gate)
      → IsReceipted tool (resolve tool o n c reason detail g)
  unfolding resolve
  resolve-IsReceipted o n c reason detail g =
      (_, In-append_last _ g.receipts, refl, refl, refl, refl)

  conclude-IsReceipted :
      (n : ℕ) (c : TurnContext) (framed : Bool) (o : ApprovalOutcome) (reason : Reason)
      (detail : Option Detail) (l : List Action) (g : Gate)
      → IsReceipted tool (
          conclude
            (record { tool = tool; reference = n; context = c; framed_at_start = framed })
            o
            reason
            detail
            l
            g)
  unfolding conclude
  conclude-IsReceipted n c framed o reason detail l g =
      let g' : Gate = record g { pending = none } in
      let (a, m, t, ti, ou, re) = resolve-IsReceipted o n c reason detail g' in
      let r : Gate × GateDecision = resolve tool o n c reason detail g' in
      let m' : In a (act_all l r.0).receipts = act_all-keeps a l r.0 m in
      (
        a,
        elim (Bool-cases (executing o)) [
          | inl e ↦ rw (e, raise_taint-receipts) m'
          | inr e ↦ rw e m'
        ],
        t,
        ti,
        ou,
        re,
      )

  after_outcome-IsReceipted :
      (n : ℕ) (c : TurnContext) (framed : Bool) (s : PromptSent) (later edit : List Action)
      (g : Gate) (o : SendOutcome)
      → IsReceipted tool (
          after_outcome
            (record { tool = tool; reference = n; context = c; framed_at_start = framed })
            s
            later
            edit
            g
            o)
  unfolding after_outcome await_answer
  after_outcome-IsReceipted n c framed s later edit g SendOutcome.delivered =
      conclude-IsReceipted n c framed _ _ _ _ _
  after_outcome-IsReceipted n c framed s later edit g _ = elim (Bool-cases s.too_large) [
    | inl e ↦ rw e (conclude-IsReceipted n c framed _ _ _ [] g)
    | inr e ↦ rw e (conclude-IsReceipted n c framed _ _ _ [] g)
  ]

  after_send-IsReceipted :
      (n : ℕ) (c : TurnContext) (framed : Bool) (later edit : List Action) (g : Gate)
      (sent : Option PromptSent)
      → IsReceipted tool (
          after_send
            (record { tool = tool; reference = n; context = c; framed_at_start = framed })
            later
            edit
            g
            sent)
  unfolding after_send
  after_send-IsReceipted n c framed later edit g none = conclude-IsReceipted n c framed _ _ _ [] g
  after_send-IsReceipted n c framed later edit g (some s) =
      after_outcome-IsReceipted n c framed s later edit g s.outcome

  ask_or_busy-IsReceipted :
      (n : ℕ) (c : TurnContext) (framed : Bool) (x : Exchange) (g : Gate) (p : Option Pending)
      → IsReceipted tool
          (complete x (ask_or_busy tool n c framed g p).0 (ask_or_busy tool n c framed g p).1)
  unfolding ask_or_busy complete finish
  ask_or_busy-IsReceipted n c framed x g (some p) = resolve-IsReceipted _ n c _ _ g
  ask_or_busy-IsReceipted n c framed x g none =
      after_send-IsReceipted n c framed x.during_wait x.during_edit _ x.sent

  begin_per_instance-IsReceipted :
      (keys : List Text) (n : ℕ) (c : TurnContext) (framed : Bool) (x : Exchange) (g : Gate)
      → IsReceipted tool (
          complete x
            (begin_per_instance tool keys n c framed g).0
            (begin_per_instance tool keys n c framed g).1)
  unfolding begin_per_instance
  begin_per_instance-IsReceipted keys n c framed x g =
      elim (Bool-cases (same_turn c.turn_type TurnType.event && not c.announceable)) [
        | inl e ↦ rw e (unfold complete in resolve-IsReceipted _ n c _ _ g)
        | inr e ↦ rw e (elim (Bool-cases (undeclared_key tool keys)) [
          | inl u ↦ rw u (unfold complete in resolve-IsReceipted _ n c _ _ g)
          | inr u ↦ rw u (ask_or_busy-IsReceipted n c framed x g g.pending)
        ])
      ]

  standing-IsReceipted :
      (n : ℕ) (c : TurnContext) (framed : Bool) (x : Exchange) (g : Gate)
      → IsReceipted tool (
          complete x
            (authorize_standing tool n c framed g).0
            (authorize_standing tool n c framed g).1)
  unfolding authorize_standing complete
  standing-IsReceipted n c framed x g =
      let (a, m, t, ti, ou, re) =
        resolve-IsReceipted ApprovalOutcome.authorized n c Reason.none_given none g in
      (a, rw raise_taint-receipts m, t, ti, ou, re)

  begin_mutating-IsReceipted :
      (keys : List Text) (x : Exchange) (g : Gate)
      → IsReceipted tool (complete x (begin_mutating tool keys g).0 (begin_mutating tool keys g).1)
  unfolding begin_mutating
  begin_mutating-IsReceipted keys x g =
      let c : TurnContext = context_or_unframed g.turn_context in
      let framed = is_framed g.turn_context in
      let g' : Gate = record g { next_ref = suc g.next_ref } in
      elim (Option-cases (scope_denial tool c)) [
        | inr (reason, e) ↦
            rw (e, begin_mutating) (unfold complete in resolve-IsReceipted _ g.next_ref c _ _ g')
        | inl e ↦ elim (Bool-cases (is_standing (effective_tier g tool))) [
          | inl s ↦ rw (e, begin_mutating, s) (standing-IsReceipted g.next_ref c framed x g')
          | inr s ↦
              rw (e, begin_mutating, s)
                (begin_per_instance-IsReceipted keys g.next_ref c framed x g')
        ]
      ]

-- Every decision on a tool that does not bypass the gate, permitted or not, leaves a receipt with
-- the tool's name, its declared tier and the decision's outcome and reference, whatever reaches the
-- gate while it waits and while the prompt is edited.
pub authorize-IsReceipted :
    (tool : Tool) (keys : List Text) (x : Exchange) (g : Gate)
    → bypasses tool.tool_class ≡ false
    → IsReceipted tool (authorize tool keys x g)
unfolding authorize begin_authorize
authorize-IsReceipted tool keys x g b = rw b (begin_mutating-IsReceipted tool keys x g)
