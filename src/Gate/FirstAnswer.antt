-- ===== src/Gate/FirstAnswer.antt =====
-- What a waiting approval of henk/gate/approval.py becomes, as a function of what reaches the gate
-- meanwhile.
use henk.Base.{
  ℕ, suc, ◌≡◌, refl, ap, ◌∙◌, Bool, not, ◌&&◌, Option, none, some, List, [], ◌∷◌, Text, text_eq,
  false, if◌then◌else◌, arith,
}
use henk.Tools.{Tool}
use henk.Gate.State.{ApprovalOutcome, TurnContext, Pending, Reason, Gate, InboundReaction}
use henk.Gate.Reply.{
  classify, classify_reaction, answer, answer_message, answer_reaction, same_ref, reads_reaction,
  deliver, deliver_reaction,
}
use henk.Gate.Permission.{said, shown}
use henk.Gate.Conforms.{said_lem, shown_lem}
use henk.Gate.Authorize.{
  raise_taint, resolve, ask_or_busy, begin_per_instance, authorize_standing, begin_mutating,
  begin_authorize, Action, act, act_all, context_or_unframed, is_framed,
}

-- The reaction is no removal, and the prompt that it is on is the one with the reference `ref`.
abbrev pub concerns : Option Text → InboundReaction → Bool
concerns none r = false
concerns (some t) r = elim r.target_ref [ none ↦ false | some u ↦ text_eq u t && not r.removed ]

-- The answer that an action gives to the prompt with the reference `ref`: any typed message
-- answers, by what it says; a reaction only if it concerns that prompt and shows a thumb.
abbrev pub answer_given : Option Text → Action → Option ApprovalOutcome
answer_given ref (Action.message text) = some (said text)
answer_given ref (Action.reacts r) = if concerns ref r then shown r.emoji else none
answer_given ref _ = none

abbrev pub or_else : Option ApprovalOutcome → Option ApprovalOutcome → Option ApprovalOutcome
or_else none b = b
or_else (some a) b = some a

abbrev pub first_answer : Option Text → List Action → Option ApprovalOutcome
first_answer ref [] = none
first_answer ref (a ∷ l) = or_else (answer_given ref a) (first_answer ref l)

-- The waiting approval after one action.
after : Action → Pending → Pending
after (Action.message text) p = answer_message (classify text) p
after (Action.reacts r) p =
    if reads_reaction r p then answer_reaction (classify_reaction r.emoji) p else p
after _ p = p

pub after_all : List Action → Pending → Pending
after_all [] p = p
after_all (a ∷ l) p = after_all l (after a p)

raise_taint-pending :
    (tool : Tool) (framed : Bool) (g : Gate) → (raise_taint tool framed g).pending ≡ g.pending
unfolding raise_taint
raise_taint-pending tool framed g = ground arith

begin_per_instance-pending :
    (tool : Tool) (keys : List Text) (n : ℕ) (c : TurnContext) (framed : Bool) (g : Gate)
    (p : Pending)
    → g.pending ≡ some p
    → (begin_per_instance tool keys n c framed g).0.pending ≡ some p
unfolding begin_per_instance ask_or_busy resolve
begin_per_instance-pending tool keys n c framed g p h = ground arith

begin_mutating-pending :
    (tool : Tool) (keys : List Text) (g : Gate) (p : Pending)
    → g.pending ≡ some p
    → (begin_mutating tool keys g).0.pending ≡ some p
unfolding begin_mutating resolve authorize_standing
begin_mutating-pending tool keys g p h =
    let c : TurnContext = context_or_unframed g.turn_context in
    let framed = is_framed g.turn_context in
    let g' : Gate = record g { next_ref = suc g.next_ref } in
    ground (
      arith,
      begin_per_instance-pending tool keys g.next_ref c framed g' p h,
      raise_taint-pending tool framed
          (resolve tool ApprovalOutcome.authorized g.next_ref c Reason.none_given none g').0,
    )

-- Another invocation leaves a waiting approval alone.
begin_authorize-pending :
    (tool : Tool) (keys : List Text) (g : Gate) (p : Pending)
    → g.pending ≡ some p
    → (begin_authorize tool keys g).0.pending ≡ some p
unfolding begin_authorize
begin_authorize-pending tool keys g p h = ground (
  arith,
  begin_mutating-pending tool keys g p h,
  raise_taint-pending tool (is_framed g.turn_context) g,
)

act-pending :
    (a : Action) (g : Gate) (p : Pending)
    → g.pending ≡ some p
    → (act a g).pending ≡ some (after a p)
unfolding act after
act-pending (Action.message text) g p h = unfold deliver in ground arith
act-pending (Action.reacts r) g p h = unfold deliver_reaction in ground arith
act-pending (Action.enters c) g p h = h
act-pending Action.exits g p h = h
act-pending (Action.invokes tool keys) g p h = begin_authorize-pending tool keys g p h

pub act_all-pending :
    (l : List Action) (g : Gate) (p : Pending)
    → g.pending ≡ some p
    → (act_all l g).pending ≡ some (after_all l p)
unfolding act_all after_all
act_all-pending [] g p h = h
act_all-pending (a ∷ l) g p h = act_all-pending l (act a g) (after a p) (act-pending a g p h)

concerns_lem :
    (ref : Option Text) (r : InboundReaction)
    → (not r.removed && same_ref r.target_ref ref) ≡ concerns ref r
concerns_lem none r = ground arith
concerns_lem (some t) r = ground arith

after-answer :
    (a : Action) (p : Pending)
    → ((after a p).prompt_ref ≡ p.prompt_ref)
      × ((after a p).future ≡ or_else p.future (answer_given p.prompt_ref a))
unfolding after answer_message answer_reaction answer
after-answer (Action.message text) p = let e = said_lem text in (ground arith, ground arith)
after-answer (Action.reacts r) p =
    let e = shown_lem r.emoji in let c = concerns_lem p.prompt_ref r in (ground arith, ground arith)
after-answer (Action.enters c) p = (refl, ground arith)
after-answer Action.exits p = (refl, ground arith)
after-answer (Action.invokes tool keys) p = (refl, ground arith)

or_else_assoc : (a b c : Option ApprovalOutcome) → or_else (or_else a b) c ≡ or_else a (or_else b c)
or_else_assoc none b c = refl
or_else_assoc (some a) b c = refl

-- The waiting approval keeps its reference, and its outcome is the first answer given to it.
pub after_all-answer :
    (l : List Action) (p : Pending)
    → ((after_all l p).prompt_ref ≡ p.prompt_ref)
      × ((after_all l p).future ≡ or_else p.future (first_answer p.prompt_ref l))
unfolding after_all
after_all-answer [] p = (refl, ground arith)
after_all-answer (a ∷ l) p =
    let (r, f) = after-answer a p in
    let (r', f') = after_all-answer l (after a p) in
    (
      r' ∙ r,
      f'
          ∙ ap (λ q. or_else (after a p).future (first_answer q l)) r
          ∙ ap (λ q. or_else q (first_answer p.prompt_ref l)) f
          ∙ or_else_assoc p.future (answer_given p.prompt_ref a) (first_answer p.prompt_ref l),
    )
