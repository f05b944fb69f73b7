-- ===== src/Gate/Decision.antt =====
-- What the prompt flow of henk/gate/approval.py decides, over every exchange with the owner.
use henk.Base.{
  ℕ, ◌≡◌, refl, ap, ◌∙◌, inl, inr, Bool, true, false, not, ◌&&◌, Option, none, some, List, [], Text,
  if◌then◌else◌, arith, Bool-cases, Option-cases,
}
use henk.Channel.{SendOutcome}
use henk.Tools.{Tool, TurnType, same_turn}
use henk.Gate.State.{ApprovalOutcome, TurnContext, Pending, Detail, Reason, Gate, PromptSent}
use henk.Gate.Authorize.{
  Ask, Exchange, resolve, ask_or_busy, begin_per_instance, Action, act_all, note_ref, outcome_of,
  conclude, await_answer, after_outcome, after_send, finish, complete,
}
use henk.Gate.Permission.{is_harmless, is_event_turn, is_out_of_reach, stands, all_declared}
use henk.Gate.Conforms.{undeclared_key_lem}
use henk.Gate.FirstAnswer.{first_answer, or_else, after_all, act_all-pending, after_all-answer}

abbrev pub or_timeout : Option ApprovalOutcome → ApprovalOutcome
or_timeout none = ApprovalOutcome.timeout
or_timeout (some o) = o

-- What the owner's side of an exchange decides: nothing but a delivered prompt can be answered; a
-- typed answer may come before the send returns, a reaction only on the reference it returned.
abbrev pub sent_decides : Option ApprovalOutcome → SendOutcome → ApprovalOutcome
sent_decides answered SendOutcome.delivered = or_timeout answered
sent_decides answered _ = ApprovalOutcome.cancelled

abbrev pub owner_decides : List Action → List Action → Option PromptSent → ApprovalOutcome
owner_decides before later none = ApprovalOutcome.cancelled
owner_decides before later (some s) =
    sent_decides (or_else (first_answer none before) (first_answer s.ref later)) s.outcome

abbrev pub is_waiting : Option Pending → Bool
is_waiting none = false
is_waiting (some _) = true

-- An approval that waits for its first answer.
abbrev IsFresh : Pending → Type 0
IsFresh p = (p.future ≡ none) × (p.prompt_ref ≡ none)

conclude-outcome :
    (ask : Ask) (o : ApprovalOutcome) (reason : Reason) (detail : Option Detail) (l : List Action)
    (g : Gate)
    → (conclude ask o reason detail l g).1.outcome ≡ o
unfolding conclude resolve
conclude-outcome ask o reason detail l g = refl

await_answer-outcome :
    (ask : Ask) (ref : Option Text) (later edit : List Action) (g : Gate) (p : Pending)
    → g.pending ≡ some p
    → (await_answer ask ref later edit g).1.outcome
      ≡ or_timeout (or_else p.future (first_answer ref later))
unfolding await_answer conclude resolve
await_answer-outcome ask ref later edit g p h =
    let q : Pending = record p { prompt_ref = ref } in
    let noted : (note_ref ref g).pending ≡ some q = ground arith in
    let e = act_all-pending later (note_ref ref g) q noted in
    let (r, f) = after_all-answer later q in
    ap outcome_of e ∙ fold (after_all later q).future ∙ ap or_timeout f
  where
    fold :
        (o : Option ApprovalOutcome)
        → (let x : ApprovalOutcome = elim o [ none ↦ ApprovalOutcome.timeout | some o ↦ o ] in x)
          ≡ or_timeout o
    fold none = refl
    fold (some o) = refl

after_outcome-outcome :
    (ask : Ask) (s : PromptSent) (later edit : List Action) (g : Gate) (p : Pending)
    (o : SendOutcome)
    → g.pending ≡ some p
    → (after_outcome ask s later edit g o).1.outcome
      ≡ sent_decides (or_else p.future (first_answer s.ref later)) o
unfolding after_outcome
after_outcome-outcome ask s later edit g p SendOutcome.delivered h =
    await_answer-outcome ask s.ref later edit g p h
after_outcome-outcome ask s later edit g p _ h = elim (Bool-cases s.too_large) [
  | inl e ↦ rw e (conclude-outcome ask _ _ _ [] g)
  | inr e ↦ rw e (conclude-outcome ask _ _ _ [] g)
]

after_send-outcome :
    (ask : Ask) (later edit : List Action) (g : Gate) (p : Pending) (before : List Action)
    (sent : Option PromptSent)
    → g.pending ≡ some p
    → p.future ≡ first_answer none before
    → (after_send ask later edit g sent).1.outcome ≡ owner_decides before later sent
unfolding after_send
after_send-outcome ask later edit g p before none h f = conclude-outcome ask _ _ _ [] g
after_send-outcome ask later edit g p before (some s) h f =
    after_outcome-outcome ask s later edit g p s.outcome h
    ∙ ap (λ q. sent_decides (or_else q (first_answer s.ref later)) s.outcome) f

finish-outcome :
    (ask : Ask) (x : Exchange) (g : Gate) (p : Pending)
    → g.pending ≡ some p
    → IsFresh p
    → (finish ask x g).1.outcome ≡ owner_decides x.during_send x.during_wait x.sent
unfolding finish
finish-outcome ask x g p h fresh =
    let e = act_all-pending x.during_send g p h in
    let (r, f) = after_all-answer x.during_send p in
    let first : (after_all x.during_send p).future ≡ first_answer none x.during_send =
      f
      ∙ ap (λ q. or_else q (first_answer p.prompt_ref x.during_send)) fresh.0
      ∙ ap (λ q. first_answer q x.during_send) fresh.1 in
    after_send-outcome ask x.during_wait x.during_edit (act_all x.during_send g)
      (after_all x.during_send p) x.during_send x.sent e first

-- What an invocation comes to once it must ask: a cap-suppressed event turn, an undeclared argument
-- and a pending approval each refuse, and otherwise the owner decides.
abbrev pub asking_policy : Tool → List Text → TurnContext → Exchange → Gate → ApprovalOutcome
asking_policy tool keys c x g =
    if is_event_turn c.turn_type && not c.announceable
    then ApprovalOutcome.suppressed
    else if not (all_declared tool.properties keys)
    then ApprovalOutcome.cancelled
    else if is_waiting g.pending
    then ApprovalOutcome.rejected_busy
    else owner_decides x.during_send x.during_wait x.sent

-- A turn that nothing frames is the owner's, and is not tainted.
abbrev pub turn_of : Option TurnContext → TurnContext
turn_of none = record {
  turn_type = TurnType.owner;
  announceable = true;
  tainted = false;
  taint_source = none;
}
turn_of (some c) = c

-- The permission model, in the order of its rules.
unfoldable pub policy : Tool → List Text → Exchange → Gate → ApprovalOutcome
policy tool keys x g =
    if is_harmless tool.tool_class
    then ApprovalOutcome.approved
    else if is_out_of_reach tool (turn_of g.turn_context)
    then ApprovalOutcome.out_of_scope
    else if stands g.demote_standing tool.authorization
    then ApprovalOutcome.authorized
    else asking_policy tool keys (turn_of g.turn_context) x g

is_event_lem : (t : TurnType) → same_turn t TurnType.event ≡ is_event_turn t
is_event_lem TurnType.event = refl
is_event_lem TurnType.owner = refl

pub begin_per_instance-policy :
    (tool : Tool) (keys : List Text) (n : ℕ) (c : TurnContext) (framed : Bool) (x : Exchange)
    (g : Gate)
    → (complete x
        (begin_per_instance tool keys n c framed g).0
        (begin_per_instance tool keys n c framed g).1).1.outcome
      ≡ asking_policy tool keys c x g
unfolding begin_per_instance ask_or_busy resolve complete
begin_per_instance-policy tool keys n c framed x g =
    let ask : Ask = record { tool = tool; reference = n; context = c; framed_at_start = framed } in
    let waiting : Pending = record {
      tool_name = tool.name;
      reference = n;
      future = none;
      prompt_ref = none;
      answered_by = none;
    } in
    rw (is_event_lem c.turn_type, undeclared_key_lem tool keys)
      (elim (Bool-cases (is_event_turn c.turn_type && not c.announceable)) [
        | inl e ↦ rw e
        | inr e ↦ rw e (elim (Bool-cases (not (all_declared tool.properties keys))) [
          | inl u ↦ rw u
          | inr u ↦ rw u (elim (Option-cases g.pending) [
            | inr (p, q) ↦ rw q
            | inl q ↦ rw q (
                finish-outcome ask x (record g { pending = some waiting }) waiting refl
                  (refl, refl))
          ])
        ])
      ])
