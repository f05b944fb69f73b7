-- ===== src/Gate/Conforms.antt =====
-- The tests of henk/gate/approval.py are those of the permission model.
use henk.Base.{
  ℕ, ◌+◌, ◌≤◌, ◌≡◌, refl, inl, inr, Bool, true, false, not, ◌||◌, Option, none, some, List, [], ◌∷◌,
  map, Text, text_eq, codes, ◌==◌, if◌then◌else◌, keep, has, arith, Bool-cases, All,
}
use henk.Store.Content.{strip}
use henk.Tools.{Tool, ToolClass, TurnType, in_scope}
use henk.Gate.State.{ApprovalOutcome, Classification, TurnContext, Reason, Gate}
use henk.Gate.Reply.{lower, classify, is_modifier, classify_reaction}
use henk.Gate.Authorize.{
  declares, undeclared_key, effective_tier, is_standing, scope_denial, bypasses,
}
use henk.Gate.Permission.{
  is_harmless, is_event_turn, reaches_events, reaches_owner, is_out_of_reach, stands, lists_text,
  all_declared, spells, said, decorations, is_decoration, shows, shown,
}

-- The outcome that a classified message stands for, and that a reaction stands for.
abbrev pub message_outcome : Classification → ApprovalOutcome
message_outcome Classification.approve = ApprovalOutcome.approved
message_outcome Classification.deny = ApprovalOutcome.denied
message_outcome _ = ApprovalOutcome.cancelled

abbrev pub reaction_outcome : Classification → Option ApprovalOutcome
reaction_outcome Classification.approve = some ApprovalOutcome.approved
reaction_outcome Classification.deny = some ApprovalOutcome.denied
reaction_outcome _ = none

abbrev pub is_reason : Option Reason → Bool
is_reason none = false
is_reason (some _) = true

pub bypasses_lem : (t : Option ToolClass) → bypasses t ≡ is_harmless t
bypasses_lem none = refl
bypasses_lem (some ToolClass.read_only) = refl
bypasses_lem (some ToolClass.notify_only) = refl
bypasses_lem (some ToolClass.mutating) = refl

in_scope_events : (l : List TurnType) → in_scope TurnType.event l ≡ reaches_events l
unfolding in_scope reaches_events
in_scope_events [] = refl
in_scope_events (TurnType.event ∷ l) = refl
in_scope_events (TurnType.owner ∷ l) = in_scope_events l

in_scope_owner : (l : List TurnType) → in_scope TurnType.owner l ≡ reaches_owner l
unfolding in_scope reaches_owner
in_scope_owner [] = refl
in_scope_owner (TurnType.owner ∷ l) = refl
in_scope_owner (TurnType.event ∷ l) = in_scope_owner l

in_scope_lem :
    (t : TurnType) (l : List TurnType)
    → in_scope t l ≡ (if is_event_turn t then reaches_events l else reaches_owner l)
in_scope_lem TurnType.event l = in_scope_events l
in_scope_lem TurnType.owner l = in_scope_owner l

pub scope_denial_lem :
    (tool : Tool) (c : TurnContext) → is_reason (scope_denial tool c) ≡ is_out_of_reach tool c
unfolding scope_denial
scope_denial_lem tool c =
    ground (arith, in_scope_events tool.turn_scope, in_scope_lem c.turn_type tool.turn_scope)

pub effective_tier_lem :
    (g : Gate) (tool : Tool)
    → is_standing (effective_tier g tool) ≡ stands g.demote_standing tool.authorization
unfolding effective_tier
effective_tier_lem g tool = ground arith

declares_lem : (key : Text) (l : List Text) → declares key l ≡ lists_text key l
unfolding declares lists_text
declares_lem key [] = refl
declares_lem key (p ∷ l) = let ih = declares_lem key l in ground arith

pub undeclared_key_lem :
    (tool : Tool) (keys : List Text)
    → undeclared_key tool keys ≡ not (all_declared tool.properties keys)
unfolding undeclared_key all_declared
undeclared_key_lem tool [] = refl
undeclared_key_lem tool (key ∷ keys) =
    let ih = undeclared_key_lem tool keys in
    let d = declares_lem key tool.properties in ground arith

-- A text of lower-case letters
abbrev IsLower : Text → Type 0
IsLower = All (λ k. (97 ≤ k) × (k ≤ 122))

letter_lem : (k c : ℕ) → 97 ≤ k → k ≤ 122 → (lower c == k) ≡ (c == k || c + 32 == k)
unfolding lower
letter_lem k c a b = ground arith

spells_lem : (word text : Text) → IsLower word → text_eq (map lower text) word ≡ spells word text
unfolding spells text_eq
spells_lem [] [] h = refl
spells_lem [] (c ∷ l) h = refl
spells_lem (k ∷ word) [] h = refl
spells_lem (k ∷ word) (c ∷ l) h =
    let ih = spells_lem word l h.1 in
    let e = letter_lem k c h.0.0 h.0.1 in rw (e, ih) (ground arith)

pub said_lem : (text : Text) → message_outcome (classify text) ≡ said text
unfolding classify
said_lem text =
    let t = strip text in
    let a = spells_lem (codes "yes") t (omega arith) in
    let b = spells_lem (codes "approve") t (omega arith) in
    let c = spells_lem (codes "no") t (omega arith) in
    let d = spells_lem (codes "deny") t (omega arith) in rw (a, b, c, d) (ground arith)

modifier_lem : (c : ℕ) → has c decorations ≡ is_modifier c
unfolding has
modifier_lem c = ground arith

is_decoration_lem : (l : Text) → is_decoration l ≡ text_eq (keep (λ c. not (is_modifier c)) l) []
unfolding is_decoration keep text_eq
is_decoration_lem [] = refl
is_decoration_lem (c ∷ l) =
    let ih = is_decoration_lem l in
    rw (modifier_lem c, ih)
      (elim (Bool-cases (is_modifier c)) [ inl e ↦ rw e refl | inr e ↦ rw e refl ])

shows_lem :
    (sign : ℕ) (l : Text) → text_eq (keep (λ c. not (is_modifier c)) l) (sign ∷ []) ≡ shows sign l
unfolding shows keep text_eq
shows_lem sign [] = refl
shows_lem sign (c ∷ l) =
    let ih = shows_lem sign l in
    let d = is_decoration_lem l in
    rw (modifier_lem c, d)
      (elim (Bool-cases (is_modifier c)) [ inl e ↦ rw e ih | inr e ↦ rw e (ground arith) ])

pub shown_lem : (emoji : Text) → reaction_outcome (classify_reaction emoji) ≡ shown emoji
unfolding classify_reaction
shown_lem emoji = rw (shows_lem 0x1F44D emoji, shows_lem 0x1F44E emoji) (ground arith)
