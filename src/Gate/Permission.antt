-- ===== src/Gate/Permission.antt =====
-- The permission model behind henk/gate/approval.py, written out without the tests of its code: who
-- may act unasked, what a turn may reach, and what counts as the owner's answer.
use henk.Base.{
  ℕ, ◌+◌, Bool, true, false, not, ◌||◌, ◌&&◌, Option, none, some, List, [], ◌∷◌, Text, text_eq,
  codes, ◌==◌, if◌then◌else◌, has,
}
use henk.Store.Content.{strip}
use henk.Tools.{Tool, ToolClass, AuthorizationTier, TurnType}
use henk.Gate.State.{ApprovalOutcome, TurnContext}

-- Reads and notifications
abbrev pub is_harmless : Option ToolClass → Bool
is_harmless none = false
is_harmless (some ToolClass.read_only) = true
is_harmless (some ToolClass.notify_only) = true
is_harmless (some ToolClass.mutating) = false

abbrev pub is_event_turn : TurnType → Bool
is_event_turn TurnType.event = true
is_event_turn TurnType.owner = false

-- What the tool's scope lists
unfoldable pub reaches_events : List TurnType → Bool
reaches_events [] = false
reaches_events (TurnType.event ∷ l) = true
reaches_events (TurnType.owner ∷ l) = reaches_events l

unfoldable pub reaches_owner : List TurnType → Bool
reaches_owner [] = false
reaches_owner (TurnType.owner ∷ l) = true
reaches_owner (TurnType.event ∷ l) = reaches_owner l

-- A tainted turn may use what an event turn may, and any turn what lists its type.
abbrev pub is_out_of_reach : Tool → TurnContext → Bool
is_out_of_reach tool c =
    if is_event_turn c.turn_type || c.tainted
    then not (reaches_events tool.turn_scope)
      || not (is_event_turn c.turn_type || reaches_owner tool.turn_scope)
    else not (reaches_owner tool.turn_scope)

-- A standing tier, unless the kill-switch is on
abbrev pub stands : Bool → Option AuthorizationTier → Bool
stands demoted none = false
stands demoted (some AuthorizationTier.per_instance) = false
stands demoted (some AuthorizationTier.standing) = not demoted

-- Every argument is a declared parameter.
unfoldable pub lists_text : Text → List Text → Bool
lists_text t [] = false
lists_text t (u ∷ l) = let rest = lists_text t l in if text_eq t u then true else rest

unfoldable pub all_declared : List Text → List Text → Bool
all_declared declared [] = true
all_declared declared (key ∷ keys) = lists_text key declared && all_declared declared keys

-- The text is the word in lower-case letters, whatever the case of its own letters.
unfoldable pub spells : Text → Text → Bool
spells [] [] = true
spells [] (_ ∷ _) = false
spells (_ ∷ _) [] = false
spells (k ∷ word) (c ∷ text) = (c == k || c + 32 == k) && spells word text

-- What a typed message says: yes or approve, no or deny, or anything else, which cancels.
abbrev pub said : Text → ApprovalOutcome
said text =
    if spells (codes "yes") (strip text) || spells (codes "approve") (strip text)
    then ApprovalOutcome.approved
    else if spells (codes "no") (strip text) || spells (codes "deny") (strip text)
    then ApprovalOutcome.denied
    else ApprovalOutcome.cancelled

-- The five skin tones, and variation selector 16
abbrev pub decorations : List ℕ
decorations = 0x1F3FB ∷ 0x1F3FC ∷ 0x1F3FD ∷ 0x1F3FE ∷ 0x1F3FF ∷ 0xFE0F ∷ []

unfoldable pub is_decoration : Text → Bool
unfolding has
is_decoration [] = true
is_decoration (c ∷ l) = has c decorations && is_decoration l

-- One sign, with decorations around it
unfoldable pub shows : ℕ → Text → Bool
unfolding is_decoration has
shows sign [] = false
shows sign (c ∷ l) =
    let later = shows sign l in if has c decorations then later else c == sign && is_decoration l

-- What a reaction says: a thumb up or a thumb down.
abbrev pub shown : Text → Option ApprovalOutcome
shown emoji =
    if shows 0x1F44D emoji
    then some ApprovalOutcome.approved
    else if shows 0x1F44E emoji
    then some ApprovalOutcome.denied
    else none
