-- ===== src/Gate/Reply.antt =====
-- Routing the owner's replies in henk/gate/approval.py: `classify`, `classify_reaction`, `deliver`,
-- `deliver_reaction` and `_answer`.
use henk.Base.{
  ℕ, ◌+◌, Bool, true, false, not, ◌||◌, ◌&&◌, Option, none, some, [], ◌∷◌, map, Text, text_eq,
  codes, leb, ◌==◌, if◌then◌else◌, keep,
}
use henk.Store.Content.{strip}
use henk.Gate.State.{ApprovalOutcome, Classification, Answer, Pending, Gate, InboundReaction}

-- `str.lower` on the letters of ASCII. No other letter lowers to a letter of the keywords.
unfoldable pub lower : ℕ → ℕ
lower c = if leb b'A' c && leb c b'Z' then c + 32 else c

unfoldable pub classify : Text → Classification
unfolding lower
classify text =
    let token = map lower (strip text) in
    if text_eq token (codes "yes") || text_eq token (codes "approve")
    then Classification.approve
    else if text_eq token (codes "no") || text_eq token (codes "deny")
    then Classification.deny
    else Classification.unrelated

-- `_REACTION_MODIFIERS`: the skin tones and variation selector 16
abbrev pub is_modifier : ℕ → Bool
is_modifier c = leb 0x1F3FB c && leb c 0x1F3FF || c == 0xFE0F

unfoldable pub classify_reaction : Text → Classification
unfolding keep
classify_reaction emoji =
    let bare = keep (λ c. not (is_modifier c)) emoji in
    if text_eq bare (0x1F44D ∷ [])
    then Classification.approve
    else if text_eq bare (0x1F44E ∷ [])
    then Classification.deny
    else Classification.ignored

-- `_answer`: the first answer sets the future and how it was answered.
unfoldable pub answer : ApprovalOutcome → Option Answer → Pending → Pending
answer outcome by p = elim p.future [
  | some _ ↦ p
  | none ↦ record p { future = some outcome; answered_by = by }
]

-- The answer that a classified message gives.
unfoldable pub answer_message : Classification → Pending → Pending
unfolding answer
answer_message Classification.approve = answer ApprovalOutcome.approved (some Answer.keyword)
answer_message Classification.deny = answer ApprovalOutcome.denied (some Answer.keyword)
answer_message _ = answer ApprovalOutcome.cancelled none

-- `requeue`
abbrev pub requeues : Classification → Bool
requeues Classification.approve = false
requeues Classification.deny = false
requeues _ = true

unfoldable pub deliver : Text → Gate → (Classification × Bool) × Gate
unfolding answer_message
deliver text g = elim g.pending [
  | none ↦ ((Classification.unrelated, true), g)
  | some p ↦ (
    (classify text, requeues (classify text)),
    record g { pending = some (answer_message (classify text) p) },
  )
]

unfoldable pub answer_reaction : Classification → Pending → Pending
unfolding answer
answer_reaction Classification.approve = answer ApprovalOutcome.approved (some Answer.reaction)
answer_reaction Classification.deny = answer ApprovalOutcome.denied (some Answer.reaction)
answer_reaction _ = λ p. p

abbrev pub same_ref : Option Text → Option Text → Bool
same_ref (some a) (some b) = text_eq a b
same_ref _ _ = false

abbrev pub is_done : Option ApprovalOutcome → Bool
is_done none = false
is_done (some _) = true

-- Whether the reaction is read at all: the prompt has a reference, the reaction is no removal, it
-- is on that very prompt, and nothing has answered it yet.
abbrev pub reads_reaction : InboundReaction → Pending → Bool
reads_reaction r p = not r.removed && same_ref r.target_ref p.prompt_ref && not (is_done p.future)

unfoldable pub deliver_reaction : InboundReaction → Gate → Classification × Gate
unfolding answer_reaction
deliver_reaction r g = elim g.pending [
  | none ↦ (Classification.ignored, g)
  | some p ↦
      if reads_reaction r p
      then (
        classify_reaction r.emoji,
        record g { pending = some (answer_reaction (classify_reaction r.emoji) p) },
      )
      else (Classification.ignored, g)
]
