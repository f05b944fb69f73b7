-- ===== src/Store/Handoffs/References.antt =====
-- Printing and parsing the references to a handoff of henk/store/handoffs.py.
use henk.Base.{
  ℕ, ◌≡◌, refl, sym, ap, ◌∙◌, false, Option, none, some, [], ◌∷◌, ◌++◌, Text, codes, ==_refl,
}
use mathlib.Core.List.{reverse, reverse-append, reverse-reverse}
use henk.Store.Content.{is_space, strip_left, strip}
use henk.Store.Handoffs.{
  form_prefix, format_handoff_result, without_prefix, without_paren, form_id, non_empty,
  parse_handoff_message_id,
}

without_prefix-append : (p t : Text) → without_prefix p (p ++ t) ≡ some t
unfolding without_prefix
without_prefix-append [] t = refl
without_prefix-append (a ∷ p) t = rw (==_refl a) (without_prefix-append p t)

without_paren-append : (t : Text) → without_paren (t ++ codes ")") ≡ some t
unfolding without_paren
without_paren-append [] = refl
without_paren-append (a ∷ []) = refl
without_paren-append (a ∷ b ∷ t) = rw (without_paren-append (b ∷ t)) refl

strip_left_same : (a : ℕ) (s : Text) → is_space a ≡ false → strip_left (a ∷ s) ≡ a ∷ s
unfolding strip_left
strip_left_same a s h = rw h refl

-- A text that neither starts nor ends with a space is its own strip.
strip_ends :
    (a : ℕ) (t : Text) (b : ℕ)
    → is_space a ≡ false
    → is_space b ≡ false
    → strip (a ∷ (t ++ b ∷ [])) ≡ a ∷ (t ++ b ∷ [])
unfolding strip
strip_ends a t b h k =
    ap (λ s. reverse (strip_left (reverse s))) (strip_left_same a (t ++ b ∷ []) h)
    ∙ ap (λ s. reverse (strip_left s)) (reverse-append (a ∷ t) (b ∷ []))
    ∙ ap reverse (strip_left_same b (reverse (a ∷ t)) k)
    ∙ ap reverse (sym (reverse-append (a ∷ t) (b ∷ [])))
    ∙ reverse-reverse (a ∷ (t ++ b ∷ []))

strip_space : (t : Text) → strip (32 ∷ t) ≡ strip t
unfolding strip strip_left is_space
strip_space t = refl

format_ends : (id : Text) → strip (format_handoff_result id) ≡ format_handoff_result id
unfolding format_handoff_result is_space
format_ends id = strip_ends 104 (codes "andoff published (id: " ++ id) 41 refl refl

form_id-append : (t : Text) → form_id (form_prefix ++ (t ++ codes ")")) ≡ some t
unfolding form_id
form_id-append t =
    ap (λ o. elim o as (λ _. Option Text) [ none ↦ none | some u ↦ without_paren u ])
      (without_prefix-append form_prefix (t ++ codes ")"))
    ∙ without_paren-append t

form_id-format : (id : Text) → form_id (format_handoff_result id) ≡ some (32 ∷ id)
unfolding format_handoff_result
form_id-format id = form_id-append (32 ∷ id)

-- The id of a printed result is read back, less the space around it; none where there is no other.
pub parse-format :
    (id : Text) → parse_handoff_message_id (some (format_handoff_result id)) ≡ non_empty (strip id)
unfolding parse_handoff_message_id
parse-format id = rw (format_ends id, form_id-format id) (ap non_empty (strip_space id))
