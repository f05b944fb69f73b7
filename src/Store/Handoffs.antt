-- ===== src/Store/Handoffs.antt =====
-- `HandoffStore` of henk/store/handoffs.py over its table as a list of rows in id order; the bounds
-- are parameters. Lists of texts are stored as they are, without their JSON form, and failures of
-- SQLite itself are left out.
pub mod Document
pub mod References
pub mod Newest
pub mod Retained
pub mod Found
mod Examples
use henk.Base.{
  ℕ, zero, suc, ◌+◌, ◌-◌, Bool, true, false, not, ◌||◌, ◌&&◌, Option, none, some, List, [], ◌∷◌,
  ◌++◌, map, Text, codes, text_eq, ltb, leb, ◌==◌, if◌then◌else◌, length, take, drop, keep, has,
}
use Prim.Native.Nat.{◌/◌, ◌%◌}
use mathlib.Core.List.{reverse}
use henk.Channel.Split.{utf8_width, byte_length}
use henk.Store.Content.{strip}

-- `HANDOFF_MAX_COUNT`, `HANDOFF_MAX_AGE_SECONDS` and `HANDOFF_DOCUMENT_MAX_BYTES`
pub record HandoffBounds : Type 0 where
  pub max_count : ℕ
  pub max_age_seconds : ℕ
  pub document_max_bytes : ℕ

pub record RetainedHandoff : Type 0 where
  pub id : ℕ
  pub message_id : Option Text
  pub published_at : ℕ
  pub document : Text
  pub truncated : Bool
  pub identity_keys : List Text
  pub rule_keys : List Text
  pub nodes : List Text

-- The `handoffs` table; ids are given in ascending order and never again.
pub record Handoffs : Type 0 where
  pub rows : List RetainedHandoff
  pub last_id : ℕ

-- `_RESULT_PREFIX`, and the constant part of `_RESULT_FORM`
abbrev pub result_prefix : Text
result_prefix = codes "handoff published (id: "

abbrev pub form_prefix : Text
form_prefix = codes "handoff published (id:"

-- `format_handoff_result`
unfoldable pub format_handoff_result : Text → Text
format_handoff_result id = result_prefix ++ (id ++ codes ")")

-- What follows a prefix
unfoldable pub without_prefix : Text → Text → Option Text
without_prefix [] s = some s
without_prefix (_ ∷ _) [] = none
without_prefix (a ∷ p) (c ∷ s) = let rest = without_prefix p s in if a == c then rest else none

-- What comes before a last `)`
unfoldable pub without_paren : Text → Option Text
without_paren [] = none
without_paren (c ∷ []) = if c == 41 then some [] else none
without_paren (c ∷ d ∷ s) = elim (without_paren (d ∷ s)) [ none ↦ none | some t ↦ some (c ∷ t) ]

-- The group of `_RESULT_FORM`, on a text with no space at its ends
unfoldable pub form_id : Text → Option Text
form_id text = elim (without_prefix form_prefix text) [ none ↦ none | some t ↦ without_paren t ]

-- `text or None`
abbrev pub non_empty : Text → Option Text
non_empty [] = none
non_empty (c ∷ s) = some (c ∷ s)

abbrev pub id_in : Text → Option Text → Text
id_in text none = text
id_in text (some id) = strip id

-- `parse_handoff_message_id`
unfoldable pub parse_handoff_message_id : Option Text → Option Text
parse_handoff_message_id none = none
parse_handoff_message_id (some ref) = non_empty (id_in (strip ref) (form_id (strip ref)))

-- A number in decimal; the number itself, and one, is fuel enough.
unfoldable pub digits : ℕ → ℕ → Text
digits zero n = []
digits (suc fuel) n = elim (ltb n 10) [
  | true ↦ (48 + n) ∷ []
  | false ↦ digits fuel (n / 10) ++ (48 + n % 10) ∷ []
]

abbrev pub decimal : ℕ → Text
decimal n = digits (suc n) n

-- `_TRUNCATION_MARKER`, formatted
unfoldable pub truncation_marker : ℕ → ℕ → Text
truncation_marker size bound =
    (10 ∷ codes "[handoff truncated here: the published document was ")
    ++ (decimal size
        ++ (codes " bytes; the archive keeps at most " ++ (decimal bound ++ codes " bytes]")))

-- The text that is left of its first bytes, less a character that is cut.
unfoldable pub decode_within : ℕ → Text → Text
decode_within n [] = []
decode_within n (c ∷ s) =
    let rest = decode_within (n - utf8_width c) s in if leb (utf8_width c) n then c ∷ rest else []

abbrev pub add_row : RetainedHandoff → List RetainedHandoff → List RetainedHandoff
add_row h rows = rows ++ h ∷ []

-- `ORDER BY published_at DESC, id DESC`
abbrev pub is_newer : RetainedHandoff → RetainedHandoff → Bool
is_newer a b =
    ltb b.published_at a.published_at || a.published_at == b.published_at && leb b.id a.id

unfoldable pub insert_handoff : RetainedHandoff → List RetainedHandoff → List RetainedHandoff
insert_handoff h [] = h ∷ []
insert_handoff h (g ∷ l) =
    let rest = insert_handoff h l in if is_newer h g then h ∷ g ∷ l else g ∷ rest

unfoldable pub newest_first : List RetainedHandoff → List RetainedHandoff
newest_first [] = []
newest_first (h ∷ l) = insert_handoff h (newest_first l)

abbrev pub handoff_ids : List RetainedHandoff → List ℕ
handoff_ids = map (λ (h : RetainedHandoff). h.id)

abbrev pub is_row : ℕ → RetainedHandoff → Bool
is_row id h = h.id == id

abbrev pub first_of : List RetainedHandoff → Option RetainedHandoff
first_of [] = none
first_of (h ∷ _) = some h

-- `message_id = ?`; NULL equals nothing.
abbrev pub has_message : Text → RetainedHandoff → Bool
has_message id h = elim h.message_id [ none ↦ false | some i ↦ text_eq i id ]

module _ (bounds : HandoffBounds) where
  -- `_bounded_document`
  unfoldable pub bounded_document : Text → Text × Bool
  bounded_document document =
      let size = byte_length document in
      let marker = truncation_marker size bounds.document_max_bytes in
      if leb size bounds.document_max_bytes
      then (document, false)
      else (decode_within (bounds.document_max_bytes - byte_length marker) document ++ marker, true)

  -- `published_at < now - max_age`
  abbrev pub is_stale : ℕ → RetainedHandoff → Bool
  is_stale now h = ltb (h.published_at + bounds.max_age_seconds) now

  -- The first statement of `_prune_locked`
  unfoldable pub delete_stale : ℕ → ℕ → List RetainedHandoff → List RetainedHandoff
  delete_stale now protect rows = keep (λ h. not (is_stale now h && not (is_row protect h))) rows

  -- The rows that its second statement deletes
  unfoldable pub overflow : ℕ → List RetainedHandoff → List RetainedHandoff
  overflow protect rows =
      drop (bounds.max_count - 1) (newest_first (keep (λ h. not (is_row protect h)) rows))

  -- `_prune_locked`
  unfoldable pub prune : ℕ → ℕ → List RetainedHandoff → List RetainedHandoff
  prune now protect rows =
      let left = delete_stale now protect rows in
      keep (λ h. not (has h.id (handoff_ids (overflow protect left)))) left

  -- `retain`: none where there is no identity.
  unfoldable pub retain :
      Text
      → Option Text
      → List Text
      → List Text
      → List Text
      → ℕ
      → Handoffs
      → Option RetainedHandoff × Handoffs
  retain document message_id [] rules nodes now db = (none, db)
  retain document message_id (k ∷ keys) rules nodes now db =
      let (text, cut) = bounded_document document in
      let h : RetainedHandoff = record {
        id = suc db.last_id;
        message_id = parse_handoff_message_id message_id;
        published_at = now;
        document = text;
        truncated = cut;
        identity_keys = k ∷ keys;
        rule_keys = rules;
        nodes = nodes;
      } in
      (some h, record { rows = prune now h.id (add_row h db.rows); last_id = h.id })

  -- `eligible`
  unfoldable pub eligible : ℕ → Handoffs → List RetainedHandoff
  eligible now db = take bounds.max_count (newest_first (keep (λ h. not (is_stale now h)) db.rows))

  -- `find_by_message_ref`, by the id that the reference has
  unfoldable pub find_message : Option Text → ℕ → Handoffs → Option RetainedHandoff
  find_message none now db = none
  find_message (some id) now db =
      first_of (newest_first (keep (λ h. has_message id h && not (is_stale now h)) db.rows))

  unfoldable pub find_by_message_ref : Option Text → ℕ → Handoffs → Option RetainedHandoff
  find_by_message_ref ref now db = find_message (parse_handoff_message_id ref) now db
