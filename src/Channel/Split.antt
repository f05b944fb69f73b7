-- ===== src/Channel/Split.antt =====
-- `split_message` of henk/channel/base.py, over texts as code points. The loop runs on fuel, and the
-- length of the text is enough.
mod Chunks
mod Examples
use henk.Base.{
  ℕ, zero, suc, ◌+◌, Bool, true, false, Option, none, some, List, [], ◌∷◌, Text, ltb, leb, ◌==◌,
  if◌then◌else◌, length, take, drop,
}

-- `MAX_CODE_POINT_BYTES`
abbrev pub max_code_point_bytes : ℕ
max_code_point_bytes = 4

-- `len(char.encode("utf-8"))`
unfoldable pub utf8_width : ℕ → ℕ
utf8_width c = if ltb c 0x80 then 1 else if ltb c 0x800 then 2 else if ltb c 0x10000 then 3 else 4

-- `_byte_length`
unfoldable pub byte_length : Text → ℕ
byte_length [] = 0
byte_length (c ∷ s) = utf8_width c + byte_length s

-- The loop of `_chars_within`, with the bytes counted so far.
unfoldable pub chars_from : ℕ → ℕ → Text → ℕ
chars_from total limit [] = 0
chars_from total limit (c ∷ s) =
    let rest = chars_from (total + utf8_width c) limit s in
    if ltb limit (total + utf8_width c) then 0 else suc rest

-- `_chars_within`
abbrev pub chars_within : Text → ℕ → ℕ
chars_within text limit = chars_from 0 limit text

-- `str.startswith`
unfoldable pub starts_with : Text → Text → Bool
starts_with [] s = true
starts_with (_ ∷ _) [] = false
starts_with (a ∷ p) (c ∷ s) = let rest = starts_with p s in if a == c then rest else false

-- `str.rfind`, for a pattern that is not empty
unfoldable pub rfind : Text → Text → Option ℕ
rfind p [] = none
rfind p (c ∷ s) = elim (rfind p s) [
  | some i ↦ some (suc i)
  | none ↦ if starts_with p (c ∷ s) then some 0 else none
]

-- Where a window is cut: after its last paragraph break, else its last line break, else its last
-- space, else at its end.
unfoldable pub cut_of : Text → ℕ → ℕ
cut_of window width = elim (rfind (10 ∷ 10 ∷ []) window) [
  | some i ↦ i + 2
  | none ↦ elim (rfind (10 ∷ []) window) [
    | some i ↦ i + 1
    | none ↦ elim (rfind (32 ∷ []) window) [ some i ↦ i + 1 | none ↦ width ]
  ]
]

-- The cut of one round of the loop.
unfoldable pub cut_at : ℕ → Text → ℕ
cut_at limit remaining =
    cut_of (take (chars_within remaining limit) remaining) (chars_within remaining limit)

-- The last chunk, if there is anything left.
unfoldable pub last_chunk : Text → List Text
last_chunk [] = []
last_chunk (c ∷ s) = (c ∷ s) ∷ []

pub data Split : Type 0 where
  chunks : List Text → Split
  limit_too_small out_of_fuel : Split

abbrev pub add_chunk : Text → Split → Split
add_chunk c (Split.chunks l) = Split.chunks (c ∷ l)
add_chunk c r = r

-- `while _byte_length(remaining) > limit`
unfoldable pub split_loop : ℕ → ℕ → Text → Split
split_loop zero limit remaining =
    if ltb limit (byte_length remaining)
    then Split.out_of_fuel
    else Split.chunks (last_chunk remaining)
split_loop (suc fuel) limit remaining =
    let rest = split_loop fuel limit (drop (cut_at limit remaining) remaining) in
    if ltb limit (byte_length remaining)
    then add_chunk (take (cut_at limit remaining) remaining) rest
    else Split.chunks (last_chunk remaining)

unfoldable pub split_message : Text → ℕ → Split
split_message text limit =
    if ltb limit max_code_point_bytes
    then Split.limit_too_small
    else if length text == 0
    then Split.chunks []
    else if leb (byte_length text) limit
    then Split.chunks (text ∷ [])
    else split_loop (length text) limit text
