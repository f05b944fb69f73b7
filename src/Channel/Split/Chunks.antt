-- ===== src/Channel/Split/Chunks.antt =====
-- The chunks of `split_message` of henk/channel/base.py: their concatenation and their sizes.
use henk.Base.{
  take-append-drop, length-take, ℕ, zero, suc, ◌+◌, ◌≤◌, ◌<◌, ◌≡◌, refl, ap, inl, inr, true, false,
  some, List, [], ◌∷◌, ◌++◌, Text, ltb, leb, ◌==◌, length, take, drop, subst, append_nil, arith,
  Bool-cases, Option-cases, All,
}
use henk.Channel.Split.{
  utf8_width, byte_length, chars_from, chars_within, starts_with, rfind, cut_of, cut_at, last_chunk,
  Split, add_chunk, split_loop, split_message, max_code_point_bytes,
}

length-drop : (n : ℕ) (s : Text) → n + length (drop n s) ≤ n + length s
length-drop zero s = omega arith
length-drop (suc n) [] = omega arith
length-drop (suc n) (c ∷ s) = omega (arith, length-drop n s)

length-drop_lt : (n : ℕ) (s : Text) → 0 < n → 0 < length s → length (drop n s) < length s
length-drop_lt zero s p q = omega arith
length-drop_lt (suc n) [] p q = omega arith
length-drop_lt (suc n) (c ∷ s) p q = omega (arith, length-drop n s)

utf8_width_pos : (c : ℕ) → 0 < utf8_width c
unfolding utf8_width
utf8_width_pos c = ground arith

utf8_width_le : (c : ℕ) → utf8_width c ≤ 4
unfolding utf8_width
utf8_width_le c = ground arith

byte_length-take_le : (n m : ℕ) (s : Text) → n ≤ m → byte_length (take n s) ≤ byte_length (take m s)
unfolding byte_length
byte_length-take_le zero m s h = omega arith
byte_length-take_le (suc n) zero s h = omega arith
byte_length-take_le (suc n) (suc m) [] h = omega arith
byte_length-take_le (suc n) (suc m) (c ∷ s) h =
    let ih = byte_length-take_le n m s (omega arith) in omega arith

-- The window fits.
chars_from-fits :
    (total limit : ℕ) (s : Text)
    → total ≤ limit
    → total + byte_length (take (chars_from total limit s) s) ≤ limit
unfolding chars_from byte_length
chars_from-fits total limit [] h = omega arith
chars_from-fits total limit (c ∷ s) h = elim (Bool-cases (ltb limit (total + utf8_width c))) [
  | inl e ↦ rw e (omega arith)
  | inr e ↦
      rw e (let ih = chars_from-fits (total + utf8_width c) limit s (ground arith) in omega arith)
]

chars_from_le : (total limit : ℕ) (s : Text) → chars_from total limit s ≤ length s
unfolding chars_from
chars_from_le total limit [] = omega arith
chars_from_le total limit (c ∷ s) =
    let ih = chars_from_le (total + utf8_width c) limit s in ground arith

chars_within_pos : (limit : ℕ) (s : Text) → 4 ≤ limit → 0 < length s → 0 < chars_within s limit
unfolding chars_from
chars_within_pos limit [] h p = omega arith
chars_within_pos limit (c ∷ s) h p = let w = utf8_width_le c in ground arith

starts_with_le : (p s : Text) → starts_with p s ≡ true → length p ≤ length s
unfolding starts_with
starts_with_le [] s h = omega arith
starts_with_le (_ ∷ _) [] h = ground arith
starts_with_le (a ∷ p) (c ∷ s) h = ground (arith, starts_with_le p s)

rfind_le : (p s : Text) (i : ℕ) → rfind p s ≡ some i → i + length p ≤ length s
unfolding rfind
rfind_le p [] i h = ground arith
rfind_le p (c ∷ s) i h = elim (Option-cases (rfind p s)) [
  | inr (j, e) ↦ ground (arith, rfind_le p s j e)
  | inl e ↦ elim (Bool-cases (starts_with p (c ∷ s))) [
    | inl b ↦ ground (arith, starts_with_le p (c ∷ s) b)
    | inr b ↦ ground arith
  ]
]

cut_of_le : (w : Text) (width : ℕ) → length w ≤ width → cut_of w width ≤ width
unfolding cut_of
cut_of_le w width h = elim (Option-cases (rfind (10 ∷ 10 ∷ []) w)) [
  | inr (i, e) ↦ rw (cut_of, e) (let l = rfind_le (10 ∷ 10 ∷ []) w i e in omega arith)
  | inl e ↦
      rw (cut_of, e)
        (elim (Option-cases (rfind (10 ∷ []) w)) [
          | inr (i, f) ↦ rw f (let l = rfind_le (10 ∷ []) w i f in omega arith)
          | inl f ↦ rw f (elim (Option-cases (rfind (32 ∷ []) w)) [
            | inr (i, k) ↦ rw k (let l = rfind_le (32 ∷ []) w i k in omega arith)
            | inl k ↦ rw k (omega arith)
          ])
        ])
]

cut_of_pos : (w : Text) (width : ℕ) → 0 < width → 0 < cut_of w width
unfolding cut_of
cut_of_pos w width h = ground arith

-- A round takes at least one code point, and no more bytes than the limit.
cut_at_pos : (limit : ℕ) (s : Text) → 4 ≤ limit → 0 < length s → 0 < cut_at limit s
unfolding cut_at
cut_at_pos limit s h p =
    cut_of_pos (take (chars_within s limit) s) (chars_within s limit) (chars_within_pos limit s h p)

cut_at-fits : (limit : ℕ) (s : Text) → byte_length (take (cut_at limit s) s) ≤ limit
unfolding cut_at
cut_at-fits limit s =
    let n = chars_within s limit in
    let l : length (take n s) ≤ n = omega (arith, length-take n s (chars_from_le 0 limit s)) in
    let a = byte_length-take_le (cut_of (take n s) n) n s (cut_of_le (take n s) n l) in
    let b = chars_from-fits 0 limit s (omega arith) in omega arith

-- A chunk that is sent: it is not empty, and it fits one message.
abbrev pub IsChunk : ℕ → Text → Type 0
IsChunk limit c = (0 < length c) × (byte_length c ≤ limit)

abbrev pub join : List Text → Text
join [] = []
join (c ∷ l) = c ++ join l

abbrev pub Splits : ℕ → Text → Split → Type 0
Splits limit text (Split.chunks l) = (join l ≡ text) × All (IsChunk limit) l
Splits limit text Split.limit_too_small = ⊥
Splits limit text Split.out_of_fuel = ⊥

length-take_pos : (n : ℕ) (s : Text) → 0 < n → 0 < length s → 0 < length (take n s)
length-take_pos zero s p q = omega arith
length-take_pos (suc n) [] p q = omega arith
length-take_pos (suc n) (c ∷ s) p q = omega arith

add_chunk-Splits :
    (limit : ℕ) (c s : Text) (r : Split)
    → IsChunk limit c
    → Splits limit s r
    → Splits limit (c ++ s) (add_chunk c r)
add_chunk-Splits limit c s (Split.chunks l) h k = (ap (λ t. c ++ t) k.0, (h, k.1))
add_chunk-Splits limit c s Split.limit_too_small h k = k
add_chunk-Splits limit c s Split.out_of_fuel h k = k

last_chunk-Splits :
    (limit : ℕ) (s : Text) → byte_length s ≤ limit → Splits limit s (Split.chunks (last_chunk s))
unfolding last_chunk
last_chunk-Splits limit [] h = (refl, tt)
last_chunk-Splits limit (c ∷ s) h = (append_nil (c ∷ s), ((omega arith, h), tt))

byte_length_empty : (s : Text) → length s ≤ 0 → byte_length s ≡ 0
unfolding byte_length
byte_length_empty [] h = refl
byte_length_empty (c ∷ s) h = omega arith

byte_length_pos : (s : Text) → 0 < byte_length s → 0 < length s
unfolding byte_length
byte_length_pos [] h = omega arith
byte_length_pos (c ∷ s) h = omega arith

split_loop-Splits :
    (fuel limit : ℕ) (s : Text)
    → 4 ≤ limit
    → length s ≤ fuel
    → Splits limit s (split_loop fuel limit s)
unfolding split_loop
split_loop-Splits zero limit s h q = elim (Bool-cases (ltb limit (byte_length s))) [
  | inl e ↦ let z = byte_length_empty s q in ground arith
  | inr e ↦ rw e (last_chunk-Splits limit s (ground arith))
]
split_loop-Splits (suc fuel) limit s h q = elim (Bool-cases (ltb limit (byte_length s))) [
  | inr e ↦ rw e (last_chunk-Splits limit s (ground arith))
  | inl e ↦
      let p = byte_length_pos s (ground arith) in
      let k = cut_at_pos limit s h p in
      let d = length-drop_lt (cut_at limit s) s k p in
      rw e (
        subst
          (λ t.
            Splits limit t (
              add_chunk (take (cut_at limit s) s)
                (split_loop fuel limit (drop (cut_at limit s) s))))
          (take-append-drop (cut_at limit s) s)
          (add_chunk-Splits limit (take (cut_at limit s) s) (drop (cut_at limit s) s)
            (split_loop fuel limit (drop (cut_at limit s) s))
            (length-take_pos (cut_at limit s) s k p, cut_at-fits limit s)
            (split_loop-Splits fuel limit (drop (cut_at limit s) s) h (omega arith))))
]

not_empty : (c : ℕ) (s : Text) → (length (c ∷ s) == 0) ≡ false
not_empty c s = ground arith

-- For every limit of at least four bytes and every text, `split_message` ends with chunks whose
-- concatenation is the text, none of them empty and each at most `limit` bytes of UTF-8.
pub split_message-Splits :
    (text : Text) (limit : ℕ)
    → max_code_point_bytes ≤ limit
    → Splits limit text (split_message text limit)
unfolding split_message
split_message-Splits [] limit h = elim (Bool-cases (ltb limit 4)) [
  | inl e ↦ ground arith
  | inr e ↦ rw e (refl, tt)
]
split_message-Splits (c ∷ s) limit h = elim (Bool-cases (ltb limit 4)) [
  | inl e ↦ ground arith
  | inr e ↦ elim (Bool-cases (leb (byte_length (c ∷ s)) limit)) [
    | inl b ↦ rw (e, not_empty c s, b) (append_nil (c ∷ s), ((omega arith, ground arith), tt))
    | inr b ↦
        rw (e, not_empty c s, b) (split_loop-Splits (length (c ∷ s)) limit (c ∷ s) h (omega arith))
  ]
]
