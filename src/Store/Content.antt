-- ===== src/Store/Content.antt =====
-- henk/store/errors.py: content rejections as values; and `(text or "").strip()`, with the tests
-- that `schedule`, `add` and `append` make of the trimmed content.
-- Failures of the SQLite backend itself (`StoreError`) are not modelled: every statement succeeds.
use henk.Base.{ℕ, Bool, ◌&&◌, ◌||◌, [], ◌∷◌, Text, ltb, leb, ◌==◌, if◌then◌else◌, length}
use mathlib.Core.List.{reverse}

pub data Rejection : Type 0 where
  empty_content : Rejection
  content_too_long : (limit size : ℕ) → Rejection
  cap_reached : (cap : ℕ) → Rejection
  unknown_type : Rejection

pub data Result (A : Type 0) : Type 0 where
  ok : A → Result A
  err : Rejection → Result A

-- `str.isspace` of one code point
unfoldable pub is_space : ℕ → Bool
is_space c =
    leb 9 c && leb c 13
    || leb 28 c && leb c 32
    || c == 133
    || c == 160
    || c == 5760
    || leb 8192 c && leb c 8202
    || c == 8232
    || c == 8233
    || c == 8239
    || c == 8287
    || c == 12288

unfoldable pub strip_left : Text → Text
strip_left [] = []
strip_left (c ∷ s) = let rest = strip_left s in if is_space c then rest else c ∷ s

unfoldable pub strip : Text → Text
unfolding is_space strip_left
strip s = reverse (strip_left (reverse (strip_left s)))

-- The content as stored, or its rejection.
unfoldable pub checked_content : ℕ → Text → Result Text
checked_content limit text =
    let content = strip text in
    if length content == 0
    then err Rejection.empty_content
    else if ltb limit (length content)
    then err (Rejection.content_too_long limit (length content))
    else ok content
