-- ===== src/Channel/Split/Examples.antt =====
-- `split_message` of henk/channel/base.py on a concrete text.
use henk.Base.{◌≡◌, refl, arith, Text, codes, [], ◌∷◌}
use henk.Channel.Split.{
  Split, split_message, split_loop, cut_at, cut_of, rfind, starts_with, chars_from, byte_length,
  utf8_width, last_chunk,
}
use henk.Channel.Split.Chunks.{Splits, split_message-Splits}

abbrev status : Text
status = codes "all up\n\ndisk 90% full"

splits_at_boundaries :
    split_message status 10
    ≡ Split.chunks (codes "all up\n\n" ∷ codes "disk 90% " ∷ codes "full" ∷ [])
unfolding split_message split_loop cut_at cut_of rfind starts_with chars_from byte_length utf8_width
    last_chunk
splits_at_boundaries = refl

split_message-Splits_example : Splits 10 status (split_message status 10)
split_message-Splits_example = split_message-Splits status 10 (omega arith)
