-- ===== src/Store/Handoffs/Examples.antt =====
-- The theorems on the handoff archive at concrete handoffs, and tests of it.
use henk.Base.{
  ℕ, true, false, zero, suc, ◌≤◌, ◌≡◌, refl, none, some, [], ◌∷◌, ◌++◌, Text, codes, keep, has,
  arith,
}
use henk.Channel.Split.{utf8_width, byte_length}
use henk.Store.Content.{is_space, strip_left, strip}
use henk.Store.Handoffs.{
  HandoffBounds, RetainedHandoff, Handoffs, format_handoff_result, parse_handoff_message_id,
  truncation_marker, decode_within, bounded_document, digits, insert_handoff, newest_first,
  delete_stale, overflow, prune, retain, eligible, find_by_message_ref,
}
use henk.Store.Handoffs.Document.{IsStored, bounded_document-IsStored}
use henk.Store.Handoffs.References.{parse-format}
use henk.Store.Handoffs.Retained.{Retains, retain-Retains}
use henk.Store.Handoffs.Found.{retain-find_by_message_ref}

abbrev bounds : HandoffBounds
bounds = record { max_count = 2; max_age_seconds = 100; document_max_bytes = 110 }

-- Forty euro signs, of three bytes each
abbrev signs : ℕ → Text
signs zero = []
signs (suc n) = 8364 ∷ signs n

marker_fits :
    byte_length (truncation_marker (byte_length (signs 40)) bounds.document_max_bytes)
    ≤ bounds.document_max_bytes
unfolding byte_length utf8_width truncation_marker digits
marker_fits = omega arith

three_signs_kept : bounded_document bounds (signs 40) ≡ (signs 3 ++ truncation_marker 120 110, true)
unfolding bounded_document byte_length utf8_width truncation_marker digits decode_within
three_signs_kept = refl

bounded_document-IsStored_example : IsStored bounds (signs 40) (bounded_document bounds (signs 40))
bounded_document-IsStored_example = bounded_document-IsStored bounds (signs 40) marker_fits

parse-format_example :
    parse_handoff_message_id (some (format_handoff_result (codes "m1"))) ≡ some (codes "m1")
unfolding strip strip_left is_space
parse-format_example = parse-format (codes "m1")

abbrev kept_at : ℕ → ℕ → RetainedHandoff
kept_at id at = record {
  id = id;
  message_id = none;
  published_at = at;
  document = codes "restart";
  truncated = false;
  identity_keys = codes "disk" ∷ [];
  rule_keys = [];
  nodes = [];
}

-- One is stale, and two are not.
abbrev three_handoffs : Handoffs
three_handoffs = record { rows = kept_at 1 10 ∷ kept_at 2 150 ∷ kept_at 3 140 ∷ []; last_id = 3 }

oldest_pruned :
    prune bounds 200 4 (kept_at 1 10 ∷ kept_at 2 150 ∷ kept_at 3 140 ∷ kept_at 4 200 ∷ [])
    ≡ kept_at 2 150 ∷ kept_at 4 200 ∷ []
unfolding prune delete_stale overflow newest_first insert_handoff keep has
oldest_pruned = refl

newest_eligible : eligible bounds 245 three_handoffs ≡ kept_at 2 150 ∷ []
unfolding eligible newest_first insert_handoff keep
newest_eligible = refl

retain-Retains_example : Retains bounds (codes "restart") 200 three_handoffs (
    retain bounds
      (codes "restart")
      (some (codes "m1"))
      (codes "disk" ∷ [])
      []
      []
      200
      three_handoffs)
retain-Retains_example =
    retain-Retains bounds (codes "restart") (some (codes "m1")) (codes "disk" ∷ []) [] [] 200
      three_handoffs (omega arith, (omega arith, (omega arith, tt)))

m1_parsed : parse_handoff_message_id (some (format_handoff_result (codes "m1"))) ≡ some (codes "m1")
unfolding strip strip_left is_space
m1_parsed = parse-format (codes "m1")

retain-find_by_message_ref_example :
    find_by_message_ref bounds
      (some (format_handoff_result (codes "m1")))
      200
      (retain bounds
        (codes "restart")
        (some (format_handoff_result (codes "m1")))
        (codes "disk" ∷ [])
        []
        []
        200
        three_handoffs).1
    ≡ (retain bounds
        (codes "restart")
        (some (format_handoff_result (codes "m1")))
        (codes "disk" ∷ [])
        []
        []
        200
        three_handoffs).0
retain-find_by_message_ref_example =
    retain-find_by_message_ref bounds (codes "restart") (some (format_handoff_result (codes "m1")))
      (codes "disk") [] [] [] 200 three_handoffs (codes "m1") m1_parsed
      ((omega arith, omega arith), ((omega arith, omega arith), ((omega arith, omega arith), tt)))
