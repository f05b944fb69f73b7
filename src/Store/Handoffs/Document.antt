-- ===== src/Store/Handoffs/Document.antt =====
-- The stored document of henk/store/handoffs.py, its bound and its marker.
use henk.Base.{
  ℕ, ◌+◌, ◌-◌, ◌≤◌, ◌<◌, ◌≡◌, refl, ap, inl, inr, Bool, true, false, [], ◌∷◌, ◌++◌, Text, leb,
  arith, Bool-cases,
}
use henk.Channel.Split.{utf8_width, byte_length}
use henk.Store.Handoffs.{HandoffBounds, truncation_marker, decode_within, bounded_document}

byte_length-append : (s t : Text) → byte_length (s ++ t) ≡ byte_length s + byte_length t
unfolding byte_length
byte_length-append [] t = omega arith
byte_length-append (c ∷ s) t = omega (arith, byte_length-append s t)

-- The longest prefix within a number of bytes: what is cut is empty or starts with a character that
-- does not fit.
abbrev pub IsLongest : ℕ → Text → Text → Type 0
IsLongest n kept [] = byte_length kept ≤ n
IsLongest n kept (c ∷ cut) = (byte_length kept ≤ n) × (n < byte_length kept + utf8_width c)

longest_le : (n : ℕ) (kept cut : Text) → IsLongest n kept cut → byte_length kept ≤ n
longest_le n kept [] k = k
longest_le n kept (c ∷ cut) k = k.0

IsLongest-cons :
    (n : ℕ) (c : ℕ) (kept cut : Text)
    → utf8_width c ≤ n
    → IsLongest (n - utf8_width c) kept cut
    → IsLongest n (c ∷ kept) cut
unfolding byte_length
IsLongest-cons n c kept [] h k = omega arith
IsLongest-cons n c kept (d ∷ cut) h k = (omega (arith, k.0), omega (arith, k.1))

decode_within_lem :
    (n : ℕ) (s : Text)
    → (cut : Text) × (s ≡ decode_within n s ++ cut) × IsLongest n (decode_within n s) cut
unfolding decode_within byte_length
decode_within_lem n [] = ([], refl, omega arith)
decode_within_lem n (c ∷ s) = elim (Bool-cases (leb (utf8_width c) n)) [
  | inl e ↦
      let (cut, h, k) = decode_within_lem (n - utf8_width c) s in
      (cut, rw e (ap (λ t. c ∷ t) h), rw e (IsLongest-cons n c _ cut (ground arith) k))
  | inr e ↦ (c ∷ s, rw e refl, rw e (omega arith, ground arith))
]

-- Of a document and what is stored of it.
abbrev pub IsStored : HandoffBounds → Text → Text × Bool → Type 0
IsStored bounds document (text, false) =
    (text ≡ document) × (byte_length text ≤ bounds.document_max_bytes)
IsStored bounds document (text, true) =
    (bounds.document_max_bytes < byte_length document)
    × (byte_length text ≤ bounds.document_max_bytes)
    × ((kept : Text) × (cut : Text) × (document ≡ kept ++ cut)
        × (text ≡ kept ++ truncation_marker (byte_length document) bounds.document_max_bytes)
        × IsLongest
            (bounds.document_max_bytes
              - byte_length (truncation_marker (byte_length document) bounds.document_max_bytes))
            kept cut)

-- Where the marker fits the bound, a document is stored whole and unflagged if it is within the
-- bound; if it is not, it is stored flagged, within the bound, as the longest prefix that leaves room
-- for the marker, and the marker.
pub bounded_document-IsStored :
    (bounds : HandoffBounds) (document : Text)
    → byte_length (truncation_marker (byte_length document) bounds.document_max_bytes)
      ≤ bounds.document_max_bytes
    → IsStored bounds document (bounded_document bounds document)
unfolding bounded_document
bounded_document-IsStored bounds document h =
    let max = bounds.document_max_bytes in
    let marker = truncation_marker (byte_length document) max in
    elim (Bool-cases (leb (byte_length document) max)) [
      | inl e ↦ rw e (refl, ground arith)
      | inr e ↦
          let (cut, p, k) = decode_within_lem (max - byte_length marker) document in
          let kept = decode_within (max - byte_length marker) document in
          let within : byte_length kept ≤ max - byte_length marker = longest_le _ kept cut k in
          rw e (
            ground arith,
            omega (arith, byte_length-append kept marker, within, h),
            (kept, cut, p, refl, k),
          )
    ]
