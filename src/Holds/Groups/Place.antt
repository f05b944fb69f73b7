-- ===== src/Holds/Groups/Place.antt =====
-- The positions that `group_held` of henk/events/holds.py sorts by.
use henk.Base.{
  ℕ, suc, ◌+◌, ◌≡◌, refl, ap, inl, inr, Bool, false, some, List, [], ◌∷◌, map, Text, text_eq,
  if◌then◌else◌, arith, Bool-cases, has_key, set_key, get_key, get_key-set_key,
}
use henk.Holds.{HeldEvent}
use henk.Holds.Groups.{positions, position}

abbrev pub occurs : Text → List HeldEvent → Bool
occurs id rows = has_key id (map (λ (r : HeldEvent). r.event_id) rows)

-- The last place among the rows that has the event id
unfoldable pub place : Text → List HeldEvent → ℕ
place id [] = 0
place id (r ∷ l) = let later = place id l in if occurs id l then suc later else 0

get_key-positions :
    (id : Text) (i : ℕ) (rows : List HeldEvent) (d : List (Text × ℕ))
    → get_key id (positions i rows d)
      ≡ (if occurs id rows then some (i + place id rows) else get_key id d)
unfolding positions place has_key
get_key-positions id i [] d = refl
get_key-positions id i (r ∷ l) d =
    let ih = get_key-positions id (suc i) l (set_key r.event_id i d) in
    let s = get_key-set_key id r.event_id i d in
    rw (ih, s)
      (elim (Bool-cases (occurs id l)) [
        | inl e ↦ elim (Bool-cases (text_eq id r.event_id)) [
          | inl f ↦ rw (e, f) (ap some (omega arith))
          | inr f ↦ rw (e, f) (ap some (omega arith))
        ]
        | inr e ↦ elim (Bool-cases (text_eq id r.event_id)) [
          | inl f ↦ rw (e, f) (ap some (omega arith))
          | inr f ↦ rw (e, f) refl
        ]
      ])

place_absent : (id : Text) (rows : List HeldEvent) → occurs id rows ≡ false → place id rows ≡ 0
unfolding place has_key
place_absent id [] h = refl
place_absent id (r ∷ l) h = elim (Bool-cases (occurs id l)) [
  | inl e ↦ absurd (ground arith)
  | inr e ↦ rw e refl
]

pub position_lem :
    (rows : List HeldEvent) (r : HeldEvent)
    → position (positions 0 rows []) r ≡ place r.event_id rows
unfolding get_key
position_lem rows r =
    rw (get_key-positions r.event_id 0 rows [], position)
      (elim (Bool-cases (occurs r.event_id rows)) [
        | inl e ↦ rw e (omega arith)
        | inr e ↦ rw (e, place_absent r.event_id rows e) refl
      ])
