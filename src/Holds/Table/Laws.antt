-- ===== src/Holds/Table/Laws.antt =====
-- How the statements of henk/store/holds.py change the count of window rows and of released ones.
use henk.Base.{
  ℕ, ◌+◌, ◌≤◌, ◌≡◌, refl, ap, subst, inl, inr, true, false, not, ◌&&◌, none, some, List, [], ◌∷◌,
  Text, text_eq, text_eq_sound, text_eq_refl, if◌then◌else◌, tally, tally_comm, tally_le, arith,
  Bool-cases,
}
use henk.Holds.{HoldWindow}
use henk.Holds.Table.{is_unreleased, is_window, find_window, update_window, row_count}

-- The rows of a window, and the released ones.
abbrev pub window_rows : Text → List HoldWindow → ℕ
window_rows id l = tally (is_window id) l

abbrev pub released_rows : Text → List HoldWindow → ℕ
released_rows id l = tally (λ w. is_window id w && not (is_unreleased w)) l

pub find_window-none :
    (id : Text) (l : List HoldWindow) → find_window id l ≡ none → window_rows id l ≡ 0
unfolding find_window tally
find_window-none id [] h = refl
find_window-none id (w ∷ l) h = let ih = find_window-none id l in ground (arith, ih)

released_le : (id : Text) (l : List HoldWindow) → released_rows id l ≤ window_rows id l
released_le id l = omega (
  arith,
  tally_comm (λ w. not (is_unreleased w)) (is_window id) l,
  tally_le (is_window id) (λ w. not (is_unreleased w)) l,
)

-- A window found is its one row.
pub find_window-some :
    (id : Text) (l : List HoldWindow) (w : HoldWindow)
    → find_window id l ≡ some w
    → window_rows id l ≤ 1
    → (is_window id w ≡ true) × (released_rows id l ≡ (if is_unreleased w then 0 else 1))
unfolding find_window tally
find_window-some id [] w h u = ground arith
find_window-some id (v ∷ l) w h u = elim (Bool-cases (is_window id v)) [
  | inr e ↦ let ih = find_window-some id l w (ground arith) (ground arith) in ground arith
  | inl e ↦
      let same : v ≡ w = ground arith in
      let r = released_le id l in
      subst
        (λ x.
          (is_window id x ≡ true) × (released_rows id (v ∷ l) ≡ (if is_unreleased x then 0 else 1)))
        same (e, rw e (ground arith))
]

pub window_rows-update_window :
    (f : HoldWindow → HoldWindow) (id j : Text) (l : List HoldWindow)
    → ((w : HoldWindow) → (f w).window_id ≡ w.window_id)
    → window_rows j (update_window f id l) ≡ window_rows j l
unfolding update_window tally
window_rows-update_window f id j [] h = refl
window_rows-update_window f id j (w ∷ l) h =
    let ih = window_rows-update_window f id j l h in
    let e = ap (λ t. text_eq t j) (h w) in ground arith

pub released_rows-extend :
    (end : ℕ) (id j : Text) (l : List HoldWindow)
    → released_rows j (update_window (λ w. record w { end = end }) id l) ≡ released_rows j l
unfolding update_window tally
released_rows-extend end id j [] = refl
released_rows-extend end id j (w ∷ l) = let ih = released_rows-extend end id j l in ground arith

other_window :
    (id j : Text) (w : HoldWindow)
    → is_window id w ≡ true
    → text_eq id j ≡ false
    → is_window j w ≡ false
other_window id j w h e = elim (Bool-cases (is_window j w)) [
  | inr q ↦ q
  | inl q ↦ absurd (
      ground (
        arith,
        text_eq_sound w.window_id id h,
        text_eq_sound w.window_id j q,
        text_eq_refl w.window_id,
      ))
]

pub released_rows-mark :
    (at : ℕ) (id j : Text) (l : List HoldWindow)
    → released_rows j (update_window (λ w. record w { released_at = some at }) id l)
      ≡ released_rows j l + (if text_eq id j then row_count id l else 0)
unfolding update_window tally
released_rows-mark at id j [] = ground arith
released_rows-mark at id j (w ∷ l) =
    let ih = released_rows-mark at id j l in
    elim (Bool-cases (text_eq id j)) [
      | inl e ↦
          let c = ap (λ t. is_window t w) (text_eq_sound id j e) in
          elim (Bool-cases (is_window id w && is_unreleased w)) [
            | inl q ↦ rw q (ground arith)
            | inr q ↦ rw q (ground arith)
          ]
      | inr e ↦ elim (Bool-cases (is_window id w && is_unreleased w)) [
        | inl q ↦
            let other : is_window j w ≡ false = other_window id j w (ground arith) e in
            rw q (ground arith)
        | inr q ↦ rw q (ground arith)
      ]
    ]
