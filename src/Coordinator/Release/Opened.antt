-- ===== src/Coordinator/Release/Opened.antt =====
-- Open and closed windows, and the writes of henk/events/release.py that close one or leave it open.
use henk.Base.{
  ℕ, ◌≡◌, refl, ◌⊎◌, inl, inr, true, false, some, List, [], ◌∷◌, Text, text_eq_refl, ◌==◌, arith,
  Bool-cases, has_key, keys_of, set_key,
}
use henk.Holds.{HoldWindow, MaintenanceWindow}
use henk.Holds.Table.{
  is_unreleased, is_window, find_window, update_window, extend, mark_released, row_count,
}
use henk.Holds.Ledger.{HoldLedger, mark_window, record_release}
use henk.Coordinator.{Coordinator}
use henk.Coordinator.Release.{move_end}

-- The window's row is there and not released, and the window is not in flight.
pub record IsOpen (id : Text) (l : HoldLedger) : Type 0 where
  pub row : HoldWindow
  pub found : find_window id l.store.windows ≡ some row
  pub unreleased : is_unreleased row ≡ true
  pub waiting : has_key id (keys_of l.in_flight) ≡ false

-- It is in flight, or its row is released.
abbrev pub IsClosed : Text → HoldLedger → Type 0
IsClosed id l =
    (has_key id (keys_of l.in_flight) ≡ true)
    ⊎ ((row : HoldWindow) × (find_window id l.store.windows ≡ some row)
        × (is_unreleased row ≡ false))

pub find_window-update_window :
    (f : HoldWindow → HoldWindow) (id : Text) (l : List HoldWindow) (w : HoldWindow)
    → ((v : HoldWindow) → (f v).window_id ≡ v.window_id)
    → find_window id l ≡ some w
    → is_unreleased w ≡ true
    → find_window id (update_window f id l) ≡ some (f w)
unfolding find_window update_window
find_window-update_window f id [] w k h u = cc
find_window-update_window f id (v ∷ l) w k h u = elim (Bool-cases (is_window id v)) [
  | inl e ↦
      let q : v ≡ w = ground arith in let m : is_window id (f v) ≡ true = rw (k v) e in ground arith
  | inr e ↦ let ih = find_window-update_window f id l w k (ground arith) u in ground arith
]

pub has_key-set_key :
    (k : Text) (v : List Text) (l : List (Text × List Text))
    → has_key k (keys_of (set_key k v l)) ≡ true
unfolding has_key set_key
has_key-set_key k v [] = ground (arith, text_eq_refl k)
has_key-set_key k v ((j, a) ∷ l) = ground (arith, has_key-set_key k v l)

pub move_end-IsOpen :
    (w : HoldWindow) (m : MaintenanceWindow) (c : Coordinator)
    → IsOpen w.window_id c.ledger
    → IsOpen w.window_id (move_end w m c).ledger
unfolding move_end extend
move_end-IsOpen w m c v = elim (Bool-cases (m.end == w.end)) [
  | inl e ↦ rw e v
  | inr e ↦ rw e (record {
    row = record v.row { end = m.end };
    found =
        find_window-update_window (λ r. record r { end = m.end }) w.window_id c.ledger.store.windows
          v.row (λ r. refl) v.found v.unreleased;
    unreleased = v.unreleased;
    waiting = v.waiting;
  })
]

pub mark_window-IsClosed :
    (now : ℕ) (id : Text) (l : HoldLedger)
    → IsOpen id l
    → IsClosed id (mark_window false now id l).1
unfolding mark_window mark_released record_release
mark_window-IsClosed now id l v =
    let f =
      find_window-update_window (λ r. record r { released_at = some now }) id l.store.windows v.row
        (λ r. refl) v.found v.unreleased in
    elim (Bool-cases (row_count id l.store.windows == 1)) [
      | inl e ↦ rw e (inr (_, f, refl))
      | inr e ↦ rw e (inr (_, f, refl))
    ]
