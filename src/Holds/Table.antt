-- ===== src/Holds/Table.antt =====
-- `HoldStore` of henk/store/holds.py over its two tables as lists of rows, in rowid order.
pub mod Laws
use henk.Base.{
  ℕ, Bool, true, false, not, ◌||◌, ◌&&◌, Option, none, some, List, [], ◌∷◌, ◌++◌, map, Text,
  text_eq, text_lt, ltb, ◌==◌, if◌then◌else◌, keep, tally, has_key,
}
use henk.Holds.{HoldWindow, HeldEvent, MaintenanceWindow}

pub data HoldStatus : Type 0 where
  held duplicate closed : HoldStatus

pub record HoldInsert : Type 0 where
  pub status : HoldStatus
  pub window_end : Option ℕ

pub record HoldTables : Type 0 where
  pub windows : List HoldWindow
  pub events : List HeldEvent

abbrev pub is_unreleased : HoldWindow → Bool
is_unreleased w = elim w.released_at [ none ↦ true | some _ ↦ false ]

abbrev pub is_window : Text → HoldWindow → Bool
is_window id w = text_eq w.window_id id

abbrev pub held_in : Text → HeldEvent → Bool
held_in id e = text_eq e.window_id id

abbrev pub has_event : Text → List HeldEvent → Bool
has_event id rows = has_key id (map (λ (e : HeldEvent). e.event_id) rows)

-- The row of a window, by its primary key
unfoldable pub find_window : Text → List HoldWindow → Option HoldWindow
find_window id [] = none
find_window id (w ∷ l) = let rest = find_window id l in if is_window id w then some w else rest

-- `ORDER BY published_at, rowid`, over rows in rowid order
unfoldable pub insert_published : HeldEvent → List HeldEvent → List HeldEvent
insert_published e [] = e ∷ []
insert_published e (f ∷ l) =
    let rest = insert_published e l in
    if ltb f.published_at e.published_at then f ∷ rest else e ∷ f ∷ l

unfoldable pub by_published : List HeldEvent → List HeldEvent
by_published [] = []
by_published (e ∷ l) = insert_published e (by_published l)

-- `held_events`
unfoldable pub held_events : Text → HoldTables → List HeldEvent
held_events id t = by_published (keep (held_in id) t.events)

-- `known_event_ids`, as a test
unfoldable pub is_known : HoldTables → Text → Bool
is_known t id = has_event id t.events

-- `ORDER BY "end", window_id`
abbrev pub ends_before : HoldWindow → HoldWindow → Bool
ends_before a b = ltb a.end b.end || a.end == b.end && not (text_lt b.window_id a.window_id)

unfoldable pub insert_window : HoldWindow → List HoldWindow → List HoldWindow
insert_window w [] = w ∷ []
insert_window w (v ∷ l) =
    let rest = insert_window w l in if ends_before w v then w ∷ v ∷ l else v ∷ rest

unfoldable pub by_end : List HoldWindow → List HoldWindow
by_end [] = []
by_end (w ∷ l) = insert_window w (by_end l)

-- `EXISTS (SELECT 1 FROM held_events …)`
unfoldable pub holds_any : Text → List HeldEvent → Bool
holds_any id [] = false
holds_any id (e ∷ l) = held_in id e || holds_any id l

-- `unreleased_windows`
unfoldable pub unreleased_windows : HoldTables → List HoldWindow
unreleased_windows t =
    by_end (keep (λ w. is_unreleased w && holds_any w.window_id t.events) t.windows)

-- `INSERT OR IGNORE INTO hold_windows`
unfoldable pub insert_or_ignore : MaintenanceWindow → List HoldWindow → List HoldWindow
insert_or_ignore w l = elim (find_window w.id l) [
  | some _ ↦ l
  | none ↦
      l
      ++ (record {
        window_id = w.id;
        title = w.title;
        start = w.start;
        end = w.end;
        released_at = none;
      })
        ∷ []
]

-- The end of `hold`, by the window's row once it is inserted. The row is there; `closed` stands for
-- the read of a row that is not.
unfoldable pub hold_in : HeldEvent → HoldTables → Option HoldWindow → HoldInsert × HoldTables
hold_in e t none = (record { status = HoldStatus.closed; window_end = none }, t)
hold_in e t (some w) =
    if is_unreleased w
    then (
      record { status = HoldStatus.held; window_end = some w.end },
      record t { events = t.events ++ e ∷ [] },
    )
    else (record { status = HoldStatus.closed; window_end = none }, t)

-- `hold`: the event's row names the window.
unfoldable pub hold : MaintenanceWindow → HeldEvent → HoldTables → HoldInsert × HoldTables
hold w e t =
    let windows' = insert_or_ignore w t.windows in
    if has_event e.event_id t.events
    then (record { status = HoldStatus.duplicate; window_end = none }, t)
    else hold_in e (record t { windows = windows' }) (find_window w.id windows')

-- `UPDATE hold_windows SET … WHERE window_id = ? AND released_at IS NULL`
unfoldable pub update_window : (HoldWindow → HoldWindow) → Text → List HoldWindow → List HoldWindow
update_window f id [] = []
update_window f id (w ∷ l) =
    (if is_window id w && is_unreleased w then f w else w) ∷ update_window f id l

-- Its `rowcount`
abbrev pub row_count : Text → List HoldWindow → ℕ
row_count id l = tally (λ w. is_window id w && is_unreleased w) l

unfoldable pub extend : Text → ℕ → HoldTables → Bool × HoldTables
extend id end t = (
  row_count id t.windows == 1,
  record t { windows = update_window (λ w. record w { end = end }) id t.windows },
)

-- `mark_released`: where the update did not hit one row it hit none, since ids are a primary key.
unfoldable pub mark_released : Text → ℕ → HoldTables → Option (List HeldEvent) × HoldTables
mark_released id at t =
    let t' = record t {
      windows = update_window (λ w. record w { released_at = some at }) id t.windows;
    } in
    if row_count id t.windows == 1 then (some (held_events id t'), t') else (none, t')
