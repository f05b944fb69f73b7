-- ===== src/Holds/Groups.antt =====
-- `group_held` and `rebuild_event` of henk/events/holds.py.
pub mod Finals
mod Latest
mod Place
use henk.Base.{
  ℕ, zero, suc, ◌+◌, ◌-◌, Bool, true, false, not, Option, none, some, List, [], ◌∷◌, map, Text,
  text_eq, ltb, if◌then◌else◌, length, keep, tally, set_key, get_key, values,
}
use henk.Events.{Event, EventState}
use henk.Holds.{HeldEvent}

pub record HeldGroups : Type 0 where
  pub held : ℕ
  pub recovered : ℕ
  pub forwarded : List HeldEvent

abbrev pub is_resolved : EventState → Bool
is_resolved EventState.resolved = true
is_resolved EventState.firing = false
is_resolved EventState.unknown = false

-- The loop `latest[row.identity_key] = row`
unfoldable pub latest : List HeldEvent → List (Text × HeldEvent) → List (Text × HeldEvent)
latest [] d = d
latest (r ∷ l) d = latest l (set_key r.identity_key r d)

-- `{row.event_id: i for i, row in enumerate(rows)}`
unfoldable pub positions : ℕ → List HeldEvent → List (Text × ℕ) → List (Text × ℕ)
positions i [] d = d
positions i (r ∷ l) d = positions (suc i) l (set_key r.event_id i d)

-- `order[r.event_id]`; every row that is sorted has a position.
abbrev pub position : List (Text × ℕ) → HeldEvent → ℕ
position order r = elim (get_key r.event_id order) [ none ↦ 0 | some i ↦ i ]

-- `sorted(…, key=…)`, which is stable
unfoldable pub insert_placed : (HeldEvent → ℕ) → HeldEvent → List HeldEvent → List HeldEvent
insert_placed key r [] = r ∷ []
insert_placed key r (s ∷ l) =
    let rest = insert_placed key r l in if ltb (key s) (key r) then s ∷ rest else r ∷ s ∷ l

unfoldable pub sort_placed : (HeldEvent → ℕ) → List HeldEvent → List HeldEvent
sort_placed key [] = []
sort_placed key (r ∷ l) = insert_placed key r (sort_placed key l)

unfoldable pub group_held : List HeldEvent → HeldGroups
group_held rows =
    let rows' = values (latest rows []) in
    record {
      held = length rows';
      recovered = tally (λ r. is_resolved r.state) rows';
      forwarded =
          sort_placed (position (positions 0 rows []))
            (keep (λ r. not (is_resolved r.state)) rows');
    }

-- `rebuild_event`; the stored payload is taken to be the JSON text of an object, as `hold` wrote it.
unfoldable pub rebuild_event : HeldEvent → Event
rebuild_event row = record {
  id = row.event_id;
  title = row.title;
  message = row.message;
  arrival_time = row.arrival_time;
  raw = row.raw_json;
  published_at = some row.published_at;
}
