-- ===== src/Holds/Ledger.antt =====
-- `HoldLedger` of henk/events/holds.py. What the audit log is asked to record is a list; whether it
-- could write a record changes nothing but the log. `fails` says whether the store raises.
pub mod Calls
pub mod Released
pub mod Kept
use henk.Base.{
  ℕ, ◌-◌, Bool, true, false, not, ◌||◌, ◌&&◌, Option, none, some, List, [], ◌∷◌, ◌++◌, Text,
  text_eq, text_lt, ltb, ◌==◌, if◌then◌else◌, length, keep, has_key, set_key, remove_key, keys_of,
}
use henk.Events.{Event, EventState, AlertIdentity}
use henk.Holds.{HoldWindow, HeldEvent, MaintenanceWindow}
use henk.Holds.Table.{
  HoldTables, HoldStatus, HoldInsert, is_unreleased, find_window, hold, mark_released,
}
use henk.Holds.Groups.{HeldGroups, group_held}

pub data HoldResult : Type 0 where
  held duplicate not_held : HoldResult

-- `publish_time`
unfoldable pub publish_time : Event → ℕ
publish_time e = elim e.published_at [ some t ↦ t | none ↦ e.arrival_time ]

-- The `hold` and `hold-release` records.
pub data HoldReceipt : Type 0 where
  held_receipt :
      (identity_key : Text) (state : EventState) (event_id window_id : Text) (window_end : Option ℕ)
      (published_at : ℕ)
      → HoldReceipt
  released_receipt : (window_id : Text) (held recovered forwarded : ℕ) → HoldReceipt

pub record HoldLedger : Type 0 where
  pub store : HoldTables
  pub in_flight : List (Text × List Text)
  pub receipts : List HoldReceipt

-- `in_flight_identities`, as a test
unfoldable pub is_triaged : Text → List (Text × List Text) → Bool
is_triaged key [] = false
is_triaged key ((w, keys) ∷ l) = has_key key keys || is_triaged key l

-- Neither released nor in flight
unfoldable pub is_open : HoldLedger → MaintenanceWindow → Bool
is_open ledger w =
    not (has_key w.id (keys_of ledger.in_flight))
    && elim (find_window w.id ledger.store.windows) [ none ↦ true | some row ↦ is_unreleased row ]

-- `>` on `(w.end, w.start, w.id)`
abbrev pub ends_after : MaintenanceWindow → MaintenanceWindow → Bool
ends_after a b =
    ltb b.end a.end
    || a.end == b.end && (ltb b.start a.start || a.start == b.start && text_lt b.id a.id)

-- `max(…, key=…)`, of a list that is not empty
unfoldable pub latest_window : MaintenanceWindow → List MaintenanceWindow → MaintenanceWindow
latest_window w [] = w
latest_window w (v ∷ l) = latest_window (if ends_after v w then v else w) l

module _ (derive_identity : Event → AlertIdentity) where
  abbrev pub held_row : Event → ℕ → ℕ → MaintenanceWindow → HeldEvent
  held_row e published now w = record {
    event_id = e.id;
    window_id = w.id;
    identity_key = (derive_identity e).key;
    state = (derive_identity e).state;
    title = e.title;
    message = e.message;
    raw_json = e.raw;
    published_at = published;
    arrival_time = e.arrival_time;
    held_at = now;
  }

  -- `hold`, by what the store did.
  unfoldable pub record_hold :
      HeldEvent → HoldInsert → HoldTables → HoldLedger → HoldStatus → HoldResult × HoldLedger
  record_hold row r store' ledger HoldStatus.duplicate =
      (HoldResult.duplicate, record ledger { store = store' })
  record_hold row r store' ledger HoldStatus.closed =
      (HoldResult.not_held, record ledger { store = store' })
  record_hold row r store' ledger HoldStatus.held = (
    HoldResult.held,
    record ledger {
      store = store';
      receipts =
          ledger.receipts
          ++ held_receipt row.identity_key row.state row.event_id row.window_id r.window_end
              row.published_at
            ∷ [];
    },
  )

  unfoldable pub hold_against : HeldEvent → MaintenanceWindow → HoldLedger → HoldResult × HoldLedger
  hold_against row w ledger =
      let (r, store') = hold w row ledger.store in record_hold row r store' ledger r.status

  unfoldable pub hold_open :
      Event → ℕ → ℕ → HoldLedger → List MaintenanceWindow → HoldResult × HoldLedger
  hold_open e published now ledger [] = (HoldResult.not_held, ledger)
  hold_open e published now ledger (w ∷ l) =
      let window = latest_window w l in hold_against (held_row e published now window) window ledger

  -- `hold`
  unfoldable pub hold_event :
      Bool → ℕ → Event → ℕ → List MaintenanceWindow → HoldLedger → HoldResult × HoldLedger
  hold_event fails now e published active ledger =
      if length e.id == 0 || fails
      then (HoldResult.not_held, ledger)
      else hold_open e published now ledger (keep (is_open ledger) active)

-- `begin_release`
unfoldable pub begin_release : Text → List Text → HoldLedger → HoldLedger
begin_release id keys ledger = record ledger { in_flight = set_key id keys ledger.in_flight }

-- `mark_released` once the store has answered
unfoldable pub record_release : Text → Option (List HeldEvent) → HoldLedger → Bool × HoldLedger
record_release id none ledger = (false, ledger)
record_release id (some rows) ledger =
    let g = group_held rows in
    (
      true,
      record ledger {
        receipts =
            ledger.receipts ++ released_receipt id g.held g.recovered (g.held - g.recovered) ∷ [];
      },
    )

unfoldable pub mark_window : Bool → ℕ → Text → HoldLedger → Bool × HoldLedger
mark_window fails now id ledger =
    let (rows, store') = mark_released id now ledger.store in
    if fails
    then (false, ledger)
    else record_release id rows
        (record ledger { store = store'; in_flight = remove_key id ledger.in_flight })
