-- ===== src/Holds/Examples.antt =====
-- The theorems on held events at concrete rows and calls, and tests of the ledger.
use henk.Base.{
  ℕ, ◌≡◌, ◌≢◌, refl, true, false, some, List, [], ◌∷◌, Text, codes, arith, has_key, text_eq, tally,
  keep, remove_key, get_key, set_key,
}
use henk.Events.{Event, EventState, AlertIdentity}
use henk.Holds.{HeldEvent, MaintenanceWindow}
use henk.Holds.Table.{
  is_known, held_events, by_published, insert_published, hold, hold_in, insert_or_ignore,
  find_window, update_window, mark_released,
}
use henk.Holds.Groups.{group_held, latest, positions, insert_placed, sort_placed}
use henk.Holds.Groups.Finals.{Groups, group_held-Groups}
use henk.Holds.Ledger.{
  HoldLedger, HoldResult, HoldReceipt, hold_event, hold_open, hold_against, record_hold, is_open,
  is_triaged, latest_window, mark_window, record_release, begin_release,
}
use henk.Holds.Ledger.Calls.{LedgerCall, call_all}
use henk.Holds.Ledger.Released.Valid.{IsLedger}
use henk.Holds.Ledger.Released.{call_all-IsLedger}
use henk.Holds.Ledger.Kept.{hold_event-call_all}

abbrev row : Text → Text → EventState → ℕ → HeldEvent
row id key state at = record {
  event_id = id;
  window_id = codes "update";
  identity_key = key;
  state = state;
  title = key;
  message = [];
  raw_json = codes "{}";
  published_at = at;
  arrival_time = at;
  held_at = at;
}

abbrev rows : List HeldEvent
rows =
    row (codes "e1") (codes "disk") EventState.firing 10
    ∷ row (codes "e2") (codes "swap") EventState.firing 11
    ∷ row (codes "e3") (codes "disk") EventState.resolved 12
    ∷ row (codes "e4") (codes "load") EventState.unknown 13
    ∷ []

disk_recovers : group_held rows ≡ record {
  held = 3;
  recovered = 1;
  forwarded =
      row (codes "e2") (codes "swap") EventState.firing 11
      ∷ row (codes "e4") (codes "load") EventState.unknown 13
      ∷ [];
}
unfolding group_held latest positions sort_placed insert_placed set_key get_key text_eq keep tally
disk_recovers = refl

group_held-Groups_example : Groups rows (group_held rows)
group_held-Groups_example = group_held-Groups rows

abbrev by_title : Event → AlertIdentity
by_title e = record {
  key = e.title;
  source = codes "other";
  name = e.title;
  state = EventState.firing;
}

abbrev alert : Text → Text → ℕ → Event
alert id title at = record {
  id = id;
  title = title;
  message = [];
  arrival_time = at;
  raw = codes "{}";
  published_at = some at;
}

abbrev update : MaintenanceWindow
update = record { id = codes "update"; title = codes "update"; start = 5; end = 20 }

abbrev new_ledger : HoldLedger
new_ledger = record { store = record { windows = []; events = [] }; in_flight = []; receipts = [] }

abbrev calls : List LedgerCall
calls =
    LedgerCall.holds false 11 (alert (codes "e1") (codes "disk") 10) 10 (update ∷ [])
    ∷ LedgerCall.begins (codes "update") (codes "disk" ∷ [])
    ∷ LedgerCall.marks false 30 (codes "update")
    ∷ LedgerCall.holds false 31 (alert (codes "e2") (codes "swap") 15) 15 (update ∷ [])
    ∷ []

abbrev with_disk : HoldLedger
with_disk =
    (hold_event by_title false 11 (alert (codes "e1") (codes "disk") 10) 10 (update ∷ [])
      new_ledger).1

late_event_not_held :
    (call_all by_title calls new_ledger).receipts
    ≡ HoldReceipt.held_receipt
        (codes "disk")
        EventState.firing
        (codes "e1")
        (codes "update")
        (some 20)
        10
      ∷ HoldReceipt.released_receipt (codes "update") 1 0 1
      ∷ []
unfolding hold_event hold_open hold_against record_hold is_open is_triaged latest_window mark_window
    record_release begin_release mark_released hold hold_in insert_or_ignore find_window
    update_window held_events by_published insert_published group_held latest positions sort_placed
    insert_placed set_key get_key text_eq keep tally has_key remove_key
late_event_not_held = refl

new_ledger-IsLedger : IsLedger new_ledger
unfolding tally
new_ledger-IsLedger = record { keyed = λ id. omega arith; recorded = λ id. refl; final = tt }

call_all-IsLedger_example : IsLedger (call_all by_title calls new_ledger)
call_all-IsLedger_example = call_all-IsLedger by_title calls new_ledger new_ledger-IsLedger

disk_held :
    (hold_event by_title false 11
      (alert (codes "e1") (codes "disk") 10)
      10
      (update ∷ [])
      new_ledger).0
    ≢ HoldResult.not_held
unfolding hold_event hold_open hold_against record_hold is_open latest_window hold hold_in
    insert_or_ignore find_window text_eq keep has_key
disk_held = λ e. cc

hold_event-call_all_example : is_known (call_all by_title calls with_disk).store (codes "e1") ≡ true
hold_event-call_all_example =
    hold_event-call_all by_title false 11 (alert (codes "e1") (codes "disk") 10) 10 (update ∷ [])
      new_ledger calls disk_held
