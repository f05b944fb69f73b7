-- ===== src/Holds/Ledger/Calls.antt =====
-- Sequences of calls of `HoldLedger` of henk/events/holds.py, with the extensions that the release
-- writes to its store. A restart forgets what is in flight.
use henk.Base.{ℕ, Bool, List, [], ◌∷◌, Text}
use henk.Events.{Event, AlertIdentity}
use henk.Holds.{MaintenanceWindow}
use henk.Holds.Table.{extend}
use henk.Holds.Ledger.{HoldLedger, hold_event, begin_release, mark_window}

pub data LedgerCall : Type 0 where
  holds :
      (fails : Bool) (now : ℕ) (e : Event) (published : ℕ) (active : List MaintenanceWindow)
      → LedgerCall
  begins : (id : Text) (keys : List Text) → LedgerCall
  marks : (fails : Bool) (now : ℕ) (id : Text) → LedgerCall
  extends : (id : Text) (end : ℕ) → LedgerCall
  restarts : LedgerCall

module _ (derive_identity : Event → AlertIdentity) where
  abbrev pub call : LedgerCall → HoldLedger → HoldLedger
  call (LedgerCall.holds fails now e published active) l =
      (hold_event derive_identity fails now e published active l).1
  call (LedgerCall.begins id keys) l = begin_release id keys l
  call (LedgerCall.marks fails now id) l = (mark_window fails now id l).1
  call (LedgerCall.extends id end) l = record l { store = (extend id end l.store).1 }
  call LedgerCall.restarts l = record l { in_flight = [] }

  abbrev pub call_all : List LedgerCall → HoldLedger → HoldLedger
  call_all [] l = l
  call_all (c ∷ cs) l = call_all cs (call c l)
