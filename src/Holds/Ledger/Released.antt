-- ===== src/Holds/Ledger/Released.antt =====
-- The ledger of henk/events/holds.py over sequences of calls: windows, their releases and records.
pub mod Valid
use henk.Base.{
  ℕ, ◌-◌, ◌≤◌, ◌<◌, ◌≡◌, refl, sym, ap, ◌∙◌, subst, inl, inr, Bool, true, false, not, ◌||◌, ◌&&◌,
  Option, none, some, List, [], ◌∷◌, ◌++◌, Text, text_eq, text_eq_sound, text_eq_refl, ◌==◌, keep,
  tally, tally-append, tally_comm, tally_le, arith, Bool-cases, Option-cases, All, All-map,
  All-append, set_key, remove_key, length,
}
use henk.Events.{Event, AlertIdentity}
use henk.Holds.{HoldWindow, HeldEvent, MaintenanceWindow}
use henk.Holds.Table.{
  HoldTables, HoldStatus, HoldInsert, is_unreleased, is_window, held_in, find_window,
  insert_or_ignore, update_window, row_count, by_published, held_events, extend, mark_released,
  hold, hold_in, has_event,
}
use henk.Holds.Table.Laws.{
  window_rows, released_rows, find_window-none, find_window-some, window_rows-update_window,
  released_rows-extend, released_rows-mark,
}
use henk.Holds.Groups.{HeldGroups, group_held}
use henk.Holds.Ledger.{
  HoldReceipt, HoldLedger, hold_event, hold_open, hold_against, record_hold, held_row,
  begin_release, mark_window, record_release, latest_window, is_open,
}
use henk.Holds.Ledger.Calls.{LedgerCall, call, call_all}
use henk.Holds.Ledger.Released.Valid.{
  releases, IsFinal, IsLedger, Extends, Settles, IsFinal-Settles, Extends-IsLedger,
  insert_or_ignore_lem, keep_other, held_events-windows, held_events-append, hold_in-Extends,
  hold-Extends, extend-Extends,
}

module _ (derive_identity : Event → AlertIdentity) where
  record_hold-IsLedger :
      (row : HeldEvent) (r : HoldInsert) (u : HoldTables) (l : HoldLedger) (st : HoldStatus)
      → IsLedger (record l { store = u })
      → IsLedger (record_hold derive_identity row r u l st).1
  unfolding record_hold tally
  record_hold-IsLedger row r u l HoldStatus.duplicate v = v
  record_hold-IsLedger row r u l HoldStatus.closed v = v
  record_hold-IsLedger row r u l HoldStatus.held v = record {
    keyed = v.keyed;
    recorded = λ id. omega (arith, tally-append (releases id) l.receipts (_ ∷ []), v.recorded id);
    final = All-append (IsFinal u) l.receipts (_ ∷ []) v.final (tt, tt);
  }

  hold_open-IsLedger :
      (e : Event) (published now : ℕ) (l : HoldLedger) (ws : List MaintenanceWindow)
      → IsLedger l
      → IsLedger (hold_open derive_identity e published now l ws).1
  unfolding hold_open hold_against
  hold_open-IsLedger e published now l [] v = v
  hold_open-IsLedger e published now l (w ∷ ws) v =
      let window = latest_window w ws in
      let row = held_row derive_identity e published now window in
      record_hold-IsLedger row (hold window row l.store).0 (hold window row l.store).1 l
        (hold window row l.store).0.status
        (Extends-IsLedger l (hold window row l.store).1
          (hold-Extends window row l.store refl v.keyed) v)

  hold_event-IsLedger :
      (fails : Bool) (now : ℕ) (e : Event) (published : ℕ) (active : List MaintenanceWindow)
      (l : HoldLedger)
      → IsLedger l
      → IsLedger (hold_event derive_identity fails now e published active l).1
  unfolding hold_event
  hold_event-IsLedger fails now e published active l v =
      elim (Bool-cases (length e.id == 0 || fails)) [
        | inl q ↦ rw q v
        | inr q ↦ rw q (hold_open-IsLedger e published now l (keep (is_open l) active) v)
      ]

-- The update of `mark_released`.
abbrev marked : Text → ℕ → HoldTables → HoldTables
marked id now t = record t {
  windows = update_window (λ w. record w { released_at = some now }) id t.windows;
}

marked-Settles : (id : Text) (now : ℕ) (t : HoldTables) → Settles t (marked id now t)
unfolding held_events
marked-Settles id now t j h = (refl, omega (arith, released_rows-mark now id j t.windows, h))

marked-keyed :
    (id : Text) (now : ℕ) (t : HoldTables)
    → ((j : Text) → window_rows j t.windows ≤ 1)
    → (j : Text) → window_rows j (marked id now t).windows ≤ 1
marked-keyed id now t u j =
    rw
      (window_rows-update_window (λ w. record w { released_at = some now }) id j t.windows
        (λ w. refl))
      (u j)

row_count_le : (id : Text) (l : List HoldWindow) → row_count id l ≤ window_rows id l
row_count_le id l =
    omega
      (arith, tally_comm is_unreleased (is_window id) l, tally_le (is_window id) is_unreleased l)

record_release-IsLedger :
    (id : Text) (now : ℕ) (l : HoldLedger)
    → IsLedger l
    → row_count id l.store.windows ≡ 1
    → IsLedger
        (record_release id
          (some (held_events id (marked id now l.store)))
          (record l { store = marked id now l.store })).1
unfolding record_release tally
record_release-IsLedger id now l v one = record {
  keyed = marked-keyed id now l.store v.keyed;
  recorded = λ j.
      let g = group_held (held_events id (marked id now l.store)) in
      let b = released_rows-mark now id j l.store.windows in
      let c = v.recorded j in
      tally-append (releases j) l.receipts
        (HoldReceipt.released_receipt id g.held g.recovered (g.held - g.recovered) ∷ [])
      ∙ ground arith;
  final =
      All-append (IsFinal (marked id now l.store)) l.receipts (_ ∷ [])
        (All-map (IsFinal l.store) (IsFinal (marked id now l.store)) l.receipts
          (λ r f.
            IsFinal-Settles l.store (marked id now l.store) r (marked-Settles id now l.store) f)
          v.final)
        (
          (
            refl,
            refl,
            refl,
            ground (arith, released_rows-mark now id id l.store.windows, text_eq_refl id),
          ),
          tt,
        );
}

in_flight-IsLedger :
    (x : List (Text × List Text)) (l : HoldLedger)
    → IsLedger l
    → IsLedger (record l { in_flight = x })
in_flight-IsLedger x l v = record { keyed = v.keyed; recorded = v.recorded; final = v.final }

-- A mark that hit no row.
missed-Extends :
    (id : Text) (now : ℕ) (t : HoldTables)
    → ((j : Text) → window_rows j t.windows ≤ 1)
    → row_count id t.windows ≡ 0
    → Extends t (marked id now t)
unfolding held_events
missed-Extends id now t u z = (
  marked-keyed id now t u,
  λ j. let b = released_rows-mark now id j t.windows in ground arith,
  λ j h. refl,
)

mark_window-IsLedger :
    (fails : Bool) (now : ℕ) (id : Text) (l : HoldLedger)
    → IsLedger l
    → IsLedger (mark_window fails now id l).1
unfolding mark_window mark_released
mark_window-IsLedger true now id l v = v
mark_window-IsLedger false now id l v =
    let l' : HoldLedger = record l { in_flight = remove_key id l.in_flight } in
    let v' = in_flight-IsLedger (remove_key id l.in_flight) l v in
    elim (Bool-cases (row_count id l.store.windows == 1)) [
      | inl q ↦ rw q (record_release-IsLedger id now l' v' (ground arith))
      | inr q ↦
          let zero : row_count id l.store.windows ≡ 0 =
            ground (arith, row_count_le id l.store.windows, v.keyed id) in
          rw q (
            unfold record_release in
            Extends-IsLedger l' (marked id now l.store) (missed-Extends id now l.store v.keyed zero)
              v')
    ]

module _ (derive_identity : Event → AlertIdentity) where
  call-IsLedger :
      (c : LedgerCall) (l : HoldLedger) → IsLedger l → IsLedger (call derive_identity c l)
  unfolding begin_release
  call-IsLedger (LedgerCall.holds fails now e published active) l v =
      hold_event-IsLedger derive_identity fails now e published active l v
  call-IsLedger (LedgerCall.begins id keys) l v =
      in_flight-IsLedger (set_key id keys l.in_flight) l v
  call-IsLedger (LedgerCall.marks fails now id) l v = mark_window-IsLedger fails now id l v
  call-IsLedger (LedgerCall.extends id end) l v =
      Extends-IsLedger l (extend id end l.store).1 (extend-Extends id end l.store v.keyed) v
  call-IsLedger LedgerCall.restarts l v = in_flight-IsLedger [] l v

  -- Every sequence of holds, releases, marks, extensions and restarts, store failures included,
  -- keeps the ledger valid: a window has one row and at most one release record, it has that record
  -- exactly where it is released, and the record counts what the window holds now: nothing is held
  -- in a window after its release.
  pub call_all-IsLedger :
      (cs : List LedgerCall) (l : HoldLedger)
      → IsLedger l
      → IsLedger (call_all derive_identity cs l)
  call_all-IsLedger [] l v = v
  call_all-IsLedger (c ∷ cs) l v =
      call_all-IsLedger cs (call derive_identity c l) (call-IsLedger c l v)
