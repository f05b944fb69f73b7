-- ===== src/Holds/Ledger/Kept.antt =====
-- What `hold` of henk/events/holds.py leaves in the store, and what later calls leave of it.
use henk.Base.{
  ℕ, ◌≡◌, ◌≢◌, refl, inl, inr, Bool, true, false, ◌||◌, Option, none, some, List, [], ◌∷◌, ◌++◌,
  Text, text_eq_refl, ◌==◌, keep, arith, Bool-cases, has_key, length,
}
use henk.Events.{Event, AlertIdentity}
use henk.Holds.{HoldWindow, HeldEvent, MaintenanceWindow}
use henk.Holds.Table.{
  HoldTables, HoldStatus, HoldInsert, is_unreleased, is_known, has_event, hold, hold_in,
  insert_or_ignore, find_window, extend, mark_released, row_count,
}
use henk.Holds.Ledger.{
  HoldLedger, HoldResult, hold_event, hold_open, hold_against, record_hold, held_row, latest_window,
  is_open, begin_release, mark_window, record_release,
}
use henk.Holds.Ledger.Calls.{LedgerCall, call, call_all}

has_event-append :
    (id : Text) (l m : List HeldEvent) → has_event id l ≡ true → has_event id (l ++ m) ≡ true
unfolding has_key
has_event-append id [] m h = ground arith
has_event-append id (e ∷ l) m h = ground (arith, has_event-append id l m)

has_event-last : (e : HeldEvent) (l : List HeldEvent) → has_event e.event_id (l ++ e ∷ []) ≡ true
unfolding has_key
has_event-last e [] = rw (text_eq_refl e.event_id) refl
has_event-last e (f ∷ l) = let ih = has_event-last e l in ground arith

-- What a table knows, another knows.
abbrev pub Knows : HoldTables → HoldTables → Type 0
Knows t u = (id : Text) → is_known t id ≡ true → is_known u id ≡ true

hold_in-Knows : (e : HeldEvent) (t : HoldTables) (o : Option HoldWindow) → Knows t (hold_in e t o).1
unfolding hold_in is_known
hold_in-Knows e t none id h = h
hold_in-Knows e t (some w) id h = elim (Bool-cases (is_unreleased w)) [
  | inl q ↦ rw q (has_event-append id t.events (e ∷ []) h)
  | inr q ↦ rw q h
]

hold-Knows : (w : MaintenanceWindow) (e : HeldEvent) (t : HoldTables) → Knows t (hold w e t).1
unfolding hold
hold-Knows w e t id h =
    let t' : HoldTables = record t { windows = insert_or_ignore w t.windows } in
    elim (Bool-cases (has_event e.event_id t.events)) [
      | inl q ↦ rw q h
      | inr q ↦ rw q (hold_in-Knows e t' (find_window w.id t'.windows) id (unfold is_known in h))
    ]

-- A hold that is not refused leaves the event known.
abbrev Took : HoldStatus → Type 0
Took HoldStatus.closed = ⊥
Took HoldStatus.held = Unit
Took HoldStatus.duplicate = Unit

hold_in-Took :
    (e : HeldEvent) (t : HoldTables) (o : Option HoldWindow)
    → Took (hold_in e t o).0.status
    → is_known (hold_in e t o).1 e.event_id ≡ true
unfolding hold_in is_known
hold_in-Took e t none h = absurd h
hold_in-Took e t (some w) h = elim (Bool-cases (is_unreleased w)) [
  | inl q ↦ rw q (has_event-last e t.events)
  | inr q ↦ absurd (rw q at h)
]

hold-Took :
    (w : MaintenanceWindow) (e : HeldEvent) (t : HoldTables)
    → Took (hold w e t).0.status
    → is_known (hold w e t).1 e.event_id ≡ true
unfolding hold
hold-Took w e t h =
    let t' : HoldTables = record t { windows = insert_or_ignore w t.windows } in
    elim (Bool-cases (has_event e.event_id t.events)) [
      | inl q ↦ rw q (unfold is_known in q)
      | inr q ↦ rw q (hold_in-Took e t' (find_window w.id t'.windows) (rw q at h))
    ]

module _ (derive_identity : Event → AlertIdentity) where
  record_hold-store :
      (row : HeldEvent) (r : HoldInsert) (u : HoldTables) (l : HoldLedger) (s : HoldStatus)
      → (record_hold derive_identity row r u l s).1.store ≡ u
  unfolding record_hold
  record_hold-store row r u l HoldStatus.held = refl
  record_hold-store row r u l HoldStatus.duplicate = refl
  record_hold-store row r u l HoldStatus.closed = refl

  record_hold-Took :
      (row : HeldEvent) (r : HoldInsert) (u : HoldTables) (l : HoldLedger) (s : HoldStatus)
      → (record_hold derive_identity row r u l s).0 ≢ HoldResult.not_held
      → Took s
  unfolding record_hold
  record_hold-Took row r u l HoldStatus.held h = tt
  record_hold-Took row r u l HoldStatus.duplicate h = tt
  record_hold-Took row r u l HoldStatus.closed h = absurd (h refl)

  hold_open-Knows :
      (e : Event) (published now : ℕ) (l : HoldLedger) (ws : List MaintenanceWindow)
      → Knows l.store (hold_open derive_identity e published now l ws).1.store
  unfolding hold_open hold_against
  hold_open-Knows e published now l [] id h = h
  hold_open-Knows e published now l (w ∷ ws) id h =
      let window = latest_window w ws in
      let row = held_row derive_identity e published now window in
      let (r, u) = hold window row l.store in
      rw (record_hold-store row r u l r.status) (hold-Knows window row l.store id h)

  hold_open-Took :
      (e : Event) (published now : ℕ) (l : HoldLedger) (ws : List MaintenanceWindow)
      → (hold_open derive_identity e published now l ws).0 ≢ HoldResult.not_held
      → is_known (hold_open derive_identity e published now l ws).1.store e.id ≡ true
  unfolding hold_open hold_against
  hold_open-Took e published now l [] h = absurd (h refl)
  hold_open-Took e published now l (w ∷ ws) h =
      let window = latest_window w ws in
      let row = held_row derive_identity e published now window in
      let (r, u) = hold window row l.store in
      rw (record_hold-store row r u l r.status)
        (hold-Took window row l.store (record_hold-Took row r u l r.status h))

  pub hold_event-Knows :
      (fails : Bool) (now : ℕ) (e : Event) (published : ℕ) (active : List MaintenanceWindow)
      (l : HoldLedger)
      → Knows l.store (hold_event derive_identity fails now e published active l).1.store
  unfolding hold_event
  hold_event-Knows fails now e published active l id h =
      elim (Bool-cases (length e.id == 0 || fails)) [
        | inl q ↦ rw q h
        | inr q ↦ rw q (hold_open-Knows e published now l (keep (is_open l) active) id h)
      ]

  pub hold_event-Took :
      (fails : Bool) (now : ℕ) (e : Event) (published : ℕ) (active : List MaintenanceWindow)
      (l : HoldLedger)
      → (hold_event derive_identity fails now e published active l).0 ≢ HoldResult.not_held
      → is_known (hold_event derive_identity fails now e published active l).1.store e.id ≡ true
  unfolding hold_event
  hold_event-Took fails now e published active l h = elim (Bool-cases (length e.id == 0 || fails)) [
    | inl q ↦ absurd ((rw q at h) refl)
    | inr q ↦ rw q (hold_open-Took e published now l (keep (is_open l) active) (rw q at h))
  ]

record_release-store :
    (id : Text) (o : Option (List HeldEvent)) (l : HoldLedger)
    → (record_release id o l).1.store ≡ l.store
unfolding record_release
record_release-store id none l = refl
record_release-store id (some rows) l = refl

mark_window-Knows :
    (fails : Bool) (now : ℕ) (id : Text) (l : HoldLedger)
    → Knows l.store (mark_window fails now id l).1.store
unfolding mark_window mark_released is_known
mark_window-Knows true now id l j h = h
mark_window-Knows false now id l j h = elim (Bool-cases (row_count id l.store.windows == 1)) [
  | inl q ↦ rw (q, record_release-store) h
  | inr q ↦ rw (q, record_release-store) h
]

module _ (derive_identity : Event → AlertIdentity) where
  call-Knows : (c : LedgerCall) (l : HoldLedger) → Knows l.store (call derive_identity c l).store
  unfolding begin_release extend
  call-Knows (LedgerCall.holds fails now e published active) l id h =
      hold_event-Knows derive_identity fails now e published active l id h
  call-Knows (LedgerCall.begins i keys) l id h = h
  call-Knows (LedgerCall.marks fails now i) l id h = mark_window-Knows fails now i l id h
  call-Knows (LedgerCall.extends i end) l id h = unfold is_known in h
  call-Knows LedgerCall.restarts l id h = h

  call_all-Knows :
      (cs : List LedgerCall) (l : HoldLedger) → Knows l.store (call_all derive_identity cs l).store
  call_all-Knows [] l id h = h
  call_all-Knows (c ∷ cs) l id h =
      call_all-Knows cs (call derive_identity c l) id (call-Knows c l id h)

  -- An event that `hold` does not hand on, because it held it or had held it before, has a row in
  -- the store then, and still has it after every later sequence of holds, releases, marks,
  -- extensions and restarts.
  pub hold_event-call_all :
      (fails : Bool) (now : ℕ) (e : Event) (published : ℕ) (active : List MaintenanceWindow)
      (l : HoldLedger) (cs : List LedgerCall)
      → (hold_event derive_identity fails now e published active l).0 ≢ HoldResult.not_held
      → is_known
          (call_all derive_identity cs
            (hold_event derive_identity fails now e published active l).1).store
          e.id
        ≡ true
  hold_event-call_all fails now e published active l cs h =
      call_all-Knows cs (hold_event derive_identity fails now e published active l).1 e.id
        (hold_event-Took derive_identity fails now e published active l h)
