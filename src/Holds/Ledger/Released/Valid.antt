-- ===== src/Holds/Ledger/Released/Valid.antt =====
-- What makes the ledger of henk/events/holds.py valid, and the statements of its store that keep it so.
use henk.Base.{
  ℕ, ◌-◌, ◌≤◌, ◌<◌, ◌≡◌, refl, sym, ap, ◌∙◌, subst, inl, inr, Bool, false, not, ◌&&◌, Option, none,
  some, List, [], ◌∷◌, ◌++◌, Text, text_eq, text_eq_sound, keep, tally, tally-append, arith,
  Bool-cases, Option-cases, All, All-map,
}
use henk.Holds.{HoldWindow, HeldEvent, MaintenanceWindow}
use henk.Holds.Table.{
  HoldTables, is_unreleased, is_window, held_in, find_window, insert_or_ignore, by_published,
  held_events, extend, hold, hold_in, has_event,
}
use henk.Holds.Table.Laws.{
  window_rows, released_rows, find_window-none, find_window-some, window_rows-update_window,
  released_rows-extend,
}
use henk.Holds.Groups.{HeldGroups, group_held}
use henk.Holds.Ledger.{HoldReceipt, HoldLedger}

-- Whether a receipt is the release record of the window.
abbrev pub releases : Text → HoldReceipt → Bool
releases id (HoldReceipt.held_receipt k s e w n t) = false
releases id (HoldReceipt.released_receipt w h r f) = text_eq w id

-- A release record counts the identities that the window holds, and the window is released.
abbrev pub IsFinal : HoldTables → HoldReceipt → Type 0
IsFinal t (HoldReceipt.held_receipt k s e w n p) = Unit
IsFinal t (HoldReceipt.released_receipt id h r f) =
    let g = group_held (held_events id t) in
    (h ≡ g.held) × (r ≡ g.recovered) × (f ≡ g.held - g.recovered) × (0 < released_rows id t.windows)

-- Window ids are a key, the release records of a window are as many as its released rows, so one
-- at most, and each counts what the window holds.
pub record IsLedger (l : HoldLedger) : Type 0 where
  pub keyed : (id : Text) → window_rows id l.store.windows ≤ 1
  pub recorded : (id : Text) → tally (releases id) l.receipts ≡ released_rows id l.store.windows
  pub final : All (IsFinal l.store) l.receipts

-- The tables before and after a statement that adds no release, and no event to a released window.
abbrev pub Extends : HoldTables → HoldTables → Type 0
Extends t u =
    ((id : Text) → window_rows id u.windows ≤ 1)
    × ((id : Text) → released_rows id u.windows ≡ released_rows id t.windows)
    × ((id : Text) → 0 < released_rows id t.windows → held_events id u ≡ held_events id t)

-- Released windows stay so, with what they hold.
abbrev pub Settles : HoldTables → HoldTables → Type 0
Settles t u =
    (id : Text)
    → 0 < released_rows id t.windows
    → (held_events id u ≡ held_events id t) × (0 < released_rows id u.windows)

pub IsFinal-Settles : (t u : HoldTables) (r : HoldReceipt) → Settles t u → IsFinal t r → IsFinal u r
IsFinal-Settles t u (HoldReceipt.held_receipt k s e w n p) h f = tt
IsFinal-Settles t u (HoldReceipt.released_receipt id a b c) h f =
    let e = ap group_held (h id f.3).0 in
    (
      f.0 ∙ sym (ap (λ (g : HeldGroups). g.held) e),
      f.1 ∙ sym (ap (λ (g : HeldGroups). g.recovered) e),
      f.2 ∙ sym (ap (λ (g : HeldGroups). g.held - g.recovered) e),
      (h id f.3).1,
    )

pub Extends-IsLedger :
    (l : HoldLedger) (u : HoldTables)
    → Extends l.store u
    → IsLedger l
    → IsLedger (record l { store = u })
Extends-IsLedger l u h v = record {
  keyed = h.0;
  recorded = λ id. v.recorded id ∙ sym (h.1 id);
  final =
      All-map (IsFinal l.store) (IsFinal u) l.receipts
        (λ r f. IsFinal-Settles l.store u r (λ id q. (h.2 id q, omega (arith, h.1 id, q))) f)
        v.final;
}

pub insert_or_ignore_lem :
    (w : MaintenanceWindow) (l : List HoldWindow)
    → ((id : Text) → window_rows id l ≤ 1)
    → ((id : Text) → window_rows id (insert_or_ignore w l) ≤ 1)
      × ((id : Text) → released_rows id (insert_or_ignore w l) ≡ released_rows id l)
unfolding insert_or_ignore tally
insert_or_ignore_lem w l h = elim (Option-cases (find_window w.id l)) [
  | inr (v, e) ↦ rw (e, insert_or_ignore) (h, λ id. refl)
  | inl e ↦
      let row : HoldWindow = record {
        window_id = w.id;
        title = w.title;
        start = w.start;
        end = w.end;
        released_at = none;
      } in
      let zero = find_window-none w.id l e in
      rw (e, insert_or_ignore)
        (
          λ id.
              let a = tally-append (is_window id) l (row ∷ []) in
              let u = h id in
              elim (Bool-cases (text_eq w.id id)) [
                | inl q ↦
                    let z : window_rows id l ≡ 0 =
                      subst (λ j. window_rows j l ≡ 0) (text_eq_sound w.id id q) zero in
                    ground arith
                | inr q ↦ ground arith
              ],
          λ id.
              let a = tally-append (λ v. is_window id v && not (is_unreleased v)) l (row ∷ []) in
              ground arith,
        )
]

pub keep_other :
    (p : HeldEvent → Bool) (l : List HeldEvent) (e : HeldEvent)
    → p e ≡ false
    → keep p (l ++ e ∷ []) ≡ keep p l
unfolding keep
keep_other p [] e h = rw h refl
keep_other p (x ∷ l) e h = let ih = keep_other p l e h in ground arith

-- What a window holds does not depend on the window rows.
pub held_events-windows :
    (id : Text) (t : HoldTables) (ws : List HoldWindow)
    → held_events id (record t { windows = ws }) ≡ held_events id t
unfolding held_events
held_events-windows id t ws = refl

pub held_events-append :
    (id : Text) (t : HoldTables) (ws : List HoldWindow) (e : HeldEvent)
    → held_in id e ≡ false
    → held_events id (record { windows = ws; events = t.events ++ e ∷ [] }) ≡ held_events id t
unfolding held_events
held_events-append id t ws e h = ap by_published (keep_other (held_in id) t.events e h)

pub hold_in-Extends :
    (w : MaintenanceWindow) (e : HeldEvent) (t : HoldTables) (o : Option HoldWindow)
    → e.window_id ≡ w.id
    → ((id : Text) → window_rows id t.windows ≤ 1)
    → find_window w.id t.windows ≡ o
    → Extends t (hold_in e t o).1
unfolding hold_in
hold_in-Extends w e t none n u f = (u, λ id. refl, λ id h. refl)
hold_in-Extends w e t (some v) n u f = elim (Bool-cases (is_unreleased v)) [
  | inr q ↦ rw q (u, λ id. refl, λ id h. refl)
  | inl q ↦
      let k = find_window-some w.id t.windows v f (u w.id) in
      let zero : released_rows w.id t.windows ≡ 0 = rw q at k.1 in
      rw q (
        u,
        λ id. refl,
        λ id h. held_events-append id t t.windows e (elim (Bool-cases (held_in id e)) [
          | inr x ↦ x
          | inl x ↦
              let same : w.id ≡ id = sym n ∙ text_eq_sound e.window_id id x in
              absurd (omega (arith, h, subst (λ j. released_rows j t.windows ≡ 0) same zero))
        ]),
      )
]

pub hold-Extends :
    (w : MaintenanceWindow) (e : HeldEvent) (t : HoldTables)
    → e.window_id ≡ w.id
    → ((id : Text) → window_rows id t.windows ≤ 1)
    → Extends t (hold w e t).1
unfolding hold
hold-Extends w e t n u =
    let (u', s) = insert_or_ignore_lem w t.windows u in
    let t' : HoldTables = record t { windows = insert_or_ignore w t.windows } in
    elim (Bool-cases (has_event e.event_id t.events)) [
      | inl q ↦ rw q (u, λ id. refl, λ id h. refl)
      | inr q ↦
          let k = hold_in-Extends w e t' (find_window w.id t'.windows) n u' refl in
          rw q (
            k.0,
            λ id. k.1 id ∙ s id,
            λ id h. k.2 id (omega (arith, s id, h)) ∙ held_events-windows id t t'.windows,
          )
    ]

pub extend-Extends :
    (id : Text) (end : ℕ) (t : HoldTables)
    → ((j : Text) → window_rows j t.windows ≤ 1)
    → Extends t (extend id end t).1
unfolding extend held_events
extend-Extends id end t u = (
  λ j.
      rw (window_rows-update_window (λ w. record w { end = end }) id j t.windows (λ w. refl)) (u j),
  λ j. released_rows-extend end id j t.windows,
  λ j h. refl,
)
