-- ===== src/Coordinator/Release/Conditions.antt =====
-- When `_consider` of henk/events/release.py closes a window.
use henk.Base.{
  ℕ, ◌+◌, ◌≤◌, ◌≡◌, refl, ◌⊎◌, inl, inr, Bool, true, false, ◌||◌, Option, none, some, List, [], ◌∷◌,
  Text, ltb, arith, Bool-cases, has_key, keys_of, map,
}
use henk.Events.{Event, AlertIdentity, EventTurn}
use henk.Events.Pipeline.{PipelineConfig, evaluate}
use henk.Holds.{HoldWindow, HeldEvent, MaintenanceWindow}
use henk.Holds.Table.{held_events}
use henk.Holds.Groups.{group_held, rebuild_event}
use henk.Holds.Ledger.{HoldLedger, begin_release}
use henk.Coordinator.{Coordinator, Environment, HeldRelease, submit_release, conclude_release}
use henk.Coordinator.Release.{
  Releaser, earliest, starting_by, shares_identity, due, current_window, fallback_due, release_of,
  conclude_window, submit_held, release_window, release_if, extend_or_release, consider_rows,
  consider,
}
use henk.Coordinator.Release.Opened.{
  IsOpen, IsClosed, has_key-set_key, move_end-IsOpen, mark_window-IsClosed,
}
use henk.Coordinator.Release.Reasons.{
  MayRelease, reason_true, reason_of, starting_none, starting_some, shares_some,
  shares_identity-false, earliest_le,
}

module _ (derive_identity : Event → AlertIdentity) (matches : Text → Text → Bool)
    (cfg : PipelineConfig) (env : Environment) (releaser : Releaser) where
  -- Closed and rightly so, or open and rightly so.
  abbrev pub Outcome : ℕ → HoldWindow → Coordinator → Coordinator → Type 0
  Outcome now w c c' =
      (MayRelease releaser now w c × IsClosed w.window_id c'.ledger)
      ⊎ ((¬ MayRelease releaser now w c) × IsOpen w.window_id c'.ledger)

  -- Without a turn the ledger is as it was.
  Submitted : Text → HoldLedger → Bool × Coordinator → Type 0
  Submitted id l (true, c) = has_key id (keys_of c.ledger.in_flight) ≡ true
  Submitted id l (false, c) = c.ledger ≡ l

  conclude_release-Submitted :
      (release : HeldRelease) (o : Option (EventTurn HeldRelease)) (c : Coordinator)
      → Submitted release.window_id c.ledger
          (conclude_release derive_identity matches cfg env release o c)
  unfolding Submitted conclude_release begin_release
  conclude_release-Submitted release none c = refl
  conclude_release-Submitted release (some t) c =
      has_key-set_key release.window_id _ c.ledger.in_flight

  submit_held-Submitted :
      (l : List HeldEvent) (release : HeldRelease) (now : ℕ) (c : Coordinator)
      → Submitted release.window_id c.ledger
          (submit_held derive_identity matches cfg env releaser l release now c)
  unfolding Submitted submit_held submit_release
  submit_held-Submitted [] release now c = refl
  submit_held-Submitted (r ∷ l) release now c =
      conclude_release-Submitted release
        (evaluate derive_identity matches cfg (map rebuild_event (r ∷ l)) now (some release)
          c.pipeline).0.event_turn
        _

  conclude_window-IsClosed :
      (w : HoldWindow) (l : HoldLedger) (x : Bool × Coordinator)
      → releaser.mark_fails w ≡ false
      → IsOpen w.window_id l
      → Submitted w.window_id l x
      → IsClosed w.window_id (conclude_window releaser w x).ledger
  unfolding Submitted conclude_window
  conclude_window-IsClosed w l (true, c) f v h = inl h
  conclude_window-IsClosed w l (false, c) f v h =
      rw (f, h) (mark_window-IsClosed (releaser.marked_at w) w.window_id l v)

  release_window-IsClosed :
      (now : ℕ) (w : HoldWindow) (rows : List HeldEvent) (c : Coordinator)
      → releaser.mark_fails w ≡ false
      → IsOpen w.window_id c.ledger
      → IsClosed w.window_id
          (release_window derive_identity matches cfg env releaser now w rows c).ledger
  unfolding release_window
  release_window-IsClosed now w rows c f v =
      let g = group_held rows in
      let release = release_of releaser w g now in
      conclude_window-IsClosed w c.ledger
        (submit_held derive_identity matches cfg env releaser g.forwarded release now c) f v
        (submit_held-Submitted g.forwarded release now c)

  release_if-Outcome :
      (now : ℕ) (w : HoldWindow) (r : HeldEvent) (l : List HeldEvent) (c : Coordinator)
      → releaser.mark_fails w ≡ false
      → IsOpen w.window_id c.ledger
      → w.end + releaser.grace ≤ now
      → held_events w.window_id c.ledger.store ≡ r ∷ l
      → starting_by (earliest r l) (current_window releaser w now) ≡ none
      → (a b : Bool) → (releaser.caught_up w || fallback_due releaser w now) ≡ a
      → shares_identity c.ledger.in_flight (r ∷ l) ≡ b
      → Outcome now w c (release_if derive_identity matches cfg env releaser a b now w (r ∷ l) c)
  unfolding release_if
  release_if-Outcome now w r l c f v d hr hs false b p q =
      inr (λ m. let k = reason_true releaser now w c m in cc, v)
  release_if-Outcome now w r l c f v d hr hs true true p q = inr (
    λ m.
        let (x, i, k) = shares_some c.ledger.in_flight (r ∷ l) q in
        let u = m.unshared x (rw hr i) in cc,
    v,
  )
  release_if-Outcome now w r l c f v d hr hs true false p q = inl (
    record {
      due_by = d;
      holds = λ e. cc;
      unextended = λ m e. rw hr (starting_none releaser (current_window releaser w now) r l hs m e);
      reason = reason_of releaser now w p;
      unshared = λ x i. shares_identity-false c.ledger.in_flight (r ∷ l) q x (rw hr at i);
    },
    release_window-IsClosed now w (r ∷ l) c f v,
  )

  extend_or_release-Outcome :
      (now : ℕ) (w : HoldWindow) (r : HeldEvent) (l : List HeldEvent) (c : Coordinator)
      → releaser.mark_fails w ≡ false
      → IsOpen w.window_id c.ledger
      → w.end + releaser.grace ≤ now
      → held_events w.window_id c.ledger.store ≡ r ∷ l
      → (o : Option MaintenanceWindow)
      → starting_by (earliest r l) (current_window releaser w now) ≡ o
      → Outcome now w c
          (extend_or_release derive_identity matches cfg env releaser o now w (r ∷ l) c)
  unfolding extend_or_release
  extend_or_release-Outcome now w r l c f v d hr none hs =
      release_if-Outcome now w r l c f v d hr hs _ _ refl refl
  extend_or_release-Outcome now w r l c f v d hr (some m) hs = inr (
    λ y.
        let (e, k) = starting_some releaser (current_window releaser w now) r l m hs in
        let (x, i, lt) = y.unextended m e in
        let le = earliest_le r l x (rw hr at i) in absurd (omega arith),
    move_end-IsOpen w m c v,
  )

  consider_rows-Outcome :
      (now : ℕ) (w : HoldWindow) (rows : List HeldEvent) (c : Coordinator)
      → releaser.mark_fails w ≡ false
      → IsOpen w.window_id c.ledger
      → w.end + releaser.grace ≤ now
      → held_events w.window_id c.ledger.store ≡ rows
      → Outcome now w c (consider_rows derive_identity matches cfg env releaser rows now w c)
  unfolding consider_rows
  consider_rows-Outcome now w [] c f v d hr = inr (λ m. m.holds hr, v)
  consider_rows-Outcome now w (r ∷ l) c f v d hr =
      extend_or_release-Outcome now w r l c f v d hr
        (starting_by (earliest r l) (current_window releaser w now)) refl

  -- For every clock, calendar and state of the coordinator, considering an open window whose mark
  -- does not fail has one of two outcomes: it may be released and is closed, by a release in flight
  -- or by its released row; or it may not be released and is left open. It may be released exactly
  -- where its grace has passed, it holds events, the calendar's window of its id does not start by
  -- the first held publish time, the loop has caught up or the fallback has passed, and no release
  -- in flight has one of its identities.
  pub consider-Outcome :
      (now : ℕ) (w : HoldWindow) (c : Coordinator)
      → releaser.mark_fails w ≡ false
      → IsOpen w.window_id c.ledger
      → Outcome now w c (consider derive_identity matches cfg env releaser now w c)
  unfolding consider
  consider-Outcome now w c f v = elim (Bool-cases (ltb now (due releaser w))) [
    | inl e ↦ rw e (inr (λ m. let d = m.due_by in absurd (ground arith), v))
    | inr e ↦ rw e (
        consider_rows-Outcome now w (held_events w.window_id c.ledger.store) c f v (ground arith)
          refl)
  ]
