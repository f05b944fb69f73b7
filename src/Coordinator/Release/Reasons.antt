-- ===== src/Coordinator/Release/Reasons.antt =====
-- When a window may be released, and the tests of `_consider` of henk/events/release.py.
use henk.Base.{
  ℕ, ◌+◌, ◌≤◌, ◌<◌, ◌≡◌, refl, ap, ◌≢◌, ◌⊎◌, inl, inr, true, false, ◌||◌, Option, none, some, List,
  [], ◌∷◌, Text, ltb, leb, arith, Bool-cases, In,
}
use henk.Holds.{HoldWindow, HeldEvent, MaintenanceWindow}
use henk.Holds.Table.{held_events}
use henk.Holds.Ledger.{is_triaged}
use henk.Coordinator.{Coordinator}
use henk.Coordinator.Release.{
  Releaser, earliest, starting_by, shares_identity, current_window, fallback_from, fallback_due,
}

pub shares_identity-true :
    (flight : List (Text × List Text)) (rows : List HeldEvent) (r : HeldEvent)
    → In r rows
    → is_triaged r.identity_key flight ≡ true
    → shares_identity flight rows ≡ true
unfolding shares_identity
shares_identity-true flight (s ∷ l) r (inl e) h =
    let k = ap (λ (x : HeldEvent). is_triaged x.identity_key flight) e in ground arith
shares_identity-true flight (s ∷ l) r (inr q) h =
    let ih = shares_identity-true flight l r q h in ground arith
shares_identity-true flight [] r q h = absurd q

pub shares_identity-false :
    (flight : List (Text × List Text)) (rows : List HeldEvent)
    → shares_identity flight rows ≡ false
    → (r : HeldEvent) → In r rows
    → is_triaged r.identity_key flight ≡ false
shares_identity-false flight rows h r q = elim (Bool-cases (is_triaged r.identity_key flight)) [
  | inl e ↦ let k = shares_identity-true flight rows r q e in cc
  | inr e ↦ e
]

pub shares_some :
    (flight : List (Text × List Text)) (rows : List HeldEvent)
    → shares_identity flight rows ≡ true
    → (r : HeldEvent) × In r rows × (is_triaged r.identity_key flight ≡ true)
unfolding shares_identity
shares_some flight [] h = absurd (cc)
shares_some flight (r ∷ l) h = elim (Bool-cases (is_triaged r.identity_key flight)) [
  | inl e ↦ (r, inl refl, e)
  | inr e ↦ let (x, q, k) = shares_some flight l (ground arith) in (x, inr q, k)
]

pub earliest_le :
    (r : HeldEvent) (l : List HeldEvent) (x : HeldEvent)
    → In x (r ∷ l)
    → earliest r l ≤ x.published_at
unfolding earliest
earliest_le r [] x (inl e) = let k = ap (λ (y : HeldEvent). y.published_at) e in omega arith
earliest_le r [] x (inr q) = absurd q
earliest_le r (s ∷ l) x (inl e) = let k = ap (λ (y : HeldEvent). y.published_at) e in ground arith
earliest_le r (s ∷ l) x (inr q) = let ih = earliest_le s l x q in ground arith

pub earliest-In :
    (r : HeldEvent) (l : List HeldEvent)
    → (x : HeldEvent) × In x (r ∷ l) × (x.published_at ≡ earliest r l)
unfolding earliest
earliest-In r [] = (r, inl refl, refl)
earliest-In r (s ∷ l) = elim (Bool-cases (leb r.published_at (earliest s l))) [
  | inl e ↦ (r, inl refl, rw e refl)
  | inr e ↦ let (x, q, k) = earliest-In s l in (x, inr q, rw e k)
]

module _ (releaser : Releaser) where
  -- When a window may be released.
  pub record MayRelease (now : ℕ) (w : HoldWindow) (c : Coordinator) : Type 0 where
    pub due_by : w.end + releaser.grace ≤ now
    pub holds : held_events w.window_id c.ledger.store ≢ []
    -- The calendar's window, if any, starts after some held event was published.
    pub unextended :
        (m : MaintenanceWindow)
        → current_window releaser w now ≡ some m
        → (r : HeldEvent) × In r (held_events w.window_id c.ledger.store)
          × (r.published_at < m.start)
    -- Caught up, or the fallback has passed since the due instant and the first subscription.
    pub reason :
        (releaser.caught_up w ≡ true)
        ⊎ ((first : ℕ) × (releaser.first_subscribe ≡ some first)
            × (w.end + releaser.grace + releaser.fallback ≤ now)
            × (first + releaser.fallback ≤ now))
    pub unshared :
        (r : HeldEvent)
        → In r (held_events w.window_id c.ledger.store)
        → is_triaged r.identity_key c.ledger.in_flight ≡ false

  abbrev pub IsFallback : Option ℕ → HoldWindow → ℕ → Type 0
  IsFallback o w now =
      (first : ℕ) × (o ≡ some first)
      × (w.end + releaser.grace + releaser.fallback ≤ now)
      × (first + releaser.fallback ≤ now)

  pub fallback_from-true :
      (o : Option ℕ) (w : HoldWindow) (now : ℕ)
      → fallback_from releaser o w now ≡ true
      → IsFallback o w now
  unfolding fallback_from
  fallback_from-true none w now h = absurd (cc)
  fallback_from-true (some first) w now h = (first, refl, ground arith, ground arith)

  pub fallback_from-holds :
      (first : ℕ) (w : HoldWindow) (now : ℕ)
      → w.end + releaser.grace + releaser.fallback ≤ now
      → first + releaser.fallback ≤ now
      → fallback_from releaser (some first) w now ≡ true
  unfolding fallback_from
  fallback_from-holds first w now h k = ground arith

  pub reason_true :
      (now : ℕ) (w : HoldWindow) (c : Coordinator)
      → MayRelease now w c
      → (releaser.caught_up w || fallback_due releaser w now) ≡ true
  reason_true now w c m = elim m.reason [
    | inl e ↦ rw e refl
    | inr (first, e, h, k) ↦ let f = fallback_from-holds first w now h k in rw e (ground arith)
  ]

  pub reason_of :
      (now : ℕ) (w : HoldWindow)
      → (releaser.caught_up w || fallback_due releaser w now) ≡ true
      → (releaser.caught_up w ≡ true) ⊎ IsFallback releaser.first_subscribe w now
  reason_of now w h = elim (Bool-cases (releaser.caught_up w)) [
    | inl e ↦ inl e
    | inr e ↦ inr (fallback_from-true releaser.first_subscribe w now (ground arith))
  ]

  pub starting_none :
      (o : Option MaintenanceWindow) (r : HeldEvent) (l : List HeldEvent)
      → starting_by (earliest r l) o ≡ none
      → (m : MaintenanceWindow) → o ≡ some m
      → (x : HeldEvent) × In x (r ∷ l) × (x.published_at < m.start)
  unfolding starting_by
  starting_none none r l h m e = absurd (cc)
  starting_none (some n) r l h m e =
      let (x, q, k) = earliest-In r l in
      let same : n ≡ m = cc in
      let lt : earliest r l < n.start = ground arith in (x, q, rw k (rw same at lt))

  pub starting_some :
      (o : Option MaintenanceWindow) (r : HeldEvent) (l : List HeldEvent) (m : MaintenanceWindow)
      → starting_by (earliest r l) o ≡ some m
      → (o ≡ some m) × (m.start ≤ earliest r l)
  unfolding starting_by
  starting_some none r l m h = absurd (cc)
  starting_some (some n) r l m h = elim (Bool-cases (ltb (earliest r l) n.start)) [
    | inl e ↦ absurd (ground arith)
    | inr e ↦ let same : n ≡ m = ground arith in (ap some same, ground arith)
  ]
