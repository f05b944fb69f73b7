-- ===== src/Coordinator/Release.antt =====
-- `HoldReleaser` of henk/events/release.py: one tick over the unreleased windows, with the ledger
-- that it shares with the coordinator.
pub mod Opened
pub mod Reasons
pub mod Conditions
use henk.Base.{
  ℕ, ◌+◌, ◌-◌, Bool, true, false, not, ◌||◌, ◌&&◌, Option, none, some, List, [], ◌∷◌, map, Text,
  ltb, leb, ◌==◌, if◌then◌else◌, has_key, keys_of,
}
use henk.Events.{Event, AlertIdentity}
use henk.Events.Pipeline.{PipelineConfig}
use henk.Holds.{HoldWindow, HeldEvent, MaintenanceWindow}
use henk.Holds.Table.{extend, held_events, unreleased_windows}
use henk.Holds.Groups.{HeldGroups, group_held, rebuild_event}
use henk.Holds.Ledger.{is_triaged, mark_window}
use henk.Coordinator.{Coordinator, Environment, HeldRelease, submit_release}

-- The settings, `active_window` of the calendar if there is one, the coordinator's answers when a
-- window is considered, and for each window whether its consideration raises at its first read of
-- the store, whether the store raises when it is marked, and when it is marked.
pub record Releaser : Type 0 where
  pub grace : ℕ
  pub fallback : ℕ
  pub calendar : Option (Text → ℕ → Option MaintenanceWindow)
  pub caught_up : HoldWindow → Bool
  pub first_subscribe : Option ℕ
  pub raises : HoldWindow → Bool
  pub mark_fails : HoldWindow → Bool
  pub marked_at : HoldWindow → ℕ

-- `min(…)`, of a list that is not empty
unfoldable pub earliest : HeldEvent → List HeldEvent → ℕ
earliest r [] = r.published_at
earliest r (s ∷ l) = let m = earliest s l in if leb r.published_at m then r.published_at else m

-- `in_flight_identities() & {…}`
unfoldable pub shares_identity : List (Text × List Text) → List HeldEvent → Bool
shares_identity flight [] = false
shares_identity flight (r ∷ l) = is_triaged r.identity_key flight || shares_identity flight l

-- The window that the test of `_extended` finds, if any.
unfoldable pub starting_by : ℕ → Option MaintenanceWindow → Option MaintenanceWindow
starting_by first none = none
starting_by first (some m) = if ltb first m.start then none else some m

-- The write of `_extended`
unfoldable pub move_end : HoldWindow → MaintenanceWindow → Coordinator → Coordinator
move_end w m c = if m.end == w.end then c else record c {
  ledger = record c.ledger { store = (extend w.window_id m.end c.ledger.store).1 };
}

module _ (releaser : Releaser) where
  abbrev pub due : HoldWindow → ℕ
  due w = w.end + releaser.grace

  abbrev pub current_window : HoldWindow → ℕ → Option MaintenanceWindow
  current_window w now = elim releaser.calendar [
    | none ↦ none
    | some active_window ↦ active_window w.window_id now
  ]

  unfoldable pub fallback_from : Option ℕ → HoldWindow → ℕ → Bool
  fallback_from none w now = false
  fallback_from (some first) w now =
      leb ((if ltb (due w) first then first else due w) + releaser.fallback) now

  -- `_fallback_due`
  abbrev pub fallback_due : HoldWindow → ℕ → Bool
  fallback_due w now = fallback_from releaser.first_subscribe w now

  abbrev pub release_of : HoldWindow → HeldGroups → ℕ → HeldRelease
  release_of w g now = record {
    window_id = w.window_id;
    title = w.title;
    start = w.start;
    end_with_grace = due w;
    held = g.held;
    recovered = g.recovered;
    hold_age_seconds = now - w.end;
  }

  unfoldable pub conclude_window : HoldWindow → Bool × Coordinator → Coordinator
  conclude_window w (true, c) = c
  conclude_window w (false, c) = record c {
    ledger = (mark_window (releaser.mark_fails w) (releaser.marked_at w) w.window_id c.ledger).1;
  }

module _ (derive_identity : Event → AlertIdentity) (matches : Text → Text → Bool)
    (cfg : PipelineConfig) (env : Environment) (releaser : Releaser) where
  unfoldable pub submit_held : List HeldEvent → HeldRelease → ℕ → Coordinator → Bool × Coordinator
  submit_held [] release now c = (false, c)
  submit_held (r ∷ l) release now c =
      submit_release derive_identity matches cfg env (map rebuild_event (r ∷ l)) release now c

  -- The end of `_consider`.
  unfoldable pub release_window : ℕ → HoldWindow → List HeldEvent → Coordinator → Coordinator
  release_window now w rows c =
      let g = group_held rows in
      conclude_window releaser w (submit_held g.forwarded (release_of releaser w g now) now c)

  -- `_consider` where the window is not extended.
  unfoldable pub release_if :
      Bool → Bool → ℕ → HoldWindow → List HeldEvent → Coordinator → Coordinator
  release_if false shared now w rows c = c
  release_if true true now w rows c = c
  release_if true false now w rows c = release_window now w rows c

  unfoldable pub extend_or_release :
      Option MaintenanceWindow → ℕ → HoldWindow → List HeldEvent → Coordinator → Coordinator
  extend_or_release (some m) now w rows c = move_end w m c
  extend_or_release none now w rows c =
      release_if (releaser.caught_up w || fallback_due releaser w now)
        (shares_identity c.ledger.in_flight rows) now w rows c

  unfoldable pub consider_rows : List HeldEvent → ℕ → HoldWindow → Coordinator → Coordinator
  consider_rows [] now w c = c
  consider_rows (r ∷ l) now w c =
      extend_or_release (starting_by (earliest r l) (current_window releaser w now)) now w (r ∷ l) c

  -- `_consider`
  unfoldable pub consider : ℕ → HoldWindow → Coordinator → Coordinator
  consider now w c =
      if ltb now (due releaser w)
      then c
      else consider_rows (held_events w.window_id c.ledger.store) now w c

  -- The loop of `tick`
  unfoldable pub consider_all : ℕ → List HoldWindow → Coordinator → Coordinator
  consider_all now [] c = c
  consider_all now (w ∷ l) c = consider_all now l (
      if has_key w.window_id (keys_of c.ledger.in_flight) || releaser.raises w
      then c
      else consider now w c)

  -- `tick`
  unfoldable pub tick : ℕ → Coordinator → Coordinator
  tick now c = consider_all now (unreleased_windows c.ledger.store) c
