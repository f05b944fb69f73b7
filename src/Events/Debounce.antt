-- ===== src/Events/Debounce.antt =====
-- `Debouncer` of henk/events/pipeline.py.
pub mod Batches
use henk.Base.{ℕ, ◌+◌, Option, none, some, List, [], ◌∷◌, ◌++◌, leb, if◌then◌else◌}
use henk.Events.{Event}

-- `_batch` and `_batch_start`
pub record Debouncer : Type 0 where
  pub batch : List Event
  pub batch_start : Option ℕ

abbrev pub new_debouncer : Debouncer
new_debouncer = record { batch = []; batch_start = none }

module _ (window : ℕ) where
  unfoldable pub feed : Event → Debouncer → Option (List Event) × Debouncer
  feed event d = elim d.batch_start [
    | none ↦ (none, record { batch = event ∷ []; batch_start = some event.arrival_time })
    | some start ↦
        if leb event.arrival_time (start + window)
        then (none, record d { batch = d.batch ++ event ∷ [] })
        else (some d.batch, record { batch = event ∷ []; batch_start = some event.arrival_time })
  ]

unfoldable pub flush : Debouncer → Option (List Event) × Debouncer
flush d = elim d.batch [ [] ↦ (none, d) | e ∷ es ↦ (some d.batch, new_debouncer) ]
