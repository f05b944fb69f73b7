-- ===== src/Events/Pipeline/Runs.antt =====
-- Runs of `EventPipeline` of henk/events/pipeline.py: the coordinator evaluates batches, each at an
-- instant that its clock gives, and notes the handoffs that the triages published.
use henk.Base.{ℕ, ◌≤◌, Bool, Option, List, [], ◌∷◌, Text}
use henk.Events.{Event, AlertIdentity, EventTurn}
use henk.Events.Pipeline.{PipelineConfig, EventPipeline, evaluate, note_handoff}

pub data Step (H : Type 0) : Type 0 where
  evaluates : (batch : List Event) (now : ℕ) (held : Option H) → Step H
  notes : (key ref : Text) → Step H

-- The instants of the evaluations do not decrease.
abbrev pub IsClock : {H : Type 0} → ℕ → List (Step H) → Type 0
IsClock clock [] = Unit
IsClock clock (Step.evaluates batch now held ∷ l) = (clock ≤ now) × IsClock now l
IsClock clock (Step.notes key ref ∷ l) = IsClock clock l

module _ (derive_identity : Event → AlertIdentity) (matches : Text → Text → Bool)
    (cfg : PipelineConfig) {H : Type 0} where
  -- The turns of a run with the instants of their evaluations, and the pipeline that is left.
  abbrev pub run : List (Step H) → EventPipeline → List (ℕ × Option (EventTurn H)) × EventPipeline
  run [] p = ([], p)
  run (Step.evaluates batch now held ∷ l) p =
      let (d, p') = evaluate derive_identity matches cfg batch now held p in
      ((now, d.event_turn) ∷ (run l p').0, (run l p').1)
  run (Step.notes key ref ∷ l) p = run l (note_handoff key ref p)
