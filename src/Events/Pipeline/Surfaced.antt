-- ===== src/Events/Pipeline/Surfaced.antt =====
-- The count of cap-suppressed incidents of henk/events/pipeline.py over a whole run.
use henk.Base.{
  ℕ, ◌+◌, ◌≡◌, refl, inl, inr, Bool, Option, none, some, List, [], ◌∷◌, Text, if◌then◌else◌, arith,
  Bool-cases,
}
use henk.Events.{Event, AlertIdentity, EventTurn}
use henk.Events.Pipeline.{PipelineConfig, EventPipeline, evaluate, note_handoff}
use henk.Events.Pipeline.Runs.{Step, run}
use henk.Events.Pipeline.Cadence.{Paces, evaluate-Paces}

module _ {H : Type 0} where
  -- What the announced turns report as suppressed.
  abbrev pub surfaced : List (ℕ × Option (EventTurn H)) → ℕ
  surfaced [] = 0
  surfaced ((now, none) ∷ l) = surfaced l
  surfaced ((now, some t) ∷ l) = (if t.announceable then t.suppressed_count else 0) + surfaced l

  -- The turns that were not announced.
  abbrev pub silent : List (ℕ × Option (EventTurn H)) → ℕ
  silent [] = 0
  silent ((now, none) ∷ l) = silent l
  silent ((now, some t) ∷ l) = (if t.announceable then 0 else 1) + silent l

  surfaced-step :
      (cfg : PipelineConfig) (now left : ℕ) (p p' : EventPipeline) (o : Option (EventTurn H))
      (l : List (ℕ × Option (EventTurn H)))
      → Paces cfg now p o p'
      → surfaced l + left ≡ p'.cap_suppressed_since_announce + silent l
      → surfaced ((now, o) ∷ l) + left ≡ p.cap_suppressed_since_announce + silent ((now, o) ∷ l)
  surfaced-step cfg now left p p' none l s ih = omega (arith, s.1)
  surfaced-step cfg now left p p' (some t) l s ih = elim (Bool-cases t.announceable) [
    | inl e ↦ let k = simp e at s in rw e (omega (arith, k.2, k.3))
    | inr e ↦ let k = simp e at s in rw e (omega (arith, k.2, k.3))
  ]

note_handoff-cap_suppressed :
    (key ref : Text) (p : EventPipeline)
    → (note_handoff key ref p).cap_suppressed_since_announce ≡ p.cap_suppressed_since_announce
unfolding note_handoff
note_handoff-cap_suppressed key [] p = refl
note_handoff-cap_suppressed key (c ∷ ref) p = refl

module _ (derive_identity : Event → AlertIdentity) (matches : Text → Text → Bool)
    (cfg : PipelineConfig) {H : Type 0} where
  -- Over every run, what the announced turns report as suppressed and what is still to be reported
  -- are what was to be reported before and the turns that the run did not announce: no suppressed
  -- incident is forgotten, and none is reported twice.
  pub run-surfaced :
      (l : List (Step H)) (p : EventPipeline)
      → surfaced (run derive_identity matches cfg l p).0
          + (run derive_identity matches cfg l p).1.cap_suppressed_since_announce
        ≡ p.cap_suppressed_since_announce + silent (run derive_identity matches cfg l p).0
  run-surfaced [] p = omega arith
  run-surfaced (Step.notes key ref ∷ l) p =
      omega (arith, run-surfaced l (note_handoff key ref p), note_handoff-cap_suppressed key ref p)
  run-surfaced (Step.evaluates batch now held ∷ l) p =
      let r = evaluate derive_identity matches cfg batch now held p in
      surfaced-step cfg now (run derive_identity matches cfg l r.1).1.cap_suppressed_since_announce
        p r.1 r.0.event_turn (run derive_identity matches cfg l r.1).0
        (evaluate-Paces derive_identity matches cfg batch now held p) (run-surfaced l r.1)
