-- ===== src/Events/Pipeline/Spacing.antt =====
-- The cooldown of henk/events/pipeline.py over a whole run.
use henk.Base.{
  get_key, ℕ, ◌+◌, ◌≤◌, ◌≡◌, refl, sym, ap, subst, inl, inr, Bool, true, false, not, ◌&&◌, Option,
  none, some, List, [], ◌∷◌, Text, ltb, if◌then◌else◌, arith, Bool-cases,
}
use henk.Events.{Event, AlertIdentity, EventTurn}
use henk.Events.Pipeline.{
  PipelineConfig, EventPipeline, cooldown_for, within, evaluate, note_handoff,
}
use henk.Events.Pipeline.Runs.{Step, run}
use henk.Events.Pipeline.Once.{survived, items_of, once, mentions, evaluate-Decides}

-- The instants of the turns that carry the key.
abbrev pub times_of : {H : Type 0} → Text → List (ℕ × Option (EventTurn H)) → List ℕ
times_of k [] = []
times_of k ((now, t) ∷ l) =
    let rest = times_of k l in if ltb 0 (survived k (items_of t)) then now ∷ rest else rest

-- Each instant comes at least the cooldown after the one before it.
abbrev pub IsSpaced : ℕ → Option ℕ → List ℕ → Type 0
IsSpaced d last [] = Unit
IsSpaced d none (t ∷ ts) = IsSpaced d (some t) ts
IsSpaced d (some last) (t ∷ ts) = (last + d ≤ t) × IsSpaced d (some t) ts

IsSpaced-next :
    (d now : ℕ) (last : Option ℕ) (ts : List ℕ)
    → within d now last ≡ false
    → IsSpaced d (some now) ts
    → IsSpaced d last (now ∷ ts)
IsSpaced-next d now none ts h k = k
IsSpaced-next d now (some last) ts h k = (ground arith, k)

-- One evaluation before the rest of the run.
IsSpaced-step :
    (d now n : ℕ) (last last' : Option ℕ) (mentioned : Bool) (rest : List ℕ)
    → n ≡ once (mentioned && not (within d now last))
    → last' ≡ (if mentioned && not (within d now last) then some now else last)
    → IsSpaced d last' rest
    → IsSpaced d last (if ltb 0 n then now ∷ rest else rest)
IsSpaced-step d now n last last' mentioned rest hn hl k =
    elim (Bool-cases (mentioned && not (within d now last))) [
      | inl e ↦
          let pos : ltb 0 n ≡ true = ground arith in
          let here : last' ≡ some now = ground arith in
          rw pos
            (IsSpaced-next d now last rest (ground arith) (subst (λ o. IsSpaced d o rest) here k))
      | inr e ↦
          let zero : ltb 0 n ≡ false = ground arith in
          let here : last' ≡ last = ground arith in rw zero (subst (λ o. IsSpaced d o rest) here k)
    ]

note_handoff-last_triaged :
    (key ref : Text) (p : EventPipeline) → (note_handoff key ref p).last_triaged ≡ p.last_triaged
unfolding note_handoff
note_handoff-last_triaged key [] p = refl
note_handoff-last_triaged key (c ∷ ref) p = refl

module _ (derive_identity : Event → AlertIdentity) (matches : Text → Text → Bool)
    (cfg : PipelineConfig) {H : Type 0} where
  -- In every run, from any state, the turns that carry an identity are at least the cooldown of its
  -- key apart, and the first comes at least the cooldown after its last triage before the run.
  pub run-IsSpaced :
      (k : Text) (l : List (Step H)) (p : EventPipeline)
      → IsSpaced
          (cooldown_for matches cfg k)
          (get_key k p.last_triaged)
          (times_of k (run derive_identity matches cfg l p).0)
  run-IsSpaced k [] p = tt
  run-IsSpaced k (Step.notes key ref ∷ l) p =
      rw (sym (ap (get_key k) (note_handoff-last_triaged key ref p)))
        (run-IsSpaced k l (note_handoff key ref p))
  run-IsSpaced k (Step.evaluates batch now held ∷ l) p =
      let r = evaluate derive_identity matches cfg batch now held p in
      let d = evaluate-Decides derive_identity matches cfg now p k batch held in
      let ih = run-IsSpaced k l r.1 in
      IsSpaced-step (cooldown_for matches cfg k) now (survived k (items_of r.0.event_turn))
        (get_key k p.last_triaged) (get_key k r.1.last_triaged)
        (mentions derive_identity matches k batch)
        (times_of k (run derive_identity matches cfg l r.1).0) d.1 d.2 ih
