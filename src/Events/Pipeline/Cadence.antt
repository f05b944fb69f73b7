-- ===== src/Events/Pipeline/Cadence.antt =====
-- The cadence cap of henk/events/pipeline.py over a whole run.
use henk.Base.{
  length-keep, tally-append, ℕ, suc, ◌+◌, ◌≤◌, ◌<◌, ◌≡◌, refl, sym, ap, ◌∙◌, inl, inr, Bool, Option,
  none, some, List, [], ◌∷◌, ◌++◌, Text, ltb, if◌then◌else◌, length, keep, tally, arith, Bool-cases,
}
use henk.Events.{Event, AlertIdentity, EventTurn, EventTurnItem}
use henk.Events.Pipeline.{
  PipelineConfig, EventPipeline, SuppressionRecord, apply_cap, decide, sift, evaluate, note_handoff,
}
use henk.Events.Pipeline.Runs.{Step, IsClock, run}

-- Whether an announcement at `t` counts against the cap at `now`.
abbrev pub counts : ℕ → ℕ → ℕ → Bool
counts window now t = ltb now (t + window)

-- What is forgotten now does not count later.
tally-forget :
    (window now later : ℕ) (l : List ℕ)
    → now ≤ later
    → tally (counts window later) (keep (counts window now) l) ≡ tally (counts window later) l
unfolding keep tally
tally-forget window now later [] h = refl
tally-forget window now later (t ∷ l) h = let ih = tally-forget window now later l h in ground arith

-- One turn, if there is one: whether it is announced, what it surfaces, and the state after it.
abbrev pub Paces :
    {H : Type 0}
    → PipelineConfig
    → ℕ
    → EventPipeline
    → Option (EventTurn H)
    → EventPipeline
    → Type 0
Paces cfg now p none p' =
    (p'.announce_times ≡ p.announce_times)
    × (p'.cap_suppressed_since_announce ≡ p.cap_suppressed_since_announce)
Paces cfg now p (some t) p' =
    let recent = keep (counts cfg.cap_window_seconds now) p.announce_times in
    if t.announceable
    then (length recent < cfg.cap_per_24h)
      × (p'.announce_times ≡ recent ++ now ∷ [])
      × (t.suppressed_count ≡ p.cap_suppressed_since_announce)
      × (p'.cap_suppressed_since_announce ≡ 0)
    else (cfg.cap_per_24h ≤ length recent)
      × (p'.announce_times ≡ recent)
      × (t.suppressed_count ≡ 0)
      × (p'.cap_suppressed_since_announce ≡ suc p.cap_suppressed_since_announce)

-- From `clock` on, the state counts the past announcements.
abbrev Agrees : PipelineConfig → ℕ → List ℕ → EventPipeline → Type 0
Agrees cfg clock past p =
    (t : ℕ)
    → clock ≤ t
    → tally (counts cfg.cap_window_seconds t) p.announce_times
      ≡ tally (counts cfg.cap_window_seconds t) past

note_handoff-announce_times :
    (key ref : Text) (p : EventPipeline)
    → (note_handoff key ref p).announce_times ≡ p.announce_times
unfolding note_handoff
note_handoff-announce_times key [] p = refl
note_handoff-announce_times key (c ∷ ref) p = refl

-- What is kept now agrees with the past from now on.
recent-Agrees :
    (cfg : PipelineConfig) (clock now t : ℕ) (past : List ℕ) (p : EventPipeline)
    → clock ≤ now
    → now ≤ t
    → Agrees cfg clock past p
    → tally
        (counts cfg.cap_window_seconds t)
        (keep (counts cfg.cap_window_seconds now) p.announce_times)
      ≡ tally (counts cfg.cap_window_seconds t) past
recent-Agrees cfg clock now t past p h q a =
    tally-forget cfg.cap_window_seconds now t p.announce_times q ∙ a t (omega arith)

recent-length :
    (cfg : PipelineConfig) (clock now : ℕ) (past : List ℕ) (p : EventPipeline)
    → clock ≤ now
    → Agrees cfg clock past p
    → length (keep (counts cfg.cap_window_seconds now) p.announce_times)
      ≡ tally (counts cfg.cap_window_seconds now) past
recent-length cfg clock now past p h a =
    length-keep (counts cfg.cap_window_seconds now) p.announce_times ∙ a now h

module _ (derive_identity : Event → AlertIdentity) (matches : Text → Text → Bool)
    (cfg : PipelineConfig) {H : Type 0} where
  decide-Paces :
      (now : ℕ) (held : Option H) (sup : List SuppressionRecord) (sur : List EventTurnItem)
      (p : EventPipeline)
      → Paces cfg now p
          (decide derive_identity matches cfg now held sup sur p).0.event_turn
          (decide derive_identity matches cfg now held sup sur p).1
  unfolding decide apply_cap
  decide-Paces now held sup [] p = (refl, refl)
  decide-Paces now held sup (i ∷ is) p =
      elim (Bool-cases (
        ltb (length (keep (counts cfg.cap_window_seconds now) p.announce_times)) cfg.cap_per_24h)) [
          | inl e ↦ rw e (ground arith, refl, refl, refl)
          | inr e ↦ rw e (ground arith, refl, refl, refl)
        ]

  pub evaluate-Paces :
      (batch : List Event) (now : ℕ) (held : Option H) (p : EventPipeline)
      → Paces cfg now p
          (evaluate derive_identity matches cfg batch now held p).0.event_turn
          (evaluate derive_identity matches cfg batch now held p).1
  unfolding evaluate
  evaluate-Paces batch now held p =
      decide-Paces now held (sift derive_identity matches cfg now p [] batch).0
        (sift derive_identity matches cfg now p [] batch).1 p

  -- The announcements of a run, after those before it: each comes while fewer than the cap of the
  -- announcements before it are within the window, and a turn is silent only if the cap is reached.
  abbrev pub IsPaced : List ℕ → List (ℕ × Option (EventTurn H)) → Type 0
  IsPaced past [] = Unit
  IsPaced past ((now, none) ∷ l) = IsPaced past l
  IsPaced past ((now, some t) ∷ l) =
      if t.announceable
      then (tally (counts cfg.cap_window_seconds now) past < cfg.cap_per_24h)
        × IsPaced (past ++ now ∷ []) l
      else (cfg.cap_per_24h ≤ tally (counts cfg.cap_window_seconds now) past) × IsPaced past l

  -- One evaluation, before a rest that is paced whatever past the state agrees with.
  IsPaced-step :
      (clock now : ℕ) (past : List ℕ) (p p' : EventPipeline) (o : Option (EventTurn H))
      (l : List (ℕ × Option (EventTurn H)))
      → clock ≤ now
      → Agrees cfg clock past p
      → Paces cfg now p o p'
      → ((past' : List ℕ) → Agrees cfg now past' p' → IsPaced past' l)
      → IsPaced past ((now, o) ∷ l)
  IsPaced-step clock now past p p' none l h a s rest = rest past (λ t q. rw s.0 (a t (omega arith)))
  IsPaced-step clock now past p p' (some t) l h a s rest = elim (Bool-cases t.announceable) [
    | inl e ↦
        let k = simp e at s in
        let n = recent-length cfg clock now past p h a in
        rw e (
          omega (arith, k.0, n),
          rest (past ++ now ∷ []) (λ u q.
              ap (tally (counts cfg.cap_window_seconds u)) k.1
              ∙ tally-append (counts cfg.cap_window_seconds u)
                  (keep (counts cfg.cap_window_seconds now) p.announce_times) (now ∷ [])
              ∙ ap (λ m. m + tally (counts cfg.cap_window_seconds u) (now ∷ []))
                  (recent-Agrees cfg clock now u past p h q a)
              ∙ sym (tally-append (counts cfg.cap_window_seconds u) past (now ∷ []))),
        )
    | inr e ↦
        let k = simp e at s in
        let n = recent-length cfg clock now past p h a in
        rw e (
          omega (arith, k.0, n),
          rest past (λ u q.
              ap (tally (counts cfg.cap_window_seconds u)) k.1
              ∙ recent-Agrees cfg clock now u past p h q a),
        )
  ]

  run-IsPaced_from :
      (clock : ℕ) (past : List ℕ) (l : List (Step H)) (p : EventPipeline)
      → IsClock clock l
      → Agrees cfg clock past p
      → IsPaced past (run derive_identity matches cfg l p).0
  run-IsPaced_from clock past [] p h a = tt
  run-IsPaced_from clock past (Step.notes key ref ∷ l) p h a =
      run-IsPaced_from clock past l (note_handoff key ref p) h
        (λ t q. rw (note_handoff-announce_times key ref p) (a t q))
  run-IsPaced_from clock past (Step.evaluates batch now held ∷ l) p h a =
      let r = evaluate derive_identity matches cfg batch now held p in
      IsPaced-step clock now past p r.1 r.0.event_turn (run derive_identity matches cfg l r.1).0 h.0
        a (evaluate-Paces batch now held p) (λ past' q. run-IsPaced_from now past' l r.1 h.1 q)

  -- In every run whose clock does not go back, from any state, each turn is announced exactly when
  -- fewer than the cap of the announcements before it, those of the state included, are within the
  -- cap's window: so no window ever holds more than the cap, and no turn is silenced before that.
  pub run-IsPaced :
      (clock : ℕ) (l : List (Step H)) (p : EventPipeline)
      → IsClock clock l
      → IsPaced p.announce_times (run derive_identity matches cfg l p).0
  run-IsPaced clock l p h = run-IsPaced_from clock p.announce_times l p h (λ t q. refl)
