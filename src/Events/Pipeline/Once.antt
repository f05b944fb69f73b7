-- ===== src/Events/Pipeline/Once.antt =====
-- The decision of `evaluate` of henk/events/pipeline.py on each identity of a batch.
use henk.Base.{
  get_key, set_key, has_key, get_key-set_key, ℕ, ◌≡◌, refl, ap, ◌∙◌, inl, inr, Bool, false, not,
  ◌&&◌, ◌||◌, Option, none, some, List, [], ◌∷◌, Text, text_eq, text_eq_sound, ltb, if◌then◌else◌,
  tally, arith, Bool-cases,
}
use henk.Events.{Event, AlertIdentity, EventTurnItem, EventTurn}
use henk.Events.Pipeline.{
  PipelineConfig, SuppressionRecord, BatchDecision, EventPipeline, cooled, suppression, survivor,
  sift, mark_triaged, apply_cap, decide, evaluate,
}

abbrev pub once : Bool → ℕ
once b = if b then 1 else 0

abbrev pub suppressed : Text → List SuppressionRecord → ℕ
suppressed k l = tally (λ (s : SuppressionRecord). text_eq k s.identity_key) l

abbrev pub survived : Text → List EventTurnItem → ℕ
survived k l = tally (λ (i : EventTurnItem). text_eq k i.identity.key) l

-- The items of a turn, if there is one.
abbrev pub items_of : {H : Type 0} → Option (EventTurn H) → List EventTurnItem
items_of none = []
items_of (some t) = t.items

module _ (derive_identity : Event → AlertIdentity) (matches : Text → Text → Bool) where
  -- Whether an event of the batch has the key.
  abbrev pub mentions : Text → List Event → Bool
  mentions k [] = false
  mentions k (e ∷ es) = text_eq k (derive_identity e).key || mentions k es

  get_key-mark_triaged :
      (k : Text) (now : ℕ) (is : List EventTurnItem) (l : List (Text × ℕ))
      → get_key k (mark_triaged derive_identity matches now is l)
        ≡ (if ltb 0 (survived k is) then some now else get_key k l)
  unfolding mark_triaged tally
  get_key-mark_triaged k now [] l = refl
  get_key-mark_triaged k now (i ∷ is) l =
      get_key-mark_triaged k now is (set_key i.identity.key now l)
      ∙ ground (arith, get_key-set_key k i.identity.key now l)

  module _ (cfg : PipelineConfig) (now : ℕ) (p : EventPipeline) where
    abbrev Sifted :
        Text → List Text → List Event → List SuppressionRecord × List EventTurnItem → Type 0
    Sifted k seen es r =
        (suppressed k r.0
          ≡ once
              (not (has_key k seen) && mentions k es && cooled derive_identity matches cfg now p k))
        × (survived k r.1
            ≡ once (
                not (has_key k seen)
                && mentions k es
                && not (cooled derive_identity matches cfg now p k)))

    -- One round of the loop, over the results that it may go on from.
    round-Sifted :
        (k : Text) (seen : List Text) (e : Event) (es : List Event)
        (skipped next : List SuppressionRecord × List EventTurnItem)
        → Sifted k seen es skipped
        → Sifted k ((derive_identity e).key ∷ seen) es next
        → Sifted k seen (e ∷ es) (
            if has_key (derive_identity e).key seen
            then skipped
            else if cooled derive_identity matches cfg now p (derive_identity e).key
            then (suppression derive_identity matches now e ∷ next.0, next.1)
            else (next.0, survivor derive_identity matches cfg now p e ∷ next.1))
    unfolding tally has_key
    round-Sifted k seen e es skipped next hs hn =
        elim (Bool-cases (text_eq k (derive_identity e).key)) [
          | inl q ↦
              let v = text_eq_sound k (derive_identity e).key q in
              let s = ap (λ t. has_key t seen) v in
              let c = ap (λ t. cooled derive_identity matches cfg now p t) v in
              (ground arith, ground arith)
          | inr q ↦ (ground arith, ground arith)
        ]

    sift-Sifted :
        (k : Text) (seen : List Text) (es : List Event)
        → Sifted k seen es (sift derive_identity matches cfg now p seen es)
    unfolding sift
    sift-Sifted k seen [] = (unfold tally in ground arith, unfold tally in ground arith)
    sift-Sifted k seen (e ∷ es) =
        round-Sifted k seen e es (sift derive_identity matches cfg now p seen es)
          (sift derive_identity matches cfg now p ((derive_identity e).key ∷ seen) es)
          (sift-Sifted k seen es) (sift-Sifted k ((derive_identity e).key ∷ seen) es)

    -- What `evaluate` decides of one key.
    abbrev pub Decides : {H : Type 0} → Text → List Event → BatchDecision H × EventPipeline → Type 0
    Decides k batch (d, p') =
        let is_cooled = cooled derive_identity matches cfg now p k in
        (suppressed k d.suppressions ≡ once (mentions k batch && is_cooled))
        × (survived k (items_of d.event_turn) ≡ once (mentions k batch && not is_cooled))
        × (get_key k p'.last_triaged
            ≡ (if mentions k batch && not is_cooled then some now else get_key k p.last_triaged))

    apply_cap-last_triaged :
        (q : EventPipeline) → (apply_cap cfg now q).1.last_triaged ≡ q.last_triaged
    unfolding apply_cap
    apply_cap-last_triaged q = ground arith

    decide-Decides :
        {H : Type 0}
        → (k : Text) (batch : List Event) (held : Option H) (sup : List SuppressionRecord)
          (sur : List EventTurnItem)
        → (suppressed k sup ≡ once (mentions k batch && cooled derive_identity matches cfg now p k))
        → (survived k sur
            ≡ once (mentions k batch && not (cooled derive_identity matches cfg now p k)))
        → Decides k batch (decide derive_identity matches cfg now held sup sur p)
    unfolding decide
    decide-Decides k batch held sup [] hs hn = (hs, hn, unfold tally in ground arith)
    decide-Decides k batch held sup (i ∷ is) hs hn =
        let marked : EventPipeline = record p {
          last_triaged = mark_triaged derive_identity matches now (i ∷ is) p.last_triaged;
        } in
        (
          hs,
          hn,
          ap (get_key k) (apply_cap-last_triaged marked)
              ∙ get_key-mark_triaged k now (i ∷ is) p.last_triaged
              ∙ ground arith,
        )

    -- For every batch and every key, `evaluate` suppresses the key once where the batch mentions it
    -- and it was triaged within its cooldown, puts it in the turn once where the batch mentions it
    -- and it was not, and does neither otherwise; its last triage is then now exactly where it is
    -- in the turn, and else what it was.
    pub evaluate-Decides :
        {H : Type 0}
        → (k : Text) (batch : List Event) (held : Option H)
        → Decides k batch (evaluate derive_identity matches cfg batch now held p)
    unfolding evaluate has_key
    evaluate-Decides k batch held =
        let s = sift-Sifted k [] batch in
        decide-Decides k batch held (sift derive_identity matches cfg now p [] batch).0
          (sift derive_identity matches cfg now p [] batch).1 s.0 s.1
