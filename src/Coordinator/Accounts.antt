-- ===== src/Coordinator/Accounts.antt =====
-- Where each event of a batch goes that henk/events/coordinator.py dispatches, and what is submitted
-- for the batch.
use henk.Base.{
  ℕ, ◌<◌, ◌≡◌, ◌≢◌, refl, sym, ap, subst, ◌⊎◌, inl, inr, Bool, true, false, not, ◌&&◌, Option, none,
  some, List, [], ◌∷◌, Text, ◌==◌, length, keep, tally, arith, Bool-cases, Option-cases, All,
  All-map, In, text_eq, text_eq_refl,
}
use henk.Events.{Event, AlertIdentity, EventTurn, EventTurnItem}
use henk.Events.Pipeline.{
  PipelineConfig, EventPipeline, SuppressionRecord, BatchDecision, evaluate, cooled,
}
use henk.Events.Pipeline.Once.{suppressed, survived, items_of, mentions, evaluate-Decides}
use henk.Holds.{MaintenanceWindow}
use henk.Holds.Table.{HoldTables, is_known}
use henk.Holds.Ledger.{HoldLedger, HoldResult, hold_event, publish_time}
use henk.Holds.Ledger.Kept.{Knows, hold_event-Knows, hold_event-Took}
use henk.Coordinator.{
  HeldRelease, CoreItem, Coordinator, Environment, goes_on, last_id, partition, partition_holds,
  all_persisted, conclude_dispatch, dispatch_batch,
}

-- Held, or handed on
abbrev pub IsSorted : List Event → HoldTables → Event → Type 0
IsSorted survivors t e = In e survivors ⊎ (is_known t e.id ≡ true)

IsSorted-cons :
    (a e : Event) (l : List Event) (t : HoldTables) → IsSorted l t e → IsSorted (a ∷ l) t e
IsSorted-cons a e l t (inl h) = inl (inr h)
IsSorted-cons a e l t (inr h) = inr h

abbrev Partitions : List Event → HoldLedger → List Event × HoldLedger → Type 0
Partitions batch l (survivors, l') =
    Knows l.store l'.store × All (IsSorted survivors l'.store) batch

handed_on :
    (e : Event) (es : List Event) (l : HoldLedger) (x : List Event × HoldLedger)
    → Partitions es l x
    → Partitions (e ∷ es) l (e ∷ x.0, x.1)
handed_on e es l x p = (
  p.0,
  (
    inl (inl refl),
    All-map (IsSorted x.0 x.1.store) (IsSorted (e ∷ x.0) x.1.store) es
        (λ a q. IsSorted-cons e a x.0 x.1.store q) p.1,
  ),
)

dropped :
    (e : Event) (es : List Event) (l : HoldLedger) (x : List Event × HoldLedger)
    → is_known l.store e.id ≡ true
    → Partitions es l x
    → Partitions (e ∷ es) l x
dropped e es l x k p = (p.0, (inr (p.0 e.id k), p.1))

goes_on-Partitions :
    (e : Event) (es : List Event) (l l₁ : HoldLedger) (r : HoldResult) (x : List Event × HoldLedger)
    → Knows l.store l₁.store
    → (r ≢ HoldResult.not_held → is_known l₁.store e.id ≡ true)
    → Partitions es l₁ x
    → Partitions (e ∷ es) l (goes_on e r x.0, x.1)
goes_on-Partitions e es l l₁ HoldResult.not_held x k t p =
    (λ id h. p.0 id (k id h), (handed_on e es l₁ x p).1)
goes_on-Partitions e es l l₁ HoldResult.held x k t p =
    (λ id h. p.0 id (k id h), (inr (p.0 e.id (t (λ q. cc))), p.1))
goes_on-Partitions e es l l₁ HoldResult.duplicate x k t p =
    (λ id h. p.0 id (k id h), (inr (p.0 e.id (t (λ q. cc))), p.1))

module _ (derive_identity : Event → AlertIdentity) (matches : Text → Text → Bool)
    (cfg : PipelineConfig) (env : Environment) where
  partition-Partitions :
      (known : Text → Bool) (batch : List Event) (l : HoldLedger)
      → ((id : Text) → known id ≡ true → is_known l.store id ≡ true)
      → Partitions batch l (partition derive_identity matches cfg env known batch l)
  unfolding partition
  partition-Partitions known [] l h = (λ id q. q, tt)
  partition-Partitions known (e ∷ es) l h =
      let skip = partition-Partitions known es l h in
      let pass = λ (active : ℕ → List MaintenanceWindow).
        let x =
          hold_event derive_identity (env.hold_fails e) (env.held_at e) e (publish_time e)
            (active (publish_time e)) l in
        let k =
          hold_event-Knows derive_identity (env.hold_fails e) (env.held_at e) e (publish_time e)
            (active (publish_time e)) l in
        goes_on-Partitions e es l x.1 x.0 (partition derive_identity matches cfg env known es x.1) k
          (hold_event-Took derive_identity (env.hold_fails e) (env.held_at e) e (publish_time e)
            (active (publish_time e)) l)
          (partition-Partitions known es x.1 (λ id q. k id (h id q))) in
      let rest = partition derive_identity matches cfg env known es l in
      elim (Bool-cases (not (length e.id == 0) && known e.id)) [
        | inl q ↦
            let now : partition derive_identity matches cfg env known (e ∷ es) l ≡ rest =
              rw (q, partition) refl in
            subst (Partitions (e ∷ es) l) (sym now)
              (dropped e es l rest (h e.id (ground arith)) skip)
        | inr q ↦ elim (Option-cases env.active) [
          | inl w ↦
              let now : partition derive_identity matches cfg env known (e ∷ es) l
                  ≡ (e ∷ rest.0, rest.1) =
                rw (q, partition, w) refl in
              subst (Partitions (e ∷ es) l) (sym now) (handed_on e es l rest skip)
          | inr (active, w) ↦
              let x =
                hold_event derive_identity (env.hold_fails e) (env.held_at e) e (publish_time e)
                  (active (publish_time e)) l in
              let later = partition derive_identity matches cfg env known es x.1 in
              let now : partition derive_identity matches cfg env known (e ∷ es) l
                  ≡ (goes_on e x.0 later.0, later.1) =
                rw (q, partition, w) refl in
              subst (Partitions (e ∷ es) l) (sym now) (pass active)
        ]
      ]

  -- What a submission has of an event: its row is held, or its identity is in the turn, or its
  -- identity was suppressed, with a record that was persisted if the batch has no turn.
  abbrev pub IsDurable : List SuppressionRecord → HoldTables → Event → Type 0
  IsDurable sup t e =
      (is_known t e.id ≡ true) ⊎ (0 < suppressed (derive_identity e).key (keep env.persists sup))

  abbrev pub IsAccounted : List SuppressionRecord → HoldTables → List EventTurnItem → Event → Type 0
  IsAccounted sup t items e =
      (is_known t e.id ≡ true)
      ⊎ ((0 < survived (derive_identity e).key items)
          ⊎ (0 < suppressed (derive_identity e).key sup))

  -- A turn accounts for every event of its batch; a marker is of the batch's last event, and every
  -- event is durable; and nothing is submitted only for no batch or where a record was not persisted.
  abbrev pub Accounts : List Event → List SuppressionRecord → HoldTables → Option CoreItem → Type 0
  Accounts batch sup t (some (CoreItem.turn turn offset)) =
      (offset ≡ last_id batch) × All (IsAccounted sup t turn.items) batch
  Accounts batch sup t (some (CoreItem.marker id)) =
      (last_id batch ≡ some id) × All (IsDurable sup t) batch
  Accounts batch sup t none =
      (last_id batch ≡ none) ⊎ (all_persisted derive_identity matches cfg env sup ≡ false)

  keep_all :
      (sup : List SuppressionRecord)
      → all_persisted derive_identity matches cfg env sup ≡ true
      → keep env.persists sup ≡ sup
  unfolding all_persisted keep
  keep_all [] h = refl
  keep_all (s ∷ l) h = let ih = keep_all l in ground arith

  IsDurable_lem :
      (sup : List SuppressionRecord) (t : HoldTables) (e : Event)
      → keep env.persists sup ≡ sup
      → IsAccounted sup t [] e
      → IsDurable sup t e
  IsDurable_lem sup t e k (inl h) = inl h
  IsDurable_lem sup t e k (inr (inl h)) = absurd (unfold tally in omega (arith, h))
  IsDurable_lem sup t e k (inr (inr h)) = inr (rw k h)

  conclude-Accounts :
      (batch : List Event) (sup : List SuppressionRecord) (t : HoldTables)
      (o : Option (EventTurn HeldRelease)) (offset : Option Text)
      → last_id batch ≡ offset
      → All (IsAccounted sup t (items_of o)) batch
      → Accounts batch sup t (
          conclude_dispatch derive_identity matches cfg env offset
            (all_persisted derive_identity matches cfg env sup)
            o)
  unfolding conclude_dispatch
  conclude-Accounts batch sup t (some turn) offset q h = (sym q, h)
  conclude-Accounts batch sup t none none q h = inl q
  conclude-Accounts batch sup t none (some id) q h =
      elim (Bool-cases (all_persisted derive_identity matches cfg env sup)) [
        | inl w ↦ rw w (
          q,
          All-map (IsAccounted sup t []) (IsDurable sup t) batch
              (λ e a. IsDurable_lem sup t e (keep_all sup w) a) h,
        )
        | inr w ↦ rw w (inr w)
      ]

  In-mentions :
      (e : Event) (l : List Event)
      → In e l
      → mentions derive_identity matches (derive_identity e).key l ≡ true
  In-mentions e [] h = absurd h
  In-mentions e (f ∷ l) (inl h) =
      let k = ap (λ (x : Event). text_eq (derive_identity e).key (derive_identity x).key) h in
      let r = text_eq_refl (derive_identity e).key in ground arith
  In-mentions e (f ∷ l) (inr h) = let ih = In-mentions e l h in ground arith

  -- The decision of the pipeline on what is handed on.
  abbrev pub decision : List Event → ℕ → EventPipeline → BatchDecision HeldRelease
  decision survivors now p = (evaluate derive_identity matches cfg survivors now none p).0

  decided :
      (survivors : List Event) (now : ℕ) (p : EventPipeline) (t : HoldTables) (e : Event)
      → IsSorted survivors t e
      → IsAccounted
          (decision survivors now p).suppressions
          t
          (items_of (decision survivors now p).event_turn)
          e
  decided survivors now p t e (inr h) = inl h
  decided survivors now p t e (inl h) =
      let d =
        evaluate-Decides derive_identity matches cfg now p {H = HeldRelease} (derive_identity e).key
          survivors none in
      let m = In-mentions e survivors h in
      elim (Bool-cases (cooled derive_identity matches cfg now p (derive_identity e).key)) [
        | inl q ↦ inr (inr (ground arith))
        | inr q ↦ inr (inl (ground arith))
      ]

  -- For every batch, clock, state and environment, what `dispatch_batch` submits is right: a turn
  -- carries the batch's last id, and every event of the batch is held, or in the turn by its
  -- identity, or suppressed; a marker carries that id too, and every event is held or has a
  -- persisted suppression record, so the checkpoint never passes an event that is not durable; and
  -- it submits nothing only for an empty batch or where a suppression record was not persisted.
  pub dispatch_batch-Accounts :
      (batch : List Event) (now : ℕ) (c : Coordinator)
      → Accounts batch
          (decision
            (partition_holds derive_identity matches cfg env batch c.ledger).0
            now
            c.pipeline).suppressions
          (dispatch_batch derive_identity matches cfg env batch now c).1.ledger.store
          (dispatch_batch derive_identity matches cfg env batch now c).0
  unfolding dispatch_batch partition_holds
  dispatch_batch-Accounts batch now c =
      let known = λ (id : Text). not env.read_fails && is_known c.ledger.store id in
      let (survivors, l) = partition derive_identity matches cfg env known batch c.ledger in
      let p = partition-Partitions known batch c.ledger (λ id q. ground arith) in
      let d = decision survivors now c.pipeline in
      conclude-Accounts batch d.suppressions l.store d.event_turn (last_id batch) refl (
        All-map (IsSorted survivors l.store)
          (IsAccounted d.suppressions l.store (items_of d.event_turn)) batch
          (λ e q. decided survivors now c.pipeline l.store e q) p.1)
