-- ===== src/Coordinator.antt =====
-- `EventCoordinator` of henk/events/coordinator.py: one dispatched batch, and the submission of a
-- release. A hold ledger and an audit log are configured. What the store, the audit log, the clock
-- and the calendar do while a batch is classified is given by an environment.
pub mod Accounts
pub mod Stepping
pub mod CatchUp
pub mod Release
mod Examples
use henk.Base.{
  ℕ, Bool, true, false, not, ◌||◌, ◌&&◌, Option, none, some, List, [], ◌∷◌, ◌++◌, map, Text, ◌==◌,
  if◌then◌else◌, length, keep,
}
use henk.Events.{Event, AlertIdentity, EventTurn, EventTurnItem}
use henk.Events.Pipeline.{PipelineConfig, EventPipeline, SuppressionRecord, BatchDecision, evaluate}
use henk.Holds.{MaintenanceWindow}
use henk.Holds.Table.{HoldTables, is_known}
use henk.Holds.Ledger.{HoldLedger, HoldResult, hold_event, publish_time, begin_release}

-- `HeldRelease` of henk/agent/turns.py
pub record HeldRelease : Type 0 where
  pub window_id : Text
  pub title : Text
  pub start : ℕ
  pub end_with_grace : ℕ
  pub held : ℕ
  pub recovered : ℕ
  pub hold_age_seconds : ℕ

-- What the core is given, in order: a turn with its offset, or a marker.
pub data CoreItem : Type 0 where
  turn : EventTurn HeldRelease → Option Text → CoreItem
  marker : Text → CoreItem

pub record Coordinator : Type 0 where
  pub pipeline : EventPipeline
  pub ledger : HoldLedger
  pub audited : List SuppressionRecord
  pub core : List CoreItem

-- Whether reading the held ids raises, and for each event whether its hold does, and when; which
-- suppression records the audit log persists; and the windows active at an instant, none where no
-- calendar is configured.
pub record Environment : Type 0 where
  pub read_fails : Bool
  pub hold_fails : Event → Bool
  pub held_at : Event → ℕ
  pub persists : SuppressionRecord → Bool
  pub active : Option (ℕ → List MaintenanceWindow)

-- What a hold leaves of the rest of the batch.
abbrev pub goes_on : Event → HoldResult → List Event → List Event
goes_on e HoldResult.not_held l = e ∷ l
goes_on e HoldResult.held l = l
goes_on e HoldResult.duplicate l = l

-- `batch[-1].id`
abbrev pub last_id : List Event → Option Text
last_id [] = none
last_id (e ∷ []) = some e.id
last_id (e ∷ f ∷ l) = last_id (f ∷ l)

module _ (derive_identity : Event → AlertIdentity) (matches : Text → Text → Bool)
    (cfg : PipelineConfig) (env : Environment) where
  -- The loop of `_partition_holds`; `known` are the ids held when the batch was taken up.
  unfoldable pub partition : (Text → Bool) → List Event → HoldLedger → List Event × HoldLedger
  partition known [] ledger = ([], ledger)
  partition known (e ∷ es) ledger =
      let skipped = partition known es ledger in
      let passed : (ℕ → List MaintenanceWindow) → List Event × HoldLedger = λ active.
        let (r, l) =
          hold_event derive_identity (env.hold_fails e) (env.held_at e) e (publish_time e)
            (active (publish_time e)) ledger in
        let (rest, l') = partition known es l in (goes_on e r rest, l') in
      if not (length e.id == 0) && known e.id
      then skipped
      else elim env.active [ none ↦ (e ∷ skipped.0, skipped.1) | some active ↦ passed active ]

  -- `_partition_holds`
  unfoldable pub partition_holds : List Event → HoldLedger → List Event × HoldLedger
  partition_holds batch ledger =
      partition (λ id. not env.read_fails && is_known ledger.store id) batch ledger

  -- `_write_suppressions`: whether every record was persisted
  unfoldable pub all_persisted : List SuppressionRecord → Bool
  all_persisted [] = true
  all_persisted (s ∷ l) = env.persists s && all_persisted l

  -- The end of `dispatch_batch`.
  unfoldable pub conclude_dispatch :
      Option Text → Bool → Option (EventTurn HeldRelease) → Option CoreItem
  conclude_dispatch offset durable (some t) = some (CoreItem.turn t offset)
  conclude_dispatch none durable none = none
  conclude_dispatch (some id) durable none = if durable then some (CoreItem.marker id) else none

  abbrev pub submitted : Option CoreItem → List CoreItem
  submitted none = []
  submitted (some i) = i ∷ []

  unfoldable pub dispatch_batch : List Event → ℕ → Coordinator → Option CoreItem × Coordinator
  dispatch_batch batch now c =
      let (survivors, ledger') = partition_holds batch c.ledger in
      let (d, p') = evaluate derive_identity matches cfg survivors now none c.pipeline in
      let item = conclude_dispatch (last_id batch) (all_persisted d.suppressions) d.event_turn in
      (
        item,
        record {
          pipeline = p';
          ledger = ledger';
          audited = c.audited ++ keep env.persists d.suppressions;
          core = c.core ++ submitted item;
        },
      )

  -- The end of `submit_release`: the window is in flight before the turn is submitted.
  unfoldable pub conclude_release :
      HeldRelease → Option (EventTurn HeldRelease) → Coordinator → Bool × Coordinator
  conclude_release release none c = (false, c)
  conclude_release release (some t) c = (
    true,
    record c {
      ledger =
          begin_release release.window_id (map (λ (i : EventTurnItem). i.identity.key) t.items)
            c.ledger;
      core = c.core ++ CoreItem.turn t none ∷ [];
    },
  )

  unfoldable pub submit_release : List Event → HeldRelease → ℕ → Coordinator → Bool × Coordinator
  submit_release events release now c =
      let (d, p') = evaluate derive_identity matches cfg events now (some release) c.pipeline in
      conclude_release release d.event_turn
        (record c { pipeline = p'; audited = c.audited ++ keep env.persists d.suppressions })
