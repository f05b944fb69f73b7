-- ===== src/Events/Pipeline.antt =====
-- `EventPipeline` of henk/events/pipeline.py: cooldown, recurrence and the cadence cap over one
-- batch. Instants and durations are naturals of one unit, so `now - last < d` reads
-- `now < last + d`. What gives an event its identity (henk/events/identity.py) and whether a
-- pattern matches a key (`re.search`, ignoring case) are parameters. An override carries its
-- cooldown, as the source's `override["cooldown_seconds"]` asks for. `rehydrate` is not modelled.
pub mod Runs
pub mod Once
pub mod Cadence
pub mod Spacing
pub mod Surfaced
use henk.Base.{
  get_key, set_key, has_key, get_key-set_key, ℕ, suc, ◌+◌, Bool, true, false, not, ◌&&◌, Option,
  none, some, List, [], ◌∷◌, ◌++◌, Text, text_eq, ltb, if◌then◌else◌, length, keep,
}
use henk.Events.{Event, AlertIdentity, EventTurnItem, EventTurn}

pub record Override : Type 0 where
  pub pattern : Option Text
  pub cooldown : ℕ

-- `debounce_seconds` is the debouncer's window.
pub record PipelineConfig : Type 0 where
  pub cooldown_seconds : ℕ
  pub recurrence_window_seconds : ℕ
  pub cap_per_24h : ℕ
  pub cap_window_seconds : ℕ
  pub cooldown_overrides : List Override

pub record SuppressionRecord : Type 0 where
  pub identity_key : Text
  pub event_id : Text
  pub at : ℕ

pub record BatchDecision (HeldRelease : Type 0) : Type 0 where
  pub event_turn : Option (EventTurn HeldRelease)
  pub suppressions : List SuppressionRecord

pub record EventPipeline : Type 0 where
  pub last_triaged : List (Text × ℕ)
  pub last_handoff_ref : List (Text × Text)
  pub announce_times : List ℕ
  pub cap_suppressed_since_announce : ℕ

abbrev pub new_pipeline : EventPipeline
new_pipeline = record {
  last_triaged = [];
  last_handoff_ref = [];
  announce_times = [];
  cap_suppressed_since_announce = 0;
}

-- `note_handoff`: an empty reference is not recorded.
unfoldable pub note_handoff : Text → Text → EventPipeline → EventPipeline
note_handoff key [] p = p
note_handoff key (c ∷ ref) p = record p {
  last_handoff_ref = set_key key (c ∷ ref) p.last_handoff_ref;
}

-- `(now - last) < d`, for a `last` that may be missing
abbrev pub within : ℕ → ℕ → Option ℕ → Bool
within d now none = false
within d now (some last) = ltb now (last + d)

module _ (matches : Text → Text → Bool) where
  abbrev pub applies : Text → Option Text → Bool
  applies key none = false
  applies key (some []) = false
  applies key (some (c ∷ pattern)) = matches (c ∷ pattern) key

  abbrev pub first_override : Text → ℕ → List Override → ℕ
  first_override key default [] = default
  first_override key default (o ∷ l) =
      let rest = first_override key default l in if applies key o.pattern then o.cooldown else rest

  -- `_cooldown_for`
  abbrev pub cooldown_for : PipelineConfig → Text → ℕ
  cooldown_for cfg key = first_override key cfg.cooldown_seconds cfg.cooldown_overrides

-- `_apply_cap`
unfoldable pub apply_cap : PipelineConfig → ℕ → EventPipeline → (Bool × ℕ) × EventPipeline
apply_cap cfg now p =
    let recent = keep (λ t. ltb now (t + cfg.cap_window_seconds)) p.announce_times in
    if ltb (length recent) cfg.cap_per_24h
    then (
      (true, p.cap_suppressed_since_announce),
      record p { announce_times = recent ++ now ∷ []; cap_suppressed_since_announce = 0 },
    )
    else (
      (false, 0),
      record p {
        announce_times = recent;
        cap_suppressed_since_announce = suc p.cap_suppressed_since_announce;
      },
    )

module _ (derive_identity : Event → AlertIdentity) (matches : Text → Text → Bool) where
  -- `evaluate` of one event whose key was not seen: a suppression or a survivor.
  abbrev pub cooled : PipelineConfig → ℕ → EventPipeline → Text → Bool
  cooled cfg now p key = within (cooldown_for matches cfg key) now (get_key key p.last_triaged)

  abbrev pub recurs : PipelineConfig → ℕ → EventPipeline → Text → Bool
  recurs cfg now p key = within cfg.recurrence_window_seconds now (get_key key p.last_triaged)

  abbrev pub suppression : ℕ → Event → SuppressionRecord
  suppression now e = record { identity_key = (derive_identity e).key; event_id = e.id; at = now }

  abbrev pub survivor : PipelineConfig → ℕ → EventPipeline → Event → EventTurnItem
  survivor cfg now p e =
      let recurrence = recurs cfg now p (derive_identity e).key in
      record {
        event = e;
        identity = derive_identity e;
        recurrence = recurrence;
        prior_handoff_ref =
            if recurrence then get_key (derive_identity e).key p.last_handoff_ref else none;
      }

  -- The loop of `evaluate`: the suppressions and the survivors, with the keys seen so far.
  unfoldable pub sift :
      PipelineConfig
      → ℕ
      → EventPipeline
      → List Text
      → List Event
      → List SuppressionRecord × List EventTurnItem
  sift cfg now p seen [] = ([], [])
  sift cfg now p seen (e ∷ es) =
      let key = (derive_identity e).key in
      let skipped = sift cfg now p seen es in
      let (sup, sur) = sift cfg now p (key ∷ seen) es in
      if has_key key seen
      then skipped
      else if cooled cfg now p key
      then (suppression now e ∷ sup, sur)
      else (sup, survivor cfg now p e ∷ sur)

  -- The survivors' times of triage.
  unfoldable pub mark_triaged : ℕ → List EventTurnItem → List (Text × ℕ) → List (Text × ℕ)
  mark_triaged now [] l = l
  mark_triaged now (i ∷ is) l = mark_triaged now is (set_key i.identity.key now l)

  module _ {HeldRelease : Type 0} where
    -- `evaluate` once the batch is sifted.
    unfoldable pub decide :
        PipelineConfig
        → ℕ
        → Option HeldRelease
        → List SuppressionRecord
        → List EventTurnItem
        → EventPipeline
        → BatchDecision HeldRelease × EventPipeline
    decide cfg now held sup [] p = (record { event_turn = none; suppressions = sup }, p)
    decide cfg now held sup (i ∷ is) p =
        let marked : EventPipeline = record p {
          last_triaged = mark_triaged now (i ∷ is) p.last_triaged;
        } in
        let (cap, p') = apply_cap cfg now marked in
        (
          record {
            event_turn = some (record {
              items = i ∷ is;
              announceable = cap.0;
              suppressed_count = cap.1;
              held_release = held;
            });
            suppressions = sup;
          },
          p',
        )

    unfoldable pub evaluate :
        PipelineConfig
        → List Event
        → ℕ
        → Option HeldRelease
        → EventPipeline
        → BatchDecision HeldRelease × EventPipeline
    evaluate cfg batch now held p =
        let (sup, sur) = sift cfg now p [] batch in decide cfg now held sup sur p
