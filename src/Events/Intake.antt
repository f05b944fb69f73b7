-- ===== src/Events/Intake.antt =====
-- `EventIntake` of henk/events/intake.py: connections to the event stream, one after the other. What
-- the stream does in a connection, with the clocks when it does it, is given as data; the trace of
-- actions is kept for the statements. A notice to the owner is configured, and a callback that raises
-- changes nothing. Durations are whole numbers of some unit, and only the overflow of the backoff's
-- float is modelled, not its rounding. A reading of the wall clock stands for the readings at one frame.
pub mod Promise
pub mod Protocol
mod Examples
use henk.Base.{
  ℕ, suc, ◌+◌, Bool, true, false, not, ◌&&◌, ◌||◌, Option, none, some, List, [], ◌∷◌, ◌++◌, Text,
  codes, text_eq, leb, ◌==◌, if◌then◌else◌, length,
}
use Prim.Native.Nat.{◌*◌, ◌^◌}
use henk.Events.{Event}

-- The value of `time` in a frame
pub data FrameTime : Type 0 where
  no_number infinite negative : FrameTime
  number : ℕ → FrameTime

pub record RawFrame : Type 0 where
  pub event : Option Text
  pub id : Option Text
  pub title : Option Text
  pub message : Option Text
  pub time : FrameTime
  pub text : Text

-- A frame, the clocks when it is retrieved and, if it is an event, when the consumer comes back.
pub record Arrival : Type 0 where
  pub raw : RawFrame
  pub mono : ℕ
  pub clock : ℕ
  pub resumed : ℕ

pub data StreamEnd : Type 0 where
  ended_clean : StreamEnd
  failed : (status : Option ℕ) → StreamEnd

pub data Ending : Type 0 where
  stream : StreamEnd → Ending
  -- The deadline passed before what came next, or would have come.
  tripped : (late : ℕ) → Ending

pub record Connection : Type 0 where
  pub mono : ℕ
  pub clock : ℕ
  pub arrivals : List Arrival
  pub ends : StreamEnd
  pub ends_at : ℕ

pub data Action : Type 0 where
  subscribed : (since : Option Text) (mono : ℕ) → Action
  received : (mono : ℕ) → Action
  proved : (mono : ℕ) → Action
  kept_alive : Action
  delivered : Event → Action
  resumed : (mono : ℕ) → Action
  unsubscribed : Action
  ended : Ending → Action
  noticed : Action
  slept : (delay : ℕ) → Action
  -- The delay is past what a float can hold: OverflowError leaves `events`.
  overflowed : Action

pub record IntakeConfig : Type 0 where
  pub backoff_base : ℕ
  pub max_backoff : ℕ
  pub liveness_deadline : ℕ
  pub liveness_report_interval : ℕ

pub record Intake : Type 0 where
  pub connected : Bool
  pub last_id : Option Text
  pub recoveries : ℕ
  pub last_proof_of_life_mono : ℕ
  pub last_proof_of_life_at : ℕ
  pub last_reconnect_at : Option ℕ
  pub penalty : ℕ
  pub first_proof_seen : Bool
  pub last_report_mono : ℕ
  pub frames_since_report : ℕ
  -- Whether `events` was left by an OverflowError
  pub raised : Bool

abbrev pub retention_replay_since : Text
retention_replay_since = codes "all"

abbrev pub new_intake : Option Text → ℕ → ℕ → Intake
new_intake initial_offset mono clock = record {
  connected = false;
  last_id = initial_offset;
  recoveries = 0;
  last_proof_of_life_mono = mono;
  last_proof_of_life_at = clock;
  last_reconnect_at = none;
  penalty = 0;
  first_proof_seen = false;
  last_report_mono = mono;
  frames_since_report = 0;
  raised = false;
}

abbrev pub text_or_empty : Option Text → Text
text_or_empty none = []
text_or_empty (some t) = t

-- `raw.get("event") == …`
unfoldable pub is_event : Text → RawFrame → Bool
is_event kind raw = elim raw.event [ none ↦ false | some t ↦ text_eq t kind ]

-- `_frame_time`
unfoldable pub frame_time : FrameTime → Option ℕ
frame_time FrameTime.no_number = none
frame_time FrameTime.infinite = none
frame_time FrameTime.negative = none
frame_time (FrameTime.number n) = if n == 0 then none else some n

-- `_convert`
unfoldable pub convert : ℕ → RawFrame → Option Event
convert clock raw =
    if is_event (codes "message") raw
    then some (record {
      id = text_or_empty raw.id;
      title = text_or_empty raw.title;
      message = text_or_empty raw.message;
      arrival_time = clock;
      raw = raw.text;
      published_at = frame_time raw.time;
    })
    else none

-- `_is_since_rejection`
unfoldable pub is_since_rejection : Option ℕ → Option Text → Bool
is_since_rejection none last_id = false
is_since_rejection (some status) none = false
is_since_rejection (some status) (some id) =
    status == 400 && not (text_eq id retention_replay_since)

-- `event.id or self._last_id`
abbrev pub id_or : Text → Option Text → Option Text
id_or id last_id = if length id == 0 then last_id else some id

-- `2 ** n` converts to a float below this `n`, and raises OverflowError from it on.
abbrev pub float_exponents : ℕ
float_exponents = 1024

module _ (cfg : IntakeConfig) where
  -- `_note_proof_of_life`
  unfoldable pub note_proof_of_life : ℕ → ℕ → Intake → Intake
  note_proof_of_life mono clock s =
      let t = record s {
        last_proof_of_life_mono = mono;
        last_proof_of_life_at = clock;
        penalty = 0;
        first_proof_seen = true;
      } in
      if not s.first_proof_seen || leb (s.last_report_mono + cfg.liveness_report_interval) mono
      then record t { last_report_mono = mono; frames_since_report = 0 }
      else record t { frames_since_report = s.frames_since_report + 1 }

  -- The delay of `_backoff`
  abbrev pub delay_after : ℕ → ℕ
  delay_after penalty =
      let d = cfg.backoff_base * 2 ^ penalty in if leb d cfg.max_backoff then d else cfg.max_backoff

  -- `_backoff`. The base is a float, and a power that no float can hold is not multiplied with it.
  unfoldable pub backoff : Intake → List Action × Intake
  backoff s =
      if leb float_exponents s.penalty
      then (Action.overflowed ∷ [], record s { raised = true })
      else (Action.slept (delay_after s.penalty) ∷ [], record s { penalty = suc s.penalty })

  -- The event of a frame is handed on, if it has one.
  unfoldable pub hand_on : ℕ → Option Event → Intake → List Action × Intake
  hand_on mono none s = ([], s)
  hand_on mono (some e) s = (
    Action.delivered e ∷ Action.resumed mono ∷ [],
    record s { last_id = id_or e.id s.last_id; last_proof_of_life_mono = mono },
  )

  -- One frame that was retrieved in time.
  unfoldable pub take_frame : Arrival → Intake → List Action × Intake
  take_frame a s =
      let proves = not (is_event (codes "open") a.raw) in
      let s' = if proves then note_proof_of_life a.mono a.clock s else s in
      let (handed, s'') = hand_on a.resumed (convert a.clock a.raw) s' in
      (
        Action.received a.mono
            ∷ ((if proves then Action.proved a.mono ∷ [] else [])
                ++ ((if is_event (codes "keepalive") a.raw then Action.kept_alive ∷ [] else [])
                    ++ handed)),
        s'',
      )

  -- The loop over the frames of a connection: what is done, and how it ends.
  unfoldable pub read_frames :
      StreamEnd → ℕ → List Arrival → Intake → (List Action × Ending) × Intake
  read_frames ends at [] s = (
    (
      [],
      if leb at (s.last_proof_of_life_mono + cfg.liveness_deadline)
          then Ending.stream ends
          else Ending.tripped at,
    ),
    s,
  )
  read_frames ends at (a ∷ l) s =
      let (acts, s') = take_frame a s in
      let ((later, ending), s'') = read_frames ends at l s' in
      if leb a.mono (s.last_proof_of_life_mono + cfg.liveness_deadline)
      then ((acts ++ later, ending), s'')
      else (([], Ending.tripped a.mono), s)

  -- The handler of a since-rejection.
  unfoldable pub recover : Intake → List Action × Intake
  recover s =
      let s' = record s { recoveries = suc s.recoveries; last_id = some retention_replay_since } in
      if s'.recoveries == 1 then (Action.noticed ∷ [], s') else backoff s'

  -- What follows the end of a connection.
  unfoldable pub after_end : Ending → Intake → List Action × Intake
  after_end (Ending.stream StreamEnd.ended_clean) s = backoff s
  after_end (Ending.tripped _) s = backoff s
  after_end (Ending.stream (StreamEnd.failed status)) s =
      if is_since_rejection status s.last_id then recover s else backoff s

  -- One round of the loop of `events`.
  unfoldable pub connect : Connection → Intake → List Action × Intake
  connect c s =
      let s₁ = record s {
        connected = true;
        last_reconnect_at = if s.connected then some c.clock else s.last_reconnect_at;
        last_proof_of_life_mono = c.mono;
      } in
      let ((acts, ending), s₂) = read_frames c.ends c.ends_at c.arrivals s₁ in
      let (rest, s₃) = after_end ending s₂ in
      (
        Action.subscribed s.last_id c.mono
            ∷ (acts ++ (Action.unsubscribed ∷ Action.ended ending ∷ rest)),
        s₃,
      )

  -- `events`; a generator that raised connects no more.
  unfoldable pub connect_all : List Connection → Intake → List Action × Intake
  connect_all [] s = ([], s)
  connect_all (c ∷ l) s =
      let (acts, s') = connect c s in
      let (later, s'') = connect_all l s' in if s.raised then ([], s) else (acts ++ later, s'')
