-- ===== src/Events/Intake/Promise.antt =====
-- What henk/events/intake.py promises of its trace, as an abstract machine.
use henk.Base.{
  ℕ, suc, ◌+◌, ◌≤◌, ◌<◌, ◌≡◌, ◌⊎◌, Bool, true, false, not, Option, none, some, List, [], ◌∷◌, Text,
  ◌==◌, if◌then◌else◌,
}
use Prim.Native.Nat.{◌*◌, ◌^◌}
use henk.Events.Intake.{
  StreamEnd, Ending, Action, IntakeConfig, Intake, retention_replay_since, id_or,
}

-- Where the stream is to be resumed, the rounds since the last proof of life, until when the
-- connection counts as alive, whether the owner was told of a rejected checkpoint.
pub record Promise : Type 0 where
  pub cursor : Option Text
  pub failures : ℕ
  pub alive_since : ℕ
  pub told : Bool
  -- Whether the intake ended for good
  pub over : Bool

-- A checkpoint that the server rejects is given up for a replay of all it retains.
abbrev pub replayed : Option Text → Option Text
replayed none = none
replayed (some _) = some retention_replay_since

abbrev pub advance : Action → Promise → Promise
advance (Action.subscribed since mono) p = record p { alive_since = mono }
advance (Action.received mono) p = p
advance (Action.proved mono) p = record p { alive_since = mono; failures = 0 }
advance Action.kept_alive p = p
advance (Action.delivered e) p = record p { cursor = id_or e.id p.cursor }
advance (Action.resumed mono) p = record p { alive_since = mono }
advance Action.unsubscribed p = p
advance (Action.ended (Ending.tripped _)) p = p
advance (Action.ended (Ending.stream StreamEnd.ended_clean)) p = p
advance (Action.ended (Ending.stream (StreamEnd.failed none))) p = p
advance (Action.ended (Ending.stream (StreamEnd.failed (some status)))) p = record p {
  cursor = if status == 400 then replayed p.cursor else p.cursor;
}
advance Action.noticed p = record p { told = true }
advance (Action.slept delay) p = record p { failures = suc p.failures }
advance Action.overflowed p = record p { over = true }

module _ (cfg : IntakeConfig) where
  -- What an action must meet: a subscription resumes at the cursor, and none comes once the intake is
  -- over; a frame is taken only while the
  -- connection counts as alive, and it is given up only once it does not; the owner is told once;
  -- a delay is the base, doubled for each round since the last proof of life, up to the maximum; and
  -- the delay overflows from the 1024th such round on, never before.
  abbrev pub Allows : Action → Promise → Type 0
  Allows (Action.subscribed since mono) p = (since ≡ p.cursor) × (p.over ≡ false)
  Allows (Action.received mono) p = mono ≤ p.alive_since + cfg.liveness_deadline
  Allows (Action.proved mono) p = Unit
  Allows Action.kept_alive p = Unit
  Allows (Action.delivered e) p = Unit
  Allows (Action.resumed mono) p = Unit
  Allows Action.unsubscribed p = Unit
  Allows (Action.ended (Ending.tripped late)) p = p.alive_since + cfg.liveness_deadline < late
  Allows (Action.ended (Ending.stream _)) p = Unit
  Allows Action.noticed p = p.told ≡ false
  Allows (Action.slept delay) p =
      (p.failures < 1024)
      × (((delay ≡ cfg.backoff_base * 2 ^ p.failures) × (delay ≤ cfg.max_backoff))
          ⊎ ((delay ≡ cfg.max_backoff) × (delay ≤ cfg.backoff_base * 2 ^ p.failures)))
  Allows Action.overflowed p = 1024 ≤ p.failures

  abbrev pub Follows : List Action → Promise → Type 0
  Follows [] p = Unit
  Follows (a ∷ l) p = Allows a p × Follows l (advance a p)

abbrev pub after : List Action → Promise → Promise
after [] p = p
after (a ∷ l) p = after l (advance a p)

-- The promise that a state of the intake stands for.
abbrev pub promised : Intake → Promise
promised s = record {
  cursor = s.last_id;
  failures = s.penalty;
  alive_since = s.last_proof_of_life_mono;
  told = not (s.recoveries == 0);
  over = s.raised;
}
