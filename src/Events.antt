-- ===== src/Events.antt =====
-- Event intake of henk/events: the values of henk/events/types.py (here), the debouncer (Debounce)
-- and the cooldown, recurrence and cadence policy (Pipeline) of henk/events/pipeline.py.
pub mod Intake
pub mod Debounce
pub mod Pipeline
mod Examples
use henk.Base.{ℕ, Bool, Option, List, Text}

-- `raw` is the payload as JSON text.
pub record Event : Type 0 where
  pub id : Text
  pub title : Text
  pub message : Text
  pub arrival_time : ℕ
  pub raw : Text
  pub published_at : Option ℕ

pub data EventState : Type 0 where
  firing resolved unknown : EventState

pub record AlertIdentity : Type 0 where
  pub key : Text
  pub source : Text
  pub name : Text
  pub state : EventState

-- `EventTurnItem` and `EventTurn` of henk/agent/turns.py. The `offset` of a turn is set elsewhere,
-- and a held release is passed through unread, so it is a parameter.
pub record EventTurnItem : Type 0 where
  pub event : Event
  pub identity : AlertIdentity
  pub recurrence : Bool
  pub prior_handoff_ref : Option Text

pub record EventTurn (HeldRelease : Type 0) : Type 0 where
  pub items : List EventTurnItem
  pub announceable : Bool
  pub suppressed_count : ℕ
  pub held_release : Option HeldRelease
