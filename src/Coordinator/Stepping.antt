-- ===== src/Coordinator/Stepping.antt =====
-- The loop of `run` of henk/events/coordinator.py, with its pump, as a step relation, and
-- `caught_up`. `received` and `dispatched` are kept for the statements only. A dispatch that raises
-- is logged and its batch is done with, like one that returns.
use henk.Base.{ℕ, ◌≡◌, Bool, true, false, not, ◌&&◌, Option, none, some, List, [], ◌∷◌, ◌++◌}
use henk.Events.{Event}
use henk.Events.Debounce.{Debouncer, new_debouncer, feed, flush}
use henk.Events.Debounce.Batches.{completed, IsValid}

pub record Loop : Type 0 where
  pub queue : List Event
  pub debouncer : Option Debouncer
  pub ready : List (List Event)
  pub dispatching : List (List Event)
  pub in_progress : Bool
  pub keepalive : Bool
  pub first_subscribe : Option ℕ
  pub received : List Event
  pub dispatched : List Event

abbrev pub is_empty : {A : Type 0} → List A → Bool
is_empty [] = true
is_empty (_ ∷ _) = false

abbrev pub is_closed : Option Debouncer → Bool
is_closed none = true
is_closed (some _) = false

-- `caught_up`
abbrev pub caught_up : Loop → Bool
caught_up s =
    s.keepalive
    && (is_empty s.queue && (is_closed s.debouncer && (is_empty s.ready && not s.in_progress)))

abbrev pub or_now : ℕ → Option ℕ → Option ℕ
or_now now none = some now
or_now now (some t) = some t

-- `_feed`: a batch that the debouncer closes is kept; the debouncer never closes an empty one.
abbrev pub feed_ready : ℕ → Event → Debouncer → List (List Event) → List (List Event)
feed_ready window e d ready = ready ++ completed (feed window e d).0 []

-- `_flush`
abbrev pub flush_ready : Debouncer → List (List Event) → List (List Event)
flush_ready d ready = ready ++ completed (flush d).0 []

pub data LoopStep (window : ℕ) : Loop → Loop → Type 0 where
  note_subscribe :
      (s : Loop) (now : ℕ)
      → LoopStep window s
          (record s { keepalive = false; first_subscribe = or_now now s.first_subscribe })
  note_keepalive : (s : Loop) → LoopStep window s (record s { keepalive = true })
  note_unsubscribe : (s : Loop) → LoopStep window s (record s { keepalive = false })
  -- The pump puts an event.
  put :
      (s : Loop) (e : Event)
      → LoopStep window s (record s { queue = s.queue ++ e ∷ []; received = s.received ++ e ∷ [] })
  -- The loop takes the first event of a batch.
  take_first :
      (s : Loop) (e : Event) (q : List Event)
      → s.queue ≡ e ∷ q
      → s.debouncer ≡ none
      → s.in_progress ≡ false
      → LoopStep window s (record s {
        queue = q;
        debouncer = some (feed window e new_debouncer).1;
        ready = feed_ready window e new_debouncer s.ready;
      })
  -- It takes another before the deadline.
  take_next :
      (s : Loop) (e : Event) (q : List Event) (d : Debouncer)
      → s.queue ≡ e ∷ q
      → s.debouncer ≡ some d
      → s.in_progress ≡ false
      → LoopStep window s (record s {
        queue = q;
        debouncer = some (feed window e d).1;
        ready = feed_ready window e d s.ready;
      })
  -- The deadline passes.
  deadline :
      (s : Loop) (d : Debouncer)
      → s.debouncer ≡ some d
      → s.in_progress ≡ false
      → LoopStep window s (record s {
        debouncer = none;
        ready = [];
        dispatching = flush_ready d s.ready;
        in_progress = true;
      })
  -- One batch is dispatched.
  dispatch :
      (s : Loop) (b : List Event) (bs : List (List Event))
      → s.in_progress ≡ true
      → s.dispatching ≡ b ∷ bs
      → LoopStep window s (record s { dispatching = bs; dispatched = s.dispatched ++ b })
  finish :
      (s : Loop)
      → s.in_progress ≡ true
      → s.dispatching ≡ []
      → LoopStep window s (record s { in_progress = false })

pub data Reach (window : ℕ) (s : Loop) : Loop → Type 0 where
  here : Reach window s s
  next : {t u : Loop} → Reach window s t → LoopStep window t u → Reach window s u

abbrev pub new_loop : Loop
new_loop = record {
  queue = [];
  debouncer = none;
  ready = [];
  dispatching = [];
  in_progress = false;
  keepalive = false;
  first_subscribe = none;
  received = [];
  dispatched = [];
}

abbrev pub buffered : Option Debouncer → List Event
buffered none = []
buffered (some d) = d.batch

abbrev pub IsValidOpen : ℕ → Option Debouncer → Type 0
IsValidOpen window none = Unit
IsValidOpen window (some d) = IsValid window d
