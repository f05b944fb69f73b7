-- ===== src/Coordinator/Examples.antt =====
-- The theorems on the coordinator at a concrete batch, run and release, and tests of them.
use henk.Base.{
  ℕ, ◌≡◌, refl, Bool, true, false, none, some, [], ◌∷◌, Text, codes, has_key, text_eq, keep, ltb,
}
use henk.Events.{Event, EventState, AlertIdentity}
use henk.Events.Debounce.{feed, flush}
use henk.Events.Pipeline.{PipelineConfig, new_pipeline}
use henk.Holds.{HoldWindow, HeldEvent, MaintenanceWindow}
use henk.Holds.Table.{find_window}
use henk.Coordinator.{Coordinator, Environment, dispatch_batch, partition_holds}
use henk.Coordinator.Accounts.{Accounts, decision, dispatch_batch-Accounts}
use henk.Coordinator.Stepping.{Loop, LoopStep, Reach, new_loop}
use henk.Coordinator.CatchUp.{new_loop-IsLoop, caught_up-dispatched}
use henk.Coordinator.Release.{Releaser, consider}
use henk.Coordinator.Release.Opened.{IsOpen}
use henk.Coordinator.Release.Conditions.{Outcome, consider-Outcome}

abbrev by_title : Event → AlertIdentity
by_title e = record {
  key = e.title;
  source = codes "other";
  name = e.title;
  state = EventState.firing;
}

abbrev same_text : Text → Text → Bool
same_text pattern key = text_eq pattern key

abbrev alert : Text → Text → ℕ → Event
alert id title at = record {
  id = id;
  title = title;
  message = [];
  arrival_time = at;
  raw = codes "{}";
  published_at = some at;
}

abbrev disk : Event
disk = alert (codes "e1") (codes "disk") 10

abbrev swap : Event
swap = alert (codes "e2") (codes "swap") 25

abbrev update : MaintenanceWindow
update = record { id = codes "update"; title = codes "update"; start = 5; end = 20 }

-- The update is active until its end.
abbrev environment : Environment
environment = record {
  read_fails = false;
  hold_fails = λ e. false;
  held_at = λ e. e.arrival_time;
  persists = λ s. true;
  active = some (λ t. keep (λ (w : MaintenanceWindow). ltb t w.end) (update ∷ []));
}

abbrev config : PipelineConfig
config = record {
  cooldown_seconds = 100;
  recurrence_window_seconds = 300;
  cap_per_24h = 1;
  cap_window_seconds = 1000;
  cooldown_overrides = [];
}

abbrev coordinator : Coordinator
coordinator = record {
  pipeline = new_pipeline;
  ledger = record { store = record { windows = []; events = [] }; in_flight = []; receipts = [] };
  audited = [];
  core = [];
}

dispatch_batch-Accounts_example :
    Accounts by_title same_text config environment
      (disk ∷ swap ∷ [])
      (decision by_title same_text config environment
        (partition_holds by_title same_text config environment
          (disk ∷ swap ∷ [])
          coordinator.ledger).0
        30
        coordinator.pipeline).suppressions
      (dispatch_batch by_title same_text config environment
        (disk ∷ swap ∷ [])
        30
        coordinator).1.ledger.store
      (dispatch_batch by_title same_text config environment (disk ∷ swap ∷ []) 30 coordinator).0
dispatch_batch-Accounts_example =
    dispatch_batch-Accounts by_title same_text config environment (disk ∷ swap ∷ []) 30 coordinator

abbrev drained : Loop
drained = record new_loop {
  keepalive = true;
  first_subscribe = some 3;
  received = disk ∷ [];
  dispatched = disk ∷ [];
}

-- The disk's alert is put, taken and dispatched after a subscription and its keepalive.
drained-Reach : Reach 120 new_loop drained
unfolding feed flush
drained-Reach =
    Reach.next
      (Reach.next
        (Reach.next
          (Reach.next
            (Reach.next
              (Reach.next (Reach.next Reach.here (LoopStep.note_subscribe new_loop 3))
                (LoopStep.put _ disk))
              (LoopStep.note_keepalive _))
            (LoopStep.take_first _ disk [] refl refl refl))
          (LoopStep.deadline _ _ refl refl))
        (LoopStep.dispatch _ (disk ∷ []) [] refl refl))
      (LoopStep.finish _ refl refl)

caught_up-dispatched_example : drained.dispatched ≡ drained.received
caught_up-dispatched_example =
    caught_up-dispatched 120 new_loop drained (new_loop-IsLoop 120) drained-Reach refl

abbrev update_row : HoldWindow
update_row = record {
  window_id = codes "update";
  title = codes "update";
  start = 5;
  end = 20;
  released_at = none;
}

abbrev held_disk : HeldEvent
held_disk = record {
  event_id = codes "e1";
  window_id = codes "update";
  identity_key = codes "disk";
  state = EventState.firing;
  title = codes "disk";
  message = [];
  raw_json = codes "{}";
  published_at = 10;
  arrival_time = 10;
  held_at = 11;
}

abbrev holding : Coordinator
holding = record coordinator {
  ledger = record {
    store = record { windows = update_row ∷ []; events = held_disk ∷ [] };
    in_flight = [];
    receipts = [];
  };
}

-- ntfy gives no keepalive, and the calendar no longer knows the window.
abbrev releaser : Releaser
releaser = record {
  grace = 60;
  fallback = 900;
  calendar = some (λ id t. none);
  caught_up = λ w. false;
  first_subscribe = some 3;
  raises = λ w. false;
  mark_fails = λ w. false;
  marked_at = λ w. 1000;
}

holding-IsOpen : IsOpen (codes "update") holding.ledger
unfolding find_window text_eq has_key
holding-IsOpen = record { row = update_row; found = refl; unreleased = refl; waiting = refl }

consider-Outcome_example :
    Outcome by_title same_text config environment releaser 980 update_row holding
      (consider by_title same_text config environment releaser 980 update_row holding)
consider-Outcome_example =
    consider-Outcome by_title same_text config environment releaser 980 update_row holding refl
      holding-IsOpen
