-- ===== src/Events/Examples.antt =====
-- The theorems on the debouncer and the pipeline at a concrete storm, and tests of both.
use henk.Base.{
  get_key, set_key, has_key, ℕ, ◌+◌, ◌≡◌, refl, Bool, none, some, List, [], ◌∷◌, Text, text_eq,
  codes, arith, keep, tally,
}
use henk.Events.{Event, EventState, AlertIdentity}
use henk.Events.Debounce.{new_debouncer, feed, flush}
use henk.Events.Debounce.Batches.{Input, debounced, arrivals, Batches, debounced-Batches}
use henk.Events.Pipeline.{
  PipelineConfig, new_pipeline, evaluate, decide, sift, apply_cap, mark_triaged, note_handoff,
}
use henk.Events.Pipeline.Runs.{Step, run}
use henk.Events.Pipeline.Once.{Decides, evaluate-Decides}
use henk.Events.Pipeline.Cadence.{IsPaced, run-IsPaced}
use henk.Events.Pipeline.Spacing.{IsSpaced, times_of, run-IsSpaced}
use henk.Events.Pipeline.Surfaced.{surfaced, silent, run-surfaced}

abbrev alert : Text → ℕ → Event
alert title at = record {
  id = title;
  title = title;
  message = [];
  arrival_time = at;
  raw = [];
  published_at = none;
}

abbrev by_title : Event → AlertIdentity
by_title e = record {
  key = e.title;
  source = codes "other";
  name = e.title;
  state = EventState.unknown;
}

abbrev same_text : Text → Text → Bool
same_text pattern key = text_eq pattern key

abbrev disk : Text
disk = codes "disk"

abbrev swap : Text
swap = codes "swap"

abbrev stream : List Input
stream =
    Input.arrives (alert disk 10)
    ∷ Input.arrives (alert swap 100)
    ∷ Input.arrives (alert disk 200)
    ∷ Input.quiet
    ∷ []

storm_then_straggler :
    (debounced 120 stream new_debouncer).0
    ≡ (alert disk 10 ∷ alert swap 100 ∷ []) ∷ (alert disk 200 ∷ []) ∷ []
unfolding feed flush
storm_then_straggler = refl

debounced-Batches_example : Batches 120 (arrivals stream) (debounced 120 stream new_debouncer)
debounced-Batches_example = debounced-Batches 120 stream new_debouncer tt

abbrev config : PipelineConfig
config = record {
  cooldown_seconds = 100;
  recurrence_window_seconds = 300;
  cap_per_24h = 1;
  cap_window_seconds = 1000;
  cooldown_overrides = (record { pattern = some swap; cooldown = 500 }) ∷ [];
}

-- Both, then both again once the cooldown of one is over, then a turn that the cap announces.
abbrev steps : List (Step Text)
steps =
    Step.evaluates (alert disk 10 ∷ alert swap 20 ∷ alert disk 30 ∷ []) 50 none
    ∷ Step.notes disk (codes "h1")
    ∷ Step.evaluates (alert disk 200 ∷ alert swap 210 ∷ []) 250 none
    ∷ Step.evaluates (alert swap 1200 ∷ []) 1250 none
    ∷ []

disk_twice : times_of disk (run by_title same_text config steps new_pipeline).0 ≡ 50 ∷ 250 ∷ []
unfolding evaluate decide sift apply_cap mark_triaged get_key set_key has_key note_handoff keep
    text_eq tally
disk_twice = refl

one_surfaced : surfaced (run by_title same_text config steps new_pipeline).0 ≡ 1
unfolding evaluate decide sift apply_cap mark_triaged get_key set_key has_key note_handoff keep
    text_eq tally
one_surfaced = refl

evaluate-Decides_example :
    Decides by_title same_text config 250 new_pipeline disk (alert disk 10 ∷ alert disk 30 ∷ []) (
      evaluate by_title same_text config
        (alert disk 10 ∷ alert disk 30 ∷ [])
        250
        (some disk)
        new_pipeline)
evaluate-Decides_example =
    evaluate-Decides by_title same_text config 250 new_pipeline disk
      (alert disk 10 ∷ alert disk 30 ∷ []) (some disk)

run-IsPaced_example :
    IsPaced by_title same_text config [] (run by_title same_text config steps new_pipeline).0
run-IsPaced_example =
    run-IsPaced by_title same_text config 0 steps new_pipeline
      (omega arith, (omega arith, (omega arith, tt)))

run-IsSpaced_example :
    IsSpaced 500 none (times_of swap (run by_title same_text config steps new_pipeline).0)
unfolding text_eq get_key
run-IsSpaced_example = run-IsSpaced by_title same_text config swap steps new_pipeline

run-surfaced_example :
    surfaced (run by_title same_text config steps new_pipeline).0
      + (run by_title same_text config steps new_pipeline).1.cap_suppressed_since_announce
    ≡ 0 + silent (run by_title same_text config steps new_pipeline).0
run-surfaced_example = run-surfaced by_title same_text config steps new_pipeline
