-- ===== src/Events/Intake/Examples.antt =====
-- The theorem on the intake at a rejected checkpoint and a quiet stream, and tests of it.
use henk.Base.{ℕ, ◌+◌, ◌≡◌, refl, none, some, List, [], ◌∷◌, Text, codes, text_eq}
use henk.Events.Intake.{
  FrameTime, Arrival, StreamEnd, Ending, Connection, Action, IntakeConfig, new_intake, connect_all,
  connect, after_end, recover, backoff, read_frames, take_frame, hand_on, convert, frame_time,
  is_event, is_since_rejection, note_proof_of_life,
}
use henk.Events.Intake.Promise.{Follows, promised}
use henk.Events.Intake.Protocol.{connect_all-Follows}

abbrev config : IntakeConfig
config = record {
  backoff_base = 1;
  max_backoff = 30;
  liveness_deadline = 135;
  liveness_report_interval = 3600;
}

abbrev frame : Text → Text → ℕ → Arrival
frame kind id at = record {
  raw = record {
    event = some kind;
    id = some id;
    title = some (codes "disk");
    message = none;
    time = FrameTime.number at;
    text = codes "{}";
  };
  mono = at;
  clock = at;
  resumed = at + 1;
}

-- The checkpoint is refused; an event comes; the stream opens, with an id, and stays silent.
abbrev connections : List Connection
connections =
    (record {
      mono = 10;
      clock = 10;
      arrivals = [];
      ends = StreamEnd.failed (some 400);
      ends_at = 11;
    })
    ∷ (record {
      mono = 12;
      clock = 12;
      arrivals = frame (codes "message") (codes "m1") 13 ∷ [];
      ends = StreamEnd.ended_clean;
      ends_at = 20;
    })
    ∷ (record {
      mono = 21;
      clock = 21;
      arrivals = frame (codes "open") (codes "o1") 22 ∷ frame (codes "open") (codes "o2") 160 ∷ [];
      ends = StreamEnd.ended_clean;
      ends_at = 161;
    })
    ∷ []

silent_stream_trips :
    (connect_all config connections (new_intake (some (codes "bad")) 5 5)).0
    ≡ Action.subscribed (some (codes "bad")) 10
      ∷ Action.unsubscribed
      ∷ Action.ended (Ending.stream (StreamEnd.failed (some 400)))
      ∷ Action.noticed
      ∷ Action.subscribed (some (codes "all")) 12
      ∷ Action.received 13
      ∷ Action.proved 13
      ∷ Action.delivered (record {
        id = codes "m1";
        title = codes "disk";
        message = [];
        arrival_time = 13;
        raw = codes "{}";
        published_at = some 13;
      })
      ∷ Action.resumed 14
      ∷ Action.unsubscribed
      ∷ Action.ended (Ending.stream StreamEnd.ended_clean)
      ∷ Action.slept 1
      ∷ Action.subscribed (some (codes "m1")) 21
      ∷ Action.received 22
      ∷ Action.unsubscribed
      ∷ Action.ended (Ending.tripped 160)
      ∷ Action.slept 2
      ∷ []
unfolding connect_all connect after_end recover backoff read_frames take_frame hand_on convert
    frame_time is_event is_since_rejection note_proof_of_life text_eq
silent_stream_trips = refl

connect_all-Follows_example :
    Follows config
      (connect_all config connections (new_intake (some (codes "bad")) 5 5)).0
      (promised (new_intake (some (codes "bad")) 5 5))
connect_all-Follows_example =
    connect_all-Follows config connections (new_intake (some (codes "bad")) 5 5)

-- At the 1024th round without a proof of life the delay overflows, and the intake has ended.
overflow_ends :
    (connect_all config connections
      (record (new_intake (some (codes "all")) 5 5) { penalty = 1024 })).0
    ≡ Action.subscribed (some (codes "all")) 10
      ∷ Action.unsubscribed
      ∷ Action.ended (Ending.stream (StreamEnd.failed (some 400)))
      ∷ Action.overflowed
      ∷ []
unfolding connect_all connect after_end recover backoff read_frames take_frame hand_on convert
    frame_time is_event is_since_rejection note_proof_of_life text_eq
overflow_ends = refl
