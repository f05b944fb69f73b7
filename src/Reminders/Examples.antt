-- ===== src/Reminders/Examples.antt =====
-- The theorems on reminders at concrete tables, and tests of the scheduler.
use henk.Base.{
  ℕ, ◌≤◌, ◌≡◌, refl, inl, true, Option, none, some, List, [], ◌∷◌, ◌++◌, arith, has, length, Text,
  codes, map, leb, ◌&&◌,
}
use henk.Channel.{SendOutcome}
use henk.Reminders.Row.{Status, pending, same_status, Source, Reminder}
use henk.Reminders.Table.{ids_of}
use henk.Reminders.Repository.{
  count_pending, select_past_grace, select_due, select_reportable, charge_attempt, mark_reported,
  status_of, cancel, mark_delivered,
}
use henk.Reminders.World.{Config, OtherTask, Suspension, Message, World, other_tasks, other_task}
use henk.Reminders.PreWork.{
  pre_work, after_grace, grace_pass, charge_dues, charge_due, charge_reportables, charge_reportable,
}
use henk.Reminders.Compose.{compose_summary}
use henk.Reminders.Scheduler.{
  tick, record_receipts, deliver_all, deliver, dispatch, send_proactive, settle_delivery,
  report_if_any, report, settle_report,
}
use henk.Reminders.Selection.{select_due-IsSelection}
use henk.Reminders.Table.Select.{IsSelection}
use henk.Reminders.Retention.{IsValid, Evolves}
use henk.Reminders.Retention.Tick.{tick-Evolves}
use henk.Reminders.Cap.{IsCapped, tick-IsCapped}
use henk.Reminders.Promptness.{Hands, closing, tick-Hands}
use henk.Reminders.Summary.{tick-names_lapsed}

abbrev row : ℕ → ℕ → Status → Reminder
row i due s = record {
  id = i;
  text = codes "call the plumber";
  due_at = due;
  due_tz = codes "Europe/Amsterdam";
  input_spec = codes "+2h";
  created_at = 1;
  source = Source.command;
  status = s;
  next_attempt_at = due;
  send_attempts = 0;
  delivered_at = none;
  surfaced_at = none;
  reported_at = none;
}

abbrev cfg : Config
cfg = record {
  limits = record {
    max_pending = 100;
    text_length_limit = 500;
    page_size = 20;
    input_spec_limit = 64;
  };
  retry_floor = 900;
  crash_attempt_limit = 3;
  late_grace = 86400;
  late_delivery_threshold = 60;
  tick_delivery_limit = 10;
  report_horizon = 604800;
}

-- One reminder that lapsed, one that is due, one in the future.
abbrev start : World
start = record {
  db = record {
    rows = row 1 100 pending ∷ row 2 90000 pending ∷ row 3 95000 pending ∷ [];
    last_id = 3;
  };
  sent = [];
  sends = 0;
  receipts = some [];
}

-- The owner cancels reminder 3 while the first send is in flight.
abbrev wire : ℕ → Suspension
wire n = record { meanwhile = OtherTask.cancels 3 ∷ []; outcome = SendOutcome.delivered }

abbrev render : ℕ → Text
render t = codes "then"

start-IsValid : IsValid start.db
start-IsValid = record { ascending = omega arith; bounded = omega arith }

tick-Evolves_example : Evolves start.db (tick cfg render wire 90010 start).db
tick-Evolves_example = tick-Evolves cfg render wire 90010 start start-IsValid

start-IsCapped : IsCapped cfg.limits start.db
unfolding count_pending
start-IsCapped = record { valid = start-IsValid; capped = omega arith }

tick-IsCapped_example : IsCapped cfg.limits (tick cfg render wire 90010 start).db
tick-IsCapped_example = tick-IsCapped cfg render wire 90010 start start-IsCapped

tick-Hands_example :
    (ds : List Message) × ((tick cfg render wire 90010 start).sent
      ≡ (start.sent ++ ds) ++ closing render (pre_work cfg 90010 start.db).report)
    × Hands cfg render wire 90010
        (record_receipts
          (pre_work cfg 90010 start.db).receipts
          (record start { db = (pre_work cfg 90010 start.db).db }))
        ds
    × (length ds ≤ cfg.tick_delivery_limit)
tick-Hands_example = tick-Hands cfg render wire 90010 start

tick-names_lapsed_example :
    (before : List Message) × (named : List Reminder) × ((tick cfg render wire 90010 start).sent
      ≡ before ++ Message.summary named (compose_summary render named) ∷ [])
    × (has 1 (ids_of named) ≡ true)
tick-names_lapsed_example =
    tick-names_lapsed cfg render wire 90010 start (row 1 100 pending) start-IsValid (omega arith)
      (inl refl) refl (omega arith)

-- The lapsed reminder is missed and reported, the due one delivered, the third cancelled.
tick_statuses :
    map {B = Status × Option ℕ}
      (λ (r : Reminder). (r.status, r.reported_at))
      (tick cfg render wire 90010 start).db.rows
    ≡ (Status.missed, some 90010) ∷ (Status.delivered, none) ∷ (Status.cancelled, none) ∷ []
unfolding tick pre_work after_grace grace_pass charge_dues charge_due charge_reportables
    charge_reportable select_past_grace select_due select_reportable charge_attempt mark_reported
    record_receipts deliver_all deliver dispatch status_of send_proactive other_tasks other_task
    cancel settle_delivery mark_delivered report_if_any report settle_report has
tick_statuses = refl

select_due-IsSelection_example :
    IsSelection
      (λ r. same_status r.status pending && leb r.next_attempt_at 90010 && leb r.due_at 90010)
      1
      start.db.rows
      (select_due 90010 1 start.db)
select_due-IsSelection_example = select_due-IsSelection 90010 1 start.db
