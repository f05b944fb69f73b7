-- ===== src/Agent/Core/Durable.antt =====
-- What the checkpoint of henk/agent/core.py waits for.
pub mod Steps
pub mod Sessions
pub mod Turns
pub mod Flush
pub mod Triaging
pub mod Records
use henk.Base.{
  ℕ, suc, ◌+◌, ◌≡◌, ◌≢◌, ap, ◌⊎◌, Bool, true, false, not, ◌||◌, ◌&&◌, none, some, List, [], ◌∷◌,
  ◌++◌, map, codes, text_eq, ◌==◌, if◌then◌else◌, length, drop, arith, Option-cases, All, In,
}
use henk.Store.Content.{strip}
use henk.Coordinator.{CoreItem}
use henk.Agent.Ending.{TriageEnding}
use henk.Agent.Core.{
  Trigger, SessionRecord, ToolCall, Sent, Core, Run, CoreTurn, CoreConfig, new_acc, handoff_of,
  session_record, advance_checkpoint, take_recall, masked, write_audit_record, close_open,
  open_session, continued, is_expired, renew_session, ensure_open, owner_turn, conclude_owner,
  process_agent_turn, identity_keys, note_handoff_ids, mark_release, latch, conclude_flush,
  flush_acc, process, process_all,
}
use henk.Agent.Core.Durable.Steps.{
  IsCalm, offset_of, Covers, Moves, Quiet, Quiet-refl, session_record-IsWritten,
}
use henk.Agent.Core.Durable.Sessions.{
  close_open-Quiet, NoTriage, IsPlain, IsPlain-IsCalm, QuietOpen, renew_session-QuietOpen,
  continued_plain, ensure_open-QuietOpen,
}
use henk.Agent.Core.Durable.Turns.{
  take_recall-Quiet, take_recall-Tells, recall_lem, told-Quiet, owner_turn-Quiet,
  conclude_owner-Quiet,
}
use henk.Agent.Core.Durable.Flush.{
  note_handoff_ids-Quiet, mark_release-Quiet, latch_lem, session_record-events,
  conclude_flush-written, conclude_flush-unwritten, flush_acc-Moves,
}
use henk.Agent.Core.Durable.Triaging.{IsTriaging, take_recall-IsTriaging}

module _ (cfg : CoreConfig) where
  -- Of a triage whose session opened, where an audit log is configured, the record is in the log with
  -- the flag `P` asks for.
  abbrev pub Records : (Bool → Type 0) → List (SessionRecord × Bool) → CoreTurn × Run → Type 0
  Records P l (CoreTurn.owner text command, r) = Unit
  Records P l (CoreTurn.submitted (CoreItem.marker offset), r) = Unit
  Records P l (CoreTurn.submitted (CoreItem.turn t offset), r) =
      (r.create_fails ≡ true)
      ⊎ ((cfg.audited ≡ false)
          ⊎ ((x : SessionRecord) × (w : Bool) × In (x, w) l
              × (x.events ≡ some (identity_keys t))
              × P w))

  -- The record is written; it was given to the log, whether or not it could be written.
  abbrev pub IsRecorded : List (SessionRecord × Bool) → CoreTurn × Run → Type 0
  IsRecorded = Records (λ w. w ≡ true)

  abbrev IsTried : List (SessionRecord × Bool) → CoreTurn × Run → Type 0
  IsTried = Records (λ w. Unit)

  -- Each turn of a run moves the checkpoint rightly or not at all; `past` are the turns before it.
  abbrev pub AllMove : List (CoreTurn × Run) → List (CoreTurn × Run) → Core → Type 0
  AllMove [] past c = Unit
  AllMove ((t, r) ∷ l) past c =
      let d = process cfg t r c in
      Moves t c d
      × ((d.checkpoints ≡ c.checkpoints) ⊎ All (IsRecorded d.attempted) ((t, r) ∷ past))
      × AllMove l ((t, r) ∷ past) d
