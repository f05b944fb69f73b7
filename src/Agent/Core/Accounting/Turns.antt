-- ===== src/Agent/Core/Accounting/Turns.antt =====
-- The accounts of an owner's turn.
use henk.Base.{
  ◌≡◌, refl, inl, inr, Bool, true, Option, none, some, List, Text, codes, text_eq, arith,
  Bool-cases, Option-cases,
}
use henk.Store.Content.{strip}
use henk.Agent.Ending.{TriageEnding}
use henk.Agent.Core.{
  SessionAudit, Sent, Core, Run, CoreConfig, run_turn, counted, masked, ending_of, close_session,
  ensure_open, recall, owner_turn, conclude_owner, process_agent_turn, process_owner,
}
use henk.Agent.Core.Accounting.Records.{IsAccounted, IsLive}
use henk.Agent.Core.Accounting.Sessions.{
  close_session-IsSettled, recall-IsLive, run_turn-IsLive, IsLive-IsAccounted,
  IsSettled-IsAccounted, IsOpened, ensure_open-IsOpened,
}

module _ (cfg : CoreConfig) where
  pub same_masked :
      (run : Run) (a : SessionAudit)
      → let b = masked (ending_of run) (counted run a) in
        (b.flushed ≡ a.flushed)
        × (b.stats_baseline ≡ a.stats_baseline)
        × (b.approvals ≡ a.approvals)
  same_masked run a = ground arith

  -- What a state may change that the accounts do not read.
  abbrev pub aside : Core → List Sent → List Text → List (Text × Text) → List Text → Bool → Core
  aside c sent released handoffs checkpoints blocked = record c {
    sent = sent;
    released = released;
    handoffs = handoffs;
    checkpoints = checkpoints;
    checkpoint_blocked = blocked;
  }

  pub aside-IsAccounted :
      (c : Core) (sent : List Sent) (released : List Text) (handoffs : List (Text × Text))
      (checkpoints : List Text) (blocked : Bool)
      → IsAccounted c
      → IsAccounted (aside c sent released handoffs checkpoints blocked)
  aside-IsAccounted c sent released handoffs checkpoints blocked v = record {
    paired = v.paired;
    all_calls = v.all_calls;
    all_receipts = v.all_receipts;
  }

  pub told-IsAccounted :
      (c : Core) (sent : List Sent) → IsAccounted c → IsAccounted (record c { sent = sent })
  told-IsAccounted c sent v =
      aside-IsAccounted c sent c.released c.handoffs c.checkpoints c.checkpoint_blocked v

  pub owner_turn-IsAccounted :
      (run : Run) (c : Core) → IsLive c → IsAccounted (owner_turn cfg run c)
  unfolding owner_turn run_turn
  owner_turn-IsAccounted run c v =
      let w = recall-IsLive cfg run c v in
      let d = recall cfg run c in
      let f : SessionAudit → SessionAudit =
        λ a. record a { outcome = TriageEnding.error none none } in
      let g : SessionAudit → SessionAudit = λ a. masked (ending_of run) (counted run a) in
      elim (Bool-cases run.raised) [
        | inl e ↦ simp e (
            told-IsAccounted (run_turn run f d) _ (
              IsLive-IsAccounted cfg (run_turn run f d)
                (run_turn-IsLive cfg run f d (λ a. (refl, refl, refl)) w)))
        | inr e ↦ simp e (
            told-IsAccounted (run_turn run g d) _ (
              IsLive-IsAccounted cfg (run_turn run g d)
                (run_turn-IsLive cfg run g d (same_masked run) w)))
      ]

  pub conclude_owner-IsAccounted :
      (run : Run) (o : Option Core) (c : Core)
      → IsOpened cfg o
      → IsAccounted c
      → IsAccounted (conclude_owner cfg run o c)
  unfolding conclude_owner
  conclude_owner-IsAccounted run none c h v = told-IsAccounted c _ v
  conclude_owner-IsAccounted run (some d) c h v = owner_turn-IsAccounted run d h

  pub close_session-IsAccounted :
      (w : Bool) (c : Core)
      → cfg.audited ≡ true
      → IsAccounted c
      → IsAccounted (close_session cfg w c)
  close_session-IsAccounted w c h v =
      IsSettled-IsAccounted cfg (close_session cfg w c) (close_session-IsSettled cfg w c h v)

  pub process_owner-IsAccounted :
      (text : Text) (command : Option Text) (run : Run) (c : Core)
      → cfg.audited ≡ true
      → IsAccounted c
      → IsAccounted (process_owner cfg text command run c)
  unfolding process_owner process_agent_turn
  process_owner-IsAccounted text command run c h v =
      let settled = close_session-IsAccounted run.close_writes c h v in
      elim (Bool-cases (text_eq (strip text) (codes "/new"))) [
        | inl e ↦ rw e (record {
          paired = settled.paired;
          all_calls = settled.all_calls;
          all_receipts = settled.all_receipts;
        })
        | inr e ↦ elim (Option-cases command) [
          | inl n ↦
              rw (e, n)
                (conclude_owner-IsAccounted run (ensure_open cfg run c.session c.acc c)
                  (close_session cfg run.close_writes c)
                  (ensure_open-IsOpened cfg run c.session c.acc c h v refl refl v.paired) settled)
          | inr (r, n) ↦ rw (e, n) (told-IsAccounted c _ v)
        ]
      ]
