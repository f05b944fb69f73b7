-- ===== src/Agent/Core/Accounting/Records.antt =====
-- What the records of henk/agent/core.py report, and what an open session has still to report.
use henk.Base.{
  ℕ, zero, suc, ◌≤◌, ◌≡◌, refl, sym, ap, ◌∙◌, Bool, true, false, Option, none, some, List, [], ◌∷◌,
  ◌++◌, map, if◌then◌else◌, length, drop, append_nil, arith,
}
use mathlib.Core.List.{append_assoc}
use henk.Tools.{ToolClass}
use henk.Agent.Core.{
  Trigger, ToolCall, Approval, SessionAudit, SessionRecord, Sent, Core, Run, CoreTurn, CoreConfig,
  new_acc, pop_outcome, with_executed, handoff_of, session_record, advance_checkpoint, take_recall,
  run_turn, counted, masked, ending_of, is_completed, is_error, write_audit_record, close_open,
  close_session, open_session, continued, is_expired, renew_session, ensure_open, recall,
  owner_turn, conclude_owner, process_agent_turn, process_owner, note_handoff_ids, mark_release,
  latch, conclude_flush, send_triage, flush_acc, flush_open, flush_event_triage,
  start_event_session, process_event, process, process_all,
}

-- The calls, and the receipts, of the records given to the audit log.
abbrev pub reported : List (SessionRecord × Bool) → List ToolCall
reported [] = []
reported ((r, _) ∷ l) = map (λ (x : ToolCall × Bool). x.0) r.tool_calls ++ reported l

abbrev pub received : List (SessionRecord × Bool) → List Approval
received [] = []
received ((r, _) ∷ l) = r.approvals ++ received l

-- What an open session has still to report.
abbrev pub pending_calls : Option (List ToolCall) → Option SessionAudit → List ToolCall
pending_calls none a = []
pending_calls (some calls) none = []
pending_calls (some calls) (some a) = if a.flushed then [] else drop a.stats_baseline calls

abbrev pub pending_receipts : Option (List ToolCall) → Option SessionAudit → List Approval
pending_receipts none a = []
pending_receipts (some calls) none = []
pending_receipts (some calls) (some a) = if a.flushed then [] else a.approvals

-- A session and its accumulator are open together.
abbrev pub IsPaired : Option (List ToolCall) → Option SessionAudit → Type 0
IsPaired none none = Unit
IsPaired none (some _) = ⊥
IsPaired (some _) none = ⊥
IsPaired (some calls) (some a) = a.stats_baseline ≤ length calls

pub record IsAccounted (c : Core) : Type 0 where
  pub paired : IsPaired c.session c.acc
  pub all_calls : reported c.attempted ++ pending_calls c.session c.acc ≡ c.calls
  pub all_receipts : received c.attempted ++ pending_receipts c.session c.acc ≡ c.receipts

-- No session is open.
pub record IsSettled (c : Core) : Type 0 where
  pub closed : c.session ≡ none
  pub cleared : c.acc ≡ none
  pub all_calls : reported c.attempted ≡ c.calls
  pub all_receipts : received c.attempted ≡ c.receipts

-- A session is open, and its accumulator is not flushed.
pub record IsLive (c : Core) : Type 0 where
  pub own : List ToolCall
  pub audit : SessionAudit
  pub opened : c.session ≡ some own
  pub has_acc : c.acc ≡ some audit
  pub unflushed : audit.flushed ≡ false
  pub based : audit.stats_baseline ≤ length own
  pub all_calls : reported c.attempted ++ drop audit.stats_baseline own ≡ c.calls
  pub all_receipts : received c.attempted ++ audit.approvals ≡ c.receipts

pub map-with_executed :
    (l : List ToolCall) (p : List Approval)
    → map (λ (x : ToolCall × Bool). x.0) (with_executed l p) ≡ l
unfolding with_executed
map-with_executed [] p = refl
map-with_executed (c ∷ l) p =
    elim c.tool_class
      as (λ k.
        map (λ (x : ToolCall × Bool). x.0)
          (elim k as (λ _. List (ToolCall × Bool)) [
            | ToolClass.mutating ↦
                (c, henk.Agent.Core.is_executing (pop_outcome c.name p).0)
                ∷ with_executed l (pop_outcome c.name p).1
            | ToolClass.read_only ↦ (c, true) ∷ with_executed l p
            | ToolClass.notify_only ↦ (c, true) ∷ with_executed l p
          ])
        ≡ c ∷ l) [
          | ToolClass.mutating ↦ ap (λ r. c ∷ r) (map-with_executed l (pop_outcome c.name p).1)
          | ToolClass.read_only ↦ ap (λ r. c ∷ r) (map-with_executed l p)
          | ToolClass.notify_only ↦ ap (λ r. c ∷ r) (map-with_executed l p)
        ]

pub reported-append :
    (l m : List (SessionRecord × Bool)) → reported (l ++ m) ≡ reported l ++ reported m
reported-append [] m = refl
reported-append ((r, b) ∷ l) m =
    let own = map (λ (x : ToolCall × Bool). x.0) r.tool_calls in
    ap (λ t. own ++ t) (reported-append l m) ∙ sym (append_assoc own (reported l) (reported m))

pub received-append :
    (l m : List (SessionRecord × Bool)) → received (l ++ m) ≡ received l ++ received m
received-append [] m = refl
received-append ((r, b) ∷ l) m =
    ap (λ t. r.approvals ++ t) (received-append l m)
    ∙ sym (append_assoc r.approvals (received l) (received m))

-- What the record of an accumulator adds to the report.
pub reported-session_record :
    (l : List (SessionRecord × Bool)) (calls : List ToolCall) (a : SessionAudit) (w : Bool)
    → reported (l ++ (session_record calls a, w) ∷ []) ≡ reported l ++ drop a.stats_baseline calls
unfolding session_record
reported-session_record l calls a w =
    reported-append l _
    ∙ ap (λ t. reported l ++ t)
        (append_nil _ ∙ map-with_executed (drop a.stats_baseline calls) a.approvals)

pub received-session_record :
    (l : List (SessionRecord × Bool)) (calls : List ToolCall) (a : SessionAudit) (w : Bool)
    → received (l ++ (session_record calls a, w) ∷ []) ≡ received l ++ a.approvals
unfolding session_record
received-session_record l calls a w =
    received-append l _ ∙ ap (λ t. received l ++ t) (append_nil a.approvals)

pub drop-append : (n : ℕ) (l m : List ToolCall) → n ≤ length l → drop n (l ++ m) ≡ drop n l ++ m
drop-append zero l m h = refl
drop-append (suc n) [] m h = absurd (omega arith)
drop-append (suc n) (x ∷ l) m h = drop-append n l m (omega arith)

pub drop-length : (l : List ToolCall) → drop (length l) l ≡ []
drop-length [] = refl
drop-length (x ∷ l) = drop-length l
