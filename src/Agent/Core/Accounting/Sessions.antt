-- ===== src/Agent/Core/Accounting/Sessions.antt =====
-- The accounts of a session that closes, opens, goes on and runs a turn.
use henk.Base.{
  ℕ, ◌≤◌, ◌≡◌, refl, sym, ap, ◌∙◌, subst, inl, inr, Bool, true, false, Option, none, some, List, [],
  ◌++◌, Text, length, drop, append_nil, length-append, arith, Bool-cases,
}
use mathlib.Core.List.{append_assoc}
use henk.Agent.Core.{
  Trigger, ToolCall, SessionAudit, Core, Run, CoreConfig, new_acc, session_record, take_recall,
  run_turn, write_audit_record, close_open, close_session, open_session, continued, is_expired,
  renew_session, ensure_open, recall,
}
use henk.Agent.Core.Accounting.Records.{
  reported, received, pending_calls, pending_receipts, IsPaired, IsAccounted, IsSettled, IsLive,
  reported-session_record, received-session_record, drop-append, drop-length,
}

module _ (cfg : CoreConfig) where
  pub close_open-IsSettled :
      (w : Bool) (s : Option (List ToolCall)) (a : Option SessionAudit) (c : Core)
      → cfg.audited ≡ true
      → c.session ≡ s
      → c.acc ≡ a
      → IsPaired s a
      → reported c.attempted ++ pending_calls s a ≡ c.calls
      → received c.attempted ++ pending_receipts s a ≡ c.receipts
      → IsSettled (close_open cfg w s a c)
  unfolding close_open write_audit_record session_record
  close_open-IsSettled w none none c h hs ha p q r = record {
    closed = hs;
    cleared = ha;
    all_calls = sym (append_nil _) ∙ q;
    all_receipts = sym (append_nil _) ∙ r;
  }
  close_open-IsSettled w none (some a) c h hs ha p q r = absurd p
  close_open-IsSettled w (some l) none c h hs ha p q r = absurd p
  close_open-IsSettled w (some l) (some a) c h hs ha p q r = elim (Bool-cases a.flushed) [
    | inl e ↦
        let q' : reported c.attempted ++ [] ≡ c.calls = rw e at q in
        let r' : received c.attempted ++ [] ≡ c.receipts = rw e at r in
        rw e (record {
          closed = refl;
          cleared = refl;
          all_calls = sym (append_nil _) ∙ q';
          all_receipts = sym (append_nil _) ∙ r';
        })
    | inr e ↦
        let q' : reported c.attempted ++ drop a.stats_baseline l ≡ c.calls = rw e at q in
        let r' : received c.attempted ++ a.approvals ≡ c.receipts = rw e at r in
        rw (e, h)
          (record {
            closed = refl;
            cleared = refl;
            all_calls = reported-session_record c.attempted l a w ∙ q';
            all_receipts = received-session_record c.attempted l a w ∙ r';
          })
  ]

  pub close_session-IsSettled :
      (w : Bool) (c : Core) → cfg.audited ≡ true → IsAccounted c → IsSettled (close_session cfg w c)
  unfolding close_session
  close_session-IsSettled w c h v =
      close_open-IsSettled w c.session c.acc c h refl refl v.paired v.all_calls v.all_receipts

  pub open_session-IsLive :
      (t : Trigger) (now : ℕ) (tainted : Bool) (c : Core)
      → IsSettled c
      → IsLive (open_session cfg t now tainted c)
  unfolding open_session
  open_session-IsLive t now tainted c v = record {
    own = [];
    audit = new_acc t;
    opened = refl;
    has_acc = refl;
    unflushed = refl;
    based = omega arith;
    all_calls = append_nil _ ∙ v.all_calls;
    all_receipts = append_nil _ ∙ v.all_receipts;
  }

  pub recalled-IsLive :
      (c : Core) (b : SessionAudit) (v : IsLive c)
      → (b.flushed ≡ v.audit.flushed)
        × (b.stats_baseline ≡ v.audit.stats_baseline)
        × (b.approvals ≡ v.audit.approvals)
      → IsLive (record c { recall_given = true; acc = some b })
  recalled-IsLive c b v (x, y, z) = record {
    own = v.own;
    audit = b;
    opened = v.opened;
    has_acc = refl;
    unflushed = x ∙ v.unflushed;
    based = rw y v.based;
    all_calls = rw y v.all_calls;
    all_receipts = rw z v.all_receipts;
  }

  pub take_recall-IsLive :
      (hash : Option (Option Text)) (c : Core) (v : IsLive c) → IsLive (take_recall hash v.audit c)
  unfolding take_recall
  take_recall-IsLive none c v = v
  take_recall-IsLive (some none) c v = elim (Bool-cases c.recall_given) [
    | inl e ↦ simp e v
    | inr e ↦ simp e (recalled-IsLive c v.audit v (refl, refl, refl))
  ]
  take_recall-IsLive (some (some h)) c v = elim (Bool-cases c.recall_given) [
    | inl e ↦ simp e v
    | inr e ↦
        simp e (recalled-IsLive c (record v.audit { memory_hash = some h }) v (refl, refl, refl))
  ]

  pub recall-IsLive : (run : Run) (c : Core) → IsLive c → IsLive (recall cfg run c)
  unfolding recall
  recall-IsLive run c v =
      subst (λ o. IsLive (elim o as (λ _. Core) [ none ↦ c | some a ↦ take_recall run.recall a c ]))
        (sym v.has_acc) (take_recall-IsLive run.recall c v)

  pub run_turn-IsLive :
      (run : Run) (f : SessionAudit → SessionAudit) (c : Core)
      → ((a : SessionAudit)
          → ((f a).flushed ≡ a.flushed)
            × ((f a).stats_baseline ≡ a.stats_baseline)
            × ((f a).approvals ≡ a.approvals))
      → IsLive c
      → IsLive (run_turn run f c)
  unfolding run_turn
  run_turn-IsLive run f c k v =
      let a : SessionAudit = record v.audit { approvals = v.audit.approvals ++ run.receipts } in
      let (x, y, z) = k a in
      record {
        own = v.own ++ run.calls;
        audit = f a;
        opened = rw v.opened refl;
        has_acc = rw v.has_acc refl;
        unflushed = x ∙ v.unflushed;
        based = rw y (omega (arith, v.based, length-append v.own run.calls));
        all_calls = rw y (
            ap (λ t. reported c.attempted ++ t)
              (drop-append v.audit.stats_baseline v.own run.calls v.based)
            ∙ sym
                (append_assoc (reported c.attempted) (drop v.audit.stats_baseline v.own) run.calls)
            ∙ ap (λ t. t ++ run.calls) v.all_calls);
        all_receipts = rw z (
            sym (append_assoc (received c.attempted) v.audit.approvals run.receipts)
            ∙ ap (λ t. t ++ run.receipts) v.all_receipts);
      }

  pub IsLive-IsAccounted : (c : Core) → IsLive c → IsAccounted c
  IsLive-IsAccounted c v = record {
    paired = rw (v.opened, v.has_acc) v.based;
    all_calls = rw (v.opened, v.has_acc, v.unflushed) v.all_calls;
    all_receipts = rw (v.opened, v.has_acc, v.unflushed) v.all_receipts;
  }

  pub IsSettled-IsAccounted : (c : Core) → IsSettled c → IsAccounted c
  IsSettled-IsAccounted c v = record {
    paired = rw (v.closed, v.cleared) tt;
    all_calls = rw v.closed (append_nil _ ∙ v.all_calls);
    all_receipts = rw v.closed (append_nil _ ∙ v.all_receipts);
  }

  -- Of a session that may have failed to open.
  abbrev pub IsOpened : Option Core → Type 0
  IsOpened none = Unit
  IsOpened (some c) = IsLive c

  pub renew_session-IsOpened :
      (run : Run) (c : Core)
      → cfg.audited ≡ true
      → IsAccounted c
      → IsOpened (renew_session cfg run c)
  unfolding renew_session
  renew_session-IsOpened run c h v =
      let settled = close_session-IsSettled run.close_writes c h v in
      let d = close_session cfg run.close_writes c in
      elim (Bool-cases run.create_fails) [
        | inl f ↦ rw f tt
        | inr f ↦ rw f (open_session-IsLive Trigger.owner_message run.now false d settled)
      ]

  pub continued-IsLive :
      (l : List ToolCall) (a : SessionAudit) (c : Core)
      → IsAccounted c
      → c.session ≡ some l
      → c.acc ≡ some a
      → IsLive (record c { acc = some (continued cfg l a) })
  continued-IsLive l a c v hs ha =
      let based : a.stats_baseline ≤ length l = let p = v.paired in rw (hs, ha) at p in
      let q : reported c.attempted ++ pending_calls (some l) (some a) ≡ c.calls =
        let q = v.all_calls in rw (hs, ha) at q in
      let r : received c.attempted ++ pending_receipts (some l) (some a) ≡ c.receipts =
        let r = v.all_receipts in rw (hs, ha) at r in
      elim (Bool-cases a.flushed) [
        | inl e ↦
            let next : SessionAudit = record (new_acc Trigger.owner_message) {
              stats_baseline = length l;
              memory_hash = a.memory_hash;
            } in
            let same : continued cfg l a ≡ next = simp e refl in
            let none_left : drop (length l) l ≡ [] = drop-length l in
            let q' : reported c.attempted ++ [] ≡ c.calls = simp e at q in
            let r' : received c.attempted ++ [] ≡ c.receipts = simp e at r in
            subst (λ x. IsLive (record c { acc = some x })) (sym same)
              (record {
                own = l;
                audit = next;
                opened = hs;
                has_acc = refl;
                unflushed = refl;
                based = omega arith;
                all_calls = rw none_left q';
                all_receipts = r';
              })
        | inr e ↦
            let same : continued cfg l a ≡ a = simp e refl in
            let q' : reported c.attempted ++ drop a.stats_baseline l ≡ c.calls = simp e at q in
            let r' : received c.attempted ++ a.approvals ≡ c.receipts = simp e at r in
            subst (λ x. IsLive (record c { acc = some x })) (sym same)
              (record {
                own = l;
                audit = a;
                opened = hs;
                has_acc = refl;
                unflushed = e;
                based = based;
                all_calls = q';
                all_receipts = r';
              })
      ]

  pub ensure_open-IsOpened :
      (run : Run) (s : Option (List ToolCall)) (a : Option SessionAudit) (c : Core)
      → cfg.audited ≡ true
      → IsAccounted c
      → c.session ≡ s
      → c.acc ≡ a
      → IsPaired s a
      → IsOpened (ensure_open cfg run s a c)
  unfolding ensure_open
  ensure_open-IsOpened run none a c h v hs ha p = renew_session-IsOpened run c h v
  ensure_open-IsOpened run (some l) none c h v hs ha p = absurd p
  ensure_open-IsOpened run (some l) (some a) c h v hs ha p =
      elim (Bool-cases (is_expired cfg run.now c.last_activity)) [
        | inl e ↦ rw e (renew_session-IsOpened run c h v)
        | inr e ↦ simp e (continued-IsLive l a c v hs ha)
      ]
