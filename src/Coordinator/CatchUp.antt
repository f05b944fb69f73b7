-- ===== src/Coordinator/CatchUp.antt =====
-- `caught_up` of henk/events/coordinator.py, over the steps of the loop.
use henk.Base.{
  ℕ, ◌≡◌, refl, sym, ap, ◌∙◌, subst, Bool, true, false, not, ◌&&◌, Option, none, some, List, [],
  ◌∷◌, ◌++◌, append_nil,
}
use mathlib.Core.List.{append_assoc}
use henk.Events.{Event}
use henk.Events.Debounce.{Debouncer, new_debouncer, feed, flush}
use henk.Events.Debounce.Batches.{join, completed, IsValid, Answers, feed-Answers}
use henk.Coordinator.Stepping.{
  Loop, is_empty, is_closed, caught_up, feed_ready, flush_ready, LoopStep, Reach, new_loop,
  buffered, IsValidOpen, note_subscribe, note_keepalive, note_unsubscribe, put, take_first,
  take_next, deadline, dispatch, finish, here, next,
}

-- Every event received is in one place, in order; batches are dispatched only while a dispatch is
-- in progress, and none waits in `ready` while no batch is open.
pub record IsLoop (window : ℕ) (s : Loop) : Type 0 where
  pub placed :
      s.dispatched ++ (join s.dispatching ++ (join s.ready ++ (buffered s.debouncer ++ s.queue)))
      ≡ s.received
  pub valid : IsValidOpen window s.debouncer
  pub idle : s.in_progress ≡ false → s.dispatching ≡ []

join-append : (l m : List (List Event)) → join (l ++ m) ≡ join l ++ join m
join-append [] m = refl
join-append (b ∷ l) m = ap (λ r. b ++ r) (join-append l m) ∙ sym (append_assoc b (join l) (join m))

-- What the debouncer answers, with the batches kept before it, is what was there and what it was fed.
answered :
    (window : ℕ) (before fed : List Event) (r : Option (List Event) × Debouncer)
    → Answers window before fed r
    → (join (completed r.0 []) ++ r.1.batch ≡ before ++ fed) × IsValid window r.1
answered window before fed (none, d) h = (h.1, h.0)
answered window before fed (some b, d) h = (ap (λ t. t ++ d.batch) (append_nil b) ∙ h.2, h.0)

-- The queue, the batch and the kept batches after an event is taken.
taken :
    (window : ℕ) (e : Event) (d : Debouncer) (ready : List (List Event)) (q : List Event)
    → IsValid window d
    → join (feed_ready window e d ready) ++ ((feed window e d).1.batch ++ q)
      ≡ join ready ++ (d.batch ++ e ∷ q)
taken window e d ready q v =
    let r = feed window e d in
    let a = answered window d.batch (e ∷ []) r (feed-Answers window e d.batch d.batch_start v) in
    ap (λ t. t ++ (r.1.batch ++ q)) (join-append ready (completed r.0 []))
    ∙ append_assoc (join ready) (join (completed r.0 [])) (r.1.batch ++ q)
    ∙ ap (λ t. join ready ++ t)
        (sym (append_assoc (join (completed r.0 [])) r.1.batch q)
          ∙ ap (λ t. t ++ q) a.0
          ∙ append_assoc d.batch (e ∷ []) q)

completed-flush :
    (batch : List Event) (start : Option ℕ)
    → join (completed (flush (record { batch = batch; batch_start = start })).0 []) ≡ batch
unfolding flush
completed-flush [] start = refl
completed-flush (b ∷ l) start = append_nil (b ∷ l)

flushed :
    (d : Debouncer) (ready : List (List Event)) → join (flush_ready d ready) ≡ join ready ++ d.batch
flushed d ready =
    join-append ready (completed (flush d).0 [])
    ∙ ap (λ t. join ready ++ t) (completed-flush d.batch d.batch_start)

placed_with :
    (window : ℕ) (s : Loop) (o : Option Debouncer) (q : List Event)
    → IsLoop window s
    → s.debouncer ≡ o
    → s.queue ≡ q
    → s.dispatched ++ (join s.dispatching ++ (join s.ready ++ (buffered o ++ q))) ≡ s.received
placed_with window s o q v hd hq =
    ap (λ t. s.dispatched ++ (join s.dispatching ++ (join s.ready ++ t)))
      (ap (λ t. buffered t ++ q) (sym hd) ∙ ap (λ t. buffered s.debouncer ++ t) (sym hq))
    ∙ v.placed

put_last :
    (a b c d q e : List Event)
    → a ++ (b ++ (c ++ (d ++ (q ++ e)))) ≡ (a ++ (b ++ (c ++ (d ++ q)))) ++ e
put_last a b c d q e = simp append_assoc

dispatch_next : (a b c d : List Event) → (a ++ b) ++ (c ++ d) ≡ a ++ ((b ++ c) ++ d)
dispatch_next a b c d = simp append_assoc

LoopStep-IsLoop :
    {window : ℕ} {s t : Loop} → LoopStep window s t → IsLoop window s → IsLoop window t
LoopStep-IsLoop (note_subscribe s now) v = record {
  placed = v.placed;
  valid = v.valid;
  idle = v.idle;
}
LoopStep-IsLoop (note_keepalive s) v = record { placed = v.placed; valid = v.valid; idle = v.idle }
LoopStep-IsLoop (note_unsubscribe s) v = record {
  placed = v.placed;
  valid = v.valid;
  idle = v.idle;
}
LoopStep-IsLoop (put s e) v = record {
  placed =
      put_last s.dispatched (join s.dispatching) (join s.ready) (buffered s.debouncer) s.queue
        (e ∷ [])
      ∙ ap (λ t. t ++ e ∷ []) v.placed;
  valid = v.valid;
  idle = v.idle;
}
LoopStep-IsLoop {window} (take_first s e q hq hd hp) v = record {
  placed =
      ap (λ t. s.dispatched ++ (join s.dispatching ++ t))
        (taken window e new_debouncer s.ready q tt)
      ∙ placed_with window s none (e ∷ q) v hd hq;
  valid =
      (answered window [] (e ∷ []) (feed window e new_debouncer)
        (feed-Answers window e [] none tt)).1;
  idle = v.idle;
}
LoopStep-IsLoop {window} (take_next s e q d hq hd hp) v =
    let w : IsValid window d = subst (IsValidOpen window) hd v.valid in
    record {
      placed =
          ap (λ t. s.dispatched ++ (join s.dispatching ++ t)) (taken window e d s.ready q w)
          ∙ placed_with window s (some d) (e ∷ q) v hd hq;
      valid =
          (answered window d.batch (e ∷ []) (feed window e d)
            (feed-Answers window e d.batch d.batch_start w)).1;
      idle = v.idle;
    }
LoopStep-IsLoop {window} (deadline s d hd hp) v =
    let w : IsValid window d = subst (IsValidOpen window) hd v.valid in
    record {
      placed =
          ap (λ t. s.dispatched ++ (t ++ s.queue)) (flushed d s.ready)
          ∙ ap (λ t. s.dispatched ++ t) (append_assoc (join s.ready) d.batch s.queue)
          ∙ ap (λ t. s.dispatched ++ (join t ++ (join s.ready ++ (d.batch ++ s.queue))))
              (sym (v.idle hp))
          ∙ placed_with window s (some d) s.queue v hd refl;
      valid = tt;
      idle = λ h. cc;
    }
LoopStep-IsLoop (dispatch s b bs hp hb) v = record {
  placed =
      dispatch_next s.dispatched b (join bs) (join s.ready ++ (buffered s.debouncer ++ s.queue))
      ∙ ap (λ t. s.dispatched ++ (join t ++ (join s.ready ++ (buffered s.debouncer ++ s.queue))))
          (sym hb)
      ∙ v.placed;
  valid = v.valid;
  idle = λ h. cc;
}
LoopStep-IsLoop (finish s hp hb) v = record { placed = v.placed; valid = v.valid; idle = λ _. hb }

Reach-IsLoop : {window : ℕ} {s t : Loop} → Reach window s t → IsLoop window s → IsLoop window t
Reach-IsLoop here v = v
Reach-IsLoop (next r st) v = LoopStep-IsLoop st (Reach-IsLoop r v)

pub new_loop-IsLoop : (window : ℕ) → IsLoop window new_loop
new_loop-IsLoop window = record { placed = refl; valid = tt; idle = λ h. refl }

all_placed :
    (window : ℕ) (s : Loop) (q : List Event) (o : Option Debouncer) (r : List (List Event))
    (b : Bool)
    → s.queue ≡ q
    → s.debouncer ≡ o
    → s.ready ≡ r
    → s.in_progress ≡ b
    → IsLoop window s
    → (is_empty q && (is_closed o && (is_empty r && not b))) ≡ true
    → s.dispatched ≡ s.received
all_placed window s [] none [] false hq ho hr hb v h =
    sym (append_nil s.dispatched)
    ∙ ap (λ t. s.dispatched ++ (join t ++ [])) (sym (v.idle hb))
    ∙ ap (λ t. s.dispatched ++ (join s.dispatching ++ (join t ++ []))) (sym hr)
    ∙ placed_with window s none [] v ho hq
all_placed window s [] none [] true hq ho hr hb v h = cc
all_placed window s [] none (_ ∷ _) b hq ho hr hb v h = cc
all_placed window s [] (some _) r b hq ho hr hb v h = cc
all_placed window s (_ ∷ _) o r b hq ho hr hb v h = cc

and_right : (a b : Bool) → (a && b) ≡ true → b ≡ true
and_right true b h = h
and_right false b h = cc

-- In every state that the loop and its pump reach, whatever the order of the frames, the arrivals
-- and the deadlines, and whichever event a clock that jumps makes the debouncer close a batch on:
-- where `caught_up` holds, exactly the events received have been dispatched, in their order.
pub caught_up-dispatched :
    (window : ℕ) (s t : Loop)
    → IsLoop window s
    → Reach window s t
    → caught_up t ≡ true
    → t.dispatched ≡ t.received
caught_up-dispatched window s t v r h =
    all_placed window t t.queue t.debouncer t.ready t.in_progress refl refl refl refl
      (Reach-IsLoop r v) (and_right t.keepalive _ h)
