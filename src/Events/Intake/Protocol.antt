-- ===== src/Events/Intake/Protocol.antt =====
-- The runs of henk/events/intake.py against its promise.
use henk.Base.{
  ℕ, suc, ◌+◌, ◌<◌, ◌≤◌, ◌≡◌, refl, sym, ap, ◌∙◌, subst, inl, inr, Bool, true, false, not, ◌||◌,
  Option, none, some, List, [], ◌∷◌, ◌++◌, Text, text_eq, text_eq_sound, leb, ◌==◌, if◌then◌else◌,
  codes, arith, Bool-cases,
}
use Prim.Native.Nat.{◌*◌, ◌^◌}
use henk.Events.{Event}
use henk.Events.Intake.{
  Arrival, StreamEnd, Ending, Connection, Action, IntakeConfig, Intake, retention_replay_since,
  is_event, convert, is_since_rejection, note_proof_of_life, float_exponents, backoff, hand_on,
  take_frame, read_frames, recover, after_end, connect, connect_all,
}
use henk.Events.Intake.Promise.{Promise, replayed, advance, Allows, Follows, after, promised}

module _ (cfg : IntakeConfig) where
  -- The actions keep to the promise of the state before, and lead to that of the state after.
  abbrev Keeps : Promise → List Action × Intake → Type 0
  Keeps p (acts, s) = Follows cfg acts p × (after acts p ≡ promised s)

  Follows-append :
      (l m : List Action) (p : Promise)
      → Follows cfg l p
      → Follows cfg m (after l p)
      → Follows cfg (l ++ m) p
  Follows-append [] m p h k = k
  Follows-append (a ∷ l) m p h k = (h.0, Follows-append l m (advance a p) h.1 k)

  after-append : (l m : List Action) (p : Promise) → after (l ++ m) p ≡ after m (after l p)
  after-append [] m p = refl
  after-append (a ∷ l) m p = after-append l m (advance a p)

  Keeps-append :
      (l m : List Action) (p : Promise) (s t : Intake)
      → Keeps p (l, s)
      → Keeps (promised s) (m, t)
      → Keeps p (l ++ m, t)
  Keeps-append l m p s t h k =
      (Follows-append l m p h.0 (rw h.1 k.0), after-append l m p ∙ ap (after m) h.1 ∙ k.1)

  backoff-Keeps : (s : Intake) → Keeps (promised s) (backoff cfg s)
  unfolding backoff
  backoff-Keeps s =
      let power = cfg.backoff_base * 2 ^ s.penalty in
      elim (Bool-cases (leb float_exponents s.penalty)) [
        | inl o ↦ rw o ((ground arith, tt), refl)
        | inr o ↦
            let low : s.penalty < 1024 = ground arith in
            elim (Bool-cases (leb power cfg.max_backoff)) [
              | inl e ↦ rw (o, e) (((low, inl (refl, ground arith)), tt), refl)
              | inr e ↦ rw (o, e) (((low, inr (refl, ground arith)), tt), refl)
            ]
      ]

  hand_on-Keeps :
      (mono : ℕ) (o : Option Event) (s : Intake) → Keeps (promised s) (hand_on cfg mono o s)
  unfolding hand_on
  hand_on-Keeps mono none s = (tt, refl)
  hand_on-Keeps mono (some e) s = ((tt, (tt, tt)), refl)

  promised-note_proof_of_life :
      (mono clock : ℕ) (s : Intake)
      → promised (note_proof_of_life cfg mono clock s)
        ≡ record (promised s) { alive_since = mono; failures = 0 }
  unfolding note_proof_of_life
  promised-note_proof_of_life mono clock s =
      elim (Bool-cases
        (not s.first_proof_seen || leb (s.last_report_mono + cfg.liveness_report_interval) mono)) [
          | inl e ↦ rw e refl
          | inr e ↦ rw e refl
        ]

  -- What a frame does before its event is handed on.
  proved_by :
      (a : Arrival) (s : Intake) (b : Bool)
      → Keeps (promised s) (
        if b then Action.proved a.mono ∷ [] else [],
        if b then note_proof_of_life cfg a.mono a.clock s else s,
      )
  proved_by a s true = ((tt, tt), sym (promised-note_proof_of_life a.mono a.clock s))
  proved_by a s false = (tt, refl)

  kept_by :
      (b : Bool) (s : Intake) → Keeps (promised s) (if b then Action.kept_alive ∷ [] else [], s)
  kept_by true s = ((tt, tt), refl)
  kept_by false s = (tt, refl)

  take_frame-Keeps :
      (a : Arrival) (s : Intake)
      → a.mono ≤ s.last_proof_of_life_mono + cfg.liveness_deadline
      → Keeps (promised s) (take_frame cfg a s)
  unfolding take_frame
  take_frame-Keeps a s h =
      let proves = not (is_event (codes "open") a.raw) in
      let s' : Intake = if proves then note_proof_of_life cfg a.mono a.clock s else s in
      let handed = hand_on cfg a.resumed (convert a.clock a.raw) s' in
      let alive = is_event (codes "keepalive") a.raw in
      let k =
        Keeps-append (if proves then Action.proved a.mono ∷ [] else [])
          ((if alive then Action.kept_alive ∷ [] else []) ++ handed.0) (promised s) s' handed.1
          (proved_by a s proves)
          (Keeps-append (if alive then Action.kept_alive ∷ [] else []) handed.0 (promised s') s'
            handed.1 (kept_by alive s') (hand_on-Keeps a.resumed (convert a.clock a.raw) s')) in
      ((h, k.0), k.1)

  -- The frames of a connection and its end.
  abbrev KeepsTo : Promise → (List Action × Ending) × Intake → Type 0
  KeepsTo p ((acts, ending), s) = Keeps p (acts, s) × Allows cfg (Action.ended ending) (promised s)

  read_frames-Keeps :
      (ends : StreamEnd) (at : ℕ) (l : List Arrival) (s : Intake)
      → KeepsTo (promised s) (read_frames cfg ends at l s)
  unfolding read_frames
  read_frames-Keeps ends at [] s =
      elim (Bool-cases (leb at (s.last_proof_of_life_mono + cfg.liveness_deadline))) [
        | inl e ↦ rw e ((tt, refl), tt)
        | inr e ↦ rw e ((tt, refl), ground arith)
      ]
  read_frames-Keeps ends at (a ∷ l) s =
      elim (Bool-cases (leb a.mono (s.last_proof_of_life_mono + cfg.liveness_deadline))) [
        | inl e ↦
            let t = take_frame cfg a s in
            let r = read_frames cfg ends at l t.1 in
            let ih = read_frames-Keeps ends at l t.1 in
            rw e (
              Keeps-append t.0 r.0.0 (promised s) t.1 r.1 (take_frame-Keeps a s (ground arith))
                  ih.0,
              ih.1,
            )
        | inr e ↦ rw e ((tt, refl), ground arith)
      ]

  told_once : (n : ℕ) → ((suc n == 1) ≡ (n == 0)) × (not (suc n == 0) ≡ true)
  told_once n = (ground arith, ground arith)

  -- The promise once the checkpoint is given up.
  recover-Keeps :
      (s : Intake) (p : Promise)
      → p ≡ record (promised s) { cursor = some retention_replay_since }
      → Keeps p (recover cfg s)
  unfolding recover
  recover-Keeps s p e =
      let s' : Intake = record s {
        recoveries = suc s.recoveries;
        last_id = some retention_replay_since;
      } in
      let (one, later) = told_once s.recoveries in
      elim (Bool-cases (s.recoveries == 0)) [
        | inl z ↦
            rw (e, one, z) ((refl, tt), ap (λ b. record (promised s') { told = b }) (sym later))
        | inr z ↦
            let k = backoff-Keeps s' in
            let same : p ≡ promised s' =
              e ∙ ap (λ (b : Bool). record (promised s') { told = b }) (ap not z ∙ sym later) in
            rw (one, z) (subst (λ q. Keeps q (backoff cfg s')) (sym same) k)
      ]

  rejected :
      (status : ℕ) (o : Option Text)
      → is_since_rejection (some status) o ≡ true
      → (if status == 400 then replayed o else o) ≡ some retention_replay_since
  unfolding is_since_rejection
  rejected status none h = absurd (cc)
  rejected status (some id) h = ground arith

  kept :
      (status : ℕ) (o : Option Text)
      → is_since_rejection (some status) o ≡ false
      → (if status == 400 then replayed o else o) ≡ o
  unfolding is_since_rejection
  kept status none h = elim (Bool-cases (status == 400)) [ inl e ↦ rw e refl | inr e ↦ rw e refl ]
  kept status (some id) h = elim (Bool-cases (status == 400)) [
    | inr e ↦ rw e refl
    | inl e ↦
        let q : text_eq id retention_replay_since ≡ true = ground arith in
        rw e (ap some (sym (text_eq_sound id retention_replay_since q)))
  ]

  not_blamed : (o : Option Text) → is_since_rejection none o ≡ false
  unfolding is_since_rejection
  not_blamed o = refl

  after_end-Keeps :
      (e : Ending) (s : Intake) → Keeps (advance (Action.ended e) (promised s)) (after_end cfg e s)
  unfolding after_end
  after_end-Keeps (Ending.stream StreamEnd.ended_clean) s = backoff-Keeps s
  after_end-Keeps (Ending.tripped late) s = backoff-Keeps s
  after_end-Keeps (Ending.stream (StreamEnd.failed none)) s =
      rw (not_blamed s.last_id) (backoff-Keeps s)
  after_end-Keeps (Ending.stream (StreamEnd.failed (some status))) s =
      elim (Bool-cases (is_since_rejection (some status) s.last_id)) [
        | inl e ↦ rw e (
            recover-Keeps s
              (advance (Action.ended (Ending.stream (StreamEnd.failed (some status)))) (promised s))
              (ap (λ (o : Option Text). record (promised s) { cursor = o })
                (rejected status s.last_id e)))
        | inr e ↦
            let same =
              ap (λ (o : Option Text). record (promised s) { cursor = o })
                (kept status s.last_id e) in
            rw e (subst (λ p. Keeps p (backoff cfg s)) (sym same) (backoff-Keeps s))
      ]

  ending_with :
      (ending : Ending) (p : Promise) (s t : Intake) (acts : List Action)
      → p ≡ promised s
      → Allows cfg (Action.ended ending) (promised s)
      → Keeps (advance (Action.ended ending) (promised s)) (acts, t)
      → Keeps p (Action.unsubscribed ∷ Action.ended ending ∷ acts, t)
  ending_with ending p s t acts e h k =
      subst (λ q. Keeps q (Action.unsubscribed ∷ Action.ended ending ∷ acts, t)) (sym e)
        ((tt, (h, k.0)), k.1)

  connect-Keeps :
      (c : Connection) (s : Intake) → s.raised ≡ false → Keeps (promised s) (connect cfg c s)
  unfolding connect
  connect-Keeps c s on =
      let s₁ : Intake = record s {
        connected = true;
        last_reconnect_at = if s.connected then some c.clock else s.last_reconnect_at;
        last_proof_of_life_mono = c.mono;
      } in
      let r = read_frames cfg c.ends c.ends_at c.arrivals s₁ in
      let x = after_end cfg r.0.1 r.1 in
      let h = read_frames-Keeps c.ends c.ends_at c.arrivals s₁ in
      let k =
        Keeps-append r.0.0 (Action.unsubscribed ∷ Action.ended r.0.1 ∷ x.0) (promised s₁) r.1 x.1
          h.0 (ending_with r.0.1 (promised r.1) r.1 x.1 x.0 refl h.1 (after_end-Keeps r.0.1 r.1)) in
      (((refl, on), k.0), k.1)

  connect_all-Keeps : (l : List Connection) (s : Intake) → Keeps (promised s) (connect_all cfg l s)
  unfolding connect_all
  connect_all-Keeps [] s = (tt, refl)
  connect_all-Keeps (c ∷ l) s =
      let x = connect cfg c s in
      let y = connect_all cfg l x.1 in
      elim (Bool-cases s.raised) [
        | inl e ↦ simp e (tt, refl)
        | inr e ↦
            let k =
              Keeps-append x.0 y.0 (promised s) x.1 y.1 (connect-Keeps c s e)
                (connect_all-Keeps l x.1) in
            let step : connect_all cfg (c ∷ l) s ≡ (x.0 ++ y.0, y.1) = simp e refl in
            subst (Keeps (promised s)) (sym step) k
      ]

  -- For every sequence of connections, whatever their frames, their ends and the clocks, the trace of
  -- the intake keeps to the promise of the state it starts in: each subscription resumes at the last
  -- event handed on that has an id, or replays everything after a rejected checkpoint; control frames
  -- never move that cursor; a frame is taken only within the deadline of the last proof of life, the
  -- subscription or the consumer's return, and a connection is given up only past it; the owner is
  -- told at most once; each delay is the base doubled for every round since the last proof of life, up
  -- to the maximum; and only from the 1024th such round on the delay overflows its float, after which
  -- the intake never subscribes again.
  pub connect_all-Follows :
      (l : List Connection) (s : Intake) → Follows cfg (connect_all cfg l s).0 (promised s)
  connect_all-Follows l s = (connect_all-Keeps l s).0
