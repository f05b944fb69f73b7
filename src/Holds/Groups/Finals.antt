-- ===== src/Holds/Groups/Finals.antt =====
-- The last row of each identity, and what `group_held` of henk/events/holds.py makes of these rows.
use henk.Base.{
  ℕ, ◌+◌, ◌≤◌, ◌≡◌, ◌↔◌, refl, sym, ◌∙◌, inl, inr, Bool, true, not, ◌&&◌, List, [], ◌∷◌, map, Text,
  text_eq, text_eq_comm, ltb, if◌then◌else◌, length, keep, tally, tally-keep, tally_ext,
  tally_split, arith, Bool-cases, has_key, set_key, values, All, All-map,
}
use henk.Events.{EventState}
use henk.Holds.{HeldEvent}
use henk.Holds.Groups.{
  HeldGroups, is_resolved, latest, positions, position, insert_placed, sort_placed, group_held,
}
use henk.Holds.Groups.Place.{place, position_lem}
use henk.Holds.Groups.Latest.{IsDict, tally-set_key, set_key-IsDict}

abbrev pub comes_again : Text → List HeldEvent → Bool
comes_again k rows = has_key k (map (λ (r : HeldEvent). r.identity_key) rows)

-- The last row of each identity, in the order of the rows.
unfoldable pub finals : List HeldEvent → List HeldEvent
finals [] = []
finals (r ∷ l) = let rest = finals l in if comes_again r.identity_key l then rest else r ∷ rest

tally-latest :
    (p : HeldEvent → Bool) (rows : List HeldEvent) (d : List (Text × HeldEvent))
    → IsDict d
    → tally (λ (e : Text × HeldEvent). p e.1) (latest rows d)
      ≡ tally (λ (e : Text × HeldEvent). not (comes_again e.0 rows) && p e.1) d
        + tally p (finals rows)
unfolding latest finals tally has_key
tally-latest p [] d h =
    omega (arith, tally_ext (λ (e : Text × HeldEvent). p e.1) (λ e. true && p e.1) d (λ e. refl))
tally-latest p (r ∷ l) d h =
    let ih = tally-latest p l (set_key r.identity_key r d) (set_key-IsDict r.identity_key r d h) in
    let s =
      tally-set_key (λ (e : Text × HeldEvent). not (comes_again e.0 l) && p e.1) r.identity_key r d
        h in
    let t =
      tally_ext (λ (e : Text × HeldEvent). not (comes_again e.0 (r ∷ l)) && p e.1)
        (λ e. not (text_eq r.identity_key e.0) && (not (comes_again e.0 l) && p e.1)) d
        (λ e. let c = text_eq_comm r.identity_key e.0 in ground arith) in
    ground arith

tally-values :
    (p : HeldEvent → Bool) (d : List (Text × HeldEvent))
    → tally p (values d) ≡ tally (λ (e : Text × HeldEvent). p e.1) d
unfolding tally
tally-values p [] = refl
tally-values p (e ∷ d) = let ih = tally-values p d in ground arith

-- The dict holds the last row of each identity.
tally-latest_new :
    (p : HeldEvent → Bool) (rows : List HeldEvent)
    → tally p (values (latest rows [])) ≡ tally p (finals rows)
tally-latest_new p rows =
    tally-values p (latest rows []) ∙ tally-latest p rows [] tt ∙ (unfold tally in omega arith)

length-tally_all : (l : List HeldEvent) → length l ≡ tally (λ (r : HeldEvent). true) l
unfolding tally
length-tally_all [] = refl
length-tally_all (r ∷ l) = omega (arith, length-tally_all l)

tally-insert_placed :
    (p : HeldEvent → Bool) (key : HeldEvent → ℕ) (r : HeldEvent) (l : List HeldEvent)
    → tally p (insert_placed key r l) ≡ tally p (r ∷ l)
unfolding insert_placed tally
tally-insert_placed p key r [] = refl
tally-insert_placed p key r (s ∷ l) = elim (Bool-cases (ltb (key s) (key r))) [
  | inl e ↦ rw e (omega (arith, tally-insert_placed p key r l))
  | inr e ↦ rw e refl
]

tally-sort_placed :
    (p : HeldEvent → Bool) (key : HeldEvent → ℕ) (l : List HeldEvent)
    → tally p (sort_placed key l) ≡ tally p l
unfolding sort_placed tally
tally-sort_placed p key [] = refl
tally-sort_placed p key (r ∷ l) =
    tally-insert_placed p key r (sort_placed key l) ∙ omega (arith, tally-sort_placed p key l)

-- In ascending order of a key
abbrev pub Ascends : (HeldEvent → ℕ) → List HeldEvent → Type 0
Ascends key [] = Unit
Ascends key (r ∷ l) = All (λ s. key r ≤ key s) l × Ascends key l

All-insert_placed :
    (P : HeldEvent → Type 0) (key : HeldEvent → ℕ) (r : HeldEvent) (l : List HeldEvent)
    → P r
    → All P l
    → All P (insert_placed key r l)
unfolding insert_placed
All-insert_placed P key r [] h q = (h, tt)
All-insert_placed P key r (s ∷ l) h q = elim (Bool-cases (ltb (key s) (key r))) [
  | inl e ↦ rw e (q.0, All-insert_placed P key r l h q.1)
  | inr e ↦ rw e (h, q)
]

insert_placed-Ascends :
    (key : HeldEvent → ℕ) (r : HeldEvent) (l : List HeldEvent)
    → Ascends key l
    → Ascends key (insert_placed key r l)
unfolding insert_placed
insert_placed-Ascends key r [] h = (tt, tt)
insert_placed-Ascends key r (s ∷ l) h = elim (Bool-cases (ltb (key s) (key r))) [
  | inl e ↦ rw e (
    All-insert_placed (λ x. key s ≤ key x) key r l (ground arith) h.0,
    insert_placed-Ascends key r l h.1,
  )
  | inr e ↦
      let le : key r ≤ key s = ground arith in
      rw e (
        (le, All-map (λ x. key s ≤ key x) (λ x. key r ≤ key x) l (λ x q. omega (arith, q, le)) h.0),
        h,
      )
]

sort_placed-Ascends : (key : HeldEvent → ℕ) (l : List HeldEvent) → Ascends key (sort_placed key l)
unfolding sort_placed
sort_placed-Ascends key [] = tt
sort_placed-Ascends key (r ∷ l) =
    insert_placed-Ascends key r (sort_placed key l) (sort_placed-Ascends key l)

Ascends-ext :
    (key key' : HeldEvent → ℕ) (l : List HeldEvent)
    → ((r : HeldEvent) → key r ≡ key' r)
    → Ascends key l
    → Ascends key' l
Ascends-ext key key' [] e h = tt
Ascends-ext key key' (r ∷ l) e h = (
  All-map (λ s. key r ≤ key s) (λ s. key' r ≤ key' s) l (λ s q. omega (arith, e r, e s, q)) h.0,
  Ascends-ext key key' l e h.1,
)

resolved_lem : (s : EventState) → is_resolved s ≡ true → s ≡ EventState.resolved
resolved_lem EventState.resolved h = refl
resolved_lem EventState.firing h = absurd (cc)
resolved_lem EventState.unknown h = absurd (cc)

-- What a release of rows in publish order must count and forward.
pub record Groups (rows : List HeldEvent) (g : HeldGroups) : Type 0 where
  pub counted : g.held ≡ length (finals rows)
  pub resolves : (s : EventState) → (is_resolved s ≡ true) ↔ (s ≡ EventState.resolved)
  pub recoveries : g.recovered ≡ tally (λ (r : HeldEvent). is_resolved r.state) (finals rows)
  pub partition : g.held ≡ g.recovered + length g.forwarded
  pub forwards :
      (p : HeldEvent → Bool)
      → tally p g.forwarded ≡ tally (λ r. not (is_resolved r.state) && p r) (finals rows)
  pub ordered : Ascends (λ (r : HeldEvent). place r.event_id rows) g.forwarded

-- Whatever the rows, `group_held` holds one row of each identity, its last; it counts as recovered
-- the ones that are resolved and forwards exactly the others, each once, in the order of the last
-- places that their event ids have among the rows.
pub group_held-Groups : (rows : List HeldEvent) → Groups rows (group_held rows)
unfolding group_held
group_held-Groups rows =
    let d = values (latest rows []) in
    let key = position (positions 0 rows []) in
    let open_rows = keep (λ (r : HeldEvent). not (is_resolved r.state)) d in
    let forwarding = λ (p : HeldEvent → Bool).
      tally-sort_placed p key open_rows
      ∙ tally-keep p (λ (r : HeldEvent). not (is_resolved r.state)) d
      ∙ tally-latest_new (λ (r : HeldEvent). not (is_resolved r.state) && p r) rows in
    let held =
      length-tally_all d
      ∙ tally-latest_new (λ r. true) rows
      ∙ sym (length-tally_all (finals rows)) in
    record {
      counted = held;
      recoveries = tally-latest_new (λ (r : HeldEvent). is_resolved r.state) rows;
      partition =
          (let whole = λ (r : HeldEvent). true in
            let res = λ (r : HeldEvent). is_resolved r.state in
            omega (
              arith,
              length-tally_all d,
              tally_split whole res d,
              tally_ext (λ r. res r && true) res d (λ r. ground arith),
              length-tally_all (sort_placed key open_rows),
              tally-sort_placed whole key open_rows,
              tally-keep whole (λ r. not (res r)) d,
            ));
      forwards = forwarding;
      ordered =
          Ascends-ext key (λ (r : HeldEvent). place r.event_id rows) (sort_placed key open_rows)
            (position_lem rows) (sort_placed-Ascends key open_rows);
      resolves = λ s. (resolved_lem s, λ e. rw e refl);
    }
