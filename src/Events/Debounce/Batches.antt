-- ===== src/Events/Debounce/Batches.antt =====
-- What the debouncer of henk/events/pipeline.py makes of a stream of events and flushes.
use henk.Base.{
  ℕ, ◌+◌, ◌≤◌, ◌≡◌, refl, sym, ap, ◌∙◌, inl, inr, Option, none, some, List, [], ◌∷◌, ◌++◌, leb, All,
  All-append, subst, append_nil, arith, Bool-cases,
}
use mathlib.Core.List.{append_assoc}
use henk.Events.{Event}
use henk.Events.Debounce.{Debouncer, feed, flush}

pub data Input : Type 0 where
  arrives : Event → Input
  quiet : Input

abbrev pub respond : ℕ → Input → Debouncer → Option (List Event) × Debouncer
respond window (Input.arrives e) d = feed window e d
respond window Input.quiet d = flush d

-- A batch, if one was completed, before the others.
abbrev pub completed : Option (List Event) → List (List Event) → List (List Event)
completed none l = l
completed (some b) l = b ∷ l

-- The completed batches, and the debouncer that is left.
abbrev pub debounced : ℕ → List Input → Debouncer → List (List Event) × Debouncer
debounced window [] d = ([], d)
debounced window (i ∷ l) d = (
  completed (respond window i d).0 (debounced window l (respond window i d).1).0,
  (debounced window l (respond window i d).1).1,
)

-- The events of a stream.
abbrev pub arrivals : List Input → List Event
arrivals [] = []
arrivals (Input.arrives e ∷ l) = e ∷ arrivals l
arrivals (Input.quiet ∷ l) = arrivals l

abbrev pub join : List (List Event) → List Event
join [] = []
join (b ∷ l) = b ++ join l

abbrev pub InWindow : ℕ → ℕ → Event → Type 0
InWindow window start e = e.arrival_time ≤ start + window

-- A batch is not empty, and nothing in it arrived past the window that its first event opened.
abbrev pub IsBatch : ℕ → List Event → Type 0
IsBatch window [] = ⊥
IsBatch window (e ∷ es) = All (InWindow window e.arrival_time) (e ∷ es)

-- The start is that of the batch.
abbrev pub IsOpen : ℕ → List Event → Option ℕ → Type 0
IsOpen window [] none = Unit
IsOpen window [] (some _) = ⊥
IsOpen window (e ∷ es) none = ⊥
IsOpen window (e ∷ es) (some start) = (start ≡ e.arrival_time) × IsBatch window (e ∷ es)

abbrev pub IsValid : ℕ → Debouncer → Type 0
IsValid window d = IsOpen window d.batch d.batch_start

-- One response: the batch it completes is one, what is left is valid, and no event is lost.
abbrev pub Answers : ℕ → List Event → List Event → Option (List Event) × Debouncer → Type 0
Answers window before fed (none, d) = IsValid window d × (d.batch ≡ before ++ fed)
Answers window before fed (some b, d) =
    IsValid window d × IsBatch window b × (b ++ d.batch ≡ before ++ fed)

pub feed-Answers :
    (window : ℕ) (e : Event) (batch : List Event) (start : Option ℕ)
    → IsOpen window batch start
    → Answers window batch (e ∷ []) (feed window e (record { batch = batch; batch_start = start }))
unfolding feed
feed-Answers window e [] none h = ((refl, (omega arith, tt)), refl)
feed-Answers window e [] (some _) h = absurd h
feed-Answers window e (b ∷ bs) none h = absurd h
feed-Answers window e (b ∷ bs) (some start) h =
    elim (Bool-cases (leb e.arrival_time (start + window))) [
      | inl q ↦ rw q (
        (
          h.0,
          (
            h.1.0,
            All-append (InWindow window b.arrival_time) bs (e ∷ []) h.1.1 (ground (arith, h.0), tt),
          ),
        ),
        refl,
      )
      | inr q ↦ rw q ((refl, (omega arith, tt)), h.1, refl)
    ]

pub flush-Answers :
    (window : ℕ) (batch : List Event) (start : Option ℕ)
    → IsOpen window batch start
    → Answers window batch [] (flush (record { batch = batch; batch_start = start }))
unfolding flush
flush-Answers window [] start h = (h, refl)
flush-Answers window (b ∷ bs) none h = absurd h
flush-Answers window (b ∷ bs) (some start) h = (tt, h.1, refl)

-- What a stream makes: every batch is one, the debouncer is left valid, and the batches with what
-- is buffered are what was buffered and then the stream, in order.
abbrev pub Batches : ℕ → List Event → List (List Event) × Debouncer → Type 0
Batches window stream (l, d) =
    All (IsBatch window) l × IsValid window d × (join l ++ d.batch ≡ stream)

left-IsValid :
    (window : ℕ) (before fed : List Event) (r : Option (List Event) × Debouncer)
    → Answers window before fed r
    → IsValid window r.1
left-IsValid window before fed (none, d) h = h.0
left-IsValid window before fed (some b, d) h = h.0

-- A response followed by the rest of the stream.
continued :
    (window : ℕ) (before fed stream : List Event) (r : Option (List Event) × Debouncer)
    (s : List (List Event) × Debouncer)
    → Answers window before fed r
    → Batches window (r.1.batch ++ stream) s
    → Batches window (before ++ (fed ++ stream)) (completed r.0 s.0, s.1)
continued window before fed stream (none, d) s h k =
    (k.0, k.1, k.2 ∙ ap (λ b. b ++ stream) h.1 ∙ append_assoc before fed stream)
continued window before fed stream (some b, d) s h k = (
  (h.1, k.0),
  k.1,
  append_assoc b (join s.0) s.1.batch
      ∙ ap (λ t. b ++ t) k.2
      ∙ sym (append_assoc b d.batch stream)
      ∙ ap (λ t. t ++ stream) h.2
      ∙ append_assoc before fed stream,
)

fed : Input → List Event
fed (Input.arrives e) = e ∷ []
fed Input.quiet = []

respond-Answers :
    (window : ℕ) (i : Input) (d : Debouncer)
    → IsValid window d
    → Answers window d.batch (fed i) (respond window i d)
unfolding fed
respond-Answers window (Input.arrives e) d h = feed-Answers window e d.batch d.batch_start h
respond-Answers window Input.quiet d h = flush-Answers window d.batch d.batch_start h

arrivals_cons : (i : Input) (l : List Input) → arrivals (i ∷ l) ≡ fed i ++ arrivals l
unfolding fed
arrivals_cons (Input.arrives e) l = refl
arrivals_cons Input.quiet l = refl

-- From a valid debouncer and for every stream of events and flushes, each completed batch is not
-- empty and nothing in it arrived past the window that its first event opened; no event is lost,
-- repeated or reordered: the completed batches, then what is buffered, are what was buffered at
-- first and then the events of the stream, in order.
pub debounced-Batches :
    (window : ℕ) (l : List Input) (d : Debouncer)
    → IsValid window d
    → Batches window (d.batch ++ arrivals l) (debounced window l d)
debounced-Batches window [] d h = (tt, h, sym (append_nil d.batch))
debounced-Batches window (i ∷ l) d h =
    let a = respond-Answers window i d h in
    subst (λ t. Batches window (d.batch ++ t) (debounced window (i ∷ l) d))
      (sym (arrivals_cons i l))
      (continued window d.batch (fed i) (arrivals l) (respond window i d)
        (debounced window l (respond window i d).1) a
        (debounced-Batches window l (respond window i d).1
          (left-IsValid window d.batch (fed i) (respond window i d) a)))
