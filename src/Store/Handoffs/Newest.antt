-- ===== src/Store/Handoffs/Newest.antt =====
-- The order in which henk/store/handoffs.py prunes and reads its rows.
use henk.Base.{
  ℕ, suc, ◌≤◌, ◌≡◌, refl, sym, ap, ◌∙◌, ◌⊎◌, inl, inr, Bool, true, false, some, List, [], ◌∷◌,
  ==_refl, length, take, drop, tally, has, arith, Bool-cases, All, All-map, In, tally-append,
  length-tally, take-append-drop, All-always,
}
use henk.Store.Handoffs.{
  RetainedHandoff, is_newer, insert_handoff, newest_first, handoff_ids, is_row, first_of,
}

pub tally-insert_handoff :
    (p : RetainedHandoff → Bool) (h : RetainedHandoff) (l : List RetainedHandoff)
    → tally p (insert_handoff h l) ≡ tally p (h ∷ l)
unfolding insert_handoff tally
tally-insert_handoff p h [] = refl
tally-insert_handoff p h (g ∷ l) = elim (Bool-cases (is_newer h g)) [
  | inl e ↦ rw e refl
  | inr e ↦ rw e (omega (arith, tally-insert_handoff p h l))
]

pub tally-newest_first :
    (p : RetainedHandoff → Bool) (l : List RetainedHandoff) → tally p (newest_first l) ≡ tally p l
unfolding newest_first tally
tally-newest_first p [] = refl
tally-newest_first p (h ∷ l) =
    tally-insert_handoff p h (newest_first l) ∙ omega (arith, tally-newest_first p l)

pub tally-drop_le :
    (p : RetainedHandoff → Bool) (n : ℕ) (l : List RetainedHandoff) → tally p (drop n l) ≤ tally p l
tally-drop_le p n l =
    omega (arith, tally-append p (take n l) (drop n l), ap (tally p) (take-append-drop n l))

pub length-true : (l : List RetainedHandoff) → length l ≡ tally (λ h. true) l
length-true l =
    length-tally (λ h. true) l (All-always (λ h. ◌≡◌ {A = Bool} true true) l (λ h. refl))

pub length-newest_first : (l : List RetainedHandoff) → length (newest_first l) ≡ length l
length-newest_first l =
    length-true (newest_first l) ∙ tally-newest_first (λ h. true) l ∙ sym (length-true l)

pub handoff_ids-All :
    (l : List RetainedHandoff) → All (λ (h : RetainedHandoff). has h.id (handoff_ids l) ≡ true) l
unfolding has
handoff_ids-All [] = tt
handoff_ids-All (h ∷ l) = (
  rw (==_refl h.id) refl,
  All-map (λ (x : RetainedHandoff). has x.id (handoff_ids l) ≡ true)
      (λ (x : RetainedHandoff). has x.id (handoff_ids (h ∷ l)) ≡ true) l (λ x q. ground arith)
      (handoff_ids-All l),
)

pub has-handoff_ids :
    (i : ℕ) (l : List RetainedHandoff) → tally (is_row i) l ≡ 0 → has i (handoff_ids l) ≡ false
unfolding has tally
has-handoff_ids i [] e = refl
has-handoff_ids i (h ∷ l) e = let ih = has-handoff_ids i l (ground arith) in ground arith

-- No row has an id that was not given yet.
pub fresh_row :
    (i : ℕ) (l : List RetainedHandoff)
    → All (λ (h : RetainedHandoff). h.id ≤ i) l
    → tally (is_row (suc i)) l ≡ 0
unfolding tally
fresh_row i [] v = refl
fresh_row i (h ∷ l) v = let e = v.0 in let ih = fresh_row i l v.1 in ground arith

pub All-insert_handoff :
    (P : RetainedHandoff → Type 0) (h : RetainedHandoff) (l : List RetainedHandoff)
    → P h
    → All P l
    → All P (insert_handoff h l)
unfolding insert_handoff
All-insert_handoff P h [] p v = (p, tt)
All-insert_handoff P h (g ∷ l) p v = elim (Bool-cases (is_newer h g)) [
  | inl e ↦ rw e (p, v)
  | inr e ↦ rw e (v.0, All-insert_handoff P h l p v.1)
]

pub All-newest_first :
    (P : RetainedHandoff → Type 0) (l : List RetainedHandoff) → All P l → All P (newest_first l)
unfolding newest_first
All-newest_first P [] v = tt
All-newest_first P (h ∷ l) v =
    All-insert_handoff P h (newest_first l) v.0 (All-newest_first P l v.1)

-- The handoff that comes before every other.
abbrev pub IsNewest : RetainedHandoff → RetainedHandoff → Type 0
IsNewest h r = (r ≡ h) ⊎ ((is_newer h r ≡ true) × (is_newer r h ≡ false))

is_newer_refl : (h : RetainedHandoff) → is_newer h h ≡ true
is_newer_refl h = ground arith

first-insert_newest :
    (h : RetainedHandoff) (l : List RetainedHandoff)
    → All (IsNewest h) l
    → first_of (insert_handoff h l) ≡ some h
unfolding insert_handoff
first-insert_newest h [] v = refl
first-insert_newest h (g ∷ l) (inl e, v) =
    let same : is_newer h g ≡ true = rw e (is_newer_refl h) in rw same refl
first-insert_newest h (g ∷ l) (inr (e, k), v) = rw e refl

first-insert_other :
    (h r : RetainedHandoff) (l : List RetainedHandoff)
    → IsNewest h r
    → first_of l ≡ some h
    → first_of (insert_handoff r l) ≡ some h
unfolding insert_handoff
first-insert_other h r [] w e = absurd (cc)
first-insert_other h r (g ∷ l) (inr (p, q)) e =
    let same : g ≡ h = cc in let older : is_newer r g ≡ false = rw same q in rw older (ap some same)
first-insert_other h r (g ∷ l) (inl p) e =
    let same : g ≡ h = cc in
    elim (Bool-cases (is_newer r g)) [ inl q ↦ rw q (ap some p) | inr q ↦ rw q (ap some same) ]

-- A handoff that comes before every other is sorted first.
pub first-newest_first :
    (h : RetainedHandoff) (l : List RetainedHandoff)
    → In h l
    → All (IsNewest h) l
    → first_of (newest_first l) ≡ some h
unfolding newest_first
first-newest_first h [] i v = absurd i
first-newest_first h (r ∷ l) (inl e) v =
    rw (sym e) (first-insert_newest h (newest_first l) (All-newest_first (IsNewest h) l v.1))
first-newest_first h (r ∷ l) (inr i) v =
    first-insert_other h r (newest_first l) v.0 (first-newest_first h l i v.1)
