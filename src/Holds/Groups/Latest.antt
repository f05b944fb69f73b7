-- ===== src/Holds/Groups/Latest.antt =====
-- Counting in a dict after an assignment, and in the dict that `group_held` of
-- henk/events/holds.py builds.
use henk.Base.{
  ◌+◌, ◌≡◌, refl, ap, inl, inr, Bool, false, not, ◌||◌, ◌&&◌, List, [], ◌∷◌, Text, text_eq,
  text_eq_sound, text_eq_comm, if◌then◌else◌, tally, arith, Bool-cases, has_key, set_key, keys_of,
}

-- Every key once
abbrev pub IsDict : {A : Type 0} → List (Text × A) → Type 0
IsDict [] = Unit
IsDict ((k, a) ∷ d) = (has_key k (keys_of d) ≡ false) × IsDict d

tally_absent :
    {A : Type 0}
    → (q : Text × A → Bool) (k : Text) (d : List (Text × A)) → has_key k (keys_of d) ≡ false
    → tally (λ e. not (text_eq k e.0) && q e) d ≡ tally q d
unfolding tally has_key
tally_absent q k [] h = refl
tally_absent q k ((j, a) ∷ d) h = let ih = tally_absent q k d in ground arith

pub tally-set_key :
    {A : Type 0}
    → (q : Text × A → Bool) (k : Text) (a : A) (d : List (Text × A)) → IsDict d
    → tally q (set_key k a d)
      ≡ tally (λ e. not (text_eq k e.0) && q e) d + (if q (k, a) then 1 else 0)
unfolding tally set_key
tally-set_key q k a [] h = omega arith
tally-set_key q k a ((j, b) ∷ d) h = elim (Bool-cases (text_eq k j)) [
  | inl e ↦
      let s = text_eq_sound k j e in
      let z = tally_absent q k d (rw s h.0) in let c = ap (λ t. q (t, a)) s in rw e (ground arith)
  | inr e ↦ let ih = tally-set_key q k a d h.1 in rw e (omega (arith, ih))
]

has_key-set_key :
    {A : Type 0}
    → (i k : Text) (a : A) (d : List (Text × A))
    → has_key i (keys_of (set_key k a d)) ≡ (has_key i (keys_of d) || text_eq i k)
unfolding has_key set_key
has_key-set_key i k a [] = ground arith
has_key-set_key i k a ((j, b) ∷ d) = elim (Bool-cases (text_eq k j)) [
  | inl e ↦ let s = text_eq_sound k j e in rw (e, s) (ground arith)
  | inr e ↦ let ih = has_key-set_key i k a d in rw e (ground arith)
]

pub set_key-IsDict :
    {A : Type 0} → (k : Text) (a : A) (d : List (Text × A)) → IsDict d → IsDict (set_key k a d)
unfolding set_key has_key
set_key-IsDict k a [] h = (refl, tt)
set_key-IsDict k a ((j, b) ∷ d) h = elim (Bool-cases (text_eq k j)) [
  | inl e ↦ rw e h
  | inr e ↦
      rw e (ground (arith, has_key-set_key j k a d, text_eq_comm k j), set_key-IsDict k a d h.1)
]
