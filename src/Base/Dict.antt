-- ===== src/Base/Dict.antt =====
-- A Python dict as an association list in insertion order, keyed by texts; a set of texts; and
-- the order of texts by code points.
use mathlib.Core.Path.{◌≡◌, refl}
use mathlib.Core.Logic.{inl, inr}
use mathlib.Core.Bool.{Bool, true, false}
use mathlib.Core.List.{List, [], ◌∷◌, map}
use mathlib.Core.Option.{Option, none, some}
use native.Mathlib.Omega.{arith}
use henk.Base.Tests.{
  Text, text_eq, text_eq_sound, text_eq_refl, ltb, ◌==◌, if◌then◌else◌, Bool-cases,
}

module _ {A : Type 0} where
  -- `get`
  unfoldable pub get_key : Text → List (Text × A) → Option A
  get_key k [] = none
  get_key k ((j, a) ∷ l) = let rest = get_key k l in if text_eq k j then some a else rest

  -- Assignment to a key: the place of a key that is there is kept.
  unfoldable pub set_key : Text → A → List (Text × A) → List (Text × A)
  set_key k a [] = (k, a) ∷ []
  set_key k a ((j, b) ∷ l) =
      let rest = set_key k a l in if text_eq k j then (j, a) ∷ l else (j, b) ∷ rest

  -- `pop(key, None)`
  unfoldable pub remove_key : Text → List (Text × A) → List (Text × A)
  remove_key k [] = []
  remove_key k ((j, a) ∷ l) = let rest = remove_key k l in if text_eq k j then l else (j, a) ∷ rest

  abbrev pub values : List (Text × A) → List A
  values = map (λ (e : Text × A). e.1)

  abbrev pub keys_of : List (Text × A) → List Text
  keys_of = map (λ (e : Text × A). e.0)

-- `key in seen`
unfoldable pub has_key : Text → List Text → Bool
has_key k [] = false
has_key k (j ∷ l) = let rest = has_key k l in if text_eq k j then true else rest

-- `s < t` on texts
unfoldable pub text_lt : Text → Text → Bool
text_lt s [] = false
text_lt [] (_ ∷ _) = true
text_lt (a ∷ s) (b ∷ t) =
    let rest = text_lt s t in if ltb a b then true else if a == b then rest else false

pub get_key-set_key :
    {A : Type 0}
    → (k j : Text) (a : A) (l : List (Text × A))
    → get_key k (set_key j a l) ≡ (if text_eq k j then some a else get_key k l)
unfolding get_key set_key
get_key-set_key k j a [] = refl
get_key-set_key k j a ((i, b) ∷ l) = elim (Bool-cases (text_eq j i)) [
  | inl e ↦
      let q = text_eq_sound j i e in
      rw (e, q) (elim (Bool-cases (text_eq k i)) [ inl f ↦ rw f refl | inr f ↦ rw f refl ])
  | inr e ↦ elim (Bool-cases (text_eq k i)) [
    | inr f ↦ rw (e, f) (get_key-set_key k j a l)
    | inl f ↦
        rw (e, f)
          (elim (Bool-cases (text_eq k j)) [
            | inr u ↦ rw u refl
            | inl u ↦ ground (arith, text_eq_sound k j u, text_eq_sound k i f, text_eq_refl k)
          ])
  ]
]
