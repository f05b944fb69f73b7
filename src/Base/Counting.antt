-- ===== src/Base/Counting.antt =====
-- Laws of counting (`tally`), of `keep`, `take` and `drop`.
use Prim.Native.Nat.{ℕ, zero, suc, ◌+◌, ◌-◌, ◌≤◌}
use mathlib.Core.Path.{◌≡◌, refl, ap}
use mathlib.Core.Logic.{inl, inr}
use mathlib.Core.Bool.{Bool, true, not, ◌&&◌}
use mathlib.Core.List.{List, [], ◌∷◌, ◌++◌}
use native.Mathlib.Omega.{arith}
use henk.Base.Tests.{Bool-cases}
use henk.Base.Lists.{length, take, drop, keep, tally}
use henk.Base.Everywhere.{All, In}

module _ {A : Type 0} where
  pub tally-append : (p : A → Bool) (l m : List A) → tally p (l ++ m) ≡ tally p l + tally p m
  unfolding tally
  tally-append p [] m = omega arith
  tally-append p (x ∷ l) m = let ih = tally-append p l m in omega arith

  pub tally-keep : (p q : A → Bool) (l : List A) → tally p (keep q l) ≡ tally (λ x. q x && p x) l
  unfolding tally keep
  tally-keep p q [] = refl
  tally-keep p q (x ∷ l) = let ih = tally-keep p q l in ground arith

  pub tally-take_le : (p : A → Bool) (n : ℕ) (l : List A) → tally p (take n l) ≤ tally p l
  unfolding tally
  tally-take_le p zero l = omega arith
  tally-take_le p (suc n) [] = omega arith
  tally-take_le p (suc n) (x ∷ l) = omega (arith, tally-take_le p n l)

  pub tally_split :
      (p q : A → Bool) (l : List A)
      → tally p l ≡ tally (λ x. q x && p x) l + tally (λ x. not (q x) && p x) l
  unfolding tally
  tally_split p q [] = omega arith
  tally_split p q (x ∷ l) = let ih = tally_split p q l in ground arith

  pub tally_le : (p q : A → Bool) (l : List A) → tally (λ x. q x && p x) l ≤ tally p l
  tally_le p q l = omega (arith, tally_split p q l)

  pub tally_comm :
      (p q : A → Bool) (l : List A) → tally (λ x. q x && p x) l ≡ tally (λ x. p x && q x) l
  unfolding tally
  tally_comm p q [] = refl
  tally_comm p q (x ∷ l) = let ih = tally_comm p q l in ground arith

  pub length-tally : (p : A → Bool) (l : List A) → All (λ x. p x ≡ true) l → length l ≡ tally p l
  unfolding tally
  length-tally p [] h = refl
  length-tally p (x ∷ l) h = let ih = length-tally p l h.1 in let e = h.0 in ground arith

  pub length-keep : (p : A → Bool) (l : List A) → length (keep p l) ≡ tally p l
  unfolding tally keep
  length-keep p [] = refl
  length-keep p (x ∷ l) = let ih = length-keep p l in ground arith

  -- Every element passes a test or fails it.
  pub length_split : (q : A → Bool) (l : List A) → length l ≡ tally q l + tally (λ x. not (q x)) l
  unfolding tally
  length_split q [] = refl
  length_split q (x ∷ l) = let ih = length_split q l in ground arith

  pub length-take : (n : ℕ) (l : List A) → n ≤ length l → length (take n l) ≡ n
  length-take zero l h = refl
  length-take (suc n) [] h = omega arith
  length-take (suc n) (x ∷ l) h = omega (arith, length-take n l (omega arith))

  pub length-drop : (n : ℕ) (l : List A) → length (drop n l) ≡ length l - n
  length-drop zero l = omega arith
  length-drop (suc n) [] = omega arith
  length-drop (suc n) (x ∷ l) = omega (arith, length-drop n l)

  pub take-append-drop : (n : ℕ) (l : List A) → take n l ++ drop n l ≡ l
  take-append-drop zero l = refl
  take-append-drop (suc n) [] = refl
  take-append-drop (suc n) (x ∷ l) = ap (λ r. x ∷ r) (take-append-drop n l)

  -- Two tests that agree count the same.
  pub tally_ext : (p q : A → Bool) (l : List A) → ((x : A) → p x ≡ q x) → tally p l ≡ tally q l
  unfolding tally
  tally_ext p q [] h = refl
  tally_ext p q (x ∷ l) h = let e = h x in let ih = tally_ext p q l h in ground arith

  pub In-keep : (p : A → Bool) (a : A) (l : List A) → In a l → p a ≡ true → In a (keep p l)
  unfolding keep
  In-keep p a [] h e = h
  In-keep p a (x ∷ l) h e = elim (Bool-cases (p x)) [
    | inl q ↦ rw q (elim h [ inl v ↦ inl v | inr v ↦ inr (In-keep p a l v e) ])
    | inr q ↦ rw q (elim h [ inl v ↦ absurd (let c = ap p v in cc) | inr v ↦ In-keep p a l v e ])
  ]

  pub In-append_left : (a : A) (l m : List A) → In a l → In a (l ++ m)
  In-append_left a [] m h = absurd h
  In-append_left a (x ∷ l) m (inl e) = inl e
  In-append_left a (x ∷ l) m (inr h) = inr (In-append_left a l m h)

  pub In-append_right : (a : A) (l m : List A) → In a m → In a (l ++ m)
  In-append_right a [] m h = h
  In-append_right a (x ∷ l) m h = inr (In-append_right a l m h)

  pub In-last : (l : List A) (a : A) → In a (l ++ a ∷ [])
  In-last [] a = inl refl
  In-last (x ∷ l) a = inr (In-last l a)
