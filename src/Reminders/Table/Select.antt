-- ===== src/Reminders/Table/Select.antt =====
-- A `SELECT` of henk/store/reminders.py misses no row that passes its `WHERE`, returns as many rows
-- as pass it, and orders them by due instant and id.
use henk.Base.{
  ℕ, zero, suc, ◌≤◌, ◌≡◌, refl, ◌⊎◌, inl, inr, Bool, true, List, [], ◌∷◌, arith, keep, has, length,
  All, In, Bool-cases, ==_refl, take, All-take, All-In, All-map, All-of_In, length-take_le, ap,
}
use henk.Reminders.Row.{Reminder}
use henk.Reminders.Table.{due_before, insert_due, order_by_due, select, ids_of}
use henk.Reminders.Table.Laws.{All-insert_due, All-select}

In-insert_due : (a x : Reminder) (ys : List Reminder) → In a (x ∷ ys) → In a (insert_due x ys)
unfolding insert_due
In-insert_due a x [] m = m
In-insert_due a x (y ∷ ys) m = elim (Bool-cases (due_before x y)) [
  | inl e ↦ rw e m
  | inr e ↦ rw e (past m (In-insert_due a x ys))
]
  where
    past : In a (x ∷ y ∷ ys) → (In a (x ∷ ys) → In a (insert_due x ys)) → In a (y ∷ insert_due x ys)
    past (inl q) ih = inr (ih (inl q))
    past (inr (inl q)) ih = inl q
    past (inr (inr q)) ih = inr (ih (inr q))

pub In-order_by_due : (a : Reminder) (rows : List Reminder) → In a rows → In a (order_by_due rows)
unfolding order_by_due
In-order_by_due a [] m = m
In-order_by_due a (r ∷ rs) (inl e) = In-insert_due a r (order_by_due rs) (inl e)
In-order_by_due a (r ∷ rs) (inr m) =
    In-insert_due a r (order_by_due rs) (inr (In-order_by_due a rs m))

In-keep :
    (p : Reminder → Bool) (x : Reminder) (rows : List Reminder)
    → In x rows
    → p x ≡ true
    → In x (keep p rows)
unfolding keep
In-keep p x [] m h = m
In-keep p x (r ∷ rs) (inl e) h = let h' : p r ≡ true = rw (← e) h in rw h' (inl e)
In-keep p x (r ∷ rs) (inr m) h = elim (Bool-cases (p r)) [
  | inl e ↦ rw e (inr (In-keep p x rs m h))
  | inr e ↦ rw e (In-keep p x rs m h)
]

-- A row of the table that passes the `WHERE` is returned.
pub In-select :
    (p : Reminder → Bool) (x : Reminder) (rows : List Reminder)
    → In x rows
    → p x ≡ true
    → In x (select p rows)
unfolding select
In-select p x rows m h = In-order_by_due x (keep p rows) (In-keep p x rows m h)

pub has-ids_of : (x : Reminder) (rows : List Reminder) → In x rows → has x.id (ids_of rows) ≡ true
unfolding has
has-ids_of x [] m = absurd m
has-ids_of x (r ∷ rs) (inl e) = rw (e, ==_refl r.id)
has-ids_of x (r ∷ rs) (inr m) = rw (has-ids_of x rs m) (ground arith)

due_before_trans :
    (x y z : Reminder) → due_before x y ≡ true → due_before y z ≡ true → due_before x z ≡ true
due_before_trans x y z h k = ground arith

-- Each row stands before none that is due earlier.
abbrev pub IsOrdered : List Reminder → Type 0
IsOrdered [] = Unit
IsOrdered (r ∷ rs) = All (λ s. due_before r s ≡ true) rs × IsOrdered rs

insert_due-IsOrdered :
    (x : Reminder) (ys : List Reminder) → IsOrdered ys → IsOrdered (insert_due x ys)
unfolding insert_due
insert_due-IsOrdered x [] o = (tt, tt)
insert_due-IsOrdered x (y ∷ ys) o = elim (Bool-cases (due_before x y)) [
  | inl e ↦ rw e (
    (
      e,
      All-map (λ s. due_before y s ≡ true) (λ s. due_before x s ≡ true) ys
          (λ s. due_before_trans x y s e) o.0,
    ),
    o,
  )
  | inr e ↦
      let flipped : due_before y x ≡ true = ground (arith, e) in
      rw e (
        All-insert_due (λ s. due_before y s ≡ true) x ys flipped o.0,
        insert_due-IsOrdered x ys o.1,
      )
]

pub order_by_due-IsOrdered : (rows : List Reminder) → IsOrdered (order_by_due rows)
unfolding order_by_due
order_by_due-IsOrdered [] = tt
order_by_due-IsOrdered (r ∷ rs) =
    insert_due-IsOrdered r (order_by_due rs) (order_by_due-IsOrdered rs)

-- What comes after the first `n` rows of an ordered selection comes before none of them.
take_before :
    (n : ℕ) (xs : List Reminder) (b : Reminder)
    → IsOrdered xs
    → In b xs
    → In b (take n xs) ⊎ (All (λ a. due_before a b ≡ true) (take n xs) × (length (take n xs) ≡ n))
take_before zero xs b o m = inr (tt, refl)
take_before (suc n) [] b o m = absurd m
take_before (suc n) (x ∷ xs) b o (inl e) = inl (inl e)
take_before (suc n) (x ∷ xs) b o (inr m) = elim (take_before n xs b o.1 m) [
  | inl t ↦ inl (inr t)
  | inr t ↦ inr ((All-In (λ s. due_before x s ≡ true) b xs o.0 m, t.0), ap suc t.1)
]

take-IsOrdered : (n : ℕ) (xs : List Reminder) → IsOrdered xs → IsOrdered (take n xs)
take-IsOrdered zero xs o = tt
take-IsOrdered (suc n) [] o = tt
take-IsOrdered (suc n) (x ∷ xs) o =
    (All-take (λ s. due_before x s ≡ true) n xs o.0, take-IsOrdered n xs o.1)

-- What `SELECT … WHERE p ORDER BY due_at ASC, id ASC LIMIT n` promises of its result `out`.
pub record IsSelection (p : Reminder → Bool) (n : ℕ) (rows out : List Reminder) : Type 0 where
  pub only : All (λ r. In r rows × (p r ≡ true)) out
  pub ordered : IsOrdered out
  pub limited : length out ≤ n
  pub fair :
      (x : Reminder)
      → In x rows
      → p x ≡ true
      → In x out ⊎ (All (λ a. due_before a x ≡ true) out × (length out ≡ n))

pub take-select-IsSelection :
    (p : Reminder → Bool) (n : ℕ) (rows : List Reminder)
    → IsSelection p n rows (take n (select p rows))
unfolding select
take-select-IsSelection p n rows =
    let sorted = order_by_due-IsOrdered (keep p rows) in
    record {
      only =
          All-take (λ r. In r rows × (p r ≡ true)) n (order_by_due (keep p rows))
            (unfold select in
              All-select (λ r. In r rows) p rows (All-of_In (λ r. In r rows) rows (λ a m. m)));
      ordered = take-IsOrdered n (order_by_due (keep p rows)) sorted;
      limited = length-take_le n (order_by_due (keep p rows));
      fair = λ x m h.
          take_before n (order_by_due (keep p rows)) x sorted
            (In-order_by_due x (keep p rows) (In-keep p x rows m h));
    }
