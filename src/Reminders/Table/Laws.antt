-- ===== src/Reminders/Table/Laws.antt =====
-- Laws of the SQL statements of henk/store/reminders.py: an `UPDATE` keeps what its `SET` keeps
-- row by row, and a `SELECT` returns the rows that pass its `WHERE`, oldest due first.
use henk.Base.{
  ℕ, ◌+◌, ◌≤◌, ◌<◌, ◌≡◌, inl, inr, Bool, true, false, some, List, [], ◌∷◌, ◌++◌, arith, ◌==◌,
  if◌then◌else◌, keep, tally, All, All-keep, In, Grows, Bool-cases,
}
use henk.Reminders.Row.{Reminder}
use henk.Reminders.Table.{update_where, find_id, due_before, insert_due, order_by_due, select}

module _ (p : Reminder → Bool) (f : Reminder → Reminder) where
  -- An `UPDATE` that takes `P` to `Q` on each row.
  pub All-update_where :
      (P Q : Reminder → Type 0)
      → ((r : Reminder) → P r → Q (if p r then f r else r))
      → (rows : List Reminder) → All P rows
      → All Q (update_where p f rows)
  unfolding update_where
  All-update_where P Q step [] h = tt
  All-update_where P Q step (r ∷ rs) h = (step r h.0, All-update_where P Q step rs h.1)

  pub Grows-update_where :
      (R : Reminder → Reminder → Type 0) (P : Reminder → Type 0)
      → ((r : Reminder) → P r → R r (if p r then f r else r))
      → (rows : List Reminder) → All P rows
      → Grows R rows (update_where p f rows)
  unfolding update_where
  Grows-update_where R P step [] h = tt
  Grows-update_where R P step (r ∷ rs) h = (step r h.0, Grows-update_where R P step rs h.1)

  -- An `UPDATE` under which no row starts to pass a test does not raise the test's count.
  pub tally-update_where_le :
      (q : Reminder → Bool)
      → ((r : Reminder) → q r ≡ false → q (if p r then f r else r) ≡ false)
      → (rows : List Reminder) → tally q (update_where p f rows) ≤ tally q rows
  unfolding update_where tally
  tally-update_where_le q step [] = omega arith
  tally-update_where_le q step (r ∷ rs) = elim (Bool-cases (q r)) [
    | inl e ↦ rw e (elim (Bool-cases (q (if p r then f r else r))) [
      | inl e' ↦ rw e' (omega (arith, tally-update_where_le q step rs))
      | inr e' ↦ rw e' (omega (arith, tally-update_where_le q step rs))
    ])
    | inr e ↦ rw (e, step r e) (omega (arith, tally-update_where_le q step rs))
  ]

  -- In general the count rises at most by the number of rows that the `UPDATE` writes.
  pub tally-update_where_add :
      (q : Reminder → Bool) (rows : List Reminder)
      → tally q (update_where p f rows) ≤ tally q rows + tally p rows
  unfolding update_where tally
  tally-update_where_add q [] = omega arith
  tally-update_where_add q (r ∷ rs) =
      let ih = tally-update_where_add q rs in
      elim (Bool-cases (p r)) [
        | inl e ↦ rw e (ground (arith, ih))
        | inr e ↦ rw e (ground (arith, ih))
      ]

pub tally-append :
    (q : Reminder → Bool) (xs ys : List Reminder) → tally q (xs ++ ys) ≡ tally q xs + tally q ys
unfolding tally
tally-append q [] ys = omega arith
tally-append q (x ∷ xs) ys = omega (arith, tally-append q xs ys)

-- The ids rise strictly, from above `lo`.
abbrev pub Ascending : ℕ → List Reminder → Type 0
Ascending lo [] = Unit
Ascending lo (r ∷ rs) = (lo < r.id) × Ascending r.id rs

pub Ascending-update_where :
    (p : Reminder → Bool) (f : Reminder → Reminder)
    → ((r : Reminder) → (if p r then f r else r).id ≡ r.id)
    → (lo : ℕ) (rows : List Reminder) → Ascending lo rows
    → Ascending lo (update_where p f rows)
unfolding update_where
Ascending-update_where p f same lo [] h = tt
Ascending-update_where p f same lo (r ∷ rs) h =
    rw same (h.0, Ascending-update_where p f same r.id rs h.1)

pub Ascending-append :
    (lo last : ℕ) (rows : List Reminder) (row : Reminder)
    → Ascending lo rows
    → lo ≤ last
    → All (λ r. r.id ≤ last) rows
    → last < row.id
    → Ascending lo (rows ++ row ∷ [])
Ascending-append lo last [] row h le hi lt = (omega arith, tt)
Ascending-append lo last (r ∷ rs) row h le hi lt =
    (h.0, Ascending-append r.id last rs row h.1 hi.0 hi.1 lt)

-- Above a bound no row has an id within it.
pub Ascending-ne :
    (lo i : ℕ) (P : Reminder → Type 0) (rows : List Reminder)
    → Ascending lo rows
    → i ≤ lo
    → All (λ r. r.id ≡ i → P r) rows
Ascending-ne lo i P [] h le = tt
Ascending-ne lo i P (r ∷ rs) h le =
    (λ e. absurd (omega arith), Ascending-ne r.id i P rs h.1 (omega arith))

-- What holds of one row of the table holds of every row with its id.
pub Ascending-unique :
    (P : Reminder → Type 0) (lo : ℕ) (x : Reminder) (rows : List Reminder)
    → Ascending lo rows
    → In x rows
    → P x
    → All (λ r. r.id ≡ x.id → P r) rows
Ascending-unique P lo x [] h m px = tt
Ascending-unique P lo x (r ∷ rs) h (inl e) px =
    (λ _. rw (← e) px, Ascending-ne r.id x.id P rs h.1 (rw e (omega arith)))
Ascending-unique P lo x (r ∷ rs) h (inr m) px =
    (λ e. absurd (clash r.id rs h.1 m (omega arith)), Ascending-unique P r.id x rs h.1 m px)
  where
    clash : (k : ℕ) (l : List Reminder) → Ascending k l → In x l → x.id ≤ k → ⊥
    clash k [] a i le = i
    clash k (y ∷ l) a (inl e) le = absurd (omega (arith, ap_id e))
      where
        ap_id : x ≡ y → x.id ≡ y.id
        ap_id q = cc
    clash k (y ∷ l) a (inr i) le = clash y.id l a.1 i (omega arith)

-- `find_id` returns a row of the table with that id.
pub find_id-some :
    (i : ℕ) (rows : List Reminder) (r : Reminder) → find_id i rows ≡ some r → In r rows × (r.id ≡ i)
unfolding find_id
find_id-some i [] r h = cc
find_id-some i (x ∷ xs) r h = elim (Bool-cases (x.id == i)) [
  | inl e ↦ ground (arith)
  | inr e ↦ let (m, q) = find_id-some i xs r (ground arith) in (inr m, q)
]

-- Inserting and sorting only reorder.
pub All-insert_due :
    (P : Reminder → Type 0) (x : Reminder) (ys : List Reminder)
    → P x
    → All P ys
    → All P (insert_due x ys)
unfolding insert_due
All-insert_due P x [] px h = (px, tt)
All-insert_due P x (y ∷ ys) px h = elim (Bool-cases (due_before x y)) [
  | inl e ↦ rw e (px, h)
  | inr e ↦ rw e (h.0, All-insert_due P x ys px h.1)
]

pub All-order_by_due :
    (P : Reminder → Type 0) (rows : List Reminder) → All P rows → All P (order_by_due rows)
unfolding order_by_due
All-order_by_due P [] h = tt
All-order_by_due P (r ∷ rs) h = All-insert_due P r (order_by_due rs) h.0 (All-order_by_due P rs h.1)

-- What a `SELECT` returns passes its `WHERE`, and has what every row has.
pub All-select :
    (P : Reminder → Type 0) (p : Reminder → Bool) (rows : List Reminder)
    → All P rows
    → All (λ r. P r × (p r ≡ true)) (select p rows)
unfolding select
All-select P p rows h =
    All-order_by_due (λ r. P r × (p r ≡ true)) (keep p rows) (All-keep P p rows h)
