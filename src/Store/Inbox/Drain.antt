-- ===== src/Store/Inbox/Drain.antt =====
-- The page and the count of `list_open` of henk/store/inbox.py.
use henk.Base.{
  tally-keep, take-append-drop, length-drop, ℕ, zero, suc, ◌-◌, ◌≤◌, ◌<◌, ◌≡◌, refl, ◌∙◌, inl, inr,
  Bool, true, false, ◌&&◌, Option, none, some, List, [], ◌∷◌, ◌++◌, length, take, drop, keep, tally,
  arith, Bool-cases, All, All-map, append_nil,
}
use henk.Store.Inbox.{
  InboxItem, InboxPage, Inbox, is_open, is_before, insert_item, oldest_first, list_open,
}

abbrev pub IsOldestFirst : List InboxItem → Type 0
IsOldestFirst [] = Unit
IsOldestFirst (i ∷ l) = All (λ j. is_before i j ≡ true) l × IsOldestFirst l

is_before_total : (i j : InboxItem) → is_before i j ≡ false → is_before j i ≡ true
is_before_total i j h = ground arith

is_before_trans :
    (i j k : InboxItem) → is_before i j ≡ true → is_before j k ≡ true → is_before i k ≡ true
is_before_trans i j k h q = ground arith

All-insert_item :
    (P : InboxItem → Type 0) (i : InboxItem) (l : List InboxItem)
    → P i
    → All P l
    → All P (insert_item i l)
unfolding insert_item
All-insert_item P i [] h q = (h, tt)
All-insert_item P i (j ∷ l) h q = elim (Bool-cases (is_before i j)) [
  | inl e ↦ rw e (h, q)
  | inr e ↦ rw e (q.0, All-insert_item P i l h q.1)
]

insert_item-IsOldestFirst :
    (i : InboxItem) (l : List InboxItem) → IsOldestFirst l → IsOldestFirst (insert_item i l)
unfolding insert_item
insert_item-IsOldestFirst i [] h = (tt, tt)
insert_item-IsOldestFirst i (j ∷ l) h = elim (Bool-cases (is_before i j)) [
  | inl e ↦ rw e (
    (
      e,
      All-map (λ k. is_before j k ≡ true) (λ k. is_before i k ≡ true) l
          (λ k q. is_before_trans i j k e q) h.0,
    ),
    h,
  )
  | inr e ↦ rw e (
    All-insert_item (λ k. is_before j k ≡ true) i l (is_before_total i j e) h.0,
    insert_item-IsOldestFirst i l h.1,
  )
]

oldest_first-IsOldestFirst : (l : List InboxItem) → IsOldestFirst (oldest_first l)
unfolding oldest_first
oldest_first-IsOldestFirst [] = tt
oldest_first-IsOldestFirst (i ∷ l) =
    insert_item-IsOldestFirst i (oldest_first l) (oldest_first-IsOldestFirst l)

tally-insert_item :
    (p : InboxItem → Bool) (i : InboxItem) (l : List InboxItem)
    → tally p (insert_item i l) ≡ tally p (i ∷ l)
unfolding insert_item tally
tally-insert_item p i [] = refl
tally-insert_item p i (j ∷ l) = elim (Bool-cases (is_before i j)) [
  | inl e ↦ rw e refl
  | inr e ↦ rw e (omega (arith, tally-insert_item p i l))
]

tally-oldest_first :
    (p : InboxItem → Bool) (l : List InboxItem) → tally p (oldest_first l) ≡ tally p l
unfolding oldest_first tally
tally-oldest_first p [] = refl
tally-oldest_first p (i ∷ l) =
    tally-insert_item p i (oldest_first l) ∙ omega (arith, tally-oldest_first p l)

-- How many items a page shows of all the open ones: the limit, as far as there are so many.
abbrev pub Shows : Option ℕ → ℕ → ℕ → Type 0
Shows none shown hidden = hidden ≡ 0
Shows (some n) shown hidden = (shown ≤ n) × (0 < hidden → shown ≡ n)

take-Shows : (n : ℕ) (l : List InboxItem) → Shows (some n) (length (take n l)) (length l - n)
take-Shows zero l = (omega arith, λ h. refl)
take-Shows (suc n) [] = (omega arith, λ h. omega arith)
take-Shows (suc n) (i ∷ l) =
    let ih = take-Shows n l in (omega (arith, ih.0), λ h. omega (arith, ih.1 (omega arith)))

-- A page, with the newer items that it does not show.
abbrev pub Drains : Option ℕ → Inbox → InboxPage → Type 0
Drains limit box page =
    (newer : List InboxItem) × (length newer ≡ page.newer_remainder)
    × Shows limit (length page.items) page.newer_remainder
    × IsOldestFirst (page.items ++ newer)
    × ((p : InboxItem → Bool)
        → tally p (page.items ++ newer) ≡ tally (λ i. is_open i && p i) box.rows)

-- For every limit, `list_open` shows as many items as the limit allows, and what it shows and then
-- as many newer items as it counts are, oldest first, all the open items of the inbox, each as
-- often as the inbox holds it.
pub list_open-Drains : (limit : Option ℕ) (box : Inbox) → Drains limit box (list_open limit box)
unfolding list_open
list_open-Drains none box =
    let all = oldest_first (keep is_open box.rows) in
    (
      [],
      refl,
      refl,
      rw (append_nil all) (oldest_first-IsOldestFirst (keep is_open box.rows)),
      λ p.
          rw (append_nil all)
            (tally-oldest_first p (keep is_open box.rows) ∙ tally-keep p is_open box.rows),
    )
list_open-Drains (some n) box =
    let all = oldest_first (keep is_open box.rows) in
    (
      drop n all,
      length-drop n all,
      take-Shows n all,
      rw (take-append-drop n all) (oldest_first-IsOldestFirst (keep is_open box.rows)),
      λ p.
          rw (take-append-drop n all)
            (tally-oldest_first p (keep is_open box.rows) ∙ tally-keep p is_open box.rows),
    )
