-- ===== src/Store/Inbox.antt =====
-- `SqliteInboxStore` of henk/store/inbox.py over its table as a list of rows in id order.
pub mod Retention
pub mod Drain
mod Examples
use henk.Base.{
  ℕ, suc, ◌-◌, Bool, true, false, ◌||◌, ◌&&◌, Option, none, some, List, [], ◌∷◌, ◌++◌, Text, ltb,
  leb, ◌==◌, if◌then◌else◌, length, take, keep, tally,
}
use henk.Store.Content.{Rejection, Result, ok, err, strip}

pub data InboxStatus : Type 0 where
  open_item done_item : InboxStatus

pub record InboxItem : Type 0 where
  pub id : ℕ
  pub text : Text
  pub created_at : ℕ
  pub source : Text
  pub status : InboxStatus

pub record InboxPage : Type 0 where
  pub items : List InboxItem
  pub newer_remainder : ℕ

-- The `inbox` table; ids are given in ascending order.
pub record Inbox : Type 0 where
  pub rows : List InboxItem
  pub last_id : ℕ

abbrev pub is_open : InboxItem → Bool
is_open i = elim i.status [ InboxStatus.open_item ↦ true | InboxStatus.done_item ↦ false ]

unfoldable pub append : Text → Text → ℕ → Inbox → Result InboxItem × Inbox
append text source now box =
    let content = strip text in
    let item : InboxItem = record {
      id = suc box.last_id;
      text = content;
      created_at = now;
      source = source;
      status = InboxStatus.open_item;
    } in
    if length content == 0
    then (err Rejection.empty_content, box)
    else (ok item, record { rows = box.rows ++ item ∷ []; last_id = suc box.last_id })

-- `ORDER BY created_at ASC, id ASC`
abbrev pub is_before : InboxItem → InboxItem → Bool
is_before a b = ltb a.created_at b.created_at || a.created_at == b.created_at && leb a.id b.id

unfoldable pub insert_item : InboxItem → List InboxItem → List InboxItem
insert_item i [] = i ∷ []
insert_item i (j ∷ l) = let rest = insert_item i l in if is_before i j then i ∷ j ∷ l else j ∷ rest

unfoldable pub oldest_first : List InboxItem → List InboxItem
oldest_first [] = []
oldest_first (i ∷ l) = insert_item i (oldest_first l)

unfoldable pub list_open : Option ℕ → Inbox → InboxPage
list_open limit box =
    let items = oldest_first (keep is_open box.rows) in
    elim limit [
      | none ↦ record { items = items; newer_remainder = 0 }
      | some n ↦ record { items = take n items; newer_remainder = length items - n }
    ]

unfoldable pub find_item : ℕ → List InboxItem → Option InboxItem
find_item i [] = none
find_item i (r ∷ l) = let rest = find_item i l in if r.id == i then some r else rest

unfoldable pub archive : ℕ → List InboxItem → List InboxItem
archive i [] = []
archive i (r ∷ l) =
    (if r.id == i && is_open r then record r { status = InboxStatus.done_item } else r)
    ∷ archive i l

unfoldable pub mark_done : ℕ → Inbox → Option InboxItem × Inbox
mark_done i box =
    if tally (λ r. r.id == i && is_open r) box.rows == 0
    then (none, box)
    else (find_item i (archive i box.rows), record box { rows = archive i box.rows })
