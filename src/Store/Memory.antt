-- ===== src/Store/Memory.antt =====
-- The writes of `MemoryStore` of henk/store/memory.py over its table as a list of rows in id order.
-- The listings are not modelled, and `str.lower` is a parameter.
pub mod Capped
pub mod Forgotten
mod Examples
use henk.Base.{
  ℕ, suc, ◌-◌, Bool, true, false, not, ◌||◌, ◌&&◌, Option, none, some, List, [], ◌∷◌, ◌++◌, Text,
  text_eq, codes, ltb, leb, ◌==◌, if◌then◌else◌, length, take, keep, tally, has, map,
}
use henk.Channel.Split.{starts_with}
use henk.Store.Content.{Rejection, Result, ok, err, checked_content, strip}

pub record Memory : Type 0 where
  pub id : ℕ
  pub content : Text
  pub memory_type : Text
  pub created_at : ℕ

pub record MemoryWrite : Type 0 where
  pub memory : Memory
  pub evicted : List Memory

-- The `memories` table; ids are given in ascending order.
pub record Memories : Type 0 where
  pub rows : List Memory
  pub last_id : ℕ

-- `_length_limit`, and `_caps.get`
pub record MemoryLimits : Type 0 where
  pub length_limit : ℕ
  pub cap_of : Text → Option ℕ

-- `MEMORY_TYPES`
abbrev pub is_memory_type : Text → Bool
is_memory_type t = text_eq t (codes "pinned") || text_eq t (codes "agent")

abbrev pub has_type : Text → Memory → Bool
has_type t m = text_eq t m.memory_type

-- `ORDER BY created_at ASC, id ASC`
abbrev pub is_older : Memory → Memory → Bool
is_older a b = ltb a.created_at b.created_at || a.created_at == b.created_at && leb a.id b.id

unfoldable pub insert_memory : Memory → List Memory → List Memory
insert_memory m [] = m ∷ []
insert_memory m (n ∷ l) =
    let rest = insert_memory m l in if is_older m n then m ∷ n ∷ l else n ∷ rest

unfoldable pub by_age : List Memory → List Memory
by_age [] = []
by_age (m ∷ l) = insert_memory m (by_age l)

-- `count`
abbrev pub count : Text → List Memory → ℕ
count t rows = tally (has_type t) rows

-- `max(cap, 1)`
abbrev pub at_least_one : ℕ → ℕ
at_least_one cap = if cap == 0 then 1 else cap

-- The rows that `_trim_locked` evicts: the oldest of the type that are not the new one.
unfoldable pub evictions : ℕ → Text → ℕ → List Memory → List Memory
evictions cap t protect rows =
    take (count t rows - at_least_one cap)
      (keep (λ (m : Memory). not (m.id == protect)) (by_age (keep (has_type t) rows)))

abbrev pub ids_of : List Memory → List ℕ
ids_of = map (λ (m : Memory). m.id)

-- `DELETE FROM memories WHERE id = ?`, for each of the ids
unfoldable pub delete_ids : List ℕ → List Memory → List Memory
delete_ids ids rows = keep (λ (m : Memory). not (has m.id ids)) rows

-- `_trim_locked`: what is evicted, and the rows that are left
unfoldable pub trim : Option ℕ → Text → ℕ → List Memory → List Memory × List Memory
trim none t protect rows = ([], rows)
trim (some cap) t protect rows =
    let evicted = evictions cap t protect rows in (evicted, delete_ids (ids_of evicted) rows)

-- The transaction of `add`: the insert and the eviction.
unfoldable pub add_checked : MemoryLimits → Text → Text → ℕ → Memories → MemoryWrite × Memories
add_checked lim content t now db =
    let m : Memory = record {
      id = suc db.last_id;
      content = content;
      memory_type = t;
      created_at = now;
    } in
    let (evicted, left) = trim (lim.cap_of t) t (suc db.last_id) (db.rows ++ m ∷ []) in
    (record { memory = m; evicted = evicted }, record { rows = left; last_id = suc db.last_id })

abbrev pub stored : MemoryWrite × Memories → Result MemoryWrite × Memories
stored (w, db) = (ok w, db)

abbrev pub add_content :
    MemoryLimits → Text → ℕ → Memories → Result Text → Result MemoryWrite × Memories
add_content lim t now db (err e) = (err e, db)
add_content lim t now db (ok content) = stored (add_checked lim content t now db)

unfoldable pub add : MemoryLimits → Text → Text → ℕ → Memories → Result MemoryWrite × Memories
add lim text t now db =
    if is_memory_type t
    then add_content lim t now db (checked_content lim.length_limit text)
    else (err Rejection.unknown_type, db)

-- `token in text`
unfoldable pub has_part : Text → Text → Bool
has_part token [] = starts_with token []
has_part token (c ∷ s) = starts_with token (c ∷ s) || has_part token s

module _ (lower : Text → Text) where
  abbrev pub mentions_token : Text → Memory → Bool
  mentions_token token m = has_part token (lower (strip m.content))

  -- `delete_containing`: what is removed, and the table that is left
  unfoldable pub delete_containing : Text → Memories → List Memory × Memories
  delete_containing needle db =
      let token = lower (strip needle) in
      let matches = keep (mentions_token token) db.rows in
      if length token == 0
      then ([], db)
      else (matches, record db { rows = delete_ids (ids_of matches) db.rows })
