-- ===== src/Store/Memory/Capped.antt =====
-- The cap of henk/store/memory.py over a write: what is evicted, and what was written.
use henk.Base.{
  tally-keep, tally-take_le, tally_split, tally_le, tally_comm, length-tally, length-keep,
  length-take, In-keep, In-last, tally-append, ℕ, suc, ◌-◌, ◌≤◌, ◌≡◌, refl, ◌∙◌, inl, inr, Bool,
  true, false, not, ◌&&◌, Option, none, some, List, [], ◌∷◌, ◌++◌, Text, ==_refl, ◌==◌, length,
  keep, tally, has, arith, Bool-cases, All, All-map, All-take, All-keep, All-always, In,
}
use henk.Store.Content.{Result, ok, err, checked_content}
use henk.Store.Memory.{
  Memory, MemoryWrite, Memories, MemoryLimits, has_type, is_older, insert_memory, by_age, count,
  at_least_one, evictions, ids_of, delete_ids, trim, add, add_content, add_checked, is_memory_type,
}

tally-insert_memory :
    (p : Memory → Bool) (m : Memory) (l : List Memory)
    → tally p (insert_memory m l) ≡ tally p (m ∷ l)
unfolding insert_memory tally
tally-insert_memory p m [] = refl
tally-insert_memory p m (n ∷ l) = elim (Bool-cases (is_older m n)) [
  | inl e ↦ rw e refl
  | inr e ↦ rw e (omega (arith, tally-insert_memory p m l))
]

tally-by_age : (p : Memory → Bool) (l : List Memory) → tally p (by_age l) ≡ tally p l
unfolding by_age tally
tally-by_age p [] = refl
tally-by_age p (m ∷ l) = tally-insert_memory p m (by_age l) ∙ omega (arith, tally-by_age p l)

-- Every memory of a list has one of the list's ids.
pub ids_of-All : (l : List Memory) → All (λ (m : Memory). has m.id (ids_of l) ≡ true) l
unfolding has
ids_of-All [] = tt
ids_of-All (m ∷ l) = (
  rw (==_refl m.id) refl,
  All-map (λ (x : Memory). has x.id (ids_of l) ≡ true)
      (λ (x : Memory). has x.id (ids_of (m ∷ l)) ≡ true) l (λ x h. ground arith) (ids_of-All l),
)

at_least_one_pos : (cap : ℕ) → 1 ≤ at_least_one cap
at_least_one_pos cap = ground arith

-- Where at most one row has the protected id, enough rows may be evicted.
evictions-length :
    (cap : ℕ) (t : Text) (protect : ℕ) (rows : List Memory)
    → tally (λ (m : Memory). m.id == protect) rows ≤ 1
    → length (evictions cap t protect rows) ≡ count t rows - at_least_one cap
unfolding evictions
evictions-length cap t protect rows h =
    let other = λ (m : Memory). not (m.id == protect) in
    let ordered = by_age (keep (has_type t) rows) in
    let a = length-keep other ordered in
    let b = tally-by_age other (keep (has_type t) rows) in
    let c = tally-keep other (has_type t) rows in
    let d = tally_comm other (has_type t) rows in
    let e = tally_split (has_type t) (λ (m : Memory). m.id == protect) rows in
    let f = tally_comm (has_type t) (λ (m : Memory). m.id == protect) rows in
    let g = tally_le (λ (m : Memory). m.id == protect) (has_type t) rows in
    let one = at_least_one_pos cap in
    length-take (count t rows - at_least_one cap) (keep other ordered) (omega arith)

-- As many rows of the type as are evicted have an evicted id.
evictions_le :
    (cap : ℕ) (t : Text) (protect : ℕ) (rows : List Memory)
    → length (evictions cap t protect rows)
      ≤ tally
          (λ (m : Memory). has m.id (ids_of (evictions cap t protect rows)) && has_type t m)
          rows
evictions_le cap t protect rows =
    let gone = λ (m : Memory). has m.id (ids_of (evictions cap t protect rows)) in
    let other = λ (m : Memory). not (m.id == protect) in
    let ordered = by_age (keep (has_type t) rows) in
    let n = count t rows - at_least_one cap in
    let a =
      length-tally gone (evictions cap t protect rows)
        (ids_of-All (evictions cap t protect rows)) in
    let b : tally gone (evictions cap t protect rows) ≤ tally gone (keep other ordered) =
      unfold evictions in tally-take_le gone n (keep other ordered) in
    let c = tally-keep gone other ordered in
    let d = tally_le gone other ordered in
    let e = tally-by_age gone (keep (has_type t) rows) in
    let f = tally-keep gone (has_type t) rows in
    let g = tally_comm gone (has_type t) rows in omega arith

trim-count :
    (cap : ℕ) (t : Text) (protect : ℕ) (rows : List Memory)
    → tally (λ (m : Memory). m.id == protect) rows ≤ 1
    → count t (trim (some cap) t protect rows).1 ≤ at_least_one cap
unfolding trim delete_ids
trim-count cap t protect rows h =
    let gone = λ (m : Memory). has m.id (ids_of (evictions cap t protect rows)) in
    let a = tally-keep (has_type t) (λ m. not (gone m)) rows in
    let b = tally_split (has_type t) gone rows in
    let c = evictions_le cap t protect rows in
    let d = evictions-length cap t protect rows h in omega arith

has-ids_of :
    (i : ℕ) (l : List Memory)
    → All (λ (m : Memory). not (m.id == i) ≡ true) l
    → has i (ids_of l) ≡ false
unfolding has
has-ids_of i [] h = refl
has-ids_of i (m ∷ l) h = let e = h.0 in let ih = has-ids_of i l h.1 in ground arith

evictions-All :
    (cap : ℕ) (t : Text) (protect : ℕ) (rows : List Memory)
    → All (λ (m : Memory). not (m.id == protect) ≡ true) (evictions cap t protect rows)
unfolding evictions
evictions-All cap t protect rows =
    let other = λ (m : Memory). not (m.id == protect) in
    let ordered = by_age (keep (has_type t) rows) in
    All-take (λ (m : Memory). other m ≡ true) (count t rows - at_least_one cap) (keep other ordered)
      (All-map (λ (m : Memory). Unit × (other m ≡ true)) (λ (m : Memory). other m ≡ true)
        (keep other ordered) (λ m h. h.1)
        (All-keep (λ m. Unit) other ordered (All-always (λ m. Unit) ordered (λ m. tt))))

In-trim :
    (cap : Option ℕ) (t : Text) (m : Memory) (rows : List Memory)
    → In m rows
    → In m (trim cap t m.id rows).1
unfolding trim delete_ids evictions
In-trim none t m rows h = h
In-trim (some cap) t m rows h =
    In-keep (λ x. not (has x.id (ids_of (evictions cap t m.id rows)))) m rows h
      (rw (has-ids_of m.id (evictions cap t m.id rows) (evictions-All cap t m.id rows)) refl)

-- No row has an id that was not given yet.
fresh :
    (i : ℕ) (l : List Memory)
    → All (λ (m : Memory). m.id ≤ i) l
    → tally (λ (m : Memory). m.id == suc i) l ≡ 0
unfolding tally
fresh i [] h = refl
fresh i (m ∷ l) h = let e = h.0 in let ih = fresh i l h.1 in ground arith

-- Of `add`: a refusal changes nothing; a write is kept, and its type is within its cap.
abbrev pub Adds : MemoryLimits → Text → Memories → Result MemoryWrite × Memories → Type 0
Adds lim t db (err e, db') = db' ≡ db
Adds lim t db (ok w, db') =
    In w.memory db'.rows
    × ((cap : ℕ) → lim.cap_of t ≡ some cap → count t db'.rows ≤ at_least_one cap)

one_protected :
    (m : Memory) (i : ℕ) (l : List Memory)
    → All (λ (x : Memory). x.id ≤ i) l
    → m.id ≡ suc i
    → tally (λ (x : Memory). x.id == suc i) (l ++ m ∷ []) ≤ 1
unfolding tally
one_protected m i l h e =
    let a = tally-append (λ (x : Memory). x.id == suc i) l (m ∷ []) in
    let b = fresh i l h in ground arith

add_content-Adds :
    (lim : MemoryLimits) (t : Text) (now : ℕ) (db : Memories) (r : Result Text)
    → All (λ (m : Memory). m.id ≤ db.last_id) db.rows
    → Adds lim t db (add_content lim t now db r)
unfolding add_checked
add_content-Adds lim t now db (err e) v = refl
add_content-Adds lim t now db (ok content) v =
    let m : Memory = record {
      id = suc db.last_id;
      content = content;
      memory_type = t;
      created_at = now;
    } in
    (
      In-trim (lim.cap_of t) t m (db.rows ++ m ∷ []) (In-last db.rows m),
      λ bound q. rw q (
          trim-count bound t (suc db.last_id) (db.rows ++ m ∷ [])
            (one_protected m db.last_id db.rows v refl)),
    )

-- From a table whose ids were all given, `add` either refuses, and then changes nothing, or stores
-- the memory, which its own eviction spares, and leaves at most the cap of its type (one, where the
-- cap is zero), however many there were before.
pub add-Adds :
    (lim : MemoryLimits) (text t : Text) (now : ℕ) (db : Memories)
    → All (λ (m : Memory). m.id ≤ db.last_id) db.rows
    → Adds lim t db (add lim text t now db)
unfolding add
add-Adds lim text t now db v = elim (Bool-cases (is_memory_type t)) [
  | inr e ↦ rw (add, e) refl
  | inl e ↦ rw (add, e) (add_content-Adds lim t now db (checked_content lim.length_limit text) v)
]
