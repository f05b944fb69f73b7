-- ===== src/Store/Memory/Forgotten.antt =====
-- What `delete_containing` of henk/store/memory.py forgets.
use henk.Base.{
  ℕ, ◌≤◌, ◌≡◌, refl, sym, ap, ◌∙◌, inl, inr, Bool, true, false, not, ◌&&◌, List, [], ◌∷◌, Text,
  ◌==◌, ==_refl, length, keep, tally, has, arith, Bool-cases, All, All-In, All-of_In, In, In-keep,
  tally-keep, tally_split,
}
use henk.Store.Content.{strip}
use henk.Store.Memory.{Memory, Memories, ids_of, delete_ids, mentions_token, delete_containing}
use henk.Store.Memory.Capped.{ids_of-All}

keep_ext :
    (p q : Memory → Bool) (l : List Memory)
    → All (λ (m : Memory). p m ≡ q m) l
    → keep p l ≡ keep q l
unfolding keep
keep_ext p q [] h = refl
keep_ext p q (m ∷ l) h =
    let e = h.0 in
    let ih = keep_ext p q l h.1 in
    elim (Bool-cases (q m)) [
      | inl f ↦ let g = e ∙ f in rw (f, g) (ap (λ r. m ∷ r) ih)
      | inr f ↦ let g = e ∙ f in rw (f, g) ih
    ]

tally-In : (p : Memory → Bool) (m : Memory) (l : List Memory) → In m l → p m ≡ true → 1 ≤ tally p l
unfolding tally
tally-In p m [] i e = absurd i
tally-In p m (x ∷ l) (inl q) e = let f = ap p (sym q) ∙ e in ground arith
tally-In p m (x ∷ l) (inr i) e = let ih = tally-In p m l i e in ground arith

has-tally :
    (i : ℕ) (l : List Memory) → has i (ids_of l) ≡ true → 1 ≤ tally (λ (m : Memory). m.id == i) l
unfolding has tally
has-tally i [] h = absurd (cc)
has-tally i (m ∷ l) h = elim (Bool-cases (has i (ids_of l))) [
  | inl e ↦ let ih = has-tally i l e in ground arith
  | inr e ↦ ground arith
]

-- No id is twice in the table.
abbrev pub IsKeyed : List Memory → Type 0
IsKeyed rows = (i : ℕ) → tally (λ (m : Memory). m.id == i) rows ≤ 1

deleted_lem :
    (p : Memory → Bool) (rows : List Memory)
    → IsKeyed rows
    → (m : Memory) → In m rows
    → not (has m.id (ids_of (keep p rows))) ≡ not (p m)
deleted_lem p rows k m i = elim (Bool-cases (p m)) [
  | inl e ↦
      let h =
        All-In (λ (x : Memory). has x.id (ids_of (keep p rows)) ≡ true) m (keep p rows)
          (ids_of-All (keep p rows)) (In-keep p m rows i e) in
      rw (e, h) refl
  | inr e ↦ elim (Bool-cases (has m.id (ids_of (keep p rows)))) [
    | inr h ↦ rw (e, h) refl
    | inl h ↦
        let same = λ (x : Memory). x.id == m.id in
        let a = has-tally m.id (keep p rows) h in
        let b = tally-keep same p rows in
        let c = tally_split same p rows in
        let mine = ==_refl m.id in
        let d = tally-In (λ x. not (p x) && same x) m rows i (ground arith) in
        let f = k m.id in absurd (omega arith)
  ]
]

-- Of the removed memories and the table that is left.
abbrev pub Forgets : (Text → Text) → Text → Memories → List Memory × Memories → Type 0
Forgets lower needle db (removed, db') =
    (removed
      ≡ keep
          (λ m.
            not (length (lower (strip needle)) == 0)
            && mentions_token lower (lower (strip needle)) m)
          db.rows)
    × (db'.rows
        ≡ keep
            (λ m. not (
              not (length (lower (strip needle)) == 0)
              && mentions_token lower (lower (strip needle)) m))
            db.rows)
    × (db'.last_id ≡ db.last_id)

keep_none : (p : Memory → Bool) (l : List Memory) → ((m : Memory) → p m ≡ false) → keep p l ≡ []
unfolding keep
keep_none p [] h = refl
keep_none p (m ∷ l) h = let e = h m in rw e (keep_none p l h)

keep_all : (p : Memory → Bool) (l : List Memory) → ((m : Memory) → p m ≡ true) → keep p l ≡ l
unfolding keep
keep_all p [] h = refl
keep_all p (m ∷ l) h = let e = h m in rw e (ap (λ r. m ∷ r) (keep_all p l h))

-- From a table whose ids are a key, `delete_containing` removes, returns and leaves in order: where
-- the needle has a token, the memories that contain it and the others; where it is blank, none and
-- all. No id becomes free.
pub delete_containing-Forgets :
    (lower : Text → Text) (needle : Text) (db : Memories)
    → IsKeyed db.rows
    → Forgets lower needle db (delete_containing lower needle db)
unfolding delete_containing delete_ids
delete_containing-Forgets lower needle db k =
    let token = lower (strip needle) in
    let p = mentions_token lower token in
    elim (Bool-cases (length token == 0)) [
      | inl e ↦ rw e (
        sym (keep_none (λ m. false) db.rows (λ m. refl)),
        sym (keep_all (λ m. true) db.rows (λ m. refl)),
        refl,
      )
      | inr e ↦ rw e (
        refl,
        keep_ext (λ m. not (has m.id (ids_of (keep p db.rows)))) (λ m. not (p m)) db.rows
            (All-of_In (λ m. not (has m.id (ids_of (keep p db.rows))) ≡ not (p m)) db.rows
              (λ m i. deleted_lem p db.rows k m i)),
        refl,
      )
    ]
