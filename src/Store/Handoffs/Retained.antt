-- ===== src/Store/Handoffs/Retained.antt =====
-- What `retain` of henk/store/handoffs.py leaves in its table.
use henk.Base.{
  ℕ, suc, ◌+◌, ◌-◌, ◌≤◌, ◌≡◌, refl, ◌⊎◌, inl, inr, Bool, true, false, not, ◌&&◌, Option, none, some,
  List, [], ◌∷◌, Text, ==_refl, length, keep, tally, has, arith, All, All-map, All-append, All-keep,
  All-of_In, All-In, In, In-keep, In-last, tally-append, tally-keep, tally_le, tally_split,
  length-tally, length_split, tally_ext, length-keep, length-drop,
}
use henk.Store.Handoffs.{
  HandoffBounds, RetainedHandoff, Handoffs, newest_first, handoff_ids, is_row, bounded_document,
  is_stale, delete_stale, overflow, prune, retain, add_row,
}
use henk.Store.Handoffs.Newest.{
  tally-newest_first, tally-drop_le, length-newest_first, handoff_ids-All, has-handoff_ids,
  fresh_row,
}

module _ (bounds : HandoffBounds) where
  -- The rows past the count, of those that are not protected.
  overflow-length :
      (protect : ℕ) (rows : List RetainedHandoff)
      → tally (is_row protect) rows ≤ 1
      → length rows ≤ length (overflow bounds protect rows) + suc (bounds.max_count - 1)
  unfolding overflow
  overflow-length protect rows v =
      let other = λ (h : RetainedHandoff). not (is_row protect h) in
      let a = length-drop (bounds.max_count - 1) (newest_first (keep other rows)) in
      let b = length-newest_first (keep other rows) in
      let c = length-keep other rows in let d = length_split (is_row protect) rows in omega arith

  -- As many rows as are past the count have one of their ids.
  overflow_le :
      (protect : ℕ) (rows : List RetainedHandoff)
      → length (overflow bounds protect rows)
        ≤ tally
            (λ (h : RetainedHandoff). has h.id (handoff_ids (overflow bounds protect rows)))
            rows
  overflow_le protect rows =
      let gone = λ (h : RetainedHandoff). has h.id (handoff_ids (overflow bounds protect rows)) in
      let other = λ (h : RetainedHandoff). not (is_row protect h) in
      let a =
        length-tally gone (overflow bounds protect rows)
          (handoff_ids-All (overflow bounds protect rows)) in
      let b : tally gone (overflow bounds protect rows)
          ≤ tally gone (newest_first (keep other rows)) =
        unfold overflow in
        tally-drop_le gone (bounds.max_count - 1) (newest_first (keep other rows)) in
      let c = tally-newest_first gone (keep other rows) in
      let d = tally-keep gone other rows in let e = tally_le gone other rows in omega arith

  keep-length :
      (protect : ℕ) (rows : List RetainedHandoff)
      → tally (is_row protect) rows ≤ 1
      → length (
          keep
            (λ (h : RetainedHandoff). not (has h.id (handoff_ids (overflow bounds protect rows))))
            rows)
        ≤ suc (bounds.max_count - 1)
  keep-length protect rows v =
      let gone = λ (h : RetainedHandoff). has h.id (handoff_ids (overflow bounds protect rows)) in
      let a = length-keep (λ h. not (gone h)) rows in
      let b = length_split gone rows in
      let c = overflow_le protect rows in let d = overflow-length protect rows v in omega arith

  overflow_others :
      (protect : ℕ) (rows : List RetainedHandoff)
      → has protect (handoff_ids (overflow bounds protect rows)) ≡ false
  overflow_others protect rows =
      let other = λ (h : RetainedHandoff). not (is_row protect h) in
      let p = is_row protect in
      let a : tally p (overflow bounds protect rows) ≤ tally p (newest_first (keep other rows)) =
        unfold overflow in
        tally-drop_le p (bounds.max_count - 1) (newest_first (keep other rows)) in
      let b = tally-newest_first p (keep other rows) in
      let c = tally-keep p other rows in
      let d = tally_split p p rows in
      let e = tally_ext (λ h. p h && p h) p rows (λ h. ground arith) in
      has-handoff_ids protect (overflow bounds protect rows) (omega arith)

  -- A row that a table may have once a handoff is retained: the handoff, or an older row in time.
  abbrev pub IsRetained : ℕ → RetainedHandoff → List RetainedHandoff → RetainedHandoff → Type 0
  IsRetained now h rows r = (r ≡ h) ⊎ (In r rows × (now ≤ r.published_at + bounds.max_age_seconds))

  -- A refusal changes nothing; a retained handoff is in the table, with its document as it is
  -- stored, and every other row was there and is within the age, and the count is within its bound.
  abbrev pub Retains : Text → ℕ → Handoffs → Option RetainedHandoff × Handoffs → Type 0
  Retains document now db (none, db') = db' ≡ db
  Retains document now db (some h, db') =
      In h db'.rows
      × (length db'.rows ≤ suc (bounds.max_count - 1))
      × All (IsRetained now h db.rows) db'.rows
      × (◌≡◌ {A = Text × Bool} (h.document, h.truncated) (bounded_document bounds document))

  added-IsRetained :
      (now : ℕ) (h r : RetainedHandoff) (db : Handoffs)
      → h.id ≡ suc db.last_id
      → (r ≡ h) ⊎ (In r db.rows × (r.id ≤ db.last_id))
      → not (is_stale bounds now r && not (is_row h.id r)) ≡ true
      → IsRetained now h db.rows r
  added-IsRetained now h r db e (inl q) k = inl q
  added-IsRetained now h r db e (inr (q, le)) k = inr (q, ground arith)

  pub prune-All :
      (now : ℕ) (h : RetainedHandoff) (db : Handoffs)
      → h.id ≡ suc db.last_id
      → All (λ (r : RetainedHandoff). r.id ≤ db.last_id) db.rows
      → All (IsRetained now h db.rows) (prune bounds now h.id (add_row h db.rows))
  unfolding prune delete_stale
  prune-All now h db e v =
      let fresh = λ (r : RetainedHandoff). not (is_stale bounds now r && not (is_row h.id r)) in
      let left = keep fresh (add_row h db.rows) in
      let over = handoff_ids (overflow bounds h.id left) in
      let Was : RetainedHandoff → Type 0 = λ r. (r ≡ h) ⊎ (In r db.rows × (r.id ≤ db.last_id)) in
      let a =
        All-append Was db.rows (h ∷ [])
          (All-of_In Was db.rows
            (λ r i. inr (i, All-In (λ (x : RetainedHandoff). x.id ≤ db.last_id) r db.rows v i)))
          (inl refl, tt) in
      let b = All-keep Was fresh (add_row h db.rows) a in
      let c =
        All-map (λ r. Was r × (fresh r ≡ true)) (IsRetained now h db.rows) left
          (λ r q. added-IsRetained now h r db e q.0 q.1) b in
      All-map (λ r. IsRetained now h db.rows r × (not (has r.id over) ≡ true))
        (IsRetained now h db.rows) (keep (λ r. not (has r.id over)) left) (λ r q. q.0)
        (All-keep (IsRetained now h db.rows) (λ r. not (has r.id over)) left c)

  pub In-prune :
      (now : ℕ) (h : RetainedHandoff) (rows : List RetainedHandoff)
      → In h (prune bounds now h.id (add_row h rows))
  unfolding prune delete_stale
  In-prune now h rows =
      let fresh = λ (r : RetainedHandoff). not (is_stale bounds now r && not (is_row h.id r)) in
      let left = keep fresh (add_row h rows) in
      let mine = ==_refl h.id in
      In-keep (λ r. not (has r.id (handoff_ids (overflow bounds h.id left)))) h left
        (In-keep fresh h (add_row h rows) (In-last rows h) (ground arith))
        (rw (overflow_others h.id left) refl)

  prune-length :
      (now : ℕ) (h : RetainedHandoff) (db : Handoffs)
      → h.id ≡ suc db.last_id
      → All (λ (r : RetainedHandoff). r.id ≤ db.last_id) db.rows
      → length (prune bounds now h.id (add_row h db.rows)) ≤ suc (bounds.max_count - 1)
  unfolding prune delete_stale tally
  prune-length now h db e v =
      let fresh = λ (r : RetainedHandoff). not (is_stale bounds now r && not (is_row h.id r)) in
      let p = is_row h.id in
      let a = tally-keep p fresh (add_row h db.rows) in
      let b = tally_le p fresh (add_row h db.rows) in
      let c = tally-append p db.rows (h ∷ []) in
      let d : tally p db.rows ≡ 0 = rw e (fresh_row db.last_id db.rows v) in
      keep-length h.id (keep fresh (add_row h db.rows)) (ground arith)

  -- From a table whose ids were all given, `retain` refuses a handoff with no identity and then
  -- changes nothing, or its handoff is in the table, with the bounded document; the table has at
  -- most the bound of rows (one, where the bound is zero), however many there were before, and each
  -- other row was in it before and is within the age.
  pub retain-Retains :
      (document : Text) (message_id : Option Text) (identities rules nodes : List Text) (now : ℕ)
      (db : Handoffs)
      → All (λ (r : RetainedHandoff). r.id ≤ db.last_id) db.rows
      → Retains document now db (retain bounds document message_id identities rules nodes now db)
  unfolding retain
  retain-Retains document message_id [] rules nodes now db v = refl
  retain-Retains document message_id (k ∷ keys) rules nodes now db v =
      (In-prune now _ db.rows, prune-length now _ db refl v, prune-All now _ db refl v, refl)
