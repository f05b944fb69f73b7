-- ===== src/Store/Handoffs/Found.antt =====
-- Lookup by reference of what henk/store/handoffs.py retained.
use henk.Base.{
  ℕ, suc, ◌≤◌, ◌≡◌, refl, inl, inr, true, not, ◌&&◌, Option, some, List, ◌∷◌, Text, text_eq_refl,
  keep, arith, All, All-map, All-keep, All-In, In-keep,
}
use henk.Store.Handoffs.{
  HandoffBounds, RetainedHandoff, Handoffs, has_message, is_stale, prune, retain, find_message,
  find_by_message_ref, parse_handoff_message_id, add_row,
}
use henk.Store.Handoffs.Newest.{IsNewest, first-newest_first}
use henk.Store.Handoffs.Retained.{IsRetained, prune-All, In-prune}

module _ (bounds : HandoffBounds) where
  -- A row of the table when a handoff is retained: its id was given, and the clock has not gone back.
  abbrev pub IsBefore : ℕ → ℕ → RetainedHandoff → Type 0
  IsBefore now last_id r = (r.id ≤ last_id) × (r.published_at ≤ now)

  retained-IsNewest :
      (now : ℕ) (h : RetainedHandoff) (db : Handoffs) (r : RetainedHandoff)
      → h.id ≡ suc db.last_id
      → h.published_at ≡ now
      → All (IsBefore now db.last_id) db.rows
      → IsRetained bounds now h db.rows r
      → IsNewest h r
  retained-IsNewest now h db r e p v (inl q) = inl q
  retained-IsNewest now h db r e p v (inr (i, _)) =
      let (le, k) = All-In (IsBefore now db.last_id) r db.rows v i in
      inr (ground arith, ground arith)

  found_first :
      (now : ℕ) (h : RetainedHandoff) (db : Handoffs) (id : Text)
      → h.id ≡ suc db.last_id
      → h.published_at ≡ now
      → h.message_id ≡ some id
      → All (IsBefore now db.last_id) db.rows
      → find_message bounds
          (some id)
          now
          (record { rows = prune bounds now h.id (add_row h db.rows); last_id = h.id })
        ≡ some h
  unfolding find_message
  found_first now h db id e p m v =
      let rows = prune bounds now h.id (add_row h db.rows) in
      let matches = λ (r : RetainedHandoff). has_message id r && not (is_stale bounds now r) in
      let all = prune-All bounds now h db e (
        All-map (IsBefore now db.last_id) (λ (r : RetainedHandoff). r.id ≤ db.last_id) db.rows
          (λ r q. q.0) v) in
      let same = text_eq_refl id in
      let test : matches h ≡ true = rw (m, p) (ground arith) in
      first-newest_first h (keep matches rows)
        (In-keep matches h rows (In-prune bounds now h db.rows) test)
        (All-map (λ r. IsRetained bounds now h db.rows r × (matches r ≡ true)) (IsNewest h)
          (keep matches rows) (λ r q. retained-IsNewest now h db r e p v q.0)
          (All-keep (IsRetained bounds now h db.rows) matches rows all))

  -- Where the clock has not gone back behind the rows, a handoff that is retained under a reference
  -- with an id is what is found by that reference, whatever was retained under it before.
  pub retain-find_by_message_ref :
      (document : Text) (ref : Option Text) (k : Text) (identities rules nodes : List Text)
      (now : ℕ) (db : Handoffs) (id : Text)
      → parse_handoff_message_id ref ≡ some id
      → All (IsBefore now db.last_id) db.rows
      → find_by_message_ref bounds ref now
          (retain bounds document ref (k ∷ identities) rules nodes now db).1
        ≡ (retain bounds document ref (k ∷ identities) rules nodes now db).0
  unfolding retain find_by_message_ref
  retain-find_by_message_ref document ref k identities rules nodes now db id m v =
      rw m (found_first now _ db id refl refl refl v)
