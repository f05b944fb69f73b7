-- ===== src/Store/Inbox/Retention.antt =====
-- The items of henk/store/inbox.py over sequences of calls.
use henk.Base.{
  ℕ, ◌≡◌, refl, ◌∙◌, inl, inr, false, ◌&&◌, List, [], ◌∷◌, Text, length, ◌==◌, tally, Bool-cases,
  Grows, Grows-refl, Grows-append, Grows-trans,
}
use henk.Store.Content.{strip}
use henk.Store.Inbox.{InboxItem, Inbox, is_open, append, archive, mark_done}

-- One item later: only its status may change, and only from open to done.
pub record Keeps (a b : InboxItem) : Type 0 where
  pub same_id : b.id ≡ a.id
  pub same_text : b.text ≡ a.text
  pub same_created_at : b.created_at ≡ a.created_at
  pub same_source : b.source ≡ a.source
  pub stays_done : is_open a ≡ false → is_open b ≡ false

Keeps-refl : (a : InboxItem) → Keeps a a
Keeps-refl a = record {
  same_id = refl;
  same_text = refl;
  same_created_at = refl;
  same_source = refl;
  stays_done = λ h. h;
}

Keeps-trans : (a b c : InboxItem) → Keeps a b → Keeps b c → Keeps a c
Keeps-trans a b c h k = record {
  same_id = k.same_id ∙ h.same_id;
  same_text = k.same_text ∙ h.same_text;
  same_created_at = k.same_created_at ∙ h.same_created_at;
  same_source = k.same_source ∙ h.same_source;
  stays_done = λ e. k.stays_done (h.stays_done e);
}

pub data Call : Type 0 where
  appends : (text source : Text) (now : ℕ) → Call
  archives : ℕ → Call

abbrev pub call : Call → Inbox → Inbox
call (Call.appends text source now) box = (append text source now box).1
call (Call.archives i) box = (mark_done i box).1

abbrev pub call_all : List Call → Inbox → Inbox
call_all [] box = box
call_all (c ∷ l) box = call_all l (call c box)

archive-Grows : (i : ℕ) (l : List InboxItem) → Grows Keeps l (archive i l)
unfolding archive
archive-Grows i [] = tt
archive-Grows i (r ∷ l) = elim (Bool-cases (r.id == i && is_open r)) [
  | inr e ↦ rw e (Keeps-refl r, archive-Grows i l)
  | inl e ↦ rw e (
    record {
      same_id = refl;
      same_text = refl;
      same_created_at = refl;
      same_source = refl;
      stays_done = λ h. refl;
    },
    archive-Grows i l,
  )
]

call-Grows : (c : Call) (box : Inbox) → Grows Keeps box.rows (call c box).rows
unfolding append mark_done
call-Grows (Call.appends text source now) box = elim (Bool-cases (length (strip text) == 0)) [
  | inl e ↦ rw (call, e) (Grows-refl Keeps Keeps-refl box.rows)
  | inr e ↦ rw (call, e) (Grows-append Keeps Keeps-refl box.rows (_ ∷ []))
]
call-Grows (Call.archives i) box =
    elim (Bool-cases (tally (λ (r : InboxItem). r.id == i && is_open r) box.rows == 0)) [
      | inl e ↦ rw (call, e) (Grows-refl Keeps Keeps-refl box.rows)
      | inr e ↦ rw (call, e) (archive-Grows i box.rows)
    ]

-- After every sequence of captures and archivings, each item that the inbox held is still in it, in
-- its place, with its text, its time and its source, and one that was done is still done.
pub call_all-Grows : (l : List Call) (box : Inbox) → Grows Keeps box.rows (call_all l box).rows
call_all-Grows [] box = Grows-refl Keeps Keeps-refl box.rows
call_all-Grows (c ∷ l) box =
    Grows-trans Keeps Keeps-trans box.rows (call c box).rows (call_all l (call c box)).rows
      (call-Grows c box) (call_all-Grows l (call c box))
