-- ===== src/Store/Inbox/Examples.antt =====
-- The theorems on the capture inbox at a concrete inbox, and a test of it.
use henk.Base.{◌≡◌, refl, some, List, [], ◌∷◌, codes, Grows, keep, tally}
use henk.Store.Content.{strip, strip_left, is_space}
use henk.Store.Inbox.{
  InboxStatus, InboxItem, Inbox, append, mark_done, archive, find_item, list_open, oldest_first,
  insert_item,
}
use henk.Store.Inbox.Retention.{Keeps, Call, call_all, call_all-Grows}
use henk.Store.Inbox.Drain.{Drains, list_open-Drains}

abbrev milk : InboxItem
milk = record {
  id = 1;
  text = codes "milk";
  created_at = 50;
  source = codes "owner";
  status = InboxStatus.open_item;
}

abbrev box : Inbox
box = record { rows = milk ∷ []; last_id = 1 }

abbrev calls : List Call
calls =
    Call.appends (codes " bread ") (codes "owner") 40
    ∷ Call.appends (codes "  ") (codes "owner") 60
    ∷ Call.appends (codes "tea") (codes "owner") 70
    ∷ Call.archives 1
    ∷ []

head_of_queue : list_open (some 1) (call_all calls box) ≡ record {
  items =
      (record {
        id = 2;
        text = codes "bread";
        created_at = 40;
        source = codes "owner";
        status = InboxStatus.open_item;
      })
      ∷ [];
  newer_remainder = 1;
}
unfolding append mark_done archive find_item list_open oldest_first insert_item strip strip_left
    is_space keep tally
head_of_queue = refl

call_all-Grows_example : Grows Keeps box.rows (call_all calls box).rows
call_all-Grows_example = call_all-Grows calls box

list_open-Drains_example :
    Drains (some 1) (call_all calls box) (list_open (some 1) (call_all calls box))
list_open-Drains_example = list_open-Drains (some 1) (call_all calls box)
