-- ===== src/Store/Memory/Examples.antt =====
-- The theorems on memories at a concrete table, and tests of them.
use henk.Base.{Text, ◌≡◌, refl, some, [], ◌∷◌, codes, arith, text_eq, keep, tally, has}
use henk.Channel.Split.{starts_with}
use henk.Store.Content.{strip, strip_left, is_space, checked_content}
use henk.Store.Memory.{
  Memory, Memories, MemoryLimits, add, add_checked, trim, delete_ids, evictions, by_age,
  insert_memory, delete_containing, has_part,
}
use henk.Store.Memory.Capped.{Adds, add-Adds}
use henk.Store.Memory.Forgotten.{IsKeyed, Forgets, delete_containing-Forgets}

abbrev fact : Memory
fact = record { id = 1; content = codes "tea"; memory_type = codes "agent"; created_at = 90 }

abbrev later_fact : Memory
later_fact = record { id = 2; content = codes "bed"; memory_type = codes "agent"; created_at = 70 }

abbrev facts : Memories
facts = record { rows = fact ∷ later_fact ∷ []; last_id = 2 }

abbrev limits : MemoryLimits
limits = record { length_limit = 10; cap_of = λ t. some 1 }

-- A clock that went back: both older rows go, and the new one stays.
only_the_new :
    (add limits (codes " cat ") (codes "agent") 50 facts).1.rows
    ≡ (record { id = 3; content = codes "cat"; memory_type = codes "agent"; created_at = 50 }) ∷ []
unfolding add add_checked trim delete_ids evictions by_age insert_memory checked_content strip
    strip_left is_space text_eq keep tally has
only_the_new = refl

add-Adds_example :
    Adds limits (codes "agent") facts (add limits (codes " cat ") (codes "agent") 50 facts)
add-Adds_example =
    add-Adds limits (codes " cat ") (codes "agent") 50 facts (omega arith, (omega arith, tt))

forgets_tea : (delete_containing (λ t. t) (codes " ea ") facts).1.rows ≡ later_fact ∷ []
unfolding delete_containing delete_ids has_part strip strip_left is_space text_eq keep has
    starts_with
forgets_tea = refl

facts-IsKeyed : IsKeyed facts.rows
unfolding tally
facts-IsKeyed = λ i. ground arith

delete_containing-Forgets_example :
    Forgets
      (λ (t : Text). t)
      (codes "ea")
      facts
      (delete_containing (λ (t : Text). t) (codes "ea") facts)
delete_containing-Forgets_example =
    delete_containing-Forgets (λ (t : Text). t) (codes "ea") facts facts-IsKeyed
