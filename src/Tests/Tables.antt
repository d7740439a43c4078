-- ===== src/Tests/Tables.antt =====
-- A table of src/include/cpputilsm/hashitemsbyptr.hpp with two entries in one bucket.
use old_crash_investigator.Base.{
  ℕ, ◌≡◌, refl, true, Option, none, some, List, [], ◌∷◌, ◌==◌, if◌then◌else◌, arith, ok, stop,
  undefined_behaviour, ◌>>=◌, Returns, null,
}
use old_crash_investigator.HashItems.{
  Item, Table, add_entry_with_known_hash, find_entry, remove_entry, destroy,
}
use old_crash_investigator.HashItems.Contents.{Entry, Contains, head, has}
use old_crash_investigator.HashItems.Insert.{Adds, add_entry_with_known_hash-Adds}
use old_crash_investigator.HashItems.Lookup.{find_in, address, find_entry-find_in}
use old_crash_investigator.HashItems.Removal.{destroy-remove_entry}
use old_crash_investigator.HashItems.Destroy.{Frees, destroy-Frees}

abbrev first_entry : Entry ℕ ℕ
first_entry = record { ptr = 100; key = 7; value = 70; index = 7 }

abbrev second_entry : Entry ℕ ℕ
second_entry = record { ptr = 200; key = 4103; value = 80; index = 7 }

abbrev two_cells : ℕ → Option (Item ℕ ℕ)
two_cells p =
    if p == 200
    then some (record {
      first = 4103;
      second = 80;
      index = 7;
      prev = 0;
      next = 100;
      prev_in_the_list = 0;
      next_in_the_list = 100;
    })
    else if p == 100
    then some (record {
      first = 7;
      second = 70;
      index = 7;
      prev = 200;
      next = 0;
      prev_in_the_list = 0;
      next_in_the_list = 0;
    })
    else none

abbrev two_entries : Table ℕ ℕ
two_entries = record {
  buckets = λ i. if 7 == i then 200 else if 7 == i then 100 else null;
  first_item = 200;
  items = two_cells;
  added = 2;
}

abbrev two_list : List (Entry ℕ ℕ)
two_list = second_entry ∷ first_entry ∷ []

two_entries-Contains : Contains two_entries two_list
unfolding head has
two_entries-Contains = record {
  cells = ((0, refl), omega arith, refl, ((200, refl), omega arith, refl, tt));
  buckets = λ i. refl;
  first_item = refl;
  added = omega arith;
}

has_first : has 100 (first_entry ∷ []) ≡ true
unfolding has
has_first = refl

has_first_of_two : has 100 two_list ≡ true
unfolding has
has_first_of_two = refl

add_entry_with_known_hash-Adds_example :
    Returns
      (add_entry_with_known_hash 300 9 9 90 two_entries)
      (Adds 300 (record { ptr = 300; key = 9; value = 90; index = 9 }) two_entries two_list)
add_entry_with_known_hash-Adds_example =
    add_entry_with_known_hash-Adds 300 9 9 90 two_entries two_list (omega arith) (omega arith) refl
      two_entries-Contains

find_entry-find_in_example :
    find_entry (λ k. ok k) (λ a b. ok (a == b)) 7 two_entries
    ≡ ok (address (find_in (λ a b. a == b) 7 7 two_list), 7)
find_entry-find_in_example =
    find_entry-find_in (λ a b. a == b) (λ a b. ok (a == b)) (λ a b. refl) two_entries (λ k. ok k) 7
      7 two_list refl two_entries-Contains

destroy-remove_entry_example : (remove_entry 100 two_entries >>= destroy) ≡ stop undefined_behaviour
destroy-remove_entry_example =
    destroy-remove_entry 100 second_entry (first_entry ∷ []) two_entries two_entries-Contains
      has_first

destroy-Frees_example :
    Returns (destroy two_entries) (λ u. Frees two_list two_entries.items u.items)
destroy-Frees_example = destroy-Frees two_list two_entries two_entries-Contains
