-- ===== src/BPlusTree/Leaf/Tests.antt =====
-- Runs of the leaf page of minisql/src/page/b_plus_tree_leaf_page.cpp.
use zju_database_system.Prelude.{ℕ, ◌+◌, ◌*◌, ◌≤◌, ◌≡◌, refl, none, some, [], ◌∷◌, ◌++◌, arith}
use zju_database_system.Arrays.{store, shift_up, shift_down, copy}
use zju_database_system.Arrays.Segments.{segment}
use zju_database_system.BPlusTree.Keys.{
  basic_comparator, basic_comparator-IsComparator, find, insert_sorted, erase,
}
use zju_database_system.BPlusTree.Page.{Header, leaf_page}
use zju_database_system.BPlusTree.Leaf.{
  LeafPage, entries, key_index_loop, key_index, insert, lookup, remove_and_delete_record,
  move_half_to, move_all_to, move_first_to_end_of, move_last_to_front_of,
}
use zju_database_system.BPlusTree.Leaf.Search.{IsSorted}
use zju_database_system.BPlusTree.Leaf.Entries.{insert-insert_sorted}
use zju_database_system.BPlusTree.Leaf.Order.{insert-IsSorted, remove_and_delete_record-IsSorted}
use zju_database_system.BPlusTree.Leaf.Map.{lookup-insert, lookup-remove_and_delete_record}
use zju_database_system.BPlusTree.Leaf.Moves.{move_half_to_lem, redistribute_lem}

program : Unit {0}
unfolding segment store shift_up shift_down copy key_index_loop key_index insert lookup
    remove_and_delete_record move_half_to move_all_to move_first_to_end_of move_last_to_front_of
    find insert_sorted erase
program = tt

abbrev header : ℕ → Header
header n = record { page_type = leaf_page; size = n; max_size = 3; parent_page_id = 7; page_id = 8 }

-- Keys 10, 20, 30 ... with values 0, 1, 2 ...
abbrev page : ℕ → LeafPage ℕ ℕ
page n = record { header = header n; next_page_id = 9; array = λ i. (10 * i + 10, i) }

page-IsSorted : (n : ℕ) → IsSorted basic_comparator (page n)
page-IsSorted n i j lt hi = ground arith

abbrev page_after : LeafPage ℕ ℕ
page_after = record (page 3) {
  header = header 4;
  array = store (shift_up 1 2 (page 3).array) 2 (25, 5);
}

inserts : insert basic_comparator (page 3) 25 5 ≡ some (page_after, 4)
unfolding program
inserts = refl

absent : lookup basic_comparator (page 3) 25 ≡ none
unfolding program
absent = refl

insert_run : entries page_after ≡ (10, 0) ∷ (20, 1) ∷ (25, 5) ∷ (30, 2) ∷ []
unfolding program
insert_run = refl

insert-insert_sorted_example :
    (q : LeafPage ℕ ℕ) × (insert basic_comparator (page 3) 25 5 ≡ some (q, 4))
    × (entries q ≡ insert_sorted basic_comparator 25 5 (entries (page 3)))
    × (q.size ≡ 4)
    × (q.next_page_id ≡ 9)
insert-insert_sorted_example =
    insert-insert_sorted basic_comparator basic_comparator-IsComparator (page 3) 25 5
      (page-IsSorted 3) (omega arith)

insert-IsSorted_example : IsSorted basic_comparator page_after
insert-IsSorted_example =
    insert-IsSorted basic_comparator basic_comparator-IsComparator (page 3) page_after 25 5 4
      (page-IsSorted 3) absent inserts

remove_and_delete_record-IsSorted_example :
    IsSorted basic_comparator (remove_and_delete_record basic_comparator (page 3) 20).0
remove_and_delete_record-IsSorted_example =
    remove_and_delete_record-IsSorted basic_comparator basic_comparator-IsComparator (page 3) 20
      (page-IsSorted 3)

lookup-insert_example : lookup basic_comparator page_after 25 ≡ some 5
lookup-insert_example =
    lookup-insert basic_comparator basic_comparator-IsComparator (page 3) page_after 25 25 5 4
      (page-IsSorted 3) (omega arith) absent inserts

lookup-remove_and_delete_record_example :
    lookup basic_comparator (remove_and_delete_record basic_comparator (page 3) 20).0 20 ≡ none
lookup-remove_and_delete_record_example =
    lookup-remove_and_delete_record basic_comparator basic_comparator-IsComparator (page 3) 20 20
      (page-IsSorted 3)

move_half_to_lem_example :
    (p' r' : LeafPage ℕ ℕ) × (move_half_to (page 4) (page 0) ≡ some (p', r'))
    × (entries p' ++ entries r' ≡ entries (page 4))
    × (p'.size ≤ r'.size)
    × (r'.size ≤ p'.size + 1)
    × (p'.next_page_id ≡ 8)
    × (r'.next_page_id ≡ 9)
move_half_to_lem_example = move_half_to_lem (page 4) (page 0) refl

redistribute_lem_example :
    ((p' r' : LeafPage ℕ ℕ) × (move_first_to_end_of (page 3) (page 2) ≡ some (p', r'))
      × (entries r' ++ entries p' ≡ entries (page 2) ++ entries (page 3))
      × (p'.size + 1 ≡ 3)
      × (r'.size ≡ 3))
    × ((p' r' : LeafPage ℕ ℕ) × (move_last_to_front_of (page 3) (page 2) ≡ some (p', r'))
        × (entries p' ++ entries r' ≡ entries (page 3) ++ entries (page 2))
        × (p'.size + 1 ≡ 3)
        × (r'.size ≡ 3))
redistribute_lem_example = redistribute_lem (page 3) (page 2) (omega arith)
