-- ===== src/BPlusTree/Internal/Tests.antt =====
-- Runs of the internal page of minisql/src/page/b_plus_tree_internal_page.cpp.
use zju_database_system.Prelude.{
  ℕ, ◌+◌, ◌*◌, ◌≤◌, ◌≡◌, refl, some, [], ◌∷◌, ◌++◌, arith, if◌then◌else◌,
}
use zju_database_system.Arrays.{store, shift_up}
use zju_database_system.Arrays.Segments.{segment}
use zju_database_system.BPlusTree.Keys.{basic_comparator, basic_comparator-IsComparator}
use zju_database_system.BPlusTree.Page.{Header, internal_page}
use zju_database_system.BPlusTree.Internal.{
  InternalPage, Parents, entries, lookup_loop, lookup, insert_node_after, move_half_to, value_index,
  value_index_from,
}
use zju_database_system.BPlusTree.Internal.Lookup.{IsSorted, Child, lookup-Child}
use zju_database_system.BPlusTree.Internal.Edit.{
  insert_after, listed, with_size, insert_node_after_lem,
}
use zju_database_system.BPlusTree.Internal.Moves.{is_child, move_half_to-is_child}

abbrev header : ℕ → ℕ → Header
header page_id n = record {
  page_type = internal_page;
  size = n;
  max_size = 3;
  parent_page_id = 7;
  page_id = page_id;
}

-- Keys 0, 10, 20 ... with the children 100, 101, 102 ...
abbrev page : ℕ → ℕ → InternalPage ℕ
page page_id n = record { header = header page_id n; array = λ i. (10 * i, 100 + i) }

-- Page 7 is the parent of every page.
abbrev parents : Parents
parents c = 7

page-IsSorted : (n : ℕ) → IsSorted basic_comparator (page 8 n)
page-IsSorted n i j pos lt hi = ground arith

lookup_run : lookup basic_comparator (page 8 4) 25 ≡ some 102
unfolding lookup lookup_loop
lookup_run = refl

insert_run :
    listed (insert_node_after (page 8 3) 101 15 200)
    ≡ some ((0, 100) ∷ (10, 101) ∷ (15, 200) ∷ (20, 102) ∷ [], 4)
unfolding insert_node_after value_index value_index_from store shift_up segment
insert_run = refl

lookup-Child_example :
    (x : ℕ) × (lookup basic_comparator (page 8 4) 25 ≡ some (100 + x))
    × Child basic_comparator (page 8 4).array 4 25 x
lookup-Child_example =
    lookup-Child basic_comparator basic_comparator-IsComparator (page 8 4) (page-IsSorted 4) 25
      (omega arith)

insert_node_after_lem_example :
    listed (insert_node_after (page 8 3) 101 15 200)
    ≡ with_size 4 (insert_after 101 (15, 200) (entries (page 8 3)))
insert_node_after_lem_example = insert_node_after_lem (page 8 3) 101 15 200

move_half_to-is_child_example :
    (p' r' : InternalPage ℕ) × (parents' : Parents) × (move_half_to (page 8 4) (page 9 0) parents
      ≡ some (p', r', parents'))
    × (entries p' ++ entries r' ≡ entries (page 8 4))
    × (p'.size ≤ r'.size)
    × (r'.size ≤ p'.size + 1)
    × ((c : ℕ) → parents' c ≡ (if is_child (entries r') c then 9 else 7))
move_half_to-is_child_example = move_half_to-is_child (page 8 4) (page 9 0) parents refl
