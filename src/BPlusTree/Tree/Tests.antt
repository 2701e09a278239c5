-- ===== src/BPlusTree/Tree/Tests.antt =====
-- Runs of BPlusTree of minisql/src/index/b_plus_tree.cpp.

use zju_database_system.Prelude.{
  ltb, ℕ, zero, suc, ◌+◌, ◌*◌, ◌<◌, ◌≡◌, ◌⊎◌, refl, true, false, none, some, [], ◌∷◌, arith, ◌==◌,
  if◌then◌else◌,
}
use zju_database_system.Memory.{invalid_page_id}
use zju_database_system.BPlusTree.Keys.{
  basic_comparator, basic_comparator-IsComparator, find, is_equal,
}
use zju_database_system.BPlusTree.Page.{leaf_page, internal_page}
use zju_database_system.BPlusTree.Leaf.{LeafPage}
use zju_database_system.BPlusTree.Internal.{InternalPage, lookup}
use zju_database_system.BPlusTree.Tree.{Node, leaf, internal, Tree, find_leaf, get_value, insert}
use zju_database_system.BPlusTree.Tree.Entries.{IsTree, tree_entries}
use zju_database_system.BPlusTree.Tree.Search.{get_value-find}
use zju_database_system.BPlusTree.Tree.Insert.{get_value-insert}

-- A leaf page with the keys `first` and `first + 2`.
abbrev two_keys : ℕ → ℕ → LeafPage ℕ ℕ
two_keys id first = record {
  header = record {
    page_type = leaf_page;
    size = 2;
    max_size = 4;
    parent_page_id = 1;
    page_id = id;
  };
  next_page_id = if id == 2 then 3 else invalid_page_id;
  array = λ i. (first + 2 * i, 100 + i);
}

abbrev root : InternalPage ℕ
root = record {
  header = record {
    page_type = internal_page;
    size = 2;
    max_size = 4;
    parent_page_id = invalid_page_id;
    page_id = 1;
  };
  array = λ i. (10 * i, 2 + i);
}

abbrev pages : ℕ → Node ℕ ℕ
pages id =
    if id == 1 then internal root else if id == 2 then leaf (two_keys 2 1) else leaf (two_keys 3 10)

abbrev sample : Tree ℕ ℕ
sample = record {
  index_id = 0;
  root_page_id = 1;
  leaf_max_size = 4;
  internal_max_size = 4;
  pages = pages;
  roots = record { count = 0; roots = λ i. (0, 0) };
  new_ids = 4 ∷ 5 ∷ 6 ∷ [];
}

sample-IsTree : IsTree basic_comparator pages 1 1 none none
sample-IsTree =
    (root, refl, omega arith, λ i j pos lt within. ground arith, λ i pos lt. (tt, tt), children)
  where
    children :
        (i : ℕ)
        → i < 2
        → IsTree basic_comparator pages 0
            (2 + i)
            (if i == 0 then none else some (10 * i))
            (if ltb (i + 1) 2 then some (10 * (i + 1)) else none)
    children zero lt = (two_keys 2 1, refl, λ i j l u. ground arith, λ i l. (tt, ground arith))
    children (suc zero) lt =
        (two_keys 3 10, refl, λ i j l u. ground arith, λ i l. (λ e. ground arith, tt))
    children (suc (suc i)) lt = absurd (omega arith)

get_value-find_example :
    get_value basic_comparator 2 sample 12
    ≡ some (find basic_comparator 12 (tree_entries pages 1 1))
get_value-find_example =
    get_value-find basic_comparator basic_comparator-IsComparator sample 2 1 12 (omega arith)
      sample-IsTree (omega arith)

sample_found : find_leaf basic_comparator 2 pages 1 11 false ≡ some 3
unfolding find_leaf lookup
sample_found = refl

get_value-insert_example :
    ((v : ℕ) × (get_value basic_comparator 2 sample 11 ≡ some (some v))
      × (insert basic_comparator (two_keys 0 0) root 2 sample 11 7 ≡ some (sample, false)))
    ⊎ ((t' : Tree ℕ ℕ) × (get_value basic_comparator 2 sample 11 ≡ some none)
        × (insert basic_comparator (two_keys 0 0) root 2 sample 11 7 ≡ some (t', true))
        × ((r : ℕ)
            → get_value basic_comparator 2 t' r ≡ (
                if is_equal (basic_comparator 11 r)
                then some (some 7)
                else get_value basic_comparator 2 sample r)))
get_value-insert_example =
    get_value-insert basic_comparator basic_comparator-IsComparator (two_keys 0 0) root sample 2 1
      11 7 3 (two_keys 3 10) (omega arith) sample-IsTree (omega arith) sample_found refl
      (omega arith)
