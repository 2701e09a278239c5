-- ===== src/BPlusTree/Tree/Remove/Tests.antt =====
-- Runs of Remove of minisql/src/index/b_plus_tree.cpp.
use zju_database_system.Prelude.{
  ℕ, ◌+◌, ◌*◌, ◌<◌, ◌≡◌, refl, Bool, true, false, not, ◌&&◌, none, some, [], arith, ◌==◌,
  if◌then◌else◌,
}
use zju_database_system.Memory.{invalid_page_id}
use zju_database_system.BPlusTree.Keys.{basic_comparator, basic_comparator-IsComparator, is_equal}
use zju_database_system.BPlusTree.Page.{leaf_page, is_root_page, is_leaf_page, get_min_size}
use zju_database_system.BPlusTree.Leaf
use zju_database_system.BPlusTree.Leaf.{LeafPage}
use zju_database_system.BPlusTree.Tree.{leaf, Tree, find_leaf, get_value}
use zju_database_system.BPlusTree.Tree.Entries.{IsTree}
use zju_database_system.BPlusTree.Tree.Remove.{remove}
use zju_database_system.BPlusTree.Tree.Remove.Laws.{get_value-remove}

abbrev page : LeafPage ℕ ℕ
page = record {
  header = record {
    page_type = leaf_page;
    size = 3;
    max_size = 4;
    parent_page_id = invalid_page_id;
    page_id = 3;
  };
  next_page_id = invalid_page_id;
  array = λ i. (5 + 2 * i, 100 + i);
}

abbrev sample : Tree ℕ ℕ
sample = record {
  index_id = 0;
  root_page_id = 3;
  leaf_max_size = 4;
  internal_max_size = 4;
  pages = λ id. leaf page;
  roots = record { count = 0; roots = λ i. (0, 0) };
  new_ids = [];
}

sample-IsTree : IsTree basic_comparator sample.pages 0 3 none none
sample-IsTree = (page, refl, λ i j l u. ground arith, λ i l. (tt, tt))

sample_found : find_leaf basic_comparator 1 sample.pages 3 7 false ≡ some 3
unfolding find_leaf
sample_found = refl

sample_stays :
    (Leaf.key_index basic_comparator page 7 == 0 && not (is_root_page page.header)) ≡ false
unfolding is_root_page
sample_stays = and_false (Leaf.key_index basic_comparator page 7 == 0)
  where
    and_false : (b : Bool) → (b && false) ≡ false
    and_false true = refl
    and_false false = refl

sample_size : get_min_size page.header < 3
unfolding get_min_size is_root_page is_leaf_page
sample_size = omega arith

get_value-remove_example :
    (t' : Tree ℕ ℕ) × (remove basic_comparator 1 sample 7 ≡ some t')
    × ((r : ℕ)
        → get_value basic_comparator 1 t' r ≡ (
            if is_equal (basic_comparator 7 r)
            then some none
            else get_value basic_comparator 1 sample r))
get_value-remove_example =
    get_value-remove basic_comparator basic_comparator-IsComparator sample 1 0 7 3 page
      (omega arith) sample-IsTree (omega arith) sample_found refl sample_stays sample_size
