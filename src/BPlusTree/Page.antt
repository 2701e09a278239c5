-- ===== src/BPlusTree/Page.antt =====
-- BPlusTreePage, the header that leaf and internal pages share: minisql/src/page/
-- b_plus_tree_page.cpp. A page id is its 32-bit pattern, so that INVALID_PAGE_ID, which is -1, is
-- the greatest one. The size of a page is never negative here; an operation that would make it so
-- returns `none` in the model of the page.
use zju_database_system.Prelude.{ℕ, ◌+◌, ◌-◌, ◌/◌, Bool, true, false, ◌==◌, if◌then◌else◌}
use zju_database_system.Memory.{invalid_page_id}

pub data IndexPageType : Type 0 where
  invalid_index_page leaf_page internal_page : IndexPageType

pub record Header : Type 0 where
  pub page_type : IndexPageType
  pub size : ℕ
  pub max_size : ℕ
  pub parent_page_id : ℕ
  pub page_id : ℕ

unfoldable pub is_leaf_page : Header → Bool
is_leaf_page h = elim h.page_type [ leaf_page ↦ true | _ ↦ false ]

unfoldable pub is_root_page : Header → Bool
is_root_page h = h.parent_page_id == invalid_page_id

abbrev pub increase_size : Header → ℕ → Header
increase_size h amount = record h { size = h.size + amount }

unfoldable pub get_min_size : Header → ℕ
unfolding is_leaf_page is_root_page
get_min_size h =
    if is_root_page h
    then (if is_leaf_page h then 1 else 2)
    else if is_leaf_page h
    then (h.max_size - 1 + 1) / 2
    else (h.max_size - 1 - 1 + 1) / 2 + 1
