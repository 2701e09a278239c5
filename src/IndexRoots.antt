-- ===== src/IndexRoots.antt =====
-- IndexRootsPage of minisql/src/page/index_roots_page.cpp and minisql/src/include/page/
-- index_roots_page.h: the page that maps the id of each index to the page of its root.
pub mod Lists
pub mod Laws
mod Tests
use zju_database_system.Prelude.{
  ℕ, zero, suc, ◌+◌, ◌-◌, ◌/◌, ltb, Bool, true, false, Option, none, some, List, ◌==◌,
  if◌then◌else◌,
}
use zju_database_system.Memory.{page_size}
use zju_database_system.Arrays.{Array, store, shift_down}
use zju_database_system.Arrays.Segments.{segment}

pub record IndexRootsPage : Type 0 where
  pub count : ℕ
  pub roots : Array (ℕ × ℕ)

-- The recorded pairs of an index id and a root page id.
abbrev pub entries : IndexRootsPage → List (ℕ × ℕ)
entries p = segment p.roots 0 p.count

pub init : IndexRootsPage → IndexRootsPage
init p = record p { count = 0 }

-- The loop of FindIndex from `i` on, in `n` rounds; `none` is its -1.
unfoldable pub find_from : ℕ → ℕ → Array (ℕ × ℕ) → ℕ → Option ℕ
find_from zero i roots index_id = none
find_from (suc n) i roots index_id =
    let rest = find_from n (i + 1) roots index_id in
    if (roots i).0 == index_id then some i else rest

unfoldable pub find_index : IndexRootsPage → ℕ → Option ℕ
find_index p index_id = find_from p.count 0 p.roots index_id

-- MAX_INDEX_COUNT: the pairs for which the page has room behind the count.
abbrev pub max_index_count : ℕ
max_index_count = (page_size - 4) / 8

-- The pair written behind the others.
abbrev pub append_root : IndexRootsPage → ℕ → ℕ → IndexRootsPage
append_root p index_id root_id = record {
  count = p.count + 1;
  roots = store p.roots p.count (index_id, root_id);
}

-- `none` is a pair written behind the page, which the source does not prevent.
pub insert : IndexRootsPage → ℕ → ℕ → Option (IndexRootsPage × Bool)
unfolding find_index
insert p index_id root_id = elim (find_index p index_id) [
  | some index ↦ some (p, false)
  | none ↦ if ltb p.count max_index_count then some (append_root p index_id root_id, true) else none
]

pub delete : IndexRootsPage → ℕ → IndexRootsPage × Bool
unfolding find_index
delete p index_id = elim (find_index p index_id) [
  | none ↦ (p, false)
  | some index ↦
      (record { count = p.count - 1; roots = shift_down (p.count - 1 - index) index p.roots }, true)
]

pub update : IndexRootsPage → ℕ → ℕ → IndexRootsPage × Bool
unfolding find_index
update p index_id root_id = elim (find_index p index_id) [
  | none ↦ (p, false)
  | some index ↦ (record p { roots = store p.roots index ((p.roots index).0, root_id) }, true)
]

-- `none` where the source stores -1 and returns false.
pub get_root_id : IndexRootsPage → ℕ → Option ℕ
unfolding find_index
get_root_id p index_id = elim (find_index p index_id) [
  | none ↦ none
  | some index ↦ some (p.roots index).1
]
