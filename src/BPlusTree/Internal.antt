-- ===== src/BPlusTree/Internal.antt =====
-- BPlusTreeInternalPage: minisql/src/page/b_plus_tree_internal_page.cpp. The values are page ids.
-- Operations that move children also set the parent id of each child, through FetchPage and
-- UnpinPage of the buffer pool; that part of the pool's pages is `Parents`. `none` stands for a
-- failed assertion and for an access before or behind the entries of the page.
pub mod Lookup
pub mod Edit
pub mod Moves
mod Tests
use zju_database_system.Prelude.{
  ℕ, zero, suc, ◌+◌, ◌-◌, ◌/◌, Bool, true, false, Option, none, some, List, ltb, leb, ◌==◌,
  if◌then◌else◌,
}
use zju_database_system.Arrays.{Array, store, shift_up, shift_down, copy}
use zju_database_system.Arrays.Segments.{segment}
use zju_database_system.BPlusTree.Keys.{Ordering, is_less}
use zju_database_system.BPlusTree.Page.{Header, internal_page, increase_size}

pub record InternalPage (K : Type 0) : Type 0 where
  pub header : Header
  pub open header use *
  pub array : Array (K × ℕ)

-- The parent_page_id_ of the tree page with each id.
abbrev pub Parents : Type 0
Parents = ℕ → ℕ

unfoldable pub adopt : ℕ → ℕ → Parents → Parents
adopt child parent parents c = if c == child then parent else parents c

module _ {K : Type 0} where
  abbrev pub entries : InternalPage K → List (K × ℕ)
  entries p = segment p.array 0 p.size

  pub init : InternalPage K → ℕ → ℕ → ℕ → InternalPage K
  init p page_id parent_id max_size = record p {
    header = record {
      page_type = internal_page;
      size = 0;
      max_size = max_size;
      parent_page_id = parent_id;
      page_id = page_id;
    };
  }

  pub key_at : InternalPage K → ℕ → Option K
  key_at p index = if ltb index p.size then some (p.array index).0 else none

  pub set_key_at : InternalPage K → ℕ → K → Option (InternalPage K)
  set_key_at p index key =
      if ltb index p.size
      then some (record p { array = store p.array index (key, (p.array index).1) })
      else none

  pub value_at : InternalPage K → ℕ → Option ℕ
  value_at p index = if ltb index p.size then some (p.array index).1 else none

  -- The loop of ValueIndex from `i` on, in `n` rounds; `none` is its -1.
  unfoldable pub value_index_from : ℕ → ℕ → Array (K × ℕ) → ℕ → Option ℕ
  value_index_from zero i a value = none
  value_index_from (suc n) i a value =
      let rest = value_index_from n (i + 1) a value in if (a i).1 == value then some i else rest

  unfoldable pub value_index : InternalPage K → ℕ → Option ℕ
  unfolding value_index_from
  value_index p value = value_index_from p.size 0 p.array value

  -- The index that the search of Lookup ends with; `end` is the source's `right + 1`.
  pub lookup_loop : (K → K → Ordering) → K → Array (K × ℕ) → ℕ → ℕ → ℕ → ℕ
  lookup_loop cmp key a zero left end = left - 1
  lookup_loop cmp key a (suc fuel) left end =
      let mid = left + (end - 1 - left) / 2 in
      let below = lookup_loop cmp key a fuel left mid in
      let above = lookup_loop cmp key a fuel (mid + 1) end in
      let next : ℕ = elim (cmp (a mid).0 key) [
        | Ordering.eq ↦ mid
        | Ordering.lt ↦ above
        | Ordering.gt ↦ below
      ] in
      if ltb left end then next else left - 1

  unfoldable pub lookup : (K → K → Ordering) → InternalPage K → K → Option ℕ
  lookup cmp p key =
      if p.size == 0
      then none
      else if is_less (cmp key (p.array 1).0)
      then some (p.array 0).1
      else if is_less (cmp key (p.array (p.size - 1)).0)
      then some (p.array (lookup_loop cmp key p.array p.size 1 p.size)).1
      else some (p.array (p.size - 1)).1

  pub populate_new_root : InternalPage K → ℕ → K → ℕ → InternalPage K
  populate_new_root p old_value new_key new_value = record p {
    header = record (p.header) { size = 2 };
    array = store (store p.array 0 ((p.array 0).0, old_value)) 1 (new_key, new_value);
  }

  pub insert_node_after : InternalPage K → ℕ → K → ℕ → Option (InternalPage K × ℕ)
  unfolding value_index
  insert_node_after p old_value new_key new_value = elim (value_index p old_value) [
    | none ↦ none
    | some i ↦ some (
      record p {
        header = increase_size p.header 1;
        array = store (shift_up (p.size - (i + 1)) (i + 1) p.array) (i + 1) (new_key, new_value);
      },
      p.size + 1,
    )
  ]

  -- for (i = from; i < from + n; ++i) the child in a[i] gets the parent.
  unfoldable pub adopt_all : ℕ → ℕ → Array (K × ℕ) → ℕ → Parents → Parents
  adopt_all zero from a parent parents = parents
  adopt_all (suc n) from a parent parents =
      adopt_all n (from + 1) a parent (adopt (a from).1 parent parents)

  -- This page, then the recipient.
  pub move_half_to :
      InternalPage K → InternalPage K → Parents → Option (InternalPage K × InternalPage K × Parents)
  move_half_to p recipient parents =
      let total = p.max_size + 1 in
      let copy_index = total / 2 in
      if p.size == total
      then some (
        record p { header = record (p.header) { size = copy_index } },
        record recipient {
          header = record (recipient.header) { size = total - copy_index };
          array = copy (total - copy_index) p.array copy_index recipient.array 0;
        },
        adopt_all (total - copy_index) copy_index p.array recipient.page_id parents,
      )
      else none

  unfoldable pub copy_n_from :
      InternalPage K → Array (K × ℕ) → ℕ → Parents → InternalPage K × Parents
  copy_n_from p items size parents =
      let a = copy size items 0 p.array p.size in
      (
        record p { header = increase_size p.header size; array = a },
        adopt_all size p.size a p.page_id parents,
      )

  pub remove : InternalPage K → ℕ → Option (InternalPage K)
  remove p index =
      if ltb index p.size
      then some (record p {
        header = record (p.header) { size = p.size - 1 };
        array = shift_down (p.size - 1 - index) index p.array;
      })
      else none

  pub remove_and_return_only_child : InternalPage K → Option (InternalPage K × ℕ)
  remove_and_return_only_child p =
      if p.size == 1
      then some (record p { header = record (p.header) { size = 0 } }, (p.array 0).1)
      else none

  pub move_all_to :
      InternalPage K → InternalPage K → K → Parents → InternalPage K × InternalPage K × Parents
  unfolding copy_n_from
  move_all_to p recipient middle_key parents =
      let (r, parents') = copy_n_from recipient p.array p.size parents in
      (
        record p { header = record (p.header) { size = 0 } },
        record r {
          array = store r.array (r.size - p.size) (middle_key, (r.array (r.size - p.size)).1);
        },
        parents',
      )

  unfoldable pub copy_last_from : InternalPage K → K × ℕ → Parents → InternalPage K × Parents
  copy_last_from p pair parents = (
    record p { header = increase_size p.header 1; array = store p.array p.size pair },
    adopt pair.1 p.page_id parents,
  )

  pub move_first_to_end_of :
      InternalPage K
      → InternalPage K
      → K
      → Parents
      → Option (InternalPage K × InternalPage K × Parents)
  unfolding copy_last_from
  move_first_to_end_of p recipient middle_key parents =
      let a = store p.array 0 (middle_key, (p.array 0).1) in
      let (r, parents') = copy_last_from recipient (a 0) parents in
      if ltb 0 p.size
      then some (
        record p {
          header = record (p.header) { size = p.size - 1 };
          array = shift_down (p.size - 1) 0 a;
        },
        r,
        parents',
      )
      else none

  unfoldable pub copy_first_from : InternalPage K → K × ℕ → Parents → InternalPage K × Parents
  copy_first_from p pair parents = (
    record p {
      header = increase_size p.header 1;
      array = store (shift_up p.size 0 p.array) 0 pair;
    },
    adopt pair.1 p.page_id parents,
  )

  pub move_last_to_front_of :
      InternalPage K
      → InternalPage K
      → K
      → Parents
      → Option (InternalPage K × InternalPage K × Parents)
  unfolding copy_first_from
  move_last_to_front_of p recipient middle_key parents =
      let (r, parents') = copy_first_from recipient (p.array (p.size - 1)) parents in
      if ltb 0 p.size
      then some (
        record p { header = record (p.header) { size = p.size - 1 } },
        record r { array = store r.array 1 (middle_key, (r.array 1).1) },
        parents',
      )
      else none
