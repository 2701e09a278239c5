-- ===== src/BPlusTree/Leaf.antt =====
-- BPlusTreeLeafPage: minisql/src/page/b_plus_tree_leaf_page.cpp. `none` stands for a failed
-- assertion, and for an access before or behind the entries of the page.
pub mod Search
pub mod Entries
pub mod Moves
pub mod Order
pub mod Map
mod Tests
use zju_database_system.Prelude.{
  ℕ, zero, suc, ◌+◌, ◌-◌, ◌/◌, ◌≤◌, Bool, true, false, not, ◌&&◌, Option, none, some, List, ltb,
  leb, ◌==◌, if◌then◌else◌,
}
use zju_database_system.Arrays.{Array, store, shift_up, shift_down, copy}
use zju_database_system.Arrays.Segments.{segment}
use zju_database_system.BPlusTree.Keys.{Ordering, is_less, is_equal}
use zju_database_system.BPlusTree.Page.{Header, leaf_page, increase_size}

pub record LeafPage (K V : Type 0) : Type 0 where
  pub header : Header
  pub open header use *
  pub next_page_id : ℕ
  pub array : Array (K × V)

module _ {K V : Type 0} where
  -- The entries of a page, first to last.
  abbrev pub entries : LeafPage K V → List (K × V)
  entries p = segment p.array 0 p.size

  pub init : LeafPage K V → ℕ → ℕ → ℕ → LeafPage K V
  init p page_id parent_id max_size = record p {
    header = record {
      page_type = leaf_page;
      size = 0;
      max_size = max_size;
      parent_page_id = parent_id;
      page_id = page_id;
    };
  }

  pub key_at : LeafPage K V → ℕ → Option K
  key_at p index = if ltb index p.size then some (p.array index).0 else none

  pub get_item : LeafPage K V → ℕ → Option (K × V)
  get_item p index = if ltb index p.size then some (p.array index) else none

  -- `end` is the source's `ed + 1`, so that it does not fall below zero.
  pub key_index_loop : (K → K → Ordering) → K → Array (K × V) → ℕ → ℕ → ℕ → ℕ
  key_index_loop cmp key a zero st end = end
  key_index_loop cmp key a (suc fuel) st end =
      let mid = (end - 1 - st) / 2 + st in
      let left = key_index_loop cmp key a fuel st mid in
      let right = key_index_loop cmp key a fuel (mid + 1) end in
      if ltb st end then (if is_less (cmp (a mid).0 key) then right else left) else end

  pub key_index : (K → K → Ordering) → LeafPage K V → K → ℕ
  key_index cmp p key = key_index_loop cmp key p.array (p.size + 1) 0 p.size

  pub insert : (K → K → Ordering) → LeafPage K V → K → V → Option (LeafPage K V × ℕ)
  insert cmp p key value =
      if ltb p.size (p.max_size + 1)
      then (let target = key_index cmp p key in
          let shifted = shift_up (p.size - target) target p.array in
          some (
            record p {
              header = increase_size p.header 1;
              array = store shifted target (key, value);
            },
            p.size + 1,
          ))
      else none

  pub lookup : (K → K → Ordering) → LeafPage K V → K → Option V
  lookup cmp p key =
      let idx = key_index cmp p key in
      if ltb idx p.size && is_equal (cmp (p.array idx).0 key) then some (p.array idx).1 else none

  pub remove_and_delete_record : (K → K → Ordering) → LeafPage K V → K → LeafPage K V × ℕ
  remove_and_delete_record cmp p key =
      let target = key_index cmp p key in
      if ltb target p.size && is_equal (cmp key (p.array target).0)
      then (
        record p {
          header = record (p.header) { size = p.size - 1 };
          array = shift_down (p.size - target - 1) target p.array;
        },
        p.size - 1,
      )
      else (p, p.size)

  -- This page, then the recipient.
  pub move_half_to : LeafPage K V → LeafPage K V → Option (LeafPage K V × LeafPage K V)
  move_half_to p recipient =
      let total = p.max_size + 1 in
      let copy_index = total / 2 in
      if p.size == total
      then some (
        record p {
          header = record (p.header) { size = copy_index };
          next_page_id = recipient.page_id;
        },
        record recipient {
          header = record (recipient.header) { size = total - copy_index };
          next_page_id = p.next_page_id;
          array = copy (total - copy_index) p.array copy_index recipient.array 0;
        },
      )
      else none

  pub copy_n_from : LeafPage K V → Array (K × V) → ℕ → LeafPage K V
  copy_n_from p items size = record p {
    header = increase_size p.header size;
    array = copy size items 0 p.array p.size;
  }

  pub move_all_to : LeafPage K V → LeafPage K V → LeafPage K V × LeafPage K V
  unfolding copy_n_from
  move_all_to p recipient = (
    record p { header = record (p.header) { size = 0 } },
    record (copy_n_from recipient p.array p.size) { next_page_id = p.next_page_id },
  )

  pub move_first_to_end_of : LeafPage K V → LeafPage K V → Option (LeafPage K V × LeafPage K V)
  unfolding copy_n_from
  move_first_to_end_of p recipient =
      if ltb 0 p.size
      then some (
        record p {
          header = record (p.header) { size = p.size - 1 };
          array = shift_down (p.size - 1) 0 p.array;
        },
        copy_n_from recipient p.array 1,
      )
      else none

  pub copy_last_from : LeafPage K V → K × V → Option (LeafPage K V)
  copy_last_from p item =
      if leb (p.size + 1) p.max_size
      then some (record p { header = increase_size p.header 1; array = store p.array p.size item })
      else none

  pub copy_first_from : LeafPage K V → K × V → LeafPage K V
  copy_first_from p item = record p {
    header = increase_size p.header 1;
    array = store (shift_up p.size 0 p.array) 0 item;
  }

  pub move_last_to_front_of : LeafPage K V → LeafPage K V → Option (LeafPage K V × LeafPage K V)
  unfolding copy_first_from
  move_last_to_front_of p recipient =
      if ltb 0 p.size
      then some (
        record p { header = record (p.header) { size = p.size - 1 } },
        copy_first_from recipient (p.array (p.size - 1)),
      )
      else none
