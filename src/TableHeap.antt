-- ===== src/TableHeap.antt =====
-- TableHeap and TableIterator: minisql/src/storage/table_heap.cpp and table_iterator.cpp. The pool is
-- the bytes of its pages by id, of which FetchPage always gives the page; the id that NewPage gives
-- is an argument, and so is the number of rounds of each loop along the pages. `none` is a failed
-- assertion, a page that was never set, or too few rounds.
pub mod Chain
pub mod Insert
pub mod Linked
pub mod Append
pub mod Live
pub mod Next
pub mod Scan
mod Tests
use zju_database_system.Prelude.{
  ℕ, zero, suc, Bool, true, false, not, ◌&&◌, Option, none, some, List, [], ◌∷◌, ◌==◌,
  if◌then◌else◌, ◌>>=◌,
}
use zju_database_system.Memory.{Memory, reset_memory, invalid_page_id}
use zju_database_system.TablePage
use zju_database_system.TablePage.{
  RowId, Serialized, UpdateResult, get_next_page_id, set_next_page_id, get_first_tuple_rid,
  get_next_tuple_rid, read_tuple,
}
use zju_database_system.Records.{TypeId, Field}

abbrev pub Pages : Type 0
Pages = ℕ → Memory

pub record TableHeap : Type 0 where
  pub first_page_id : ℕ
  pub pages : Pages
  pub schema : List TypeId

unfoldable pub write_page : Pages → ℕ → Memory → Pages
write_page pages page_id m p = if p == page_id then m else pages p

-- How the loop of InsertTuple ends: with the row in a page, or behind the last page, if there is one.
pub data Search : Type 0 where
  inserted : Pages → RowId → Search
  no_room : Option ℕ → Search

unfoldable pub insert_from : ℕ → Pages → ℕ → Option ℕ → Serialized → Option Search
insert_from zero pages page_id page row = none
insert_from (suc n) pages page_id page row =
    if page_id == invalid_page_id
    then some (no_room page)
    else TablePage.insert_tuple (pages page_id) row >>= (λ (r : Memory × Option RowId). elim r.1 [
      | some rid ↦ some (inserted (write_page pages page_id r.0) rid)
      | none ↦ insert_from n pages (get_next_page_id r.0) (some page_id) row
    ])

-- InsertTuple from NewPage on, which gives the page `new_page_id` without contents.
unfoldable pub append_page : Pages → ℕ → ℕ → Serialized → Option (Pages × Option RowId)
append_page pages curr_page_id new_page_id row = do
  let pages1 = write_page pages new_page_id reset_memory
  let pages2 = write_page pages1 curr_page_id (set_next_page_id (pages1 curr_page_id) new_page_id)
  (m, rid) ←
      TablePage.insert_tuple (TablePage.init (pages2 new_page_id) new_page_id curr_page_id) row
  some (write_page pages2 new_page_id m, rid)

-- The heap, and the row id of the row where the source returns true.
unfoldable pub insert_tuple : ℕ → ℕ → TableHeap → Serialized → Option (TableHeap × Option RowId)
insert_tuple n new_page_id h row =
    insert_from n h.pages h.first_page_id none row >>= (λ (s : Search). elim s [
      | inserted pages rid ↦ some (record h { pages = pages }, some rid)
      | no_room none ↦ none
      | no_room (some page) ↦
          append_page h.pages page new_page_id row
          >>= (λ (r : Pages × Option RowId). some (record h { pages = r.0 }, r.1))
    ])

-- The answer does not depend on the page's.
unfoldable pub mark_delete : TableHeap → RowId → TableHeap × Bool
mark_delete h rid =
    let (m, marked) = TablePage.mark_delete (h.pages rid.page_id) rid.slot_num in
    (record h { pages = write_page h.pages rid.page_id m }, true)

unfoldable pub apply_delete : TableHeap → RowId → Option TableHeap
apply_delete h rid = do
  m ← TablePage.apply_delete (h.pages rid.page_id) rid.slot_num
  some (record h { pages = write_page h.pages rid.page_id m })

unfoldable pub rollback_delete : TableHeap → RowId → Option TableHeap
rollback_delete h rid = do
  m ← TablePage.rollback_delete (h.pages rid.page_id) rid.slot_num
  some (record h { pages = write_page h.pages rid.page_id m })

-- The heap, the answer, and the row id that the new row gets, if one is set.
unfoldable pub update_tuple :
    ℕ → ℕ → TableHeap → Serialized → RowId → Option (TableHeap × Bool × Option RowId)
update_tuple n new_page_id h new_row rid =
    TablePage.update_tuple h.schema (h.pages rid.page_id) new_row rid.slot_num
    >>= (λ (r : Memory × UpdateResult). elim r.1 [
      | UpdateResult.no_space ↦
          apply_delete (mark_delete h rid).0 rid
          >>= (λ (h1 : TableHeap). insert_tuple n new_page_id h1 new_row)
          >>= (λ (s : TableHeap × Option RowId). some (s.0, true, s.1))
      | UpdateResult.updated ↦
          some (record h { pages = write_page h.pages rid.page_id r.0 }, true, some rid)
      | UpdateResult.illegal ↦ some (h, false, none)
    ])

-- The bytes of the tuple that GetTuple reads the row from, where there is one.
unfoldable pub tuple_bytes : TableHeap → RowId → Option (List ℕ)
tuple_bytes h rid = TablePage.get_tuple (h.pages rid.page_id) rid.slot_num

-- The row where the source returns true; the outer `none` is a failed assertion.
unfoldable pub get_tuple : TableHeap → RowId → Option (Option (List Field))
get_tuple h rid = elim (tuple_bytes h rid) [
  | none ↦ some none
  | some xs ↦ do fields ← read_tuple h.schema (h.pages rid.page_id) rid.slot_num; some (some fields)
]

-- The constructor that makes the first page, which NewPage gives without contents.
unfoldable pub create : Pages → ℕ → List TypeId → TableHeap
create pages page_id schema = record {
  first_page_id = page_id;
  pages = write_page pages page_id (TablePage.init reset_memory page_id invalid_page_id);
  schema = schema;
}

-- The row id and the fields of an iterator's row, where they have been read.
pub record TableIterator : Type 0 where
  pub row_id : RowId
  pub row : Option (List Field)

abbrev pub invalid_row_id : RowId
invalid_row_id = record { page_id = invalid_page_id; slot_num = 0 }

abbrev pub is_invalid : RowId → Bool
is_invalid rid = rid.page_id == invalid_page_id && rid.slot_num == 0

-- The row at the row id in a page, as GetTuple reads it; an invalid row id and a page without the
-- tuple leave it as it was. The outer `none` is a failed assertion.
unfoldable pub read_row :
    List TypeId → Memory → RowId → Option (List Field) → Option (Option (List Field))
read_row types m rid row =
    if is_invalid rid then some row else elim (TablePage.get_tuple m rid.slot_num) [
      | some xs ↦ do fields ← read_tuple types m rid.slot_num; some (some fields)
      | none ↦ some row
    ]

unfoldable pub begin : TableHeap → Option TableIterator
begin h = do
  let m = h.pages h.first_page_id
  let rid = (get_first_tuple_rid m).0
  row ← read_row h.schema m rid none
  some (record { row_id = rid; row = row })

abbrev pub end : TableIterator
end = record { row_id = invalid_row_id; row = none }

-- The loop of operator++ from a page without a tuple: the page and the row id that it ends with.
unfoldable pub next_from : ℕ → Pages → ℕ → RowId → Option (ℕ × RowId)
next_from zero pages page_id rid = none
next_from (suc n) pages page_id rid =
    let next_page_id = get_next_page_id (pages page_id) in
    let r = get_first_tuple_rid (pages next_page_id) in
    let rest = next_from n pages next_page_id r.0 in
    if next_page_id == invalid_page_id
    then some (page_id, rid)
    else if r.1
    then some (next_page_id, r.0)
    else rest

-- operator++.
unfoldable pub next : ℕ → TableHeap → TableIterator → Option TableIterator
next n h it = do
  let page_id = it.row_id.page_id
  r ← get_next_tuple_rid (h.pages page_id) it.row_id
  (page, rid) ← (if r.1 then some (page_id, r.0) else next_from n h.pages page_id r.0)
  row ← read_row h.schema (h.pages page) rid it.row
  some (record { row_id = rid; row = row })

-- operator++(int): the result and the iterator, which share the row.
unfoldable pub next_post : ℕ → TableHeap → TableIterator → Option (TableIterator × TableIterator)
next_post n h it = do moved ← next n h it; some (moved, moved)

-- The loop `for (it = Begin(); it != End(); it++)`: the rows that it visits.
unfoldable pub visit : ℕ → ℕ → TableHeap → TableIterator → Option (List TableIterator)
visit zero rounds h it = none
visit (suc n) rounds h it =
    let rest =
      next_post rounds h it
      >>= (λ (r : TableIterator × TableIterator). visit n rounds h r.1)
      >>= (λ (rows : List TableIterator). some (it ∷ rows)) in
    if is_invalid it.row_id then some [] else rest
