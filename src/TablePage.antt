-- ===== src/TablePage.antt =====
-- TablePage of minisql/src/page/table_page.cpp and minisql/src/include/page/table_page.h: the
-- slotted page over the bytes of a page. A row is what Row::SerializeTo writes for it, and a slot number that of a valid row id. `none` stands
-- for a failed assertion. Latches, logs and transactions, which the source ignores, are left out.
pub mod Fields
pub mod Layout
pub mod Delete
pub mod Mark
pub mod Claim
pub mod Insert
pub mod Replace
pub mod Update
pub mod Scan
pub mod Init
pub mod Links
mod Tests
use zju_database_system.Prelude.{
  ℕ, zero, suc, ◌+◌, ◌-◌, ◌*◌, ◌/◌, ◌%◌, ◌^◌, Bool, true, false, not, ◌&&◌, ◌||◌, Option, none,
  some, List, ltb, leb, ◌==◌, if◌then◌else◌, ◌>>=◌, ◌>>◌, require,
}
use zju_database_system.Memory.{invalid_page_id, Memory, page_size, get_u32, set_u32, move_bytes}
use zju_database_system.Arrays.Segments.{segment}
use zju_database_system.Records.{TypeId, Field, deserialize_row}

pub record RowId : Type 0 where
  pub page_id : ℕ
  pub slot_num : ℕ

-- The bytes that SerializeTo writes, and GetSerializedSize.
pub record Serialized : Type 0 where
  pub size : ℕ
  pub bytes : ℕ → ℕ

-- uint32_t subtraction, of at most 2 ^ 32.
abbrev pub sub32 : ℕ → ℕ → ℕ
sub32 a b = (a + 2 ^ 32 - b) % 2 ^ 32

unfoldable pub get_table_page_id : Memory → ℕ
get_table_page_id m = get_u32 m 0

unfoldable pub get_prev_page_id : Memory → ℕ
get_prev_page_id m = get_u32 m 8

unfoldable pub get_next_page_id : Memory → ℕ
get_next_page_id m = get_u32 m 12

unfoldable pub set_prev_page_id : Memory → ℕ → Memory
set_prev_page_id m prev_page_id = set_u32 m 8 prev_page_id

unfoldable pub set_next_page_id : Memory → ℕ → Memory
set_next_page_id m next_page_id = set_u32 m 12 next_page_id

unfoldable pub get_free_space_pointer : Memory → ℕ
get_free_space_pointer m = get_u32 m 16

unfoldable pub set_free_space_pointer : Memory → ℕ → Memory
set_free_space_pointer m free_space_pointer = set_u32 m 16 free_space_pointer

unfoldable pub get_tuple_count : Memory → ℕ
get_tuple_count m = get_u32 m 20

unfoldable pub set_tuple_count : Memory → ℕ → Memory
set_tuple_count m tuple_count = set_u32 m 20 tuple_count

-- The size_t difference, cut to 32 bits.
unfoldable pub get_free_space_remaining : Memory → ℕ
get_free_space_remaining m =
    (get_free_space_pointer m + 2 ^ 36 - 24 - 8 * get_tuple_count m) % 2 ^ 32

unfoldable pub get_tuple_offset : Memory → ℕ → ℕ
get_tuple_offset m slot_num = get_u32 m (24 + 8 * slot_num)

unfoldable pub set_tuple_offset : Memory → ℕ → ℕ → Memory
set_tuple_offset m slot_num offset = set_u32 m (24 + 8 * slot_num) offset

unfoldable pub get_tuple_size : Memory → ℕ → ℕ
get_tuple_size m slot_num = get_u32 m (28 + 8 * slot_num)

unfoldable pub set_tuple_size : Memory → ℕ → ℕ → Memory
set_tuple_size m slot_num size = set_u32 m (28 + 8 * slot_num) size

-- DELETE_MASK is the highest bit of the 32.
abbrev pub delete_mask : ℕ
delete_mask = 2 ^ 31

abbrev pub is_deleted : ℕ → Bool
is_deleted tuple_size = leb delete_mask tuple_size || tuple_size == 0

abbrev pub set_deleted_flag : ℕ → ℕ
set_deleted_flag tuple_size =
    if leb delete_mask tuple_size then tuple_size else tuple_size + delete_mask

abbrev pub unset_deleted_flag : ℕ → ℕ
unset_deleted_flag tuple_size = tuple_size % delete_mask

unfoldable pub init : Memory → ℕ → ℕ → Memory
init m page_id prev_id =
    set_tuple_count
      (set_free_space_pointer
        (set_next_page_id (set_prev_page_id (set_u32 m 0 page_id) prev_id) invalid_page_id)
        page_size)
      0

-- The loop of InsertTuple from slot `i` on, in `n` rounds; it ends behind the last slot if none is
-- free.
unfoldable pub find_slot : ℕ → ℕ → Memory → ℕ
find_slot zero i m = i
find_slot (suc n) i m =
    let rest = find_slot n (i + 1) m in if get_tuple_size m i == 0 then i else rest

unfoldable pub serialize_to : Memory → ℕ → Serialized → Memory
serialize_to m offset row b =
    if leb offset b && ltb b (offset + row.size) then row.bytes (b - offset) else m b

-- InsertTuple from where it claims the free space.
unfoldable pub claim : Memory → ℕ → Serialized → Memory
claim m i row =
    let m1 = set_free_space_pointer m (sub32 (get_free_space_pointer m) row.size) in
    let m2 = serialize_to m1 (get_free_space_pointer m1) row in
    let m3 = set_tuple_offset m2 i (get_free_space_pointer m2) in
    let m4 = set_tuple_size m3 i row.size in
    if i == get_tuple_count m4 then set_tuple_count m4 (get_tuple_count m4 + 1) else m4

-- The page, and the row id where the source returns true.
unfoldable pub insert_tuple : Memory → Serialized → Option (Memory × Option RowId)
insert_tuple m row =
    let i = find_slot (get_tuple_count m) 0 m in
    if row.size == 0
    then none
    else if ltb (get_free_space_remaining m) (row.size + 8)
    then some (m, none)
    else if i == get_tuple_count m && ltb (get_free_space_remaining m) (row.size + 8)
    then some (m, none)
    else some (claim m i row, some (record { page_id = get_table_page_id m; slot_num = i }))

unfoldable pub mark_delete : Memory → ℕ → Memory × Bool
mark_delete m slot_num =
    let tuple_size = get_tuple_size m slot_num in
    if leb (get_tuple_count m) slot_num
    then (m, false)
    else if is_deleted tuple_size
    then (m, false)
    else if ltb 0 tuple_size
    then (set_tuple_size m slot_num (set_deleted_flag tuple_size), true)
    else (m, true)

unfoldable pub rollback_delete : Memory → ℕ → Option Memory
rollback_delete m slot_num =
    let tuple_size = get_tuple_size m slot_num in
    if leb (get_tuple_count m) slot_num
    then none
    else if is_deleted tuple_size
    then some (set_tuple_size m slot_num (unset_deleted_flag tuple_size))
    else some m

-- The last loops of UpdateTuple and ApplyDelete, from slot `i` on, in `n` rounds: tuples that begin
-- below `limit` get their offset raised by `plus` and lowered by `minus`.
unfoldable pub move_offsets : ℕ → ℕ → ℕ → ℕ → ℕ → Memory → Memory
move_offsets zero i limit plus minus m = m
move_offsets (suc n) i limit plus minus m =
    let offset = get_tuple_offset m i in
    let m' =
      if not (get_tuple_size m i == 0) && ltb offset limit
      then set_tuple_offset m i (sub32 (offset + plus) minus)
      else m in
    move_offsets n (i + 1) limit plus minus m'

-- ApplyDelete from where the size has no flag; the tuple begins at `offset`.
unfoldable pub remove_tuple : Memory → ℕ → ℕ → ℕ → Memory
remove_tuple m slot_num offset size =
    let pointer = get_free_space_pointer m in
    let m1 = move_bytes m (pointer + size) pointer (offset - pointer) in
    let m2 = set_free_space_pointer m1 (pointer + size) in
    let m3 = set_tuple_offset (set_tuple_size m2 slot_num 0) slot_num 0 in
    move_offsets (get_tuple_count m3) 0 offset size 0 m3

unfoldable pub apply_delete : Memory → ℕ → Option Memory
apply_delete m slot_num =
    let tuple_size = get_tuple_size m slot_num in
    let offset = get_tuple_offset m slot_num in
    let size = if is_deleted tuple_size then unset_deleted_flag tuple_size else tuple_size in
    if leb (get_tuple_count m) slot_num
    then none
    else if ltb offset (get_free_space_pointer m)
    then none
    else some (remove_tuple m slot_num offset size)

pub data UpdateResult : Type 0 where
  illegal no_space updated : UpdateResult

-- UpdateTuple from where the old tuple was read.
unfoldable pub replace_tuple : Memory → ℕ → ℕ → ℕ → Serialized → Memory
replace_tuple m slot_num offset size row =
    let pointer = get_free_space_pointer m in
    let m1 = move_bytes m (sub32 (pointer + size) row.size) pointer (offset - pointer) in
    let m2 = set_free_space_pointer m1 (sub32 (pointer + size) row.size) in
    let m3 = serialize_to m2 (sub32 (offset + size) row.size) row in
    let m4 = set_tuple_size m3 slot_num row.size in
    move_offsets (get_tuple_count m4) 0 ((offset + size) % 2 ^ 32) size row.size m4

-- Row::DeserializeFrom at the tuple of a slot, for the types of the columns; `none` is also the failed
-- assertion that it reads as many bytes as the tuple has.
unfoldable pub read_tuple : List TypeId → Memory → ℕ → Option (List Field)
read_tuple types m slot_num = do
  (fields, read_bytes) ← deserialize_row m (get_tuple_offset m slot_num) types
  require (get_tuple_size m slot_num == read_bytes)
  some fields

-- The old row, which the source reads into an argument, is not kept.
unfoldable pub update_tuple : List TypeId → Memory → Serialized → ℕ → Option (Memory × UpdateResult)
update_tuple types m row slot_num =
    let tuple_size = get_tuple_size m slot_num in
    let offset = get_tuple_offset m slot_num in
    if row.size == 0
    then none
    else if leb (get_tuple_count m) slot_num
    then some (m, UpdateResult.illegal)
    else if is_deleted tuple_size
    then some (m, UpdateResult.illegal)
    else if ltb ((get_free_space_remaining m + tuple_size) % 2 ^ 32) row.size
    then some (m, UpdateResult.no_space)
    else elim (read_tuple types m slot_num) [
      | none ↦ none
      | some old_row ↦
          if ltb offset (get_free_space_pointer m)
          then none
          else some (replace_tuple m slot_num offset tuple_size row, UpdateResult.updated)
    ]

-- The bytes that GetTuple hands to Row::DeserializeFrom, where it returns true.
unfoldable pub get_tuple : Memory → ℕ → Option (List ℕ)
get_tuple m slot_num =
    if leb (get_tuple_count m) slot_num
    then none
    else if is_deleted (get_tuple_size m slot_num)
    then none
    else some (segment m (get_tuple_offset m slot_num) (get_tuple_size m slot_num))

-- The loops of GetFirstTupleRid and GetNextTupleRid from slot `i` on, in `n` rounds.
unfoldable pub find_tuple : ℕ → ℕ → Memory → Option ℕ
find_tuple zero i m = none
find_tuple (suc n) i m =
    let rest = find_tuple n (i + 1) m in
    if not (is_deleted (get_tuple_size m i)) then some i else rest

-- The row id that the source stores, and what it returns.
abbrev pub found_rid : Memory → Option ℕ → RowId × Bool
found_rid m none = (record { page_id = invalid_page_id; slot_num = 0 }, false)
found_rid m (some i) = (record { page_id = get_table_page_id m; slot_num = i }, true)

unfoldable pub get_first_tuple_rid : Memory → RowId × Bool
get_first_tuple_rid m = found_rid m (find_tuple (get_tuple_count m) 0 m)

-- The slot number is a uint32_t, so that the one behind the greatest is 0.
unfoldable pub get_next_tuple_rid : Memory → RowId → Option (RowId × Bool)
get_next_tuple_rid m cur_rid =
    let i = (cur_rid.slot_num + 1) % 2 ^ 32 in
    if cur_rid.page_id == get_table_page_id m
    then some (found_rid m (find_tuple (get_tuple_count m - i) i m))
    else none
