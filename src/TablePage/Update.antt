-- ===== src/TablePage/Update.antt =====
-- UpdateTuple of minisql/src/page/table_page.cpp.
use zju_database_system.Prelude.{
  ℕ, ◌+◌, ◌*◌, ◌%◌, ◌^◌, ◌≤◌, ◌<◌, ◌≡◌, ◌≢◌, ◌⊎◌, inl, inr, none, some, arith, ltb, leb, Bool-cases,
  Option-cases, List,
}
use zju_database_system.Memory.{Memory}
use zju_database_system.Arrays.Segments.{segment}
use zju_database_system.Records.{TypeId, Field}
use zju_database_system.TablePage.{
  Serialized, read_tuple, get_free_space_pointer, get_tuple_count, get_tuple_offset, get_tuple_size,
  get_tuple, is_deleted, unset_deleted_flag, replace_tuple, update_tuple, UpdateResult,
  get_free_space_remaining,
}
use zju_database_system.TablePage.Layout.{IsValid, get_free_space_remaining_lem}
use zju_database_system.TablePage.Replace.{
  replace_tuple-IsValid, get_tuple-replace_self, get_tuple-replace_ne,
}

-- UpdateTuple with a row that is not empty on a well-formed page: it reports an illegal call exactly
-- where the slot has no tuple, and no space exactly where the row is longer than the old tuple and
-- the free space together, changing nothing in both cases. Otherwise an assertion fails exactly where
-- DeserializeFrom does not read the old tuple, for the types of the columns, as a row of its size;
-- and else the slot has the bytes of the row, the tuple of every other slot is as before, and the
-- page is well-formed.
pub update_tuple_lem :
    (types : List TypeId) (m : Memory) (row : Serialized) (slot : ℕ)
    → IsValid m
    → 0 < row.size
    → ((get_tuple m slot ≡ none) × (update_tuple types m row slot ≡ some (m, UpdateResult.illegal)))
      ⊎ ((get_tuple m slot ≢ none)
          × (((get_free_space_pointer m + get_tuple_size m slot
                  < 24 + 8 * get_tuple_count m + row.size)
                × (update_tuple types m row slot ≡ some (m, UpdateResult.no_space)))
              ⊎ ((read_tuple types m slot ≡ none)
                  × (update_tuple types m row slot ≡ none)
                  × (24 + 8 * get_tuple_count m + row.size
                      ≤ get_free_space_pointer m + get_tuple_size m slot))
              ⊎ ((m' : Memory) × (fields : List Field) × (read_tuple types m slot ≡ some fields)
                  × (update_tuple types m row slot ≡ some (m', UpdateResult.updated))
                  × IsValid m'
                  × (get_tuple m' slot ≡ some (segment row.bytes 0 row.size))
                  × ((j : ℕ) → j ≢ slot → get_tuple m' j ≡ get_tuple m j))))
unfolding update_tuple get_tuple
update_tuple_lem types m row slot v pos = elim (Bool-cases (leb (get_tuple_count m) slot)) [
  | inl out ↦ inl (ground arith, ground arith)
  | inr within ↦ elim (Bool-cases (is_deleted (get_tuple_size m slot))) [
    | inl deleted ↦ inl (ground arith, ground arith)
    | inr live ↦
        let lt : slot < get_tuple_count m = ground arith in
        let here = v.inside slot lt (ground arith) in
        let short : unset_deleted_flag (get_tuple_size m slot) ≡ get_tuple_size m slot =
          ground arith in
        let remaining = get_free_space_remaining_lem m v in
        let slots = v.room in
        let bounded = v.bounded in
        inr (
          λ e. ground arith,
          elim (Bool-cases
              (ltb ((get_free_space_remaining m + get_tuple_size m slot) % 2 ^ 32) row.size)) [
                | inl full ↦ inl (ground arith, ground arith)
                | inr fits ↦
                    let room : 24 + 8 * get_tuple_count m + row.size
                        ≤ get_free_space_pointer m + get_tuple_size m slot =
                      ground arith in
                    elim (Option-cases (read_tuple types m slot)) [
                      | inl unread ↦ inr (inl (unread, ground arith, room))
                      | inr (fields, old) ↦ inr (
                          inr (
                            replace_tuple m slot (get_tuple_offset m slot) (get_tuple_size m slot)
                                row,
                            fields,
                            old,
                            ground arith,
                            replace_tuple-IsValid m slot row v lt live pos room,
                            get_tuple-replace_self m slot row v lt live pos room,
                            get_tuple-replace_ne m slot row v lt live pos room,
                          ))
                    ]
              ],
        )
  ]
]
