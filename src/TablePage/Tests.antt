-- ===== src/TablePage/Tests.antt =====
-- Runs of the table page of minisql/src/page/table_page.cpp.
use zju_database_system.Prelude.{
  ℕ, ◌+◌, ◌*◌, ◌≤◌, ◌<◌, ◌≡◌, ◌≢◌, ◌⊎◌, refl, true, false, none, some, [], ◌∷◌, List, ◌==◌,
  if◌then◌else◌, arith,
}
use zju_database_system.Memory.{Memory, reset_memory, get_u32, set_u32, move_bytes}
use zju_database_system.Arrays.Segments.{segment}
use zju_database_system.Records.{
  TypeId, type_int, Field, integer, deserialize_row, deserialize_field,
}
use zju_database_system.TablePage.{
  Serialized, init, claim, insert_tuple, mark_delete, rollback_delete, apply_delete, update_tuple,
  UpdateResult, get_tuple, get_tuple_count, get_tuple_size, get_free_space_pointer,
  get_table_page_id, unset_deleted_flag, find_slot, get_free_space_remaining,
  set_free_space_pointer, set_tuple_count, set_tuple_offset, set_tuple_size, get_tuple_offset,
  serialize_to, set_prev_page_id, set_next_page_id, move_offsets, remove_tuple, replace_tuple,
  get_first_tuple_rid, get_next_tuple_rid, find_tuple, read_tuple,
}
use zju_database_system.TablePage.Layout.{IsValid}
use zju_database_system.TablePage.Init.{init_lem}
use zju_database_system.TablePage.Claim.{claim-IsValid}
use zju_database_system.TablePage.Insert.{insert_tuple_lem}
use zju_database_system.TablePage.Delete.{apply_delete_lem}
use zju_database_system.TablePage.Mark.{mark_delete_lem}
use zju_database_system.TablePage.Update.{update_tuple_lem}
use zju_database_system.TablePage.Scan.{IsFirstFrom, get_next_tuple_rid_lem}

program : Unit {0}
unfolding init claim insert_tuple mark_delete apply_delete update_tuple get_tuple get_tuple_count
    get_tuple_size get_free_space_pointer get_table_page_id find_slot get_free_space_remaining
    set_free_space_pointer set_tuple_count set_tuple_offset set_tuple_size get_tuple_offset
    serialize_to set_prev_page_id set_next_page_id move_offsets remove_tuple replace_tuple
    get_first_tuple_rid get_next_tuple_rid find_tuple read_tuple deserialize_row deserialize_field
    get_u32 set_u32 move_bytes segment
program = tt

abbrev empty : Memory
empty = init reset_memory 5 4

abbrev row : Serialized
row = record { size = 3; bytes = λ i. 7 + i }

abbrev one : Memory
one = claim empty 0 row

empty_fields : (get_tuple_count empty ≡ 0) × (get_free_space_pointer empty ≡ 4096)
unfolding program
empty_fields = (refl, refl)

one_fields : (get_tuple_count one ≡ 1) × (get_tuple_size one 0 ≡ 3)
unfolding program
one_fields = (refl, refl)

one_tuple : get_tuple one 0 ≡ some (7 ∷ 8 ∷ 9 ∷ [])
unfolding program
one_tuple = refl

empty-IsValid : IsValid empty
empty-IsValid = (init_lem reset_memory 5 4).0

one-IsValid : IsValid one
one-IsValid =
    claim-IsValid empty 0 row empty-IsValid (omega arith) (omega (arith, empty_fields))
      (omega arith)

insert_tuple_lem_example :
    ((get_free_space_pointer empty < 24 + 8 * (get_tuple_count empty + 1) + 3)
      × (insert_tuple empty row ≡ some (empty, none)))
    ⊎ ((m' : Memory) × (slot : ℕ) × (insert_tuple empty row
          ≡ some (m', some (record { page_id = get_table_page_id empty; slot_num = slot })))
        × (24 + 8 * (get_tuple_count empty + 1) + 3 ≤ get_free_space_pointer empty)
        × IsValid m'
        × (get_tuple empty slot ≡ none)
        × (get_tuple m' slot ≡ some (segment row.bytes 0 3))
        × ((j : ℕ) → j ≢ slot → get_tuple m' j ≡ get_tuple empty j))
insert_tuple_lem_example = insert_tuple_lem empty row empty-IsValid (omega arith)

apply_delete_lem_example :
    (m' : Memory) × (apply_delete one 0 ≡ some m')
    × IsValid m'
    × (get_tuple m' 0 ≡ none)
    × ((j : ℕ) → j ≢ 0 → get_tuple m' j ≡ get_tuple one j)
    × (get_free_space_pointer m'
        ≡ get_free_space_pointer one + unset_deleted_flag (get_tuple_size one 0))
apply_delete_lem_example =
    apply_delete_lem one 0 one-IsValid (omega (arith, one_fields)) (omega (arith, one_fields))

mark_delete_lem_example :
    ((mark_delete one 0 ≡ (one, false)) × (get_tuple one 0 ≡ none))
    ⊎ ((m' m'' : Memory) × (mark_delete one 0 ≡ (m', true))
        × (get_tuple one 0 ≢ none)
        × IsValid m'
        × (get_tuple m' 0 ≡ none)
        × ((j : ℕ) → j ≢ 0 → get_tuple m' j ≡ get_tuple one j)
        × (rollback_delete m' 0 ≡ some m'')
        × IsValid m''
        × ((j : ℕ) → get_tuple m'' j ≡ get_tuple one j))
mark_delete_lem_example = mark_delete_lem one 0 one-IsValid

-- A page with a row of one int, 1.
abbrev int_type : List TypeId
int_type = type_int ∷ []

abbrev stored : Memory
stored = claim empty 0 (record { size = 4; bytes = λ i. if i == 0 then 1 else 0 })

stored_row : read_tuple int_type stored 0 ≡ some (integer 1 ∷ [])
unfolding program
stored_row = refl

stored-IsValid : IsValid stored
stored-IsValid =
    claim-IsValid empty 0 (record { size = 4; bytes = λ i. if i == 0 then 1 else 0 }) empty-IsValid
      (omega arith) (omega (arith, empty_fields)) (omega arith)

abbrev longer : Serialized
longer = record { size = 5; bytes = λ i. 20 + i }

update_tuple_lem_example :
    ((get_tuple stored 0 ≡ none)
      × (update_tuple int_type stored longer 0 ≡ some (stored, UpdateResult.illegal)))
    ⊎ ((get_tuple stored 0 ≢ none)
        × (((get_free_space_pointer stored + get_tuple_size stored 0
                < 24 + 8 * get_tuple_count stored + 5)
              × (update_tuple int_type stored longer 0 ≡ some (stored, UpdateResult.no_space)))
            ⊎ ((read_tuple int_type stored 0 ≡ none)
                × (update_tuple int_type stored longer 0 ≡ none)
                × (24 + 8 * get_tuple_count stored + 5
                    ≤ get_free_space_pointer stored + get_tuple_size stored 0))
            ⊎ ((m' : Memory) × (fields : List Field) × (read_tuple int_type stored 0 ≡ some fields)
                × (update_tuple int_type stored longer 0 ≡ some (m', UpdateResult.updated))
                × IsValid m'
                × (get_tuple m' 0 ≡ some (segment longer.bytes 0 5))
                × ((j : ℕ) → j ≢ 0 → get_tuple m' j ≡ get_tuple stored j))))
update_tuple_lem_example = update_tuple_lem int_type stored longer 0 stored-IsValid (omega arith)

get_next_tuple_rid_lem_example : IsFirstFrom one 0 (get_first_tuple_rid one)
get_next_tuple_rid_lem_example =
    (get_next_tuple_rid_lem one (record { page_id = 5; slot_num = 0 })).0
