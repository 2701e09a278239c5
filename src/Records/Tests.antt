-- ===== src/Records/Tests.antt =====
-- Runs of the serialisation of minisql/src/record.
use Prim.Native.Nat.{compare}
use zju_database_system.Prelude.{
  ◌<◌, ℕ, ◌≡◌, ◌≢◌, ◌⊎◌, refl, Bool, true, false, ◌^◌, ◌-◌, none, some, List, [], ◌∷◌, arith,
  length, map, get_elem?,
}
use zju_database_system.Memory.{Memory, reset_memory, get_u32, set_u32}
use zju_database_system.Records.{
  Field, null, integer, floating, chars, type_id, type_int, type_char, Column, serialize_field,
  deserialize_field, serialize_row, deserialize_row, row_size, serialize_column, deserialize_column,
  column_size, serialize_schema, deserialize_schema, schema_size, get_column_index,
  get_serialized_size, write_bytes, make_column, default_len, until_zero,
}
use zju_database_system.Records.Fields.{Writes, Agrees}
use zju_database_system.Records.Rows.{AllValues, serialize_row_lem}
use zju_database_system.Records.Columns.{IsColumn, with_default_len, serialize_column_lem}
use zju_database_system.Records.Schemas.{NoneBefore, serialize_schema_lem, get_column_index_lem}
use zju_database_system.Records.Compare.{
  k_true, k_null, get_cmp_bool, Comparison, equals, less_than, test, compare_field, compare_int32,
}
use zju_database_system.Records.Compare.Laws.{IsText, holds, compare_chars_lem, compare_field_lem}
use zju_database_system.Records.Stored.{insert_tuple-deserialize_row}
use zju_database_system.TablePage.{
  init, insert_tuple, get_tuple_count, get_tuple_offset, get_tuple_size, get_free_space_pointer,
  get_table_page_id, set_tuple_count, set_free_space_pointer, set_next_page_id, set_prev_page_id,
}
use zju_database_system.TablePage.Init.{init_lem}

program : Unit {0}
unfolding serialize_field serialize_row deserialize_field deserialize_row row_size type_id
    serialize_column column_size deserialize_column serialize_schema get_column_index
    get_serialized_size write_bytes make_column default_len until_zero get_u32 set_u32
program = tt

abbrev fields : List Field
fields = integer 7 ∷ chars (72 ∷ 105 ∷ []) ∷ floating 1065353216 ∷ []

fields-AllValues : AllValues fields
fields-AllValues = (omega arith, (omega arith, (omega arith, tt)))

-- The bytes of the fields.
abbrev stored : Memory
stored =
    set_u32 (write_bytes (set_u32 (set_u32 reset_memory 0 7) 4 2) 8 (72 ∷ 105 ∷ [])) 10 1065353216

stored_lem : serialize_row reset_memory 0 fields ≡ some (stored, 14)
unfolding program
stored_lem = refl

-- A row with a null takes no bytes for it and is read back as another value.
null_row :
    deserialize_row reset_memory 0 (map type_id (null type_int ∷ [])) ≡ some (integer 0 ∷ [], 4)
unfolding program
null_row = refl

serialize_row_lem_example :
    (m' : Memory) × (n : ℕ) × (serialize_row reset_memory 0 fields ≡ some (m', n))
    × (row_size fields ≡ some n)
    × Writes reset_memory 0 n m'
    × ((m'' : Memory)
        → Agrees m' 0 n m''
        → deserialize_row m'' 0 (map type_id fields) ≡ some (fields, n))
serialize_row_lem_example = serialize_row_lem reset_memory 0 fields fields-AllValues

abbrev page : Memory
page = init reset_memory 5 4

page_fields : (get_tuple_count page ≡ 0) × (get_free_space_pointer page ≡ 4096)
unfolding init get_tuple_count get_free_space_pointer get_u32 set_u32 set_tuple_count
    set_free_space_pointer set_next_page_id set_prev_page_id
page_fields = (refl, refl)

insert_tuple-deserialize_row_example :
    (m' : Memory) × (slot : ℕ) × (insert_tuple page (record { size = 14; bytes = stored })
      ≡ some (m', some (record { page_id = get_table_page_id page; slot_num = slot })))
    × (get_tuple_size m' slot ≡ 14)
    × (deserialize_row m' (get_tuple_offset m' slot) (map type_id fields) ≡ some (fields, 14))
insert_tuple-deserialize_row_example =
    insert_tuple-deserialize_row page stored fields 14 (init_lem reset_memory 5 4).0
      fields-AllValues stored_lem (omega arith) (omega (arith, page_fields))

abbrev id_column : Column
id_column = record {
  name = 105 ∷ 100 ∷ [];
  column_type = type_int;
  len = 4;
  table_ind = 0;
  nullable = false;
  unique = true;
}

abbrev name_column : Column
name_column = record {
  name = 110 ∷ [];
  column_type = type_char;
  len = 32;
  table_ind = 1;
  nullable = true;
  unique = false;
}

id_column-IsColumn : IsColumn id_column
unfolding until_zero
id_column-IsColumn = record {
  name = refl;
  short = omega arith;
  index = omega arith;
  known = λ e. cc;
}

name_column-IsColumn : IsColumn name_column
unfolding until_zero
name_column-IsColumn = record {
  name = refl;
  short = omega arith;
  index = omega arith;
  known = λ e. cc;
}

-- A char(32) column comes back as a char(5) column.
lost_length : with_default_len name_column ≡ record name_column { len = 5 }
unfolding default_len
lost_length = refl

serialize_column_lem_example :
    ((serialize_column reset_memory 0 name_column).1 ≡ column_size name_column)
    × Writes reset_memory 0
        (column_size name_column)
        (serialize_column reset_memory 0 name_column).0
    × ((m' : Memory)
        → Agrees (serialize_column reset_memory 0 name_column).0 0 (column_size name_column) m'
        → deserialize_column m' 0 ≡ some (with_default_len name_column, column_size name_column))
serialize_column_lem_example = serialize_column_lem reset_memory 0 name_column name_column-IsColumn

abbrev columns : List Column
columns = id_column ∷ name_column ∷ []

serialize_schema_lem_example :
    ((serialize_schema reset_memory 0 columns).1 ≡ schema_size columns)
    × Writes reset_memory 0 (schema_size columns) (serialize_schema reset_memory 0 columns).0
    × ((m' : Memory)
        → Agrees (serialize_schema reset_memory 0 columns).0 0 (schema_size columns) m'
        → deserialize_schema m' 0 ≡ some (map with_default_len columns, schema_size columns))
serialize_schema_lem_example =
    serialize_schema_lem reset_memory 0 columns (id_column-IsColumn, (name_column-IsColumn, tt))
      (omega arith)

get_column_index_lem_example :
    ((get_column_index 0 columns (110 ∷ []) ≡ none)
      × NoneBefore columns (110 ∷ []) (length columns))
    ⊎ ((x : ℕ) × (c : Column) × (get_column_index 0 columns (110 ∷ []) ≡ some x)
        × (get_elem? columns x ≡ some c)
        × (c.name ≡ 110 ∷ [])
        × NoneBefore columns (110 ∷ []) x)
get_column_index_lem_example = get_column_index_lem columns (110 ∷ [])

abbrev behind : List ℕ → ℕ → ℕ
behind xs i = 0

abbrev letter_a : List ℕ
letter_a = 65 ∷ []

abbrev letter_b : List ℕ
letter_b = 66 ∷ []

abbrev float_test : Comparison → ℕ → ℕ → Bool
float_test op x y = test op (compare x y)

-- "A" equals "B".
compare_chars_lem_example :
    (IsText behind letter_a
      × IsText behind letter_b
      × (1 < 2 ^ 31)
      × (1 < 2 ^ 31)
      × (compare_field behind float_test equals (chars letter_a) (chars letter_b) reset_memory
          ≡ some (get_cmp_bool (test equals (compare 1 1)))))
    ⊎ (((IsText behind letter_a × IsText behind letter_b) × (1 < 2 ^ 31) × (1 < 2 ^ 31) → ⊥)
        × (compare_field behind float_test equals (chars letter_a) (chars letter_b) reset_memory
            ≡ none))
compare_chars_lem_example =
    compare_chars_lem behind float_test equals letter_a letter_b reset_memory

integer_type : type_id (integer (2 ^ 32 - 3)) ≡ type_int
unfolding type_id
integer_type = refl

abbrev minus_three : Field
minus_three = integer (2 ^ 32 - 3)

compare_field_lem_example :
    ((type_id (integer 2) ≢ type_int)
      × (compare_field behind float_test less_than minus_three (integer 2) reset_memory ≡ none))
    ⊎ ((type_id (integer 2) ≡ type_int)
        × ((minus_three ≡ null type_int) ⊎ (integer 2 ≡ null type_int))
        × (compare_field behind float_test less_than minus_three (integer 2) reset_memory
            ≡ some k_null))
    ⊎ ((a b : ℕ) × (minus_three ≡ integer a)
        × (integer 2 ≡ integer b)
        × (compare_field behind float_test less_than minus_three (integer 2) reset_memory
            ≡ some (get_cmp_bool (holds less_than a b))))
compare_field_lem_example =
    compare_field_lem behind float_test less_than minus_three (integer 2) reset_memory (omega arith)
      (omega arith) integer_type

-- -3 is less than 2.
negative_less :
    compare_field behind float_test less_than (integer (2 ^ 32 - 3)) (integer 2) reset_memory
    ≡ some k_true
unfolding compare_field compare_int32 test
negative_less = refl
