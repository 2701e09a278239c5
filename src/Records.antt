-- ===== src/Records.antt =====
-- Fields, rows, columns and schemas of tables: minisql/src/record/types.cpp, row.cpp, column.cpp and
-- schema.cpp, and the classes of minisql/src/include/record. `none` stands for a failed assertion.
pub mod Fields
pub mod Compare
pub mod Rows
pub mod Columns
pub mod Schemas
pub mod Stored
mod Tests
use zju_database_system.Prelude.{
  ℕ, zero, suc, ◌+◌, ◌-◌, ◌*◌, ◌%◌, ◌^◌, Bool, true, false, not, ◌&&◌, ◌||◌, Option, none, some,
  List, [], ◌∷◌, length, map, ltb, leb, ◌==◌, if◌then◌else◌, ◌>>=◌, ◌>>◌, require,
}
use zju_database_system.Memory.{Memory, get_u32, set_u32, put}
use zju_database_system.Arrays.Segments.{segment}

pub data TypeId : Type 0 where
  type_invalid type_int type_float type_char : TypeId

-- VARCHAR_MAX_LEN.
abbrev pub varchar_max_len : ℕ
varchar_max_len = 2048

-- A field without a value, or the value of the union: an int or a float by its 32 bits, or the bytes
-- at chars_, `len_` of them.
pub data Field : Type 0 where
  null : TypeId → Field
  integer floating : ℕ → Field
  chars : List ℕ → Field

unfoldable pub type_id : Field → TypeId
type_id (null t) = t
type_id (integer v) = type_int
type_id (floating v) = type_float
type_id (chars xs) = type_char

abbrev pub same_type : TypeId → TypeId → Bool
same_type type_invalid type_invalid = true
same_type type_int type_int = true
same_type type_float type_float = true
same_type type_char type_char = true
same_type _ _ = false

-- Type::GetTypeSize, whose exception is `none`.
unfoldable pub get_type_size : TypeId → Option ℕ
get_type_size type_invalid = none
get_type_size type_int = some 4
get_type_size type_float = some 4
get_type_size type_char = some 0

-- memcpy of the bytes to address `a`.
unfoldable pub write_bytes : Memory → ℕ → List ℕ → Memory
write_bytes m a [] = m
write_bytes m a (x ∷ xs) = write_bytes (put m a x) (a + 1) xs

-- SerializeTo of the types, for a field with a value: the memory, and the number of bytes written.
abbrev pub serialize_int : Memory → ℕ → ℕ → Memory × ℕ
serialize_int m a v = (set_u32 m a v, 4)

abbrev pub serialize_float : Memory → ℕ → ℕ → Memory × ℕ
serialize_float m a v = (set_u32 m a v, 4)

abbrev pub serialize_chars : Memory → ℕ → List ℕ → Memory × ℕ
serialize_chars m a xs = (write_bytes (set_u32 m a (length xs)) (a + 4) xs, length xs + 4)

unfoldable pub serialize_field : Memory → ℕ → Field → Option (Memory × ℕ)
serialize_field m a (null type_invalid) = none
serialize_field m a (null _) = some (m, 0)
serialize_field m a (integer v) = some (serialize_int m a v)
serialize_field m a (floating v) = some (serialize_float m a v)
serialize_field m a (chars xs) = some (serialize_chars m a xs)

-- DeserializeFrom of the types: the field, and the number of bytes read.
abbrev pub deserialize_int : Memory → ℕ → Bool → Field × ℕ
deserialize_int m a is_null = if is_null then (null type_int, 0) else (integer (get_u32 m a), 4)

abbrev pub deserialize_float : Memory → ℕ → Bool → Field × ℕ
deserialize_float m a is_null =
    if is_null then (null type_float, 0) else (floating (get_u32 m a), 4)

abbrev pub deserialize_chars : Memory → ℕ → Bool → Option (Field × ℕ)
deserialize_chars m a is_null =
    let len = get_u32 m a in
    if is_null
    then some (null type_char, 0)
    else if ltb len varchar_max_len
    then some (chars (segment m (a + 4) len), len + 4)
    else none

unfoldable pub deserialize_field : Memory → ℕ → TypeId → Bool → Option (Field × ℕ)
deserialize_field m a type_invalid is_null = none
deserialize_field m a type_int is_null = some (deserialize_int m a is_null)
deserialize_field m a type_float is_null = some (deserialize_float m a is_null)
deserialize_field m a type_char is_null = deserialize_chars m a is_null

-- GetSerializedSize of TypeInt, TypeFloat and TypeChar for a field with a value.
abbrev pub int_size : ℕ
int_size = 4

abbrev pub float_size : ℕ
float_size = 4

abbrev pub chars_size : List ℕ → ℕ
chars_size xs = length xs + 4

unfoldable pub get_serialized_size : Field → Option ℕ
get_serialized_size (null type_invalid) = none
get_serialized_size (null _) = some 0
get_serialized_size (integer v) = some int_size
get_serialized_size (floating v) = some float_size
get_serialized_size (chars xs) = some (chars_size xs)

-- Row::SerializeTo.
unfoldable pub serialize_row : Memory → ℕ → List Field → Option (Memory × ℕ)
serialize_row m a [] = some (m, 0)
serialize_row m a (f ∷ fs) = do
  (m1, move) ← serialize_field m a f
  (m2, ofs) ← serialize_row m1 (a + move) fs
  some (m2, move + ofs)

-- Row::DeserializeFrom for the types of the columns of the schema; no field is read as null.
unfoldable pub deserialize_row : Memory → ℕ → List TypeId → Option (List Field × ℕ)
deserialize_row m a [] = some ([], 0)
deserialize_row m a (t ∷ ts) = do
  (f, move) ← deserialize_field m a t false
  (fs, ofs) ← deserialize_row m (a + move) ts
  some (f ∷ fs, move + ofs)

-- Row::GetSerializedSize.
unfoldable pub row_size : List Field → Option ℕ
row_size [] = some 0
row_size (f ∷ fs) = do size ← get_serialized_size f; rest ← row_size fs; some (size + rest)

pub record Column : Type 0 where
  pub name : List ℕ
  pub column_type : TypeId
  pub len : ℕ
  pub table_ind : ℕ
  pub nullable : Bool
  pub unique : Bool

abbrev pub column_magic_num : ℕ
column_magic_num = 210928

abbrev pub schema_magic_num : ℕ
schema_magic_num = 200715

-- The length that the constructor without a length gives to a column.
unfoldable pub default_len : List ℕ → TypeId → Option ℕ
default_len name type_invalid = none
default_len name type_int = some 4
default_len name type_float = some 4
default_len name type_char = some (length name + 4)

unfoldable pub make_column : List ℕ → TypeId → ℕ → Bool → Bool → Option Column
make_column name column_type index nullable unique = do
  len ← default_len name column_type
  some (record {
    name = name;
    column_type = column_type;
    len = len;
    table_ind = index;
    nullable = nullable;
    unique = unique;
  })

-- The constructor with a length.
unfoldable pub make_char_column : List ℕ → TypeId → ℕ → ℕ → Bool → Bool → Option Column
make_char_column name column_type length index nullable unique = do
  require (same_type column_type type_char)
  some (record {
    name = name;
    column_type = column_type;
    len = length;
    table_ind = index;
    nullable = nullable;
    unique = unique;
  })

-- The enumerators of TypeId and the bytes of a bool.
abbrev pub type_code : TypeId → ℕ
type_code type_invalid = 0
type_code type_int = 1
type_code type_float = 2
type_code type_char = 3

abbrev pub bool_code : Bool → ℕ
bool_code true = 1
bool_code false = 0

-- A value that is no enumerator falls to the failing case of the constructor, as kTypeInvalid does.
unfoldable pub type_of_code : ℕ → TypeId
type_of_code c =
    if c == 1
    then type_int
    else if c == 2
    then type_float
    else if c == 3
    then type_char
    else type_invalid

-- Column::SerializeTo.
unfoldable pub serialize_column : Memory → ℕ → Column → Memory × ℕ
serialize_column m a c =
    let n = length c.name in
    let m1 = set_u32 m a column_magic_num in
    let m2 = set_u32 m1 (a + 4) n in
    let m3 = write_bytes m2 (a + 8) c.name in
    let m4 = set_u32 m3 (a + 8 + (n + 4)) (type_code c.column_type) in
    let m5 = set_u32 m4 (a + 8 + (n + 4) + 4) c.table_ind in
    let m6 = put m5 (a + 8 + (n + 4) + 8) (bool_code c.nullable) in
    (put m6 (a + 8 + (n + 4) + 9) (bool_code c.unique), 8 + (n + 4) + 10)

-- Column::GetSerializedSize.
unfoldable pub column_size : Column → ℕ
column_size c = 3 * 4 + 2 * 1 + (4 + length c.name) + 4

-- The bytes before the first zero, as strncpy and the constructor of std::string take them.
unfoldable pub until_zero : List ℕ → List ℕ
until_zero [] = []
until_zero (x ∷ xs) = let rest = until_zero xs in if x == 0 then [] else x ∷ rest

-- Column::DeserializeFrom, which logs a wrong magic number and goes on.
unfoldable pub deserialize_column : Memory → ℕ → Option (Column × ℕ)
deserialize_column m a = do
  let n = get_u32 m (a + 4)
  let name = until_zero (segment m (a + 8) n)
  let column_type = type_of_code (get_u32 m (a + 8 + (n + 4)))
  let index = get_u32 m (a + 8 + (n + 4) + 4)
  let nullable = not (m (a + 8 + (n + 4) + 8) == 0)
  let unique = not (m (a + 8 + (n + 4) + 9) == 0)
  column ← make_column name column_type index nullable unique
  some (column, 8 + (n + 4) + 10)

-- The loops over the columns of Schema::SerializeTo, GetSerializedSize and DeserializeFrom.
unfoldable pub serialize_columns : Memory → ℕ → List Column → Memory × ℕ
serialize_columns m a [] = (m, 0)
serialize_columns m a (c ∷ cs) =
    let (m1, move) = serialize_column m a c in
    let (m2, ofs) = serialize_columns m1 (a + move) cs in (m2, move + ofs)

unfoldable pub columns_size : List Column → ℕ
columns_size [] = 0
columns_size (c ∷ cs) = column_size c + columns_size cs

unfoldable pub deserialize_columns : ℕ → Memory → ℕ → Option (List Column × ℕ)
deserialize_columns zero m a = some ([], 0)
deserialize_columns (suc n) m a = do
  (c, move) ← deserialize_column m a
  (cs, ofs) ← deserialize_columns n m (a + move)
  some (c ∷ cs, move + ofs)

-- Schema::SerializeTo, GetSerializedSize and DeserializeFrom.
unfoldable pub serialize_schema : Memory → ℕ → List Column → Memory × ℕ
serialize_schema m a columns =
    let m1 = set_u32 m a schema_magic_num in
    let m2 = set_u32 m1 (a + 4) (length columns) in
    let (m3, ofs) = serialize_columns m2 (a + 8) columns in (m3, 8 + ofs)

unfoldable pub schema_size : List Column → ℕ
schema_size columns = 2 * 4 + columns_size columns

unfoldable pub deserialize_schema : Memory → ℕ → Option (List Column × ℕ)
deserialize_schema m a = do
  (columns, ofs) ← deserialize_columns (get_u32 m (a + 4)) m (a + 8)
  some (columns, 8 + ofs)

-- Schema::GetColumnIndex; `none` is DB_COLUMN_NAME_NOT_EXIST.
abbrev pub same_name : List ℕ → List ℕ → Bool
same_name [] [] = true
same_name [] (y ∷ ys) = false
same_name (x ∷ xs) [] = false
same_name (x ∷ xs) (y ∷ ys) = x == y && same_name xs ys

unfoldable pub get_column_index : ℕ → List Column → List ℕ → Option ℕ
get_column_index i [] col_name = none
get_column_index i (c ∷ cs) col_name =
    let rest = get_column_index (i + 1) cs col_name in
    if same_name c.name col_name then some i else rest
