-- ===== src/Records/Columns.antt =====
-- Column::SerializeTo and Column::DeserializeFrom of minisql/src/record/column.cpp.
use zju_database_system.Prelude.{
  ℕ, ◌+◌, ◌*◌, ◌^◌, ◌≤◌, ◌<◌, ◌≡◌, ◌≢◌, refl, sym, ap, ◌∙◌, inl, Bool, true, false, not, none, some,
  length, arith, ◌==◌,
}
use zju_database_system.Memory.{
  Memory, get_u32, set_u32, put, set_u32_outside, get_u32-set_u32, get_u32_of_eq,
}
use zju_database_system.Arrays.Segments.{segment, segment_ext}
use zju_database_system.Records.{
  TypeId, type_invalid, type_int, type_float, type_char, Column, column_magic_num, type_code,
  type_of_code, bool_code, write_bytes, default_len, make_column, serialize_column,
  deserialize_column, column_size, until_zero,
}
use zju_database_system.Records.Fields.{
  Writes, Agrees, write_bytes-Writes, segment-write_bytes, Agrees-get_u32, Agrees-segment,
}

-- A column whose name has no zero byte, with numbers that fit into 32 bits, and of a known type.
pub record IsColumn (c : Column) : Type 0 where
  pub name : until_zero c.name ≡ c.name
  pub short : length c.name < 2 ^ 32
  pub index : c.table_ind < 2 ^ 32
  pub known : c.column_type ≢ type_invalid

-- The column with the length of the constructor that has no length.
abbrev pub with_default_len : Column → Column
with_default_len c = record c {
  len = elim (default_len c.name c.column_type) [ none ↦ c.len | some len ↦ len ];
}

type_of_code_lem : (t : TypeId) → type_of_code (type_code t) ≡ t
unfolding type_of_code
type_of_code_lem type_invalid = refl
type_of_code_lem type_int = refl
type_of_code_lem type_float = refl
type_of_code_lem type_char = refl

bool_code_lem : (b : Bool) → not (bool_code b == 0) ≡ b
bool_code_lem true = refl
bool_code_lem false = refl

make_column_lem :
    (c : Column)
    → c.column_type ≢ type_invalid
    → make_column c.name c.column_type c.table_ind c.nullable c.unique ≡ some (with_default_len c)
unfolding make_column default_len
make_column_lem c known = ground arith

module _ (m : Memory) (a : ℕ) (c : Column) (ok : IsColumn c) where
  abbrev n : ℕ
  n = length c.name

  abbrev behind_name : ℕ
  behind_name = a + 8 + (n + 4)

  abbrev with_count : Memory
  with_count = set_u32 (set_u32 m a column_magic_num) (a + 4) n

  abbrev with_name : Memory
  with_name = write_bytes with_count (a + 8) c.name

  abbrev with_type : Memory
  with_type = set_u32 with_name behind_name (type_code c.column_type)

  abbrev with_index : Memory
  with_index = set_u32 with_type (behind_name + 4) c.table_ind

  abbrev written : Memory
  written =
      put (put with_index (behind_name + 8) (bool_code c.nullable)) (behind_name + 9)
        (bool_code c.unique)

  -- The bytes before the flags, before the index, before the type and before the name.
  before_flags : (b : ℕ) → b < behind_name + 8 → written b ≡ with_index b
  unfolding put
  before_flags b lt = ground arith

  before_index : (b : ℕ) → b < behind_name + 4 → written b ≡ with_type b
  before_index b lt =
      before_flags b (omega arith)
      ∙ set_u32_outside with_type (behind_name + 4) c.table_ind b (inl lt)

  before_type : (b : ℕ) → b < behind_name → written b ≡ with_name b
  before_type b lt =
      before_index b (omega arith)
      ∙ set_u32_outside with_name behind_name (type_code c.column_type) b (inl lt)

  written-Writes : Writes m a (8 + (n + 4) + 10) written
  unfolding put
  written-Writes b out =
      let flags : written b ≡ with_index b = ground arith in
      flags
      ∙ set_u32_outside with_type (behind_name + 4) c.table_ind b (ground arith)
      ∙ set_u32_outside with_name behind_name (type_code c.column_type) b (ground arith)
      ∙ write_bytes-Writes with_count (a + 8) c.name b (ground arith)
      ∙ set_u32_outside (set_u32 m a column_magic_num) (a + 4) n b (ground arith)
      ∙ set_u32_outside m a column_magic_num b (ground arith)

  -- What DeserializeFrom reads in a memory with these bytes.
  reads :
      (m' : Memory)
      → Agrees written a (8 + (n + 4) + 10) m'
      → (get_u32 m' (a + 4) ≡ n)
        × (segment m' (a + 8) n ≡ c.name)
        × (get_u32 m' behind_name ≡ type_code c.column_type)
        × (get_u32 m' (behind_name + 4) ≡ c.table_ind)
        × (m' (behind_name + 8) ≡ bool_code c.nullable)
        × (m' (behind_name + 9) ≡ bool_code c.unique)
  unfolding put
  reads m' same =
      let size = 8 + (n + 4) + 10 in
      let word = λ (i : ℕ) (lo : a ≤ i) (hi : i + 4 ≤ a + size).
        Agrees-get_u32 written m' a size i lo hi same in
      let code : type_code c.column_type < 2 ^ 32 = ground arith in
      (
        word (a + 4) (omega arith) (omega arith)
            ∙ get_u32_of_eq written with_count (a + 4) (λ b lo hi.
              before_type b (omega arith)
              ∙ write_bytes-Writes with_count (a + 8) c.name b (inl (omega arith)))
            ∙ get_u32-set_u32 (set_u32 m a column_magic_num) (a + 4) n ok.short,
        Agrees-segment written m' a size (a + 8) n (omega arith) (omega arith) same
            ∙ segment_ext written with_name (a + 8) (a + 8) n
                (λ j lt. before_type (a + 8 + j) (omega arith))
            ∙ segment-write_bytes with_count (a + 8) c.name,
        word behind_name (omega arith) (omega arith)
            ∙ get_u32_of_eq written with_type behind_name (λ b lo hi. before_index b (omega arith))
            ∙ get_u32-set_u32 with_name behind_name (type_code c.column_type) code,
        word (behind_name + 4) (omega arith) (omega arith)
            ∙ get_u32_of_eq written with_index (behind_name + 4)
                (λ b lo hi. before_flags b (omega arith))
            ∙ get_u32-set_u32 with_type (behind_name + 4) c.table_ind ok.index,
        same (behind_name + 8) (omega arith) (omega arith) ∙ ground arith,
        same (behind_name + 9) (omega arith) (omega arith) ∙ ground arith,
      )

-- A column takes the bytes that GetSerializedSize says and no others, and DeserializeFrom reads it
-- back from every memory with these bytes, but for its length, which is that of the constructor
-- without a length.
pub serialize_column_lem :
    (m : Memory) (a : ℕ) (c : Column)
    → IsColumn c
    → ((serialize_column m a c).1 ≡ column_size c)
      × Writes m a (column_size c) (serialize_column m a c).0
      × ((m' : Memory)
          → Agrees (serialize_column m a c).0 a (column_size c) m'
          → deserialize_column m' a ≡ some (with_default_len c, column_size c))
unfolding serialize_column deserialize_column column_size
serialize_column_lem m a c ok =
    let size : 3 * 4 + 2 * 1 + (4 + length c.name) + 4 ≡ 8 + (length c.name + 4) + 10 =
      omega arith in
    (
      sym size,
      λ b out. written-Writes m a c ok b (ground arith),
      λ m' same.
          let (count, name, code, index, nullable, unique) =
            reads m a c ok m' (λ b lo hi. same b lo (omega arith)) in
          let name' : until_zero (segment m' (a + 8) (length c.name)) ≡ c.name =
            ap until_zero name ∙ ok.name in
          let type' = ap type_of_code code ∙ type_of_code_lem c.column_type in
          let nullable' = ap (λ b. not (b == 0)) nullable ∙ bool_code_lem c.nullable in
          let unique' = ap (λ b. not (b == 0)) unique ∙ bool_code_lem c.unique in
          rw (count, name', type', index, nullable', unique', make_column_lem c ok.known, size)
            refl,
    )
