-- ===== src/Records/Schemas.antt =====
-- Schema::SerializeTo, DeserializeFrom and GetColumnIndex of minisql/src/record/schema.cpp and
-- minisql/src/include/record/schema.h.
use zju_database_system.Prelude.{
  ℕ, zero, suc, ◌+◌, ◌*◌, ◌^◌, ◌<◌, ◌≡◌, ◌≢◌, refl, sym, ap, ◌∙◌, ◌⊎◌, inl, inr, true, none, some,
  List, [], ◌∷◌, length, map, get_elem?, arith, Bool-cases,
}
use zju_database_system.Memory.{
  Memory, get_u32, set_u32, set_u32_outside, get_u32-set_u32, get_u32_of_eq,
}
use zju_database_system.Records.{
  Column, schema_magic_num, serialize_column, column_size, serialize_columns, deserialize_columns,
  columns_size, serialize_schema, deserialize_schema, schema_size, get_column_index, same_name,
}
use zju_database_system.Records.Fields.{Writes, Agrees, Agrees-get_u32}
use zju_database_system.Records.Columns.{IsColumn, with_default_len, serialize_column_lem}

abbrev pub AllColumns : List Column → Type 0
AllColumns [] = Unit
AllColumns (c ∷ cs) = IsColumn c × AllColumns cs

serialize_columns_lem :
    (m : Memory) (a : ℕ) (cs : List Column)
    → AllColumns cs
    → ((serialize_columns m a cs).1 ≡ columns_size cs)
      × Writes m a (columns_size cs) (serialize_columns m a cs).0
      × ((m' : Memory)
          → Agrees (serialize_columns m a cs).0 a (columns_size cs) m'
          → deserialize_columns (length cs) m' a ≡ some (map with_default_len cs, columns_size cs))
unfolding serialize_columns deserialize_columns columns_size
serialize_columns_lem m a [] ok = (refl, λ b out. refl, λ m' same. refl)
serialize_columns_lem m a (c ∷ cs) ok =
    let (size1, outside1, read1) = serialize_column_lem m a c ok.0 in
    let m1 = (serialize_column m a c).0 in
    let n1 = (serialize_column m a c).1 in
    let (size2, outside2, read2) = serialize_columns_lem m1 (a + n1) cs ok.1 in
    (
      omega (arith, size1, size2),
      λ b out. outside2 b (omega (arith, size1)) ∙ outside1 b (omega arith),
      λ m' same.
          let first =
            read1 m'
              (λ b lo hi. same b lo (omega arith) ∙ outside2 b (inl (omega (arith, size1)))) in
          let rest = read2 m' (λ b lo hi. same b (omega (arith, size1)) (omega (arith, size1))) in
          let rest' : deserialize_columns (length cs) m' (a + column_size c)
              ≡ some (map with_default_len cs, columns_size cs) =
            ap (λ k. deserialize_columns (length cs) m' (a + k)) (sym size1) ∙ rest in
          rw (first, rest') refl,
    )

-- A schema takes the bytes that GetSerializedSize says and no others, and DeserializeFrom reads it
-- back from every memory with these bytes, but for the lengths of its columns, which are those of the
-- constructor without a length.
pub serialize_schema_lem :
    (m : Memory) (a : ℕ) (columns : List Column)
    → AllColumns columns
    → length columns < 2 ^ 32
    → ((serialize_schema m a columns).1 ≡ schema_size columns)
      × Writes m a (schema_size columns) (serialize_schema m a columns).0
      × ((m' : Memory)
          → Agrees (serialize_schema m a columns).0 a (schema_size columns) m'
          → deserialize_schema m' a ≡ some (map with_default_len columns, schema_size columns))
unfolding serialize_schema deserialize_schema schema_size
serialize_schema_lem m a columns ok few =
    let n = length columns in
    let m1 = set_u32 m a schema_magic_num in
    let m2 = set_u32 m1 (a + 4) n in
    let m3 = (serialize_columns m2 (a + 8) columns).0 in
    let size = columns_size columns in
    let (written, outside, read) = serialize_columns_lem m2 (a + 8) columns ok in
    (
      omega (arith, written),
      λ b out.
          outside b (omega arith)
          ∙ set_u32_outside m1 (a + 4) n b (omega arith)
          ∙ set_u32_outside m a schema_magic_num b (omega arith),
      λ m' same.
          let count : get_u32 m' (a + 4) ≡ n =
            Agrees-get_u32 m3 m' a (2 * 4 + size) (a + 4) (omega arith) (omega arith) same
            ∙ get_u32_of_eq m3 m2 (a + 4) (λ b lo hi. outside b (inl (omega arith)))
            ∙ get_u32-set_u32 m1 (a + 4) n few in
          let rest = read m' (λ b lo hi. same b (omega arith) (omega arith)) in
          rw (count, rest) refl,
    )

same_name_lem : (xs ys : List ℕ) → same_name xs ys ≡ true → xs ≡ ys
same_name_lem [] [] h = refl
same_name_lem [] (y ∷ ys) h = absurd (cc)
same_name_lem (x ∷ xs) [] h = absurd (cc)
same_name_lem (x ∷ xs) (y ∷ ys) h = ground (arith, same_name_lem xs ys)

same_name_self : (xs : List ℕ) → same_name xs xs ≡ true
same_name_self [] = refl
same_name_self (x ∷ xs) = ground (arith, same_name_self xs)

-- None of the first `n` columns has the name.
abbrev pub NoneBefore : List Column → List ℕ → ℕ → Type 0
NoneBefore cs name n = (i : ℕ) (c : Column) → i < n → get_elem? cs i ≡ some c → c.name ≢ name

NoneBefore-cons :
    (d : Column) (cs : List Column) (name : List ℕ) (n : ℕ)
    → d.name ≢ name
    → NoneBefore cs name n
    → NoneBefore (d ∷ cs) name (suc n)
NoneBefore-cons d cs name n differs rest zero c lt h = ground (arith, differs)
NoneBefore-cons d cs name n differs rest (suc i) c lt h = rest i c (omega arith) h

get_column_index_from :
    (k : ℕ) (cs : List Column) (name : List ℕ)
    → ((get_column_index k cs name ≡ none) × NoneBefore cs name (length cs))
      ⊎ ((x : ℕ) × (c : Column) × (get_column_index k cs name ≡ some (k + x))
          × (get_elem? cs x ≡ some c)
          × (c.name ≡ name)
          × NoneBefore cs name x)
unfolding get_column_index
get_column_index_from k [] name = inl (refl, λ i c lt h. absurd (cc))
get_column_index_from k (d ∷ cs) name = elim (Bool-cases (same_name d.name name)) [
  | inl same ↦
      inr (0, d, ground arith, refl, same_name_lem d.name name same, λ i c lt. absurd (omega arith))
  | inr other ↦
      let differs : d.name ≢ name =
        λ e. ground (arith, same_name_self name, ap (λ t. same_name t name) e) in
      elim (get_column_index_from (k + 1) cs name) [
        | inl (missing, others) ↦
            inl (ground arith, NoneBefore-cons d cs name (length cs) differs others)
        | inr (x, c, found, here, named, before) ↦ inr (
          suc x,
          c,
          ground (arith, found),
          here,
          named,
          NoneBefore-cons d cs name x differs before,
        )
      ]
]

-- GetColumnIndex answers with the first column of the name, and reports a missing name exactly if no
-- column has it.
pub get_column_index_lem :
    (cs : List Column) (name : List ℕ)
    → ((get_column_index 0 cs name ≡ none) × NoneBefore cs name (length cs))
      ⊎ ((x : ℕ) × (c : Column) × (get_column_index 0 cs name ≡ some x)
          × (get_elem? cs x ≡ some c)
          × (c.name ≡ name)
          × NoneBefore cs name x)
get_column_index_lem cs name = elim (get_column_index_from 0 cs name) [
  | inl missing ↦ inl missing
  | inr (x, c, found, here, named, before) ↦ inr (x, c, ground (arith, found), here, named, before)
]
