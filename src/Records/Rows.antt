-- ===== src/Records/Rows.antt =====
-- Row::SerializeTo and Row::DeserializeFrom of minisql/src/record/row.cpp.
use zju_database_system.Prelude.{ℕ, ◌+◌, ◌≡◌, refl, ◌∙◌, inl, some, List, [], ◌∷◌, map, arith}
use zju_database_system.Memory.{Memory}
use zju_database_system.Records.{Field, type_id, serialize_row, deserialize_row, row_size}
use zju_database_system.Records.Fields.{Writes, Agrees, IsValue, serialize_field_lem}

abbrev pub AllValues : List Field → Type 0
AllValues [] = Unit
AllValues (f ∷ fs) = IsValue f × AllValues fs

-- A row without nulls takes the bytes that GetSerializedSize says and no others, and
-- DeserializeFrom, for the types of its fields, reads it back from every memory with these bytes.
pub serialize_row_lem :
    (m : Memory) (a : ℕ) (fs : List Field)
    → AllValues fs
    → (m' : Memory) × (n : ℕ) × (serialize_row m a fs ≡ some (m', n))
      × (row_size fs ≡ some n)
      × Writes m a n m'
      × ((m'' : Memory) → Agrees m' a n m'' → deserialize_row m'' a (map type_id fs) ≡ some (fs, n))
unfolding serialize_row deserialize_row row_size
serialize_row_lem m a [] h = (m, 0, refl, refl, λ b out. refl, λ m'' same. refl)
serialize_row_lem m a (f ∷ fs) h =
    let (m1, n1, written1, size1, outside1, read1) = serialize_field_lem m a f h.0 in
    let (m2, n2, written2, size2, outside2, read2) = serialize_row_lem m1 (a + n1) fs h.1 in
    (
      m2,
      n1 + n2,
      rw (written1, written2) refl,
      rw (size1, size2) refl,
      λ b out. outside2 b (ground arith) ∙ outside1 b (ground arith),
      λ m'' same.
          let first = read1 m'' (λ b lo hi. same b lo (omega arith) ∙ outside2 b (inl hi)) in
          let rest = read2 m'' (λ b lo hi. same b (omega arith) (omega arith)) in
          rw (first, rest) refl,
    )
