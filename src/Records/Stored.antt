-- ===== src/Records/Stored.antt =====
-- A row in a table page: Row::SerializeTo and DeserializeFrom (minisql/src/record/row.cpp) as
-- TablePage::InsertTuple and GetTuple (minisql/src/page/table_page.cpp) call them.
use zju_database_system.Prelude.{
  ℕ, zero, suc, ◌+◌, ◌*◌, ◌≤◌, ◌<◌, ◌≡◌, refl, sym, ap, ◌∙◌, inl, inr, false, Option, some, List,
  [], ◌∷◌, map, length, arith, ◌>>=◌, fun_ext,
}
use zju_database_system.Memory.{Memory, reset_memory, get_u32}
use zju_database_system.Arrays.Segments.{segment, segment_ext, length-segment}
use zju_database_system.Records.{
  Field, TypeId, type_invalid, type_int, type_float, type_char, type_id, deserialize_field,
  serialize_row, deserialize_row,
}
use zju_database_system.Records.Fields.{Agrees}
use zju_database_system.Records.Rows.{AllValues, serialize_row_lem}
use zju_database_system.TablePage.{
  Serialized, insert_tuple, get_tuple, get_tuple_count, get_tuple_offset, get_tuple_size,
  get_free_space_pointer, get_table_page_id,
}
use zju_database_system.TablePage.Layout.{IsValid}
use zju_database_system.TablePage.Insert.{insert_tuple_lem}

segment_at :
    (a b : ℕ → ℕ) (i k n j : ℕ) → segment a i n ≡ segment b k n → j < n → a (i + j) ≡ b (k + j)
unfolding segment
segment_at a b i k zero j h lt = absurd (omega arith)
segment_at a b i k (suc n) zero h lt = ground arith
segment_at a b i k (suc n) (suc j) h lt = ground (arith, segment_at a b (i + 1) (k + 1) n j)

-- The memory from address `k` on.
abbrev pub from : ℕ → Memory → Memory
from k m b = m (k + b)

deserialize_field-from :
    (k : ℕ) (m : Memory) (a : ℕ) (t : TypeId)
    → deserialize_field (from k m) a t false ≡ deserialize_field m (k + a) t false
unfolding deserialize_field get_u32
deserialize_field-from k m a type_invalid = refl
deserialize_field-from k m a type_int = ground arith
deserialize_field-from k m a type_float = ground arith
deserialize_field-from k m a type_char = ground (
  arith,
  segment_ext (from k m) m (a + 4) (k + a + 4) (get_u32 m (k + a)) (λ j lt. ap m (omega arith)),
)

deserialize_row-from :
    (k : ℕ) (m : Memory) (a : ℕ) (ts : List TypeId)
    → deserialize_row (from k m) a ts ≡ deserialize_row m (k + a) ts
unfolding deserialize_row
deserialize_row-from k m a [] = refl
deserialize_row-from k m a (t ∷ ts) =
    let tail = λ (x : Field × ℕ).
      let place : k + (a + x.1) ≡ k + a + x.1 = omega arith in
      deserialize_row-from k m (a + x.1) ts ∙ ap (λ z. deserialize_row m z ts) place in
    rw (deserialize_field-from k m a t) (
      ap (λ (g : Field × ℕ → Option (List Field × ℕ)). deserialize_field m (k + a) t false >>= g)
        (fun_ext λ (x : Field × ℕ).
          ap (λ (r : Option (List Field × ℕ)). r >>= (λ y. some (x.0 ∷ y.0, x.1 + y.1))) (tail x)))

get_tuple-some :
    (m : Memory) (slot : ℕ) (xs : List ℕ)
    → get_tuple m slot ≡ some xs
    → segment m (get_tuple_offset m slot) (get_tuple_size m slot) ≡ xs
unfolding get_tuple
get_tuple-some m slot xs h = ground arith

some_pair : (p q : Memory × ℕ) → some p ≡ some q → (p.0 ≡ q.0) × (p.1 ≡ q.1)
some_pair p q h = let same : p ≡ q = cc in (ap (λ z. z.0) same, ap (λ z. z.1) same)

-- A row without nulls that InsertTuple puts into a well-formed page with room for it is read back by
-- DeserializeFrom at its tuple, for the types of its fields and with the bytes of the tuple.
pub insert_tuple-deserialize_row :
    (m w : Memory) (fs : List Field) (n : ℕ)
    → IsValid m
    → AllValues fs
    → serialize_row reset_memory 0 fs ≡ some (w, n)
    → 0 < n
    → 24 + 8 * (get_tuple_count m + 1) + n ≤ get_free_space_pointer m
    → (m' : Memory) × (slot : ℕ) × (insert_tuple m (record { size = n; bytes = w })
        ≡ some (m', some (record { page_id = get_table_page_id m; slot_num = slot })))
      × (get_tuple_size m' slot ≡ n)
      × (deserialize_row m' (get_tuple_offset m' slot) (map type_id fs) ≡ some (fs, n))
insert_tuple-deserialize_row m w fs n v ok serialized pos room =
    let row : Serialized = record { size = n; bytes = w } in
    let (w', n', written, size, outside, read) = serialize_row_lem reset_memory 0 fs ok in
    let (same_memory, same_size) = some_pair (w', n') (w, n) (sym written ∙ serialized) in
    elim (insert_tuple_lem m row v pos) [
      | inl full ↦ absurd (omega (arith, full.0))
      | inr (m', slot, inserted, fits, valid, free, tuple, others) ↦
          let o = get_tuple_offset m' slot in
          let bytes : segment m' o (get_tuple_size m' slot) ≡ segment w 0 n =
            get_tuple-some m' slot (segment w 0 n) tuple in
          let size' : get_tuple_size m' slot ≡ n =
            sym (length-segment m' o (get_tuple_size m' slot))
            ∙ ap length bytes
            ∙ length-segment w 0 n in
          let bytes' : segment m' o n ≡ segment w 0 n = ap (segment m' o) (sym size') ∙ bytes in
          let agrees : Agrees w' 0 n' (from o m') = λ b lo hi.
            let first : w (0 + b) ≡ w b = ap w (omega arith) in
            segment_at m' w o 0 n b bytes' (omega arith)
            ∙ first
            ∙ ap (λ (t : Memory). t b) (sym same_memory) in
          let base : o ≡ o + 0 = omega arith in
          (
            m',
            slot,
            inserted,
            size',
            ap (λ z. deserialize_row m' z (map type_id fs)) base
                ∙ sym (deserialize_row-from o m' 0 (map type_id fs))
                ∙ read (from o m') agrees
                ∙ ap (λ z. some (fs, z)) same_size,
          )
    ]
