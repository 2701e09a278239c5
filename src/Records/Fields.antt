-- ===== src/Records/Fields.antt =====
-- What SerializeTo of the types of minisql/src/record/types.cpp writes, and what DeserializeFrom reads
-- back.
use zju_database_system.Prelude.{
  ℕ, ◌+◌, ◌^◌, ◌≤◌, ◌<◌, ◌≡◌, refl, ◌∙◌, ◌⊎◌, inl, false, some, List, [], ◌∷◌, length, arith,
}
use zju_database_system.Memory.{
  Memory, get_u32, set_u32, put, put_lem, set_u32_outside, get_u32-set_u32, get_u32_of_eq,
}
use zju_database_system.Arrays.Segments.{segment, segment_ext}
use zju_database_system.Records.{
  Field, null, integer, floating, chars, type_id, varchar_max_len, write_bytes, serialize_field,
  deserialize_field, get_serialized_size,
}

-- Nothing but the `n` bytes from `a` on has changed.
abbrev pub Writes : Memory → ℕ → ℕ → Memory → Type 0
Writes m a n m' = (b : ℕ) → (b < a) ⊎ (a + n ≤ b) → m' b ≡ m b

-- The `n` bytes from `a` on are the same.
abbrev pub Agrees : Memory → ℕ → ℕ → Memory → Type 0
Agrees m a n m' = (b : ℕ) → a ≤ b → b < a + n → m' b ≡ m b

pub write_bytes-Writes :
    (m : Memory) (a : ℕ) (xs : List ℕ) → Writes m a (length xs) (write_bytes m a xs)
unfolding write_bytes
write_bytes-Writes m a [] b out = refl
write_bytes-Writes m a (x ∷ xs) b out =
    write_bytes-Writes (put m a x) (a + 1) xs b (ground arith) ∙ ground (arith, put_lem m a x b)

pub segment-write_bytes :
    (m : Memory) (a : ℕ) (xs : List ℕ) → segment (write_bytes m a xs) a (length xs) ≡ xs
unfolding write_bytes segment
segment-write_bytes m a [] = refl
segment-write_bytes m a (x ∷ xs) = ground (
  arith,
  write_bytes-Writes (put m a x) (a + 1) xs a,
  put_lem m a x a,
  segment-write_bytes (put m a x) (a + 1) xs,
)

-- A word in the agreed bytes.
pub Agrees-get_u32 :
    (m m' : Memory) (a n i : ℕ)
    → a ≤ i
    → i + 4 ≤ a + n
    → Agrees m a n m'
    → get_u32 m' i ≡ get_u32 m i
Agrees-get_u32 m m' a n i lo hi h = get_u32_of_eq m' m i (λ b l r. h b (omega arith) (omega arith))

-- A list of bytes in the agreed bytes.
pub Agrees-segment :
    (m m' : Memory) (a n i k : ℕ)
    → a ≤ i
    → i + k ≤ a + n
    → Agrees m a n m'
    → segment m' i k ≡ segment m i k
Agrees-segment m m' a n i k lo hi h =
    segment_ext m' m i i k (λ j lt. h (i + j) (omega arith) (omega arith))

-- A field with a value that the source can hold.
abbrev pub IsValue : Field → Type 0
IsValue (null t) = ⊥
IsValue (integer v) = v < 2 ^ 32
IsValue (floating v) = v < 2 ^ 32
IsValue (chars xs) = length xs < varchar_max_len

-- A value that is written at `a` is read back from every memory with the same bytes there.
pub serialize_field_lem :
    (m : Memory) (a : ℕ) (f : Field)
    → IsValue f
    → (m' : Memory) × (n : ℕ) × (serialize_field m a f ≡ some (m', n))
      × (get_serialized_size f ≡ some n)
      × Writes m a n m'
      × ((m'' : Memory)
          → Agrees m' a n m''
          → deserialize_field m'' a (type_id f) false ≡ some (f, n))
unfolding serialize_field deserialize_field get_serialized_size type_id
serialize_field_lem m a (null t) h = absurd h
serialize_field_lem m a (integer v) h = (
  set_u32 m a v,
  4,
  refl,
  refl,
  λ b out. set_u32_outside m a v b out,
  λ m'' same. ground (
    arith,
    Agrees-get_u32 (set_u32 m a v) m'' a 4 a (omega arith) (omega arith) same,
    get_u32-set_u32 m a v h,
  ),
)
serialize_field_lem m a (floating v) h = (
  set_u32 m a v,
  4,
  refl,
  refl,
  λ b out. set_u32_outside m a v b out,
  λ m'' same. ground (
    arith,
    Agrees-get_u32 (set_u32 m a v) m'' a 4 a (omega arith) (omega arith) same,
    get_u32-set_u32 m a v h,
  ),
)
serialize_field_lem m a (chars xs) h =
    let m1 = set_u32 m a (length xs) in
    let m2 = write_bytes m1 (a + 4) xs in
    let behind = write_bytes-Writes m1 (a + 4) xs in
    (
      m2,
      length xs + 4,
      refl,
      refl,
      λ b out. behind b (ground arith) ∙ set_u32_outside m a (length xs) b (ground arith),
      λ m'' same.
          let len : get_u32 m'' a ≡ length xs =
            Agrees-get_u32 m2 m'' a (length xs + 4) a (omega arith) (omega arith) same
            ∙ get_u32_of_eq m2 m1 a (λ b lo hi. behind b (inl (omega arith)))
            ∙ get_u32-set_u32 m a (length xs) (omega arith) in
          let bytes : segment m'' (a + 4) (length xs) ≡ xs =
            Agrees-segment m2 m'' a (length xs + 4) (a + 4) (length xs) (omega arith) (omega arith)
              same
            ∙ segment-write_bytes m1 (a + 4) xs in
          ground (arith, len, bytes),
    )
