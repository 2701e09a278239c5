-- ===== src/TablePage/Claim.antt =====
-- The part of InsertTuple of minisql/src/page/table_page.cpp that writes the tuple.
use zju_database_system.Prelude.{
  ℕ, ◌+◌, ◌-◌, ◌*◌, ◌≤◌, ◌<◌, ◌≡◌, ◌≢◌, ◌∙◌, inl, inr, ◌&&◌, some, arith, ltb, leb, ◌==◌,
  if◌then◌else◌, Bool-cases,
}
use zju_database_system.Memory.{Memory, set_u32_outside}
use zju_database_system.Arrays.Segments.{segment, segment_ext}
use zju_database_system.TablePage.{
  Serialized, get_free_space_pointer, set_free_space_pointer, get_tuple_count, set_tuple_count,
  get_tuple_offset, set_tuple_offset, get_tuple_size, set_tuple_size, get_tuple, serialize_to,
  claim, sub32,
}
use zju_database_system.TablePage.Fields.{
  Reads, own-Reads, behind-Reads, set_free_space_pointer-Reads, set_tuple_offset-Reads,
  set_tuple_size-Reads, set_tuple_count-Reads,
}
use zju_database_system.TablePage.Layout.{Layout, IsValid, Reads-IsValid, get_tuple_ext}

abbrev pub put_at : (ℕ → ℕ) → ℕ → ℕ → ℕ → ℕ
put_at f i v j = if j == i then v else f j

-- A tuple of `size` bytes below the others, in a free slot or a new one.
add-Layout :
    (pointer count : ℕ) (offset size : ℕ → ℕ) (i len : ℕ)
    → Layout pointer count offset size
    → i ≤ count
    → 24 + 8 * (count + 1) + len ≤ pointer
    → 0 < len
    → Layout
        (pointer - len)
        (if i == count then count + 1 else count)
        (put_at offset i (pointer - len))
        (put_at size i len)
add-Layout pointer count offset size i len l le room pos =
    let bounded = l.bounded in
    record {
      room = ground arith;
      bounded = omega arith;
      word = λ j lj. ground (arith, l.word j);
      filled = λ j lj. ground (arith, l.filled j);
      inside = λ j lj. ground (arith, l.inside j);
      apart = λ j k lj lk. ground (arith, l.apart j k, l.inside j, l.inside k);
    }

module _ (m : Memory) (i : ℕ) (row : Serialized) (v : IsValid m) (le : i ≤ get_tuple_count m)
    (room : 24 + 8 * (get_tuple_count m + 1) + row.size ≤ get_free_space_pointer m) where
  abbrev pointer : ℕ
  pointer = get_free_space_pointer m - row.size

  abbrev with_pointer : Memory
  with_pointer = set_free_space_pointer m (sub32 (get_free_space_pointer m) row.size)

  abbrev with_row : Memory
  with_row = serialize_to with_pointer (get_free_space_pointer with_pointer) row

  abbrev with_offset : Memory
  with_offset = set_tuple_offset with_row i (get_free_space_pointer with_row)

  with_pointer-Reads :
      Reads
        (get_tuple_count m + 1)
        with_pointer
        pointer
        (get_tuple_count m)
        (get_tuple_offset m)
        (get_tuple_size m)
  with_pointer-Reads =
      let bounded = v.bounded in
      let n = get_tuple_count m in
      let p = get_free_space_pointer m in
      let e : sub32 p row.size ≡ p - row.size = omega arith in
      rw e (
        set_free_space_pointer-Reads (n + 1) m p n (get_tuple_offset m) (get_tuple_size m)
          (own-Reads (n + 1) m) (p - row.size) (omega arith))

  with_row-Reads :
      Reads
        (get_tuple_count m + 1)
        with_row
        pointer
        (get_tuple_count m)
        (get_tuple_offset m)
        (get_tuple_size m)
  unfolding serialize_to
  with_row-Reads =
      let r = with_pointer-Reads in
      behind-Reads (get_tuple_count m + 1) with_pointer pointer (get_tuple_count m)
        (get_tuple_offset m) (get_tuple_size m) r with_row (λ b hi. ground (arith, r.pointer_is))

  with_size-Reads :
      Reads
        (get_tuple_count m + 1)
        (set_tuple_size with_offset i row.size)
        pointer
        (get_tuple_count m)
        (put_at (get_tuple_offset m) i pointer)
        (put_at (get_tuple_size m) i row.size)
  with_size-Reads =
      let bounded = v.bounded in
      let n = get_tuple_count m in
      let o = get_tuple_offset m in
      let s = get_tuple_size m in
      let r = with_row-Reads in
      let r' = set_tuple_offset-Reads (n + 1) with_row pointer n o s r i pointer (omega arith) in
      rw r.pointer_is (
        set_tuple_size-Reads (n + 1) (set_tuple_offset with_row i pointer) pointer n
          (put_at o i pointer) s r' i row.size (omega arith))

  claim-Reads :
      Reads
        (get_tuple_count m + 1)
        (claim m i row)
        pointer
        (if i == get_tuple_count m then get_tuple_count m + 1 else get_tuple_count m)
        (put_at (get_tuple_offset m) i pointer)
        (put_at (get_tuple_size m) i row.size)
  unfolding claim
  claim-Reads =
      let bounded = v.bounded in
      let n = get_tuple_count m in
      let r = with_size-Reads in
      let m4 = set_tuple_size with_offset i row.size in
      elim (Bool-cases (i == n)) [
        | inl e ↦
            rw (r.count_is, e)
              (set_tuple_count-Reads (n + 1) m4 pointer n (put_at (get_tuple_offset m) i pointer)
                (put_at (get_tuple_size m) i row.size) r (n + 1) (omega arith))
        | inr e ↦ rw (r.count_is, e) r
      ]

  with_row_behind :
      (b : ℕ)
      → 24 + 8 * (get_tuple_count m + 1) ≤ b
      → with_row b
        ≡ (if leb pointer b && ltb b (pointer + row.size) then row.bytes (b - pointer) else m b)
  unfolding serialize_to set_free_space_pointer
  with_row_behind b lo =
      let q = sub32 (get_free_space_pointer m) row.size in
      ground (arith, with_pointer-Reads.pointer_is, set_u32_outside m 16 q b)

  with_size_behind :
      (b : ℕ)
      → 24 + 8 * (get_tuple_count m + 1) ≤ b
      → set_tuple_size with_offset i row.size b ≡ with_row b
  unfolding set_tuple_size set_tuple_offset
  with_size_behind b lo =
      set_u32_outside with_offset (28 + 8 * i) row.size b (inr (omega arith))
      ∙ set_u32_outside with_row (24 + 8 * i) (get_free_space_pointer with_row) b
          (inr (omega arith))

  claim_behind :
      (b : ℕ)
      → 24 + 8 * (get_tuple_count m + 1) ≤ b
      → claim m i row b
        ≡ (if leb pointer b && ltb b (pointer + row.size) then row.bytes (b - pointer) else m b)
  unfolding claim set_tuple_count
  claim_behind b lo =
      let m4 = set_tuple_size with_offset i row.size in
      let written = with_size_behind b lo ∙ with_row_behind b lo in
      elim (Bool-cases (i == get_tuple_count m4)) [
        | inl e ↦
            rw e (set_u32_outside m4 20 (get_tuple_count m4 + 1) b (inr (omega arith)) ∙ written)
        | inr e ↦ rw e written
      ]

  -- The ids of the page and of its neighbours stay.
  pub claim_before : (b : ℕ) → b < 16 → claim m i row b ≡ m b
  unfolding claim set_tuple_count set_tuple_size set_tuple_offset serialize_to
      set_free_space_pointer
  claim_before b lt =
      let m4 = set_tuple_size with_offset i row.size in
      let q = sub32 (get_free_space_pointer m) row.size in
      let plain : with_row b ≡ m b =
        ground (arith, with_pointer-Reads.pointer_is, set_u32_outside m 16 q b) in
      let written : m4 b ≡ m b =
        set_u32_outside with_offset (28 + 8 * i) row.size b (inl (omega arith))
        ∙ set_u32_outside with_row (24 + 8 * i) (get_free_space_pointer with_row) b
            (inl (omega arith))
        ∙ plain in
      elim (Bool-cases (i == get_tuple_count m4)) [
        | inl e ↦
            rw e (set_u32_outside m4 20 (get_tuple_count m4 + 1) b (inl (omega arith)) ∙ written)
        | inr e ↦ rw e written
      ]

  pub claim-IsValid : 0 < row.size → IsValid (claim m i row)
  claim-IsValid pos =
      let n = get_tuple_count m in
      let r = claim-Reads in
      let below : (if i == n then n + 1 else n) ≤ n + 1 = ground arith in
      Reads-IsValid (claim m i row) pointer (if i == n then n + 1 else n)
        (put_at (get_tuple_offset m) i pointer) (put_at (get_tuple_size m) i row.size)
        (record {
          pointer_is = r.pointer_is;
          count_is = r.count_is;
          offset_is = λ j lt. r.offset_is j (omega arith);
          size_is = λ j lt. r.size_is j (omega arith);
        })
        (add-Layout (get_free_space_pointer m) n (get_tuple_offset m) (get_tuple_size m) i row.size
          v le room pos)

  -- The new tuple.
  pub get_tuple-claim_self :
      0 < row.size → get_tuple (claim m i row) i ≡ some (segment row.bytes 0 row.size)
  unfolding get_tuple
  get_tuple-claim_self pos =
      let bounded = v.bounded in
      let r = claim-Reads in
      let same =
        segment_ext (claim m i row) row.bytes pointer 0 row.size
          (λ j lt. ground (arith, claim_behind (pointer + j))) in
      ground (arith, r.count_is, r.offset_is i, r.size_is i, same)

  pub get_tuple-claim_ne : (j : ℕ) → j ≢ i → get_tuple (claim m i row) j ≡ get_tuple m j
  get_tuple-claim_ne j ne =
      let r = claim-Reads in
      get_tuple_ext m (claim m i row) j j (ground (arith, r.count_is))
        (λ within. ground (arith, r.size_is j (ground arith)))
        (λ within live k hi.
          let in_n : j < get_tuple_count m = ground arith in
          let there = v.inside j in_n in
          ground (arith, r.offset_is j, claim_behind (get_tuple_offset m j + k)))
