-- ===== src/TablePage/Layout.antt =====
-- The well-formed table pages of minisql/src/page/table_page.cpp: where the tuples of the slots lie.
use zju_database_system.Prelude.{
  ℕ, ◌+◌, ◌-◌, ◌*◌, ◌^◌, ◌≤◌, ◌<◌, ◌≡◌, ◌≢◌, ◌⊎◌, inl, inr, true, false, arith, ltb, Bool-cases,
}
use zju_database_system.Memory.{Memory, page_size}
use zju_database_system.Arrays.Segments.{segment_ext}
use zju_database_system.TablePage.{
  get_free_space_pointer, get_tuple_count, get_tuple_offset, get_tuple_size, get_tuple,
  get_free_space_remaining, is_deleted, unset_deleted_flag,
}
use zju_database_system.TablePage.Fields.{Reads}

-- The slots end before the free space pointer, and the tuples of the slots in use, marked as deleted
-- or not, lie between it and the end of the page, no two of them on one byte.
pub record Layout (pointer count : ℕ) (offset size : ℕ → ℕ) : Type 0 where
  pub room : 24 + 8 * count ≤ pointer
  pub bounded : pointer ≤ page_size
  pub word : (i : ℕ) → i < count → size i < 2 ^ 32
  pub filled : (i : ℕ) → i < count → size i ≢ 0 → 0 < unset_deleted_flag (size i)
  pub inside :
      (i : ℕ)
      → i < count
      → size i ≢ 0
      → (pointer ≤ offset i) × (offset i + unset_deleted_flag (size i) ≤ page_size)
  pub apart :
      (i j : ℕ)
      → i < count
      → j < count
      → i ≢ j
      → size i ≢ 0
      → size j ≢ 0
      → (offset i + unset_deleted_flag (size i) ≤ offset j)
        ⊎ (offset j + unset_deleted_flag (size j) ≤ offset i)

abbrev pub IsValid : Memory → Type 0
IsValid m =
    Layout (get_free_space_pointer m) (get_tuple_count m) (get_tuple_offset m) (get_tuple_size m)

-- Equal fields make an equal layout.
pub Layout-ext :
    (pointer count : ℕ) (offset size offset' size' : ℕ → ℕ)
    → ((i : ℕ) → i < count → offset' i ≡ offset i)
    → ((i : ℕ) → i < count → size' i ≡ size i)
    → Layout pointer count offset size
    → Layout pointer count offset' size'
Layout-ext pointer count offset size offset' size' eo es l = record {
  room = l.room;
  bounded = l.bounded;
  word = λ i lt. rw (es i lt) (l.word i lt);
  filled = λ i lt. rw (es i lt) (l.filled i lt);
  inside = λ i lt. rw (es i lt, eo i lt) (l.inside i lt);
  apart = λ i j li lj. rw (es i li, eo i li, es j lj, eo j lj) (l.apart i j li lj);
}

pub Reads-IsValid :
    (m : Memory) (pointer count : ℕ) (offset size : ℕ → ℕ)
    → Reads count m pointer count offset size
    → Layout pointer count offset size
    → IsValid m
Reads-IsValid m pointer count offset size r l =
    rw (r.pointer_is, r.count_is)
      (Layout-ext pointer count offset size (get_tuple_offset m) (get_tuple_size m) r.offset_is
        r.size_is l)

-- A slot that has the bytes of a slot of another page has its tuple.
pub get_tuple_ext :
    (m m' : Memory) (i j : ℕ)
    → ltb i (get_tuple_count m) ≡ ltb j (get_tuple_count m')
    → (ltb i (get_tuple_count m) ≡ true → get_tuple_size m' j ≡ get_tuple_size m i)
    → (ltb i (get_tuple_count m) ≡ true
        → is_deleted (get_tuple_size m i) ≡ false
        → (k : ℕ) → k < get_tuple_size m i
        → m' (get_tuple_offset m' j + k) ≡ m (get_tuple_offset m i + k))
    → get_tuple m' j ≡ get_tuple m i
unfolding get_tuple
get_tuple_ext m m' i j slots size bytes = elim (Bool-cases (ltb i (get_tuple_count m))) [
  | inr out ↦ ground arith
  | inl within ↦ elim (Bool-cases (is_deleted (get_tuple_size m i))) [
    | inl deleted ↦ let equal = size within in ground arith
    | inr live ↦
        let equal = size within in
        let same =
          segment_ext m' m (get_tuple_offset m' j) (get_tuple_offset m i) (get_tuple_size m i)
            (bytes within live) in
        ground (arith, same)
  ]
]

pub get_free_space_remaining_lem :
    (m : Memory)
    → IsValid m
    → get_free_space_remaining m ≡ get_free_space_pointer m - 24 - 8 * get_tuple_count m
unfolding get_free_space_remaining
get_free_space_remaining_lem m v = omega (arith, v.room, v.bounded)
