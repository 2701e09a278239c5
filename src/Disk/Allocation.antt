-- ===== src/Disk/Allocation.antt =====
-- AllocatePage and IsPageFree of minisql/src/storage/disk_manager.cpp: which pages of the file are
-- free before and afterwards.
use zju_database_system.Prelude.{
  ℕ, ◌/◌, ◌%◌, ◌<◌, ◌≡◌, ◌≢◌, refl, sym, ap, ◌∙◌, inl, inr, true, false, none, some, arith, ltb,
  ◌==◌, if◌then◌else◌, Bool-cases, Option-cases, ◌>>=◌,
}
use zju_database_system.Memory.{Memory, IsBytes, page_size}
use zju_database_system.Bitmap
use zju_database_system.Bitmap.{max_chars_page}
use zju_database_system.Disk.{
  Disk, bitmap_size, bitmap_page_id, is_page_free, get_extent_nums, allocate_in, allocate_page,
}
use zju_database_system.Bitmap.Laws.{
  allocate_page-some, is_page_free-reset_memory, allocate_page-lt, is_page_free_of_eq as same_page,
}
use zju_database_system.Disk.Release.{IsSmall}
use zju_database_system.Disk.Takes.{
  HasBytes, read-IsBytes, bitmap_of, Takes, allocate_in-Takes, allocate_extent-Takes,
}

-- IsPageFree looks into the bitmap that AllocatePage would search.
is_page_free_lem :
    (d : Disk) (r : ℕ)
    → is_page_free d r ≡ (
        bitmap_of d (r / bitmap_size) >>= λ page.
        some (Bitmap.is_page_free max_chars_page page (r % bitmap_size)))
unfolding is_page_free
is_page_free_lem d r =
    ground (arith, is_page_free-reset_memory max_chars_page (r % bitmap_size) (omega arith))

bitmap_of-IsBytes :
    (d : Disk) (j : ℕ) (m : Memory) → HasBytes d → bitmap_of d j ≡ some m → IsBytes m
bitmap_of-IsBytes d j m v h = elim (Bool-cases (ltb j (get_extent_nums d.meta))) [
  | inl e ↦ read-IsBytes d (bitmap_page_id j) m v (ground arith)
  | inr e ↦ λ b. ground arith
]

module _ (d d' : Disk) (q : ℕ) (v : HasBytes d) (t : Takes d d' q) where
  page_bytes : IsBytes t.page
  page_bytes = bitmap_of-IsBytes d t.j t.page v t.before

  in_bitmap : t.offset < bitmap_size
  in_bitmap = omega (
    arith,
    allocate_page-lt max_chars_page t.page {m' = t.page'} {q = t.offset} page_bytes t.taken,
  )

  Takes-taken : (is_page_free d q ≡ some true) × (is_page_free d' q ≡ some false)
  Takes-taken =
      let row : q / bitmap_size ≡ t.j = omega (arith, t.id, in_bitmap) in
      let column : q % bitmap_size ≡ t.offset = omega (arith, t.id, in_bitmap) in
      let bits =
        allocate_page-some max_chars_page t.page {m' = t.page'} {q = t.offset} page_bytes t.taken in
      let cut =
        same_page max_chars_page t.offset (λ b. if ltb b page_size then t.page' b else 0) t.page'
          (λ b lt. ground arith) in
      (
        is_page_free_lem d q ∙ rw (row, column, t.before) (ap some bits.0),
        is_page_free_lem d' q
            ∙ rw (row, column, t.after) (ap some (cut ∙ bits.2 t.offset ∙ ground arith)),
      )

  Takes-others : (r : ℕ) → r ≢ q → is_page_free d' r ≡ is_page_free d r
  Takes-others r ne =
      let i = r / bitmap_size in
      let k = r % bitmap_size in
      is_page_free_lem d' r
      ∙ elim (Bool-cases (i == t.j)) [
        | inl here ↦
            let row : i ≡ t.j = ground arith in
            let bits =
              allocate_page-some max_chars_page t.page {m' = t.page'} {q = t.offset} page_bytes
                t.taken in
            let cut =
              same_page max_chars_page k (λ b. if ltb b page_size then t.page' b else 0) t.page'
                (λ b lt. ground arith) in
            let apart : (k == t.offset) ≡ false = ground (arith, t.id, in_bitmap) in
            rw (row, t.after, t.before) (ap some (cut ∙ bits.2 k ∙ rw apart refl))
        | inr there ↦ elim (Bool-cases (ltb i (get_extent_nums d'.meta))) [
          | inl within ↦ rw (t.others i (ground arith) (ground arith)) refl
          | inr beyond ↦ ground (arith, t.extents)
        ]
      ]
      ∙ sym (is_page_free_lem d r)

-- AllocatePage hands out a page that was free and is not free any more, and changes the allocation
-- of no other page, as long as file and extents stay in the range of the int offsets.
pub allocate_page_lem :
    (d d' : Disk) (q : ℕ)
    → HasBytes d
    → IsSmall d'
    → allocate_page d ≡ some (d', q)
    → (is_page_free d q ≡ some true)
      × (is_page_free d' q ≡ some false)
      × ((r : ℕ) → r ≢ q → is_page_free d' r ≡ is_page_free d r)
unfolding allocate_page
allocate_page_lem d d' q v small h =
    let t : Takes d d' q = elim (Option-cases (allocate_in (get_extent_nums d.meta) 0 d)) [
      | inl fault ↦ absurd (ground arith)
      | inr (some (d₁, q₁), found) ↦
          allocate_in-Takes (get_extent_nums d.meta) 0 d d' q small (omega arith) (ground arith)
      | inr (none, full) ↦ allocate_extent-Takes d d' q v small (ground arith)
    ] in
    let taken = Takes-taken d d' q v t in (taken.0, taken.1, Takes-others d d' q v t)
