-- ===== src/Disk/Release.antt =====
-- DeAllocatePage of minisql/src/storage/disk_manager.cpp and the counters of the meta page.
use zju_database_system.Prelude.{
  ℕ, ◌+◌, ◌-◌, ◌*◌, ◌/◌, ◌%◌, ◌^◌, ◌≤◌, ◌<◌, ◌≡◌, ◌⊎◌, subst, true, false, refl, sym, ap, ◌∙◌, inl,
  inr, some, arith, ltb, Bool-cases, Option-cases, >>=-eq-some,
}
use zju_database_system.Memory.{
  Memory, page_size, get_u32, set_u32, get_u32-set_u32_ne, get_u32-set_u32_mod, set_u32_outside,
}
use zju_database_system.Bitmap
use zju_database_system.Bitmap.{max_chars_page}
use zju_database_system.Bitmap.Laws.{de_allocate_page-answer}
use zju_database_system.Disk.{
  Disk, bitmap_size, meta_page_id, bitmap_page_id, read_physical_page, write_physical_page,
  is_page_free, get_extent_nums, get_allocated_pages, count_page, discount_page, release_page,
  de_allocate_page,
}
use zju_database_system.Disk.Laws.{read-write_physical}

-- The extents and the file are small enough for the int offsets of ReadPhysicalPage.
pub record IsSmall (d : Disk) : Type 0 where
  pub extents : bitmap_page_id (get_extent_nums d.meta) * page_size < 2 ^ 31
  pub file : d.file_size < 2 ^ 31

pub count_page-get_extent_nums :
    (m m' : Memory) (i : ℕ) → count_page m i ≡ some m' → get_extent_nums m' ≡ get_extent_nums m
unfolding count_page get_extent_nums
count_page-get_extent_nums m m' i h =
    let m₁ = set_u32 m 0 (get_u32 m 0 + 1) in
    ground (
      arith,
      get_u32-set_u32_ne m₁ (8 + 4 * i) (get_u32 m₁ (8 + 4 * i) + 1) 4 (inl (omega arith)),
      get_u32-set_u32_ne m 0 (get_u32 m 0 + 1) 4 (inr (omega arith)),
    )

discount_page-get_extent_nums :
    (m m' : Memory) (i : ℕ) → discount_page m i ≡ some m' → get_extent_nums m' ≡ get_extent_nums m
unfolding discount_page get_extent_nums
discount_page-get_extent_nums m m' i h =
    let m₁ = set_u32 m 0 (get_u32 m 0 + (2 ^ 32 - 1)) in
    ground (
      arith,
      get_u32-set_u32_ne m₁ (8 + 4 * i) (get_u32 m₁ (8 + 4 * i) + (2 ^ 32 - 1)) 4
          (inl (omega arith)),
      get_u32-set_u32_ne m 0 (get_u32 m 0 + (2 ^ 32 - 1)) 4 (inr (omega arith)),
    )

release_page-get_extent_nums :
    (d : Disk) (i q : ℕ) (m' : Memory)
    → release_page d i q ≡ some m'
    → get_extent_nums m' ≡ get_extent_nums d.meta
unfolding release_page
release_page-get_extent_nums d i q m' h =
    let (page, _, e) = >>=-eq-some (read_physical_page d (bitmap_page_id i)) _ h in
    elim (Bool-cases (Bitmap.de_allocate_page max_chars_page page q).1) [
      | inl t ↦ discount_page-get_extent_nums d.meta m' i (ground arith)
      | inr f ↦ ground arith
    ]

-- Reading does not look at the meta page in memory.
pub read-meta :
    (d : Disk) (m : Memory) (p : ℕ)
    → read_physical_page (record d { meta = m }) p ≡ read_physical_page d p
unfolding read_physical_page
read-meta d m p = refl

is_page_free_of_eq :
    (d d' : Disk) (r : ℕ)
    → get_extent_nums d'.meta ≡ get_extent_nums d.meta
    → (r / bitmap_size < get_extent_nums d'.meta
        → read_physical_page d' (bitmap_page_id (r / bitmap_size))
          ≡ read_physical_page d (bitmap_page_id (r / bitmap_size)))
    → is_page_free d' r ≡ is_page_free d r
unfolding is_page_free
is_page_free_of_eq d d' r e h =
    elim (Bool-cases (ltb (r / bitmap_size) (get_extent_nums d'.meta))) [
      | inl within ↦ ground (arith, h (ground arith))
      | inr outside ↦ ground arith
    ]

is_page_free-outside :
    (d : Disk) (q : ℕ)
    → ltb (q / bitmap_size) (get_extent_nums d.meta) ≡ false
    → is_page_free d q ≡ some true
unfolding is_page_free
is_page_free-outside d q e = rw e refl

-- A counter one lower, which wraps around, and none other than the two of the extent.
pub record IsDiscounted (m m' : Memory) (i : ℕ) : Type 0 where
  pub allocated : get_allocated_pages m' ≡ (get_allocated_pages m + (2 ^ 32 - 1)) % 2 ^ 32
  pub used : get_u32 m' (8 + 4 * i) ≡ (get_u32 m (8 + 4 * i) + (2 ^ 32 - 1)) % 2 ^ 32
  pub others : (b : ℕ) → 4 ≤ b → (b < 8 + 4 * i) ⊎ (12 + 4 * i ≤ b) → m' b ≡ m b

-- The meta page after a page is given back: the counters are one lower if the page was taken.
abbrev pub CountersAfter : Disk → ℕ → Memory → Type 0
CountersAfter d q m =
    ((is_page_free d q ≡ some false) × IsDiscounted d.meta m (q / bitmap_size))
    ⊎ ((is_page_free d q ≡ some true) × (m ≡ d.meta))

discount_page-IsDiscounted :
    (m m' : Memory) (i : ℕ) → discount_page m i ≡ some m' → IsDiscounted m m' i
unfolding discount_page get_allocated_pages
discount_page-IsDiscounted m m' i h =
    let m₁ = set_u32 m 0 (get_u32 m 0 + (2 ^ 32 - 1)) in
    let v = get_u32 m₁ (8 + 4 * i) + (2 ^ 32 - 1) in
    let e : set_u32 m₁ (8 + 4 * i) v ≡ m' = ground arith in
    record {
      allocated =
          ap (λ (t : Memory). get_u32 t 0) (sym e)
          ∙ get_u32-set_u32_ne m₁ (8 + 4 * i) v 0 (inl (omega arith))
          ∙ get_u32-set_u32_mod m 0 (get_u32 m 0 + (2 ^ 32 - 1));
      used =
          ap (λ (t : Memory). get_u32 t (8 + 4 * i)) (sym e)
          ∙ get_u32-set_u32_mod m₁ (8 + 4 * i) v
          ∙ ap (λ (x : ℕ). (x + (2 ^ 32 - 1)) % 2 ^ 32)
              (get_u32-set_u32_ne m 0 (get_u32 m 0 + (2 ^ 32 - 1)) (8 + 4 * i) (inr (omega arith)));
      others = λ b lo out.
          ap (λ (t : Memory). t b) (sym e)
          ∙ set_u32_outside m₁ (8 + 4 * i) v b (ground arith)
          ∙ set_u32_outside m 0 (get_u32 m 0 + (2 ^ 32 - 1)) b (inr lo);
    }

release_page-counters :
    (d : Disk) (q : ℕ) (m' : Memory)
    → ltb (q / bitmap_size) (get_extent_nums d.meta) ≡ true
    → release_page d (q / bitmap_size) (q % bitmap_size) ≡ some m'
    → CountersAfter d q m'
unfolding release_page is_page_free
release_page-counters d q m' within h =
    let i = q / bitmap_size in
    let (page, read, e) = >>=-eq-some (read_physical_page d (bitmap_page_id i)) _ h in
    let inside : q % bitmap_size < max_chars_page * 8 = omega arith in
    let answer = de_allocate_page-answer max_chars_page page (q % bitmap_size) inside in
    elim (Bool-cases (Bitmap.de_allocate_page max_chars_page page (q % bitmap_size)).1) [
      | inl t ↦
          let taken : Bitmap.is_page_free max_chars_page page (q % bitmap_size) ≡ false =
            ground (arith, answer) in
          inl (
            rw (within, read) (ap some taken),
            discount_page-IsDiscounted d.meta m' i (ground arith),
          )
      | inr f ↦
          let free : Bitmap.is_page_free max_chars_page page (q % bitmap_size) ≡ true =
            ground (arith, answer) in
          inr (rw (within, read) (ap some free), ground arith)
    ]

-- The counters after DeAllocatePage, and what it writes.
de_allocate_page_cases :
    (d d' : Disk) (q : ℕ)
    → de_allocate_page d q ≡ some d'
    → (m : Memory) × (get_extent_nums m ≡ get_extent_nums d.meta)
      × CountersAfter d q m
      × (write_physical_page (record d { meta = m }) meta_page_id m ≡ d')
unfolding de_allocate_page
de_allocate_page_cases d d' q h =
    elim (Bool-cases (ltb (q / bitmap_size) (get_extent_nums d.meta))) [
      | inr e ↦ (d.meta, refl, inr (is_page_free-outside d q e, refl), ground arith)
      | inl e ↦ elim (Option-cases (release_page d (q / bitmap_size) (q % bitmap_size))) [
        | inl f ↦ absurd (ground arith)
        | inr (m, f) ↦ (
          m,
          release_page-get_extent_nums d (q / bitmap_size) (q % bitmap_size) m f,
          release_page-counters d q m e f,
          ground arith,
        )
      ]
    ]

pub write_meta : (d : Disk) (p : ℕ) (m : Memory) → (write_physical_page d p m).meta ≡ d.meta
unfolding write_physical_page
write_meta d p m = refl

-- DeAllocatePage, where the offsets of the file stay within an int: if the page is taken, its extent's
-- counter of used pages and the counter of all are one lower in the meta page, and the rest of the meta
-- page is as before; if it is free, the meta page is as before. It writes no bitmap, so that no page,
-- the given one included, is free afterwards that was not free before.
pub is_page_free-de_allocate_page :
    (d d' : Disk) (q r : ℕ)
    → IsSmall d'
    → de_allocate_page d q ≡ some d'
    → (is_page_free d' r ≡ is_page_free d r) × CountersAfter d q d'.meta
is_page_free-de_allocate_page d d' q r small h =
    let (m, extents, counters, written) = de_allocate_page_cases d d' q h in
    let e = record d { meta = m } in
    let same_meta : d'.meta ≡ m =
      ap (λ (t : Disk). t.meta) (sym written) ∙ write_meta e meta_page_id m in
    (
      is_page_free_of_eq d d' r (ap get_extent_nums same_meta ∙ extents) (λ lt.
          ap (λ t. read_physical_page t (bitmap_page_id (r / bitmap_size))) (sym written)
          ∙ read-write_physical e meta_page_id (bitmap_page_id (r / bitmap_size)) m
              (omega (arith, small.extents)) (rw written small.file)
          ∙ ground (arith, read-meta d m (bitmap_page_id (r / bitmap_size)))),
      subst (CountersAfter d q) (sym same_meta) counters,
    )
