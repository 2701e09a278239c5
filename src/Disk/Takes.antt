-- ===== src/Disk/Takes.antt =====
-- The search of AllocatePage of minisql/src/storage/disk_manager.cpp through the bitmaps of the
-- extents, and the extent that it adds when they are full.
use zju_database_system.Prelude.{
  ℕ, zero, suc, ◌+◌, ◌-◌, ◌*◌, ◌%◌, ◌^◌, ◌≤◌, ◌<◌, ◌≡◌, ◌≢◌, refl, sym, ap, ◌∙◌, inl, inr, max,
  false, Option, none, some, arith, ltb, ◌==◌, if◌then◌else◌, Bool-cases, Option-cases,
}
use zju_database_system.Memory.{
  Memory, IsBytes, page_size, reset_memory, get_u32, set_u32, get_u32-lt, get_u32-set_u32_mod,
}
use zju_database_system.Bitmap
use zju_database_system.Bitmap.{max_chars_page}
use zju_database_system.Disk.{
  Disk, bitmap_size, meta_page_id, bitmap_page_id, max_extents, read_physical_page,
  write_physical_page, get_extent_nums, count_page, allocate_in, allocate_extent,
}
use mathlib.Core.Bool.{false≢true}
use zju_database_system.Bitmap.Laws.{allocate_page-none, is_page_free-reset_memory}
use zju_database_system.Disk.Laws.{read-write_physical}
use zju_database_system.Disk.Release.{IsSmall, count_page-get_extent_nums, read-meta, write_meta}

-- The bytes of the file and of the meta page are bytes.
pub record HasBytes (d : Disk) : Type 0 where
  pub bytes : IsBytes d.bytes
  pub meta : IsBytes d.meta

pub read-IsBytes :
    (d : Disk) (p : ℕ) (m : Memory) → HasBytes d → read_physical_page d p ≡ some m → IsBytes m
unfolding read_physical_page
read-IsBytes d p m v h b = ground (arith, v.bytes (p * page_size + b))

-- The bitmap of extent `j` as AllocatePage finds it: read from the file, or that of a new extent.
abbrev pub bitmap_of : Disk → ℕ → Option Memory
bitmap_of d j =
    if ltb j (get_extent_nums d.meta)
    then read_physical_page d (bitmap_page_id j)
    else some reset_memory

-- What AllocatePage has done: it took page `offset` of the bitmap of extent `j`, and no other
-- bitmap has changed.
pub record Takes (d d' : Disk) (q : ℕ) : Type 0 where
  pub j : ℕ
  pub offset : ℕ
  pub page : Memory
  pub page' : Memory
  pub before : bitmap_of d j ≡ some page
  pub taken : Bitmap.allocate_page max_chars_page page ≡ some (page', offset)
  pub after : bitmap_of d' j ≡ some (λ b. if ltb b page_size then page' b else 0)
  pub others : (i : ℕ) → i ≢ j → i < get_extent_nums d'.meta → bitmap_of d' i ≡ bitmap_of d i
  pub extents : get_extent_nums d'.meta ≡ max (get_extent_nums d.meta) (j + 1)
  pub known : j ≤ get_extent_nums d.meta
  pub id : q ≡ offset + j * bitmap_size

read_bitmap :
    (d : Disk) (j i : ℕ) (m : Memory)
    → bitmap_page_id i * page_size < 2 ^ 31
    → (write_physical_page d (bitmap_page_id j) m).file_size < 2 ^ 31
    → read_physical_page (write_physical_page d (bitmap_page_id j) m) (bitmap_page_id i) ≡ (
        if i == j
        then some (λ b. if ltb b page_size then m b else 0)
        else read_physical_page d (bitmap_page_id i))
read_bitmap d j i m hi hs = elim (Bool-cases (i == j)) [
  | inl e ↦ ground (arith, read-write_physical d (bitmap_page_id j) (bitmap_page_id i) m hi hs)
  | inr e ↦
      let apart : (bitmap_page_id i == bitmap_page_id j) ≡ false = ground arith in
      rw (e) (read-write_physical d (bitmap_page_id j) (bitmap_page_id i) m hi hs ∙ rw apart refl)
]

-- A page taken in an extent that is there.
Takes-known :
    (d : Disk) (j offset : ℕ) (page page' m : Memory)
    → (let d' = write_physical_page (record d { meta = m }) (bitmap_page_id j) page' in
        IsSmall d'
        → j < get_extent_nums d.meta
        → read_physical_page d (bitmap_page_id j) ≡ some page
        → Bitmap.allocate_page max_chars_page page ≡ some (page', offset)
        → get_extent_nums m ≡ get_extent_nums d.meta
        → Takes d d' (offset + j * bitmap_size))
Takes-known d j offset page page' m small lt read found same =
    let e = record d { meta = m } in
    let extents = ap get_extent_nums (write_meta e (bitmap_page_id j) page') ∙ same in
    let bound : (i : ℕ) → i < get_extent_nums d.meta → bitmap_page_id i * page_size < 2 ^ 31 =
      λ i hi. omega (arith, small.extents, extents) in
    record {
      j = j;
      offset = offset;
      page = page;
      page' = page';
      before = ground (arith, read);
      taken = found;
      after = ground (arith, extents, read_bitmap e j j page' (bound j lt) small.file);
      others = λ i ne hi. ground (
        arith,
        extents,
        read_bitmap e j i page' (bound i (omega (arith, extents))) small.file,
        read-meta d m (bitmap_page_id i),
      );
      extents = omega (arith, extents);
      known = omega arith;
      id = refl;
    }

pub allocate_in-Takes :
    (n i : ℕ) (d d' : Disk) (q : ℕ)
    → IsSmall d'
    → i + n ≡ get_extent_nums d.meta
    → allocate_in n i d ≡ some (some (d', q))
    → Takes d d' q
unfolding allocate_in
allocate_in-Takes zero i d d' q small e h = absurd (cc)
allocate_in-Takes (suc n) i d d' q small e h =
    elim (Option-cases (read_physical_page d (bitmap_page_id i))) [
      | inl fault ↦ absurd (ground arith)
      | inr (page, read) ↦ elim (Option-cases (Bitmap.allocate_page max_chars_page page)) [
        | inl full ↦ allocate_in-Takes n (i + 1) d d' q small (omega arith) (ground arith)
        | inr ((page', offset), found) ↦ elim (Option-cases (count_page d.meta i)) [
          | inl fault ↦ absurd (ground arith)
          | inr (m, counted) ↦
              let result : d'
                  ≡ write_physical_page (record d { meta = m }) (bitmap_page_id i) page' =
                ground arith in
              let id : q ≡ offset + i * bitmap_size = ground arith in
              rw (result, id)
                (Takes-known d i offset page page' m (rw result at small) (omega arith) read found
                  (count_page-get_extent_nums d.meta m i counted))
        ]
      ]
    ]

write_size :
    (d : Disk) (p : ℕ) (m : Memory)
    → (write_physical_page d p m).file_size ≡ max d.file_size (p * page_size + page_size)
unfolding write_physical_page
write_size d p m = refl

-- A page taken in a new extent.
Takes-new :
    (d : Disk) (offset : ℕ) (page' m : Memory)
    → (let n = get_extent_nums d.meta in
        let d₁ = write_physical_page (record d { meta = m }) (bitmap_page_id n) page' in
        let d' = write_physical_page d₁ meta_page_id m in
        IsSmall d'
        → Bitmap.allocate_page max_chars_page reset_memory ≡ some (page', offset)
        → get_extent_nums m ≡ n + 1
        → Takes d d' (offset + n * bitmap_size))
Takes-new d offset page' m small found same =
    let n = get_extent_nums d.meta in
    let e = record d { meta = m } in
    let d₁ = write_physical_page e (bitmap_page_id n) page' in
    let extents =
      ap get_extent_nums (write_meta d₁ meta_page_id m ∙ write_meta e (bitmap_page_id n) page')
      ∙ same in
    let bound : (i : ℕ) → i < n + 1 → bitmap_page_id i * page_size < 2 ^ 31 =
      λ i hi. omega (arith, small.extents, extents) in
    let size : d₁.file_size < 2 ^ 31 = omega (arith, small.file, write_size d₁ meta_page_id m) in
    let read = λ (i : ℕ) (hi : i < n + 1).
      read-write_physical d₁ meta_page_id (bitmap_page_id i) m (bound i hi) small.file in
    record {
      j = n;
      offset = offset;
      page = reset_memory;
      page' = page';
      before = ground arith;
      taken = found;
      after = ground (
        arith,
        extents,
        read n (omega arith),
        read_bitmap e n n page' (bound n (omega arith)) size,
      );
      others = λ i ne hi. ground (
        arith,
        extents,
        read i (omega (arith, extents)),
        read_bitmap e n i page' (bound i (omega (arith, extents))) size,
        read-meta d m (bitmap_page_id i),
      );
      extents = omega (arith, extents);
      known = omega arith;
      id = refl;
    }

count_page-lt : (m m' : Memory) (i : ℕ) → count_page m i ≡ some m' → i < max_extents
unfolding count_page
count_page-lt m m' i h = ground arith

reset_memory-takes :
    (r : ℕ) → r < bitmap_size → Bitmap.allocate_page max_chars_page reset_memory ≢ none
reset_memory-takes r lt h = absurd (
    false≢true (
      sym ((allocate_page-none max_chars_page reset_memory (λ a. omega arith)).0 h r)
      ∙ is_page_free-reset_memory max_chars_page r (omega arith)))

-- The number of the new extent, where the counters have room for it.
new_extent :
    (m m' : Memory)
    → IsBytes m
    → (let m₁ = set_u32 m 4 (get_u32 m 4 + 1) in
        let extent = (get_extent_nums m₁ + (2 ^ 32 - 1)) % 2 ^ 32 in
        count_page m₁ extent ≡ some m'
        → (extent ≡ get_extent_nums m) × (get_extent_nums m' ≡ get_extent_nums m + 1))
unfolding get_extent_nums
new_extent m m' v h =
    let m₁ = set_u32 m 4 (get_u32 m 4 + 1) in
    let wrapped = get_u32-set_u32_mod m 4 (get_u32 m 4 + 1) in
    let few = count_page-lt m₁ m' ((get_u32 m₁ 4 + (2 ^ 32 - 1)) % 2 ^ 32) h in
    let kept = count_page-get_extent_nums m₁ m' ((get_u32 m₁ 4 + (2 ^ 32 - 1)) % 2 ^ 32) h in
    (
      omega (arith, wrapped, few, get_u32-lt m 4 v),
      omega (arith, kept, wrapped, few, get_u32-lt m 4 v),
    )

pub allocate_extent-Takes :
    (d d' : Disk) (q : ℕ)
    → HasBytes d
    → IsSmall d'
    → allocate_extent d ≡ some (d', q)
    → Takes d d' q
unfolding allocate_extent
allocate_extent-Takes d d' q v small h =
    let m₁ = set_u32 d.meta 4 (get_u32 d.meta 4 + 1) in
    let extent = (get_extent_nums m₁ + (2 ^ 32 - 1)) % 2 ^ 32 in
    elim (Option-cases (Bitmap.allocate_page max_chars_page reset_memory)) [
      | inl full ↦ absurd (reset_memory-takes 0 (omega arith) full)
      | inr ((page', offset), found) ↦ elim (Option-cases (count_page m₁ extent)) [
        | inl fault ↦ absurd (ground arith)
        | inr (m, counted) ↦
            let number = new_extent d.meta m v.meta counted in
            let n = get_extent_nums d.meta in
            let result : d'
                ≡ write_physical_page
                    (write_physical_page (record d { meta = m }) (bitmap_page_id n) page')
                    meta_page_id m =
              ground (arith, number) in
            let id : q ≡ offset + n * bitmap_size = ground (arith, number) in
            rw (result, id) (Takes-new d offset page' m (rw result at small) found number.1)
      ]
    ]
