-- ===== src/Disk.antt =====
-- DiskManager of minisql/src/storage/disk_manager.cpp and the meta page of minisql/src/include/page/
-- disk_file_meta_page.h. The database file is its bytes and its size; `none` stands for a signed
-- overflow of the int offset or file size in ReadPhysicalPage and for an access behind the meta page.
pub mod Laws
mod Tests
pub mod Release
pub mod Takes
pub mod Allocation
use zju_database_system.Prelude.{
  ℕ, zero, suc, ◌+◌, ◌-◌, ◌*◌, ◌/◌, ◌%◌, ◌^◌, max, Bool, true, false, ◌&&◌, Option, none, some, ltb,
  leb, if◌then◌else◌, ◌>>=◌, ◌>>◌, require,
}
use zju_database_system.Memory.{invalid_page_id, Memory, page_size, reset_memory, get_u32, set_u32}
use zju_database_system.Bitmap
use zju_database_system.Bitmap.{max_chars_page, get_max_supported_size}

pub record Disk : Type 0 where
  pub meta : Memory
  pub bytes : ℕ → ℕ
  pub file_size : ℕ

-- BITMAP_SIZE, META_PAGE_ID and the 32-bit fields of the meta page.
abbrev pub bitmap_size : ℕ
bitmap_size = get_max_supported_size max_chars_page

abbrev pub meta_page_id : ℕ
meta_page_id = 0

-- extent_used_page_ has room for this many extents before the page ends.
abbrev pub max_extents : ℕ
max_extents = (page_size - 8) / 4

unfoldable pub get_extent_nums : Memory → ℕ
get_extent_nums m = get_u32 m 4

unfoldable pub get_allocated_pages : Memory → ℕ
get_allocated_pages m = get_u32 m 0

unfoldable pub get_extent_used_page : Memory → ℕ → ℕ
unfolding get_extent_nums
get_extent_used_page m extent_id =
    if leb (get_extent_nums m) extent_id then 0 else get_u32 m (8 + 4 * extent_id)

-- ++num_allocated_pages_; ++extent_used_page_[i];
unfoldable pub count_page : Memory → ℕ → Option Memory
count_page m i = do
  require (ltb i max_extents)
  let m' = set_u32 m 0 (get_u32 m 0 + 1)
  some (set_u32 m' (8 + 4 * i) (get_u32 m' (8 + 4 * i) + 1))

-- --num_allocated_pages_; --extent_used_page_[i];
unfoldable pub discount_page : Memory → ℕ → Option Memory
discount_page m i = do
  require (ltb i max_extents)
  let m' = set_u32 m 0 (get_u32 m 0 + (2 ^ 32 - 1))
  some (set_u32 m' (8 + 4 * i) (get_u32 m' (8 + 4 * i) + (2 ^ 32 - 1)))

unfoldable pub map_page_id : ℕ → ℕ
map_page_id logical_page_id =
    logical_page_id / bitmap_size * (bitmap_size + 1) + logical_page_id % bitmap_size + 2

-- The page of the bitmap of extent `i`.
abbrev pub bitmap_page_id : ℕ → ℕ
bitmap_page_id i = i * (bitmap_size + 1) + 1

-- Bytes behind the end of the file read as 0.
unfoldable pub read_physical_page : Disk → ℕ → Option Memory
read_physical_page d physical_page_id = do
  let offset = physical_page_id * page_size
  require (ltb offset (2 ^ 31) && ltb d.file_size (2 ^ 31))
  some (λ b. if ltb b page_size && ltb (offset + b) d.file_size then d.bytes (offset + b) else 0)

-- A write behind the end of the file leaves zeros between.
unfoldable pub write_physical_page : Disk → ℕ → Memory → Disk
write_physical_page d physical_page_id page_data =
    let offset = physical_page_id * page_size in
    record d {
      bytes = λ a.
          if leb offset a && ltb a (offset + page_size)
          then page_data (a - offset)
          else if ltb a d.file_size
          then d.bytes a
          else 0;
      file_size = max d.file_size (offset + page_size);
    }

unfoldable pub read_page : Disk → ℕ → Option Memory
unfolding map_page_id read_physical_page
read_page d logical_page_id = read_physical_page d (map_page_id logical_page_id)

unfoldable pub write_page : Disk → ℕ → Memory → Disk
unfolding map_page_id write_physical_page
write_page d logical_page_id page_data =
    write_physical_page d (map_page_id logical_page_id) page_data

-- The loop of AllocatePage over the extents from `i` on, `n` of them; the inner `none` says that
-- their bitmaps are full.
unfoldable pub allocate_in : ℕ → ℕ → Disk → Option (Option (Disk × ℕ))
allocate_in zero i d = some none
allocate_in (suc n) i d = do
  open_page ← read_physical_page d (bitmap_page_id i)
  elim (Bitmap.allocate_page max_chars_page open_page) [
    | some (open_page', offset) ↦ do
      meta' ← count_page d.meta i
      some (
          some (
            write_physical_page (record d { meta = meta' }) (bitmap_page_id i) open_page',
            offset + i * bitmap_size,
          ))
    | none ↦ allocate_in n (i + 1) d
  ]

-- The rest of AllocatePage: a new extent behind the others.
unfoldable pub allocate_extent : Disk → Option (Disk × ℕ)
unfolding get_extent_nums
allocate_extent d =
    let meta' = set_u32 d.meta 4 (get_u32 d.meta 4 + 1) in
    let extent = (get_extent_nums meta' + (2 ^ 32 - 1)) % 2 ^ 32 in
    elim (Bitmap.allocate_page max_chars_page reset_memory) [
      | some (open_page, offset) ↦ do
        meta'' ← count_page meta' extent
        let d' = write_physical_page (record d { meta = meta'' }) (bitmap_page_id extent) open_page
        some (write_physical_page d' meta_page_id meta'', offset + extent * bitmap_size)
      | none ↦
          some (write_physical_page (record d { meta = meta' }) meta_page_id meta', invalid_page_id)
    ]

unfoldable pub allocate_page : Disk → Option (Disk × ℕ)
unfolding allocate_in allocate_extent get_extent_nums
allocate_page d = do
  found ← allocate_in (get_extent_nums d.meta) 0 d
  elim found [ some r ↦ some r | none ↦ allocate_extent d ]

-- The counters after a page of extent `i` was given back in the bitmap that the function reads.
-- The changed bitmap itself is a local copy, which the source does not write back.
unfoldable pub release_page : Disk → ℕ → ℕ → Option Memory
unfolding discount_page
release_page d i page_offset = do
  open_page ← read_physical_page d (bitmap_page_id i)
  let (_, released) = Bitmap.de_allocate_page max_chars_page open_page page_offset
  if released then discount_page d.meta i else some d.meta

pub de_allocate_page : Disk → ℕ → Option Disk
unfolding get_extent_nums release_page
de_allocate_page d logical_page_id = do
  let bitmap_index = logical_page_id / bitmap_size
  meta' ←
      if ltb bitmap_index (get_extent_nums d.meta)
      then release_page d bitmap_index (logical_page_id % bitmap_size)
      else some d.meta
  some (write_physical_page (record d { meta = meta' }) meta_page_id meta')

pub is_page_free : Disk → ℕ → Option Bool
unfolding get_extent_nums
is_page_free d logical_page_id =
    let bitmap_index = logical_page_id / bitmap_size in
    let in_extent = do
      open_page ← read_physical_page d (bitmap_page_id bitmap_index)
      some (Bitmap.is_page_free max_chars_page open_page (logical_page_id % bitmap_size))
    in if ltb bitmap_index (get_extent_nums d.meta) then in_extent else some true
