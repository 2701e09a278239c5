-- ===== src/BufferPool/Tests.antt =====
-- Runs of the buffer pool of minisql/src/buffer/buffer_pool_manager.cpp.
use zju_database_system.Prelude.{
  ℕ, ◌≡◌, ◌≢◌, ◌⊎◌, ◌+◌, refl, true, none, some, [], ◌∷◌, ◌==◌, ◌||◌, if◌then◌else◌,
}
use zju_database_system.Memory.{Memory, reset_memory, get_u32, set_u32, put}
use zju_database_system.Bitmap
use zju_database_system.Disk
use zju_database_system.Disk.{
  Disk, bitmap_page_id, meta_page_id, get_extent_nums, count_page, map_page_id, read_physical_page,
  write_physical_page, read_page, write_page, allocate_in, allocate_extent,
}
use zju_database_system.Replacer.{back, victim, drop_frame}
use zju_database_system.BufferPool.{BufferPool, new_page}
use zju_database_system.BufferPool.New.{new_page_lem}

program : Unit {0}
unfolding get_u32 set_u32 put Bitmap.byte_bit Bitmap.is_clear Bitmap.first_clear
    Bitmap.allocate_from Bitmap.allocate_page get_extent_nums count_page map_page_id
    read_physical_page write_physical_page read_page write_page allocate_in allocate_extent
    Disk.allocate_page back victim drop_frame
program = tt

abbrev empty_disk : Disk
empty_disk = record { meta = reset_memory; bytes = reset_memory; file_size = 0 }

abbrev first_meta : Memory
first_meta = set_u32 (set_u32 (set_u32 reset_memory 4 1) 0 1) 8 1

abbrev first_disk : Disk
first_disk =
    write_physical_page
      (write_physical_page (record empty_disk { meta = first_meta }) (bitmap_page_id 0)
        (put reset_memory 8 0x80))
      meta_page_id first_meta

first_page : Disk.allocate_page empty_disk ≡ some (first_disk, 0)
unfolding program
first_page = refl

-- Two frames with the pages 3 and 4, both unpinned.
abbrev pool : BufferPool
pool = record {
  pool_size = 2;
  pages = λ f. record { bytes = λ b. 9; page_id = 3 + f; pin_count = 0; is_dirty = true };
  disk = empty_disk;
  page_table = λ k. if k == 3 then some 0 else if k == 4 then some 1 else none;
  replacer = record {
    max_size = 2;
    in_size = 2;
    lru_list = 1 ∷ 0 ∷ [];
    mapped = λ k. k == 0 || k == 1;
  };
  free_list = [];
}

no_free : back pool.free_list ≡ none
unfolding program
no_free = refl

first_victim : (victim pool.replacer).1 ≡ some 0
unfolding program
first_victim = refl

new_page_lem_example :
    (let second = victim (victim pool.replacer).0 in
      (p' : BufferPool) × (f : ℕ) × (new_page pool ≡ some (p', some (0, f)))
      × ((second.1 ≡ some f) ⊎ ((second.1 ≡ none) × (f ≡ 0)))
      × (p'.disk ≡ first_disk)
      × (p'.pages f ≡ record { bytes = reset_memory; page_id = 0; pin_count = 1; is_dirty = true })
      × (p'.page_table 0 ≡ some f)
      × ((k : ℕ) → k ≢ 0 → p'.page_table k ≡ pool.page_table k))
new_page_lem_example = new_page_lem pool 0 0 first_disk no_free first_victim first_page
