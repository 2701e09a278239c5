-- ===== src/Disk/Tests.antt =====
-- Runs of the disk manager of minisql/src/storage/disk_manager.cpp on a new database file.
use zju_database_system.Prelude.{◌≡◌, refl, false, some, arith, ◌^◌}
use zju_database_system.Memory.{Memory, reset_memory, get_u32, set_u32, put}
use zju_database_system.Bitmap
use zju_database_system.Disk.{
  Disk, bitmap_page_id, meta_page_id, get_extent_nums, count_page, discount_page, map_page_id,
  read_physical_page, write_physical_page, read_page, write_page, allocate_in, allocate_extent,
  allocate_page, release_page, de_allocate_page, is_page_free,
}
use zju_database_system.Disk.Laws.{read-write_page}
use zju_database_system.Disk.Release.{IsSmall, CountersAfter, is_page_free-de_allocate_page}
use zju_database_system.Disk.Takes.{HasBytes}
use zju_database_system.Disk.Allocation.{allocate_page_lem}

program : Unit {0}
unfolding get_u32 set_u32 put Bitmap.byte_bit Bitmap.byte_bit_not Bitmap.is_clear Bitmap.first_clear
    Bitmap.allocate_from Bitmap.allocate_page Bitmap.de_allocate_page Bitmap.is_page_free
    get_extent_nums count_page discount_page map_page_id read_physical_page write_physical_page
    read_page write_page allocate_in allocate_extent allocate_page release_page de_allocate_page
    is_page_free
program = tt

abbrev empty_disk : Disk
empty_disk = record { meta = reset_memory; bytes = reset_memory; file_size = 0 }

empty_disk-HasBytes : HasBytes empty_disk
empty_disk-HasBytes = record { bytes = λ a. omega arith; meta = λ a. omega arith }

-- The meta page and the file after the first allocation.
abbrev first_meta : Memory
first_meta = set_u32 (set_u32 (set_u32 reset_memory 4 1) 0 1) 8 1

abbrev first_disk : Disk
first_disk =
    write_physical_page
      (write_physical_page (record empty_disk { meta = first_meta }) (bitmap_page_id 0)
        (put reset_memory 8 0x80))
      meta_page_id first_meta

first_page : allocate_page empty_disk ≡ some (first_disk, 0)
unfolding program
first_page = refl

first_disk-IsSmall : IsSmall first_disk
unfolding program
first_disk-IsSmall = record { extents = omega arith; file = omega arith }

read-write_page_example :
    is_page_free (write_page first_disk 5 reset_memory) 0 ≡ is_page_free first_disk 0
unfolding program
read-write_page_example =
    (read-write_page first_disk 5 0 reset_memory (omega arith) (omega arith) (omega arith)).1

allocate_page_lem_example : is_page_free first_disk 0 ≡ some false
allocate_page_lem_example =
    (allocate_page_lem empty_disk first_disk 0 empty_disk-HasBytes first_disk-IsSmall first_page).1

-- The page that is given back stays taken.
abbrev second_meta : Memory
second_meta = set_u32 (set_u32 first_meta 0 (2 ^ 32)) 8 (2 ^ 32)

abbrev second_disk : Disk
second_disk =
    write_physical_page (record first_disk { meta = second_meta }) meta_page_id second_meta

released : de_allocate_page first_disk 0 ≡ some second_disk
unfolding program
released = refl

second_disk-IsSmall : IsSmall second_disk
unfolding program
second_disk-IsSmall = record { extents = omega arith; file = omega arith }

is_page_free-de_allocate_page_example :
    (is_page_free second_disk 0 ≡ is_page_free first_disk 0)
    × CountersAfter first_disk 0 second_disk.meta
is_page_free-de_allocate_page_example =
    is_page_free-de_allocate_page first_disk second_disk 0 0 second_disk-IsSmall released
