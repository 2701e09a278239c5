-- ===== src/Bitmap/Tests.antt =====
-- Runs of the bitmap of minisql/src/page/bitmap_page.cpp on a page of two bytes.
use zju_database_system.Prelude.{◌≡◌, refl, true, none, some, arith, bit_or, ◌&&◌, not, ltb}
use zju_database_system.Memory.{Memory, IsBytes, reset_memory, put, put-IsBytes}
use zju_database_system.Bitmap.Laws.{allocate_page-some, de_allocate_page_lem}
use zju_database_system.Bitmap.{
  byte_bit, byte_bit_not, is_clear, first_clear, allocate_from, allocate_page, de_allocate_page,
  is_page_free,
}

program : Unit {0}
unfolding put byte_bit byte_bit_not is_clear first_clear allocate_from allocate_page
    de_allocate_page is_page_free
program = tt

-- The first byte is full, the second has its first and third bit set.
abbrev sample : Memory
sample = put (put reset_memory 8 0xff) 9 0xa0

abbrev sample_after : Memory
sample_after = put sample 9 (bit_or (sample 9) (byte_bit 1))

sample-IsBytes : IsBytes sample
sample-IsBytes =
    put-IsBytes (put reset_memory 8 0xff) 9 0xa0
      (put-IsBytes reset_memory 8 0xff (λ a. omega arith) (omega arith)) (omega arith)

takes_page_nine : allocate_page 2 sample ≡ some (sample_after, 9)
unfolding program
takes_page_nine = refl

full_page : allocate_page 1 sample ≡ none
unfolding program
full_page = refl

gives_back : (de_allocate_page 2 sample 10).1 ≡ true
unfolding program
gives_back = refl

allocate_page-some_example : is_page_free 2 sample 9 ≡ true
allocate_page-some_example =
    (allocate_page-some 2 sample {m' = sample_after} {q = 9} sample-IsBytes takes_page_nine).0

de_allocate_page_lem_example :
    (de_allocate_page 2 sample 10).1 ≡ (ltb 10 16 && not (is_page_free 2 sample 10))
de_allocate_page_lem_example = (de_allocate_page_lem 2 sample 10 sample-IsBytes).0
