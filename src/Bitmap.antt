-- ===== src/Bitmap.antt =====
-- BitmapPage of minisql/src/page/bitmap_page.cpp and minisql/src/include/page/bitmap_page.h: the
-- allocation bitmap of one extent, kept in the bytes of a page behind two unused 32-bit words.
-- The template's constant MAX_CHARS is an argument of each operation.
mod Bytes
mod Scan
pub mod Laws
mod Tests
use zju_database_system.Prelude.{
  ℕ, zero, suc, ◌+◌, ◌*◌, ◌/◌, ◌%◌, ◌<◌, bit_and, bit_or, bit_xor, ◌&&◌, not, Bool, true, false,
  Option, none, some, ltb, ◌==◌, if◌then◌else◌,
}
use zju_database_system.Memory.{Memory, put}
use Bytes.{byte_bit, byte_bit_not, is_clear}
unfoldable pub use Bytes.{byte_bit, byte_bit_not, is_clear}

-- Where `bytes` begins: behind page_allocated_ and next_free_page_.
abbrev pub offset_bytes : ℕ
offset_bytes = 8

-- MAX_CHARS of BitmapPage<PAGE_SIZE>, and the pages that one bitmap manages.
abbrev pub max_chars_page : ℕ
max_chars_page = 4088

abbrev pub get_max_supported_size : ℕ → ℕ
get_max_supported_size max_chars = 8 * max_chars

-- The inner loop of AllocatePage: the first clear bit of `b` from `j` on, in `n` rounds.
unfoldable pub first_clear : ℕ → ℕ → ℕ → Option ℕ
first_clear zero j b = none
first_clear (suc n) j b =
    let rest = first_clear n (j + 1) b in if is_clear b j then some j else rest

-- The outer loop of AllocatePage from `i` on, in `n` rounds: the new page and page_offset.
unfoldable pub allocate_from : ℕ → ℕ → Memory → Option (Memory × ℕ)
allocate_from zero i m = none
allocate_from (suc n) i m =
    let rest = allocate_from n (i + 1) m in
    let b = m (offset_bytes + i) in
    let found : Option (Memory × ℕ) = elim (first_clear 8 0 b) [
      | some j ↦ some (put m (offset_bytes + i) (bit_or b (byte_bit j)), i * 8 + j)
      | none ↦ rest
    ] in
    if not (bit_xor b 0xff == 0) then found else rest

unfoldable pub allocate_page : ℕ → Memory → Option (Memory × ℕ)
allocate_page max_chars m = allocate_from max_chars 0 m

unfoldable pub de_allocate_page : ℕ → Memory → ℕ → Memory × Bool
de_allocate_page max_chars m page_offset =
    let a = offset_bytes + page_offset / 8 in
    if ltb page_offset (max_chars * 8) && not (is_clear (m a) (page_offset % 8))
    then (put m a (bit_and (m a) (byte_bit_not (page_offset % 8))), true)
    else (m, false)

unfoldable pub is_page_free : ℕ → Memory → ℕ → Bool
is_page_free max_chars m page_offset =
    ltb page_offset (max_chars * 8)
    && is_clear (m (offset_bytes + page_offset / 8)) (page_offset % 8)
