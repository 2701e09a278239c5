-- ===== src/Memory.antt =====
-- A page of the database file as raw memory: `char data_[PAGE_SIZE]` of minisql/src/include/page/
-- page.h, read and written through `reinterpret_cast` and `memcpy` of 32-bit words (little endian).
use zju_database_system.Prelude.{
  ℕ, ◌+◌, ◌-◌, ◌*◌, ◌/◌, ◌%◌, ◌^◌, ◌≤◌, ◌<◌, ◌≡◌, ◌⊎◌, arith, ltb, leb, ◌==◌, ◌&&◌, if◌then◌else◌,
}

-- The byte at each address from the start of the page.
abbrev pub Memory : Type 0
Memory = ℕ → ℕ

abbrev pub page_size : ℕ
page_size = 4096

-- INVALID_PAGE_ID, which is -1, as a 32-bit pattern.
abbrev pub invalid_page_id : ℕ
invalid_page_id = 2 ^ 32 - 1

-- `Page::ResetMemory`.
abbrev pub reset_memory : Memory
reset_memory a = 0

abbrev pub IsBytes : Memory → Type 0
IsBytes m = (a : ℕ) → m a < 256

unfoldable pub put : Memory → ℕ → ℕ → Memory
put m a v b = if b == a then v else m b

unfoldable pub get_u32 : Memory → ℕ → ℕ
get_u32 m a = m a + 256 * m (a + 1) + 65536 * m (a + 2) + 16777216 * m (a + 3)

unfoldable pub set_u32 : Memory → ℕ → ℕ → Memory
set_u32 m a v b =
    if b == a
    then v % 256
    else if b == a + 1
    then (v / 256) % 256
    else if b == a + 2
    then (v / 65536) % 256
    else if b == a + 3
    then (v / 16777216) % 256
    else m b

-- `memmove(m + target, m + source, size)`.
unfoldable pub move_bytes : Memory → ℕ → ℕ → ℕ → Memory
move_bytes m target source size b =
    if leb target b && ltb b (target + size) then m (b - target + source) else m b

pub put_lem : (m : Memory) (a v b : ℕ) → put m a v b ≡ (if b == a then v else m b)
unfolding put
put_lem m a v b = ground arith

pub put-IsBytes : (m : Memory) (a v : ℕ) → IsBytes m → v < 256 → IsBytes (put m a v)
unfolding put
put-IsBytes m a v h hv b = ground (arith, h b)

pub get_u32-lt : (m : Memory) (a : ℕ) → IsBytes m → get_u32 m a < 2 ^ 32
unfolding get_u32
get_u32-lt m a h = omega (arith, h a, h (a + 1), h (a + 2), h (a + 3))

pub set_u32-IsBytes : (m : Memory) (a v : ℕ) → IsBytes m → IsBytes (set_u32 m a v)
unfolding set_u32
set_u32-IsBytes m a v h b = ground (arith, h b)

-- Away from the four bytes the memory is as before.
pub set_u32_outside : (m : Memory) (a v b : ℕ) → (b < a) ⊎ (a + 4 ≤ b) → set_u32 m a v b ≡ m b
unfolding set_u32
set_u32_outside m a v b h = ground arith

pub get_u32-set_u32 : (m : Memory) (a v : ℕ) → v < 2 ^ 32 → get_u32 (set_u32 m a v) a ≡ v
unfolding get_u32 set_u32
get_u32-set_u32 m a v h = ground arith

pub get_u32-set_u32_ne :
    (m : Memory) (a v b : ℕ) → (b + 4 ≤ a) ⊎ (a + 4 ≤ b) → get_u32 (set_u32 m a v) b ≡ get_u32 m b
unfolding get_u32
get_u32-set_u32_ne m a v b h = ground (
  arith,
  set_u32_outside m a v b,
  set_u32_outside m a v (b + 1),
  set_u32_outside m a v (b + 2),
  set_u32_outside m a v (b + 3),
)

-- Two memories that agree on a word's four bytes give the same word.
pub get_u32_of_eq :
    (m n : Memory) (a : ℕ) → ((b : ℕ) → a ≤ b → b < a + 4 → m b ≡ n b) → get_u32 m a ≡ get_u32 n a
unfolding get_u32
get_u32_of_eq m n a h = omega (
  arith,
  h a (omega arith) (omega arith),
  h (a + 1) (omega arith) (omega arith),
  h (a + 2) (omega arith) (omega arith),
  h (a + 3) (omega arith) (omega arith),
)

pub get_u32-set_u32_mod : (m : Memory) (a v : ℕ) → get_u32 (set_u32 m a v) a ≡ v % 2 ^ 32
unfolding get_u32 set_u32
get_u32-set_u32_mod m a v = ground arith
