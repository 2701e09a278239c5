-- ===== src/Bitmap/Bytes.antt =====
-- The byte tables of minisql/src/page/bitmap_page.cpp, and what they do to a byte. The facts about
-- bytes are checked for all 256 of them.
use zju_database_system.Prelude.{
  ℕ, zero, suc, ◌<◌, ◌≡◌, refl, bit_and, bit_or, bit_xor, ◌&&◌, Bool, true, false, [], ◌∷◌, arith,
  get_or, ltb, ◌==◌, if◌then◌else◌,
}

unfoldable pub byte_bit : ℕ → ℕ
byte_bit j = get_or (0x80 ∷ 0x40 ∷ 0x20 ∷ 0x10 ∷ 0x08 ∷ 0x04 ∷ 0x02 ∷ 0x01 ∷ []) j 0

unfoldable pub byte_bit_not : ℕ → ℕ
byte_bit_not j = get_or (0x7f ∷ 0xbf ∷ 0xdf ∷ 0xef ∷ 0xf7 ∷ 0xfb ∷ 0xfd ∷ 0xfe ∷ []) j 0

-- `!(b & byte_bit[j])`.
unfoldable pub is_clear : ℕ → ℕ → Bool
unfolding byte_bit
is_clear b j = bit_and b (byte_bit j) == 0

-- `p` is true of every number under the bound.
holds_under : (ℕ → Bool) → ℕ → Bool
holds_under p zero = true
holds_under p (suc n) = if p n then holds_under p n else false

holds_under_lem : (p : ℕ → Bool) (n : ℕ) → holds_under p n ≡ true → (x : ℕ) → x < n → p x ≡ true
unfolding holds_under
holds_under_lem p zero all x less = absurd (omega arith)
holds_under_lem p (suc n) all x less =
    let below : holds_under p n ≡ true = ground arith in ground (arith, holds_under_lem p n below x)

same : Bool → Bool → Bool
same true b = b
same false true = false
same false false = true

same_sound : (a b : Bool) → same a b ≡ true → a ≡ b
unfolding same
same_sound a b h = ground arith

-- `p` is true of every byte and every two positions of bits.
under3 : (ℕ → ℕ → ℕ → Bool) → Bool
under3 p = holds_under (λ b. holds_under (λ j. holds_under (p b j) 8) 8) 256

under3_lem :
    (p : ℕ → ℕ → ℕ → Bool)
    → under3 p ≡ true
    → (b j k : ℕ) → b < 256
    → j < 8
    → k < 8
    → p b j k ≡ true
unfolding under3
under3_lem p all b j k hb hj hk =
    let row = holds_under_lem (λ x. holds_under (λ y. holds_under (p x y) 8) 8) 256 all b hb in
    holds_under_lem (p b j) 8 (holds_under_lem (λ y. holds_under (p b y) 8) 8 row j hj) k hk

set_table :
    under3 (λ b j k.
      ltb (bit_or b (byte_bit j)) 256
      && same (is_clear (bit_or b (byte_bit j)) k) (if k == j then false else is_clear b k))
    ≡ true
unfolding under3 holds_under same is_clear
set_table = refl

clear_table :
    under3 (λ b j k.
      ltb (bit_and b (byte_bit_not j)) 256
      && same (is_clear (bit_and b (byte_bit_not j)) k) (if k == j then true else is_clear b k))
    ≡ true
unfolding under3 holds_under same is_clear byte_bit_not
clear_table = refl

full_table :
    under3 (λ b j k. if bit_xor b 0xff == 0 then same (is_clear b k) false else true) ≡ true
unfolding under3 holds_under same is_clear
full_table = refl

-- `b |= byte_bit[j]` sets one bit and leaves the other seven.
pub is_clear-set :
    (b j k : ℕ)
    → b < 256
    → j < 8
    → k < 8
    → (bit_or b (byte_bit j) < 256)
      × (is_clear (bit_or b (byte_bit j)) k ≡ (if k == j then false else is_clear b k))
is_clear-set b j k hb hj hk = ground (
  arith,
  same_sound (is_clear (bit_or b (byte_bit j)) k) (if k == j then false else is_clear b k),
  under3_lem _ set_table b j k hb hj hk,
)

-- `b &= byte_bit_not[j]` clears one bit and leaves the other seven.
pub is_clear-clear :
    (b j k : ℕ)
    → b < 256
    → j < 8
    → k < 8
    → (bit_and b (byte_bit_not j) < 256)
      × (is_clear (bit_and b (byte_bit_not j)) k ≡ (if k == j then true else is_clear b k))
is_clear-clear b j k hb hj hk = ground (
  arith,
  same_sound (is_clear (bit_and b (byte_bit_not j)) k) (if k == j then true else is_clear b k),
  under3_lem _ clear_table b j k hb hj hk,
)

-- A byte that equals 0xFF has no clear bit.
pub is_clear_full :
    (b k : ℕ) → b < 256 → k < 8 → (bit_xor b 0xff == 0) ≡ true → is_clear b k ≡ false
is_clear_full b k hb hk e =
    ground (arith, same_sound (is_clear b k) false, under3_lem _ full_table b k k hb hk hk)

zero_table : holds_under (is_clear 0) 8 ≡ true
unfolding holds_under is_clear
zero_table = refl

pub is_clear-zero : (k : ℕ) → k < 8 → is_clear 0 k ≡ true
is_clear-zero k h = holds_under_lem (is_clear 0) 8 zero_table k h
