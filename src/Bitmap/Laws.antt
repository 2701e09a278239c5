-- ===== src/Bitmap/Laws.antt =====
-- What AllocatePage, DeAllocatePage and IsPageFree of minisql/src/page/bitmap_page.cpp do to the set
-- of free pages.
use zju_database_system.Prelude.{
  ℕ, ◌+◌, ◌*◌, ◌/◌, ◌%◌, ◌<◌, ◌≡◌, sym, ◌∙◌, ◌↔◌, inl, inr, bit_and, bit_or, not, ◌&&◌, true, false,
  none, some, arith, ltb, ◌==◌, if◌then◌else◌, Bool-cases, Option-cases,
}
use mathlib.Core.Bool.{false≢true}
use zju_database_system.Memory.{Memory, reset_memory, IsBytes, put_lem, put-IsBytes}
use zju_database_system.Bitmap.Bytes.{is_clear-set, is_clear-clear, is_clear-zero}
use zju_database_system.Bitmap.{
  byte_bit, byte_bit_not, offset_bytes, allocate_page, de_allocate_page, is_page_free,
}
use zju_database_system.Bitmap.Scan.{bit_clear, taken, allocate_from-some, allocate_from-none}

-- A written bit is seen by IsPageFree at its page alone.
taken_lem :
    (m : Memory) (q r : ℕ)
    → IsBytes m
    → bit_clear (taken m q) r ≡ (if r == q then false else bit_clear m r)
taken_lem m q r hm =
    let b = m (offset_bytes + q / 8) in
    ground (
      arith,
      put_lem m (offset_bytes + q / 8) (bit_or b (byte_bit (q % 8))) (offset_bytes + r / 8),
      is_clear-set b (q % 8) (r % 8) (hm _) (omega arith) (omega arith),
    )

-- AllocatePage takes the first free page: the page was free and every page before it was not, and
-- afterwards exactly that page has stopped being free.
pub allocate_page-some :
    (max_chars : ℕ) (m : Memory) {m' : Memory} {q : ℕ}
    → IsBytes m
    → allocate_page max_chars m ≡ some (m', q)
    → (is_page_free max_chars m q ≡ true)
      × ((r : ℕ) → r < q → is_page_free max_chars m r ≡ false)
      × ((r : ℕ)
          → is_page_free max_chars m' r ≡ (if r == q then false else is_page_free max_chars m r))
unfolding allocate_page is_page_free
allocate_page-some max_chars m {m'} {q} hm h =
    let f = allocate_from-some max_chars 0 m {m' = m'} {q = q} hm h in
    (
      ground (arith, f.free, f.high),
      (λ r lt. ground (arith, f.first r (omega arith) lt)),
      λ r. rw (f.result) (ground (arith, f.high, taken_lem m q r hm)),
    )

full_of_none :
    (max_chars : ℕ) (m : Memory)
    → IsBytes m
    → allocate_page max_chars m ≡ none
    → (r : ℕ) → is_page_free max_chars m r ≡ false
unfolding allocate_page is_page_free
full_of_none max_chars m hm h r = elim (Bool-cases (ltb r (max_chars * 8))) [
  | inl within ↦
      ground (arith, allocate_from-none max_chars 0 m hm h r (omega arith) (ground arith))
  | inr outside ↦ ground arith
]

-- AllocatePage fails exactly when no page of the extent is free.
pub allocate_page-none :
    (max_chars : ℕ) (m : Memory)
    → IsBytes m
    → (allocate_page max_chars m ≡ none) ↔ ((r : ℕ) → is_page_free max_chars m r ≡ false)
allocate_page-none max_chars m hm = (
  full_of_none max_chars m hm,
  λ h. elim (Option-cases (allocate_page max_chars m)) [
    | inl e ↦ e
    | inr ((m', q), e) ↦
        absurd (false≢true (sym (h q) ∙ (allocate_page-some max_chars m {m' = m'} {q = q} hm e).0))
  ],
)

-- The bytes stay bytes.
pub allocate_page-IsBytes :
    (max_chars : ℕ) (m : Memory) {m' : Memory} {q : ℕ}
    → IsBytes m
    → allocate_page max_chars m ≡ some (m', q)
    → IsBytes m'
unfolding allocate_page
allocate_page-IsBytes max_chars m {m'} {q} hm h =
    let f = allocate_from-some max_chars 0 m {m' = m'} {q = q} hm h in
    rw (f.result) (
      put-IsBytes m _ _ hm
        (is_clear-set (m (offset_bytes + q / 8)) (q % 8) 0 (hm _) (omega arith) (omega arith)).0)

-- DeAllocatePage succeeds exactly on an allocated page of the extent; then exactly that page
-- becomes free, and otherwise nothing changes.
pub de_allocate_page_lem :
    (max_chars : ℕ) (m : Memory) (q : ℕ)
    → IsBytes m
    → ((de_allocate_page max_chars m q).1
        ≡ (ltb q (max_chars * 8) && not (is_page_free max_chars m q)))
      × ((r : ℕ)
          → is_page_free max_chars (de_allocate_page max_chars m q).0 r
            ≡ (if r == q then ltb q (max_chars * 8) else is_page_free max_chars m r))
unfolding de_allocate_page is_page_free
de_allocate_page_lem max_chars m q hm =
    let b = m (offset_bytes + q / 8) in
    (
      ground arith,
      λ r. ground (
        arith,
        put_lem m (offset_bytes + q / 8) (bit_and b (byte_bit_not (q % 8))) (offset_bytes + r / 8),
        is_clear-clear b (q % 8) (r % 8) (hm _) (omega arith) (omega arith),
      ),
    )

pub de_allocate_page-answer :
    (max_chars : ℕ) (m : Memory) (q : ℕ)
    → q < max_chars * 8
    → (de_allocate_page max_chars m q).1 ≡ not (is_page_free max_chars m q)
unfolding de_allocate_page is_page_free
de_allocate_page-answer max_chars m q lt = ground arith

-- In a cleared page every page of the extent is free.
pub is_page_free-reset_memory :
    (max_chars q : ℕ) → q < max_chars * 8 → is_page_free max_chars reset_memory q ≡ true
unfolding is_page_free
is_page_free-reset_memory max_chars q h = ground (arith, is_clear-zero (q % 8) (omega arith))

-- Only the bytes of the page count.
pub is_page_free_of_eq :
    (max_chars q : ℕ) (m n : Memory)
    → ((b : ℕ) → b < offset_bytes + max_chars → m b ≡ n b)
    → is_page_free max_chars m q ≡ is_page_free max_chars n q
unfolding is_page_free
is_page_free_of_eq max_chars q m n h = elim (Bool-cases (ltb q (max_chars * 8))) [
  | inl within ↦ ground (arith, h (offset_bytes + q / 8) (ground arith))
  | inr outside ↦ ground arith
]

pub allocate_page-lt :
    (max_chars : ℕ) (m : Memory) {m' : Memory} {q : ℕ}
    → IsBytes m
    → allocate_page max_chars m ≡ some (m', q)
    → q < max_chars * 8
unfolding allocate_page
allocate_page-lt max_chars m {m'} {q} hm h =
    omega (arith, (allocate_from-some max_chars 0 m {m' = m'} {q = q} hm h).high)
