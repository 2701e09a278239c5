-- ===== src/BPlusTree/Generic.antt =====
-- GenericComparator of minisql/src/include/index/generic_key.h: the order of keys by their bytes.
use Prim.Native.Nat.{compare}
use zju_database_system.Prelude.{
  ℕ, zero, suc, ◌+◌, ◌%◌, ◌≤◌, ◌<◌, ◌≡◌, arith, Bool-cases, inl, inr, ◌==◌,
}
use zju_database_system.Memory.{Memory, IsBytes}
use zju_database_system.BPlusTree.Keys.{Ordering}

-- The order of two bytes as char, which is signed.
unfoldable pub compare_char : ℕ → ℕ → Ordering
compare_char a b = compare ((a + 128) % 256) ((b + 128) % 256)

-- The loop from byte `i` on, over `n` bytes.
unfoldable pub generic_comparator : ℕ → ℕ → Memory → Memory → Ordering
generic_comparator zero i lhs rhs = Ordering.eq
generic_comparator (suc n) i lhs rhs =
    let rest = generic_comparator n (i + 1) lhs rhs in
    elim (compare_char (lhs i) (rhs i)) [
      | Ordering.lt ↦ Ordering.lt
      | Ordering.eq ↦ rest
      | Ordering.gt ↦ Ordering.gt
    ]

-- The answers to swapped keys are opposite, and equal keys have equal bytes.
generic_comparator-flip_lt :
    (n i : ℕ) (a b : Memory)
    → generic_comparator n i a b ≡ Ordering.lt
    → generic_comparator n i b a ≡ Ordering.gt
unfolding generic_comparator compare_char
generic_comparator-flip_lt zero i a b h = absurd (cc)
generic_comparator-flip_lt (suc n) i a b h =
    ground (arith, generic_comparator-flip_lt n (i + 1) a b)

generic_comparator-flip_gt :
    (n i : ℕ) (a b : Memory)
    → generic_comparator n i a b ≡ Ordering.gt
    → generic_comparator n i b a ≡ Ordering.lt
unfolding generic_comparator compare_char
generic_comparator-flip_gt zero i a b h = absurd (cc)
generic_comparator-flip_gt (suc n) i a b h =
    ground (arith, generic_comparator-flip_gt n (i + 1) a b)

generic_comparator-eq :
    (n i j : ℕ) (a b : Memory)
    → IsBytes a
    → IsBytes b
    → generic_comparator n i a b ≡ Ordering.eq
    → i ≤ j
    → j < i + n
    → a j ≡ b j
unfolding generic_comparator compare_char
generic_comparator-eq zero i j a b bytes_a bytes_b h lo hi = absurd (omega arith)
generic_comparator-eq (suc n) i j a b bytes_a bytes_b h lo hi = elim (Bool-cases (j == i)) [
  | inl e ↦
      let at : j ≡ i = ground arith in
      let here : a i ≡ b i = ground (arith, bytes_a i, bytes_b i) in rw at here
  | inr e ↦
      let rest : generic_comparator n (i + 1) a b ≡ Ordering.eq = ground arith in
      generic_comparator-eq n (i + 1) j a b bytes_a bytes_b rest (ground arith) (omega arith)
]

generic_comparator-transitive :
    (n i : ℕ) (a b c : Memory)
    → generic_comparator n i a b ≡ Ordering.lt
    → generic_comparator n i b c ≡ Ordering.lt
    → generic_comparator n i a c ≡ Ordering.lt
unfolding generic_comparator compare_char
generic_comparator-transitive zero i a b c h k = absurd (cc)
generic_comparator-transitive (suc n) i a b c h k =
    ground (arith, generic_comparator-transitive n (i + 1) a b c)

-- The little-endian bytes of 256 come before those of 1.
numbers_swap : (a b : Memory) → a 0 ≡ 0 → b 0 ≡ 1 → generic_comparator 4 0 a b ≡ Ordering.lt
unfolding generic_comparator compare_char
numbers_swap a b ha hb = ground arith
