-- ===== src/Records/Compare/Laws.antt =====
-- The comparisons of minisql/src/record/types.cpp against the signed values and against the lengths.
use Prim.Native.Nat.{compare, Ordering}
use zju_database_system.Prelude.{
  ℕ, zero, suc, ◌+◌, ◌%◌, ◌^◌, ◌≤◌, ◌<◌, ◌≡◌, ◌≢◌, refl, ap, ◌∙◌, not, ◌&&◌, ltb, leb,
  if◌then◌else◌, ◌⊎◌, min, inl, inr, Bool, true, false, none, some, List, length, arith, ◌==◌,
  Bool-cases,
}
use zju_database_system.Memory.{Memory, put}
use zju_database_system.Records.{
  type_invalid, type_int, type_float, type_char, Field, null, integer, floating, chars, type_id,
}
use zju_database_system.Records.Compare.{
  k_null, get_cmp_bool, Comparison, equals, not_equals, less_than, less_than_equals, greater_than,
  greater_than_equals, test, compare_int32, memcmp, compare_strings, str_copy, cut_text, text_of,
  get_data, compare_chars, compare_field,
}

-- The bits of an int.
abbrev pub IsWord : Field → Type 0
IsWord (integer v) = v < 2 ^ 32
IsWord _ = Unit

-- Two's complement: a pattern from 2 ^ 31 on is a negative value, and below every other.
abbrev pub signed_less : ℕ → ℕ → Bool
signed_less a b =
    if leb (2 ^ 31) a
    then (if leb (2 ^ 31) b then ltb a b else true)
    else (if leb (2 ^ 31) b then false else ltb a b)

-- What each comparison asks of two values.
abbrev pub holds : Comparison → ℕ → ℕ → Bool
holds equals a b = a == b
holds not_equals a b = not (a == b)
holds less_than a b = signed_less a b
holds less_than_equals a b = not (signed_less b a)
holds greater_than a b = signed_less b a
holds greater_than_equals a b = not (signed_less a b)

test-compare :
    (op : Comparison) (x y : ℕ)
    → test op (compare x y) ≡ (elim op [
      | equals ↦ x == y
      | not_equals ↦ not (x == y)
      | less_than ↦ ltb x y
      | less_than_equals ↦ not (ltb y x)
      | greater_than ↦ ltb y x
      | greater_than_equals ↦ not (ltb x y)
    ])
unfolding test
test-compare equals x y = ground arith
test-compare not_equals x y = ground arith
test-compare less_than x y = ground arith
test-compare less_than_equals x y = ground arith
test-compare greater_than x y = ground arith
test-compare greater_than_equals x y = ground arith

module _ (a b : ℕ) (small_a : a < 2 ^ 32) (small_b : b < 2 ^ 32) where
  shifted_less : ltb ((a + 2 ^ 31) % 2 ^ 32) ((b + 2 ^ 31) % 2 ^ 32) ≡ signed_less a b
  shifted_less = ground arith

  shifted_same : ((a + 2 ^ 31) % 2 ^ 32 == (b + 2 ^ 31) % 2 ^ 32) ≡ (a == b)
  shifted_same = ground arith

compare_int32-holds :
    (op : Comparison) (a b : ℕ)
    → a < 2 ^ 32
    → b < 2 ^ 32
    → test op (compare_int32 a b) ≡ holds op a b
unfolding compare_int32
compare_int32-holds op a b small_a small_b =
    test-compare op ((a + 2 ^ 31) % 2 ^ 32) ((b + 2 ^ 31) % 2 ^ 32) ∙ by_op op
  where
    by_op :
        (p : Comparison)
        → (elim p [
          | equals ↦ (a + 2 ^ 31) % 2 ^ 32 == (b + 2 ^ 31) % 2 ^ 32
          | not_equals ↦ not ((a + 2 ^ 31) % 2 ^ 32 == (b + 2 ^ 31) % 2 ^ 32)
          | less_than ↦ ltb ((a + 2 ^ 31) % 2 ^ 32) ((b + 2 ^ 31) % 2 ^ 32)
          | less_than_equals ↦ not (ltb ((b + 2 ^ 31) % 2 ^ 32) ((a + 2 ^ 31) % 2 ^ 32))
          | greater_than ↦ ltb ((b + 2 ^ 31) % 2 ^ 32) ((a + 2 ^ 31) % 2 ^ 32)
          | greater_than_equals ↦ not (ltb ((a + 2 ^ 31) % 2 ^ 32) ((b + 2 ^ 31) % 2 ^ 32))
        ])
          ≡ holds p a b
    by_op equals = shifted_same a b small_a small_b
    by_op not_equals = ap not (shifted_same a b small_a small_b)
    by_op less_than = shifted_less a b small_a small_b
    by_op less_than_equals = ap not (shifted_less b a small_b small_a)
    by_op greater_than = shifted_less b a small_b small_a
    by_op greater_than_equals = ap not (shifted_less a b small_a small_b)

memcmp_self : (n i : ℕ) (s : Memory) → memcmp n i s s ≡ Ordering.eq
unfolding memcmp
memcmp_self zero i s = refl
memcmp_self (suc n) i s = ground (arith, memcmp_self n (i + 1) s)

compare_strings_self : (s : Memory) (n k : ℕ) → compare_strings s n s k ≡ compare n k
unfolding compare_strings
compare_strings_self s n k = rw (compare_strings, memcmp_self (min n k) 0 s) refl

-- A zero among the `n` bytes from `i` on.
abbrev pub HasZero : ℕ → ℕ → (ℕ → ℕ) → Type 0
HasZero n i source = (k : ℕ) × (i ≤ k) × (k < i + n) × (source k ≡ 0)

str_copy-cases :
    (n i : ℕ) (source : ℕ → ℕ) (buf : Memory)
    → (HasZero n i source × ((buf' : Memory) × (str_copy n i source buf ≡ some buf')))
      ⊎ ((HasZero n i source → ⊥) × (str_copy n i source buf ≡ none))
unfolding str_copy
str_copy-cases zero i source buf = inr (λ (k, lo, hi, z). omega arith, refl)
str_copy-cases (suc n) i source buf = elim (Bool-cases (source i == 0)) [
  | inl ends ↦
      inl ((i, omega arith, omega arith, ground arith), (put buf i (source i), ground arith))
  | inr more ↦ elim (str_copy-cases n (i + 1) source (put buf i (source i))) [
    | inl ((k, lo, hi, z), (buf', copied)) ↦
        inl ((k, omega arith, omega arith, z), (buf', ground arith))
    | inr (missing, failed) ↦ inr (
      λ (k, lo, hi, z).
          let later : i ≢ k = λ e. ground (arith, ap source e) in
          missing (k, omega arith, omega arith, z),
      ground arith,
    )
  ]
]

module _ (behind : List ℕ → ℕ → ℕ) where
  -- strcpy comes to a zero byte within the static buffer of 128 bytes.
  abbrev pub IsText : List ℕ → Type 0
  IsText xs = HasZero 128 0 (text_of behind xs)

  get_data-cases :
      (xs : List ℕ) (buf : Memory)
      → (IsText xs × ((buf' : Memory) × (get_data behind xs buf ≡ some buf')))
        ⊎ ((IsText xs → ⊥) × (get_data behind xs buf ≡ none))
  unfolding get_data
  get_data-cases xs buf = elim (str_copy-cases 128 0 (text_of behind xs) buf) [
    | inl (text, (copied, done)) ↦ inl (text, (cut_text 128 0 copied, rw done refl))
    | inr (missing, failed) ↦ inr (missing, rw failed refl)
  ]

module _ (behind : List ℕ → ℕ → ℕ) (float_test : Comparison → ℕ → ℕ → Bool) where
  -- Comparing two char fields with values compares their lengths and nothing else, since the bytes
  -- that CompareStrings gets are for both sides those of the static buffer of GetData. That is where
  -- both texts end in a zero byte within the 128 bytes of the buffer, which strcpy may find behind the
  -- characters of the field, and have lengths that are no negative int; otherwise strcpy writes
  -- behind the buffer or an assertion fails.
  pub compare_chars_lem :
      (op : Comparison) (xs ys : List ℕ) (buf : Memory)
      → (IsText behind xs
          × IsText behind ys
          × (length xs < 2 ^ 31)
          × (length ys < 2 ^ 31)
          × (compare_field behind float_test op (chars xs) (chars ys) buf
              ≡ some (get_cmp_bool (test op (compare (length xs) (length ys))))))
        ⊎ (((IsText behind xs × IsText behind ys) × (length xs < 2 ^ 31) × (length ys < 2 ^ 31) → ⊥)
            × (compare_field behind float_test op (chars xs) (chars ys) buf ≡ none))
  unfolding compare_field compare_chars
  compare_chars_lem op xs ys buf = elim (get_data-cases behind xs buf) [
    | inr (missing, failed) ↦ inr (λ h. missing h.0.0, rw failed refl)
    | inl (tx, (left, first)) ↦ elim (get_data-cases behind ys left) [
      | inr (missing, failed) ↦ inr (λ h. missing h.0.1, rw (first, failed) refl)
      | inl (ty, (right, second)) ↦
          elim (Bool-cases (ltb (length xs) (2 ^ 31) && ltb (length ys) (2 ^ 31))) [
            | inl short ↦ inl (
              tx,
              ty,
              ground arith,
              ground arith,
              rw (first, second, short, compare_strings_self right (length xs) (length ys)) refl,
            )
            | inr long ↦ inr (λ h. ground arith, rw (first, second, long) refl)
          ]
    ]
  ]

  -- Comparing an int field with a field of another type fails the assertion. With an int field, the
  -- answer is null exactly if one of them is, and otherwise that of the signed values, which are 32-bit
  -- patterns.
  pub compare_field_lem :
      (op : Comparison) (l r : Field) (buf : Memory)
      → IsWord l
      → IsWord r
      → type_id l ≡ type_int
      → ((type_id r ≢ type_int) × (compare_field behind float_test op l r buf ≡ none))
        ⊎ ((type_id r ≡ type_int)
            × ((l ≡ null type_int) ⊎ (r ≡ null type_int))
            × (compare_field behind float_test op l r buf ≡ some k_null))
        ⊎ ((a b : ℕ) × (l ≡ integer a)
            × (r ≡ integer b)
            × (compare_field behind float_test op l r buf ≡ some (get_cmp_bool (holds op a b))))
  unfolding compare_field type_id
  compare_field_lem op (integer a) (integer b) buf wl wr h =
      inr
        (inr (a, b, refl, refl, ap (λ t. some (get_cmp_bool t)) (compare_int32-holds op a b wl wr)))
  compare_field_lem op (integer a) (null type_int) buf wl wr h = inr (inl (refl, inr refl, refl))
  compare_field_lem op (integer a) (null type_invalid) buf wl wr h = inl (λ e. cc, refl)
  compare_field_lem op (integer a) (null type_float) buf wl wr h = inl (λ e. cc, refl)
  compare_field_lem op (integer a) (null type_char) buf wl wr h = inl (λ e. cc, refl)
  compare_field_lem op (integer a) (floating b) buf wl wr h = inl (λ e. cc, refl)
  compare_field_lem op (integer a) (chars b) buf wl wr h = inl (λ e. cc, refl)
  compare_field_lem op (null type_int) (integer b) buf wl wr h = inr (inl (refl, inl refl, refl))
  compare_field_lem op (null type_int) (null type_int) buf wl wr h =
      inr (inl (refl, inl refl, refl))
  compare_field_lem op (null type_int) (null type_invalid) buf wl wr h = inl (λ e. cc, refl)
  compare_field_lem op (null type_int) (null type_float) buf wl wr h = inl (λ e. cc, refl)
  compare_field_lem op (null type_int) (null type_char) buf wl wr h = inl (λ e. cc, refl)
  compare_field_lem op (null type_int) (floating b) buf wl wr h = inl (λ e. cc, refl)
  compare_field_lem op (null type_int) (chars b) buf wl wr h = inl (λ e. cc, refl)
  compare_field_lem op (null type_invalid) r buf wl wr h = absurd (cc)
  compare_field_lem op (null type_float) r buf wl wr h = absurd (cc)
  compare_field_lem op (null type_char) r buf wl wr h = absurd (cc)
  compare_field_lem op (floating a) r buf wl wr h = absurd (cc)
  compare_field_lem op (chars a) r buf wl wr h = absurd (cc)
