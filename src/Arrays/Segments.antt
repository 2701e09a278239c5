-- ===== src/Arrays/Segments.antt =====
-- The part of an array that is in use, as a list.
use zju_database_system.Prelude.{
  ℕ, zero, suc, ◌+◌, ◌-◌, ◌≤◌, ◌<◌, ◌≡◌, refl, ap, ◌∙◌, arith, List, [], ◌∷◌, ◌++◌, length,
}
use zju_database_system.Arrays.{Array}

module _ {A : Type 0} where
  unfoldable pub segment : Array A → ℕ → ℕ → List A
  segment a i zero = []
  segment a i (suc n) = a i ∷ segment a (i + 1) n

  pub length-segment : (a : Array A) (i n : ℕ) → length (segment a i n) ≡ n
  unfolding segment
  length-segment a i zero = refl
  length-segment a i (suc n) = ap suc (length-segment a (i + 1) n)

  -- Equal elements make equal segments, also at another place.
  pub segment_ext :
      (a b : Array A) (i k n : ℕ)
      → ((j : ℕ) → j < n → a (i + j) ≡ b (k + j))
      → segment a i n ≡ segment b k n
  unfolding segment
  segment_ext a b i k zero h = refl
  segment_ext a b i k (suc n) h = ground (
    arith,
    h 0 (omega arith),
    segment_ext a b (i + 1) (k + 1) n (λ j lt. ground (arith, h (j + 1) (omega arith))),
  )

  pub segment-add :
      (a : Array A) (i n m : ℕ) → segment a i (n + m) ≡ segment a i n ++ segment a (i + n) m
  unfolding segment
  segment-add a i zero m = ground arith
  segment-add a i (suc n) m =
      let e : suc n + m ≡ suc (n + m) = omega arith in
      let e' : i + suc n ≡ i + 1 + n = omega arith in
      rw (e, e') (ap (◌∷◌ (a i)) (segment-add a (i + 1) n m))

  pub segment_last : (a : Array A) (i n : ℕ) → segment a i (n + 1) ≡ segment a i n ++ a (i + n) ∷ []
  unfolding segment
  segment_last a i n = rw (segment-add a i n 1) refl

  -- The array that `insert` of an element at `k` leaves, and its segment.
  pub segment_inserted :
      (a b : Array A) (k n : ℕ) (v : A)
      → k ≤ n
      → ((j : ℕ) → j < k → b j ≡ a j)
      → b k ≡ v
      → ((j : ℕ) → k ≤ j → j < n → b (j + 1) ≡ a j)
      → segment b 0 (n + 1) ≡ segment a 0 k ++ v ∷ segment a k (n - k)
  unfolding segment
  segment_inserted a b k n v le low at high =
      let size : n + 1 ≡ k + suc (n - k) = omega arith in
      ap (segment b 0) size
      ∙ segment-add b 0 k (suc (n - k))
      ∙ (ground (
        arith,
        segment_ext b a 0 0 k (λ j lt. ground (arith, low j lt)),
        segment_ext b a (k + 1) k (n - k)
            (λ j lt. ground (arith, high (k + j) (omega arith) (omega arith))),
      ))

  -- The array that removing the element at `k` leaves, and its segment.
  pub segment_removed :
      (a b : Array A) (k n : ℕ)
      → k < n
      → ((j : ℕ) → j < k → b j ≡ a j)
      → ((j : ℕ) → k ≤ j → j + 1 < n → b j ≡ a (j + 1))
      → (segment b 0 (n - 1) ≡ segment a 0 k ++ segment a (k + 1) (n - 1 - k))
        × (segment a 0 n ≡ segment a 0 k ++ a k ∷ segment a (k + 1) (n - 1 - k))
  unfolding segment
  segment_removed a b k n lt low high =
      let size : n - 1 ≡ k + (n - 1 - k) = omega arith in
      let size' : n ≡ k + suc (n - 1 - k) = omega arith in
      (
        ap (segment b 0) size
            ∙ segment-add b 0 k (n - 1 - k)
            ∙ ground (
              arith,
              segment_ext b a 0 0 k (λ j lt. ground (arith, low j lt)),
              segment_ext b a k (k + 1) (n - 1 - k)
                  (λ j lt. ground (arith, high (k + j) (omega arith) (omega arith))),
            ),
        ap (segment a 0) size' ∙ segment-add a 0 k (suc (n - 1 - k)) ∙ ground arith,
      )
