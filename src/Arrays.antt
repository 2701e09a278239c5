-- ===== src/Arrays.antt =====
-- Arrays that the code shifts element by element, as the `array_[0]` of minisql/src/include/page/
-- b_plus_tree_leaf_page.h and b_plus_tree_internal_page.h and the `roots_[0]` of
-- index_roots_page.h. Such an array has no length of its own; a page keeps the count beside it.
pub mod Segments
pub mod Copies
use zju_database_system.Prelude.{
  ℕ, zero, suc, ◌+◌, ◌-◌, ◌≤◌, ◌<◌, ◌≡◌, refl, ◌&&◌, arith, ltb, leb, ◌==◌, if◌then◌else◌,
}

abbrev pub Array : Type 0 → Type 0
Array A = ℕ → A

module _ {A : Type 0} where
  unfoldable pub store : Array A → ℕ → A → Array A
  store a i v j = if j == i then v else a j

  -- for (i = low + n; i > low; --i) a[i] = a[i - 1];
  unfoldable pub shift_up : ℕ → ℕ → Array A → Array A
  shift_up zero low a = a
  shift_up (suc n) low a = shift_up n low (store a (low + n + 1) (a (low + n)))

  -- for (i = low; i < low + n; ++i) a[i] = a[i + 1];
  unfoldable pub shift_down : ℕ → ℕ → Array A → Array A
  shift_down zero low a = a
  shift_down (suc n) low a = shift_down n (low + 1) (store a low (a (low + 1)))

  -- for (i = 0; i < n; ++i) target[i + to] = source[i + from];
  unfoldable pub copy : ℕ → Array A → ℕ → Array A → ℕ → Array A
  copy zero source from target to = target
  copy (suc n) source from target to =
      copy n source (from + 1) (store target to (source from)) (to + 1)

  pub store_lem :
      (a : Array A) (i : ℕ) (v : A) (j : ℕ) → store a i v j ≡ (if j == i then v else a j)
  unfolding store
  store_lem a i v j = refl

  pub shift_up_lem :
      (n low : ℕ) (a : Array A) (j : ℕ)
      → shift_up n low a j ≡ (if ltb low j && leb j (low + n) then a (j - 1) else a j)
  unfolding shift_up store
  shift_up_lem zero low a j = ground arith
  shift_up_lem (suc n) low a j =
      ground (arith, shift_up_lem n low (store a (low + n + 1) (a (low + n))) j)

  pub shift_down_lem :
      (n low : ℕ) (a : Array A) (j : ℕ)
      → shift_down n low a j ≡ (if leb low j && ltb j (low + n) then a (j + 1) else a j)
  unfolding shift_down store
  shift_down_lem zero low a j = ground arith
  shift_down_lem (suc n) low a j =
      ground (arith, shift_down_lem n (low + 1) (store a low (a (low + 1))) j)

  pub copy_lem :
      (n : ℕ) (source : Array A) (from : ℕ) (target : Array A) (to j : ℕ)
      → copy n source from target to j
        ≡ (if leb to j && ltb j (to + n) then source (j - to + from) else target j)
  unfolding copy store
  copy_lem zero source from target to j = ground arith
  copy_lem (suc n) source from target to j =
      ground (arith, copy_lem n source (from + 1) (store target to (source from)) (to + 1) j)
