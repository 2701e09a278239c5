-- ===== src/Arrays/Copies.antt =====
-- What copying behind the entries of an array, and putting an element in front of them, do to the
-- list of entries.
use zju_database_system.Prelude.{ℕ, suc, ◌+◌, ◌≡◌, ap, ◌∙◌, ◌∷◌, ◌++◌, arith}
use zju_database_system.Arrays.{Array, store, shift_up, copy, shift_up_lem, copy_lem}
use zju_database_system.Arrays.Segments.{segment, segment-add, segment_ext}

module _ {A : Type 0} where
  -- A copied segment behind what was there.
  pub segment_copied :
      (source target : Array A) (from to n : ℕ)
      → segment (copy n source from target to) 0 (to + n)
        ≡ segment target 0 to ++ segment source from n
  segment_copied source target from to n =
      segment-add (copy n source from target to) 0 to n
      ∙ ground (
        arith,
        segment_ext (copy n source from target to) target 0 0 to
            (λ j lt. ground (arith, copy_lem n source from target to j)),
        segment_ext (copy n source from target to) source to from n
            (λ j lt. ground (arith, copy_lem n source from target to (to + j))),
      )

  pub segment_pushed :
      (a : Array A) (n : ℕ) (v : A)
      → segment (store (shift_up n 0 a) 0 v) 0 (n + 1) ≡ v ∷ segment a 0 n
  unfolding segment store
  segment_pushed a n v =
      let e : n + 1 ≡ suc n = omega arith in
      ap (segment (store (shift_up n 0 a) 0 v) 0) e
      ∙ ap (◌∷◌ v) (
          segment_ext (store (shift_up n 0 a) 0 v) a 1 0 n
            (λ j lt. ground (arith, shift_up_lem n 0 a (1 + j))))
