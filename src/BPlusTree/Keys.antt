-- ===== src/BPlusTree/Keys.antt =====
-- What the index pages use of a KeyComparator: the sign of its result (minisql/src/include/index/
-- basic_comparator.h and generic_key.h), and the reference definitions over lists of entries.
use Prim.Native.Nat.{compare}
pub use Prim.Native.Nat.{Ordering}
use zju_database_system.Prelude.{
  ℕ, ◌≡◌, Bool, true, false, List, [], ◌∷◌, Option, none, some, arith,
}

-- `comparator(a, b) < 0`, and `== 0`.
abbrev pub is_less : Ordering → Bool
is_less o = elim o [ Ordering.lt ↦ true | _ ↦ false ]

abbrev pub is_equal : Ordering → Bool
is_equal o = elim o [ Ordering.eq ↦ true | _ ↦ false ]

-- A comparator orders the keys, and answers 0 on equal keys alone.
pub record IsComparator {K : Type 0} (cmp : K → K → Ordering) : Type 0 where
  pub same : (a b : K) → cmp a b ≡ Ordering.eq → a ≡ b
  pub reflexive : (a : K) → cmp a a ≡ Ordering.eq
  pub flip_lt : (a b : K) → cmp a b ≡ Ordering.lt → cmp b a ≡ Ordering.gt
  pub flip_gt : (a b : K) → cmp a b ≡ Ordering.gt → cmp b a ≡ Ordering.lt
  pub transitive :
      (a b c : K) → cmp a b ≡ Ordering.lt → cmp b c ≡ Ordering.lt → cmp a c ≡ Ordering.lt

-- BasicComparator over numbers.
abbrev pub basic_comparator : ℕ → ℕ → Ordering
basic_comparator l r = compare l r

pub basic_comparator-IsComparator : IsComparator basic_comparator
basic_comparator-IsComparator = record {
  same = λ a b h. ground arith;
  reflexive = λ a. ground arith;
  flip_lt = λ a b h. ground arith;
  flip_gt = λ a b h. ground arith;
  transitive = λ a b c h k. ground arith;
}

module _ {K V : Type 0} (cmp : K → K → Ordering) where
  -- The value of the first entry with the key.
  unfoldable pub find : K → List (K × V) → Option V
  find k [] = none
  find k ((j, v) ∷ xs) = elim (cmp j k) [ Ordering.eq ↦ some v | _ ↦ find k xs ]

  -- The entry put before the first entry whose key is not smaller.
  unfoldable pub insert_sorted : K → V → List (K × V) → List (K × V)
  insert_sorted k v [] = (k, v) ∷ []
  insert_sorted k v ((j, w) ∷ xs) = elim (cmp j k) [
    | Ordering.lt ↦ (j, w) ∷ insert_sorted k v xs
    | _ ↦ (k, v) ∷ (j, w) ∷ xs
  ]

  -- The list without the first entry with the key.
  unfoldable pub erase : K → List (K × V) → List (K × V)
  erase k [] = []
  erase k ((j, w) ∷ xs) = elim (cmp j k) [ Ordering.eq ↦ xs | _ ↦ (j, w) ∷ erase k xs ]
