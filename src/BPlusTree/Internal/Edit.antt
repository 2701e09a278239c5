-- ===== src/BPlusTree/Internal/Edit.antt =====
-- InsertNodeAfter and Remove of minisql/src/page/b_plus_tree_internal_page.cpp.
use zju_database_system.Prelude.{
  ℕ, zero, suc, ◌+◌, ◌-◌, ◌≤◌, ◌<◌, ◌≡◌, refl, ◌⊎◌, inl, inr, Option, none, some, List, [], ◌∷◌,
  ◌++◌, arith, ltb, ◌==◌, if◌then◌else◌, Bool-cases, Option-cases,
}
use zju_database_system.Arrays.{Array, store, shift_up, shift_down, shift_up_lem, shift_down_lem}
use zju_database_system.Arrays.Segments.{segment, segment_inserted, segment_removed}
use zju_database_system.BPlusTree.Internal.{
  InternalPage, entries, value_index_from, value_index, insert_node_after, remove,
}

module _ {K : Type 0} where
  -- The list with the entry put behind the first one whose child is `old`.
  pub insert_after : ℕ → K × ℕ → List (K × ℕ) → Option (List (K × ℕ))
  insert_after old e [] = none
  insert_after old e (x ∷ xs) =
      if x.1 == old
      then some (x ∷ e ∷ xs)
      else elim (insert_after old e xs) [ none ↦ none | some ys ↦ some (x ∷ ys) ]

  value_index_from-range :
      (n i : ℕ) (a : Array (K × ℕ)) (old x : ℕ)
      → value_index_from n i a old ≡ some x
      → (i ≤ x) × (x < i + n)
  unfolding value_index_from
  value_index_from-range zero i a old x h = absurd (cc)
  value_index_from-range (suc n) i a old x h =
      ground (arith, value_index_from-range n (i + 1) a old x)

  -- The list with `e` behind its entry `x`, where the list starts with entry `i`.
  abbrev behind : Array (K × ℕ) → ℕ → ℕ → K × ℕ → ℕ → List (K × ℕ)
  behind a i n e x = segment a i (x + 1 - i) ++ e ∷ segment a (x + 1) (n - (x + 1 - i))

  behind_here :
      (a : Array (K × ℕ)) (i n : ℕ) (e : K × ℕ)
      → behind a i (suc n) e i ≡ a i ∷ e ∷ segment a (i + 1) n
  unfolding segment
  behind_here a i n e =
      let one : i + 1 - i ≡ 1 = omega arith in
      let rest : suc n - 1 ≡ n = omega arith in rw (one, rest)

  behind_later :
      (a : Array (K × ℕ)) (i n x : ℕ) (e : K × ℕ)
      → i < x
      → behind a i (suc n) e x ≡ a i ∷ behind a (i + 1) n e x
  unfolding segment
  behind_later a i n x e lt =
      let more : x + 1 - i ≡ suc (x + 1 - (i + 1)) = omega arith in
      let rest : suc n - suc (x + 1 - (i + 1)) ≡ n - (x + 1 - (i + 1)) = omega arith in
      rw (more, rest)

  insert_after_from :
      (n i : ℕ) (a : Array (K × ℕ)) (old : ℕ) (e : K × ℕ)
      → insert_after old e (segment a i n)
        ≡ elim (value_index_from n i a old) [ none ↦ none | some x ↦ some (behind a i n e x) ]
  unfolding insert_after value_index_from segment
  insert_after_from zero i a old e = refl
  insert_after_from (suc n) i a old e =
      let rest = insert_after_from n (i + 1) a old e in
      elim (Bool-cases ((a i).1 == old)) [
        | inl hit ↦ ground (arith, behind_here a i n e)
        | inr miss ↦ elim (Option-cases (value_index_from n (i + 1) a old)) [
          | inl no_one ↦ ground (arith, rest)
          | inr (x, found) ↦
              let range = value_index_from-range n (i + 1) a old x found in
              ground (arith, rest, behind_later a i n x e (omega arith))
        ]
      ]

  -- The entries and the size that an operation returns.
  abbrev pub listed : Option (InternalPage K × ℕ) → Option (List (K × ℕ) × ℕ)
  listed none = none
  listed (some (q, n)) = some (entries q, n)

  abbrev pub with_size : ℕ → Option (List (K × ℕ)) → Option (List (K × ℕ) × ℕ)
  with_size n none = none
  with_size n (some xs) = some (xs, n)

  -- InsertNodeAfter puts the new pair right behind the first pair of the old child and returns the
  -- new size; it fails its assertion exactly if no pair has that child.
  pub insert_node_after_lem :
      (p : InternalPage K) (old : ℕ) (key : K) (new : ℕ)
      → listed (insert_node_after p old key new)
        ≡ with_size (p.size + 1) (insert_after old (key, new) (entries p))
  unfolding insert_node_after store value_index
  insert_node_after_lem p old key new =
      let after = insert_after_from p.size 0 p.array old (key, new) in
      elim (Option-cases (value_index_from p.size 0 p.array old)) [
        | inl e ↦ ground (arith, after)
        | inr (x, e) ↦
            let range = value_index_from-range p.size 0 p.array old x e in
            let a = p.array in
            let k = x + 1 in
            let b = store (shift_up (p.size - k) k a) k (key, new) in
            let up = shift_up_lem (p.size - k) k a in
            let list : segment b 0 (p.size + 1)
                ≡ segment a 0 k ++ (key, new) ∷ segment a k (p.size - k) =
              segment_inserted a b k p.size (key, new) (omega (arith, range))
                (λ j lt. ground (arith, up j)) (ground arith)
                (λ j lo hi. ground (arith, up (j + 1))) in
            let zero_less : x + 1 - 0 ≡ x + 1 = omega arith in
            let found : insert_after old (key, new) (entries p)
                ≡ some (segment a 0 k ++ (key, new) ∷ segment a k (p.size - k)) =
              ground (arith, after, zero_less) in
            rw (e, insert_node_after) (rw (found, list) refl)
      ]

  -- Remove takes out the pair at the index and closes the gap; it fails its assertion exactly if
  -- there is no such pair.
  pub remove_lem :
      (p : InternalPage K) (x : ℕ)
      → ((p.size ≤ x) × (remove p x ≡ none))
        ⊎ ((q : InternalPage K) × (remove p x ≡ some q)
            × (entries q ≡ segment p.array 0 x ++ segment p.array (x + 1) (p.size - 1 - x))
            × (entries p
                ≡ segment p.array 0 x ++ p.array x ∷ segment p.array (x + 1) (p.size - 1 - x))
            × (q.size + 1 ≡ p.size))
  unfolding remove
  remove_lem p x = elim (Bool-cases (ltb x p.size)) [
    | inr out ↦ inl (ground arith, ground arith)
    | inl within ↦
        let b = shift_down (p.size - 1 - x) x p.array in
        let down = shift_down_lem (p.size - 1 - x) x p.array in
        let removed =
          segment_removed p.array b x p.size (ground arith) (λ j lt. ground (arith, down j))
            (λ j lo hi. ground (arith, down j)) in
        inr (
          record p { header = record (p.header) { size = p.size - 1 }; array = b },
          ground arith,
          removed.0,
          removed.1,
          ground arith,
        )
  ]
