-- ===== src/BPlusTree/Internal/Lookup.antt =====
-- Lookup of minisql/src/page/b_plus_tree_internal_page.cpp: the child whose range holds the key.
use zju_database_system.Prelude.{
  ℕ, zero, suc, ◌+◌, ◌-◌, ◌/◌, ◌≤◌, ◌<◌, ◌≡◌, ◌≢◌, refl, ◌⊎◌, inl, inr, true, false, some, arith,
  ltb, ◌==◌, Bool-cases,
}
use zju_database_system.Arrays.{Array}
use zju_database_system.BPlusTree.Keys.{Ordering, IsComparator, is_less}
use zju_database_system.BPlusTree.Internal.{InternalPage, lookup_loop, lookup}

module _ {K : Type 0} (cmp : K → K → Ordering) where
  -- The keys from the second one on rise; the first key is not used.
  abbrev pub IsSorted : InternalPage K → Type 0
  IsSorted p =
      (i j : ℕ) → 0 < i → i < j → j < p.size → cmp (p.array i).0 (p.array j).0 ≡ Ordering.lt

  -- Entry `x` is the last whose key is not greater than `key`, the first entry counting as least.
  pub record Child (a : Array (K × ℕ)) (n : ℕ) (key : K) (x : ℕ) : Type 0 where
    pub within : x < n
    pub before : (i : ℕ) → 0 < i → i ≤ x → cmp (a i).0 key ≢ Ordering.gt
    pub behind : (i : ℕ) → x < i → i < n → cmp (a i).0 key ≡ Ordering.gt

pub Ordering-cases : (o : Ordering) → (o ≡ Ordering.lt) ⊎ ((o ≡ Ordering.eq) ⊎ (o ≡ Ordering.gt))
Ordering-cases Ordering.lt = inl refl
Ordering-cases Ordering.eq = inr (inl refl)
Ordering-cases Ordering.gt = inr (inr refl)

module _ {K : Type 0} (cmp : K → K → Ordering) (laws : IsComparator cmp) (p : InternalPage K)
    (up : IsSorted cmp p) where
  smaller :
      (key : K) (mid i : ℕ)
      → mid < p.size
      → cmp (p.array mid).0 key ≢ Ordering.gt
      → 0 < i
      → i ≤ mid
      → cmp (p.array i).0 key ≢ Ordering.gt
  smaller key mid i lt h pos le = elim (Bool-cases (i == mid)) [
    | inl e ↦ let e' : i ≡ mid = ground arith in rw e' h
    | inr e ↦
        let a = (p.array i).0 in
        let b = (p.array mid).0 in
        ground (arith, up i mid pos (ground arith) lt, laws.transitive a b key, laws.same b key)
  ]

  greater :
      (key : K) (mid i : ℕ)
      → 0 < mid
      → is_less (cmp key (p.array mid).0) ≡ true
      → mid ≤ i
      → i < p.size
      → cmp (p.array i).0 key ≡ Ordering.gt
  greater key mid i pos h le lt = elim (Bool-cases (i == mid)) [
    | inl e ↦
        let e' : i ≡ mid = ground arith in rw e' (laws.flip_lt key (p.array mid).0 (ground arith))
    | inr e ↦ laws.flip_lt key (p.array i).0 (
        laws.transitive key (p.array mid).0 (p.array i).0 (ground arith)
          (up mid i pos (ground arith) lt))
  ]

  lookup_loop-Child :
      (fuel : ℕ) (key : K) (left end : ℕ)
      → 0 < left
      → left ≤ end
      → end ≤ p.size
      → end - left < fuel
      → ((i : ℕ) → 0 < i → i < left → cmp (p.array i).0 key ≢ Ordering.gt)
      → ((i : ℕ) → end ≤ i → i < p.size → cmp (p.array i).0 key ≡ Ordering.gt)
      → Child cmp p.array p.size key (lookup_loop cmp key p.array fuel left end)
  unfolding lookup_loop
  lookup_loop-Child zero key left end pos le within enough before behind = absurd (omega arith)
  lookup_loop-Child (suc fuel) key left end pos le within enough before behind =
      elim (Bool-cases (ltb left end)) [
        | inr done ↦ rw done (record {
          within = omega arith;
          before = λ i lo hi. before i lo (omega arith);
          behind = λ i lo hi. behind i (ground arith) hi;
        })
        | inl more ↦
            let mid = left + (end - 1 - left) / 2 in
            let low : left ≤ mid = omega arith in
            let high : mid < end = ground arith in
            elim (Ordering-cases (cmp (p.array mid).0 key)) [
              | inl l ↦
                  rw (more, l)
                    (lookup_loop-Child fuel key (mid + 1) end (omega arith) (omega arith) within
                      (omega arith)
                      (λ i lo hi. smaller key mid i (omega arith) (ground arith) lo (omega arith))
                      behind)
              | inr (inl e) ↦
                  rw (more, e)
                    (record {
                      within = omega arith;
                      before = λ i lo hi. smaller key mid i (omega arith) (ground arith) lo hi;
                      behind = λ i lo hi. ground (
                        arith,
                        up mid i (omega arith) lo hi,
                        laws.same (p.array mid).0 key e,
                        laws.flip_lt key (p.array i).0,
                      );
                    })
              | inr (inr g) ↦
                  rw (more, g)
                    (lookup_loop-Child fuel key left mid pos low (omega arith) (omega arith) before
                      (λ i lo hi.
                        greater key mid i (omega arith)
                          (ground (arith, laws.flip_gt (p.array mid).0 key)) lo hi))
            ]
      ]

  -- Lookup of a page with at least two children returns the child whose range holds the key: the
  -- keys up to it are not greater than the key, and those behind it are.
  pub lookup-Child :
      (key : K)
      → 1 < p.size
      → (x : ℕ) × (lookup cmp p key ≡ some (p.array x).1) × Child cmp p.array p.size key x
  unfolding lookup
  lookup-Child key two =
      let last = p.size - 1 in
      let many : (p.size == 0) ≡ false = ground arith in
      elim (Bool-cases (is_less (cmp key (p.array 1).0))) [
        | inl first ↦ (
          0,
          rw (many, first),
          record {
            within = omega arith;
            before = λ i lo hi. absurd (omega arith);
            behind = λ i lo hi. greater key 1 i (omega arith) first lo hi;
          },
        )
        | inr not_first ↦ elim (Bool-cases (is_less (cmp key (p.array last).0))) [
          | inr in_last ↦ (
            last,
            rw (many, not_first, in_last),
            record {
              within = omega arith;
              before = λ i lo hi.
                  smaller key last i (omega arith)
                    (ground (arith, laws.flip_gt (p.array last).0 key)) lo hi;
              behind = λ i lo hi. absurd (omega arith);
            },
          )
          | inl inner ↦ (
            lookup_loop cmp key p.array p.size 1 p.size,
            rw (many, not_first, inner),
            lookup_loop-Child p.size key 1 p.size (omega arith) (omega arith) (omega arith)
                (omega arith) (λ i lo hi. absurd (omega arith)) (λ i lo hi. absurd (omega arith)),
          )
        ]
      ]
