-- ===== src/BPlusTree/Leaf/Search.antt =====
-- KeyIndex and Lookup of minisql/src/page/b_plus_tree_leaf_page.cpp: the binary search finds the
-- first entry whose key is not smaller, so Lookup is the search of the list of entries.
use zju_database_system.Prelude.{
  ℕ, zero, suc, ◌+◌, ◌-◌, ◌/◌, ◌≤◌, ◌<◌, ◌≡◌, inl, inr, true, false, arith, ltb, ◌==◌, Bool-cases,
}
use zju_database_system.Arrays.{Array}
use zju_database_system.BPlusTree.Keys.{Ordering, IsComparator, is_less}
use zju_database_system.BPlusTree.Leaf.{LeafPage, key_index_loop, key_index}

module _ {K V : Type 0} (cmp : K → K → Ordering) where
  -- The keys of the first `n` entries rise.
  abbrev pub Rising : Array (K × V) → ℕ → Type 0
  Rising a n = (i j : ℕ) → i < j → j < n → cmp (a i).0 (a j).0 ≡ Ordering.lt

  abbrev pub IsSorted : LeafPage K V → Type 0
  IsSorted p = Rising p.array p.size

  -- `x` splits the entries: the keys before it are smaller, those from it on are not.
  pub record Splits (a : Array (K × V)) (n : ℕ) (key : K) (x : ℕ) : Type 0 where
    pub within : x ≤ n
    pub before : (i : ℕ) → i < x → cmp (a i).0 key ≡ Ordering.lt
    pub behind : (i : ℕ) → x ≤ i → i < n → is_less (cmp (a i).0 key) ≡ false

pub less_of_test : (o : Ordering) → is_less o ≡ true → o ≡ Ordering.lt
less_of_test o h = ground arith

module _ {K V : Type 0} (cmp : K → K → Ordering) (laws : IsComparator cmp) where
  smaller_before :
      (a : Array (K × V)) (n : ℕ) (key : K) (mid i : ℕ)
      → Rising cmp a n
      → mid < n
      → is_less (cmp (a mid).0 key) ≡ true
      → i < mid + 1
      → cmp (a i).0 key ≡ Ordering.lt
  smaller_before a n key mid i up lt h le = elim (Bool-cases (i == mid)) [
    | inl e ↦ let e' : i ≡ mid = ground arith in rw e' (less_of_test _ h)
    | inr e ↦ laws.transitive _ _ _ (up i mid (ground arith) lt) (less_of_test _ h)
  ]

  greater_behind :
      (a : Array (K × V)) (n : ℕ) (key : K) (mid i : ℕ)
      → Rising cmp a n
      → is_less (cmp (a mid).0 key) ≡ false
      → mid ≤ i
      → i < n
      → is_less (cmp (a i).0 key) ≡ false
  greater_behind a n key mid i up h le lt = elim (Bool-cases (i == mid)) [
    | inl e ↦ let e' : i ≡ mid = ground arith in rw e' h
    | inr e ↦ ground (arith, up mid i (ground arith) lt, laws.transitive (a mid).0 (a i).0 key)
  ]

  pub key_index_loop-Splits :
      (fuel : ℕ) (a : Array (K × V)) (n : ℕ) (key : K) (st end : ℕ)
      → Rising cmp a n
      → end - st < fuel
      → st ≤ end
      → end ≤ n
      → ((i : ℕ) → i < st → cmp (a i).0 key ≡ Ordering.lt)
      → ((i : ℕ) → end ≤ i → i < n → is_less (cmp (a i).0 key) ≡ false)
      → Splits cmp a n key (key_index_loop cmp key a fuel st end)
  unfolding key_index_loop
  key_index_loop-Splits zero a n key st end up enough le within before behind = absurd (omega arith)
  key_index_loop-Splits (suc fuel) a n key st end up enough le within before behind =
      elim (Bool-cases (ltb st end)) [
        | inr done ↦
            rw done (record {
              within = within;
              before = λ i lt. before i (ground arith);
              behind = behind;
            })
        | inl more ↦
            let mid = (end - 1 - st) / 2 + st in
            let low : st ≤ mid = omega arith in
            let high : mid < end = ground arith in
            elim (Bool-cases (is_less (cmp (a mid).0 key))) [
              | inl right ↦
                  rw (more, right)
                    (key_index_loop-Splits fuel a n key (mid + 1) end up (omega arith) (omega arith)
                      within (λ i lt. smaller_before a n key mid i up (omega arith) right lt)
                      behind)
              | inr left ↦
                  rw (more, left)
                    (key_index_loop-Splits fuel a n key st mid up (omega arith) (omega arith)
                      (omega arith) before (λ i lo hi. greater_behind a n key mid i up left lo hi))
            ]
      ]

  pub key_index-Splits :
      (p : LeafPage K V) (key : K)
      → IsSorted cmp p
      → Splits cmp p.array p.size key (key_index cmp p key)
  unfolding key_index
  key_index-Splits p key up =
      key_index_loop-Splits (p.size + 1) p.array p.size key 0 p.size up (omega arith) (omega arith)
        (omega arith) (λ i lt. absurd (omega arith)) (λ i lo hi. absurd (omega arith))
