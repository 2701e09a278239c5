-- ===== src/BPlusTree/Leaf/Order.antt =====
-- Insert and RemoveAndDeleteRecord of minisql/src/page/b_plus_tree_leaf_page.cpp keep the keys in
-- rising order, and Lookup afterwards.
use zju_database_system.Prelude.{
  ℕ, ◌+◌, ◌-◌, ◌≤◌, ◌<◌, ◌≡◌, inl, inr, false, ◌&&◌, none, some, arith, ltb, ◌==◌, if◌then◌else◌,
  Bool-cases,
}
use zju_database_system.Arrays.{Array, store, shift_up, shift_up_lem, shift_down_lem}
use zju_database_system.BPlusTree.Keys.{Ordering, IsComparator, is_equal}
use zju_database_system.BPlusTree.Leaf.{
  LeafPage, key_index, lookup, insert, remove_and_delete_record,
}
use zju_database_system.BPlusTree.Leaf.Search.{Rising, Splits, IsSorted, key_index-Splits}
use zju_database_system.BPlusTree.Leaf.Entries.{all_greater}

module _ {K V : Type 0} (cmp : K → K → Ordering) (laws : IsComparator cmp) where
  -- The array of Insert, at each place.
  inserted_at :
      (a : Array (K × V)) (x n j : ℕ) (e : K × V)
      → x ≤ n
      → j < n + 1
      → store (shift_up (n - x) x a) x e j
        ≡ (if ltb j x then a j else if j == x then e else a (j - 1))
  unfolding store
  inserted_at a x n j e le lt = ground (arith, shift_up_lem (n - x) x a j)

  inserted-Rising :
      (a : Array (K × V)) (n x : ℕ) (key : K) (value : V)
      → Rising cmp a n
      → Splits cmp a n key x
      → (x < n → is_equal (cmp (a x).0 key) ≡ false)
      → Rising cmp (store (shift_up (n - x) x a) x (key, value)) (n + 1)
  inserted-Rising a n x key value up s absent i j lt hi =
      let at_i = inserted_at a x n i (key, value) s.within (omega arith) in
      let at_j = inserted_at a x n j (key, value) s.within hi in
      rw (at_i, at_j)
        (elim (Bool-cases (ltb j x)) [
          | inl low ↦ ground (arith, up i j lt (ground (arith, s.within)))
          | inr not_low ↦ elim (Bool-cases (j == x)) [
            | inl here ↦ ground (arith, s.before i)
            | inr high ↦ elim (Bool-cases (i == x)) [
              | inl pivot ↦ ground (
                arith,
                all_greater cmp laws a n key x up s (absent (ground arith)) (j - 1) (ground arith)
                    (ground arith),
                laws.flip_gt (a (j - 1)).0 key,
              )
              | inr other ↦ ground (arith, up i (j - 1), up (i - 1) (j - 1))
            ]
          ]
        ])

  absent_at :
      (p : LeafPage K V) (key : K)
      → lookup cmp p key ≡ none
      → key_index cmp p key < p.size
      → is_equal (cmp (p.array (key_index cmp p key)).0 key) ≡ false
  unfolding lookup
  absent_at p key h lt = ground arith

  -- Insert of a new key keeps the keys in rising order.
  pub insert-IsSorted :
      (p q : LeafPage K V) (key : K) (value : V) (n : ℕ)
      → IsSorted cmp p
      → lookup cmp p key ≡ none
      → insert cmp p key value ≡ some (q, n)
      → IsSorted cmp q
  unfolding insert
  insert-IsSorted p q key value n up absent h =
      let x = key_index cmp p key in
      let s = key_index-Splits cmp laws p key up in
      let array : q.array ≡ store (shift_up (p.size - x) x p.array) x (key, value) = ground arith in
      let size : q.size ≡ p.size + 1 = ground arith in
      rw (array, size)
        (inserted-Rising p.array p.size x key value up s (λ lt. absent_at p key absent lt))

  -- RemoveAndDeleteRecord keeps the keys in rising order.
  pub remove_and_delete_record-IsSorted :
      (p : LeafPage K V) (key : K)
      → IsSorted cmp p
      → IsSorted cmp (remove_and_delete_record cmp p key).0
  unfolding remove_and_delete_record
  remove_and_delete_record-IsSorted p key up =
      let x = key_index cmp p key in
      elim (Bool-cases (ltb x p.size && is_equal (cmp key (p.array x).0))) [
        | inr miss ↦ rw (miss, remove_and_delete_record) up
        | inl hit ↦
            rw (hit, remove_and_delete_record)
              (λ i j lt hi. ground (
                arith,
                shift_down_lem (p.size - x - 1) x p.array i,
                shift_down_lem (p.size - x - 1) x p.array j,
                up i j,
                up i (j + 1),
                up (i + 1) (j + 1),
              ))
      ]
