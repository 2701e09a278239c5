-- ===== src/BPlusTree/Leaf/Entries.antt =====
-- Lookup, Insert and RemoveAndDeleteRecord of minisql/src/page/b_plus_tree_leaf_page.cpp against
-- the reference definitions over the list of entries.
use zju_database_system.Prelude.{
  ℕ, zero, suc, ◌+◌, ◌-◌, ◌≤◌, ◌<◌, ◌≡◌, refl, sym, ap, ◌∙◌, inl, inr, false, ◌&&◌, none, some,
  List, ◌∷◌, ◌++◌, arith, ltb, ◌==◌, if◌then◌else◌, Bool-cases,
}
use zju_database_system.Arrays.{Array, store, shift_up, shift_down, shift_up_lem, shift_down_lem}
use zju_database_system.Arrays.Segments.{segment, segment-add, segment_inserted, segment_removed}
use zju_database_system.BPlusTree.Keys.{
  Ordering, IsComparator, is_less, is_equal, find, insert_sorted, erase,
}
use zju_database_system.BPlusTree.Leaf.{
  LeafPage, key_index, lookup, insert, remove_and_delete_record, entries,
}
use zju_database_system.BPlusTree.Leaf.Search.{IsSorted, Rising, Splits, key_index-Splits}

module _ {K V : Type 0} (cmp : K → K → Ordering) where
  -- All keys of `n` entries from `i` on compare to `key` by `o`.
  abbrev pub AllKeys : Ordering → Array (K × V) → K → ℕ → ℕ → Type 0
  AllKeys o a key i n = (j : ℕ) → i ≤ j → j < i + n → cmp (a j).0 key ≡ o

  pub find_before :
      (a : Array (K × V)) (key : K) (i n : ℕ) (ys : List (K × V))
      → AllKeys Ordering.lt a key i n
      → find cmp key (segment a i n ++ ys) ≡ find cmp key ys
  unfolding find segment
  find_before a key i zero ys h = refl
  find_before a key i (suc n) ys h =
      rw (h i (omega arith) (omega arith))
        (find_before a key (i + 1) n ys (λ j lo hi. h j (omega arith) (omega arith)))

  pub find_behind :
      (a : Array (K × V)) (key : K) (i n : ℕ)
      → AllKeys Ordering.gt a key i n
      → find cmp key (segment a i n) ≡ none
  unfolding find segment
  find_behind a key i zero h = refl
  find_behind a key i (suc n) h =
      rw (h i (omega arith) (omega arith))
        (find_behind a key (i + 1) n (λ j lo hi. h j (omega arith) (omega arith)))

  insert_before :
      (a : Array (K × V)) (key : K) (v : V) (i n : ℕ) (ys : List (K × V))
      → AllKeys Ordering.lt a key i n
      → insert_sorted cmp key v (segment a i n ++ ys) ≡ segment a i n ++ insert_sorted cmp key v ys
  unfolding insert_sorted segment
  insert_before a key v i zero ys h = refl
  insert_before a key v i (suc n) ys h = rw (h i (omega arith) (omega arith)) (
      ap (◌∷◌ (a i))
        (insert_before a key v (i + 1) n ys (λ j lo hi. h j (omega arith) (omega arith))))

  insert_behind :
      (a : Array (K × V)) (key : K) (v : V) (i n : ℕ)
      → (0 < n → is_less (cmp (a i).0 key) ≡ false)
      → insert_sorted cmp key v (segment a i n) ≡ (key, v) ∷ segment a i n
  unfolding insert_sorted segment
  insert_behind a key v i zero h = refl
  insert_behind a key v i (suc n) h = ground (arith, h (omega arith))

  pub erase_before :
      (a : Array (K × V)) (key : K) (i n : ℕ) (ys : List (K × V))
      → AllKeys Ordering.lt a key i n
      → erase cmp key (segment a i n ++ ys) ≡ segment a i n ++ erase cmp key ys
  unfolding erase segment
  erase_before a key i zero ys h = refl
  erase_before a key i (suc n) ys h = rw (h i (omega arith) (omega arith)) (
      ap (◌∷◌ (a i)) (erase_before a key (i + 1) n ys (λ j lo hi. h j (omega arith) (omega arith))))

  erase_behind :
      (a : Array (K × V)) (key : K) (i n : ℕ)
      → AllKeys Ordering.gt a key i n
      → erase cmp key (segment a i n) ≡ segment a i n
  unfolding erase segment
  erase_behind a key i zero h = refl
  erase_behind a key i (suc n) h =
      rw (h i (omega arith) (omega arith))
        (ap (◌∷◌ (a i)) (erase_behind a key (i + 1) n (λ j lo hi. h j (omega arith) (omega arith))))

is_equal_sym :
    {K : Type 0} (cmp : K → K → Ordering)
    → IsComparator cmp
    → (j k : K) → is_equal (cmp j k) ≡ is_equal (cmp k j)
is_equal_sym cmp laws j k = ground (
  arith,
  laws.flip_lt j k,
  laws.flip_gt j k,
  laws.same j k,
  laws.flip_lt k j,
  laws.flip_gt k j,
  laws.same k j,
  laws.reflexive j,
)

module _ {K V : Type 0} (cmp : K → K → Ordering) (laws : IsComparator cmp) where
  -- Behind the place of an absent key all keys are greater.
  pub all_greater :
      (a : Array (K × V)) (n : ℕ) (key : K) (x : ℕ)
      → Rising cmp a n
      → Splits cmp a n key x
      → is_equal (cmp (a x).0 key) ≡ false
      → AllKeys cmp Ordering.gt a key x (n - x)
  all_greater a n key x up s absent j lo hi = elim (Bool-cases (j == x)) [
    | inl here ↦
        let e : j ≡ x = ground arith in
        rw e (ground (arith, s.behind x (omega arith) (omega arith)))
    | inr later ↦ ground (
      arith,
      s.behind j lo (omega arith),
      s.behind x (omega arith) (omega arith),
      laws.same (a j).0 key,
      up x j (ground arith) (omega arith),
    )
  ]

  pub split_entries :
      (p : LeafPage K V) (x : ℕ)
      → x ≤ p.size
      → entries p ≡ segment p.array 0 x ++ segment p.array x (p.size - x)
  split_entries p x le =
      let e : p.size ≡ x + (p.size - x) = omega arith in
      ap (segment p.array 0) e ∙ segment-add p.array 0 x (p.size - x) ∙ ground arith

  -- The entries from `x` on begin with the entry at `x`.
  segment_head :
      (a : Array (K × V)) (x n : ℕ)
      → x < n
      → segment a x (n - x) ≡ a x ∷ segment a (x + 1) (n - x - 1)
  unfolding segment
  segment_head a x n lt = let e : n - x ≡ suc (n - x - 1) = omega arith in ap (segment a x) e

  find_from :
      (a : Array (K × V)) (n : ℕ) (key : K) (x : ℕ)
      → Rising cmp a n
      → Splits cmp a n key x
      → find cmp key (segment a x (n - x))
        ≡ (if ltb x n && is_equal (cmp (a x).0 key) then some (a x).1 else none)
  unfolding find segment
  find_from a n key x up s = elim (Bool-cases (ltb x n)) [
    | inr out ↦ let e : n - x ≡ 0 = ground arith in rw (e, out)
    | inl at ↦ elim (Bool-cases (is_equal (cmp (a x).0 key))) [
      | inl hit ↦ rw (segment_head a x n (ground arith)) (ground arith)
      | inr miss ↦ rw (at, miss) (find_behind cmp a key x (n - x) (all_greater a n key x up s miss))
    ]
  ]

  pub erase_from :
      (a : Array (K × V)) (n : ℕ) (key : K) (x : ℕ)
      → Rising cmp a n
      → Splits cmp a n key x
      → erase cmp key (segment a x (n - x)) ≡ (
          if ltb x n && is_equal (cmp (a x).0 key)
          then segment a (x + 1) (n - x - 1)
          else segment a x (n - x))
  unfolding erase segment
  erase_from a n key x up s = elim (Bool-cases (ltb x n)) [
    | inr out ↦ let e : n - x ≡ 0 = ground arith in rw (e, out)
    | inl at ↦ elim (Bool-cases (is_equal (cmp (a x).0 key))) [
      | inl hit ↦ rw (segment_head a x n (ground arith)) (ground arith)
      | inr miss ↦
          rw (at, miss) (erase_behind cmp a key x (n - x) (all_greater a n key x up s miss))
    ]
  ]

  -- Lookup returns the value of the first entry with the key, and nothing if there is none.
  pub lookup_lem :
      (p : LeafPage K V) (key : K) → IsSorted cmp p → lookup cmp p key ≡ find cmp key (entries p)
  unfolding lookup
  lookup_lem p key up =
      let x = key_index cmp p key in
      let s = key_index-Splits cmp laws p key up in
      sym (
        ap (find cmp key) (split_entries p x s.within)
        ∙ find_before cmp p.array key 0 x _ (λ j lo hi. s.before j (omega arith))
        ∙ find_from p.array p.size key x up s)

  -- Insert puts the entry before the first one whose key is not smaller, on every page that is not
  -- already over-full; the link to the next page stays.
  pub insert-insert_sorted :
      (p : LeafPage K V) (key : K) (value : V)
      → IsSorted cmp p
      → p.size ≤ p.max_size
      → (q : LeafPage K V) × (insert cmp p key value ≡ some (q, p.size + 1))
        × (entries q ≡ insert_sorted cmp key value (entries p))
        × (q.size ≡ p.size + 1)
        × (q.next_page_id ≡ p.next_page_id)
  unfolding insert store
  insert-insert_sorted p key value up room =
      let x = key_index cmp p key in
      let s = key_index-Splits cmp laws p key up in
      let b = store (shift_up (p.size - x) x p.array) x (key, value) in
      (
        record p { header = record (p.header) { size = p.size + 1 }; array = b },
        ground arith,
        segment_inserted p.array b x p.size (key, value) s.within
              (λ j lt. ground (arith, shift_up_lem (p.size - x) x p.array j)) (ground arith)
              (λ j lo hi. ground (arith, shift_up_lem (p.size - x) x p.array (j + 1)))
            ∙ sym (
                ap (insert_sorted cmp key value) (split_entries p x s.within)
                ∙ insert_before cmp p.array key value 0 x _ (λ j lo hi. s.before j (omega arith))
                ∙ ap (◌++◌ (segment p.array 0 x)) (
                    insert_behind cmp p.array key value x (p.size - x)
                      (λ lt. s.behind x (omega arith) (omega arith)))),
        refl,
        refl,
      )

  -- RemoveAndDeleteRecord takes out the entry with the key and leaves the page alone if there is
  -- none; it returns the new size, and the link to the next page stays.
  pub remove_and_delete_record_lem :
      (p : LeafPage K V) (key : K)
      → IsSorted cmp p
      → (entries (remove_and_delete_record cmp p key).0 ≡ erase cmp key (entries p))
        × ((remove_and_delete_record cmp p key).1 ≡ ((remove_and_delete_record cmp p key).0).size)
        × (((remove_and_delete_record cmp p key).0).next_page_id ≡ p.next_page_id)
  unfolding remove_and_delete_record
  remove_and_delete_record_lem p key up =
      let x = key_index cmp p key in
      let s = key_index-Splits cmp laws p key up in
      let erased =
        ap (erase cmp key) (split_entries p x s.within)
        ∙ erase_before cmp p.array key 0 x _ (λ j lo hi. s.before j (omega arith))
        ∙ ap (◌++◌ (segment p.array 0 x)) (erase_from p.array p.size key x up s) in
      let turn = is_equal_sym cmp laws key (p.array x).0 in
      (
        elim (Bool-cases (ltb x p.size && is_equal (cmp key (p.array x).0))) [
          | inl hit ↦
              let down = shift_down_lem (p.size - x - 1) x p.array in
              let b = shift_down (p.size - x - 1) x p.array in
              let removed =
                segment_removed p.array b x p.size (ground arith) (λ j lt. ground (arith, down j))
                  (λ j lo hi. ground (arith, down j)) in
              let rest : segment p.array (x + 1) (p.size - 1 - x)
                  ≡ segment p.array (x + 1) (p.size - x - 1) =
                ap (segment p.array (x + 1)) (omega arith) in
              rw (hit, remove_and_delete_record) (removed.0 ∙ ground (arith, rest, turn, erased))
          | inr miss ↦
              rw (miss, remove_and_delete_record)
                (ground (arith, turn, erased, split_entries p x s.within))
        ],
        ground arith,
        ground arith,
      )

module _ {K V : Type 0} (cmp : K → K → Ordering) where
  pub insert-max_size :
      (p q : LeafPage K V) (key : K) (value : V) (n : ℕ)
      → insert cmp p key value ≡ some (q, n)
      → q.max_size ≡ p.max_size
  unfolding insert
  insert-max_size p q key value n h = ground arith

  -- RemoveAndDeleteRecord changes nothing of the header but the size, and that by at most one.
  pub remove_and_delete_record-header :
      (p : LeafPage K V) (key : K)
      → (let r = remove_and_delete_record cmp p key in
          (r.0.header ≡ record (p.header) { size = r.1 }) × (p.size ≤ r.1 + 1))
  unfolding remove_and_delete_record
  remove_and_delete_record-header p key =
      elim (Bool-cases (
        ltb (key_index cmp p key) p.size && is_equal (cmp key (p.array (key_index cmp p key)).0))) [
          | inl hit ↦ rw hit (refl, omega arith)
          | inr miss ↦ rw miss (refl, omega arith)
        ]
