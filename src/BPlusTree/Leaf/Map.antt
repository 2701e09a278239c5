-- ===== src/BPlusTree/Leaf/Map.antt =====
-- A leaf page as a finite map: what Lookup of minisql/src/page/b_plus_tree_leaf_page.cpp answers
-- after Insert and after RemoveAndDeleteRecord.
use zju_database_system.Prelude.{
  ℕ, ◌+◌, ◌-◌, ◌≤◌, ◌≡◌, refl, sym, ap, ◌∙◌, inl, inr, false, ◌&&◌, none, some, List, [], ◌∷◌,
  arith, ltb, if◌then◌else◌, Bool-cases,
}
use zju_database_system.BPlusTree.Keys.{
  Ordering, IsComparator, is_equal, find, insert_sorted, erase,
}
use zju_database_system.BPlusTree.Leaf.{
  LeafPage, entries, key_index, lookup, insert, remove_and_delete_record,
}
use zju_database_system.BPlusTree.Leaf.Search.{IsSorted, key_index-Splits}
use zju_database_system.BPlusTree.Leaf.Entries.{
  all_greater, find_before, find_behind, split_entries, erase_before, erase_from, lookup_lem,
  insert-insert_sorted, remove_and_delete_record_lem,
}
use zju_database_system.BPlusTree.Leaf.Order.{insert-IsSorted, remove_and_delete_record-IsSorted}

module _ {K V : Type 0} (cmp : K → K → Ordering) (laws : IsComparator cmp) where
  find-insert_sorted :
      (key r : K) (value : V) (xs : List (K × V))
      → find cmp r (insert_sorted cmp key value xs)
        ≡ (if is_equal (cmp key r) then some value else find cmp r xs)
  unfolding find insert_sorted
  find-insert_sorted key r value [] = ground arith
  find-insert_sorted key r value ((j, w) ∷ xs) =
      ground (arith, find-insert_sorted key r value xs, laws.same key r, laws.same j r)

  find-erase_ne :
      (key r : K) (xs : List (K × V))
      → is_equal (cmp key r) ≡ false
      → find cmp r (erase cmp key xs) ≡ find cmp r xs
  unfolding find erase
  find-erase_ne key r [] h = refl
  find-erase_ne key r ((j, w) ∷ xs) h =
      ground (arith, find-erase_ne key r xs h, laws.same j key, laws.same j r)

  find-erase_self :
      (p : LeafPage K V) (key : K)
      → IsSorted cmp p
      → find cmp key (erase cmp key (entries p)) ≡ none
  find-erase_self p key up =
      let x = key_index cmp p key in
      let s = key_index-Splits cmp laws p key up in
      let a = p.array in
      ap (λ t. find cmp key (erase cmp key t)) (split_entries cmp laws p x s.within)
      ∙ ap (find cmp key) (erase_before cmp a key 0 x _ (λ j lo hi. s.before j (omega arith)))
      ∙ find_before cmp a key 0 x _ (λ j lo hi. s.before j (omega arith))
      ∙ ap (find cmp key) (erase_from cmp laws a p.size key x up s)
      ∙ elim (Bool-cases (ltb x p.size && is_equal (cmp (a x).0 key))) [
        | inl hit ↦ rw hit (
            find_behind cmp a key (x + 1) (p.size - x - 1) (λ j lo hi.
              ground (arith, up x j, laws.same (a x).0 key, laws.flip_lt (a x).0 (a j).0)))
        | inr miss ↦ rw miss (
            find_behind cmp a key x (p.size - x)
              (λ j lo hi. all_greater cmp laws a p.size key x up s (ground arith) j lo hi))
      ]

  -- After Insert of a new key, Lookup finds its value under the key, and under every other key what
  -- it found before.
  pub lookup-insert :
      (p q : LeafPage K V) (key r : K) (value : V) (n : ℕ)
      → IsSorted cmp p
      → p.size ≤ p.max_size
      → lookup cmp p key ≡ none
      → insert cmp p key value ≡ some (q, n)
      → lookup cmp q r ≡ (if is_equal (cmp key r) then some value else lookup cmp p r)
  lookup-insert p q key r value n up room absent h =
      let (q', e, list, _, _) = insert-insert_sorted cmp laws p key value up room in
      let same_page : q ≡ q' = ground arith in
      lookup_lem cmp laws q r (insert-IsSorted cmp laws p q key value n up absent h)
      ∙ ap (λ t. find cmp r (entries t)) same_page
      ∙ ap (find cmp r) list
      ∙ find-insert_sorted key r value (entries p)
      ∙ ap (λ t. if is_equal (cmp key r) then some value else t) (sym (lookup_lem cmp laws p r up))

  -- After RemoveAndDeleteRecord, Lookup finds nothing under the key, and under every other key what
  -- it found before.
  pub lookup-remove_and_delete_record :
      (p : LeafPage K V) (key r : K)
      → IsSorted cmp p
      → lookup cmp (remove_and_delete_record cmp p key).0 r
        ≡ (if is_equal (cmp key r) then none else lookup cmp p r)
  lookup-remove_and_delete_record p key r up =
      lookup_lem cmp laws _ r (remove_and_delete_record-IsSorted cmp laws p key up)
      ∙ ap (find cmp r) (remove_and_delete_record_lem cmp laws p key up).0
      ∙ elim (Bool-cases (is_equal (cmp key r))) [
        | inl hit ↦ ground (arith, laws.same key r, find-erase_self p key up)
        | inr miss ↦
            rw miss (find-erase_ne key r (entries p) miss ∙ sym (lookup_lem cmp laws p r up))
      ]
