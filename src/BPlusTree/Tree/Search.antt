-- ===== src/BPlusTree/Tree/Search.antt =====
-- FindLeafPage and GetValue of minisql/src/index/b_plus_tree.cpp: what the search finds in a search
-- tree.
use zju_database_system.Prelude.{
  ℕ, zero, suc, ◌+◌, ◌≤◌, ◌<◌, ◌≡◌, ◌≢◌, refl, sym, ap, ◌∙◌, ◌⊎◌, inl, inr, true, false, Option,
  none, some, arith, ltb, ◌==◌, Bool-cases,
}
use zju_database_system.Memory.{invalid_page_id}
use zju_database_system.BPlusTree.Keys.{Ordering, IsComparator, find}
use zju_database_system.BPlusTree.Leaf
use zju_database_system.BPlusTree.Leaf.{LeafPage}
use zju_database_system.BPlusTree.Leaf.Search
use zju_database_system.BPlusTree.Leaf.Entries.{lookup_lem}
use zju_database_system.BPlusTree.Internal.{InternalPage}
use zju_database_system.BPlusTree.Internal.Lookup.{Child, lookup-Child}
use zju_database_system.BPlusTree.Tree.{
  Node, leaf, Tree, is_empty, find_leaf, find_leaf_page, get_value,
}
use zju_database_system.BPlusTree.Tree.Entries.{
  From, Below, Under, Over, low, high, IsTree, leaf_entries, child_entries, tree_entries, lt_le,
  bounds_ne, find_absent, find-concat_none, find-concat,
}

module _ {K V : Type 0} (cmp : K → K → Ordering) (laws : IsComparator cmp)
    (pages : ℕ → Node K V) where
  -- The child's bounds exclude a key that the bounds of the page exclude.
  child_outside :
      (p : InternalPage K) (lo hi : Option K) (key : K) (i : ℕ)
      → ((j : ℕ) → 0 < j → j < p.size → From cmp lo (p.array j).0 × Below cmp hi (p.array j).0)
      → i < p.size
      → Under cmp lo key ⊎ Over cmp hi key
      → Under cmp (low cmp p lo i) key ⊎ Over cmp (high cmp p hi i) key
  child_outside p lo hi key i within lt (inl under) = inl (elim (Bool-cases (i == 0)) [
    | inl e ↦ rw e under
    | inr e ↦ rw e (below_lower lo under (within i (ground arith) lt).0)
  ])
    where
      below_lower :
          (b : Option K)
          → Under cmp b key
          → From cmp b (p.array i).0
          → cmp key (p.array i).0 ≡ Ordering.lt
      below_lower (some l) u f = lt_le cmp laws key l (p.array i).0 u f
      below_lower none u f = absurd u
  child_outside p lo hi key i within lt (inr over) = inr (elim (Bool-cases (ltb (i + 1) p.size)) [
    | inl e ↦ rw e (above_upper hi over (within (i + 1) (omega arith) (ground arith)).1)
    | inr e ↦ rw e over
  ])
    where
      above_upper :
          (b : Option K)
          → Over cmp b key
          → Below cmp b (p.array (i + 1)).0
          → cmp key (p.array (i + 1)).0 ≢ Ordering.lt
      above_upper (some u) o f less = o (laws.transitive key (p.array (i + 1)).0 u less f)
      above_upper none o f less = o

  -- The bounds of a child other than that of the key exclude the key.
  other_bounds :
      (p : InternalPage K) (lo hi : Option K) (key : K) (x j : ℕ)
      → Child cmp p.array p.size key x
      → j < p.size
      → j ≢ x
      → Under cmp (low cmp p lo j) key ⊎ Over cmp (high cmp p hi j) key
  other_bounds p lo hi key x j child lt ne = elim (Bool-cases (ltb j x)) [
    | inl before ↦
        let inside : ltb (j + 1) p.size ≡ true = ground (arith, child.within) in
        let over : cmp key (p.array (j + 1)).0 ≢ Ordering.lt = λ less.
          child.before (j + 1) (omega arith) (ground arith)
            (laws.flip_lt key (p.array (j + 1)).0 less) in
        inr (rw inside over)
    | inr behind ↦
        let later : (j == 0) ≡ false = ground arith in
        let under : cmp key (p.array j).0 ≡ Ordering.lt =
          laws.flip_gt (p.array j).0 key (child.behind j (ground arith) lt) in
        inl (rw later under)
  ]

  find_outside :
      (h id : ℕ) (lo hi : Option K) (key : K)
      → IsTree cmp pages h id lo hi
      → Under cmp lo key ⊎ Over cmp hi key
      → find cmp key (tree_entries pages h id) ≡ none
  find_outside zero id lo hi key (p, here, up, within) out =
      ap (λ node. find cmp key (leaf_entries node)) here
      ∙ find_absent cmp p.array key 0 p.size (λ j l u.
        let bounds = within j (omega arith) in
        bounds_ne cmp laws lo hi key (p.array j).0 bounds.0 bounds.1 out)
  find_outside (suc h) id lo hi key (p, here, two, up, within, below) out =
      ap (λ node. find cmp key (child_entries (tree_entries pages h) node)) here
      ∙ find-concat_none cmp key p.size 0 (λ i. tree_entries pages h (p.array i).1)
          (λ j l u.
            let lt : j < p.size = omega arith in
            find_outside h (p.array j).1 (low cmp p lo j) (high cmp p hi j) key (below j lt)
              (child_outside p lo hi key j within lt out))

  -- The search ends at a leaf page, in one round more than the height of the tree, and the entries of
  -- this page have what the tree has under the key.
  pub find_leaf_lem :
      (n h id : ℕ) (lo hi : Option K) (key : K)
      → IsTree cmp pages h id lo hi
      → h < n
      → (l : ℕ) × (p : LeafPage K V) × (find_leaf cmp n pages id key false ≡ some l)
        × (pages l ≡ leaf p)
        × Leaf.Search.IsSorted cmp p
        × (find cmp key (tree_entries pages h id) ≡ find cmp key (Leaf.entries p))
  unfolding find_leaf
  find_leaf_lem zero h id lo hi key t lt = absurd (omega arith)
  find_leaf_lem (suc n) zero id lo hi key (p, here, up, within) lt = (
    id,
    p,
    rw (find_leaf, here) refl,
    here,
    up,
    ap (λ node. find cmp key (leaf_entries node)) here,
  )
  find_leaf_lem (suc n) (suc h) id lo hi key (p, here, two, up, within, below) lt =
      let (x, found, child) = lookup-Child cmp laws p up key two in
      let (l, q, reached, there, sorted, same) =
        find_leaf_lem n h (p.array x).1 (low cmp p lo x) (high cmp p hi x) key
          (below x child.within) (omega arith) in
      let others : (j : ℕ)
          → 0 ≤ j
          → j < 0 + p.size
          → j ≢ x
          → find cmp key (tree_entries pages h (p.array j).1) ≡ none =
        λ j l u ne.
          let within_j : j < p.size = omega arith in
          find_outside h (p.array j).1 (low cmp p lo j) (high cmp p hi j) key (below j within_j)
            (other_bounds p lo hi key x j child within_j ne) in
      (
        l,
        q,
        rw (find_leaf, here, found) reached,
        there,
        sorted,
        ap (λ node. find cmp key (child_entries (tree_entries pages h) node)) here
            ∙ find-concat cmp key p.size 0 x (λ i. tree_entries pages h (p.array i).1) (omega arith)
                (omega (arith, child.within)) others
            ∙ same,
      )

module _ {K V : Type 0} (cmp : K → K → Ordering) (laws : IsComparator cmp) (t : Tree K V) where
  -- GetValue in a search tree, with one round more than its height, ends and answers what the list of
  -- all entries has under the key.
  pub get_value-find :
      (n h : ℕ) (key : K)
      → t.root_page_id ≢ invalid_page_id
      → IsTree cmp t.pages h t.root_page_id none none
      → h < n
      → get_value cmp n t key ≡ some (find cmp key (tree_entries t.pages h t.root_page_id))
  unfolding get_value find_leaf_page is_empty
  get_value-find n h key ne tree lt =
      let inside : (t.root_page_id == invalid_page_id) ≡ false = ground arith in
      let (l, p, found, there, up, same) =
        find_leaf_lem cmp laws t.pages n h t.root_page_id none none key tree lt in
      rw (inside, found, there) (ap some (lookup_lem cmp laws p key up ∙ sym same))
