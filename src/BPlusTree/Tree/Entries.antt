-- ===== src/BPlusTree/Tree/Entries.antt =====
-- The search trees that BPlusTree of minisql/src/index/b_plus_tree.cpp builds from its pages, and
-- their entries.
use zju_database_system.Prelude.{
  ℕ, zero, suc, ◌+◌, ◌≤◌, ◌<◌, ◌≡◌, ◌≢◌, refl, sym, ap, ◌∙◌, subst, ◌⊎◌, inl, inr, false, Option,
  none, some, List, [], ◌∷◌, ◌++◌, arith, ltb, ◌==◌, if◌then◌else◌, Bool-cases,
}
use zju_database_system.Arrays.{Array}
use zju_database_system.Arrays.Segments.{segment}
use zju_database_system.BPlusTree.Keys.{Ordering, IsComparator, is_equal, find}
use zju_database_system.BPlusTree.Leaf
use zju_database_system.BPlusTree.Leaf.{LeafPage}
use zju_database_system.BPlusTree.Leaf.Search
use zju_database_system.BPlusTree.Internal
use zju_database_system.BPlusTree.Internal.{InternalPage}
use zju_database_system.BPlusTree.Internal.Lookup
use zju_database_system.BPlusTree.Internal.Lookup.{Child, lookup-Child, Ordering-cases}
use zju_database_system.BPlusTree.Tree.{Node, leaf, internal}

module _ {K : Type 0} (cmp : K → K → Ordering) where
  -- A key not below the lower bound, below the upper one; and a key below the lower bound, not below
  -- the upper one.
  abbrev pub From : Option K → K → Type 0
  From none key = Unit
  From (some l) key = cmp l key ≢ Ordering.gt

  abbrev pub Below : Option K → K → Type 0
  Below none key = Unit
  Below (some u) key = cmp key u ≡ Ordering.lt

  abbrev pub Under : Option K → K → Type 0
  Under none key = ⊥
  Under (some l) key = cmp key l ≡ Ordering.lt

  abbrev pub Over : Option K → K → Type 0
  Over none key = ⊥
  Over (some u) key = cmp key u ≢ Ordering.lt

  -- The bounds of a child.
  abbrev pub low : InternalPage K → Option K → ℕ → Option K
  low p lo i = if i == 0 then lo else some (p.array i).0

  abbrev pub high : InternalPage K → Option K → ℕ → Option K
  high p hi i = if ltb (i + 1) p.size then some (p.array (i + 1)).0 else hi

module _ {K V : Type 0} (cmp : K → K → Ordering) (pages : ℕ → Node K V) where
  -- A search tree of a height below a page, with keys within the bounds.
  abbrev pub IsTree : ℕ → ℕ → Option K → Option K → Type 0
  IsTree zero id lo hi =
      (p : LeafPage K V) × (pages id ≡ leaf p)
      × Leaf.Search.IsSorted cmp p
      × ((i : ℕ) → i < p.size → From cmp lo (p.array i).0 × Below cmp hi (p.array i).0)
  IsTree (suc h) id lo hi =
      (p : InternalPage K) × (pages id ≡ internal p)
      × (1 < p.size)
      × Internal.Lookup.IsSorted cmp p
      × ((i : ℕ) → 0 < i → i < p.size → From cmp lo (p.array i).0 × Below cmp hi (p.array i).0)
      × ((i : ℕ) → i < p.size → IsTree h (p.array i).1 (low cmp p lo i) (high cmp p hi i))

abbrev pub concat_from {ℓ} : {A : Type ℓ} → ℕ → ℕ → (ℕ → List A) → List A
concat_from zero i f = []
concat_from (suc n) i f = f i ++ concat_from n (i + 1) f

module _ {K V : Type 0} where
  abbrev pub leaf_entries : Node K V → List (K × V)
  leaf_entries (leaf p) = Leaf.entries p
  leaf_entries (internal p) = []

  abbrev pub child_entries : (ℕ → List (K × V)) → Node K V → List (K × V)
  child_entries below (leaf p) = []
  child_entries below (internal p) = concat_from p.size 0 (λ i. below (p.array i).1)

  -- The entries of the leaf pages of a tree, from left to right.
  abbrev pub tree_entries : (ℕ → Node K V) → ℕ → ℕ → List (K × V)
  tree_entries pages zero id = leaf_entries (pages id)
  tree_entries pages (suc h) id = child_entries (tree_entries pages h) (pages id)

module _ {K : Type 0} (cmp : K → K → Ordering) (laws : IsComparator cmp) where
  pub lt_le : (a b c : K) → cmp a b ≡ Ordering.lt → cmp b c ≢ Ordering.gt → cmp a c ≡ Ordering.lt
  lt_le a b c lt le = elim (Ordering-cases (cmp b c)) [
    | inl less ↦ laws.transitive a b c lt less
    | inr (inl equal) ↦ subst (λ z. cmp a z ≡ Ordering.lt) (laws.same b c equal) lt
    | inr (inr more) ↦ absurd (le more)
  ]

  pub lt_ge : (a u b : K) → cmp a u ≡ Ordering.lt → cmp b u ≢ Ordering.lt → cmp a b ≡ Ordering.lt
  lt_ge a u b lt ge = elim (Ordering-cases (cmp b u)) [
    | inl less ↦ absurd (ge less)
    | inr (inl equal) ↦ subst (λ z. cmp a z ≡ Ordering.lt) (sym (laws.same b u equal)) lt
    | inr (inr more) ↦ laws.transitive a u b lt (laws.flip_gt b u more)
  ]

  -- A key outside of the bounds of another one is another one.
  pub bounds_ne :
      (lo hi : Option K) (key k : K)
      → From cmp lo k
      → Below cmp hi k
      → Under cmp lo key ⊎ Over cmp hi key
      → is_equal (cmp k key) ≡ false
  bounds_ne none hi key k from below (inl out) = absurd out
  bounds_ne (some l) hi key k from below (inl out) =
      let more = laws.flip_lt key k (lt_le key l k out from) in ground arith
  bounds_ne lo none key k from below (inr out) = absurd out
  bounds_ne lo (some u) key k from below (inr out) =
      let less = lt_ge k u key below out in ground arith

module _ {K V : Type 0} (cmp : K → K → Ordering) where
  pub find_absent :
      (a : Array (K × V)) (key : K) (i n : ℕ)
      → ((j : ℕ) → i ≤ j → j < i + n → is_equal (cmp (a j).0 key) ≡ false)
      → find cmp key (segment a i n) ≡ none
  unfolding find segment
  find_absent a key i zero h = refl
  find_absent a key i (suc n) h = ground (
    arith,
    h i (omega arith) (omega arith),
    find_absent a key (i + 1) n (λ j lo hi. h j (omega arith) (omega arith)),
  )

  abbrev or_else : Option V → Option V → Option V
  or_else none o = o
  or_else (some v) o = some v

  or_else-none : (o : Option V) → or_else o none ≡ o
  or_else-none none = refl
  or_else-none (some v) = refl

  find-append :
      (key : K) (xs ys : List (K × V))
      → find cmp key (xs ++ ys) ≡ or_else (find cmp key xs) (find cmp key ys)
  unfolding find
  find-append key [] ys = refl
  find-append key ((j, w) ∷ xs) ys = ground (arith, find-append key xs ys)

  pub find-concat_none :
      (key : K) (n i : ℕ) (f : ℕ → List (K × V))
      → ((j : ℕ) → i ≤ j → j < i + n → find cmp key (f j) ≡ none)
      → find cmp key (concat_from n i f) ≡ none
  unfolding find
  find-concat_none key zero i f h = refl
  find-concat_none key (suc n) i f h =
      find-append key (f i) (concat_from n (i + 1) f)
      ∙ ap (λ o. or_else o (find cmp key (concat_from n (i + 1) f)))
          (h i (omega arith) (omega arith))
      ∙ (find-concat_none key n (i + 1) f (λ j lo hi. h j (omega arith) (omega arith)))

  -- Where all but one of the lists have no such key, it is found in that one.
  pub find-concat :
      (key : K) (n i x : ℕ) (f : ℕ → List (K × V))
      → i ≤ x
      → x < i + n
      → ((j : ℕ) → i ≤ j → j < i + n → j ≢ x → find cmp key (f j) ≡ none)
      → find cmp key (concat_from n i f) ≡ find cmp key (f x)
  find-concat key zero i x f lo hi h = absurd (omega arith)
  find-concat key (suc n) i x f lo hi h = elim (Bool-cases (i == x)) [
    | inl here ↦
        let at : i ≡ x = ground arith in
        let rest =
          find-concat_none key n (i + 1) f
            (λ j l u. h j (omega arith) (omega arith) (omega (arith, at))) in
        find-append key (f i) (concat_from n (i + 1) f)
        ∙ ap (or_else (find cmp key (f i))) rest
        ∙ or_else-none (find cmp key (f i))
        ∙ ap (λ z. find cmp key (f z)) at
    | inr away ↦
        let none_here = h i (omega arith) (omega arith) (ground arith) in
        find-append key (f i) (concat_from n (i + 1) f)
        ∙ ap (λ o. or_else o (find cmp key (concat_from n (i + 1) f))) none_here
        ∙ (find-concat key n (i + 1) x f (ground arith) (omega arith)
            (λ j l u ne. h j (omega arith) (omega arith) ne))
  ]
