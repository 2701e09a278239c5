-- ===== src/BPlusTree/Tree/Insert.antt =====
-- Insert of minisql/src/index/b_plus_tree.cpp where no page is split.
use zju_database_system.Prelude.{
  ℕ, zero, suc, ◌+◌, ◌≤◌, ◌<◌, ◌≡◌, ◌≢◌, refl, sym, ap, ◌∙◌, subst, ◌⊎◌, inl, inr, Bool, true,
  false, Option, none, some, arith, ltb, ◌==◌, if◌then◌else◌, ◌>>=◌, Bool-cases, Option-cases,
  fun_ext,
}
use zju_database_system.Memory.{invalid_page_id}
use zju_database_system.BPlusTree.Keys.{Ordering, IsComparator, is_equal}
use zju_database_system.BPlusTree.Leaf
use zju_database_system.BPlusTree.Leaf.{LeafPage}
use zju_database_system.BPlusTree.Leaf.Search
use zju_database_system.BPlusTree.Leaf.Entries.{insert-insert_sorted, insert-max_size}
use zju_database_system.BPlusTree.Leaf.Map.{lookup-insert}
use zju_database_system.BPlusTree.Internal
use zju_database_system.BPlusTree.Internal.{InternalPage}
use zju_database_system.BPlusTree.Tree.{
  Node, leaf, internal, Tree, is_empty, find_leaf, find_leaf_page, get_value, write_node, insert,
  insert_into_leaf, insert_absent, write_leaf,
}
use zju_database_system.BPlusTree.Tree.Entries.{IsTree}
use zju_database_system.BPlusTree.Tree.Search.{find_leaf_lem}

pub some_inj : {x y : ℕ} → some x ≡ some y → x ≡ y
some_inj h = cc

pub leaf_inj : {K V : Type 0} (p q : LeafPage K V) → ◌≡◌ {A = Node K V} (leaf p) (leaf q) → p ≡ q
leaf_inj p q h = cc

some_if :
    {A : Type 0} (b : Bool) (x y : A) → some (if b then x else y) ≡ (if b then some x else some y)
some_if true x y = refl
some_if false x y = refl

module _ {K V : Type 0} (cmp : K → K → Ordering) where
  write_node_self :
      (pages : ℕ → Node K V) (l : ℕ) (node : Node K V) → write_node pages l node l ≡ node
  unfolding write_node
  write_node_self pages l node = ground arith

  write_node_ne :
      (pages : ℕ → Node K V) (l : ℕ) (node : Node K V) (i : ℕ)
      → i ≢ l
      → write_node pages l node i ≡ pages i
  unfolding write_node
  write_node_ne pages l node i ne = ground arith

  find_leaf-leaf :
      (n : ℕ) (pages : ℕ → Node K V) (id : ℕ) (key : K) (p : LeafPage K V)
      → pages id ≡ leaf p
      → find_leaf cmp (suc n) pages id key false ≡ some id
  unfolding find_leaf
  find_leaf-leaf n pages id key p here = rw (find_leaf, here) refl

  find_leaf-internal :
      (n : ℕ) (pages : ℕ → Node K V) (id : ℕ) (key : K) (p : InternalPage K)
      → pages id ≡ internal p
      → find_leaf cmp (suc n) pages id key false
        ≡ (Internal.lookup cmp p key >>= (λ (c : ℕ). find_leaf cmp n pages c key false))
  unfolding find_leaf
  find_leaf-internal n pages id key p here = rw (find_leaf, here) refl

  Node-cases :
      (node : Node K V)
      → ((p : LeafPage K V) × (node ≡ leaf p)) ⊎ ((p : InternalPage K) × (node ≡ internal p))
  Node-cases (leaf p) = inl (p, refl)
  Node-cases (internal p) = inr (p, refl)

  -- A leaf page written over a leaf page does not change where the search ends.
  find_leaf-write_node :
      (n : ℕ) (pages : ℕ → Node K V) (l : ℕ) (p q : LeafPage K V) (id : ℕ) (key : K)
      → pages l ≡ leaf p
      → find_leaf cmp n (write_node pages l (leaf q)) id key false
        ≡ find_leaf cmp n pages id key false
  unfolding find_leaf
  find_leaf-write_node zero pages l p q id key there = refl
  find_leaf-write_node (suc n) pages l p q id key there = elim (Bool-cases (id == l)) [
    | inl e ↦
        let at : id ≡ l = ground arith in
        let new = write_node pages l (leaf q) in
        find_leaf-leaf n new id key q (ap new at ∙ write_node_self pages l (leaf q))
        ∙ sym (find_leaf-leaf n pages id key p (ap pages at ∙ there))
    | inr e ↦
        let same = write_node_ne pages l (leaf q) id (ground arith) in
        elim (Node-cases (pages id)) [
          | inl (r, here) ↦
              find_leaf-leaf n (write_node pages l (leaf q)) id key r (same ∙ here)
              ∙ sym (find_leaf-leaf n pages id key r here)
          | inr (r, here) ↦
              find_leaf-internal n (write_node pages l (leaf q)) id key r (same ∙ here)
              ∙ ap (λ (f : ℕ → Option ℕ). Internal.lookup cmp r key >>= f)
                  (fun_ext λ c. find_leaf-write_node n pages l p q c key there)
              ∙ sym (find_leaf-internal n pages id key r here)
        ]
  ]

  get_value-leaf :
      (n : ℕ) (t : Tree K V) (key : K) (l : ℕ) (p : LeafPage K V)
      → t.root_page_id ≢ invalid_page_id
      → find_leaf cmp n t.pages t.root_page_id key false ≡ some l
      → t.pages l ≡ leaf p
      → get_value cmp n t key ≡ some (Leaf.lookup cmp p key)
  unfolding get_value find_leaf_page is_empty
  get_value-leaf n t key l p ne found there =
      let inside : (t.root_page_id == invalid_page_id) ≡ false = ground arith in
      rw (inside, found, there) refl

module _ {K V : Type 0} (cmp : K → K → Ordering) (laws : IsComparator cmp) (t : Tree K V) (n h : ℕ)
    (key : K) where
  -- What GetValue finds after a write to the leaf page of a key that changes what Lookup finds under
  -- this key alone.
  pub get_value-write_node :
      (l : ℕ) (p q : LeafPage K V) (o : Option V)
      → t.root_page_id ≢ invalid_page_id
      → IsTree cmp t.pages h t.root_page_id none none
      → h < n
      → find_leaf cmp n t.pages t.root_page_id key false ≡ some l
      → t.pages l ≡ leaf p
      → ((r : K) → Leaf.lookup cmp q r ≡ (if is_equal (cmp key r) then o else Leaf.lookup cmp p r))
      → (r : K)
      → get_value cmp n (record t { pages = write_node t.pages l (leaf q) }) r
        ≡ (if is_equal (cmp key r) then some o else get_value cmp n t r)
  get_value-write_node l p q o ne tree lt found there changed r =
      let t' : Tree K V = record t { pages = write_node t.pages l (leaf q) } in
      let (lr, pr, found_r, there_r, up_r, same) =
        find_leaf_lem cmp laws t.pages n h t.root_page_id none none r tree lt in
      let found_new = find_leaf-write_node cmp n t.pages l p q t.root_page_id r there ∙ found_r in
      let old = get_value-leaf cmp n t r lr pr ne found_r there_r in
      elim (Bool-cases (lr == l)) [
        | inl e ↦
            let at : lr ≡ l = ground arith in
            let page : pr ≡ p = leaf_inj pr p (sym there_r ∙ ap t.pages at ∙ there) in
            let new =
              get_value-leaf cmp n t' r l q ne (found_new ∙ ap some at)
                (write_node_self cmp t.pages l (leaf q)) in
            new
            ∙ ap some (changed r)
            ∙ some_if (is_equal (cmp key r)) o (Leaf.lookup cmp p r)
            ∙ ap (λ g. if is_equal (cmp key r) then some o else g)
                (sym (old ∙ ap (λ z. some (Leaf.lookup cmp z r)) page))
        | inr e ↦
            let apart : lr ≢ l = ground arith in
            let differs : is_equal (cmp key r) ≡ false = elim (Bool-cases (is_equal (cmp key r))) [
              | inr no_match ↦ no_match
              | inl match ↦
                  let k : key ≡ r = laws.same key r (ground arith) in
                  absurd (
                    apart (
                      some_inj (
                        sym found_r
                        ∙ ap (λ z. find_leaf cmp n t.pages t.root_page_id z false) (sym k)
                        ∙ found)))
            ] in
            get_value-leaf cmp n t' r lr pr ne found_new
              (write_node_ne cmp t.pages l (leaf q) lr apart ∙ there_r)
            ∙ sym old
            ∙ ap (λ b. if b then some o else get_value cmp n t r) (sym differs)
      ]

module _ {K V : Type 0} (cmp : K → K → Ordering) (laws : IsComparator cmp)
    (blank_leaf : LeafPage K V) (blank_internal : InternalPage K) (t : Tree K V) (n h : ℕ) (key : K)
    (value : V) where
  insert-insert_absent :
      (l : ℕ) (p : LeafPage K V)
      → t.root_page_id ≢ invalid_page_id
      → find_leaf cmp n t.pages t.root_page_id key false ≡ some l
      → t.pages l ≡ leaf p
      → insert cmp blank_leaf blank_internal n t key value
        ≡ insert_absent cmp blank_leaf blank_internal n t l p key value (Leaf.lookup cmp p key)
  unfolding insert insert_into_leaf find_leaf_page is_empty
  insert-insert_absent l p ne found there =
      let inside : (t.root_page_id == invalid_page_id) ≡ false = ground arith in
      rw (inside, found, there) refl

  insert_absent-room :
      (l : ℕ) (p q : LeafPage K V) (size : ℕ)
      → Leaf.insert cmp p key value ≡ some (q, size)
      → q.size ≤ q.max_size
      → insert_absent cmp blank_leaf blank_internal n t l p key value none
        ≡ some (record t { pages = write_node t.pages l (leaf q) }, true)
  unfolding insert_absent write_leaf
  insert_absent-room l p q size done room =
      let fits : ltb q.max_size q.size ≡ false = ground arith in rw (done, fits) refl

  insert_absent-some :
      (l : ℕ) (p : LeafPage K V) (o : Option V) (v : V)
      → o ≡ some v
      → insert_absent cmp blank_leaf blank_internal n t l p key value o ≡ some (t, false)
  unfolding insert_absent
  insert_absent-some l p o v hit = rw hit refl

  -- Insert into a search tree whose leaf page for the key is not full: where GetValue finds a value
  -- under the key, the answer is false and nothing changes; else the answer is true, and GetValue
  -- then finds the value under the key, and under every other key what it found before.
  pub get_value-insert :
      (l : ℕ) (p : LeafPage K V)
      → t.root_page_id ≢ invalid_page_id
      → IsTree cmp t.pages h t.root_page_id none none
      → h < n
      → find_leaf cmp n t.pages t.root_page_id key false ≡ some l
      → t.pages l ≡ leaf p
      → p.size < p.max_size
      → ((v : V) × (get_value cmp n t key ≡ some (some v))
          × (insert cmp blank_leaf blank_internal n t key value ≡ some (t, false)))
        ⊎ ((t' : Tree K V) × (get_value cmp n t key ≡ some none)
            × (insert cmp blank_leaf blank_internal n t key value ≡ some (t', true))
            × ((r : K)
                → get_value cmp n t' r
                  ≡ (if is_equal (cmp key r) then some (some value) else get_value cmp n t r)))
  get_value-insert l p ne tree lt found there room =
      let (l', p', found', there', up', same) =
        find_leaf_lem cmp laws t.pages n h t.root_page_id none none key tree lt in
      let at : l' ≡ l = some_inj (sym found' ∙ found) in
      let page : p' ≡ p = leaf_inj p' p (sym there' ∙ ap t.pages at ∙ there) in
      let up : Leaf.Search.IsSorted cmp p = subst (Leaf.Search.IsSorted cmp) page up' in
      let value_is = get_value-leaf cmp n t key l p ne found there in
      let start = insert-insert_absent l p ne found there in
      elim (Option-cases (Leaf.lookup cmp p key)) [
        | inr (v, hit) ↦ inl (
          v,
          value_is ∙ ap some hit,
          start ∙ insert_absent-some l p (Leaf.lookup cmp p key) v hit,
        )
        | inl miss ↦
            let (q, done, list, size, next) =
              insert-insert_sorted cmp laws p key value up (omega arith) in
            let kept = insert-max_size cmp p q key value (p.size + 1) done in
            inr (
              record t { pages = write_node t.pages l (leaf q) },
              value_is ∙ ap some miss,
              start
                  ∙ ap (insert_absent cmp blank_leaf blank_internal n t l p key value) miss
                  ∙ insert_absent-room l p q (p.size + 1) done (omega (arith, kept, size)),
              get_value-write_node cmp laws t n h key l p q (some value) ne tree lt found there
                  (λ r.
                    lookup-insert cmp laws p q key r value (p.size + 1) up (omega arith) miss done),
            )
      ]
