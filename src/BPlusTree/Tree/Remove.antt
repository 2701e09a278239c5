-- ===== src/BPlusTree/Tree/Remove.antt =====
-- Remove of minisql/src/index/b_plus_tree.cpp, with the merging of pages and the moves between them.
-- A page that is given back to the pool is left as it is, and nothing refers to it any more.
pub mod Laws
mod Tests
use zju_database_system.Prelude.{
  ℕ, zero, suc, ◌+◌, ◌-◌, Bool, true, false, not, ◌&&◌, Option, none, some, ltb, leb, ◌==◌,
  if◌then◌else◌, ◌>>=◌, ◌>>◌, require,
}
use zju_database_system.Memory.{invalid_page_id}
use zju_database_system.BPlusTree.Keys.{Ordering}
use zju_database_system.BPlusTree.Page.{Header, is_root_page, get_min_size}
use zju_database_system.BPlusTree.Leaf
use zju_database_system.BPlusTree.Leaf.{LeafPage}
use zju_database_system.BPlusTree.Internal
use zju_database_system.BPlusTree.Internal.{InternalPage, Parents}
use zju_database_system.BPlusTree.Tree.{
  Node, leaf, internal, Tree, header_of, as_leaf, as_internal, write_node, set_parent, parents_of,
  with_parents, is_empty, update_root_page_id, find_leaf_page,
}

module _ {K V : Type 0} where
  -- FetchPage along the leaf pages, which fails behind the last one.
  unfoldable pub fetch_behind : Tree K V → ℕ → Option (Node K V)
  fetch_behind t page_id = if page_id == invalid_page_id then none else some (t.pages page_id)

  -- SetKeyAt in a parent at the place of a child.
  unfoldable pub set_separator : Tree K V → ℕ → ℕ → K → Option (Tree K V)
  set_separator t parent_id child_id key = do
    parent ← as_internal (t.pages parent_id)
    index ← Internal.value_index parent child_id
    parent' ← Internal.set_key_at parent index key
    some (record t { pages = write_node t.pages parent_id (internal parent') })

  -- The tree, and whether the root was deleted.
  unfoldable pub adjust_root : Tree K V → ℕ → Option (Tree K V × Bool)
  adjust_root t id = elim (t.pages id) [
    | leaf p ↦ do
      require (p.size == 0)
      require (is_root_page p.header)
      t1 ← update_root_page_id (record t { root_page_id = invalid_page_id }) false
      some (t1, true)
    | internal p ↦
        if p.size == 1
        then (do
          (p', child) ← Internal.remove_and_return_only_child p
          let t1 : Tree K V = record t {
            root_page_id = child;
            pages = write_node t.pages id (internal p');
          }
          t2 ← update_root_page_id t1 false
          some (record t2 { pages = set_parent t2.pages child invalid_page_id }, false))
        else some (t, false)
  ]

  -- FindSibling: the id of the sibling, and whether it comes after the page.
  unfoldable pub find_sibling : Tree K V → ℕ → Option (ℕ × Bool)
  find_sibling t id = do
    let h = header_of (t.pages id)
    parent ← as_internal (t.pages h.parent_page_id)
    index ← Internal.value_index parent h.page_id
    sibling ← Internal.value_at parent (if index == 0 then index + 1 else index - 1)
    some (sibling, index == 0)

  -- Coalesce: all entries of page `node` go to the end of page `neighbor`. The tree, and whether the
  -- parent is now too small.
  unfoldable pub move_all : Tree K V → ℕ → ℕ → K → Option (ℕ → Node K V)
  move_all t neighbor node middle_key = elim (t.pages node) [
    | leaf p ↦ do
      q ← as_leaf (t.pages neighbor)
      let (p', q') = Leaf.move_all_to p q
      some (write_node (write_node t.pages node (leaf p')) neighbor (leaf q'))
    | internal p ↦ do
      q ← as_internal (t.pages neighbor)
      let (p', q', parents) = Internal.move_all_to p q middle_key (parents_of t.pages)
      let written = write_node (write_node t.pages node (internal p')) neighbor (internal q')
      some (with_parents written parents)
  ]

  unfoldable pub coalesce : Tree K V → ℕ → ℕ → ℕ → ℕ → Option (Tree K V × Bool)
  coalesce t neighbor node parent_id index = do
    parent ← as_internal (t.pages parent_id)
    middle_key ← Internal.key_at parent index
    pages1 ← move_all t neighbor node middle_key
    parent1 ← as_internal (pages1 parent_id)
    parent2 ← Internal.remove parent1 index
    some (
      record t { pages = write_node pages1 parent_id (internal parent2) },
      ltb parent2.size (get_min_size parent2.header),
    )

module _ {K V : Type 0} (cmp : K → K → Ordering) where
  -- The leaf page of a key, and the page behind a leaf page.
  unfoldable pub leaf_of : ℕ → Tree K V → K → Option (LeafPage K V)
  leaf_of n t key = do found ← find_leaf_page cmp n t key false; id ← found; as_leaf (t.pages id)

  abbrev pub behind : Tree K V → LeafPage K V → Option (LeafPage K V)
  behind t p = fetch_behind t p.next_page_id >>= as_leaf

  -- Redistribute between leaf pages: from the sibling behind, and from the one before.
  unfoldable pub take_first_leaf :
      ℕ → Tree K V → ℕ → ℕ → LeafPage K V → LeafPage K V → Option (Tree K V)
  take_first_leaf n t neighbor node q p = do
    key ← Leaf.key_at p (p.size - 1)
    pre ← leaf_of n t key
    middle ← behind t pre
    aft ← fetch_behind t middle.next_page_id
    middle_key ← Leaf.key_at middle 1
    t1 ← set_separator t q.parent_page_id q.page_id middle_key
    (q', p') ← Leaf.move_first_to_end_of q p
    some (record t1 { pages = write_node (write_node t1.pages neighbor (leaf q')) node (leaf p') })

  unfoldable pub take_last_leaf :
      ℕ → Tree K V → ℕ → ℕ → LeafPage K V → LeafPage K V → Option (Tree K V)
  take_last_leaf n t neighbor node q p = do
    key ← Leaf.key_at q (q.size - 1)
    pre ← leaf_of n t key
    middle ← behind t pre
    aft ← fetch_behind t middle.next_page_id
    middle_key ← Leaf.key_at pre (pre.size - 1)
    t1 ← set_separator t q.parent_page_id p.page_id middle_key
    (q', p') ← Leaf.move_last_to_front_of q p
    some (record t1 { pages = write_node (write_node t1.pages neighbor (leaf q')) node (leaf p') })

  -- The same between internal pages.
  unfoldable pub take_first_internal :
      ℕ → Tree K V → ℕ → ℕ → InternalPage K → InternalPage K → Option (Tree K V)
  take_first_internal n t neighbor node q p = do
    key ← Internal.key_at p (p.size - 1)
    pre ← leaf_of n t key
    middle ← behind t pre
    aft ← behind t middle
    middle_key ← Leaf.key_at middle 0
    separator ← Leaf.key_at aft 0
    t1 ← set_separator t p.parent_page_id q.page_id separator
    (q', p', parents) ← Internal.move_first_to_end_of q p middle_key (parents_of t1.pages)
    let written = write_node (write_node t1.pages neighbor (internal q')) node (internal p')
    some (record t1 { pages = with_parents written parents })

  unfoldable pub take_last_internal :
      ℕ → Tree K V → ℕ → ℕ → InternalPage K → InternalPage K → Option (Tree K V)
  take_last_internal n t neighbor node q p = do
    key ← Internal.key_at q (q.size - 1)
    pre ← leaf_of n t key
    middle ← behind t pre
    aft ← fetch_behind t middle.next_page_id
    middle_key ← Leaf.key_at middle 0
    separator ← Leaf.key_at pre 0
    t1 ← set_separator t p.parent_page_id p.page_id separator
    (q', p', parents) ← Internal.move_last_to_front_of q p middle_key (parents_of t1.pages)
    let written = write_node (write_node t1.pages neighbor (internal q')) node (internal p')
    some (record t1 { pages = with_parents written parents })

  unfoldable pub redistribute : ℕ → Tree K V → ℕ → ℕ → ℕ → Option (Tree K V)
  redistribute n t neighbor node index = elim (t.pages node) [
    | leaf p ↦ as_leaf (t.pages neighbor) >>= (λ (q : LeafPage K V).
        if index == 0
        then take_first_leaf n t neighbor node q p
        else take_last_leaf n t neighbor node q p)
    | internal p ↦ as_internal (t.pages neighbor) >>= (λ (q : InternalPage K).
        if index == 0
        then take_first_internal n t neighbor node q p
        else take_last_internal n t neighbor node q p)
  ]

  -- The tree, and what the source returns; `rounds` are those of each search.
  unfoldable pub coalesce_or_redistribute : ℕ → ℕ → Tree K V → ℕ → Option (Tree K V × Bool)
  coalesce_or_redistribute zero rounds t node = none
  coalesce_or_redistribute (suc n) rounds t node =
      let h = header_of (t.pages node) in
      if is_root_page h then adjust_root t node else (do
        (sibling, after) ← find_sibling t node
        parent ← as_internal (t.pages h.parent_page_id)
        if leb (h.size + (header_of (t.pages sibling)).size) h.max_size
            then (do
              let left : ℕ = if after then node else sibling
              let right : ℕ = if after then sibling else node
              index ← Internal.value_index parent (header_of (t.pages right)).page_id
              (t1, too_small) ← coalesce t left right h.parent_page_id index
              (t2, deleted) ← elim too_small [
                | true ↦ coalesce_or_redistribute n rounds t1 h.parent_page_id
                | false ↦ some (t1, false)
              ]
              some (t2, true))
            else (do
              index ← Internal.value_index parent h.page_id
              t1 ← redistribute rounds t sibling node index
              some (t1, false)))

  -- Remove from where the leaf page is found: the separator in the parent, where the search ends at
  -- the first place of a page that is not the root.
  unfoldable pub move_separator : Tree K V → LeafPage K V → K → Option (Tree K V)
  move_separator t target key =
      if Leaf.key_index cmp target key == 0 && not (is_root_page target.header)
      then Leaf.key_at target 1 >>= set_separator t target.parent_page_id target.page_id
      else some t

  unfoldable pub remove_from : ℕ → Tree K V → ℕ → LeafPage K V → K → Option (Tree K V)
  remove_from n t id target key =
      let (target', size) = Leaf.remove_and_delete_record cmp target key in
      let t1 : Tree K V = record t { pages = write_node t.pages id (leaf target') } in
      if ltb size (get_min_size target'.header)
      then coalesce_or_redistribute n n t1 id >>= (λ (r : Tree K V × Bool). some r.0)
      else some t1

  unfoldable pub remove : ℕ → Tree K V → K → Option (Tree K V)
  remove n t key = if is_empty t then some t else (do
    found ← find_leaf_page cmp n t key false
    id ← found
    target ← as_leaf (t.pages id)
    t1 ← move_separator t target key
    remove_from n t1 id target key)
