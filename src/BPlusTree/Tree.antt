-- ===== src/BPlusTree/Tree.antt =====
-- BPlusTree of minisql/src/index/b_plus_tree.cpp: search and insertion; Remove has removal. The pool is the page of each
-- id, of which FetchPage always gives the page; a pointer to a page is its id. NewPage gives the
-- ids of `new_ids` in turn. Loops and recursion along the tree take a number of rounds. `none` is a
-- failed assertion, a page of the wrong type, or too few rounds.
pub mod Entries
pub mod Search
pub mod Insert
pub mod Remove
mod Tests
use zju_database_system.Prelude.{
  ℕ, zero, suc, ◌+◌, ◌-◌, Bool, true, false, Option, none, some, List, [], ◌∷◌, ltb, ◌==◌,
  if◌then◌else◌, ◌>>=◌,
}
use zju_database_system.Memory.{invalid_page_id}
use zju_database_system.IndexRoots
use zju_database_system.IndexRoots.{IndexRootsPage}
use zju_database_system.BPlusTree.Keys.{Ordering}
use zju_database_system.BPlusTree.Page.{Header, is_root_page}
use zju_database_system.BPlusTree.Leaf
use zju_database_system.BPlusTree.Leaf.{LeafPage}
use zju_database_system.BPlusTree.Internal
use zju_database_system.BPlusTree.Internal.{InternalPage, Parents}

pub data Node (K V : Type 0) : Type 0 where
  leaf : LeafPage K V → Node K V
  internal : InternalPage K → Node K V

pub record Tree (K V : Type 0) : Type 0 where
  pub index_id : ℕ
  pub root_page_id : ℕ
  pub leaf_max_size : ℕ
  pub internal_max_size : ℕ
  pub pages : ℕ → Node K V
  pub roots : IndexRootsPage
  pub new_ids : List ℕ

module _ {K V : Type 0} where
  abbrev pub header_of : Node K V → Header
  header_of (leaf p) = p.header
  header_of (internal p) = p.header

  abbrev pub as_leaf : Node K V → Option (LeafPage K V)
  as_leaf (leaf p) = some p
  as_leaf (internal p) = none

  abbrev pub as_internal : Node K V → Option (InternalPage K)
  as_internal (leaf p) = none
  as_internal (internal p) = some p

  unfoldable pub write_node : (ℕ → Node K V) → ℕ → Node K V → ℕ → Node K V
  write_node pages id node i = if i == id then node else pages i

  abbrev pub with_parent : Node K V → ℕ → Node K V
  with_parent (leaf p) parent =
      leaf (record p { header = record (p.header) { parent_page_id = parent } })
  with_parent (internal p) parent =
      internal (record p { header = record (p.header) { parent_page_id = parent } })

  -- SetParentPageId of the page with an id.
  unfoldable pub set_parent : (ℕ → Node K V) → ℕ → ℕ → ℕ → Node K V
  set_parent pages id parent = write_node pages id (with_parent (pages id) parent)

  -- The parent ids of all pages, and the pages with new ones.
  abbrev pub parents_of : (ℕ → Node K V) → Parents
  parents_of pages i = (header_of (pages i)).parent_page_id

  unfoldable pub with_parents : (ℕ → Node K V) → Parents → ℕ → Node K V
  with_parents pages parents i = with_parent (pages i) (parents i)

  unfoldable pub is_empty : Tree K V → Bool
  is_empty t = t.root_page_id == invalid_page_id

  unfoldable pub new_page : Tree K V → Option (Tree K V × ℕ)
  new_page t = elim t.new_ids [ [] ↦ none | id ∷ ids ↦ some (record t { new_ids = ids }, id) ]

  -- `none` is a root that is written behind the index roots page.
  unfoldable pub update_root_page_id : Tree K V → Bool → Option (Tree K V)
  update_root_page_id t insert_record =
      if insert_record
      then (do
        (roots, inserted) ← IndexRoots.insert t.roots t.index_id t.root_page_id
        some (record t { roots = roots }))
      else some (record t { roots = (IndexRoots.update t.roots t.index_id t.root_page_id).0 })

module _ {K V : Type 0} (cmp : K → K → Ordering) where
  -- The loop of FindLeafPage: the id of the leaf page.
  unfoldable pub find_leaf : ℕ → (ℕ → Node K V) → ℕ → K → Bool → Option ℕ
  find_leaf zero pages page_id key left_most = none
  find_leaf (suc n) pages page_id key left_most = elim (pages page_id) [
    | leaf p ↦ some page_id
    | internal p ↦
        (if left_most then Internal.value_at p 0 else Internal.lookup cmp p key)
        >>= (λ (next_page_id : ℕ). find_leaf n pages next_page_id key left_most)
  ]

  -- The inner `none` is nullptr.
  unfoldable pub find_leaf_page : ℕ → Tree K V → K → Bool → Option (Option ℕ)
  find_leaf_page n t key left_most =
      if is_empty t
      then some none
      else find_leaf n t.pages t.root_page_id key left_most >>= (λ (id : ℕ). some (some id))

  -- The inner `none` is false, without a value in the result.
  unfoldable pub get_value : ℕ → Tree K V → K → Option (Option V)
  get_value n t key = find_leaf_page n t key false >>= (λ (found : Option ℕ). elim found [
    | none ↦ some none
    | some id ↦ as_leaf (t.pages id) >>= (λ (p : LeafPage K V). some (Leaf.lookup cmp p key))
  ])

  -- `blank_leaf` and `blank_internal` are a page without contents, read as a leaf or internal page.
  module _ (blank_leaf : LeafPage K V) (blank_internal : InternalPage K) where
    unfoldable pub start_new_tree : Tree K V → K → V → Option (Tree K V)
    start_new_tree t key value = do
      (t1, id) ← new_page t
      let root = Leaf.init blank_leaf id invalid_page_id t1.leaf_max_size
      t2 ← update_root_page_id (record t1 { root_page_id = id }) true
      (root', size) ← Leaf.insert cmp root key value
      some (record t2 { pages = write_node t2.pages id (leaf root') })

    -- Split of the leaf page with an id: the id of the new page.
    unfoldable pub split_leaf : Tree K V → ℕ → LeafPage K V → Option (Tree K V × ℕ)
    split_leaf t id node = do
      (t1, new_id) ← new_page t
      let blank = Leaf.init blank_leaf new_id node.parent_page_id t1.leaf_max_size
      (node', new_node) ← Leaf.move_half_to node blank
      some (
        record t1 {
          pages = write_node (write_node t1.pages id (leaf node')) new_id (leaf new_node);
        },
        new_id,
      )

    unfoldable pub split_internal : Tree K V → ℕ → InternalPage K → Option (Tree K V × ℕ)
    split_internal t id node = do
      (t1, new_id) ← new_page t
      let blank = Internal.init blank_internal new_id node.parent_page_id t1.internal_max_size
      let blanked = write_node t1.pages new_id (internal blank)
      (node', new_node, parents) ← Internal.move_half_to node blank (parents_of blanked)
      let written = write_node (write_node blanked id (internal node')) new_id (internal new_node)
      some (record t1 { pages = with_parents written parents }, new_id)

    -- InsertIntoParent where `old_node` is the root.
    unfoldable pub grow_root : Tree K V → ℕ → K → ℕ → Option (Tree K V)
    grow_root t old_node key new_node = do
      (t1, root_id) ← new_page t
      let old_id = (header_of (t1.pages old_node)).page_id
      let new_id = (header_of (t1.pages new_node)).page_id
      let blank = Internal.init blank_internal root_id invalid_page_id t1.internal_max_size
      let root = Internal.populate_new_root blank old_id key new_id
      let pages1 = write_node t1.pages root_id (internal root)
      let pages2 = set_parent (set_parent pages1 old_node root_id) new_node root_id
      update_root_page_id (record t1 { root_page_id = root_id; pages = pages2 }) false

    unfoldable pub insert_into_parent : ℕ → Tree K V → ℕ → K → ℕ → Option (Tree K V)
    insert_into_parent zero t old_node key new_node = none
    insert_into_parent (suc n) t old_node key new_node =
        if is_root_page (header_of (t.pages old_node))
        then grow_root t old_node key new_node
        else (do
          let parent_id = (header_of (t.pages old_node)).parent_page_id
          let pages1 = set_parent t.pages new_node parent_id
          parent ← as_internal (pages1 parent_id)
          let old_id = (header_of (pages1 old_node)).page_id
          let new_id = (header_of (pages1 new_node)).page_id
          (parent', size) ← Internal.insert_node_after parent old_id key new_id
          let t1 : Tree K V = record t { pages = write_node pages1 parent_id (internal parent') }
          if ltb parent'.max_size parent'.size
              then (do
                (t2, split_id) ← split_internal t1 parent_id parent'
                split ← as_internal (t2.pages split_id)
                middle ← Internal.key_at split 0
                insert_into_parent n t2 parent_id middle split_id)
              else some t1)

    -- InsertIntoLeaf from the test of the size on, for the leaf page with the new entry.
    unfoldable pub write_leaf : ℕ → Tree K V → ℕ → LeafPage K V → Option (Tree K V × Bool)
    write_leaf n t id p =
        let t1 : Tree K V = record t { pages = write_node t.pages id (leaf p) } in
        if ltb p.max_size p.size
        then (do
          (t2, new_id) ← split_leaf t1 id p
          new_leaf ← as_leaf (t2.pages new_id)
          middle ← Leaf.key_at new_leaf 0
          t3 ← insert_into_parent n t2 id middle new_id
          some (t3, true))
        else some (t1, true)

    -- InsertIntoLeaf from the test on, whether the key exists.
    unfoldable pub insert_absent :
        ℕ → Tree K V → ℕ → LeafPage K V → K → V → Option V → Option (Tree K V × Bool)
    insert_absent n t id p key value (some v) = some (t, false)
    insert_absent n t id p key value none =
        Leaf.insert cmp p key value >>= (λ (r : LeafPage K V × ℕ). write_leaf n t id r.0)

    -- The tree, and what the source returns.
    unfoldable pub insert_into_leaf : ℕ → Tree K V → K → V → Option (Tree K V × Bool)
    insert_into_leaf n t key value = do
      found ← find_leaf_page n t key false
      id ← found
      p ← as_leaf (t.pages id)
      insert_absent n t id p key value (Leaf.lookup cmp p key)

    unfoldable pub insert : ℕ → Tree K V → K → V → Option (Tree K V × Bool)
    insert n t key value =
        if is_empty t
        then start_new_tree t key value >>= (λ (t' : Tree K V). some (t', true))
        else insert_into_leaf n t key value

-- The page and the place of an IndexIterator; the place `none` is INVALID_INDEX, the page `none`
-- nullptr.
pub record IndexIterator : Type 0 where
  pub leaf_page : Option ℕ
  pub index : Option ℕ

module _ {K V : Type 0} (cmp : K → K → Ordering) where
  -- Begin of the first key, which is not read, and Begin of a key.
  unfoldable pub begin : ℕ → Tree K V → K → Option IndexIterator
  begin n t useless = do
    start_leaf ← find_leaf_page cmp n t useless true
    some (record { leaf_page = start_leaf; index = some 0 })

  unfoldable pub begin_at : ℕ → Tree K V → K → Option IndexIterator
  begin_at n t key = find_leaf_page cmp n t key false >>= (λ (found : Option ℕ). elim found [
    | none ↦ some (record { leaf_page = none; index = some 0 })
    | some id ↦ as_leaf (t.pages id) >>= (λ (p : LeafPage K V).
        some (record { leaf_page = some id; index = some (Leaf.key_index cmp p key) }))
  ])

  -- operator++.
  unfoldable pub next : Tree K V → IndexIterator → Option IndexIterator
  next t it = do
    id ← it.leaf_page
    p ← as_leaf (t.pages id)
    let moved : ℕ = elim it.index [ none ↦ 0 | some i ↦ i + 1 ]
    some (
        if ltb moved p.size
        then record it { index = some moved }
        else if p.next_page_id == invalid_page_id
        then record it { index = none }
        else record { leaf_page = some p.next_page_id; index = some 0 })

  -- operator*.
  unfoldable pub item : Tree K V → IndexIterator → Option (K × V)
  item t it = do id ← it.leaf_page; p ← as_leaf (t.pages id); i ← it.index; Leaf.get_item p i

  -- End: the last entry of the leaf page of the last key of the root.
  unfoldable pub end : ℕ → Tree K V → Option IndexIterator
  end n t = do
    end_key ← elim (t.pages t.root_page_id) [
      | leaf p ↦ Leaf.key_at p (p.size - 1)
      | internal p ↦ Internal.key_at p (p.size - 1)
    ]
    found ← find_leaf_page cmp n t end_key false
    id ← found
    p ← as_leaf (t.pages id)
    some (record { leaf_page = some id; index = some (p.size - 1) })
