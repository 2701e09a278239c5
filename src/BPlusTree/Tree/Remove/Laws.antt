-- ===== src/BPlusTree/Tree/Remove/Laws.antt =====
-- Remove of minisql/src/index/b_plus_tree.cpp where no page becomes too small.
use zju_database_system.Prelude.{
  ℕ, ◌<◌, ◌≡◌, ◌≢◌, refl, sym, ap, ◌∙◌, subst, false, not, ◌&&◌, none, some, arith, ltb, ◌==◌,
  if◌then◌else◌,
}
use zju_database_system.Memory.{invalid_page_id}
use zju_database_system.BPlusTree.Keys.{Ordering, IsComparator, is_equal}
use zju_database_system.BPlusTree.Page.{Header, is_root_page, is_leaf_page, get_min_size}
use zju_database_system.BPlusTree.Leaf
use zju_database_system.BPlusTree.Leaf.{LeafPage}
use zju_database_system.BPlusTree.Leaf.Search
use zju_database_system.BPlusTree.Leaf.Entries.{remove_and_delete_record-header}
use zju_database_system.BPlusTree.Leaf.Map.{lookup-remove_and_delete_record}
use zju_database_system.BPlusTree.Tree.{
  leaf, Tree, is_empty, find_leaf, find_leaf_page, get_value, write_node,
}
use zju_database_system.BPlusTree.Tree.Entries.{IsTree}
use zju_database_system.BPlusTree.Tree.Search.{find_leaf_lem}
use zju_database_system.BPlusTree.Tree.Insert.{some_inj, leaf_inj, get_value-write_node}
use zju_database_system.BPlusTree.Tree.Remove.{move_separator, remove_from, remove}

get_min_size-size :
    (h : Header) (size : ℕ) → get_min_size (record h { size = size }) ≡ get_min_size h
unfolding get_min_size is_root_page is_leaf_page
get_min_size-size h size = refl

module _ {K V : Type 0} (cmp : K → K → Ordering) (laws : IsComparator cmp) (t : Tree K V) (n h : ℕ)
    (key : K) where
  remove_lem :
      (l : ℕ) (p : LeafPage K V)
      → t.root_page_id ≢ invalid_page_id
      → find_leaf cmp n t.pages t.root_page_id key false ≡ some l
      → t.pages l ≡ leaf p
      → (Leaf.key_index cmp p key == 0 && not (is_root_page p.header)) ≡ false
      → get_min_size p.header < p.size
      → remove cmp n t key
        ≡ some (record t {
          pages = write_node t.pages l (leaf (Leaf.remove_and_delete_record cmp p key).0);
        })
  unfolding remove move_separator remove_from is_empty find_leaf_page
  remove_lem l p ne found there stays room =
      let inside : (t.root_page_id == invalid_page_id) ≡ false = ground arith in
      let r = Leaf.remove_and_delete_record cmp p key in
      let (header, size) = remove_and_delete_record-header cmp p key in
      let least : get_min_size r.0.header ≡ get_min_size p.header =
        ap get_min_size header ∙ get_min_size-size p.header r.1 in
      let enough : ltb r.1 (get_min_size r.0.header) ≡ false = ground (arith, least, size) in
      rw (inside, found, there, stays, enough) refl

  -- Remove from a search tree where the leaf page of the key has more entries than it needs, and the
  -- key is behind its first entry or the page is the root, ends; GetValue then finds nothing under the
  -- key, and under every other key what it found before.
  pub get_value-remove :
      (l : ℕ) (p : LeafPage K V)
      → t.root_page_id ≢ invalid_page_id
      → IsTree cmp t.pages h t.root_page_id none none
      → h < n
      → find_leaf cmp n t.pages t.root_page_id key false ≡ some l
      → t.pages l ≡ leaf p
      → (Leaf.key_index cmp p key == 0 && not (is_root_page p.header)) ≡ false
      → get_min_size p.header < p.size
      → (t' : Tree K V) × (remove cmp n t key ≡ some t')
        × ((r : K)
            → get_value cmp n t' r
              ≡ (if is_equal (cmp key r) then some none else get_value cmp n t r))
  get_value-remove l p ne tree lt found there stays room =
      let (l', p', found', there', up', same) =
        find_leaf_lem cmp laws t.pages n h t.root_page_id none none key tree lt in
      let at : l' ≡ l = some_inj (sym found' ∙ found) in
      let page : p' ≡ p = leaf_inj p' p (sym there' ∙ ap t.pages at ∙ there) in
      let up : Leaf.Search.IsSorted cmp p = subst (Leaf.Search.IsSorted cmp) page up' in
      let q = (Leaf.remove_and_delete_record cmp p key).0 in
      (
        record t { pages = write_node t.pages l (leaf q) },
        remove_lem l p ne found there stays room,
        get_value-write_node cmp laws t n h key l p q none ne tree lt found there
            (λ r. lookup-remove_and_delete_record cmp laws p key r up),
      )
