-- ===== src/BPlusTree.antt =====
-- The pages of the B+ tree index: minisql/src/page/b_plus_tree_page.cpp, b_plus_tree_leaf_page.cpp
-- and b_plus_tree_internal_page.cpp with their headers.
pub mod Page
pub mod Keys
pub mod Generic
pub mod Leaf
pub mod Internal
pub mod Tree
