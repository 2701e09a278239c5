-- ===== src/Lib.antt =====
-- MiniSQL, a small relational database in C++ (minisql/src): a disk manager below a buffer
-- pool, B+ tree pages and table pages in the pool's pages, and a catalog and an executor above
-- them. This library models the storage layers, the records, the B+ tree index and the metadata
-- pages of the catalog.
--
-- The parts, from the disk upwards, and the files that model them:
--
--   * Memory: the 4096 bytes of a page as a function from offset to byte, with the 32-bit
--     little-endian accesses the source makes by reinterpret_cast and memcpy
--     (minisql/src/include/page/page.h).
--   * Bitmap: BitmapPage::AllocatePage, DeAllocatePage and IsPageFree
--     (minisql/src/page/bitmap_page.cpp), over those bytes. The loops are recursion on the
--     number of rounds left; MAX_CHARS is an argument.
--   * Disk: DiskManager (minisql/src/storage/disk_manager.cpp). The state is the meta page in
--     memory and the bytes and the size of the database file; each operation returns the next
--     state. `none` is a signed overflow of ReadPhysicalPage's int offset or a counter behind
--     the meta page.
--   * TablePage: TablePage (minisql/src/page/table_page.cpp), the slotted page, over the bytes
--     of a page with 32-bit wrap-around in every field; a row is the bytes that
--     Row::SerializeTo writes and GetSerializedSize. InsertTuple, MarkDelete, RollbackDelete,
--     ApplyDelete, UpdateTuple, GetTuple and the two scans are its operations. UpdateTuple and
--     GetTuple read the stored row by Row::DeserializeFrom of Records for the types of the
--     columns; get_tuple is the bytes that it reads from.
--   * TableHeap: TableHeap and TableIterator (minisql/src/storage/table_heap.cpp and
--     table_iterator.cpp) over the table pages. The pool is the bytes of its pages by id; the
--     id that NewPage gives is an argument. A loop along the pages has a number of rounds; one
--     round more than the heap has pages is enough, as the theorems on InsertTuple and the scan
--     show. A row is read by Row::DeserializeFrom of Records for the types of the columns, and
--     a tuple that it does not read with its size fails the assertion of GetTuple. FreeHeap is
--     left out: it deletes pages that it has pinned, and pins belong to the pool.
--   * Records: fields, rows, columns and schemas (minisql/src/record): what SerializeTo writes
--     into memory, what DeserializeFrom reads, and the comparisons of the types. `none` is a
--     failed assertion or an exception. The value of an int or a float is its 32 bits; a null
--     has no value. The static buffer of Type::GetData is an argument; the test of two floats
--     and the bytes behind the characters of a field, which strcpy reads, are parameters.
--     Records.Stored joins rows and table pages.
--   * Catalog: the metadata pages of the catalog, of tables and of indexes
--     (minisql/src/catalog/catalog.cpp, table.cpp and indexes.cpp), with the schemas of
--     Records. CatalogManager is not modelled.
--   * Replacer: LRUReplacer (minisql/src/buffer/lru_replacer.cpp), with its counter, list and
--     map; Replacer.Queue is its order of eviction.
--   * BufferPool: BufferPoolManager (minisql/src/buffer/buffer_pool_manager.cpp) over Disk and
--     Replacer: the frames, the page table and the free list. A Page pointer is a frame id; a
--     frame id that the source reads before it is set is `none`.
--   * IndexRoots: IndexRootsPage (minisql/src/page/index_roots_page.cpp); `none` is a pair that
--     is written behind the page.
--   * Arrays: arrays as functions, the loops that shift and copy entries, and the list of a
--     segment; the index pages share them.
--   * BPlusTree.Page, BPlusTree.Keys: the header that index pages share
--     (minisql/src/page/b_plus_tree_page.cpp), and what the pages use of a comparator, as laws
--     that BasicComparator fulfils.
--   * BPlusTree.Generic: GenericComparator (minisql/src/include/index/generic_key.h), over the
--     bytes of the keys.
--   * BPlusTree.Leaf: BPlusTreeLeafPage (minisql/src/page/b_plus_tree_leaf_page.cpp), every
--     operation. Search is recursion on fuel; size + 1 rounds are given and are enough, since
--     each round halves the range, which the theorems on lookups and insertions need and the
--     proofs establish.
--   * BPlusTree.Tree: BPlusTree (minisql/src/index/b_plus_tree.cpp), search, insertion with
--     splits and removal with coalescing and redistribution, and IndexIterator
--     (minisql/src/index/index_iterator.cpp), over the leaf and internal pages by id and the
--     index roots page. NewPage gives the ids of a list in turn. Recursion along the tree has a
--     number of rounds; one more than the height is enough, as the theorems on GetValue, Insert
--     and Remove show.
--   * BPlusTree.Internal: BPlusTreeInternalPage
--     (minisql/src/page/b_plus_tree_internal_page.cpp), every operation. FetchPage and
--     UnpinPage are used there only to set the parent id of a child, which is a map from page
--     ids to parent ids.
--
-- How they meet: BufferPool calls Replacer for a frame and Disk for the bytes; Disk calls
-- Bitmap on the bytes it reads from the file; the file's pages hold the pages of the other
-- parts. A failed assertion of the source is `none`. Numbers are natural numbers; 32-bit fields
-- in page bytes wrap around, and page ids are 32-bit patterns, so that INVALID_PAGE_ID is the
-- greatest. Entry counts of B+ tree pages are not bounded by the page here: the source keeps
-- them in its max_size, which the operations check.
--
-- Not modelled: latches and the recursive mutex (the source runs one thread), I/O errors of the
-- file stream, transactions (stubs), the generated lexer and parser, terminal I/O,
-- CatalogManager, the executor and the syntax tree. TableHeap and BPlusTree.Tree stand on a
-- pool that always has a free frame; they are not joined to BufferPool, whose frames can run
-- out.
pub mod Prelude
pub mod Memory
pub mod Bitmap
pub mod Arrays
pub mod BPlusTree
pub mod TablePage
pub mod TableHeap
pub mod Records
pub mod Catalog
pub mod IndexRoots
pub mod Replacer
pub mod Disk
pub mod BufferPool
