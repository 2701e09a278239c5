-- ===== src/Catalog/Pages.antt =====
-- SerializeTo, GetSerializedSize and DeserializeFrom of the metadata of minisql/src/catalog.
use zju_database_system.Prelude.{
  ℕ, ◌+◌, ◌*◌, ◌^◌, ◌≤◌, ◌<◌, ◌≡◌, refl, ap, ◌∙◌, inl, some, List, length, map, arith,
}
use zju_database_system.Memory.{
  Memory, get_u32, set_u32, set_u32_outside, get_u32-set_u32, get_u32_of_eq,
}
use zju_database_system.Arrays.Segments.{segment, segment_ext}
use zju_database_system.Records.{write_bytes, until_zero, schema_size}
use zju_database_system.Records.Fields.{
  Writes, Agrees, Agrees-get_u32, Agrees-segment, write_bytes-Writes, segment-write_bytes,
}
use zju_database_system.Records.Columns.{with_default_len}
use zju_database_system.Records.Schemas.{AllColumns, serialize_schema_lem}
use zju_database_system.Catalog.{
  CatalogMeta, TableMetadata, IndexMetadata, catalog_metadata_magic_num, table_metadata_magic_num,
  index_metadata_magic_num, write_pairs, read_pairs, write_words, serialize_catalog,
  deserialize_catalog, catalog_size, serialize_table, deserialize_table, table_size,
  serialize_index, deserialize_index, index_size,
}
use zju_database_system.Catalog.Words.{
  AllWords, AllPairs, write_words-Writes, read_words-write_words, write_pairs-Writes,
  read_pairs-write_pairs, set_u32_prefix, write_pairs_prefix,
}

-- SerializeTo of the metadata of the catalog changes no byte outside the range of GetSerializedSize
-- bytes and writes every byte of it: what the range has afterwards does not depend on the memory
-- before. DeserializeFrom reads the metadata back from every memory with these bytes. The ids are
-- 32-bit words and the maps have fewer than 2 ^ 31 pairs.
pub serialize_catalog_lem :
    (m : Memory) (a : ℕ) (meta : CatalogMeta)
    → AllPairs meta.table_meta_pages
    → AllPairs meta.index_meta_pages
    → length meta.table_meta_pages < 2 ^ 31
    → length meta.index_meta_pages < 2 ^ 31
    → Writes m a (catalog_size meta) (serialize_catalog m a meta)
      × ((m' : Memory) (b : ℕ)
          → a ≤ b
          → b < a + catalog_size meta
          → serialize_catalog m a meta b ≡ serialize_catalog m' a meta b)
      × ((m' : Memory)
          → Agrees (serialize_catalog m a meta) a (catalog_size meta) m'
          → deserialize_catalog m' a ≡ meta)
unfolding serialize_catalog deserialize_catalog catalog_size
serialize_catalog_lem m a meta ok_t ok_i few_t few_i =
    let ts = meta.table_meta_pages in
    let is = meta.index_meta_pages in
    let k = length ts in
    let j = length is in
    let size = 2 * 4 + 4 + 8 * k + 8 * j in
    let m0 = set_u32 m a catalog_metadata_magic_num in
    let m1 = set_u32 m0 (a + 4) k in
    let m2 = write_pairs m1 (a + 8) ts in
    let m3 = set_u32 m2 (a + 8 + 8 * k) j in
    let m4 = write_pairs m3 (a + 8 + 8 * k + 4) is in
    let to4 = write_pairs-Writes m3 (a + 8 + 8 * k + 4) is in
    let to3 = set_u32_outside m2 (a + 8 + 8 * k) j in
    let to2 = write_pairs-Writes m1 (a + 8) ts in
    (
      λ b out.
          to4 b (ground arith)
          ∙ to3 b (ground arith)
          ∙ to2 b (ground arith)
          ∙ set_u32_outside m0 (a + 4) k b (ground arith)
          ∙ set_u32_outside m a catalog_metadata_magic_num b (ground arith),
      λ m' b lo hi.
          let n0 = set_u32 m' a catalog_metadata_magic_num in
          let n1 = set_u32 n0 (a + 4) k in
          let n2 = write_pairs n1 (a + 8) ts in
          let n3 = set_u32 n2 (a + 8 + 8 * k) j in
          write_pairs_prefix m3 n3 (a + 8 + 8 * k + 4) is b
            (λ l3.
              set_u32_prefix m2 n2 (a + 8 + 8 * k) j b
                (λ l2.
                  write_pairs_prefix m1 n1 (a + 8) ts b
                    (λ l1.
                      set_u32_prefix m0 n0 (a + 4) k b
                        (λ l0.
                          set_u32_prefix m m' a catalog_metadata_magic_num b
                            (λ l. absurd (omega arith)) l0)
                        (omega arith))
                    l2)
                (omega arith))
            (omega arith),
      λ m' same.
          let tables : get_u32 m' (a + 4) ≡ k =
            Agrees-get_u32 m4 m' a size (a + 4) (omega arith) (omega arith) same
            ∙ get_u32_of_eq m4 m1 (a + 4) (λ b lo hi.
              to4 b (inl (omega arith)) ∙ to3 b (inl (omega arith)) ∙ to2 b (inl (omega arith)))
            ∙ get_u32-set_u32 m0 (a + 4) k (omega arith) in
          let indexes : get_u32 m' (a + 8 + 8 * k) ≡ j =
            Agrees-get_u32 m4 m' a size (a + 8 + 8 * k) (omega arith) (omega arith) same
            ∙ get_u32_of_eq m4 m3 (a + 8 + 8 * k) (λ b lo hi. to4 b (inl (omega arith)))
            ∙ get_u32-set_u32 m2 (a + 8 + 8 * k) j (omega arith) in
          let first : read_pairs k m' (a + 8) ≡ ts =
            read_pairs-write_pairs m1 m' (a + 8) ts ok_t (λ b lo hi.
              same b (omega arith) (omega arith)
              ∙ to4 b (inl (omega arith))
              ∙ to3 b (inl (omega arith))) in
          let second : read_pairs j m' (a + 8 + 8 * k + 4) ≡ is =
            read_pairs-write_pairs m3 m' (a + 8 + 8 * k + 4) is ok_i
              (λ b lo hi. same b (omega arith) (omega arith)) in
          rw (tables, indexes, first, second) refl,
    )

-- The table and index metadata up to their variable tails: two words, a name and a word.
module _ (m : Memory) (a magic id : ℕ) (name : List ℕ) (word : ℕ) where
  abbrev with_words : Memory
  with_words = set_u32 (set_u32 (set_u32 m a magic) (a + 4) id) (a + 8) (length name)

  abbrev with_name : Memory
  with_name = write_bytes with_words (a + 12) name

  abbrev with_head : Memory
  with_head = set_u32 with_name (a + 12 + (length name + 4)) word

  with_head-Writes : Writes m a (12 + (length name + 4) + 4) with_head
  with_head-Writes b out =
      set_u32_outside with_name (a + 12 + (length name + 4)) word b (ground arith)
      ∙ write_bytes-Writes with_words (a + 12) name b (ground arith)
      ∙ set_u32_outside (set_u32 (set_u32 m a magic) (a + 4) id) (a + 8) (length name) b
          (ground arith)
      ∙ set_u32_outside (set_u32 m a magic) (a + 4) id b (ground arith)
      ∙ set_u32_outside m a magic b (ground arith)

  with_head_lem :
      (m' : Memory)
      → id < 2 ^ 32
      → length name < 2 ^ 32
      → word < 2 ^ 32
      → until_zero name ≡ name
      → Agrees with_head a (12 + (length name + 4) + 4) m'
      → (get_u32 m' (a + 4) ≡ id)
        × (get_u32 m' (a + 8) ≡ length name)
        × (until_zero (segment m' (a + 12) (length name)) ≡ name)
        × (get_u32 m' (a + 12 + (length name + 4)) ≡ word)
  with_head_lem m' small_id short small_word whole same =
      let n = length name in
      let size = 12 + (n + 4) + 4 in
      let m1 = set_u32 m a magic in
      let m2 = set_u32 m1 (a + 4) id in
      let front : (b : ℕ) → b < a + 12 → with_head b ≡ with_words b = λ b lt.
        set_u32_outside with_name (a + 12 + (n + 4)) word b (inl (omega arith))
        ∙ write_bytes-Writes with_words (a + 12) name b (inl lt) in
      (
        Agrees-get_u32 with_head m' a size (a + 4) (omega arith) (omega arith) same
            ∙ get_u32_of_eq with_head m2 (a + 4) (λ b lo hi.
              front b (omega arith) ∙ set_u32_outside m2 (a + 8) n b (inl (omega arith)))
            ∙ get_u32-set_u32 m1 (a + 4) id small_id,
        Agrees-get_u32 with_head m' a size (a + 8) (omega arith) (omega arith) same
            ∙ get_u32_of_eq with_head with_words (a + 8) (λ b lo hi. front b (omega arith))
            ∙ get_u32-set_u32 m2 (a + 8) n short,
        ap until_zero (
              Agrees-segment with_head m' a size (a + 12) n (omega arith) (omega arith) same
              ∙ segment_ext with_head with_name (a + 12) (a + 12) n (λ j lt.
                set_u32_outside with_name (a + 12 + (n + 4)) word (a + 12 + j) (inl (omega arith)))
              ∙ segment-write_bytes with_words (a + 12) name)
            ∙ whole,
        Agrees-get_u32 with_head m' a size (a + 12 + (n + 4)) (omega arith) (omega arith) same
            ∙ get_u32-set_u32 with_name (a + 12 + (n + 4)) word small_word,
      )

-- The metadata of a table take the bytes that GetSerializedSize says and no others, and
-- DeserializeFrom reads them back from every memory with these bytes, but for the lengths of the
-- columns.
pub serialize_table_lem :
    (m : Memory) (a : ℕ) (t : TableMetadata)
    → t.table_id < 2 ^ 32
    → length t.table_name < 2 ^ 32
    → until_zero t.table_name ≡ t.table_name
    → t.root_page_id < 2 ^ 32
    → AllColumns t.schema
    → length t.schema < 2 ^ 32
    → ((serialize_table m a t).1 ≡ table_size t)
      × Writes m a (table_size t) (serialize_table m a t).0
      × ((m' : Memory)
          → Agrees (serialize_table m a t).0 a (table_size t) m'
          → deserialize_table m' a
            ≡ some (record t { schema = map with_default_len t.schema }, table_size t))
unfolding serialize_table deserialize_table table_size
serialize_table_lem m a t small_id short whole small_root ok few =
    let n = length t.table_name in
    let tail = a + 12 + (n + 4) + 4 in
    let head = with_head m a table_metadata_magic_num t.table_id t.table_name t.root_page_id in
    let head_out =
      with_head-Writes m a table_metadata_magic_num t.table_id t.table_name t.root_page_id in
    let (size, outside, read) = serialize_schema_lem head tail t.schema ok few in
    let total : 3 * 4 + (4 + n) + 4 + schema_size t.schema
        ≡ 12 + (n + 4) + 4 + schema_size t.schema =
      omega arith in
    (
      omega (arith, size),
      λ b out. outside b (ground arith) ∙ head_out b (ground arith),
      λ m' same.
          let (id, count, name, root) =
            with_head_lem m a table_metadata_magic_num t.table_id t.table_name t.root_page_id m'
              small_id short small_root whole
              (λ b lo hi. same b lo (omega arith) ∙ outside b (inl (omega arith))) in
          let rest = read m' (λ b lo hi. same b (omega arith) (omega arith)) in
          rw (count, id, name, root, rest, total) refl,
    )

-- The metadata of an index take the bytes that GetSerializedSize says and no others, and
-- DeserializeFrom reads them back from every memory with these bytes.
pub serialize_index_lem :
    (m : Memory) (a : ℕ) (i : IndexMetadata)
    → i.index_id < 2 ^ 32
    → length i.index_name < 2 ^ 32
    → until_zero i.index_name ≡ i.index_name
    → i.table_id < 2 ^ 32
    → AllWords i.key_map
    → length i.key_map < 2 ^ 32
    → ((serialize_index m a i).1 ≡ index_size i)
      × Writes m a (index_size i) (serialize_index m a i).0
      × ((m' : Memory)
          → Agrees (serialize_index m a i).0 a (index_size i) m'
          → deserialize_index m' a ≡ (i, index_size i))
unfolding serialize_index deserialize_index index_size
serialize_index_lem m a i small_id short whole small_table ok few =
    let n = length i.index_name in
    let k = length i.key_map in
    let place = a + 12 + (n + 4) + 4 in
    let tail = a + 12 + (n + 4) + 8 in
    let head = with_head m a index_metadata_magic_num i.index_id i.index_name i.table_id in
    let head_out =
      with_head-Writes m a index_metadata_magic_num i.index_id i.index_name i.table_id in
    let counted = set_u32 head place k in
    let outside = write_words-Writes counted tail i.key_map in
    let written = write_words counted tail i.key_map in
    let total : 5 * 4 + (4 + n) + 4 * k ≡ 12 + (n + 4) + 8 + 4 * k = omega arith in
    (
      omega arith,
      λ b out.
          outside b (ground arith)
          ∙ set_u32_outside head place k b (ground arith)
          ∙ head_out b (ground arith),
      λ m' same.
          let (id, count, name, table) =
            with_head_lem m a index_metadata_magic_num i.index_id i.index_name i.table_id m'
              small_id short small_table whole
              (λ b lo hi.
                same b lo (omega arith)
                ∙ outside b (inl (omega arith))
                ∙ set_u32_outside head place k b (inl (omega arith))) in
          let keys : get_u32 m' place ≡ k =
            Agrees-get_u32 written m' a (5 * 4 + (4 + n) + 4 * k) place (omega arith) (omega arith)
              same
            ∙ get_u32_of_eq written counted place (λ b lo hi. outside b (inl (omega arith)))
            ∙ get_u32-set_u32 head place k few in
          let rest =
            read_words-write_words counted m' tail i.key_map ok
              (λ b lo hi. same b (omega arith) (omega arith)) in
          rw (count, id, name, table, keys, rest, total) refl,
    )
