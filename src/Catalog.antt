-- ===== src/Catalog.antt =====
-- The metadata pages of the catalog: CatalogMeta of minisql/src/catalog/catalog.cpp, TableMetadata of
-- table.cpp and IndexMetadata of indexes.cpp. A map is the list of its pairs in the order of the
-- keys, which is the order on the page, so that emplace appends; counts are below 2 ^ 31. A wrong
-- magic number is only logged.
pub mod Words
pub mod Pages
mod Tests
use zju_database_system.Prelude.{
  ℕ, zero, suc, ◌+◌, ◌*◌, Option, none, some, List, [], ◌∷◌, length, ◌>>=◌,
}
use zju_database_system.Memory.{Memory, get_u32, set_u32}
use zju_database_system.Arrays.Segments.{segment}
use zju_database_system.Records.{
  Column, write_bytes, until_zero, serialize_schema, deserialize_schema, schema_size,
}

abbrev pub catalog_metadata_magic_num : ℕ
catalog_metadata_magic_num = 89849

abbrev pub table_metadata_magic_num : ℕ
table_metadata_magic_num = 344528

abbrev pub index_metadata_magic_num : ℕ
index_metadata_magic_num = 344528

pub record CatalogMeta : Type 0 where
  pub table_meta_pages : List (ℕ × ℕ)
  pub index_meta_pages : List (ℕ × ℕ)

-- The loops over the pairs of a map and over the key map.
unfoldable pub write_pairs : Memory → ℕ → List (ℕ × ℕ) → Memory
write_pairs m a [] = m
write_pairs m a ((first, second) ∷ ps) =
    write_pairs (set_u32 (set_u32 m a first) (a + 4) second) (a + 8) ps

unfoldable pub read_pairs : ℕ → Memory → ℕ → List (ℕ × ℕ)
read_pairs zero m a = []
read_pairs (suc n) m a = (get_u32 m a, get_u32 m (a + 4)) ∷ read_pairs n m (a + 8)

unfoldable pub write_words : Memory → ℕ → List ℕ → Memory
write_words m a [] = m
write_words m a (x ∷ xs) = write_words (set_u32 m a x) (a + 4) xs

unfoldable pub read_words : ℕ → Memory → ℕ → List ℕ
read_words zero m a = []
read_words (suc n) m a = get_u32 m a ∷ read_words n m (a + 4)

unfoldable pub serialize_catalog : Memory → ℕ → CatalogMeta → Memory
serialize_catalog m a meta =
    let tables = length meta.table_meta_pages in
    let m1 = set_u32 (set_u32 m a catalog_metadata_magic_num) (a + 4) tables in
    let m2 = write_pairs m1 (a + 8) meta.table_meta_pages in
    let m3 = set_u32 m2 (a + 8 + 8 * tables) (length meta.index_meta_pages) in
    write_pairs m3 (a + 8 + 8 * tables + 4) meta.index_meta_pages

unfoldable pub deserialize_catalog : Memory → ℕ → CatalogMeta
deserialize_catalog m a =
    let tables = get_u32 m (a + 4) in
    let indexes = get_u32 m (a + 8 + 8 * tables) in
    record {
      table_meta_pages = read_pairs tables m (a + 8);
      index_meta_pages = read_pairs indexes m (a + 8 + 8 * tables + 4);
    }

unfoldable pub catalog_size : CatalogMeta → ℕ
catalog_size meta = 2 * 4 + 4 + 8 * length meta.table_meta_pages + 8 * length meta.index_meta_pages

pub record TableMetadata : Type 0 where
  pub table_id : ℕ
  pub table_name : List ℕ
  pub root_page_id : ℕ
  pub schema : List Column

unfoldable pub serialize_table : Memory → ℕ → TableMetadata → Memory × ℕ
serialize_table m a t =
    let n = length t.table_name in
    let m1 = set_u32 (set_u32 m a table_metadata_magic_num) (a + 4) t.table_id in
    let m2 = write_bytes (set_u32 m1 (a + 8) n) (a + 12) t.table_name in
    let m3 = set_u32 m2 (a + 12 + (n + 4)) t.root_page_id in
    let (m4, move) = serialize_schema m3 (a + 12 + (n + 4) + 4) t.schema in
    (m4, 12 + (n + 4) + 4 + move)

unfoldable pub deserialize_table : Memory → ℕ → Option (TableMetadata × ℕ)
deserialize_table m a = do
  let n = get_u32 m (a + 8)
  (schema, move) ← deserialize_schema m (a + 12 + (n + 4) + 4)
  let t : TableMetadata = record {
    table_id = get_u32 m (a + 4);
    table_name = until_zero (segment m (a + 12) n);
    root_page_id = get_u32 m (a + 12 + (n + 4));
    schema = schema;
  }
  some (t, 12 + (n + 4) + 4 + move)

unfoldable pub table_size : TableMetadata → ℕ
table_size t = 3 * 4 + (4 + length t.table_name) + 4 + schema_size t.schema

pub record IndexMetadata : Type 0 where
  pub index_id : ℕ
  pub index_name : List ℕ
  pub table_id : ℕ
  pub key_map : List ℕ

unfoldable pub serialize_index : Memory → ℕ → IndexMetadata → Memory × ℕ
serialize_index m a i =
    let n = length i.index_name in
    let k = length i.key_map in
    let m1 = set_u32 (set_u32 m a index_metadata_magic_num) (a + 4) i.index_id in
    let m2 = write_bytes (set_u32 m1 (a + 8) n) (a + 12) i.index_name in
    let m3 = set_u32 m2 (a + 12 + (n + 4)) i.table_id in
    let m4 = set_u32 m3 (a + 12 + (n + 4) + 4) k in
    (write_words m4 (a + 12 + (n + 4) + 8) i.key_map, 12 + (n + 4) + 8 + 4 * k)

unfoldable pub deserialize_index : Memory → ℕ → IndexMetadata × ℕ
deserialize_index m a =
    let n = get_u32 m (a + 8) in
    let k = get_u32 m (a + 12 + (n + 4) + 4) in
    (
      record {
        index_id = get_u32 m (a + 4);
        index_name = until_zero (segment m (a + 12) n);
        table_id = get_u32 m (a + 12 + (n + 4));
        key_map = read_words k m (a + 12 + (n + 4) + 8);
      },
      12 + (n + 4) + 8 + 4 * k,
    )

unfoldable pub index_size : IndexMetadata → ℕ
index_size i = 5 * 4 + (4 + length i.index_name) + 4 * length i.key_map
