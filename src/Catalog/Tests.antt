-- ===== src/Catalog/Tests.antt =====
-- Runs of the serialisation of minisql/src/catalog.
use zju_database_system.Prelude.{
  ℕ, ◌+◌, ◌≤◌, ◌<◌, ◌≡◌, refl, false, true, some, [], ◌∷◌, map, arith,
}
use zju_database_system.Memory.{Memory, reset_memory}
use zju_database_system.Records.{Column, type_int, until_zero}
use zju_database_system.Records.Fields.{Writes, Agrees}
use zju_database_system.Records.Columns.{IsColumn, with_default_len}
use zju_database_system.Catalog.{
  CatalogMeta, TableMetadata, IndexMetadata, serialize_catalog, deserialize_catalog, catalog_size,
  serialize_table, deserialize_table, table_size, serialize_index, deserialize_index, index_size,
}
use zju_database_system.Catalog.Pages.{
  serialize_catalog_lem, serialize_table_lem, serialize_index_lem,
}

abbrev meta : CatalogMeta
meta = record { table_meta_pages = (0, 2) ∷ (1, 5) ∷ []; index_meta_pages = (0, 7) ∷ [] }

serialize_catalog_lem_example :
    Writes reset_memory 0 (catalog_size meta) (serialize_catalog reset_memory 0 meta)
    × ((m' : Memory) (b : ℕ)
        → 0 ≤ b
        → b < 0 + catalog_size meta
        → serialize_catalog reset_memory 0 meta b ≡ serialize_catalog m' 0 meta b)
    × ((m' : Memory)
        → Agrees (serialize_catalog reset_memory 0 meta) 0 (catalog_size meta) m'
        → deserialize_catalog m' 0 ≡ meta)
serialize_catalog_lem_example =
    serialize_catalog_lem reset_memory 0 meta
      (omega arith, omega arith, (omega arith, omega arith, tt)) (omega arith, omega arith, tt)
      (omega arith) (omega arith)

abbrev id_column : Column
id_column = record {
  name = 105 ∷ 100 ∷ [];
  column_type = type_int;
  len = 4;
  table_ind = 0;
  nullable = false;
  unique = true;
}

id_column-IsColumn : IsColumn id_column
unfolding until_zero
id_column-IsColumn = record {
  name = refl;
  short = omega arith;
  index = omega arith;
  known = λ e. cc;
}

abbrev table : TableMetadata
table = record { table_id = 3; table_name = 116 ∷ []; root_page_id = 4; schema = id_column ∷ [] }

table_name : until_zero table.table_name ≡ table.table_name
unfolding until_zero
table_name = refl

serialize_table_lem_example :
    ((serialize_table reset_memory 0 table).1 ≡ table_size table)
    × Writes reset_memory 0 (table_size table) (serialize_table reset_memory 0 table).0
    × ((m' : Memory)
        → Agrees (serialize_table reset_memory 0 table).0 0 (table_size table) m'
        → deserialize_table m' 0
          ≡ some (record table { schema = map with_default_len table.schema }, table_size table))
serialize_table_lem_example =
    serialize_table_lem reset_memory 0 table (omega arith) (omega arith) table_name (omega arith)
      (id_column-IsColumn, tt) (omega arith)

abbrev index : IndexMetadata
index = record { index_id = 1; index_name = 116 ∷ []; table_id = 3; key_map = 0 ∷ 2 ∷ [] }

serialize_index_lem_example :
    ((serialize_index reset_memory 0 index).1 ≡ index_size index)
    × Writes reset_memory 0 (index_size index) (serialize_index reset_memory 0 index).0
    × ((m' : Memory)
        → Agrees (serialize_index reset_memory 0 index).0 0 (index_size index) m'
        → deserialize_index m' 0 ≡ (index, index_size index))
serialize_index_lem_example =
    serialize_index_lem reset_memory 0 index (omega arith) (omega arith) table_name (omega arith)
      (omega arith, (omega arith, tt)) (omega arith)
