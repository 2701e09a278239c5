-- ===== src/TableHeap/Tests.antt =====
-- Runs of the table heap of minisql/src/storage/table_heap.cpp.
use zju_database_system.Prelude.{
  ℕ, ◌+◌, ◌≤◌, ◌<◌, ◌≡◌, ◌≢◌, ◌⊎◌, none, some, Option, List, [], ◌∷◌, ◌++◌, length, refl, ap, ◌==◌,
  if◌then◌else◌, sym, ◌∙◌, arith, ◌>>=◌,
}
use zju_database_system.Memory.{Memory, reset_memory, invalid_page_id, page_size, get_u32, set_u32}
use zju_database_system.Arrays.Segments.{segment}
use zju_database_system.Records.{type_int, Field, integer, deserialize_row, deserialize_field}
use zju_database_system.TablePage
use zju_database_system.TablePage.{
  RowId, Serialized, init, claim, read_tuple, get_tuple_count, get_table_page_id, get_next_page_id,
  get_free_space_pointer,
}
use zju_database_system.TablePage.Claim.{claim-IsValid}
use zju_database_system.TablePage.Init.{init_lem}
use zju_database_system.TableHeap.{TableHeap, create, insert_tuple, tuple_bytes, visit, begin}
use zju_database_system.TableHeap.Chain.{IsHeap}
use zju_database_system.TableHeap.Insert.{IsIn}
use zju_database_system.TableHeap.Append.{insert_tuple-IsHeap, create-IsHeap}
use zju_database_system.TableHeap.Live.{live}
use zju_database_system.TableHeap.Scan.{visit-begin}

program : Unit {0}
unfolding TablePage.init TablePage.claim TablePage.get_tuple_count TablePage.get_tuple_size
    TablePage.get_free_space_pointer TablePage.get_table_page_id TablePage.get_next_page_id
    TablePage.set_free_space_pointer TablePage.set_tuple_count TablePage.set_tuple_offset
    TablePage.set_tuple_size TablePage.get_tuple_offset TablePage.serialize_to
    TablePage.set_prev_page_id TablePage.set_next_page_id TablePage.read_tuple deserialize_row
    deserialize_field get_u32 set_u32
program = tt

abbrev page_ids : List ℕ
page_ids = 7 ∷ []

abbrev heap : TableHeap
heap = create (λ p. reset_memory) 7 (type_int ∷ [])

abbrev row : Serialized
row = record { size = 3; bytes = λ i. 7 + i }

heap-IsHeap : IsHeap heap (7 ∷ [])
heap-IsHeap = (create-IsHeap (λ p. reset_memory) 7 (type_int ∷ []) (omega arith)).0

insert_tuple-IsHeap_example :
    (h' : TableHeap) × (ys : List ℕ) × (rid : Option RowId) × (insert_tuple
        (length page_ids + 1)
        9
        heap
        row
      ≡ some (h', rid))
    × IsHeap h' ys
    × ((ys ≡ 7 ∷ []) ⊎ (ys ≡ (7 ∷ []) ++ 9 ∷ []))
    × ((r : RowId) → IsIn r.page_id (7 ∷ []) → some r ≢ rid → tuple_bytes h' r ≡ tuple_bytes heap r)
    × ((r : RowId)
        → IsIn r.page_id ys
        → (IsIn r.page_id (7 ∷ []) → ⊥)
        → some r ≢ rid
        → tuple_bytes h' r ≡ none)
    × (((page_size < 24 + 8 + 3) × (rid ≡ none) × (ys ≡ (7 ∷ []) ++ 9 ∷ []))
        ⊎ ((r : RowId) × (24 + 8 + 3 ≤ page_size)
            × (rid ≡ some r)
            × IsIn r.page_id ys
            × (IsIn r.page_id (7 ∷ []) → tuple_bytes heap r ≡ none)
            × (tuple_bytes h' r ≡ some (segment row.bytes 0 3))))
insert_tuple-IsHeap_example =
    insert_tuple-IsHeap heap 7 [] 9 row heap-IsHeap (omega arith, tt) (omega arith) (omega arith)

-- A heap of one page with a row of one int, 1.
abbrev stored : Memory
stored =
    claim (init reset_memory 7 invalid_page_id) 0
      (record { size = 4; bytes = λ i. if i == 0 then 1 else 0 })

abbrev stored_heap : TableHeap
stored_heap = record { first_page_id = 7; pages = λ p. stored; schema = type_int ∷ [] }

stored_fields :
    (get_tuple_count stored ≡ 1)
    × (get_table_page_id stored ≡ 7)
    × (get_next_page_id stored ≡ invalid_page_id)
    × (read_tuple (type_int ∷ []) stored 0 ≡ some (integer 1 ∷ []))
unfolding program
stored_fields = (refl, refl, refl, refl)

init_fields_lem :
    (get_tuple_count (init reset_memory 7 invalid_page_id) ≡ 0)
    × (get_free_space_pointer (init reset_memory 7 invalid_page_id) ≡ 4096)
unfolding program
init_fields_lem = (refl, refl)

stored_heap-IsHeap : IsHeap stored_heap (7 ∷ [])
stored_heap-IsHeap = record {
  chain = (refl, omega arith, stored_fields.1, stored_fields.2);
  valid = (
    claim-IsValid (init reset_memory 7 invalid_page_id) 0
        (record { size = 4; bytes = λ i. if i == 0 then 1 else 0 })
        (init_lem reset_memory 7 invalid_page_id).0 (omega arith) (omega (arith, init_fields_lem))
        (omega arith),
    tt,
  );
  distinct = (tt, tt);
}

stored-IsReadable :
    (i : ℕ) (xs : List ℕ)
    → TablePage.get_tuple stored i ≡ some xs
    → (fields : List Field) × (read_tuple (type_int ∷ []) stored i ≡ some fields)
unfolding TablePage.get_tuple
stored-IsReadable i xs h =
    let count = stored_fields.0 in
    let first : 0 ≡ i = ground arith in
    (integer 1 ∷ [], ap (read_tuple (type_int ∷ []) stored) (sym first) ∙ stored_fields.3)

visit-begin_example :
    (let rows = live stored_heap.schema stored_heap.pages (7 ∷ []) in
      let visited =
        begin stored_heap >>= visit (length rows + 1) (length {A = ℕ} [] + 1) stored_heap in
      ((live stored_heap.schema stored_heap.pages (7 ∷ []) ≢ []) × (visited ≡ some rows))
      ⊎ ((live stored_heap.schema stored_heap.pages (7 ∷ []) ≡ []) × (visited ≡ some [])))
visit-begin_example = visit-begin stored_heap 7 [] stored_heap-IsHeap (stored-IsReadable, tt)
