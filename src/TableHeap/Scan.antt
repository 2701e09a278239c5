-- ===== src/TableHeap/Scan.antt =====
-- TableHeap::Begin of minisql/src/storage/table_heap.cpp and the loop from it to End.
use zju_database_system.Prelude.{
  ℕ, zero, suc, ◌+◌, ◌<◌, ◌≡◌, ◌≢◌, refl, sym, ap, ◌∙◌, ◌⊎◌, inl, inr, none, some, Option, List, [],
  ◌∷◌, ◌++◌, length, arith, ◌==◌, true, false, Bool, ◌>>=◌,
}
use zju_database_system.Memory.{Memory, invalid_page_id}
use zju_database_system.Records.{Field}
use zju_database_system.TablePage
use zju_database_system.TablePage.{
  RowId, read_tuple, get_next_page_id, get_table_page_id, get_tuple_count, get_tuple_size,
  is_deleted, find_tuple, found_rid, get_first_tuple_rid, get_next_tuple_rid,
}
use zju_database_system.TableHeap.{
  TableHeap, TableIterator, invalid_row_id, read_row, begin, next, next_post, visit,
}
use zju_database_system.TableHeap.Chain.{Chain, IsHeap}
use zju_database_system.TableHeap.Live.{
  AllReadable, AllScannable, AllReadable-AllScannable, live, row_at, after, found_lem,
}
use zju_database_system.TableHeap.Next.{next_lem, read_row-some, read_row-invalid}

get_tuple-within :
    (m : Memory) (i : ℕ) (xs : List ℕ) → TablePage.get_tuple m i ≡ some xs → i < get_tuple_count m
unfolding TablePage.get_tuple
get_tuple-within m i xs h = ground arith

module _ (n rounds : ℕ) (h : TableHeap) where
  visit-end :
      (it : TableIterator) → it.row_id ≡ invalid_row_id → visit (suc n) rounds h it ≡ some []
  unfolding visit
  visit-end it e =
      let page = ap (λ (r : RowId). r.page_id) e in
      let slot = ap (λ (r : RowId). r.slot_num) e in rw (page, slot) refl

  visit-next :
      (p i : ℕ) (row : Option (List Field)) (it : TableIterator) (rows : List TableIterator)
      → p ≢ invalid_page_id
      → next rounds h (record { row_id = record { page_id = p; slot_num = i }; row = row })
        ≡ some it
      → visit n rounds h it ≡ some rows
      → visit (suc n) rounds h (record { row_id = record { page_id = p; slot_num = i }; row = row })
        ≡ some (record { row_id = record { page_id = p; slot_num = i }; row = row } ∷ rows)
  unfolding visit next_post
  visit-next p i row it rows fine moved rest =
      let valid : (p == invalid_page_id) ≡ false = ground arith in rw (valid, moved, rest) refl

visit-after :
    (n rounds : ℕ) (h : TableHeap) (p i : ℕ) (bytes xs : List ℕ)
    → Chain h.pages p (p ∷ xs)
    → AllScannable h.schema h.pages (p ∷ xs)
    → TablePage.get_tuple (h.pages p) i ≡ some bytes
    → length (after h.schema h.pages p i xs) + 1 < n
    → length xs < rounds
    → visit n rounds h (row_at p i (read_tuple h.schema (h.pages p) i))
      ≡ some (row_at p i (read_tuple h.schema (h.pages p) i) ∷ after h.schema h.pages p i xs)
visit-after zero rounds h p i bytes xs c ok tuple lt enough = absurd (omega arith)
visit-after (suc zero) rounds h p i bytes xs c ok tuple lt enough = absurd (omega arith)
visit-after (suc (suc n)) rounds h p i bytes xs c ok tuple lt enough =
    elim (next_lem rounds h p i (read_tuple h.schema (h.pages p) i) xs c ok
      (get_tuple-within (h.pages p) i bytes tuple) enough) [
        | inl (it, last, moved, at_end) ↦
            visit-next (suc n) rounds h p i (read_tuple h.schema (h.pages p) i) it [] c.1 moved
              (visit-end n rounds h it at_end)
            ∙ ap (λ l. some (row_at p i (read_tuple h.schema (h.pages p) i) ∷ l)) (sym last)
        | inr (q, j, bytes', ys, moved, tuple', rows, chain, all, shorter) ↦
            let count = ap length rows in
            let shorter' : length (after h.schema h.pages q j ys) + 1 < suc n =
              omega (arith, count) in
            let rest =
              visit-after (suc n) rounds h q j bytes' ys chain all tuple' shorter' (omega arith) in
            visit-next (suc n) rounds h p i (read_tuple h.schema (h.pages p) i)
              (row_at q j (read_tuple h.schema (h.pages q) j))
              (row_at q j (read_tuple h.schema (h.pages q) j) ∷ after h.schema h.pages q j ys) c.1
              moved rest
            ∙ ap (λ l. some (row_at p i (read_tuple h.schema (h.pages p) i) ∷ l)) (sym rows)
      ]

row-ne : {it : TableIterator} {rows : List TableIterator} → it ∷ rows ≢ []
row-ne e = cc

begin_lem :
    (h : TableHeap) (x : ℕ) (r : RowId) (b : Bool) (row : Option (List Field))
    → h.first_page_id ≡ x
    → get_first_tuple_rid (h.pages x) ≡ (r, b)
    → read_row h.schema (h.pages x) r none ≡ some row
    → begin h ≡ some (record { row_id = r; row = row })
unfolding begin
begin_lem h x r b row first found read = rw (first, found, read) refl

-- The loop from Begin to End, in one round more than there are rows and with one round of operator++(int)
-- for each page, ends, on a heap whose tuples DeserializeFrom reads with their sizes. Where the first
-- page has a row, it visits every row of every page once, in the order of the pages and of their
-- slots, with its fields; where the first page has none, it visits nothing, whatever the other pages
-- have.
pub visit-begin :
    (h : TableHeap) (x : ℕ) (xs : List ℕ)
    → IsHeap h (x ∷ xs)
    → AllReadable h.schema h.pages (x ∷ xs)
    → (let rows = live h.schema h.pages (x ∷ xs) in
        let visited = begin h >>= visit (length rows + 1) (length xs + 1) h in
        ((live h.schema h.pages (x ∷ []) ≢ []) × (visited ≡ some rows))
        ⊎ ((live h.schema h.pages (x ∷ []) ≡ []) × (visited ≡ some [])))
unfolding get_first_tuple_rid
visit-begin h x xs ok readable =
    let m = h.pages x in
    let all_ok = AllReadable-AllScannable h.schema h.pages (x ∷ xs) ok.valid readable in
    let n = length (live h.schema h.pages (x ∷ xs)) in
    elim (found_lem h.schema x (get_tuple_count m) 0 m ok.chain.2 (omega arith)) [
      | inl (missing, empty) ↦
          let it : TableIterator = record { row_id = invalid_row_id; row = none } in
          let start =
            begin_lem h x invalid_row_id false none ok.chain.0 missing
              (read_row-invalid h.schema m none) in
          let rounds : n + 1 ≡ suc n = omega arith in
          inr (
            ap (λ (l : List TableIterator). l ++ []) empty,
            ap (λ o. o >>= visit (n + 1) (length xs + 1) h) start
                ∙ ap (λ k. visit k (length xs + 1) h it) rounds
                ∙ visit-end n (length xs + 1) h it refl,
          )
      | inr (j, bytes, found, tuple, rows) ↦
          let r : RowId = record { page_id = x; slot_num = j } in
          let row = read_tuple h.schema m j in
          let start =
            begin_lem h x r true row ok.chain.0 found
              (read_row-some h.schema m x j none bytes readable.0 ok.chain.1 tuple) in
          let all : live h.schema h.pages (x ∷ xs)
              ≡ row_at x j row ∷ after h.schema h.pages x j xs =
            ap (λ l. l ++ live h.schema h.pages xs) rows in
          let count = ap length all in
          inl (
            λ e. row-ne (sym (ap (λ (l : List TableIterator). l ++ []) rows) ∙ e),
            ap (λ o. o >>= visit (n + 1) (length xs + 1) h) start
                ∙ visit-after (n + 1) (length xs + 1) h x j bytes xs
                    (refl, ok.chain.1, ok.chain.2, ok.chain.3) all_ok tuple (omega (arith, count))
                    (omega arith)
                ∙ ap some (sym all),
          )
    ]
