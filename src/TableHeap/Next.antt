-- ===== src/TableHeap/Next.antt =====
-- TableIterator::operator++ of minisql/src/storage/table_iterator.cpp.
use zju_database_system.Prelude.{
  ℕ, zero, suc, ◌+◌, ◌-◌, ◌%◌, ◌^◌, ◌≤◌, ◌<◌, ◌≡◌, ◌≢◌, refl, ap, ◌∙◌, ◌⊎◌, inl, inr, some, Option,
  List, [], ◌∷◌, ◌++◌, length, arith, ◌==◌, true, false,
}
use zju_database_system.Memory.{Memory, invalid_page_id}
use zju_database_system.Records.{TypeId, Field}
use zju_database_system.TablePage
use zju_database_system.TablePage.{
  RowId, read_tuple, get_next_page_id, get_table_page_id, get_tuple_count, get_tuple_size,
  is_deleted, find_tuple, found_rid, get_first_tuple_rid, get_next_tuple_rid,
}
use zju_database_system.TableHeap.{
  Pages, TableHeap, TableIterator, invalid_row_id, read_row, next_from, next,
}
use zju_database_system.TableHeap.Chain.{Chain}
use zju_database_system.TableHeap.Live.{IsReadable, AllScannable, live, row_at, after, found_lem}

module _ (n : ℕ) (pages : Pages) (p : ℕ) (rid : RowId) (x : ℕ)
    (here : get_next_page_id (pages p) ≡ x) where
  next_from-end : x ≡ invalid_page_id → next_from (suc n) pages p rid ≡ some (p, rid)
  unfolding next_from
  next_from-end e =
      let at_end : (x == invalid_page_id) ≡ true = ground arith in rw (here, at_end) refl

  next_from-found :
      (r : RowId)
      → x ≢ invalid_page_id
      → get_first_tuple_rid (pages x) ≡ (r, true)
      → next_from (suc n) pages p rid ≡ some (x, r)
  unfolding next_from
  next_from-found r fine found =
      let inside : (x == invalid_page_id) ≡ false = ground arith in rw (here, inside, found) refl

  next_from-missing :
      (r : RowId)
      → x ≢ invalid_page_id
      → get_first_tuple_rid (pages x) ≡ (r, false)
      → next_from (suc n) pages p rid ≡ next_from n pages x r
  unfolding next_from
  next_from-missing r fine missing =
      let inside : (x == invalid_page_id) ≡ false = ground arith in rw (here, inside, missing) refl

-- The loop along the pages behind one without a tuple.
next_from_lem :
    (types : List TypeId) (n : ℕ) (pages : Pages) (p : ℕ) (xs : List ℕ)
    → Chain pages (get_next_page_id (pages p)) xs
    → AllScannable types pages xs
    → length xs < n
    → ((live types pages xs ≡ [])
        × ((q : ℕ) × (next_from n pages p invalid_row_id ≡ some (q, invalid_row_id))))
      ⊎ ((q j : ℕ) × (bytes ys : List ℕ) × (next_from n pages p invalid_row_id
            ≡ some (q, record { page_id = q; slot_num = j }))
          × (TablePage.get_tuple (pages q) j ≡ some bytes)
          × (live types pages xs
              ≡ row_at q j (read_tuple types (pages q) j) ∷ after types pages q j ys)
          × Chain pages q (q ∷ ys)
          × AllScannable types pages (q ∷ ys)
          × (length ys < length xs))
unfolding get_first_tuple_rid
next_from_lem types zero pages p xs c ok lt = absurd (omega arith)
next_from_lem types (suc n) pages p [] c ok lt =
    inl (refl, (p, next_from-end n pages p invalid_row_id invalid_page_id c refl))
next_from_lem types (suc n) pages p (x ∷ xs) (here, fine, own, rest) (ok, oks) lt =
    let m = pages x in
    elim (found_lem types x (get_tuple_count m) 0 m own (omega arith)) [
      | inl (missing, empty) ↦
          let step =
            next_from-missing n pages p invalid_row_id x here invalid_row_id fine missing in
          let behind = ap (λ l. l ++ live types pages xs) empty in
          elim (next_from_lem types n pages x xs rest oks (omega arith)) [
            | inl (none_left, (q, ended)) ↦ inl (behind ∙ none_left, (q, step ∙ ended))
            | inr (q, j, bytes, ys, ended, tuple, rows, chain, all, shorter) ↦
                inr (q, j, bytes, ys, step ∙ ended, tuple, behind ∙ rows, chain, all, omega arith)
          ]
      | inr (j, bytes, found, tuple, rows) ↦ inr (
        x,
        j,
        bytes,
        xs,
        next_from-found n pages p invalid_row_id x here (record { page_id = x; slot_num = j }) fine
            found,
        tuple,
        ap (λ l. l ++ live types pages xs) rows,
        (refl, fine, own, rest),
        (ok, oks),
        omega arith,
      )
    ]

module _ (n : ℕ) (h : TableHeap) (rid : RowId) (row : Option (List Field)) (r : RowId) where
  next-same :
      (row' : Option (List Field))
      → get_next_tuple_rid (h.pages rid.page_id) rid ≡ some (r, true)
      → read_row h.schema (h.pages rid.page_id) r row ≡ some row'
      → next n h (record { row_id = rid; row = row }) ≡ some (record { row_id = r; row = row' })
  unfolding next
  next-same row' found read = rw (found, read) refl

  next-later :
      (q : ℕ) (r' : RowId) (row' : Option (List Field))
      → get_next_tuple_rid (h.pages rid.page_id) rid ≡ some (r, false)
      → next_from n h.pages rid.page_id r ≡ some (q, r')
      → read_row h.schema (h.pages q) r' row ≡ some row'
      → next n h (record { row_id = rid; row = row }) ≡ some (record { row_id = r'; row = row' })
  unfolding next
  next-later q r' row' missing ended read = rw (missing, ended, read) refl

own_page :
    (m : Memory) (p i : ℕ)
    → get_table_page_id m ≡ p
    → i < get_tuple_count m
    → get_tuple_count m < 2 ^ 32
    → get_next_tuple_rid m (record { page_id = p; slot_num = i })
      ≡ some (found_rid m (find_tuple (get_tuple_count m - (i + 1)) (i + 1) m))
unfolding get_next_tuple_rid
own_page m p i own within few =
    let same : (p == get_table_page_id m) ≡ true = ground arith in
    let exact : (i + 1) % 2 ^ 32 ≡ i + 1 = omega arith in rw (same, exact) refl

pub read_row-some :
    (types : List TypeId) (m : Memory) (p j : ℕ) (row : Option (List Field)) (bytes : List ℕ)
    → IsReadable types m
    → p ≢ invalid_page_id
    → TablePage.get_tuple m j ≡ some bytes
    → read_row types m (record { page_id = p; slot_num = j }) row ≡ some (read_tuple types m j)
unfolding read_row
read_row-some types m p j row bytes ok fine tuple =
    let valid : (p == invalid_page_id) ≡ false = ground arith in
    let (fields, read) = ok j bytes tuple in rw (valid, tuple, read) refl

pub read_row-invalid :
    (types : List TypeId) (m : Memory) (row : Option (List Field))
    → read_row types m invalid_row_id row ≡ some row
unfolding read_row
read_row-invalid types m row = refl

-- operator++ from the row of a slot of the first of the pages: to the next row, with its fields, or,
-- where there is none, to the invalid row id.
pub next_lem :
    (n : ℕ) (h : TableHeap) (p i : ℕ) (row : Option (List Field)) (xs : List ℕ)
    → Chain h.pages p (p ∷ xs)
    → AllScannable h.schema h.pages (p ∷ xs)
    → i < get_tuple_count (h.pages p)
    → length xs < n
    → ((it : TableIterator) × (after h.schema h.pages p i xs ≡ [])
        × (next n h (record { row_id = record { page_id = p; slot_num = i }; row = row }) ≡ some it)
        × (it.row_id ≡ invalid_row_id))
      ⊎ ((q j : ℕ) × (bytes ys : List ℕ) × (next n h
              (record { row_id = record { page_id = p; slot_num = i }; row = row })
            ≡ some (row_at q j (read_tuple h.schema (h.pages q) j)))
          × (TablePage.get_tuple (h.pages q) j ≡ some bytes)
          × (after h.schema h.pages p i xs
              ≡ row_at q j (read_tuple h.schema (h.pages q) j) ∷ after h.schema h.pages q j ys)
          × Chain h.pages q (q ∷ ys)
          × AllScannable h.schema h.pages (q ∷ ys)
          × (length ys ≤ length xs))
next_lem n h p i row xs (here, fine, own, rest) (ok, oks) within lt =
    let m = h.pages p in
    let cur : RowId = record { page_id = p; slot_num = i } in
    let asked = own_page m p i own within ok.1 in
    elim (found_lem h.schema p (get_tuple_count m - (i + 1)) (i + 1) m own (omega arith)) [
      | inl (missing, empty) ↦
          let behind = ap (λ l. l ++ live h.schema h.pages xs) empty in
          let first = asked ∙ ap some missing in
          elim (next_from_lem h.schema n h.pages p xs rest oks lt) [
            | inl (none_left, (q, ended)) ↦ inl (
              record { row_id = invalid_row_id; row = row },
              behind ∙ none_left,
              next-later n h cur row invalid_row_id q invalid_row_id row first ended
                  (read_row-invalid h.schema (h.pages q) row),
              refl,
            )
            | inr (q, j, bytes, ys, ended, tuple, rows, chain, all, shorter) ↦
                let r : RowId = record { page_id = q; slot_num = j } in
                inr (
                  q,
                  j,
                  bytes,
                  ys,
                  next-later n h cur row invalid_row_id q r (read_tuple h.schema (h.pages q) j)
                      first ended
                      (read_row-some h.schema (h.pages q) q j row bytes all.0.0 chain.1 tuple),
                  tuple,
                  behind ∙ rows,
                  chain,
                  all,
                  omega arith,
                )
          ]
      | inr (j, bytes, found, tuple, rows) ↦
          let r : RowId = record { page_id = p; slot_num = j } in
          inr (
            p,
            j,
            bytes,
            xs,
            next-same n h cur row r (read_tuple h.schema m j) (asked ∙ ap some found)
                (read_row-some h.schema m p j row bytes ok.0 fine tuple),
            tuple,
            ap (λ l. l ++ live h.schema h.pages xs) rows,
            (refl, fine, own, rest),
            (ok, oks),
            omega arith,
          )
    ]
