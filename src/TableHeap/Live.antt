-- ===== src/TableHeap/Live.antt =====
-- The rows of the pages of a table heap, against the scans of a page that TableIterator of
-- minisql/src/storage/table_iterator.cpp uses.
use zju_database_system.Prelude.{
  ℕ, zero, suc, ◌+◌, ◌-◌, ◌^◌, ◌<◌, ◌≡◌, refl, ap, ◌∙◌, ◌⊎◌, inl, inr, none, some, Option, List, [],
  ◌∷◌, ◌++◌, arith, Option-cases, true, false,
}
use zju_database_system.Memory.{Memory}
use zju_database_system.Records.{TypeId, Field}
use zju_database_system.TablePage
use zju_database_system.TablePage.{
  RowId, read_tuple, get_next_page_id, get_table_page_id, get_tuple_count, get_tuple_size,
  is_deleted, find_tuple, found_rid, get_first_tuple_rid, get_next_tuple_rid,
}
use zju_database_system.TableHeap.Chain.{AllValid}
use zju_database_system.TableHeap.{Pages, TableIterator, invalid_row_id}

-- The rows of `n` slots of page `p` from slot `i` on, and of all slots of the pages, in order.
abbrev pub row_at : ℕ → ℕ → Option (List Field) → TableIterator
row_at p i row = record { row_id = record { page_id = p; slot_num = i }; row = row }

abbrev pub with_row :
    ℕ → ℕ → Option (List ℕ) → Option (List Field) → List TableIterator → List TableIterator
with_row p i none row rows = rows
with_row p i (some xs) row rows = row_at p i row ∷ rows

module _ (types : List TypeId) where
  abbrev pub live_from : ℕ → ℕ → ℕ → Memory → List TableIterator
  live_from p zero i m = []
  live_from p (suc n) i m =
      with_row p i (TablePage.get_tuple m i) (read_tuple types m i) (live_from p n (i + 1) m)

  abbrev pub live : Pages → List ℕ → List TableIterator
  live pages [] = []
  live pages (x ∷ xs) = live_from x (get_tuple_count (pages x)) 0 (pages x) ++ live pages xs

  -- Every tuple of the pages is one that DeserializeFrom reads with its size.
  abbrev pub IsReadable : Memory → Type 0
  IsReadable m =
      (i : ℕ) (xs : List ℕ)
      → TablePage.get_tuple m i ≡ some xs
      → (fields : List Field) × (read_tuple types m i ≡ some fields)

  abbrev pub AllReadable : Pages → List ℕ → Type 0
  AllReadable pages [] = Unit
  AllReadable pages (x ∷ xs) = IsReadable (pages x) × AllReadable pages xs

  -- The same of pages whose slot numbers do not wrap around.
  abbrev pub AllScannable : Pages → List ℕ → Type 0
  AllScannable pages [] = Unit
  AllScannable pages (x ∷ xs) =
      (IsReadable (pages x) × (get_tuple_count (pages x) < 2 ^ 32)) × AllScannable pages xs

  pub AllReadable-AllScannable :
      (pages : Pages) (xs : List ℕ)
      → AllValid pages xs
      → AllReadable pages xs
      → AllScannable pages xs
  AllReadable-AllScannable pages [] v r = tt
  AllReadable-AllScannable pages (x ∷ xs) (v, vs) (r, rs) =
      ((r, omega (arith, v.room, v.bounded)), AllReadable-AllScannable pages xs vs rs)

  -- The rows behind a slot of a page in front of the pages `xs`.
  abbrev pub after : Pages → ℕ → ℕ → List ℕ → List TableIterator
  after pages p i xs =
      live_from p (get_tuple_count (pages p) - (i + 1)) (i + 1) (pages p) ++ live pages xs

get_tuple-deleted :
    (m : Memory) (i : ℕ)
    → i < get_tuple_count m
    → TablePage.get_tuple m i ≡ none
    → is_deleted (get_tuple_size m i) ≡ true
unfolding TablePage.get_tuple
get_tuple-deleted m i lt h = ground arith

get_tuple-live :
    (m : Memory) (i : ℕ) (xs : List ℕ)
    → TablePage.get_tuple m i ≡ some xs
    → is_deleted (get_tuple_size m i) ≡ false
unfolding TablePage.get_tuple
get_tuple-live m i xs h = ground arith

find_tuple-live :
    (types : List TypeId) (p n i : ℕ) (m : Memory)
    → i + n ≡ get_tuple_count m
    → ((find_tuple n i m ≡ none) × (live_from types p n i m ≡ []))
      ⊎ ((j : ℕ) × (xs : List ℕ) × (find_tuple n i m ≡ some j)
          × (TablePage.get_tuple m j ≡ some xs)
          × (live_from types p n i m
              ≡ row_at p j (read_tuple types m j)
                ∷ live_from types p (get_tuple_count m - (j + 1)) (j + 1) m))
unfolding find_tuple
find_tuple-live types p zero i m h = inl (refl, refl)
find_tuple-live types p (suc n) i m h = elim (Option-cases (TablePage.get_tuple m i)) [
  | inl free ↦
      let dead = get_tuple-deleted m i (omega arith) free in
      let skip =
        ap (λ o. with_row p i o (read_tuple types m i) (live_from types p n (i + 1) m)) free in
      elim (find_tuple-live types p n (i + 1) m (omega arith)) [
        | inl (missing, empty) ↦ inl (rw dead missing, skip ∙ empty)
        | inr (j, xs, found, tuple, rows) ↦ inr (j, xs, rw dead found, tuple, skip ∙ rows)
      ]
  | inr (xs, tuple) ↦
      let alive = get_tuple-live m i xs tuple in
      let rounds : n ≡ get_tuple_count m - (i + 1) = omega arith in
      inr (
        i,
        xs,
        rw alive refl,
        tuple,
        ap (λ o. with_row p i o (read_tuple types m i) (live_from types p n (i + 1) m)) tuple
            ∙ ap (λ k. row_at p i (read_tuple types m i) ∷ live_from types p k (i + 1) m) rounds,
      )
]

-- What the scans of a page answer.
pub found_lem :
    (types : List TypeId) (p n i : ℕ) (m : Memory)
    → get_table_page_id m ≡ p
    → i + n ≡ get_tuple_count m
    → ((found_rid m (find_tuple n i m) ≡ (invalid_row_id, false)) × (live_from types p n i m ≡ []))
      ⊎ ((j : ℕ) × (xs : List ℕ) × (found_rid m (find_tuple n i m)
            ≡ (record { page_id = p; slot_num = j }, true))
          × (TablePage.get_tuple m j ≡ some xs)
          × (live_from types p n i m
              ≡ row_at p j (read_tuple types m j)
                ∷ live_from types p (get_tuple_count m - (j + 1)) (j + 1) m))
found_lem types p n i m own h = elim (find_tuple-live types p n i m h) [
  | inl (missing, empty) ↦ inl (ap (found_rid m) missing, empty)
  | inr (j, xs, found, tuple, rows) ↦ inr (
    j,
    xs,
    ap (found_rid m) found ∙ ap (λ q. (record { page_id = q; slot_num = j }, true)) own,
    tuple,
    rows,
  )
]
