-- ===== src/TableHeap/Linked.antt =====
-- The pages of a table heap after InsertTuple of minisql/src/storage/table_heap.cpp has linked a new
-- page behind the last one.
use zju_database_system.Prelude.{
  ℕ, ◌<◌, ◌≡◌, ◌≢◌, sym, ap, ◌∙◌, subst, inl, inr, List, [], ◌∷◌, arith, ◌==◌, Bool-cases,
}
use zju_database_system.Memory.{Memory, reset_memory, invalid_page_id}
use zju_database_system.TablePage
use zju_database_system.TablePage.{
  RowId, Serialized, get_next_page_id, set_next_page_id, get_table_page_id, get_free_space_pointer,
  get_tuple_count,
}
use zju_database_system.TablePage.Layout.{IsValid}
use zju_database_system.TablePage.Links.{set_next_page_id_lem}
use zju_database_system.TableHeap.{Pages, write_page}
use zju_database_system.TableHeap.Chain.{NotIn, AllValid, write_page_self, write_page_ne}
use zju_database_system.TableHeap.Insert.{IsIn, NotIn-IsIn}

AllValid-IsIn :
    (pages : Pages) (xs : List ℕ) (q : ℕ) → AllValid pages xs → IsIn q xs → IsValid (pages q)
AllValid-IsIn pages [] q all h = absurd h
AllValid-IsIn pages (x ∷ xs) q (here, rest) (inl e) = subst (λ z. IsValid (pages z)) e here
AllValid-IsIn pages (x ∷ xs) q (here, rest) (inr h) = AllValid-IsIn pages xs q rest h

-- The pages after the new page has been linked behind page `l` and written.
module _ (pages : Pages) (xs : List ℕ) (l new : ℕ) (m : Memory) (all : AllValid pages xs)
    (there : IsIn l xs) (out : NotIn new xs) (lt : new < invalid_page_id) where
  abbrev pub with_empty : Pages
  with_empty = write_page pages new reset_memory

  abbrev pub with_link : Pages
  with_link = write_page with_empty l (set_next_page_id (with_empty l) new)

  abbrev pub with_new : Pages
  with_new = write_page with_link new m

  ne_new : (q : ℕ) → IsIn q xs → q ≢ new
  ne_new q i e = NotIn-IsIn new xs out (subst (λ z. IsIn z xs) e i)

  pub with_new-last : with_new l ≡ set_next_page_id (pages l) new
  with_new-last =
      let ne = ne_new l there in
      write_page_ne with_link new m l ne
      ∙ write_page_self with_empty l (set_next_page_id (with_empty l) new)
      ∙ ap (λ z. set_next_page_id z new) (write_page_ne pages new reset_memory l ne)

  pub with_new-other : (q : ℕ) → IsIn q xs → q ≢ l → with_new q ≡ pages q
  with_new-other q i ne =
      write_page_ne with_link new m q (ne_new q i)
      ∙ write_page_ne with_empty l (set_next_page_id (with_empty l) new) q ne
      ∙ write_page_ne pages new reset_memory q (ne_new q i)

  -- The pages of the heap are the same but for the link.
  pub with_new_lem :
      (q : ℕ)
      → IsIn q xs
      → IsValid (with_new q)
        × ((slot : ℕ) → TablePage.get_tuple (with_new q) slot ≡ TablePage.get_tuple (pages q) slot)
        × (get_table_page_id (with_new q) ≡ get_table_page_id (pages q))
  with_new_lem q i =
      let (valid, tuples, id, next) =
        set_next_page_id_lem (pages l) new (AllValid-IsIn pages xs l all there) (omega arith) in
      elim (Bool-cases (q == l)) [
        | inl is ↦
            let at : l ≡ q = ground arith in
            subst
              (λ z.
                IsValid (with_new z)
                × ((slot : ℕ)
                    → TablePage.get_tuple (with_new z) slot ≡ TablePage.get_tuple (pages z) slot)
                × (get_table_page_id (with_new z) ≡ get_table_page_id (pages z)))
              at
              (
                subst IsValid (sym with_new-last) valid,
                λ slot. ap (λ z. TablePage.get_tuple z slot) with_new-last ∙ tuples slot,
                ap get_table_page_id with_new-last ∙ id,
              )
        | inr ne ↦
            let same = with_new-other q i (ground arith) in
            (
              subst IsValid (sym same) (AllValid-IsIn pages xs q all i),
              λ slot. ap (λ z. TablePage.get_tuple z slot) same,
              ap get_table_page_id same,
            )
      ]

  pub with_new-link : get_next_page_id (with_new l) ≡ new
  with_new-link =
      let (valid, tuples, id, next) =
        set_next_page_id_lem (pages l) new (AllValid-IsIn pages xs l all there) (omega arith) in
      ap get_next_page_id with_new-last ∙ next
