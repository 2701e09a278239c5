-- ===== src/TableHeap/Append.antt =====
-- TableHeap::InsertTuple of minisql/src/storage/table_heap.cpp.
use zju_database_system.Prelude.{
  ℕ, ◌+◌, ◌≤◌, ◌<◌, ◌≡◌, ◌≢◌, refl, sym, ap, ◌∙◌, subst, ◌⊎◌, inl, inr, none, some, Option, List,
  [], ◌∷◌, ◌++◌, length, arith, ◌==◌, Bool-cases,
}
use zju_database_system.Memory.{Memory, reset_memory, invalid_page_id, page_size}
use zju_database_system.Arrays.Segments.{segment}
use zju_database_system.Records.{TypeId}
use zju_database_system.TablePage
use zju_database_system.TablePage.{
  RowId, Serialized, get_next_page_id, set_next_page_id, get_table_page_id, get_free_space_pointer,
  get_tuple_count,
}
use zju_database_system.TablePage.Layout.{IsValid}
use zju_database_system.TablePage.Insert.{insert_tuple_lem, insert_tuple_before}
use zju_database_system.TablePage.Init.{init_lem}
use zju_database_system.TablePage.Links.{links_of_eq, init_fields}
use zju_database_system.TableHeap.{
  Pages, TableHeap, write_page, append_page, insert_tuple, tuple_bytes, create,
}
use zju_database_system.TableHeap.Chain.{NotIn, IsHeap, write_page_self, write_page_ne}
use zju_database_system.TableHeap.Insert.{
  IsIn, NotIn-IsIn, Chain-write_page, AllValid-write_page, last_or-IsIn, last_or-some,
  insert_from_lem, Distinct-append, AllValid-append, Chain-append,
}
use zju_database_system.TableHeap.Linked.{with_link, with_new-other, with_new_lem, with_new-link}

IsIn-append : (x : ℕ) (xs : List ℕ) → IsIn x (xs ++ x ∷ [])
IsIn-append x [] = inl refl
IsIn-append x (y ∷ ys) = inr (IsIn-append x ys)

IsIn-new : (x y : ℕ) (xs : List ℕ) → IsIn y (xs ++ x ∷ []) → (IsIn y xs → ⊥) → y ≡ x
IsIn-new x y [] (inl e) away = sym e
IsIn-new x y [] (inr h) away = absurd h
IsIn-new x y (z ∷ xs) (inl e) away = absurd (away (inl e))
IsIn-new x y (z ∷ xs) (inr h) away = IsIn-new x y xs h (λ i. away (inr i))

-- Row ids that differ on one page differ in their slots.
slot_ne :
    (r : RowId) (p slot : ℕ)
    → some r ≢ some (record { page_id = p; slot_num = slot })
    → r.page_id ≡ p
    → r.slot_num ≢ slot
slot_ne r p slot ne at e = ne (
    ap (λ (x : ℕ). some (record { page_id = x; slot_num = r.slot_num })) at
    ∙ ap (λ (x : ℕ). some (record { page_id = p; slot_num = x })) e)

-- What the init of the new page gives, for the row.
insert_tuple-init :
    (m : Memory) (new last : ℕ) (row : Serialized)
    → new < invalid_page_id
    → 0 < row.size
    → (m' : Memory) × (rid : Option RowId) × (TablePage.insert_tuple (TablePage.init m new last) row
        ≡ some (m', rid))
      × IsValid m'
      × (get_table_page_id m' ≡ new)
      × (get_next_page_id m' ≡ invalid_page_id)
      × ((j : ℕ)
          → some (record { page_id = new; slot_num = j }) ≢ rid
          → TablePage.get_tuple m' j ≡ none)
      × (((page_size < 24 + 8 + row.size) × (rid ≡ none))
          ⊎ ((slot : ℕ) × (24 + 8 + row.size ≤ page_size)
              × (rid ≡ some (record { page_id = new; slot_num = slot }))
              × (TablePage.get_tuple m' slot ≡ some (segment row.bytes 0 row.size))))
insert_tuple-init m new last row lt pos =
    let m0 = TablePage.init m new last in
    let (valid, empty) = init_lem m new last in
    let (id, next, pointer, count) = init_fields m new last (omega arith) in
    elim (insert_tuple_lem m0 row valid pos) [
      | inl (full, done) ↦ (
        m0,
        none,
        done,
        valid,
        id,
        next,
        (λ j ne. empty j),
        inl (omega (arith, full, pointer, count), refl),
      )
      | inr (m', slot, done, fits, valid', free, tuple, others) ↦
          let rid : RowId = record { page_id = get_table_page_id m0; slot_num = slot } in
          let (id', next') =
            links_of_eq m0 m' (insert_tuple_before m0 row m' (some rid) valid pos done) in
          (
            m',
            some rid,
            done,
            valid',
            id' ∙ id,
            next' ∙ next,
            λ j ne.
                others j (λ e. ne (
                  ap (λ (q : ℕ × ℕ). some (record { page_id = q.0; slot_num = q.1 }))
                    (ap (λ (i : ℕ). (new, i)) e ∙ ap (λ (q : ℕ). (q, slot)) (sym id))))
                ∙ empty j,
            inr (
              slot,
              omega (arith, fits, pointer, count),
              ap (λ (q : ℕ). some (record { page_id = q; slot_num = slot })) id,
              tuple,
            ),
          )
    ]

-- InsertTuple of a row that is not empty, with a page id for NewPage that the heap does not use, ends
-- in one round more than the heap has pages, with a heap of the same pages or of one page more at
-- the end. The tuples of all other row ids of the old pages are as before, and a new page has no tuple
-- but that of the row. A row that fits into an empty page gets the row id of a slot that had no tuple
-- and now has the bytes of the row; a row that does not fit gets none, and the heap has an empty
-- page more.
pub insert_tuple-IsHeap :
    (h : TableHeap) (x : ℕ) (xs : List ℕ) (new_page_id : ℕ) (row : Serialized)
    → IsHeap h (x ∷ xs)
    → NotIn new_page_id (x ∷ xs)
    → new_page_id < invalid_page_id
    → 0 < row.size
    → (h' : TableHeap) × (ys : List ℕ) × (rid : Option RowId) × (insert_tuple
          (length (x ∷ xs) + 1)
          new_page_id
          h
          row
        ≡ some (h', rid))
      × IsHeap h' ys
      × ((ys ≡ x ∷ xs) ⊎ (ys ≡ (x ∷ xs) ++ new_page_id ∷ []))
      × ((r : RowId) → IsIn r.page_id (x ∷ xs) → some r ≢ rid → tuple_bytes h' r ≡ tuple_bytes h r)
      × ((r : RowId)
          → IsIn r.page_id ys
          → (IsIn r.page_id (x ∷ xs) → ⊥)
          → some r ≢ rid
          → tuple_bytes h' r ≡ none)
      × (((page_size < 24 + 8 + row.size) × (rid ≡ none) × (ys ≡ (x ∷ xs) ++ new_page_id ∷ []))
          ⊎ ((r : RowId) × (24 + 8 + row.size ≤ page_size)
              × (rid ≡ some r)
              × IsIn r.page_id ys
              × (IsIn r.page_id (x ∷ xs) → tuple_bytes h r ≡ none)
              × (tuple_bytes h' r ≡ some (segment row.bytes 0 row.size))))
unfolding insert_tuple append_page tuple_bytes
insert_tuple-IsHeap h x xs new row ok out lt pos =
    elim (insert_from_lem (length (x ∷ xs) + 1) h.pages h.first_page_id none row (x ∷ xs) ok.chain
      ok.valid pos (omega arith)) [
        | inr (p, slot, m', done, there, fits, stored) ↦
            let pages' = write_page h.pages p m' in
            let r : RowId = record { page_id = p; slot_num = slot } in
            let own : pages' p ≡ m' = write_page_self h.pages p m' in
            (
              record h { pages = pages' },
              x ∷ xs,
              some r,
              rw done refl,
              record {
                chain =
                    Chain-write_page h.pages p m' h.first_page_id (x ∷ xs) stored.links ok.chain;
                valid = AllValid-write_page h.pages p m' (x ∷ xs) stored.valid ok.valid;
                distinct = ok.distinct;
              },
              inl refl,
              λ q i ne. elim (Bool-cases (q.page_id == p)) [
                | inl is ↦
                    let at : q.page_id ≡ p = ground arith in
                    ap (λ z. TablePage.get_tuple (pages' z) q.slot_num) at
                    ∙ ap (λ z. TablePage.get_tuple z q.slot_num) own
                    ∙ stored.others q.slot_num (slot_ne q p slot ne at)
                    ∙ ap (λ z. TablePage.get_tuple (h.pages z) q.slot_num) (sym at)
                | inr away ↦
                    ap (λ z. TablePage.get_tuple z q.slot_num)
                      (write_page_ne h.pages p m' q.page_id (ground arith))
              ],
              λ q i away ne. absurd (away i),
              inr (
                r,
                fits,
                refl,
                there,
                λ i. stored.free,
                ap (λ z. TablePage.get_tuple z slot) own ∙ stored.tuple,
              ),
            )
        | inl done ↦
            let (l, is_last) = last_or-some x xs in
            let there = last_or-IsIn x xs l is_last in
            let pages2 = with_link h.pages (x ∷ xs) l new reset_memory ok.valid there out lt in
            let (m', rid, inserted', valid', id, next, unused, fit) =
              insert_tuple-init (pages2 new) new l row lt pos in
            let kept = with_new_lem h.pages (x ∷ xs) l new m' ok.valid there out lt in
            let other = with_new-other h.pages (x ∷ xs) l new m' ok.valid there out lt in
            let link = with_new-link h.pages (x ∷ xs) l new m' ok.valid there out lt in
            let pages' = write_page pages2 new m' in
            let own : pages' new ≡ m' = write_page_self pages2 new m' in
            (
              record h { pages = pages' },
              (x ∷ xs) ++ new ∷ [],
              rid,
              rw (done, is_last, inserted') refl,
              record {
                chain =
                    Chain-append h.pages pages' new x xs h.first_page_id l is_last ok.chain
                      ok.distinct (λ q i. (kept q i).2)
                      (λ q i ne. ap get_next_page_id (other q i ne)) link (omega arith)
                      (ap get_table_page_id own ∙ id) (ap get_next_page_id own ∙ next);
                valid =
                    AllValid-append h.pages pages' new (x ∷ xs) (λ q i v. (kept q i).0)
                      (subst IsValid (sym own) valid') ok.valid;
                distinct = Distinct-append (x ∷ xs) new ok.distinct out;
              },
              inr refl,
              λ q i ne. (kept q.page_id i).1 q.slot_num,
              λ q i away ne.
                  let at = IsIn-new new q.page_id (x ∷ xs) i away in
                  ap (λ z. TablePage.get_tuple (pages' z) q.slot_num) at
                  ∙ ap (λ z. TablePage.get_tuple z q.slot_num) own
                  ∙ unused q.slot_num (λ e.
                    ne (
                      ap (λ (z : ℕ). some (record { page_id = z; slot_num = q.slot_num })) at ∙ e)),
              elim fit [
                | inl (big, unset) ↦ inl (big, unset, refl)
                | inr (slot, fits, set', tuple) ↦ inr (
                  record { page_id = new; slot_num = slot },
                  fits,
                  set',
                  IsIn-append new (x ∷ xs),
                  λ i. absurd (NotIn-IsIn new (x ∷ xs) out i),
                  ap (λ z. TablePage.get_tuple z slot) own ∙ tuple,
                )
              ],
            )
      ]

-- A new heap has one page, in which no slot has a tuple.
pub create-IsHeap :
    (pages : Pages) (page_id : ℕ) (schema : List TypeId)
    → page_id < invalid_page_id
    → IsHeap (create pages page_id schema) (page_id ∷ [])
      × ((slot : ℕ)
          → tuple_bytes
              (create pages page_id schema)
              (record { page_id = page_id; slot_num = slot })
            ≡ none)
unfolding create tuple_bytes
create-IsHeap pages page_id schema lt =
    let m = TablePage.init reset_memory page_id invalid_page_id in
    let (valid, empty) = init_lem reset_memory page_id invalid_page_id in
    let (id, next, pointer, count) =
      init_fields reset_memory page_id invalid_page_id (omega arith) in
    let own : write_page pages page_id m page_id ≡ m = write_page_self pages page_id m in
    (
      record {
        chain = (refl, omega arith, ap get_table_page_id own ∙ id, ap get_next_page_id own ∙ next);
        valid = (subst IsValid (sym own) valid, tt);
        distinct = (tt, tt);
      },
      λ slot. ap (λ z. TablePage.get_tuple z slot) own ∙ empty slot,
    )
