-- ===== src/TableHeap/Insert.antt =====
-- The loop of TableHeap::InsertTuple of minisql/src/storage/table_heap.cpp, and lists of pages with
-- a page more.
use zju_database_system.Prelude.{
  ℕ, zero, suc, ◌+◌, ◌≤◌, ◌<◌, ◌≡◌, ◌≢◌, refl, sym, ap, ◌∙◌, subst, ◌⊎◌, inl, inr, none, some,
  Option, List, [], ◌∷◌, ◌++◌, length, arith, ◌==◌, Bool-cases, false,
}
use zju_database_system.Memory.{Memory, invalid_page_id, page_size}
use zju_database_system.Arrays.Segments.{segment}
use zju_database_system.TablePage
use zju_database_system.TablePage.{
  RowId, Serialized, get_next_page_id, set_next_page_id, get_table_page_id, get_free_space_pointer,
  get_tuple_count,
}
use zju_database_system.TablePage.Layout.{IsValid}
use zju_database_system.TablePage.Insert.{insert_tuple_lem, insert_tuple_before}
use zju_database_system.TablePage.Links.{links_of_eq}
use zju_database_system.TableHeap.{Pages, write_page, inserted, no_room, insert_from}
use zju_database_system.TableHeap.Chain.{
  Chain, NotIn, Distinct, AllValid, write_page_self, write_page_ne,
}

abbrev pub IsIn : ℕ → List ℕ → Type 0
IsIn x [] = ⊥
IsIn x (y ∷ ys) = (y ≡ x) ⊎ IsIn x ys

pub NotIn-IsIn : (x : ℕ) (ys : List ℕ) → NotIn x ys → IsIn x ys → ⊥
NotIn-IsIn x [] out h = h
NotIn-IsIn x (y ∷ ys) (ne, out) (inl e) = ne e
NotIn-IsIn x (y ∷ ys) (ne, out) (inr h) = NotIn-IsIn x ys out h

-- A page that is written with its ids kept.
pub Chain-write_page :
    (pages : Pages) (p : ℕ) (m : Memory) (page_id : ℕ) (xs : List ℕ)
    → ((b : ℕ) → b < 16 → m b ≡ pages p b)
    → Chain pages page_id xs
    → Chain (write_page pages p m) page_id xs
Chain-write_page pages p m page_id [] same c = c
Chain-write_page pages p m page_id (x ∷ xs) same (here, fine, own, rest) =
    let e : (b : ℕ) → b < 16 → write_page pages p m x b ≡ pages x b = λ b lt.
      elim (Bool-cases (x == p)) [
        | inl is ↦
            let at : x ≡ p = ground arith in
            subst (λ q. write_page pages p m q b ≡ pages q b) (sym at)
              (ap (λ z. z b) (write_page_self pages p m) ∙ same b lt)
        | inr ne ↦ ap (λ z. z b) (write_page_ne pages p m x (ground arith))
      ] in
    let (id, next) = links_of_eq (pages x) (write_page pages p m x) e in
    (
      here,
      fine,
      id ∙ own,
      subst (λ q. Chain (write_page pages p m) q xs) (sym next)
          (Chain-write_page pages p m (get_next_page_id (pages x)) xs same rest),
    )

pub AllValid-write_page :
    (pages : Pages) (p : ℕ) (m : Memory) (xs : List ℕ)
    → IsValid m
    → AllValid pages xs
    → AllValid (write_page pages p m) xs
AllValid-write_page pages p m [] v all = tt
AllValid-write_page pages p m (x ∷ xs) v (here, rest) = (
  elim (Bool-cases (x == p)) [
    | inl is ↦
        let at : x ≡ p = ground arith in
        subst (λ q. IsValid (write_page pages p m q)) (sym at)
          (subst IsValid (sym (write_page_self pages p m)) v)
    | inr ne ↦ subst IsValid (sym (write_page_ne pages p m x (ground arith))) here
  ],
  AllValid-write_page pages p m xs v rest,
)

abbrev pub last_or : Option ℕ → List ℕ → Option ℕ
last_or page [] = page
last_or page (x ∷ xs) = last_or (some x) xs

-- What a page gets in its slot, and what it keeps.
pub record Stored (m : Memory) (slot : ℕ) (row : Serialized) (m' : Memory) : Type 0 where
  pub valid : IsValid m'
  pub free : TablePage.get_tuple m slot ≡ none
  pub tuple : TablePage.get_tuple m' slot ≡ some (segment row.bytes 0 row.size)
  pub others : (j : ℕ) → j ≢ slot → TablePage.get_tuple m' j ≡ TablePage.get_tuple m j
  pub links : (b : ℕ) → b < 16 → m' b ≡ m b

module _ (n : ℕ) (pages : Pages) (page_id : ℕ) (page : Option ℕ) (row : Serialized) (x : ℕ)
    (here : page_id ≡ x) (fine : x ≢ invalid_page_id) where
  insert_from-full :
      TablePage.insert_tuple (pages x) row ≡ some (pages x, none)
      → insert_from (suc n) pages page_id page row
        ≡ insert_from n pages (get_next_page_id (pages x)) (some x) row
  unfolding insert_from
  insert_from-full full =
      let inside : (x == invalid_page_id) ≡ false = ground arith in
      rw (here, inside, full)
        (ap (λ q. insert_from n pages (get_next_page_id (pages x)) (some q) row) here)

  insert_from-inserted :
      (m' : Memory) (rid : RowId)
      → TablePage.insert_tuple (pages x) row ≡ some (m', some rid)
      → insert_from (suc n) pages page_id page row ≡ some (inserted (write_page pages x m') rid)
  unfolding insert_from
  insert_from-inserted m' rid done =
      let inside : (x == invalid_page_id) ≡ false = ground arith in
      rw (here, inside, done) (ap (λ q. some (inserted (write_page pages q m') rid)) here)

pub insert_from_lem :
    (n : ℕ) (pages : Pages) (page_id : ℕ) (page : Option ℕ) (row : Serialized) (xs : List ℕ)
    → Chain pages page_id xs
    → AllValid pages xs
    → 0 < row.size
    → length xs < n
    → (insert_from n pages page_id page row ≡ some (no_room (last_or page xs)))
      ⊎ ((p slot : ℕ) × (m' : Memory) × (insert_from n pages page_id page row
            ≡ some (inserted (write_page pages p m') (record { page_id = p; slot_num = slot })))
          × IsIn p xs
          × (24 + 8 + row.size ≤ page_size)
          × Stored (pages p) slot row m')
unfolding insert_from
insert_from_lem zero pages page_id page row xs c v pos lt = absurd (omega arith)
insert_from_lem (suc n) pages page_id page row [] c v pos lt = inl (ground arith)
insert_from_lem (suc n) pages page_id page row (x ∷ xs) (here, fine, own, rest) (vx, vs) pos lt =
    elim (insert_tuple_lem (pages x) row vx pos) [
      | inl (full, same) ↦
          let later =
            insert_from_lem n pages (get_next_page_id (pages x)) (some x) row xs rest vs pos
              (omega arith) in
          let step = insert_from-full n pages page_id page row x here fine same in
          elim later [
            | inl behind ↦ inl (step ∙ behind)
            | inr (p, slot, m', done, there, fits, stored) ↦
                inr (p, slot, m', step ∙ done, inr there, fits, stored)
          ]
      | inr (m', slot, done, fits, valid, free, tuple, others) ↦
          let bounded = vx.bounded in
          inr (
            x,
            slot,
            m',
            insert_from-inserted n pages page_id page row x here fine m'
                  (record { page_id = get_table_page_id (pages x); slot_num = slot }) done
                ∙ ap
                    (λ q.
                      some (
                        inserted (write_page pages x m') (record { page_id = q; slot_num = slot })))
                    own,
            inl refl,
            omega arith,
            record {
              valid = valid;
              free = free;
              tuple = tuple;
              others = others;
              links =
                  insert_tuple_before (pages x) row m'
                    (some (record { page_id = get_table_page_id (pages x); slot_num = slot })) vx
                    pos done;
            },
          )
    ]

pub last_or-IsIn : (x : ℕ) (xs : List ℕ) (l : ℕ) → last_or (some x) xs ≡ some l → IsIn l (x ∷ xs)
last_or-IsIn x [] l h = inl (ground arith)
last_or-IsIn x (y ∷ ys) l h = inr (last_or-IsIn y ys l h)

pub last_or-some : (x : ℕ) (xs : List ℕ) → (l : ℕ) × (last_or (some x) xs ≡ some l)
last_or-some x [] = (x, refl)
last_or-some x (y ∷ ys) = last_or-some y ys

NotIn-append : (x : ℕ) (xs : List ℕ) (y : ℕ) → NotIn x xs → y ≢ x → NotIn x (xs ++ y ∷ [])
NotIn-append x [] y out ne = (ne, tt)
NotIn-append x (z ∷ zs) y (here, out) ne = (here, NotIn-append x zs y out ne)

pub Distinct-append : (xs : List ℕ) (y : ℕ) → Distinct xs → NotIn y xs → Distinct (xs ++ y ∷ [])
Distinct-append [] y d out = (tt, tt)
Distinct-append (x ∷ xs) y (here, d) (ne, out) =
    (NotIn-append x xs y here (λ e. ne (sym e)), Distinct-append xs y d out)

module _ (pages pages' : Pages) (new : ℕ) where
  pub AllValid-append :
      (xs : List ℕ)
      → ((q : ℕ) → IsIn q xs → IsValid (pages q) → IsValid (pages' q))
      → IsValid (pages' new)
      → AllValid pages xs
      → AllValid pages' (xs ++ new ∷ [])
  AllValid-append [] keep fresh v = (fresh, tt)
  AllValid-append (x ∷ xs) keep fresh (here, v) =
      (keep x (inl refl) here, AllValid-append xs (λ q i. keep q (inr i)) fresh v)

  pub Chain-append :
      (x : ℕ) (xs : List ℕ) (page_id l : ℕ)
      → last_or (some x) xs ≡ some l
      → Chain pages page_id (x ∷ xs)
      → Distinct (x ∷ xs)
      → ((q : ℕ) → IsIn q (x ∷ xs) → get_table_page_id (pages' q) ≡ get_table_page_id (pages q))
      → ((q : ℕ)
          → IsIn q (x ∷ xs)
          → q ≢ l
          → get_next_page_id (pages' q) ≡ get_next_page_id (pages q))
      → get_next_page_id (pages' l) ≡ new
      → new ≢ invalid_page_id
      → get_table_page_id (pages' new) ≡ new
      → get_next_page_id (pages' new) ≡ invalid_page_id
      → Chain pages' page_id ((x ∷ xs) ++ new ∷ [])
  Chain-append x [] page_id l is_last (here, fine, own, rest) d ids nexts link valid own' end =
      let at : x ≡ l = ground arith in
      (
        here,
        fine,
        ids x (inl refl) ∙ own,
        (ap (λ q. get_next_page_id (pages' q)) at ∙ link, valid, own', end),
      )
  Chain-append x (y ∷ ys) page_id l is_last (here, fine, own, rest) (out, d) ids nexts link valid
        own' end =
      let ne : x ≢ l = λ e.
        NotIn-IsIn x (y ∷ ys) out
          (subst (λ q. IsIn q (y ∷ ys)) (sym e) (last_or-IsIn y ys l is_last)) in
      (
        here,
        fine,
        ids x (inl refl) ∙ own,
        Chain-append y ys (get_next_page_id (pages' x)) l is_last
            (subst (λ q. Chain pages q (y ∷ ys)) (sym (nexts x (inl refl) ne)) rest) d
            (λ q i. ids q (inr i)) (λ q i. nexts q (inr i)) link valid own' end,
      )
