-- ===== src/TableHeap/Chain.antt =====
-- The list of the pages of a table heap, which next_page_id of minisql/src/include/page/table_page.h
-- links.
use zju_database_system.Prelude.{ℕ, ◌≡◌, ◌≢◌, List, [], ◌∷◌, arith}
use zju_database_system.Memory.{Memory, invalid_page_id}
use zju_database_system.TablePage.{get_next_page_id, get_table_page_id}
use zju_database_system.TablePage.Layout.{IsValid}
use zju_database_system.TableHeap.{Pages, TableHeap, write_page}

-- The pages from `page_id` on, each with its own id.
abbrev pub Chain : Pages → ℕ → List ℕ → Type 0
Chain pages page_id [] = page_id ≡ invalid_page_id
Chain pages page_id (x ∷ xs) =
    (page_id ≡ x)
    × (x ≢ invalid_page_id)
    × (get_table_page_id (pages x) ≡ x)
    × Chain pages (get_next_page_id (pages x)) xs

abbrev pub NotIn : ℕ → List ℕ → Type 0
NotIn x [] = Unit
NotIn x (y ∷ ys) = (y ≢ x) × NotIn x ys

abbrev pub Distinct : List ℕ → Type 0
Distinct [] = Unit
Distinct (x ∷ xs) = NotIn x xs × Distinct xs

abbrev pub AllValid : Pages → List ℕ → Type 0
AllValid pages [] = Unit
AllValid pages (x ∷ xs) = IsValid (pages x) × AllValid pages xs

-- A heap with its pages in order.
pub record IsHeap (h : TableHeap) (xs : List ℕ) : Type 0 where
  pub chain : Chain h.pages h.first_page_id xs
  pub valid : AllValid h.pages xs
  pub distinct : Distinct xs

pub write_page_self : (pages : Pages) (p : ℕ) (m : Memory) → write_page pages p m p ≡ m
unfolding write_page
write_page_self pages p m = ground arith

pub write_page_ne :
    (pages : Pages) (p : ℕ) (m : Memory) (q : ℕ) → q ≢ p → write_page pages p m q ≡ pages q
unfolding write_page
write_page_ne pages p m q ne = ground arith
