-- ===== src/IndexRoots/Tests.antt =====
-- Runs of the page of minisql/src/page/index_roots_page.cpp.
use zju_database_system.Prelude.{
  ℕ, ◌+◌, ◌≤◌, ◌≡◌, ◌⊎◌, refl, true, false, not, ◌&&◌, none, some, ◌==◌, if◌then◌else◌, arith,
}
use zju_database_system.Arrays.{store, shift_down}
use zju_database_system.Arrays.Segments.{segment}
use zju_database_system.IndexRoots.{
  IndexRootsPage, max_index_count, entries, find_from, insert, delete, update, get_root_id,
}
use zju_database_system.IndexRoots.Lists.{IsDistinct, is_recorded}
use zju_database_system.IndexRoots.Laws.{insert_lem, delete_lem}

program : Unit {0}
unfolding segment store shift_down find_from insert delete update get_root_id
program = tt

-- Indexes 5, 6 and 7 with roots 50, 51 and 52.
abbrev page : IndexRootsPage
page = record { count = 3; roots = λ i. (i + 5, i + 50) }

page-IsDistinct : IsDistinct (entries page)
unfolding program
page-IsDistinct = (refl, (refl, (refl, tt)))

delete_run : get_root_id (delete page 5).0 6 ≡ some 51
unfolding program
delete_run = refl

insert_lem_example :
    ((is_recorded page 9 ≡ false) × (page.count ≡ max_index_count) × (insert page 9 60 ≡ none))
    ⊎ ((p' : IndexRootsPage) × (insert page 9 60 ≡ some (p', not (is_recorded page 9)))
        × ((q : ℕ)
            → get_root_id p' q
              ≡ (if (q == 9) && not (is_recorded page 9) then some 60 else get_root_id page q))
        × IsDistinct (entries p')
        × (p'.count ≤ max_index_count)
        × ((is_recorded page 9 ≡ true) → p' ≡ page))
insert_lem_example = insert_lem page 9 60 page-IsDistinct (omega arith)

delete_lem_example :
    ((delete page 5).1 ≡ is_recorded page 5)
    × ((q : ℕ) → get_root_id (delete page 5).0 q ≡ (if q == 5 then none else get_root_id page q))
    × IsDistinct (entries (delete page 5).0)
    × (((delete page 5).0).count ≤ max_index_count)
delete_lem_example = delete_lem page 5 page-IsDistinct (omega arith)
