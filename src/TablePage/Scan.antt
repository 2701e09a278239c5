-- ===== src/TablePage/Scan.antt =====
-- GetFirstTupleRid and GetNextTupleRid of minisql/src/page/table_page.cpp.
use zju_database_system.Prelude.{
  ℕ, zero, suc, ◌+◌, ◌-◌, ◌%◌, ◌^◌, ◌≤◌, ◌<◌, ◌≡◌, ◌≢◌, refl, sym, ◌⊎◌, inl, inr, Bool, true, false,
  none, some, arith, ◌==◌, Bool-cases, Option-cases,
}
use zju_database_system.Memory.{invalid_page_id, Memory}
use zju_database_system.TablePage.{
  RowId, get_table_page_id, get_tuple_count, get_tuple_size, get_tuple, is_deleted, find_tuple,
  found_rid, get_first_tuple_rid, get_next_tuple_rid,
}

-- `r` is the row id of the first slot from `i` on that has a tuple, with true, or the invalid row id
-- with false if there is none.
abbrev pub IsFirstFrom : Memory → ℕ → RowId × Bool → Type 0
IsFirstFrom m i r =
    ((r ≡ (record { page_id = invalid_page_id; slot_num = 0 }, false))
      × ((j : ℕ) → i ≤ j → get_tuple m j ≡ none))
    ⊎ ((x : ℕ) × (r ≡ (record { page_id = get_table_page_id m; slot_num = x }, true))
        × (i ≤ x)
        × (get_tuple m x ≢ none)
        × ((j : ℕ) → i ≤ j → j < x → get_tuple m j ≡ none))

find_tuple-none :
    (n i : ℕ) (m : Memory)
    → find_tuple n i m ≡ none
    → (j : ℕ) → i ≤ j
    → j < i + n
    → is_deleted (get_tuple_size m j) ≡ true
unfolding find_tuple
find_tuple-none zero i m h j lo hi = absurd (omega arith)
find_tuple-none (suc n) i m h j lo hi = elim (Bool-cases (is_deleted (get_tuple_size m i))) [
  | inr live ↦ ground arith
  | inl dead ↦ elim (Bool-cases (j == i)) [
    | inl e ↦ let e' : j ≡ i = ground arith in rw e' dead
    | inr e ↦ find_tuple-none n (i + 1) m (ground arith) j (ground arith) (omega arith)
  ]
]

find_tuple-some :
    (n i x : ℕ) (m : Memory)
    → find_tuple n i m ≡ some x
    → (i ≤ x)
      × (x < i + n)
      × (is_deleted (get_tuple_size m x) ≡ false)
      × ((j : ℕ) → i ≤ j → j < x → is_deleted (get_tuple_size m j) ≡ true)
unfolding find_tuple
find_tuple-some zero i x m h = absurd (cc)
find_tuple-some (suc n) i x m h = elim (Bool-cases (is_deleted (get_tuple_size m i))) [
  | inr live ↦
      let e : i ≡ x = ground arith in
      (omega arith, omega arith, rw (sym e) live, λ j lo hi. absurd (omega arith))
  | inl dead ↦
      let rest = find_tuple-some n (i + 1) x m (ground arith) in
      (
        omega (arith, rest.0),
        omega (arith, rest.1),
        rest.2,
        λ j lo hi. elim (Bool-cases (j == i)) [
          | inl e ↦ let e' : j ≡ i = ground arith in rw e' dead
          | inr e ↦ rest.3 j (ground arith) hi
        ],
      )
]

found_rid-IsFirstFrom :
    (m : Memory) (k i : ℕ)
    → k ≡ get_tuple_count m - i
    → IsFirstFrom m i (found_rid m (find_tuple k i m))
unfolding get_tuple
found_rid-IsFirstFrom m k i rounds = elim (Option-cases (find_tuple k i m)) [
  | inl h ↦
      let all = find_tuple-none k i m h in inl (ground arith, λ j lo. ground (arith, all j lo))
  | inr (x, h) ↦
      let first = find_tuple-some k i x m h in
      inr (
        x,
        ground arith,
        first.0,
        λ e. ground (arith, first.1, first.2),
        λ j lo hi. ground (arith, first.3 j lo hi),
      )
]

-- GetFirstTupleRid finds the first slot with a tuple, and GetNextTupleRid, which fails its assertion
-- exactly on a row id of another page, the first one from the next slot number on, which is 0 behind
-- the greatest uint32_t.
pub get_next_tuple_rid_lem :
    (m : Memory) (cur : RowId)
    → IsFirstFrom m 0 (get_first_tuple_rid m)
      × ((r : RowId × Bool)
          → get_next_tuple_rid m cur ≡ some r
          → IsFirstFrom m ((cur.slot_num + 1) % 2 ^ 32) r)
      × ((get_next_tuple_rid m cur ≡ none → cur.page_id ≢ get_table_page_id m)
          × (cur.page_id ≢ get_table_page_id m → get_next_tuple_rid m cur ≡ none))
unfolding get_first_tuple_rid get_next_tuple_rid
get_next_tuple_rid_lem m cur =
    let i = (cur.slot_num + 1) % 2 ^ 32 in
    let next = found_rid-IsFirstFrom m (get_tuple_count m - i) i refl in
    (
      found_rid-IsFirstFrom m (get_tuple_count m) 0 (omega arith),
      λ r h. elim (Bool-cases (cur.page_id == get_table_page_id m)) [
        | inl e ↦
            let found : found_rid m (find_tuple (get_tuple_count m - i) i m) ≡ r = ground arith in
            rw (sym found) next
        | inr e ↦ ground arith
      ],
      (λ h. ground arith, λ h. ground arith),
    )
