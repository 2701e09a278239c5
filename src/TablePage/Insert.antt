-- ===== src/TablePage/Insert.antt =====
-- InsertTuple of minisql/src/page/table_page.cpp.
use zju_database_system.Prelude.{
  ℕ, zero, suc, ◌+◌, ◌-◌, ◌*◌, ◌≤◌, ◌<◌, ◌≡◌, ◌≢◌, ◌⊎◌, inl, inr, none, some, Option, ap, sym, ◌∙◌,
  arith, ltb, Bool-cases,
}
use zju_database_system.Memory.{Memory}
use zju_database_system.Arrays.Segments.{segment}
use zju_database_system.TablePage.{
  Serialized, RowId, get_table_page_id, get_free_space_pointer, get_tuple_count, get_tuple_size,
  get_tuple, find_slot, claim, insert_tuple, get_free_space_remaining,
}
use zju_database_system.TablePage.Layout.{IsValid, get_free_space_remaining_lem}
use zju_database_system.TablePage.Claim.{
  claim-IsValid, claim_before, get_tuple-claim_self, get_tuple-claim_ne,
}

-- The loop ends at a free slot, or behind the last one.
find_slot_lem :
    (n i : ℕ) (m : Memory)
    → (i ≤ find_slot n i m)
      × (find_slot n i m ≤ i + n)
      × (find_slot n i m < i + n → get_tuple_size m (find_slot n i m) ≡ 0)
unfolding find_slot
find_slot_lem zero i m = (omega arith, omega arith, λ lt. absurd (omega arith))
find_slot_lem (suc n) i m = ground (arith, find_slot_lem n (i + 1) m)

no_tuple :
    (m : Memory) (i : ℕ) → (i < get_tuple_count m → get_tuple_size m i ≡ 0) → get_tuple m i ≡ none
unfolding get_tuple
no_tuple m i h = ground arith

-- InsertTuple of a row that is not empty into a well-formed page answers false, and changes nothing,
-- exactly where the free space is too small for the row and a slot. Otherwise the slot of the row id
-- had no tuple and now has the bytes of the row, the tuple of every other slot is as before, and the
-- page is well-formed.
pub insert_tuple_lem :
    (m : Memory) (row : Serialized)
    → IsValid m
    → 0 < row.size
    → ((get_free_space_pointer m < 24 + 8 * (get_tuple_count m + 1) + row.size)
        × (insert_tuple m row ≡ some (m, none)))
      ⊎ ((m' : Memory) × (slot : ℕ) × (insert_tuple m row
            ≡ some (m', some (record { page_id = get_table_page_id m; slot_num = slot })))
          × (24 + 8 * (get_tuple_count m + 1) + row.size ≤ get_free_space_pointer m)
          × IsValid m'
          × (get_tuple m slot ≡ none)
          × (get_tuple m' slot ≡ some (segment row.bytes 0 row.size))
          × ((j : ℕ) → j ≢ slot → get_tuple m' j ≡ get_tuple m j))
unfolding insert_tuple
insert_tuple_lem m row v pos =
    let n = get_tuple_count m in
    let i = find_slot n 0 m in
    let found = find_slot_lem n 0 m in
    let slots = v.room in
    let bounded = v.bounded in
    let remaining : get_free_space_remaining m ≡ get_free_space_pointer m - 24 - 8 * n =
      get_free_space_remaining_lem m v in
    elim (Bool-cases (ltb (get_free_space_remaining m) (row.size + 8))) [
      | inl full ↦ inl (ground arith, ground arith)
      | inr fits ↦
          let le : i ≤ n = omega (arith, found.1) in
          let room : 24 + 8 * (n + 1) + row.size ≤ get_free_space_pointer m = ground arith in
          inr (
            claim m i row,
            i,
            ground arith,
            room,
            claim-IsValid m i row v le room pos,
            no_tuple m i (λ lt. found.2 (omega arith)),
            get_tuple-claim_self m i row v le room pos,
            get_tuple-claim_ne m i row v le room,
          )
    ]

-- InsertTuple leaves the ids of the page and of its neighbours.
pub insert_tuple_before :
    (m : Memory) (row : Serialized) (m' : Memory) (rid : Option RowId)
    → IsValid m
    → 0 < row.size
    → insert_tuple m row ≡ some (m', rid)
    → (b : ℕ) → b < 16
    → m' b ≡ m b
unfolding insert_tuple
insert_tuple_before m row m' rid v pos h b lt =
    let n = get_tuple_count m in
    let i = find_slot n 0 m in
    let found = find_slot_lem n 0 m in
    let slots = v.room in
    let bounded = v.bounded in
    let remaining : get_free_space_remaining m ≡ get_free_space_pointer m - 24 - 8 * n =
      get_free_space_remaining_lem m v in
    elim (Bool-cases (ltb (get_free_space_remaining m) (row.size + 8))) [
      | inl full ↦ let same : m ≡ m' = ground arith in ap (λ z. z b) (sym same)
      | inr fits ↦
          let le : i ≤ n = omega (arith, found.1) in
          let room : 24 + 8 * (n + 1) + row.size ≤ get_free_space_pointer m = ground arith in
          let same : claim m i row ≡ m' = ground arith in
          ap (λ z. z b) (sym same) ∙ claim_before m i row v le room b lt
    ]
