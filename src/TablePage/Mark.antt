-- ===== src/TablePage/Mark.antt =====
-- MarkDelete and RollbackDelete of minisql/src/page/table_page.cpp: the flag of a tuple.
use zju_database_system.Prelude.{
  ℕ, ◌+◌, ◌*◌, ◌^◌, ◌≤◌, ◌<◌, ◌≡◌, ◌≢◌, ◌∙◌, ◌⊎◌, inl, inr, true, false, none, some, arith, leb,
  ◌==◌, if◌then◌else◌, Bool-cases,
}
use zju_database_system.Memory.{Memory, set_u32_outside}
use zju_database_system.TablePage.{
  get_free_space_pointer, get_tuple_count, get_tuple_offset, get_tuple_size, set_tuple_size,
  get_tuple, delete_mask, is_deleted, unset_deleted_flag, mark_delete, rollback_delete,
}
use zju_database_system.TablePage.Fields.{own-Reads, set_tuple_size-Reads}
use zju_database_system.TablePage.Layout.{Layout, IsValid, Reads-IsValid, get_tuple_ext}

-- A size that differs in the flag at most keeps the page well-formed and the other tuples.
flag_lem :
    (m : Memory) (slot size : ℕ)
    → IsValid m
    → slot < get_tuple_count m
    → get_tuple_size m slot ≢ 0
    → size < 2 ^ 32
    → unset_deleted_flag size ≡ unset_deleted_flag (get_tuple_size m slot)
    → (let m' = set_tuple_size m slot size in
        IsValid m'
        × (get_tuple_count m' ≡ get_tuple_count m)
        × (get_tuple_size m' slot ≡ size)
        × (get_tuple_offset m' slot ≡ get_tuple_offset m slot)
        × ((b : ℕ) → 24 + 8 * get_tuple_count m ≤ b → m' b ≡ m b)
        × ((j : ℕ) → j ≢ slot → get_tuple m' j ≡ get_tuple m j))
unfolding set_tuple_size
flag_lem m slot size v lt used word same =
    let n = get_tuple_count m in
    let p = get_free_space_pointer m in
    let o = get_tuple_offset m in
    let s = get_tuple_size m in
    let m' = set_tuple_size m slot size in
    let s' = λ (j : ℕ). if j == slot then size else s j in
    let r = set_tuple_size-Reads n m p n o s (own-Reads n m) slot size word in
    let filled = v.filled slot lt used in
    let outside : (b : ℕ) → 24 + 8 * n ≤ b → m' b ≡ m b =
      λ b le. set_u32_outside m (28 + 8 * slot) size b (inr (omega arith)) in
    let layout : Layout p n o s' = record {
      room = v.room;
      bounded = v.bounded;
      word = λ i li. ground (arith, v.word i li);
      filled = λ i li. ground (arith, v.filled i li);
      inside = λ i li. ground (arith, v.inside i li);
      apart = λ i j li lj. ground (arith, v.apart i j li lj);
    } in
    (
      Reads-IsValid m' p n o s' r layout,
      r.count_is,
      ground (arith, r.size_is slot lt),
      r.offset_is slot lt,
      outside,
      λ j ne.
          get_tuple_ext m m' j j (ground (arith, r.count_is))
            (λ within. ground (arith, r.size_is j (ground arith)))
            (λ within live k hi.
              let in_n : j < n = ground arith in
              let there = v.inside j in_n in
              let room = v.room in
              ground (arith, r.offset_is j in_n, outside (get_tuple_offset m j + k))),
    )

-- MarkDelete answers false, and changes nothing, exactly where the slot has no tuple. Otherwise it
-- takes away the tuple of that slot and no other on a page that stays well-formed, and
-- RollbackDelete brings it back.
pub mark_delete_lem :
    (m : Memory) (slot : ℕ)
    → IsValid m
    → ((mark_delete m slot ≡ (m, false)) × (get_tuple m slot ≡ none))
      ⊎ ((m' m'' : Memory) × (mark_delete m slot ≡ (m', true))
          × (get_tuple m slot ≢ none)
          × IsValid m'
          × (get_tuple m' slot ≡ none)
          × ((j : ℕ) → j ≢ slot → get_tuple m' j ≡ get_tuple m j)
          × (rollback_delete m' slot ≡ some m'')
          × IsValid m''
          × ((j : ℕ) → get_tuple m'' j ≡ get_tuple m j))
unfolding mark_delete rollback_delete get_tuple
mark_delete_lem m slot v = elim (Bool-cases (leb (get_tuple_count m) slot)) [
  | inl out ↦ inl (ground arith, ground arith)
  | inr within ↦ elim (Bool-cases (is_deleted (get_tuple_size m slot))) [
    | inl deleted ↦ inl (ground arith, ground arith)
    | inr live ↦
        let size = get_tuple_size m slot in
        let lt : slot < get_tuple_count m = ground arith in
        let used : size ≢ 0 = ground arith in
        let m' = set_tuple_size m slot (size + delete_mask) in
        let marked = flag_lem m slot (size + delete_mask) v lt used (ground arith) (ground arith) in
        let m'' = set_tuple_size m' slot size in
        let back =
          flag_lem m' slot size marked.0 (ground (arith, marked.1)) (ground (arith, marked.2))
            (ground arith) (ground (arith, marked.2)) in
        let inside = v.inside slot lt used in
        let room = v.room in
        let whole : get_tuple m'' slot ≡ get_tuple m slot =
          get_tuple_ext m m'' slot slot (ground (arith, marked.1, back.1))
            (λ w. ground (arith, back.2))
            (λ w l k hi. ground (
              arith,
              back.3,
              marked.3,
              marked.1,
              back.4 (get_tuple_offset m slot + k),
              marked.4 (get_tuple_offset m slot + k),
            )) in
        inr (
          m',
          m'',
          ground arith,
          λ e. ground arith,
          marked.0,
          ground (arith, marked.1, marked.2),
          marked.5,
          ground (arith, marked.1, marked.2),
          back.0,
          λ j. elim (Bool-cases (j == slot)) [
            | inl e ↦ let e' : j ≡ slot = ground arith in rw e' whole
            | inr e ↦ back.5 j (ground arith) ∙ marked.5 j (ground arith)
          ],
        )
  ]
]
