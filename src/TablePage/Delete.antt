-- ===== src/TablePage/Delete.antt =====
-- MarkDelete, RollbackDelete and ApplyDelete of minisql/src/page/table_page.cpp.
use zju_database_system.Prelude.{
  ℕ, ◌+◌, ◌-◌, ◌*◌, ◌≤◌, ◌<◌, ◌≡◌, ◌≢◌, ◌∙◌, inr, not, ◌&&◌, none, some, arith, ltb, ◌==◌,
  if◌then◌else◌,
}
use zju_database_system.Memory.{Memory, move_bytes, set_u32_outside}
use zju_database_system.TablePage.{
  get_free_space_pointer, set_free_space_pointer, get_tuple_count, get_tuple_offset,
  set_tuple_offset, get_tuple_size, set_tuple_size, get_tuple, unset_deleted_flag, remove_tuple,
  apply_delete,
}
use zju_database_system.TablePage.Fields.{
  Reads, own-Reads, behind-Reads, set_free_space_pointer-Reads, set_tuple_offset-Reads,
  set_tuple_size-Reads, move_offsets-Reads, move_offsets_behind,
}
use zju_database_system.TablePage.Layout.{Layout, IsValid, Reads-IsValid, get_tuple_ext}

-- The offset and the size of each slot when the tuple of `slot` is gone.
abbrev offset_after : ℕ → ℕ → ℕ → (ℕ → ℕ) → (ℕ → ℕ) → ℕ → ℕ
offset_after slot at len offset size j =
    if j == slot
    then 0
    else if not (size j == 0) && ltb (offset j) at
    then offset j + len
    else offset j

abbrev size_after : ℕ → (ℕ → ℕ) → ℕ → ℕ
size_after slot size j = if j == slot then 0 else size j

remove-Layout :
    (pointer count : ℕ) (offset size : ℕ → ℕ) (slot : ℕ)
    → Layout pointer count offset size
    → slot < count
    → size slot ≢ 0
    → (let len = unset_deleted_flag (size slot) in
        Layout
          (pointer + len)
          count
          (offset_after slot (offset slot) len offset size)
          (size_after slot size))
remove-Layout pointer count offset size slot l lt used =
    let len = unset_deleted_flag (size slot) in
    let at = l.inside slot lt used in
    record {
      room = omega (arith, l.room);
      bounded = omega (arith, at.0, at.1);
      word = λ i li. ground (arith, l.word i li);
      filled = λ i li. ground (arith, l.filled i li);
      inside = λ i li. ground (arith, l.inside i li, l.filled i li, at, l.apart i slot li lt);
      apart = λ i j li lj. ground (
        arith,
        l.inside i li,
        l.inside j lj,
        l.filled i li,
        l.filled j lj,
        at,
        l.apart i slot li lt,
        l.apart j slot lj lt,
        l.apart i j li lj,
      );
    }

module _ (m : Memory) (slot : ℕ) (v : IsValid m) (lt : slot < get_tuple_count m)
    (used : get_tuple_size m slot ≢ 0) where
  abbrev at : ℕ
  at = get_tuple_offset m slot

  abbrev len : ℕ
  len = unset_deleted_flag (get_tuple_size m slot)

  -- The page before the last loop.
  abbrev before_loop : Memory
  before_loop =
      set_tuple_offset
        (set_tuple_size
          (set_free_space_pointer
            (move_bytes m (get_free_space_pointer m + len) (get_free_space_pointer m)
              (at - get_free_space_pointer m))
            (get_free_space_pointer m + len))
          slot 0)
        slot 0

  before_loop-Reads :
      Reads
        (get_tuple_count m)
        before_loop
        (get_free_space_pointer m + len)
        (get_tuple_count m)
        (λ j. if j == slot then 0 else get_tuple_offset m j)
        (size_after slot (get_tuple_size m))
  unfolding move_bytes
  before_loop-Reads =
      let n = get_tuple_count m in
      let p = get_free_space_pointer m in
      let o = get_tuple_offset m in
      let s = get_tuple_size m in
      let inside = v.inside slot lt used in
      let room = v.room in
      let m1 = move_bytes m (p + len) p (at - p) in
      let m2 = set_free_space_pointer m1 (p + len) in
      let r1 = behind-Reads n m p n o s (own-Reads n m) m1 (λ b hi. ground arith) in
      let r2 = set_free_space_pointer-Reads n m1 p n o s r1 (p + len) (omega (arith, inside)) in
      let r3 = set_tuple_size-Reads n m2 (p + len) n o s r2 slot 0 (omega arith) in
      set_tuple_offset-Reads n (set_tuple_size m2 slot 0) (p + len) n o (size_after slot s) r3 slot
        0 (omega arith)

  remove_tuple-Reads :
      Reads
        (get_tuple_count m)
        (remove_tuple m slot at len)
        (get_free_space_pointer m + len)
        (get_tuple_count m)
        (offset_after slot at len (get_tuple_offset m) (get_tuple_size m))
        (size_after slot (get_tuple_size m))
  unfolding remove_tuple
  remove_tuple-Reads =
      let n = get_tuple_count m in
      let p = get_free_space_pointer m in
      let inside = v.inside slot lt used in
      let bounded = v.bounded in
      let r =
        move_offsets-Reads n 0 n at len 0 before_loop (p + len) n
          (λ j. if j == slot then 0 else get_tuple_offset m j) (size_after slot (get_tuple_size m))
          (omega arith) before_loop-Reads in
      rw before_loop-Reads.count_is (record {
        pointer_is = r.pointer_is;
        count_is = r.count_is;
        offset_is = λ j in_n. ground (arith, r.offset_is j in_n);
        size_is = r.size_is;
      })

  -- The bytes behind the slots.
  remove_tuple_behind :
      (b : ℕ)
      → 24 + 8 * get_tuple_count m ≤ b
      → remove_tuple m slot at len b
        ≡ move_bytes m
            (get_free_space_pointer m + len)
            (get_free_space_pointer m)
            (at - get_free_space_pointer m)
            b
  unfolding remove_tuple set_tuple_offset set_tuple_size set_free_space_pointer
  remove_tuple_behind b le =
      let n = get_tuple_count m in
      let p = get_free_space_pointer m in
      let m1 = move_bytes m (p + len) p (at - p) in
      let m2 = set_free_space_pointer m1 (p + len) in
      let m3 = set_tuple_size m2 slot 0 in
      rw before_loop-Reads.count_is (
        move_offsets_behind n 0 at len 0 before_loop b (omega arith)
        ∙ set_u32_outside m3 (24 + 8 * slot) 0 b (inr (omega arith))
        ∙ set_u32_outside m2 (28 + 8 * slot) 0 b (inr (omega arith))
        ∙ set_u32_outside m1 16 (p + len) b (inr (omega arith)))

  get_tuple-remove_tuple :
      (j : ℕ) → j ≢ slot → get_tuple (remove_tuple m slot at len) j ≡ get_tuple m j
  unfolding move_bytes
  get_tuple-remove_tuple j ne =
      let r = remove_tuple-Reads in
      let m' = remove_tuple m slot at len in
      get_tuple_ext m m' j j (ground (arith, r.count_is))
        (λ within. ground (arith, r.size_is j (ground arith)))
        (λ within live k hi.
          let in_n : j < get_tuple_count m = ground arith in
          let here = v.inside slot lt used in
          let there = v.inside j in_n in
          let room = v.room in
          ground (
            arith,
            r.offset_is j in_n,
            v.filled j in_n,
            v.apart j slot in_n lt ne,
            remove_tuple_behind (get_tuple_offset m' j + k),
          ))

-- ApplyDelete of a slot in use of a well-formed page, marked as deleted or not, frees the bytes of
-- its tuple: the page is well-formed again, the slot has no tuple, and the tuple of every other slot
-- is as before, wherever it lies now.
pub apply_delete_lem :
    (m : Memory) (slot : ℕ)
    → IsValid m
    → slot < get_tuple_count m
    → get_tuple_size m slot ≢ 0
    → (m' : Memory) × (apply_delete m slot ≡ some m')
      × IsValid m'
      × (get_tuple m' slot ≡ none)
      × ((j : ℕ) → j ≢ slot → get_tuple m' j ≡ get_tuple m j)
      × (get_free_space_pointer m'
          ≡ get_free_space_pointer m + unset_deleted_flag (get_tuple_size m slot))
unfolding apply_delete get_tuple
apply_delete_lem m slot v lt used =
    let o = get_tuple_offset m slot in
    let l = unset_deleted_flag (get_tuple_size m slot) in
    let m' = remove_tuple m slot o l in
    let r = remove_tuple-Reads m slot v lt used in
    let inside = v.inside slot lt used in
    (
      m',
      ground arith,
      Reads-IsValid m' (get_free_space_pointer m + l) (get_tuple_count m)
          (offset_after slot o l (get_tuple_offset m) (get_tuple_size m))
          (size_after slot (get_tuple_size m)) r
          (remove-Layout (get_free_space_pointer m) (get_tuple_count m) (get_tuple_offset m)
            (get_tuple_size m) slot v lt used),
      ground (arith, r.size_is slot lt, r.count_is),
      get_tuple-remove_tuple m slot v lt used,
      r.pointer_is,
    )
