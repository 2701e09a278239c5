-- ===== src/TablePage/Replace.antt =====
-- The part of UpdateTuple of minisql/src/page/table_page.cpp that moves the tuples and writes the row.
use zju_database_system.Prelude.{
  ℕ, ◌+◌, ◌-◌, ◌*◌, ◌%◌, ◌^◌, ◌≤◌, ◌<◌, ◌≡◌, ◌≢◌, ◌∙◌, inr, false, not, ◌&&◌, some, arith, ltb, leb,
  ◌==◌, if◌then◌else◌,
}
use zju_database_system.Memory.{Memory, page_size, move_bytes, set_u32_outside}
use zju_database_system.Arrays.Segments.{segment, segment_ext}
use zju_database_system.TablePage.{
  Serialized, get_free_space_pointer, set_free_space_pointer, get_tuple_count, get_tuple_offset,
  get_tuple_size, set_tuple_size, get_tuple, is_deleted, unset_deleted_flag, serialize_to,
  replace_tuple, sub32,
}
use zju_database_system.TablePage.Fields.{
  Reads, own-Reads, behind-Reads, set_free_space_pointer-Reads, set_tuple_size-Reads,
  move_offsets-Reads, move_offsets_behind,
}
use zju_database_system.TablePage.Layout.{Layout, IsValid, Reads-IsValid, get_tuple_ext}

-- The offset of each slot when the tuple of `slot` has `new` bytes instead of `len`; the end of the
-- old tuple is `limit`.
abbrev offset_after : ℕ → ℕ → ℕ → (ℕ → ℕ) → (ℕ → ℕ) → ℕ → ℕ
offset_after limit len new offset size j =
    if not (size j == 0) && ltb (offset j) limit then offset j + len - new else offset j

abbrev size_after : ℕ → ℕ → (ℕ → ℕ) → ℕ → ℕ
size_after slot new size j = if j == slot then new else size j

replace-Layout :
    (pointer count : ℕ) (offset size : ℕ → ℕ) (slot new : ℕ)
    → Layout pointer count offset size
    → slot < count
    → is_deleted (size slot) ≡ false
    → 0 < new
    → 24 + 8 * count + new ≤ pointer + size slot
    → Layout
        (pointer + size slot - new)
        count
        (offset_after (offset slot + size slot) (size slot) new offset size)
        (size_after slot new size)
replace-Layout pointer count offset size slot new l lt live pos room =
    let at = l.inside slot lt (ground arith) in
    let bounded = l.bounded in
    let short : unset_deleted_flag (size slot) ≡ size slot = ground arith in
    record {
      room = omega arith;
      bounded = omega (arith, at);
      word = λ i li. ground (arith, l.word i li);
      filled = λ i li. ground (arith, l.filled i li);
      inside = λ i li. ground (arith, l.inside i li, l.filled i li, at, l.apart i slot li lt);
      apart = λ i j li lj. ground (
        arith,
        l.inside i li,
        l.inside j lj,
        l.filled i li,
        l.filled j lj,
        at,
        l.apart i slot li lt,
        l.apart j slot lj lt,
        l.apart i j li lj,
      );
    }

module _ (m : Memory) (slot : ℕ) (row : Serialized) (v : IsValid m) (lt : slot < get_tuple_count m)
    (live : is_deleted (get_tuple_size m slot) ≡ false) (pos : 0 < row.size)
    (room : 24 + 8 * get_tuple_count m + row.size
      ≤ get_free_space_pointer m + get_tuple_size m slot) where
  abbrev at : ℕ
  at = get_tuple_offset m slot

  abbrev len : ℕ
  len = get_tuple_size m slot

  abbrev target : ℕ
  target = get_free_space_pointer m + len - row.size

  -- The bytes behind the slots when the tuples and the row are in place.
  abbrev bytes_after : Memory
  bytes_after b =
      if leb (at + len - row.size) b && ltb b (at + len)
      then row.bytes (b - (at + len - row.size))
      else move_bytes m target (get_free_space_pointer m) (at - get_free_space_pointer m) b

  abbrev before_loop : Memory
  before_loop =
      set_tuple_size
        (serialize_to
          (set_free_space_pointer
            (move_bytes m (sub32 (get_free_space_pointer m + len) row.size)
              (get_free_space_pointer m) (at - get_free_space_pointer m))
            (sub32 (get_free_space_pointer m + len) row.size))
          (sub32 (at + len) row.size) row)
        slot row.size

  targets :
      (sub32 (get_free_space_pointer m + len) row.size ≡ target)
      × (sub32 (at + len) row.size ≡ at + len - row.size)
      × ((at + len) % 2 ^ 32 ≡ at + len)
      × (24 + 8 * get_tuple_count m ≤ target)
      × (target ≤ at + len - row.size)
      × (row.size ≤ at + len)
      × (get_free_space_pointer m ≤ at)
      × (at + len ≤ page_size)
  targets =
      let here = v.inside slot lt (ground arith) in
      let bounded = v.bounded in
      let short : unset_deleted_flag len ≡ len = ground arith in
      (
        omega (arith, here),
        omega (arith, here),
        omega (arith, here),
        omega arith,
        omega (arith, here),
        omega (arith, here),
        here.0,
        omega (arith, here),
      )

  before_loop-Reads :
      Reads
        (get_tuple_count m)
        before_loop
        target
        (get_tuple_count m)
        (get_tuple_offset m)
        (size_after slot row.size (get_tuple_size m))
  unfolding move_bytes serialize_to
  before_loop-Reads =
      let n = get_tuple_count m in
      let p = get_free_space_pointer m in
      let o = get_tuple_offset m in
      let s = get_tuple_size m in
      let t = targets in
      let bounded = v.bounded in
      let m1 = move_bytes m target p (at - p) in
      let m2 = set_free_space_pointer m1 target in
      let m3 = serialize_to m2 (at + len - row.size) row in
      let r1 = behind-Reads n m p n o s (own-Reads n m) m1 (λ b hi. ground (arith, t)) in
      let r2 = set_free_space_pointer-Reads n m1 p n o s r1 target (omega (arith, t)) in
      let r3 = behind-Reads n m2 target n o s r2 m3 (λ b hi. ground (arith, t)) in
      rw (t.0, t.1) (set_tuple_size-Reads n m3 target n o s r3 slot row.size (omega (arith, t)))

  replace_tuple-Reads :
      Reads
        (get_tuple_count m)
        (replace_tuple m slot at len row)
        target
        (get_tuple_count m)
        (offset_after (at + len) len row.size (get_tuple_offset m) (get_tuple_size m))
        (size_after slot row.size (get_tuple_size m))
  unfolding replace_tuple
  replace_tuple-Reads =
      let n = get_tuple_count m in
      let p = get_free_space_pointer m in
      let t = targets in
      let r =
        move_offsets-Reads n 0 n (at + len) len row.size before_loop target n (get_tuple_offset m)
          (size_after slot row.size (get_tuple_size m)) (omega arith) before_loop-Reads in
      rw (before_loop-Reads.count_is, t.2)
        (record {
          pointer_is = r.pointer_is;
          count_is = r.count_is;
          offset_is = λ j in_n. ground (arith, r.offset_is j in_n, v.inside j in_n, t);
          size_is = r.size_is;
        })

  before_loop_behind : (b : ℕ) → 24 + 8 * get_tuple_count m ≤ b → before_loop b ≡ bytes_after b
  unfolding set_tuple_size set_free_space_pointer serialize_to
  before_loop_behind b le =
      let p = get_free_space_pointer m in
      let t = targets in
      let m1 = move_bytes m target p (at - p) in
      let m3 = serialize_to (set_free_space_pointer m1 target) (at + len - row.size) row in
      rw (t.0, t.1)
        (set_u32_outside m3 (28 + 8 * slot) row.size b (inr (omega arith))
          ∙ ground (arith, t, set_u32_outside m1 16 target b))

  replace_tuple_behind :
      (b : ℕ) → 24 + 8 * get_tuple_count m ≤ b → replace_tuple m slot at len row b ≡ bytes_after b
  unfolding replace_tuple
  replace_tuple_behind b le =
      let t = targets in
      rw (before_loop-Reads.count_is, t.2)
        (move_offsets_behind (get_tuple_count m) 0 (at + len) len row.size before_loop b
            (omega arith)
          ∙ before_loop_behind b le)

  pub replace_tuple-IsValid : IsValid (replace_tuple m slot at len row)
  replace_tuple-IsValid =
      Reads-IsValid (replace_tuple m slot at len row) target (get_tuple_count m)
        (offset_after (at + len) len row.size (get_tuple_offset m) (get_tuple_size m))
        (size_after slot row.size (get_tuple_size m)) replace_tuple-Reads
        (replace-Layout (get_free_space_pointer m) (get_tuple_count m) (get_tuple_offset m)
          (get_tuple_size m) slot row.size v lt live pos room)

  pub get_tuple-replace_self :
      get_tuple (replace_tuple m slot at len row) slot ≡ some (segment row.bytes 0 row.size)
  unfolding get_tuple
  get_tuple-replace_self =
      let r = replace_tuple-Reads in
      let t = targets in
      let bounded = v.bounded in
      let m' = replace_tuple m slot at len row in
      let same =
        segment_ext m' row.bytes (at + len - row.size) 0 row.size
          (λ j hi. ground (arith, t, replace_tuple_behind (at + len - row.size + j))) in
      ground (arith, r.count_is, r.offset_is slot lt, r.size_is slot lt, same, t)

  pub get_tuple-replace_ne :
      (j : ℕ) → j ≢ slot → get_tuple (replace_tuple m slot at len row) j ≡ get_tuple m j
  unfolding move_bytes
  get_tuple-replace_ne j ne =
      let r = replace_tuple-Reads in
      let m' = replace_tuple m slot at len row in
      get_tuple_ext m m' j j (ground (arith, r.count_is))
        (λ within. ground (arith, r.size_is j (ground arith)))
        (λ within live' k hi.
          let in_n : j < get_tuple_count m = ground arith in
          let there = v.inside j in_n in
          let t = targets in
          ground (
            arith,
            t,
            r.offset_is j in_n,
            v.filled j in_n,
            v.apart j slot in_n lt ne,
            replace_tuple_behind (get_tuple_offset m' j + k),
          ))
