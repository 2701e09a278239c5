-- ===== src/TablePage/Fields.antt =====
-- What the writes of minisql/src/include/page/table_page.h leave in the fields of a table page.
use zju_database_system.Prelude.{
  ℕ, zero, suc, ◌+◌, ◌*◌, ◌^◌, ◌≤◌, ◌<◌, ◌≡◌, refl, ◌∙◌, inl, inr, not, ◌&&◌, arith, ltb, leb, ◌==◌,
  if◌then◌else◌, Bool-cases,
}
use zju_database_system.Memory.{
  Memory, get_u32, set_u32, set_u32_outside, get_u32-set_u32, get_u32-set_u32_ne, get_u32_of_eq,
}
use zju_database_system.TablePage.{
  get_free_space_pointer, set_free_space_pointer, get_tuple_count, set_tuple_count,
  get_tuple_offset, set_tuple_offset, get_tuple_size, set_tuple_size, sub32, move_offsets,
}

-- The free space pointer, the tuple count, and the offsets and sizes of the first `n` slots.
pub record Reads (n : ℕ) (m : Memory) (pointer count : ℕ) (offset size : ℕ → ℕ) : Type 0 where
  pub pointer_is : get_free_space_pointer m ≡ pointer
  pub count_is : get_tuple_count m ≡ count
  pub offset_is : (i : ℕ) → i < n → get_tuple_offset m i ≡ offset i
  pub size_is : (i : ℕ) → i < n → get_tuple_size m i ≡ size i

module _ (n : ℕ) (m : Memory) (pointer count : ℕ) (offset size : ℕ → ℕ)
    (r : Reads n m pointer count offset size) where
  pub set_free_space_pointer-Reads :
      (v : ℕ) → v < 2 ^ 32 → Reads n (set_free_space_pointer m v) v count offset size
  unfolding set_free_space_pointer get_free_space_pointer get_tuple_count get_tuple_offset
      get_tuple_size
  set_free_space_pointer-Reads v lt = record {
    pointer_is = get_u32-set_u32 m 16 v lt;
    count_is = get_u32-set_u32_ne m 16 v 20 (inr (omega arith)) ∙ r.count_is;
    offset_is =
        λ i in_n. get_u32-set_u32_ne m 16 v (24 + 8 * i) (inr (omega arith)) ∙ r.offset_is i in_n;
    size_is =
        λ i in_n. get_u32-set_u32_ne m 16 v (28 + 8 * i) (inr (omega arith)) ∙ r.size_is i in_n;
  }

  pub set_tuple_count-Reads :
      (v : ℕ) → v < 2 ^ 32 → Reads n (set_tuple_count m v) pointer v offset size
  unfolding set_tuple_count get_free_space_pointer get_tuple_count get_tuple_offset get_tuple_size
  set_tuple_count-Reads v lt = record {
    pointer_is = get_u32-set_u32_ne m 20 v 16 (inl (omega arith)) ∙ r.pointer_is;
    count_is = get_u32-set_u32 m 20 v lt;
    offset_is =
        λ i in_n. get_u32-set_u32_ne m 20 v (24 + 8 * i) (inr (omega arith)) ∙ r.offset_is i in_n;
    size_is =
        λ i in_n. get_u32-set_u32_ne m 20 v (28 + 8 * i) (inr (omega arith)) ∙ r.size_is i in_n;
  }

  pub set_tuple_offset-Reads :
      (i v : ℕ)
      → v < 2 ^ 32
      → Reads n (set_tuple_offset m i v) pointer count (λ j. if j == i then v else offset j) size
  unfolding set_tuple_offset get_free_space_pointer get_tuple_count get_tuple_offset get_tuple_size
  set_tuple_offset-Reads i v lt = record {
    pointer_is = get_u32-set_u32_ne m (24 + 8 * i) v 16 (inl (omega arith)) ∙ r.pointer_is;
    count_is = get_u32-set_u32_ne m (24 + 8 * i) v 20 (inl (omega arith)) ∙ r.count_is;
    offset_is = λ j in_n. ground (
      arith,
      get_u32-set_u32 m (24 + 8 * i) v,
      get_u32-set_u32_ne m (24 + 8 * i) v (24 + 8 * j),
      r.offset_is j in_n,
    );
    size_is = λ j in_n.
        ground (arith, get_u32-set_u32_ne m (24 + 8 * i) v (28 + 8 * j), r.size_is j in_n);
  }

  pub set_tuple_size-Reads :
      (i v : ℕ)
      → v < 2 ^ 32
      → Reads n (set_tuple_size m i v) pointer count offset (λ j. if j == i then v else size j)
  unfolding set_tuple_size get_free_space_pointer get_tuple_count get_tuple_offset get_tuple_size
  set_tuple_size-Reads i v lt = record {
    pointer_is = get_u32-set_u32_ne m (28 + 8 * i) v 16 (inl (omega arith)) ∙ r.pointer_is;
    count_is = get_u32-set_u32_ne m (28 + 8 * i) v 20 (inl (omega arith)) ∙ r.count_is;
    offset_is = λ j in_n.
        ground (arith, get_u32-set_u32_ne m (28 + 8 * i) v (24 + 8 * j), r.offset_is j in_n);
    size_is = λ j in_n. ground (
      arith,
      get_u32-set_u32 m (28 + 8 * i) v,
      get_u32-set_u32_ne m (28 + 8 * i) v (28 + 8 * j),
      r.size_is j in_n,
    );
  }

  -- A change behind the slots.
  pub behind-Reads :
      (m' : Memory) → ((b : ℕ) → b < 24 + 8 * n → m' b ≡ m b) → Reads n m' pointer count offset size
  unfolding get_free_space_pointer get_tuple_count get_tuple_offset get_tuple_size
  behind-Reads m' same =
      let word : (a : ℕ) → a + 4 ≤ 24 + 8 * n → get_u32 m' a ≡ get_u32 m a =
        λ a le. get_u32_of_eq m' m a (λ b lo hi. same b (omega arith)) in
      record {
        pointer_is = word 16 (omega arith) ∙ r.pointer_is;
        count_is = word 20 (omega arith) ∙ r.count_is;
        offset_is = λ i in_n. word (24 + 8 * i) (omega arith) ∙ r.offset_is i in_n;
        size_is = λ i in_n. word (28 + 8 * i) (omega arith) ∙ r.size_is i in_n;
      }

-- What a page is known to have of its own.
pub own-Reads :
    (n : ℕ) (m : Memory)
    → Reads n m
        (get_free_space_pointer m)
        (get_tuple_count m)
        (get_tuple_offset m)
        (get_tuple_size m)
own-Reads n m = record {
  pointer_is = refl;
  count_is = refl;
  offset_is = λ i in_n. refl;
  size_is = λ i in_n. refl;
}

-- The offset of a tuple after the last loop of UpdateTuple and ApplyDelete.
abbrev pub moved : ℕ → ℕ → ℕ → ℕ → ℕ → ℕ
moved limit plus minus offset size =
    if not (size == 0) && ltb offset limit then sub32 (offset + plus) minus else offset

pub move_offsets-Reads :
    (k i n limit plus minus : ℕ) (m : Memory) (pointer count : ℕ) (offset size : ℕ → ℕ)
    → i + k ≤ n
    → Reads n m pointer count offset size
    → Reads n
        (move_offsets k i limit plus minus m)
        pointer
        count
        (λ j.
          if leb i j && ltb j (i + k) then moved limit plus minus (offset j) (size j) else offset j)
        size
unfolding move_offsets
move_offsets-Reads zero i n limit plus minus m pointer count offset size le r = record {
  pointer_is = r.pointer_is;
  count_is = r.count_is;
  offset_is = λ j in_n. ground (arith, r.offset_is j in_n);
  size_is = r.size_is;
}
move_offsets-Reads (suc k) i n limit plus minus m pointer count offset size le r =
    let o = r.offset_is i (omega arith) in
    let s = r.size_is i (omega arith) in
    elim (Bool-cases (not (size i == 0) && ltb (offset i) limit)) [
      | inl hit ↦
          let m' = set_tuple_offset m i (sub32 (offset i + plus) minus) in
          let r' =
            set_tuple_offset-Reads n m pointer count offset size r i (sub32 (offset i + plus) minus)
              (omega arith) in
          let rest =
            move_offsets-Reads k (i + 1) n limit plus minus m' pointer count
              (λ j. if j == i then sub32 (offset i + plus) minus else offset j) size (omega arith)
              r' in
          rw (o, s, hit)
            (record {
              pointer_is = rest.pointer_is;
              count_is = rest.count_is;
              offset_is = λ j in_n. ground (arith, rest.offset_is j in_n);
              size_is = rest.size_is;
            })
      | inr miss ↦
          let rest =
            move_offsets-Reads k (i + 1) n limit plus minus m pointer count offset size
              (omega arith) r in
          rw (o, s, miss)
            (record {
              pointer_is = rest.pointer_is;
              count_is = rest.count_is;
              offset_is = λ j in_n. ground (arith, rest.offset_is j in_n);
              size_is = rest.size_is;
            })
    ]

-- The bytes behind the slots stay.
pub move_offsets_behind :
    (k i limit plus minus : ℕ) (m : Memory) (b : ℕ)
    → 24 + 8 * (i + k) ≤ b
    → move_offsets k i limit plus minus m b ≡ m b
unfolding move_offsets set_tuple_offset
move_offsets_behind zero i limit plus minus m b le = refl
move_offsets_behind (suc k) i limit plus minus m b le =
    let offset = get_tuple_offset m i in
    let m' = set_u32 m (24 + 8 * i) (sub32 (offset + plus) minus) in
    elim (Bool-cases (not (get_tuple_size m i == 0) && ltb offset limit)) [
      | inl hit ↦ rw hit (
          move_offsets_behind k (i + 1) limit plus minus m' b (omega arith)
          ∙ set_u32_outside m (24 + 8 * i) (sub32 (offset + plus) minus) b (inr (omega arith)))
      | inr miss ↦ rw miss (move_offsets_behind k (i + 1) limit plus minus m b (omega arith))
    ]
