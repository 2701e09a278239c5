-- ===== src/TablePage/Links.antt =====
-- The ids of a table page and of its neighbours in minisql/src/include/page/table_page.h, against its
-- tuples.
use zju_database_system.Prelude.{ℕ, ◌+◌, ◌*◌, ◌^◌, ◌≤◌, ◌<◌, ◌≡◌, refl, ap, ◌∙◌, inl, inr, arith}
use zju_database_system.Memory.{
  Memory, invalid_page_id, page_size, get_u32, get_u32_of_eq, set_u32, set_u32_outside,
  get_u32-set_u32, get_u32-set_u32_ne,
}
use zju_database_system.TablePage.{
  get_table_page_id, get_next_page_id, set_next_page_id, set_prev_page_id, get_free_space_pointer,
  set_free_space_pointer, get_tuple_count, set_tuple_count, get_tuple_offset, get_tuple_size,
  get_tuple, init,
}
use zju_database_system.TablePage.Fields.{Reads}
use zju_database_system.TablePage.Layout.{IsValid, Reads-IsValid, get_tuple_ext}

-- Two pages with the same ids in front.
pub links_of_eq :
    (m m' : Memory)
    → ((b : ℕ) → b < 16 → m' b ≡ m b)
    → (get_table_page_id m' ≡ get_table_page_id m) × (get_next_page_id m' ≡ get_next_page_id m)
unfolding get_table_page_id get_next_page_id
links_of_eq m m' same = (
  get_u32_of_eq m' m 0 (λ b lo hi. same b (omega arith)),
  get_u32_of_eq m' m 12 (λ b lo hi. same b (omega arith)),
)

module _ (m m' : Memory) (same : (b : ℕ) → 16 ≤ b → m' b ≡ m b) where
  behind_links-Reads :
      Reads
        (get_tuple_count m)
        m'
        (get_free_space_pointer m)
        (get_tuple_count m)
        (get_tuple_offset m)
        (get_tuple_size m)
  unfolding get_free_space_pointer get_tuple_count get_tuple_offset get_tuple_size
  behind_links-Reads =
      let word : (a : ℕ) → 16 ≤ a → get_u32 m' a ≡ get_u32 m a =
        λ a le. get_u32_of_eq m' m a (λ b lo hi. same b (omega arith)) in
      record {
        pointer_is = word 16 (omega arith);
        count_is = word 20 (omega arith);
        offset_is = λ i lt. word (24 + 8 * i) (omega arith);
        size_is = λ i lt. word (28 + 8 * i) (omega arith);
      }

  -- Pages that differ only in the ids have the same tuples.
  pub behind_links_lem :
      IsValid m → IsValid m' × ((slot : ℕ) → get_tuple m' slot ≡ get_tuple m slot)
  behind_links_lem v =
      let r = behind_links-Reads in
      let slots = v.room in
      (
        Reads-IsValid m' (get_free_space_pointer m) (get_tuple_count m) (get_tuple_offset m)
            (get_tuple_size m) r v,
        λ j.
            get_tuple_ext m m' j j (ground (arith, r.count_is))
              (λ within. r.size_is j (ground arith))
              (λ within live k hi.
                let in_n : j < get_tuple_count m = ground arith in
                let there = v.inside j in_n in
                let e : get_tuple_offset m' j ≡ get_tuple_offset m j = r.offset_is j in_n in
                let far : get_tuple_offset m j + k ≡ get_tuple_offset m j + k = refl in
                ap (λ o. m' (o + k)) e ∙ same (get_tuple_offset m j + k) (ground (arith, there))),
      )

pub set_next_page_id_lem :
    (m : Memory) (next_page_id : ℕ)
    → IsValid m
    → next_page_id < 2 ^ 32
    → (let m' = set_next_page_id m next_page_id in
        IsValid m'
        × ((slot : ℕ) → get_tuple m' slot ≡ get_tuple m slot)
        × (get_table_page_id m' ≡ get_table_page_id m)
        × (get_next_page_id m' ≡ next_page_id))
unfolding set_next_page_id get_table_page_id get_next_page_id
set_next_page_id_lem m next_page_id v lt =
    let (valid, tuples) =
      behind_links_lem m (set_u32 m 12 next_page_id)
        (λ b le. set_u32_outside m 12 next_page_id b (inr le)) v in
    (
      valid,
      tuples,
      get_u32-set_u32_ne m 12 next_page_id 0 (inl (omega arith)),
      get_u32-set_u32 m 12 next_page_id lt,
    )

pub init_fields :
    (m : Memory) (page_id prev_id : ℕ)
    → page_id < 2 ^ 32
    → (let m' = init m page_id prev_id in
        (get_table_page_id m' ≡ page_id)
        × (get_next_page_id m' ≡ invalid_page_id)
        × (get_free_space_pointer m' ≡ page_size)
        × (get_tuple_count m' ≡ 0))
unfolding init set_tuple_count set_free_space_pointer set_next_page_id set_prev_page_id
    get_table_page_id get_next_page_id get_free_space_pointer get_tuple_count
init_fields m page_id prev_id lt =
    let m1 = set_u32 m 0 page_id in
    let m2 = set_u32 m1 8 prev_id in
    let m3 = set_u32 m2 12 invalid_page_id in
    let m4 = set_u32 m3 16 page_size in
    (
      get_u32-set_u32_ne m4 20 0 0 (inl (omega arith))
          ∙ get_u32-set_u32_ne m3 16 page_size 0 (inl (omega arith))
          ∙ get_u32-set_u32_ne m2 12 invalid_page_id 0 (inl (omega arith))
          ∙ get_u32-set_u32_ne m1 8 prev_id 0 (inl (omega arith))
          ∙ get_u32-set_u32 m 0 page_id lt,
      get_u32-set_u32_ne m4 20 0 12 (inl (omega arith))
          ∙ get_u32-set_u32_ne m3 16 page_size 12 (inl (omega arith))
          ∙ get_u32-set_u32 m2 12 invalid_page_id (omega arith),
      get_u32-set_u32_ne m4 20 0 16 (inl (omega arith))
          ∙ get_u32-set_u32 m3 16 page_size (omega arith),
      get_u32-set_u32 m4 20 0 (omega arith),
    )
