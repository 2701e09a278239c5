-- ===== src/TablePage/Init.antt =====
-- Init of minisql/src/page/table_page.cpp.
use zju_database_system.Prelude.{ℕ, ◌≡◌, none, arith}
use zju_database_system.Memory.{invalid_page_id, Memory, page_size, set_u32}
use zju_database_system.TablePage.{
  init, set_prev_page_id, set_next_page_id, set_free_space_pointer, set_tuple_count, get_tuple,
  get_tuple_count, get_tuple_offset, get_tuple_size, get_free_space_pointer,
}
use zju_database_system.TablePage.Fields.{
  own-Reads, set_free_space_pointer-Reads, set_tuple_count-Reads,
}
use zju_database_system.TablePage.Layout.{IsValid, Reads-IsValid}

-- Init leaves a well-formed page with no tuple in any slot.
pub init_lem :
    (m : Memory) (page_id prev_id : ℕ)
    → IsValid (init m page_id prev_id)
      × ((slot : ℕ) → get_tuple (init m page_id prev_id) slot ≡ none)
unfolding init get_tuple
init_lem m page_id prev_id =
    let m1 = set_next_page_id (set_prev_page_id (set_u32 m 0 page_id) prev_id) invalid_page_id in
    let o = get_tuple_offset m1 in
    let s = get_tuple_size m1 in
    let m2 = set_free_space_pointer m1 page_size in
    let n = get_tuple_count m1 in
    let r =
      set_free_space_pointer-Reads 0 m1 (get_free_space_pointer m1) n o s (own-Reads 0 m1) page_size
        (omega arith) in
    let r' = set_tuple_count-Reads 0 m2 page_size n o s r 0 (omega arith) in
    (
      Reads-IsValid (set_tuple_count m2 0) page_size 0 o s r' (record {
        room = omega arith;
        bounded = omega arith;
        word = λ i lt. absurd (omega arith);
        filled = λ i lt used. absurd (omega arith);
        inside = λ i lt used. absurd (omega arith);
        apart = λ i j lt. absurd (omega arith);
      }),
      λ slot. ground (arith, r'.count_is),
    )
