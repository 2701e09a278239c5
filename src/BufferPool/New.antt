-- ===== src/BufferPool/New.antt =====
-- NewPage of minisql/src/buffer/buffer_pool_manager.cpp when no frame is free.
use zju_database_system.Prelude.{
  ℕ, ◌≡◌, ◌≢◌, refl, ◌⊎◌, inl, inr, true, none, some, arith, Option-cases,
}
use zju_database_system.Memory.{reset_memory}
use zju_database_system.Disk
use zju_database_system.Disk.{Disk}
use zju_database_system.Replacer.{back, victim}
use zju_database_system.BufferPool.{
  Page, BufferPool, set_page, set_entry, take_frame, take_frame_or, place_page, new_page,
}

-- Where no frame is free and the replacer has one, NewPage asks the replacer twice and uses the
-- second frame, or the first if there is no second. The page is new, pinned once and zero; the map
-- keeps its entry of the page that was in the frame, and no data of that page goes to the disk.
pub new_page_lem :
    (p : BufferPool) (first id : ℕ) (disk : Disk)
    → back p.free_list ≡ none
    → (victim p.replacer).1 ≡ some first
    → Disk.allocate_page p.disk ≡ some (disk, id)
    → (let second = victim (victim p.replacer).0 in
        (p' : BufferPool) × (f : ℕ) × (new_page p ≡ some (p', some (id, f)))
        × ((second.1 ≡ some f) ⊎ ((second.1 ≡ none) × (f ≡ first)))
        × (p'.disk ≡ disk)
        × (p'.pages f
            ≡ record { bytes = reset_memory; page_id = id; pin_count = 1; is_dirty = true })
        × (p'.page_table id ≡ some f)
        × ((k : ℕ) → k ≢ id → p'.page_table k ≡ p.page_table k))
unfolding new_page place_page take_frame_or take_frame
new_page_lem p first id disk no_free one allocated =
    let r = (victim p.replacer).0 in
    let second = victim r in
    elim (Option-cases second.1) [
      | inr (f, two) ↦
          let page : Page = record {
            bytes = reset_memory;
            page_id = id;
            pin_count = 1;
            is_dirty = true;
          } in
          (
            set_page
                (record p {
                  disk = disk;
                  replacer = second.0;
                  page_table = set_entry p.page_table id (some f);
                })
                f page,
            f,
            ground arith,
            inl two,
            refl,
            ground arith,
            ground arith,
            λ k ne. ground arith,
          )
      | inl none_left ↦
          let page : Page = record {
            bytes = reset_memory;
            page_id = id;
            pin_count = 1;
            is_dirty = true;
          } in
          (
            set_page
                (record p {
                  disk = disk;
                  replacer = r;
                  page_table = set_entry p.page_table id (some first);
                })
                first page,
            first,
            ground arith,
            inr (none_left, refl),
            refl,
            ground arith,
            ground arith,
            λ k ne. ground arith,
          )
    ]
