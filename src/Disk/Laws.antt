-- ===== src/Disk/Laws.antt =====
-- The layout of the database file and the reads and writes of minisql/src/storage/
-- disk_manager.cpp: MapPageId, ReadPage and WritePage.
use zju_database_system.Prelude.{
  ℕ, ◌+◌, ◌-◌, ◌*◌, ◌/◌, ◌^◌, ◌<◌, ◌≡◌, ◌≢◌, sym, ap, ◌∙◌, inl, inr, ◌&&◌, some, arith, ltb, ◌==◌,
  if◌then◌else◌, Bool-cases, fun_ext, ==_iff,
}
use mathlib.Core.Bool.{false≢true}
use zju_database_system.Memory.{Memory, page_size}
use zju_database_system.Disk.{
  Disk, bitmap_size, meta_page_id, bitmap_page_id, map_page_id, read_physical_page,
  write_physical_page, read_page, write_page, is_page_free,
}

-- MapPageId sends different logical pages to different physical pages, and none of them to the meta
-- page or to the bitmap page of an extent.
pub map_page_id_lem :
    (p q i : ℕ)
    → (map_page_id p ≡ map_page_id q → p ≡ q)
      × (map_page_id p ≢ meta_page_id)
      × (map_page_id p ≢ bitmap_page_id i)
unfolding map_page_id
map_page_id_lem p q i = (λ e. omega arith, omega arith, λ e. omega arith)

-- The bytes that ReadPhysicalPage delivers.
abbrev page_bytes : Disk → ℕ → Memory
page_bytes d p b =
    if ltb b page_size && ltb (p * page_size + b) d.file_size
    then d.bytes (p * page_size + b)
    else 0

read_physical_page_lem :
    (d : Disk) (p : ℕ)
    → p * page_size < 2 ^ 31
    → d.file_size < 2 ^ 31
    → read_physical_page d p ≡ some (page_bytes d p)
unfolding read_physical_page
read_physical_page_lem d p hp hs = ground (arith)

page_bytes-write_self :
    (d : Disk) (p b : ℕ) (m : Memory)
    → page_bytes (write_physical_page d p m) p b ≡ (if ltb b page_size then m b else 0)
unfolding write_physical_page
page_bytes-write_self d p b m = elim (Bool-cases (ltb b page_size)) [
  | inl within ↦
      let offset : p * page_size + b - p * page_size ≡ b = omega arith in ground (arith, offset)
  | inr outside ↦ ground arith
]

page_bytes-write_ne :
    (d : Disk) (p q b : ℕ) (m : Memory)
    → q ≢ p
    → page_bytes (write_physical_page d p m) q b ≡ page_bytes d q b
unfolding write_physical_page
page_bytes-write_ne d p q b m h = ground arith

-- One page of the file after a write, where neither touches the int limit.
pub read-write_physical :
    (d : Disk) (p q : ℕ) (m : Memory)
    → q * page_size < 2 ^ 31
    → (write_physical_page d p m).file_size < 2 ^ 31
    → read_physical_page (write_physical_page d p m) q
      ≡ (if q == p then some (λ b. if ltb b page_size then m b else 0) else read_physical_page d q)
unfolding write_physical_page
read-write_physical d p q m hq hs = elim (Bool-cases (q == p)) [
  | inl here ↦
      let e : q ≡ p = ground arith in
      rw here (
        read_physical_page_lem (write_physical_page d p m) q hq hs
        ∙ ap some (
            fun_ext λ b.
              ap (λ t. page_bytes (write_physical_page d p m) t b) e
              ∙ page_bytes-write_self d p b m))
  | inr there ↦ rw there (
      read_physical_page_lem (write_physical_page d p m) q hq hs
      ∙ ap some (fun_ext λ b. page_bytes-write_ne d p q b m (ground arith))
      ∙ sym (read_physical_page_lem d q hq (omega arith)))
]

-- Where no byte position leaves the range of int, ReadPage delivers what WritePage last wrote to
-- the page, and a write leaves every other page and the allocation of every page as they were.
pub read-write_page :
    (d : Disk) (p q : ℕ) (m : Memory)
    → map_page_id q * page_size < 2 ^ 31
    → bitmap_page_id (q / bitmap_size) * page_size < 2 ^ 31
    → (write_page d p m).file_size < 2 ^ 31
    → (read_page (write_page d p m) q
        ≡ (if q == p then some (λ b. if ltb b page_size then m b else 0) else read_page d q))
      × (is_page_free (write_page d p m) q ≡ is_page_free d q)
unfolding read_page write_page is_page_free
read-write_page d p q m hq hb hs =
    let layout = map_page_id_lem p q (q / bitmap_size) in
    let elsewhere : bitmap_page_id (q / bitmap_size) ≢ map_page_id p = λ e. layout.2 (sym e) in
    let bitmap = read-write_physical d (map_page_id p) (bitmap_page_id (q / bitmap_size)) m hb hs in
    let here = read-write_physical d (map_page_id p) (map_page_id q) m hq hs in
    (
      elim (Bool-cases (q == p)) [
        | inl e ↦ ground (arith, here)
        | inr e ↦
            let other : map_page_id q ≢ map_page_id p =
              λ h. absurd (false≢true (sym e ∙ (==_iff q p).1 (sym (layout.0 (sym h))))) in
            ground (arith, here)
      ],
      ground (arith, bitmap),
    )
