-- ===== src/BufferPool/Flush.antt =====
-- FlushPage and UnpinPage of minisql/src/buffer/buffer_pool_manager.cpp, and the page contents that
-- the users of the pool see.
use zju_database_system.Prelude.{
  ℕ, ◌*◌, ◌/◌, ◌^◌, ◌<◌, ◌≡◌, sym, ap, ◌∙◌, ◌⊎◌, inl, inr, true, false, Option, none, some, arith,
  ltb, ◌==◌, if◌then◌else◌, Bool-cases, Option-cases,
}
use zju_database_system.Memory.{Memory, page_size}
use zju_database_system.Disk.{Disk, read_page, write_page, map_page_id, bitmap_page_id, bitmap_size}
use zju_database_system.Disk.Laws.{read-write_page}
use zju_database_system.BufferPool.{BufferPool, flush_page}

-- The bytes of a page.
abbrev pub whole : Memory → Memory
whole m b = if ltb b page_size then m b else 0

-- What a page holds: the data of its frame, or else what the disk has.
abbrev pub content : BufferPool → ℕ → Option Memory
content p q = elim (p.page_table q) [
  | some f ↦ some (whole (p.pages f).bytes)
  | none ↦ elim (read_page p.disk q) [ none ↦ none | some m ↦ some (whole m) ]
]

-- The disk manager's int positions do not overflow for the page, nor in a write of page `q`.
pub record InRange (d : Disk) (p q : ℕ) : Type 0 where
  pub position : map_page_id q * page_size < 2 ^ 31
  pub bitmap : bitmap_page_id (q / bitmap_size) * page_size < 2 ^ 31
  pub file : (m : Memory) → (write_page d p m).file_size < 2 ^ 31

pub not_resident :
    (page_table : ℕ → Option ℕ) (id q f : ℕ)
    → page_table id ≡ some f
    → page_table q ≡ none
    → (q == id) ≡ false
not_resident page_table id q f here out = elim (Bool-cases (q == id)) [
  | inr ne ↦ ne
  | inl e ↦
      let e' : q ≡ id = ground arith in
      let both : none ≡ some f = sym out ∙ ap page_table e' ∙ here in absurd (cc)
]

-- FlushPage of a page in the pool puts its data on the disk and leaves the contents of every page as
-- they were; of another page it answers false and changes nothing.
pub flush_page_lem :
    (p : BufferPool) (id q : ℕ)
    → InRange p.disk id id
    → InRange p.disk id q
    → ((p.page_table id ≡ none) × (flush_page p id ≡ (p, false)))
      ⊎ ((f : ℕ) × (p.page_table id ≡ some f)
          × ((flush_page p id).1 ≡ true)
          × (read_page (flush_page p id).0.disk id ≡ some (whole (p.pages f).bytes))
          × (((flush_page p id).0.pages f).is_dirty ≡ false)
          × (content (flush_page p id).0 q ≡ content p q))
unfolding flush_page
flush_page_lem p id q self other = elim (Option-cases (p.page_table id)) [
  | inl absent ↦ inl (absent, ground arith)
  | inr (f, here) ↦
      let stored = (p.pages f).bytes in
      let mine =
        (read-write_page p.disk id id stored self.position self.bitmap (self.file stored)).0 in
      let rest =
        (read-write_page p.disk id q stored other.position other.bitmap (other.file stored)).0 in
      inr (
        f,
        here,
        ground arith,
        ground (arith, mine),
        ground arith,
        elim (Option-cases (p.page_table q)) [
          | inl out ↦
              let other_page : (q == id) ≡ false = not_resident p.page_table id q f here out in
              ground (arith, rest)
          | inr (g, in_pool) ↦ ground arith
        ],
      )
]
