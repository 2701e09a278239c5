-- ===== src/BufferPool.antt =====
-- BufferPoolManager of minisql/src/buffer/buffer_pool_manager.cpp: the frames, the map from page ids
-- to frames, the free list, the replacer and the disk manager. A Page pointer is its frame. `none`
-- stands for a failure of the disk manager's model and for a frame id that is read before it is set.
pub mod Flush
pub mod Unpin
pub mod New
mod Tests
use zju_database_system.Prelude.{
  ℕ, zero, suc, ◌+◌, ◌-◌, Bool, true, false, not, ◌&&◌, Option, none, some, List, [], ◌∷◌, ◌++◌,
  ltb, ◌==◌, if◌then◌else◌, ◌>>=◌,
}
use zju_database_system.Memory.{Memory, invalid_page_id, reset_memory}
use zju_database_system.Disk
use zju_database_system.Disk.{Disk, read_page, write_page}
use zju_database_system.Replacer
use zju_database_system.Replacer.{Replacer, back, victim, pin, unpin}

-- pin_count_ is only decremented where it is positive, so that it is never negative.
pub record Page : Type 0 where
  pub bytes : Memory
  pub page_id : ℕ
  pub pin_count : ℕ
  pub is_dirty : Bool

pub record BufferPool : Type 0 where
  pub pool_size : ℕ
  pub pages : ℕ → Page
  pub disk : Disk
  pub page_table : ℕ → Option ℕ
  pub replacer : Replacer
  pub free_list : List ℕ

unfoldable pub pop_back : List ℕ → List ℕ
pop_back [] = []
pop_back (x ∷ []) = []
pop_back (x ∷ y ∷ xs) = x ∷ pop_back (y ∷ xs)

-- 0, 1 ... n - 1 from `i` on.
unfoldable pub frames_from : ℕ → ℕ → List ℕ
frames_from zero i = []
frames_from (suc n) i = i ∷ frames_from n (i + 1)

pub init : ℕ → Disk → BufferPool
init pool_size disk = record {
  pool_size = pool_size;
  pages = λ f. record {
    bytes = reset_memory;
    page_id = invalid_page_id;
    pin_count = 0;
    is_dirty = false;
  };
  disk = disk;
  page_table = λ k. none;
  replacer = Replacer.init pool_size;
  free_list = frames_from pool_size 0;
}

abbrev pub set_page : BufferPool → ℕ → Page → BufferPool
set_page p frame_id page = record p { pages = λ f. if f == frame_id then page else p.pages f }

abbrev pub set_entry : (ℕ → Option ℕ) → ℕ → Option ℕ → ℕ → Option ℕ
set_entry page_table page_id entry k = if k == page_id then entry else page_table k

unfoldable pub flush_page : BufferPool → ℕ → BufferPool × Bool
flush_page p page_id = elim (p.page_table page_id) [
  | none ↦ (p, false)
  | some f ↦ (
    set_page (record p { disk = write_page p.disk page_id (p.pages f).bytes }) f
        (record (p.pages f) { is_dirty = false }),
    true,
  )
]

-- UnpinPage where the page is in frame `f`.
unfoldable pub unpin_frame : BufferPool → ℕ → ℕ → Bool → BufferPool
unpin_frame p page_id f is_dirty =
    let count = (p.pages f).pin_count - 1 in
    let p1 = set_page p f (record (p.pages f) { pin_count = count }) in
    let p2 = if count == 0 then record p1 { replacer = unpin p1.replacer f } else p1 in
    let p3 = set_page p2 f (record (p2.pages f) { is_dirty = true }) in
    if is_dirty then (flush_page p3 page_id).0 else p2

unfoldable pub unpin_page : BufferPool → ℕ → Bool → BufferPool × Bool
unpin_page p page_id is_dirty = elim (p.page_table page_id) [
  | none ↦ (p, false)
  | some f ↦ (unpin_frame p page_id f is_dirty, true)
]

-- A frame from the free list, or else from the replacer.
unfoldable pub take_frame : BufferPool → Option (BufferPool × ℕ)
take_frame p = elim (back p.free_list) [
  | some f ↦ some (record p { free_list = pop_back p.free_list }, f)
  | none ↦
      let (r, found) = victim p.replacer in
      elim found [ some f ↦ some (record p { replacer = r }, f) | none ↦ none ]
]

-- The page of the frame replaced by the page with the id.
unfoldable pub load_page : BufferPool → ℕ → ℕ → Option BufferPool
load_page p f page_id =
    let p1 = (flush_page p (p.pages f).page_id).0 in
    let p2 =
      if (p.pages f).is_dirty
      then set_page p1 f (record (p1.pages f) { is_dirty = false })
      else p in
    let table = set_entry p2.page_table (p2.pages f).page_id none in
    do
      bytes ← read_page p2.disk page_id
      some (
          set_page (record p2 { page_table = set_entry table page_id (some f) }) f
            (record (p2.pages f) {
              bytes = bytes;
              page_id = page_id;
              pin_count = (p2.pages f).pin_count + 1;
            }))

unfoldable pub fetch_page : BufferPool → ℕ → Option (BufferPool × ℕ)
fetch_page p page_id = elim (p.page_table page_id) [
  | some f ↦
      let page = record (p.pages f) { pin_count = (p.pages f).pin_count + 1 } in
      some (set_page (record p { replacer = pin p.replacer f }) f page, f)
  | none ↦ do (p1, f) ← take_frame p; p2 ← load_page p1 f page_id; some (p2, f)
]

-- A frame, or else the one that an earlier call of Victim left.
unfoldable pub take_frame_or : BufferPool → Option ℕ → Option (BufferPool × ℕ)
take_frame_or p first = elim (take_frame p) [
  | some r ↦ some r
  | none ↦ elim first [ none ↦ none | some f ↦ some (p, f) ]
]

-- NewPage from where the page is allocated; `first` is the frame that the first call of Victim gave.
unfoldable pub place_page : BufferPool → Option ℕ → Option (BufferPool × Option (ℕ × ℕ))
place_page p first = do
  (disk, page_id) ← Disk.allocate_page p.disk
  (p1, f) ← take_frame_or (record p { disk = disk }) first
  let page : Page = record {
    bytes = reset_memory;
    page_id = page_id;
    pin_count = 1;
    is_dirty = true;
  }
  some (
    set_page (record p1 { page_table = set_entry p1.page_table page_id (some f) }) f page,
    some (page_id, f),
  )

-- The new page's id and frame; the inner `none` is nullptr.
unfoldable pub new_page : BufferPool → Option (BufferPool × Option (ℕ × ℕ))
new_page p = elim (back p.free_list) [
  | some f ↦ place_page p none
  | none ↦
      let (r, found) = victim p.replacer in
      elim found [
        | none ↦ some (record p { replacer = r }, none)
        | some f ↦ place_page (record p { replacer = r }) (some f)
      ]
]

unfoldable pub delete_page : BufferPool → ℕ → Option (BufferPool × Bool)
delete_page p page_id = do
  disk ← Disk.de_allocate_page p.disk page_id
  let p1 = record p { disk = disk }
  elim (p1.page_table page_id) [
    | none ↦ some (p1, true)
    | some f ↦
        if not ((p1.pages f).pin_count == 0)
        then some (p1, false)
        else some (
          set_page
              (record p1 {
                page_table = set_entry p1.page_table page_id none;
                free_list = p1.free_list ++ f ∷ [];
              })
              f (record (p1.pages f) { bytes = reset_memory; page_id = invalid_page_id }),
          true,
        )
  ]
