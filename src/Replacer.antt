-- ===== src/Replacer.antt =====
-- LRUReplacer of minisql/src/buffer/lru_replacer.cpp and minisql/src/include/buffer/lru_replacer.h:
-- the frames that no one has pinned, the most recently unpinned first. The map from a frame to its
-- list iterator is the set of its keys; the iterator under a key points at the node of that frame,
-- so that erasing it removes the frame from the list.
pub mod Laws
pub mod Queue
mod Tests
use zju_database_system.Prelude.{
  ℕ, zero, suc, ◌+◌, ◌-◌, Bool, true, false, ◌||◌, Option, none, some, List, [], ◌∷◌, ltb, leb,
  ◌==◌, if◌then◌else◌,
}

pub record Replacer : Type 0 where
  pub max_size : ℕ
  pub in_size : ℕ
  pub lru_list : List ℕ
  pub mapped : ℕ → Bool

abbrev pub contains : List ℕ → ℕ → Bool
contains [] k = false
contains (x ∷ xs) k = (x == k) || contains xs k

unfoldable pub remove : ℕ → List ℕ → List ℕ
remove k [] = []
remove k (x ∷ xs) = if x == k then xs else x ∷ remove k xs

-- `lru_list_.back()`.
unfoldable pub back : List ℕ → Option ℕ
back [] = none
back (x ∷ []) = some x
back (x ∷ y ∷ xs) = back (y ∷ xs)

pub init : ℕ → Replacer
init num_pages = record { max_size = num_pages; in_size = 0; lru_list = []; mapped = λ k. false }

-- Takes the frame out of the list and the map.
unfoldable pub drop_frame : Replacer → ℕ → Replacer
drop_frame r frame_id = record r {
  in_size = r.in_size - 1;
  lru_list = remove frame_id r.lru_list;
  mapped = λ k. if k == frame_id then false else r.mapped k;
}

-- The replacer afterwards, and the frame where the source returns true.
unfoldable pub victim : Replacer → Replacer × Option ℕ
unfolding drop_frame back
victim r = if r.in_size == 0 then (r, none) else elim (back r.lru_list) [
  | some frame_id ↦ (drop_frame r frame_id, some frame_id)
  | none ↦ (r, none)
]

unfoldable pub pin : Replacer → ℕ → Replacer
unfolding drop_frame
pin r frame_id = if r.mapped frame_id then drop_frame r frame_id else r

unfoldable pub unpin : Replacer → ℕ → Replacer
unpin r frame_id = if r.mapped frame_id || leb r.max_size r.in_size then r else record r {
  in_size = r.in_size + 1;
  lru_list = frame_id ∷ r.lru_list;
  mapped = λ k. if k == frame_id then true else r.mapped k;
}

unfoldable pub size : Replacer → ℕ
size r = r.in_size
