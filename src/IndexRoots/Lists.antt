-- ===== src/IndexRoots/Lists.antt =====
-- The lists of pairs behind the page of minisql/src/page/index_roots_page.cpp, and what its
-- operations do to them.
use zju_database_system.Prelude.{
  ℕ, zero, suc, ◌+◌, ◌-◌, ◌≤◌, ◌<◌, ◌≡◌, ◌≢◌, refl, sym, ap, ◌∙◌, inl, inr, Bool, true, false,
  Option, none, some, List, [], ◌∷◌, ◌++◌, arith, ◌==◌, if◌then◌else◌, Bool-cases,
}
use zju_database_system.Arrays.{Array, store, shift_down, store_lem, shift_down_lem}
use zju_database_system.Arrays.Segments.{
  segment, segment-add, segment_last, segment_ext, segment_removed,
}
use zju_database_system.IndexRoots.{
  IndexRootsPage, entries, find_from, find_index, append_root, delete, update, get_root_id,
}

-- The first pair with the id.
abbrev pub lookup : ℕ → List (ℕ × ℕ) → Option ℕ
lookup k [] = none
lookup k ((j, v) ∷ xs) = if j == k then some v else lookup k xs

-- No id is recorded twice.
abbrev pub IsDistinct : List (ℕ × ℕ) → Type 0
IsDistinct [] = Unit
IsDistinct ((j, v) ∷ xs) = (lookup j xs ≡ none) × IsDistinct xs

get_from_lem :
    (n i : ℕ) (a : Array (ℕ × ℕ)) (k : ℕ)
    → elim (find_from n i a k) [ none ↦ none | some x ↦ some (a x).1 ] ≡ lookup k (segment a i n)
unfolding find_from segment
get_from_lem zero i a k = refl
get_from_lem (suc n) i a k = ground (arith, get_from_lem n (i + 1) a k)

pub get_root_id_lem : (p : IndexRootsPage) (k : ℕ) → get_root_id p k ≡ lookup k (entries p)
unfolding get_root_id
get_root_id_lem p k = get_from_lem p.count 0 p.roots k

-- The scan stops at the first pair with the id.
record FirstAt (n i : ℕ) (a : Array (ℕ × ℕ)) (k x : ℕ) : Type 0 where
  low : i ≤ x
  high : x < i + n
  here : (a x).0 ≡ k
  before : (j : ℕ) → i ≤ j → j < x → (a j).0 ≢ k

find_from-some :
    (n i : ℕ) (a : Array (ℕ × ℕ)) (k x : ℕ) → find_from n i a k ≡ some x → FirstAt n i a k x
unfolding find_from
find_from-some zero i a k x h = absurd (cc)
find_from-some (suc n) i a k x h = elim (Bool-cases ((a i).0 == k)) [
  | inl at ↦ record {
    low = ground arith;
    high = ground arith;
    here = ground arith;
    before = λ j lo hi. absurd (ground arith);
  }
  | inr other ↦
      let f = find_from-some n (i + 1) a k x (ground arith) in
      record {
        low = omega (arith, f.low);
        high = omega (arith, f.high);
        here = f.here;
        before = λ j lo hi. elim (Bool-cases (j == i)) [
          | inl same ↦ ground arith
          | inr later ↦ f.before j (ground arith) hi
        ];
      }
]

-- The operations on lists that the array operations carry out.
pub erase : ℕ → List (ℕ × ℕ) → List (ℕ × ℕ)
erase k [] = []
erase k ((j, v) ∷ xs) = if j == k then xs else (j, v) ∷ erase k xs

pub replace : ℕ → ℕ → List (ℕ × ℕ) → List (ℕ × ℕ)
replace k w [] = []
replace k w ((j, v) ∷ xs) = if j == k then (j, w) ∷ xs else (j, v) ∷ replace k w xs

erase_at :
    (a : Array (ℕ × ℕ)) (k i n : ℕ) (v : ℕ × ℕ) (ys : List (ℕ × ℕ))
    → ((j : ℕ) → i ≤ j → j < i + n → (a j).0 ≢ k)
    → v.0 ≡ k
    → erase k (segment a i n ++ v ∷ ys) ≡ segment a i n ++ ys
unfolding erase segment
erase_at a k i zero v ys h e = ground arith
erase_at a k i (suc n) v ys h e = ground (
  arith,
  h i (omega arith) (omega arith),
  erase_at a k (i + 1) n v ys (λ j lo hi. h j (omega arith) (omega arith)) e,
)

replace_at :
    (a : Array (ℕ × ℕ)) (k w i n : ℕ) (v : ℕ × ℕ) (ys : List (ℕ × ℕ))
    → ((j : ℕ) → i ≤ j → j < i + n → (a j).0 ≢ k)
    → v.0 ≡ k
    → replace k w (segment a i n ++ v ∷ ys) ≡ segment a i n ++ (v.0, w) ∷ ys
unfolding replace segment
replace_at a k w i zero v ys h e = ground arith
replace_at a k w i (suc n) v ys h e = ground (
  arith,
  h i (omega arith) (omega arith),
  replace_at a k w (i + 1) n v ys (λ j lo hi. h j (omega arith) (omega arith)) e,
)

pub lookup-append :
    (k : ℕ) (xs : List (ℕ × ℕ)) (v : ℕ × ℕ)
    → lookup k (xs ++ v ∷ [])
      ≡ elim (lookup k xs) [ some w ↦ some w | none ↦ if v.0 == k then some v.1 else none ]
lookup-append k [] v = ground arith
lookup-append k ((j, w) ∷ xs) v = ground (arith, lookup-append k xs v)

pub lookup-erase :
    (k q : ℕ) (xs : List (ℕ × ℕ))
    → IsDistinct xs
    → lookup q (erase k xs) ≡ (if q == k then none else lookup q xs)
unfolding erase
lookup-erase k q [] h = ground arith
lookup-erase k q ((j, v) ∷ xs) h = ground (arith, lookup-erase k q xs h.1)

pub lookup-replace :
    (k w q : ℕ) (xs : List (ℕ × ℕ))
    → lookup q (replace k w xs)
      ≡ elim (lookup q xs) [ none ↦ none | some v ↦ some (if q == k then w else v) ]
unfolding replace
lookup-replace k w q [] = refl
lookup-replace k w q ((j, v) ∷ xs) = ground (arith, lookup-replace k w q xs)

pub append-IsDistinct :
    (xs : List (ℕ × ℕ)) (v : ℕ × ℕ)
    → IsDistinct xs
    → lookup v.0 xs ≡ none
    → IsDistinct (xs ++ v ∷ [])
append-IsDistinct [] v h e = (refl, tt)
append-IsDistinct ((j, w) ∷ xs) v h e =
    (ground (arith, lookup-append j xs v), append-IsDistinct xs v h.1 (ground arith))

pub erase-IsDistinct : (k : ℕ) (xs : List (ℕ × ℕ)) → IsDistinct xs → IsDistinct (erase k xs)
unfolding erase
erase-IsDistinct k [] h = tt
erase-IsDistinct k ((j, v) ∷ xs) h =
    ground (arith, erase-IsDistinct k xs h.1, lookup-erase k j xs h.1)

pub replace-IsDistinct : (k w : ℕ) (xs : List (ℕ × ℕ)) → IsDistinct xs → IsDistinct (replace k w xs)
unfolding replace
replace-IsDistinct k w [] h = tt
replace-IsDistinct k w ((j, v) ∷ xs) h =
    ground (arith, replace-IsDistinct k w xs h.1, lookup-replace k w j xs)

pub lookup_of_none :
    (p : IndexRootsPage) (k : ℕ) → find_index p k ≡ none → lookup k (entries p) ≡ none
unfolding find_index
lookup_of_none p k h = ground (arith, get_from_lem p.count 0 p.roots k)

pub lookup_of_some :
    (p : IndexRootsPage) (k x : ℕ)
    → find_index p k ≡ some x
    → lookup k (entries p) ≡ some (p.roots x).1
unfolding find_index
lookup_of_some p k x h = ground (arith, get_from_lem p.count 0 p.roots k)

-- `true` if the page has a root for the index.
abbrev pub is_recorded : IndexRootsPage → ℕ → Bool
is_recorded p k = elim (get_root_id p k) [ none ↦ false | some r ↦ true ]

pub entries-append_root :
    (p : IndexRootsPage) (k r : ℕ) → entries (append_root p k r) ≡ entries p ++ (k, r) ∷ []
unfolding store
entries-append_root p k r =
    (segment_last (store p.roots p.count (k, r)) 0 p.count
      ∙ ground (
        arith,
        segment_ext (store p.roots p.count (k, r)) p.roots 0 0 p.count
            (λ j lt. ground (arith, store_lem p.roots p.count (k, r) j)),
        store_lem p.roots p.count (k, r) p.count,
      ))

pub entries-delete :
    (p : IndexRootsPage) (k x : ℕ)
    → find_index p k ≡ some x
    → entries (delete p k).0 ≡ erase k (entries p)
unfolding delete find_index
entries-delete p k x h =
    let f = find_from-some p.count 0 p.roots k x h in
    let b = shift_down (p.count - 1 - x) x p.roots in
    let down = shift_down_lem (p.count - 1 - x) x p.roots in
    let removed =
      segment_removed p.roots b x p.count (omega (arith, f.high)) (λ j lt. ground (arith, down j))
        (λ j lo hi. ground (arith, down j)) in
    rw (h, delete)
      (removed.0
        ∙ sym (
            ap (erase k) removed.1
            ∙ erase_at p.roots k 0 x (p.roots x) _ (λ j lo hi. f.before j lo (omega arith)) f.here))

pub entries-update :
    (p : IndexRootsPage) (k r x : ℕ)
    → find_index p k ≡ some x
    → entries (update p k r).0 ≡ replace k r (entries p)
unfolding update find_index store segment
entries-update p k r x h =
    let f = find_from-some p.count 0 p.roots k x h in
    let v : ℕ × ℕ = ((p.roots x).0, r) in
    let b = store p.roots x v in
    let rest = p.count - x - 1 in
    let size : p.count ≡ x + suc rest = omega (arith, f.high) in
    let start : 0 + x ≡ x = omega arith in
    let split =
      ap (segment p.roots 0) size
      ∙ segment-add p.roots 0 x (suc rest)
      ∙ ap (λ i. segment p.roots 0 x ++ segment p.roots i (suc rest)) start in
    let split' =
      ap (segment b 0) size
      ∙ segment-add b 0 x (suc rest)
      ∙ ap (λ i. segment b 0 x ++ segment b i (suc rest)) start in
    let same : segment b 0 x ++ segment b x (suc rest)
        ≡ segment p.roots 0 x ++ v ∷ segment p.roots (x + 1) rest =
      ground (
        arith,
        segment_ext b p.roots 0 0 x (λ j lt. ground (arith, store_lem p.roots x v j)),
        segment_ext b p.roots (x + 1) (x + 1) rest
            (λ j lt. ground (arith, store_lem p.roots x v (x + 1 + j))),
        store_lem p.roots x v x,
      ) in
    rw (h, update)
      (split'
        ∙ same
        ∙ sym (
            ap (replace k r) split
            ∙ replace_at p.roots k r 0 x (p.roots x) _ (λ j lo hi. f.before j lo (omega arith))
                f.here))
