-- ===== src/BPlusTree/Internal/Moves.antt =====
-- MoveHalfTo, MoveAllTo, MoveFirstToEndOf and MoveLastToFrontOf of minisql/src/page/
-- b_plus_tree_internal_page.cpp: the entries of the two pages, and the parents of the children.
use zju_database_system.Prelude.{
  ℕ, zero, suc, ◌+◌, ◌-◌, ◌/◌, ◌≤◌, ◌<◌, ◌≡◌, refl, sym, ap, ◌∙◌, Bool, false, ◌||◌, some, List, [],
  ◌∷◌, ◌++◌, arith, ◌==◌, if◌then◌else◌,
}
use zju_database_system.Arrays.{
  Array, store, shift_up, shift_down, copy, store_lem, shift_up_lem, shift_down_lem, copy_lem,
}
use zju_database_system.Arrays.Segments.{segment, segment-add, segment_ext}
use zju_database_system.BPlusTree.Internal.{
  InternalPage, Parents, entries, adopt, adopt_all, move_half_to, move_all_to, move_first_to_end_of,
  move_last_to_front_of,
}

module _ {K : Type 0} where
  -- `true` if one of the entries leads to the child.
  abbrev pub is_child : List (K × ℕ) → ℕ → Bool
  is_child [] c = false
  is_child (x ∷ xs) c = (c == x.1) || is_child xs c

  adopt_all_lem :
      (n i : ℕ) (a : Array (K × ℕ)) (parent : ℕ) (parents : Parents) (c : ℕ)
      → adopt_all n i a parent parents c
        ≡ (if is_child (segment a i n) c then parent else parents c)
  unfolding adopt_all adopt segment
  adopt_all_lem zero i a parent parents c = refl
  adopt_all_lem (suc n) i a parent parents c =
      ground (arith, adopt_all_lem n (i + 1) a parent (adopt (a i).1 parent parents) c)

  -- MoveHalfTo on an over-full page leaves the first half here and moves the rest to the recipient;
  -- the children that moved, and no others, have the recipient as their parent.
  pub move_half_to-is_child :
      (p recipient : InternalPage K) (parents : Parents)
      → p.size ≡ p.max_size + 1
      → (p' r' : InternalPage K) × (parents' : Parents) × (move_half_to p recipient parents
          ≡ some (p', r', parents'))
        × (entries p' ++ entries r' ≡ entries p)
        × (p'.size ≤ r'.size)
        × (r'.size ≤ p'.size + 1)
        × ((c : ℕ)
            → parents' c ≡ (if is_child (entries r') c then recipient.page_id else parents c))
  unfolding move_half_to
  move_half_to-is_child p recipient parents full =
      let half = (p.max_size + 1) / 2 in
      let rest = p.max_size + 1 - half in
      let size : p.size ≡ half + rest = omega arith in
      let b = copy rest p.array half recipient.array 0 in
      let copied : segment b 0 rest ≡ segment p.array half rest =
        segment_ext _ _ 0 half rest
          (λ j lt. ground (arith, copy_lem rest p.array half recipient.array 0 j)) in
      let start : segment p.array (0 + half) rest ≡ segment p.array half rest =
        ap (λ i. segment p.array i rest) (omega arith) in
      (
        record p { header = record (p.header) { size = half } },
        record recipient { header = record (recipient.header) { size = rest }; array = b },
        adopt_all rest half p.array recipient.page_id parents,
        ground arith,
        ap (◌++◌ (segment p.array 0 half)) (copied ∙ sym start)
            ∙ sym (ap (segment p.array 0) size ∙ segment-add p.array 0 half rest),
        omega arith,
        omega arith,
        λ c.
            adopt_all_lem rest half p.array recipient.page_id parents c
            ∙ ap (λ xs. if is_child xs c then recipient.page_id else parents c) (sym copied),
      )

  -- The segment behind a written place is as before.
  segment_stored :
      (a : Array (K × ℕ)) (n : ℕ) (v : K × ℕ) (m : ℕ)
      → segment (store a n v) 0 (n + suc m) ≡ segment a 0 n ++ v ∷ segment a (n + 1) m
  unfolding segment
  segment_stored a n v m =
      segment-add (store a n v) 0 n (suc m)
      ∙ ground (
        arith,
        segment_ext (store a n v) a 0 0 n (λ j lt. ground (arith, store_lem a n v j)),
        segment_ext (store a n v) a (n + 1) (n + 1) m
            (λ j lt. ground (arith, store_lem a n v (n + 1 + j))),
        store_lem a n v n,
      )

  -- MoveAllTo appends the entries of this page to the recipient, the first of them under the middle
  -- key, and leaves this page empty; the children that moved, and no others, have the recipient as
  -- their parent.
  pub move_all_to-is_child :
      (p recipient : InternalPage K) (middle : K) (parents : Parents)
      → 0 < p.size
      → (entries (move_all_to p recipient middle parents).1
          ≡ entries recipient ++ (middle, (p.array 0).1) ∷ segment p.array 1 (p.size - 1))
        × (entries p ≡ p.array 0 ∷ segment p.array 1 (p.size - 1))
        × (((move_all_to p recipient middle parents).0).size ≡ 0)
        × ((c : ℕ)
            → (move_all_to p recipient middle parents).2 c
              ≡ (if is_child (entries p) c then recipient.page_id else parents c))
  unfolding move_all_to segment
  move_all_to-is_child p recipient middle parents pos =
      let m = p.size - 1 in
      let n = recipient.size in
      let a = copy p.size p.array 0 recipient.array n in
      let at = copy_lem p.size p.array 0 recipient.array n in
      let joint : n + p.size - p.size ≡ n = omega arith in
      let size : n + p.size ≡ n + suc m = omega arith in
      let size' : p.size ≡ suc m = omega arith in
      let v : K × ℕ = (middle, (a n).1) in
      let first : (a n).1 ≡ (p.array 0).1 = ground (arith, at n) in
      let kept : segment a 0 n ≡ segment recipient.array 0 n =
        segment_ext a recipient.array 0 0 n (λ j lt. ground (arith, at j)) in
      let moved : segment a (n + 1) m ≡ segment p.array 1 m =
        segment_ext a p.array (n + 1) 1 m (λ j lt. ground (arith, at (n + 1 + j))) in
      let children : segment a n p.size ≡ segment p.array 0 p.size =
        segment_ext a p.array n 0 p.size (λ j lt. ground (arith, at (n + j))) in
      (
        ap (λ k. segment (store a k (middle, (a k).1)) 0 (n + p.size)) joint
            ∙ ap (segment (store a n v) 0) size
            ∙ segment_stored a n v m
            ∙ ground (arith, first, kept, moved),
        ap (segment p.array 0) size',
        refl,
        λ c.
            adopt_all_lem p.size n a recipient.page_id parents c
            ∙ ap (λ xs. if is_child xs c then recipient.page_id else parents c) children,
      )

  -- MoveFirstToEndOf takes the first child of this page, under the middle key, to the end of the
  -- recipient, which becomes its parent.
  pub move_first_to_end_of_lem :
      (p recipient : InternalPage K) (middle : K) (parents : Parents)
      → 0 < p.size
      → (p' r' : InternalPage K) × (parents' : Parents) × (move_first_to_end_of p recipient middle
            parents
          ≡ some (p', r', parents'))
        × (entries p ≡ p.array 0 ∷ entries p')
        × (entries r' ≡ entries recipient ++ (middle, (p.array 0).1) ∷ [])
        × ((c : ℕ) → parents' c ≡ (if c == (p.array 0).1 then recipient.page_id else parents c))
  unfolding move_first_to_end_of segment adopt
  move_first_to_end_of_lem p recipient middle parents pos =
      let m = p.size - 1 in
      let n = recipient.size in
      let v : K × ℕ = (middle, (p.array 0).1) in
      let a = store p.array 0 v in
      let size : p.size ≡ suc m = omega arith in
      let rest : segment p.array 1 m ≡ segment (shift_down m 0 a) 0 m =
        segment_ext p.array (shift_down m 0 a) 1 0 m
          (λ j lt. ground (arith, shift_down_lem m 0 a j, store_lem p.array 0 v (j + 1))) in
      let first : a 0 ≡ v = ground (arith, store_lem p.array 0 v 0) in
      let size' : n + 1 ≡ n + suc 0 = omega arith in
      (
        record p { header = record (p.header) { size = m }; array = shift_down m 0 a },
        record recipient {
          header = record (recipient.header) { size = n + 1 };
          array = store recipient.array n (a 0);
        },
        adopt (a 0).1 recipient.page_id parents,
        ground arith,
        ap (segment p.array 0) size ∙ ap (◌∷◌ (p.array 0)) rest,
        ap (segment (store recipient.array n (a 0)) 0) size'
            ∙ segment_stored recipient.array n (a 0) 0
            ∙ ap (λ t. segment recipient.array 0 n ++ t ∷ []) first,
        λ c. ap (λ (t : K × ℕ). if c == t.1 then recipient.page_id else parents c) first,
      )

  -- MoveLastToFrontOf takes the last entry of this page to the front of the recipient, which
  -- becomes the parent of its child; the entry that was first there gets the middle key.
  pub move_last_to_front_of_lem :
      (p recipient : InternalPage K) (middle : K) (parents : Parents)
      → 0 < p.size
      → 0 < recipient.size
      → (let last = p.array (p.size - 1) in
          (p' r' : InternalPage K) × (parents' : Parents) × (move_last_to_front_of p recipient
              middle parents
            ≡ some (p', r', parents'))
          × (entries p ≡ entries p' ++ last ∷ [])
          × (entries r'
              ≡ last
                ∷ (middle, (recipient.array 0).1)
                ∷ segment recipient.array 1 (recipient.size - 1))
          × ((c : ℕ) → parents' c ≡ (if c == last.1 then recipient.page_id else parents c)))
  unfolding move_last_to_front_of segment adopt store
  move_last_to_front_of_lem p recipient middle parents pos pos' =
      let m = p.size - 1 in
      let last = p.array m in
      let n = recipient.size - 1 in
      let a = store (shift_up recipient.size 0 recipient.array) 0 last in
      let v : K × ℕ = (middle, (a 1).1) in
      let b = store a 1 v in
      let at = λ (j : ℕ). shift_up_lem recipient.size 0 recipient.array j in
      let tail : segment b 2 n ≡ segment recipient.array 1 n =
        segment_ext b recipient.array 2 1 n (λ j lt. ground (arith, at (2 + j))) in
      let size : p.size ≡ m + 1 = omega arith in
      let size' : recipient.size + 1 ≡ suc (suc n) = omega arith in
      (
        record p { header = record (p.header) { size = m } },
        record recipient {
          header = record (recipient.header) { size = recipient.size + 1 };
          array = b;
        },
        adopt last.1 recipient.page_id parents,
        ground arith,
        ap (segment p.array 0) size ∙ segment-add p.array 0 m 1 ∙ ground arith,
        ap (segment b 0) size' ∙ ground (arith, at 1, tail),
        λ c. refl,
      )
