-- ===== src/BPlusTree/Leaf/Moves.antt =====
-- Splitting, merging and redistributing leaf pages: MoveHalfTo, MoveAllTo, MoveFirstToEndOf and
-- MoveLastToFrontOf of minisql/src/page/b_plus_tree_leaf_page.cpp.
use zju_database_system.Prelude.{
  ℕ, suc, ◌+◌, ◌-◌, ◌/◌, ◌≤◌, ◌<◌, ◌≡◌, refl, sym, ap, ◌∙◌, some, [], ◌∷◌, ◌++◌, arith,
}
use mathlib.Core.List.{append_assoc}
use zju_database_system.Arrays.{Array, shift_down, copy, shift_down_lem, copy_lem}
use zju_database_system.Arrays.Segments.{segment, segment-add, segment_ext}
use zju_database_system.Arrays.Copies.{segment_copied, segment_pushed}
use zju_database_system.BPlusTree.Leaf.{
  LeafPage, entries, move_half_to, copy_n_from, move_all_to, move_first_to_end_of, copy_first_from,
  move_last_to_front_of,
}

module _ {K V : Type 0} where
  -- MoveHalfTo on an over-full page leaves the first half here and moves the rest to the recipient,
  -- which is linked in behind this page; the two pages together hold what the page held.
  pub move_half_to_lem :
      (p recipient : LeafPage K V)
      → p.size ≡ p.max_size + 1
      → (p' r' : LeafPage K V) × (move_half_to p recipient ≡ some (p', r'))
        × (entries p' ++ entries r' ≡ entries p)
        × (p'.size ≤ r'.size)
        × (r'.size ≤ p'.size + 1)
        × (p'.next_page_id ≡ recipient.page_id)
        × (r'.next_page_id ≡ p.next_page_id)
  unfolding move_half_to
  move_half_to_lem p recipient full =
      let half = (p.max_size + 1) / 2 in
      let rest = p.max_size + 1 - half in
      let size : p.size ≡ half + rest = omega arith in
      let copied : segment (copy rest p.array half recipient.array 0) 0 rest
          ≡ segment p.array half rest =
        segment_ext _ _ 0 half rest
          (λ j lt. ground (arith, copy_lem rest p.array half recipient.array 0 j)) in
      let start : segment p.array (0 + half) rest ≡ segment p.array half rest =
        ap (λ i. segment p.array i rest) (omega arith) in
      (
        record p { header = record (p.header) { size = half }; next_page_id = recipient.page_id },
        record recipient {
          header = record (recipient.header) { size = rest };
          next_page_id = p.next_page_id;
          array = copy rest p.array half recipient.array 0;
        },
        ground arith,
        ap (◌++◌ (segment p.array 0 half)) (copied ∙ sym start)
            ∙ sym (ap (segment p.array 0) size ∙ segment-add p.array 0 half rest),
        omega arith,
        omega arith,
        refl,
        refl,
      )

  copy_n_from_lem :
      (p : LeafPage K V) (items : Array (K × V)) (n : ℕ)
      → entries (copy_n_from p items n) ≡ entries p ++ segment items 0 n
  unfolding copy_n_from
  copy_n_from_lem p items n = segment_copied items p.array 0 p.size n

  -- MoveAllTo appends the entries of this page to the recipient, leaves this page empty and lets
  -- the recipient take over its link to the next page.
  pub move_all_to_lem :
      (p recipient : LeafPage K V)
      → (entries (move_all_to p recipient).1 ≡ entries recipient ++ entries p)
        × (((move_all_to p recipient).1).size ≡ recipient.size + p.size)
        × (((move_all_to p recipient).1).next_page_id ≡ p.next_page_id)
        × (((move_all_to p recipient).0).size ≡ 0)
  unfolding move_all_to
  move_all_to_lem p recipient =
      (segment_copied p.array recipient.array 0 recipient.size p.size, refl, refl, refl)

  -- The first entry, apart.
  segment_first :
      (a : Array (K × V)) (n : ℕ)
      → 0 < n
      → segment a 0 n ≡ a 0 ∷ segment (shift_down (n - 1) 0 a) 0 (n - 1)
  unfolding segment
  segment_first a n h =
      let e : n ≡ suc (n - 1) = omega arith in
      ap (segment a 0) e
      ∙ ap (◌∷◌ (a 0)) (
          segment_ext a (shift_down (n - 1) 0 a) 1 0 (n - 1)
            (λ j lt. ground (arith, shift_down_lem (n - 1) 0 a j)))

  -- Moving the first entry of a page that is not empty to the end of the page before it, and moving
  -- its last entry to the front of the page behind it, succeed, lose no entry and keep the order; the
  -- sizes change by one.
  pub redistribute_lem :
      (p recipient : LeafPage K V)
      → 0 < p.size
      → ((p' r' : LeafPage K V) × (move_first_to_end_of p recipient ≡ some (p', r'))
          × (entries r' ++ entries p' ≡ entries recipient ++ entries p)
          × (p'.size + 1 ≡ p.size)
          × (r'.size ≡ recipient.size + 1))
        × ((p' r' : LeafPage K V) × (move_last_to_front_of p recipient ≡ some (p', r'))
            × (entries p' ++ entries r' ≡ entries p ++ entries recipient)
            × (p'.size + 1 ≡ p.size)
            × (r'.size ≡ recipient.size + 1))
  unfolding move_first_to_end_of move_last_to_front_of segment
  redistribute_lem p recipient some_left =
      let last : p.size ≡ p.size - 1 + 1 = omega arith in
      (
        (
          record p {
            header = record (p.header) { size = p.size - 1 };
            array = shift_down (p.size - 1) 0 p.array;
          },
          copy_n_from recipient p.array 1,
          ground arith,
          ap (λ xs. xs ++ segment (shift_down (p.size - 1) 0 p.array) 0 (p.size - 1))
                (segment_copied p.array recipient.array 0 recipient.size 1)
              ∙ append_assoc (entries recipient) (p.array 0 ∷ []) _
              ∙ ap (◌++◌ (entries recipient)) (sym (segment_first p.array p.size some_left)),
          omega arith,
          refl,
        ),
        (
          record p { header = record (p.header) { size = p.size - 1 } },
          copy_first_from recipient (p.array (p.size - 1)),
          ground arith,
          ap (◌++◌ (segment p.array 0 (p.size - 1)))
                (segment_pushed recipient.array recipient.size (p.array (p.size - 1)))
              ∙ sym (
                  append_assoc (segment p.array 0 (p.size - 1)) (p.array (p.size - 1) ∷ [])
                    (entries recipient))
              ∙ ap (λ xs. xs ++ entries recipient)
                  (sym (
                    ap (segment p.array 0) last
                    ∙ segment-add p.array 0 (p.size - 1) 1
                    ∙ ground arith)),
          omega arith,
          refl,
        ),
      )
