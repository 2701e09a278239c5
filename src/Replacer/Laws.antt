-- ===== src/Replacer/Laws.antt =====
-- The invariant of the replacer of minisql/src/buffer/lru_replacer.cpp, and what each of its
-- operations does to the list of frames.
use zju_database_system.Prelude.{
  ℕ, ◌+◌, ◌≤◌, ◌≡◌, refl, ◌⊎◌, inl, inr, true, false, ◌||◌, none, some, List, [], ◌∷◌, ◌++◌, arith,
  leb, ◌==◌, if◌then◌else◌, Bool-cases, Option-cases, length,
}
use zju_database_system.Replacer.{
  Replacer, contains, remove, back, init, drop_frame, victim, pin, unpin,
}

-- No frame stands twice.
abbrev pub IsDistinct : List ℕ → Type 0
IsDistinct [] = Unit
IsDistinct (x ∷ xs) = (contains xs x ≡ false) × IsDistinct xs

-- The counter counts the list, the map has the frames of the list, no frame stands twice, and the
-- list is within its bound.
pub record IsValid (r : Replacer) : Type 0 where
  pub counted : r.in_size ≡ length r.lru_list
  pub bounded : r.in_size ≤ r.max_size
  pub listed : (k : ℕ) → r.mapped k ≡ contains r.lru_list k
  pub distinct : IsDistinct r.lru_list

length-remove : (k : ℕ) (xs : List ℕ) → contains xs k ≡ true → length (remove k xs) + 1 ≡ length xs
unfolding remove
length-remove k [] h = absurd (ground arith)
length-remove k (x ∷ xs) h = ground (arith, length-remove k xs)

contains-remove :
    (k j : ℕ) (xs : List ℕ)
    → IsDistinct xs
    → contains (remove k xs) j ≡ (if j == k then false else contains xs j)
unfolding remove
contains-remove k j [] d = ground arith
contains-remove k j (x ∷ xs) d = ground (arith, contains-remove k j xs d.1)

remove-IsDistinct : (k : ℕ) (xs : List ℕ) → IsDistinct xs → IsDistinct (remove k xs)
unfolding remove
remove-IsDistinct k [] d = tt
remove-IsDistinct k (x ∷ xs) d =
    ground (arith, remove-IsDistinct k xs d.1, contains-remove k x xs d.1)

drop_frame-IsValid :
    (r : Replacer) (k : ℕ) → IsValid r → contains r.lru_list k ≡ true → IsValid (drop_frame r k)
unfolding drop_frame
drop_frame-IsValid r k v h = record {
  counted = omega (arith, v.counted, length-remove k r.lru_list h);
  bounded = omega (arith, v.bounded);
  listed = λ j. ground (arith, v.listed j, contains-remove k j r.lru_list v.distinct);
  distinct = remove-IsDistinct k r.lru_list v.distinct;
}

contains-back : (xs : List ℕ) (k : ℕ) → back xs ≡ some k → contains xs k ≡ true
unfolding back
contains-back [] k h = absurd (cc)
contains-back (x ∷ []) k h = ground arith
contains-back (x ∷ y ∷ xs) k h = ground (arith, contains-back (y ∷ xs) k h)

-- A distinct list ends in its last element.
remove-back : (xs : List ℕ) (k : ℕ) → IsDistinct xs → back xs ≡ some k → xs ≡ remove k xs ++ k ∷ []
unfolding back remove
remove-back [] k d h = absurd (cc)
remove-back (x ∷ []) k d h = ground arith
remove-back (x ∷ y ∷ xs) k d h =
    ground (arith, remove-back (y ∷ xs) k d.1 h, contains-back (y ∷ xs) k h)

back-ne-none : (x : ℕ) (xs : List ℕ) → (k : ℕ) × (back (x ∷ xs) ≡ some k)
unfolding back
back-ne-none x [] = (x, refl)
back-ne-none x (y ∷ xs) = back-ne-none y xs

-- Every operation keeps the replacer valid, from the new one on.
pub operations-IsValid :
    (r : Replacer) (k : ℕ)
    → IsValid r
    → IsValid (init r.max_size) × IsValid (victim r).0 × IsValid (pin r k) × IsValid (unpin r k)
unfolding init victim pin unpin
operations-IsValid r k v = (
  record { counted = refl; bounded = omega arith; listed = λ j. refl; distinct = tt },
  elim (Bool-cases (r.in_size == 0)) [
    | inl e ↦ rw (e, victim) v
    | inr e ↦ elim (Option-cases (back r.lru_list)) [
      | inl b ↦ rw (e, victim) (rw (b, victim) v)
      | inr (x, b) ↦
          rw (e, victim) (rw (b, victim) (drop_frame-IsValid r x v (contains-back r.lru_list x b)))
    ]
  ],
  elim (Bool-cases (r.mapped k)) [
    | inl e ↦ rw (e, pin) (drop_frame-IsValid r k v (ground (arith, v.listed k)))
    | inr e ↦ rw (e, pin) v
  ],
  elim (Bool-cases (r.mapped k || leb r.max_size r.in_size)) [
    | inl e ↦ rw (e, unpin) v
    | inr e ↦
        rw (e, unpin)
          (record {
            counted = omega (arith, v.counted);
            bounded = ground arith;
            listed = λ j. ground (arith, v.listed j);
            distinct = (ground (arith, v.listed k), v.distinct);
          })
  ],
)

-- Victim fails exactly on an empty replacer, and otherwise takes the frame at the end of the list.
pub victim_lem :
    (r : Replacer)
    → IsValid r
    → ((r.lru_list ≡ []) × (victim r ≡ (r, none)))
      ⊎ ((k : ℕ) × ((victim r).1 ≡ some k) × (r.lru_list ≡ ((victim r).0).lru_list ++ k ∷ []))
unfolding victim
victim_lem r v = go r.lru_list refl
  where
    go :
        (xs : List ℕ)
        → r.lru_list ≡ xs
        → ((r.lru_list ≡ []) × (victim r ≡ (r, none)))
          ⊎ ((k : ℕ) × ((victim r).1 ≡ some k) × (r.lru_list ≡ ((victim r).0).lru_list ++ k ∷ []))
    go [] e = inl (e, ground (arith, v.counted))
    go (x ∷ xs) e =
        let last = back-ne-none x xs in
        let found : back r.lru_list ≡ some last.0 = rw e last.1 in
        let busy : (r.in_size == 0) ≡ false = ground (arith, v.counted) in
        inr (
          last.0,
          rw (busy, victim) (rw (found, victim) refl),
          rw (busy, victim) (rw (found, victim) (remove-back r.lru_list last.0 v.distinct found)),
        )

pub remove_absent : (k : ℕ) (xs : List ℕ) → contains xs k ≡ false → remove k xs ≡ xs
unfolding remove
remove_absent k [] h = refl
remove_absent k (x ∷ xs) h = ground (arith, remove_absent k xs)

-- Pin takes the frame out wherever it stands; Unpin puts a frame that is not there at the front,
-- if there is room. Neither moves another frame.
pub pin_unpin_lem :
    (r : Replacer) (k : ℕ)
    → IsValid r
    → ((pin r k).lru_list ≡ remove k r.lru_list)
      × (contains ((pin r k).lru_list) k ≡ false)
      × ((unpin r k).lru_list ≡ (
          if contains r.lru_list k || leb r.max_size (length r.lru_list)
          then r.lru_list
          else k ∷ r.lru_list))
unfolding pin unpin
pin_unpin_lem r k v =
    let known = v.listed k in
    let gone = contains-remove k k r.lru_list v.distinct in
    (
      ground (arith, known, remove_absent k r.lru_list),
      ground (arith, known, gone),
      ground (arith, known, v.counted),
    )
