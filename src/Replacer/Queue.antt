-- ===== src/Replacer/Queue.antt =====
-- The replacer of minisql/src/buffer/lru_replacer.cpp as a queue: the order in which Victim gives the
-- frames.
use zju_database_system.Prelude.{
  ℕ, zero, suc, ◌≡◌, refl, sym, ap, ◌∙◌, ◌⊎◌, inl, inr, false, ◌||◌, none, some, List, [], ◌∷◌,
  ◌++◌, arith, leb, ◌==◌, if◌then◌else◌, Bool-cases, length, length-append,
}
use zju_database_system.Replacer.{Replacer, contains, remove, init, victim, pin, unpin}
use zju_database_system.Replacer.Laws.{
  IsDistinct, IsValid, operations-IsValid, victim_lem, pin_unpin_lem, remove_absent,
}

-- What calls of Victim give, up to `n` of them.
unfoldable pub evictions : ℕ → Replacer → List ℕ
evictions zero r = []
evictions (suc n) r = elim (victim r).1 [ none ↦ [] | some k ↦ k ∷ evictions n (victim r).0 ]

unfoldable pub eviction_order : Replacer → List ℕ
unfolding evictions
eviction_order r = evictions r.in_size r

abbrev rev : List ℕ → List ℕ
rev [] = []
rev (x ∷ xs) = rev xs ++ x ∷ []

rev-append : (xs : List ℕ) (k : ℕ) → rev (xs ++ k ∷ []) ≡ k ∷ rev xs
rev-append [] k = refl
rev-append (x ∷ xs) k = ap (λ (l : List ℕ). l ++ x ∷ []) (rev-append xs k)

length-rev : (xs : List ℕ) → length (rev xs) ≡ length xs
length-rev [] = refl
length-rev (x ∷ xs) = ground (arith, length-append (rev xs) (x ∷ []), length-rev xs)

contains-append : (xs : List ℕ) (k j : ℕ) → contains (xs ++ k ∷ []) j ≡ (contains xs j || (k == j))
contains-append [] k j = ground arith
contains-append (x ∷ xs) k j = ground (arith, contains-append xs k j)

contains-rev : (xs : List ℕ) (j : ℕ) → contains (rev xs) j ≡ contains xs j
contains-rev [] j = refl
contains-rev (x ∷ xs) j = ground (arith, contains-append (rev xs) x j, contains-rev xs j)

remove-append :
    (k x : ℕ) (xs : List ℕ)
    → remove k (xs ++ x ∷ [])
      ≡ (if contains xs k then remove k xs ++ x ∷ [] else if x == k then xs else xs ++ x ∷ [])
unfolding remove
remove-append k x [] = ground arith
remove-append k x (y ∷ ys) = ground (arith, remove-append k x ys)

remove-rev : (k : ℕ) (xs : List ℕ) → IsDistinct xs → remove k (rev xs) ≡ rev (remove k xs)
unfolding remove
remove-rev k [] d = refl
remove-rev k (x ∷ xs) (once, d) =
    let all = remove-append k x (rev xs) in
    let there = contains-rev xs k in
    let rest = remove-rev k xs d in
    elim (Bool-cases (x == k)) [
      | inl e ↦
          let same : x ≡ k = ground arith in
          let gone : contains xs k ≡ false = ap (contains xs) (sym same) ∙ once in
          ground (arith, all, there, gone)
      | inr e ↦ elim (Bool-cases (contains xs k)) [
        | inl in_it ↦ ground (arith, all, there, rest)
        | inr out ↦ ground (arith, all, there, remove_absent k xs out)
      ]
    ]

empty_of : (xs : List ℕ) → zero ≡ length xs → xs ≡ []
empty_of [] e = refl
empty_of (x ∷ xs) e = absurd (omega arith)

evictions_lem :
    (n : ℕ) (r : Replacer) → IsValid r → n ≡ length r.lru_list → evictions n r ≡ rev r.lru_list
unfolding evictions
evictions_lem zero r v e = sym (ap rev (empty_of r.lru_list e))
evictions_lem (suc n) r v e = elim (victim_lem r v) [
  | inl (empty, missing) ↦ absurd (omega (arith, ap (λ (l : List ℕ). length l) empty))
  | inr (k, found, split) ↦
      let r' = (victim r).0 in
      let count = ap (λ (l : List ℕ). length l) split ∙ length-append r'.lru_list (k ∷ []) in
      let rest = evictions_lem n r' (operations-IsValid r 0 v).1 (omega (arith, count)) in
      rw (found, evictions)
        (ap (λ (l : List ℕ). k ∷ l) rest ∙ sym (rev-append r'.lru_list k) ∙ ap rev (sym split))
]

eviction_order-rev : (r : Replacer) → IsValid r → eviction_order r ≡ rev r.lru_list
unfolding eviction_order
eviction_order-rev r v = evictions_lem r.in_size r v v.counted

init-rev : (n : ℕ) → rev (init n).lru_list ≡ []
unfolding init
init-rev n = refl

-- The replacer is a queue: its order, which is empty at first, is the order in which Victim gives the
-- frames; Victim takes the first of them, and fails exactly if there is none. Unpin puts a frame that
-- is not there behind all others, so that it is given last, unless there is no room; Pin takes a
-- frame out and leaves the order of the others.
pub eviction_order_lem :
    (r : Replacer) (k : ℕ)
    → IsValid r
    → (eviction_order (init r.max_size) ≡ [])
      × (((eviction_order r ≡ []) × (victim r ≡ (r, none)))
          ⊎ ((j : ℕ) × ((victim r).1 ≡ some j)
              × (eviction_order r ≡ j ∷ eviction_order (victim r).0)))
      × (eviction_order (unpin r k) ≡ (
          if contains (eviction_order r) k || leb r.max_size (length (eviction_order r))
          then eviction_order r
          else eviction_order r ++ k ∷ []))
      × (eviction_order (pin r k) ≡ remove k (eviction_order r))
eviction_order_lem r k v =
    let (first, popped, pinned, unpinned) = operations-IsValid r k v in
    let (pin_list, gone, unpin_list) = pin_unpin_lem r k v in
    let order = eviction_order-rev r v in
    (
      eviction_order-rev (init r.max_size) first ∙ init-rev r.max_size,
      elim (victim_lem r v) [
        | inl (empty, missing) ↦ inl (order ∙ ap rev empty, missing)
        | inr (j, found, split) ↦ inr (
          j,
          found,
          order
              ∙ ap rev split
              ∙ rev-append ((victim r).0).lru_list j
              ∙ ap (λ (l : List ℕ). j ∷ l) (sym (eviction_order-rev (victim r).0 popped)),
        )
      ],
      rw (eviction_order-rev (unpin r k) unpinned, order, unpin_list)
          (ground (arith, contains-rev r.lru_list k, length-rev r.lru_list)),
      eviction_order-rev (pin r k) pinned
          ∙ ap rev pin_list
          ∙ sym (remove-rev k r.lru_list v.distinct)
          ∙ ap (remove k) (sym order),
    )
