-- ===== src/IndexRoots/Laws.antt =====
-- The page of minisql/src/page/index_roots_page.cpp as a finite map from index ids to root pages.
use zju_database_system.Prelude.{
  ℕ, ◌≤◌, ◌≡◌, ◌⊎◌, refl, true, false, ltb, Bool-cases, ap, ◌∙◌, inl, inr, not, ◌&&◌, none, some,
  arith, ◌==◌, if◌then◌else◌, Option-cases,
}
use zju_database_system.IndexRoots.{
  IndexRootsPage, max_index_count, append_root, entries, find_index, insert, delete, update,
  get_root_id,
}
use zju_database_system.IndexRoots.Lists.{
  lookup, IsDistinct, get_root_id_lem, lookup-append, lookup-erase, lookup-replace,
  append-IsDistinct, erase-IsDistinct, replace-IsDistinct, lookup_of_none, lookup_of_some,
  is_recorded, entries-append_root, entries-delete, entries-update,
}

-- Insert refuses an id that is recorded, and changes nothing then. On another id it writes behind the
-- page exactly if there are MAX_INDEX_COUNT ids; else GetRootId finds the new root under the new id,
-- and what it found before under any other. No id is recorded twice, and the count stays in its bound.
pub insert_lem :
    (p : IndexRootsPage) (k r : ℕ)
    → IsDistinct (entries p)
    → p.count ≤ max_index_count
    → ((is_recorded p k ≡ false) × (p.count ≡ max_index_count) × (insert p k r ≡ none))
      ⊎ ((p' : IndexRootsPage) × (insert p k r ≡ some (p', not (is_recorded p k)))
          × ((q : ℕ)
              → get_root_id p' q
                ≡ (if (q == k) && not (is_recorded p k) then some r else get_root_id p q))
          × IsDistinct (entries p')
          × (p'.count ≤ max_index_count)
          × ((is_recorded p k ≡ true) → p' ≡ p))
unfolding insert
insert_lem p k r d few = elim (Option-cases (find_index p k)) [
  | inr (x, e) ↦
      let known = get_root_id_lem p k ∙ lookup_of_some p k x e in
      inr (p, rw (e, insert) (ground (arith, known)), λ q. ground (arith, known), d, few, λ h. refl)
  | inl e ↦
      let unknown = lookup_of_none p k e in
      let absent = get_root_id_lem p k ∙ unknown in
      elim (Bool-cases (ltb p.count max_index_count)) [
        | inr full ↦ inl (ground (arith, absent), ground arith, rw (e, insert) (ground arith))
        | inl room ↦
            let p' = append_root p k r in
            inr (
              p',
              rw (e, insert) (ground (arith, absent)),
              λ q.
                  get_root_id_lem p' q
                  ∙ ap (lookup q) (entries-append_root p k r)
                  ∙ ground (arith, lookup-append q (entries p) (k, r), get_root_id_lem p q, absent),
              rw (entries-append_root p k r) (append-IsDistinct (entries p) (k, r) d unknown),
              ground arith,
              λ h. absurd (ground (arith, absent)),
            )
      ]
]

-- Delete removes the root of a recorded id and nothing else; on an id that is not recorded it
-- returns false and no root changes. No id is recorded twice, and the count stays in its bound.
pub delete_lem :
    (p : IndexRootsPage) (k : ℕ)
    → IsDistinct (entries p)
    → p.count ≤ max_index_count
    → ((delete p k).1 ≡ is_recorded p k)
      × ((q : ℕ) → get_root_id (delete p k).0 q ≡ (if q == k then none else get_root_id p q))
      × IsDistinct (entries (delete p k).0)
      × (((delete p k).0).count ≤ max_index_count)
unfolding delete
delete_lem p k d few = elim (Option-cases (find_index p k)) [
  | inl e ↦
      let absent = get_root_id_lem p k ∙ lookup_of_none p k e in
      rw (e, delete) (ground (arith, absent), (λ q. ground (arith, absent)), d, few)
  | inr (x, e) ↦
      let known = get_root_id_lem p k ∙ lookup_of_some p k x e in
      (
        rw (e, delete) (ground (arith, known)),
        (λ q.
            get_root_id_lem (delete p k).0 q
            ∙ ap (lookup q) (entries-delete p k x e)
            ∙ ground (arith, lookup-erase k q (entries p) d, get_root_id_lem p q)),
        rw (entries-delete p k x e) (erase-IsDistinct k (entries p) d),
        rw (e, delete) (omega arith),
      )
]

-- Update gives a recorded id its new root and changes no other; on an id that is not recorded it
-- returns false and changes nothing.
pub update_lem :
    (p : IndexRootsPage) (k r : ℕ)
    → IsDistinct (entries p)
    → ((update p k r).1 ≡ is_recorded p k)
      × ((q : ℕ)
          → get_root_id (update p k r).0 q
            ≡ (if (q == k) && is_recorded p k then some r else get_root_id p q))
      × IsDistinct (entries (update p k r).0)
unfolding update
update_lem p k r d = elim (Option-cases (find_index p k)) [
  | inl e ↦
      let absent = get_root_id_lem p k ∙ lookup_of_none p k e in
      rw (e, update) (ground (arith, absent), (λ q. ground (arith, absent)), d)
  | inr (x, e) ↦
      let known = get_root_id_lem p k ∙ lookup_of_some p k x e in
      (
        rw (e, update) (ground (arith, known)),
        (λ q.
            get_root_id_lem (update p k r).0 q
            ∙ ap (lookup q) (entries-update p k r x e)
            ∙ ground (arith, lookup-replace k r q (entries p), get_root_id_lem p q, known)),
        rw (entries-update p k r x e) (replace-IsDistinct k r (entries p) d),
      )
]
