-- ===== src/Catalog/Words.antt =====
-- The loops of minisql/src/catalog over pairs and words: what they write, and what is read back.
use zju_database_system.Prelude.{
  ℕ, ◌+◌, ◌*◌, ◌^◌, ◌<◌, ◌≡◌, refl, ◌∙◌, inl, List, [], ◌∷◌, length, arith,
}
use zju_database_system.Memory.{
  Memory, get_u32, set_u32, set_u32_outside, get_u32-set_u32, get_u32_of_eq,
}
use zju_database_system.Records.Fields.{Writes, Agrees, Agrees-get_u32}
use zju_database_system.Catalog.{write_pairs, read_pairs, write_words, read_words}

abbrev pub AllWords : List ℕ → Type 0
AllWords [] = Unit
AllWords (x ∷ xs) = (x < 2 ^ 32) × AllWords xs

abbrev pub AllPairs : List (ℕ × ℕ) → Type 0
AllPairs [] = Unit
AllPairs ((first, second) ∷ ps) = (first < 2 ^ 32) × (second < 2 ^ 32) × AllPairs ps

pub write_words-Writes :
    (m : Memory) (a : ℕ) (xs : List ℕ) → Writes m a (4 * length xs) (write_words m a xs)
unfolding write_words
write_words-Writes m a [] b out = refl
write_words-Writes m a (x ∷ xs) b out =
    write_words-Writes (set_u32 m a x) (a + 4) xs b (ground arith)
    ∙ set_u32_outside m a x b (ground arith)

pub read_words-write_words :
    (m m' : Memory) (a : ℕ) (xs : List ℕ)
    → AllWords xs
    → Agrees (write_words m a xs) a (4 * length xs) m'
    → read_words (length xs) m' a ≡ xs
unfolding write_words read_words
read_words-write_words m m' a [] ok same = refl
read_words-write_words m m' a (x ∷ xs) (small, ok) same =
    let m1 = set_u32 m a x in
    let word : get_u32 m' a ≡ x =
      Agrees-get_u32 (write_words m1 (a + 4) xs) m' a (4 * length (x ∷ xs)) a (omega arith)
        (omega arith) same
      ∙ get_u32_of_eq (write_words m1 (a + 4) xs) m1 a
          (λ b lo hi. write_words-Writes m1 (a + 4) xs b (inl (omega arith)))
      ∙ get_u32-set_u32 m a x small in
    let rest =
      read_words-write_words m1 m' (a + 4) xs ok (λ b lo hi. same b (omega arith) (omega arith)) in
    rw (word, rest) refl

pub write_pairs-Writes :
    (m : Memory) (a : ℕ) (ps : List (ℕ × ℕ)) → Writes m a (8 * length ps) (write_pairs m a ps)
unfolding write_pairs
write_pairs-Writes m a [] b out = refl
write_pairs-Writes m a ((f, s) ∷ ps) b out =
    write_pairs-Writes (set_u32 (set_u32 m a f) (a + 4) s) (a + 8) ps b (ground arith)
    ∙ set_u32_outside (set_u32 m a f) (a + 4) s b (ground arith)
    ∙ set_u32_outside m a f b (ground arith)

-- Up to its end a write leaves nothing but what was before it: two memories that are the same before
-- it are the same up to its end.
pub set_u32_prefix :
    (m m' : Memory) (a v b : ℕ)
    → (b < a → m b ≡ m' b)
    → b < a + 4
    → set_u32 m a v b ≡ set_u32 m' a v b
unfolding set_u32
set_u32_prefix m m' a v b before lt = ground arith

pub write_pairs_prefix :
    (m m' : Memory) (a : ℕ) (ps : List (ℕ × ℕ)) (b : ℕ)
    → (b < a → m b ≡ m' b)
    → b < a + 8 * length ps
    → write_pairs m a ps b ≡ write_pairs m' a ps b
unfolding write_pairs
write_pairs_prefix m m' a [] b before lt = before (omega arith)
write_pairs_prefix m m' a ((f, s) ∷ ps) b before lt =
    write_pairs_prefix (set_u32 (set_u32 m a f) (a + 4) s) (set_u32 (set_u32 m' a f) (a + 4) s)
      (a + 8) ps b
      (λ l8.
        set_u32_prefix (set_u32 m a f) (set_u32 m' a f) (a + 4) s b
          (λ l4. set_u32_prefix m m' a f b before l4) (omega arith))
      (omega arith)

pub read_pairs-write_pairs :
    (m m' : Memory) (a : ℕ) (ps : List (ℕ × ℕ))
    → AllPairs ps
    → Agrees (write_pairs m a ps) a (8 * length ps) m'
    → read_pairs (length ps) m' a ≡ ps
unfolding write_pairs read_pairs
read_pairs-write_pairs m m' a [] ok same = refl
read_pairs-write_pairs m m' a ((f, s) ∷ ps) (small_f, small_s, ok) same =
    let m1 = set_u32 m a f in
    let m2 = set_u32 m1 (a + 4) s in
    let size = 8 * length ((f, s) ∷ ps) in
    let written = write_pairs m2 (a + 8) ps in
    let behind = write_pairs-Writes m2 (a + 8) ps in
    let first : get_u32 m' a ≡ f =
      Agrees-get_u32 written m' a size a (omega arith) (omega arith) same
      ∙ get_u32_of_eq written m1 a (λ b lo hi.
        behind b (inl (omega arith)) ∙ set_u32_outside m1 (a + 4) s b (inl (omega arith)))
      ∙ get_u32-set_u32 m a f small_f in
    let second : get_u32 m' (a + 4) ≡ s =
      Agrees-get_u32 written m' a size (a + 4) (omega arith) (omega arith) same
      ∙ get_u32_of_eq written m2 (a + 4) (λ b lo hi. behind b (inl (omega arith)))
      ∙ get_u32-set_u32 m1 (a + 4) s small_s in
    let rest =
      read_pairs-write_pairs m2 m' (a + 8) ps ok (λ b lo hi. same b (omega arith) (omega arith)) in
    rw (first, second, rest) refl
