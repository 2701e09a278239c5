-- ===== src/Replacer/Tests.antt =====
-- Runs of the replacer of minisql/src/buffer/lru_replacer.cpp.
use zju_database_system.Prelude.{
  ℕ, ◌≡◌, ◌⊎◌, ◌∷◌, ◌++◌, [], refl, none, some, length, leb, if◌then◌else◌, arith, ◌==◌, ◌||◌,
}
use zju_database_system.Replacer.{
  Replacer, contains, remove, back, drop_frame, victim, pin, unpin, init,
}
use zju_database_system.Replacer.Laws.{IsValid, operations-IsValid}
use zju_database_system.Replacer.Queue.{eviction_order, eviction_order_lem}

program : Unit {0}
unfolding remove back drop_frame victim pin unpin init
program = tt

-- Frame 2 was unpinned last, frame 4 first.
abbrev three : Replacer
three = record {
  max_size = 3;
  in_size = 3;
  lru_list = 2 ∷ 3 ∷ 4 ∷ [];
  mapped = λ k. (2 == k) || (3 == k) || (4 == k);
}

three-IsValid : IsValid three
three-IsValid = record {
  counted = refl;
  bounded = omega arith;
  listed = λ k. ground arith;
  distinct = (refl, (refl, (refl, tt)));
}

victim_run : (victim three).1 ≡ some 4
unfolding program
victim_run = refl

operations-IsValid_example : IsValid (victim three).0
operations-IsValid_example = (operations-IsValid three 3 three-IsValid).1

eviction_order_lem_example :
    (eviction_order (init 3) ≡ [])
    × (((eviction_order three ≡ []) × (victim three ≡ (three, none)))
        ⊎ ((j : ℕ) × ((victim three).1 ≡ some j)
            × (eviction_order three ≡ j ∷ eviction_order (victim three).0)))
    × (eviction_order (unpin three 5) ≡ (
        if contains (eviction_order three) 5 || leb 3 (length (eviction_order three))
        then eviction_order three
        else eviction_order three ++ 5 ∷ []))
    × (eviction_order (pin three 5) ≡ remove 5 (eviction_order three))
eviction_order_lem_example = eviction_order_lem three 5 three-IsValid
