-- ===== src/Bitmap/Scan.antt =====
-- The loops of AllocatePage of minisql/src/page/bitmap_page.cpp.
use zju_database_system.Prelude.{
  ℕ, zero, suc, ◌+◌, ◌*◌, ◌/◌, ◌%◌, ◌≤◌, ◌<◌, ◌≡◌, refl, ◌⊎◌, inl, inr, bit_or, bit_xor, Bool, true,
  false, none, some, arith, ltb, ◌==◌, Bool-cases, Option-cases,
}
use zju_database_system.Memory.{Memory, IsBytes, put}
use zju_database_system.Bitmap.Bytes.{is_clear_full}
use zju_database_system.Bitmap.{byte_bit, is_clear, offset_bytes, first_clear, allocate_from}

-- The bit of page `r`, wherever it lies.
abbrev pub bit_clear : Memory → ℕ → Bool
bit_clear m r = is_clear (m (offset_bytes + r / 8)) (r % 8)

first_clear-some :
    (n j b : ℕ) {k : ℕ}
    → first_clear n j b ≡ some k
    → (j ≤ k)
      × (k < j + n)
      × (is_clear b k ≡ true)
      × ((i : ℕ) → j ≤ i → i < k → is_clear b i ≡ false)
unfolding first_clear
first_clear-some zero j b h = ground arith
first_clear-some (suc n) j b {k} h = elim (Bool-cases (is_clear b j)) [
  | inl e ↦ (ground arith, ground arith, ground arith, λ i hi lt. absurd (ground arith))
  | inr e ↦
      let rest = first_clear-some n (j + 1) b {k = k} (ground arith) in
      (
        omega arith,
        omega arith,
        rest.2,
        λ i lo lt. elim (Bool-cases (i == j)) [
          | inl here ↦ ground arith
          | inr later ↦ rest.3 i (ground arith) lt
        ],
      )
]

first_clear-none :
    (n j b : ℕ) → first_clear n j b ≡ none → (i : ℕ) → j ≤ i → i < j + n → is_clear b i ≡ false
unfolding first_clear
first_clear-none zero j b h i lo hi = absurd (omega arith)
first_clear-none (suc n) j b h i lo hi = elim (Bool-cases (is_clear b j)) [
  | inl e ↦ absurd (ground arith)
  | inr e ↦ elim (Bool-cases (i == j)) [
    | inl here ↦ ground arith
    | inr later ↦ first_clear-none n (j + 1) b (ground arith) i (ground arith) (omega arith)
  ]
]

-- The new memory, when page `q` was found.
abbrev pub taken : Memory → ℕ → Memory
taken m q = put m (offset_bytes + q / 8) (bit_or (m (offset_bytes + q / 8)) (byte_bit (q % 8)))

-- What the scan of the bytes from `i` on, `n` of them, has found.
pub record Found (n i : ℕ) (m m' : Memory) (q : ℕ) : Type 0 where
  pub low : i * 8 ≤ q
  pub high : q < (i + n) * 8
  pub free : bit_clear m q ≡ true
  pub first : (r : ℕ) → i * 8 ≤ r → r < q → bit_clear m r ≡ false
  pub result : m' ≡ taken m q

-- One byte's part of the scan.
byte_full :
    (i : ℕ) (m : Memory)
    → IsBytes m
    → ((bit_xor (m (offset_bytes + i)) 0xff == 0) ≡ true)
      ⊎ (first_clear 8 0 (m (offset_bytes + i)) ≡ none)
    → (r : ℕ) → i * 8 ≤ r
    → r < i * 8 + 8
    → bit_clear m r ≡ false
byte_full i m hm h r lo hi =
    let e : r / 8 ≡ i = omega arith in
    rw e (elim h [
      | inl full ↦ is_clear_full (m (offset_bytes + i)) (r % 8) (hm _) (omega arith) full
      | inr no_bit ↦
          first_clear-none 8 0 (m (offset_bytes + i)) no_bit (r % 8) (omega arith) (omega arith)
    ])

Found-later :
    (n i : ℕ) (m m' : Memory) (q : ℕ)
    → ((r : ℕ) → i * 8 ≤ r → r < i * 8 + 8 → bit_clear m r ≡ false)
    → Found n (i + 1) m m' q
    → Found (suc n) i m m' q
Found-later n i m m' q full f = record {
  low = omega (arith, f.low);
  high = omega (arith, f.high);
  free = f.free;
  first = λ r lo hi. elim (Bool-cases (ltb r (i * 8 + 8))) [
    | inl in_byte ↦ full r lo (ground arith)
    | inr beyond ↦ f.first r (ground arith) hi
  ];
  result = f.result;
}

Found-here :
    (n i : ℕ) (m : Memory) (j : ℕ)
    → first_clear 8 0 (m (offset_bytes + i)) ≡ some j
    → Found
        (suc n)
        i
        m
        (put m (offset_bytes + i) (bit_or (m (offset_bytes + i)) (byte_bit j)))
        (i * 8 + j)
Found-here n i m j found =
    let spec = first_clear-some 8 0 (m (offset_bytes + i)) {k = j} found in
    let row : (i * 8 + j) / 8 ≡ i = omega (arith, spec.1) in
    let column : (i * 8 + j) % 8 ≡ j = omega (arith, spec.1) in
    record {
      low = omega arith;
      high = omega (arith, spec.1);
      free = rw (row, column) spec.2;
      first = λ r lo hi.
          let row' : r / 8 ≡ i = omega (arith, spec.1) in
          rw row' (spec.3 (r % 8) (omega arith) (omega (arith, spec.1)));
      result = rw (row, column) refl;
    }

pub allocate_from-some :
    (n i : ℕ) (m : Memory) {m' : Memory} {q : ℕ}
    → IsBytes m
    → allocate_from n i m ≡ some (m', q)
    → Found n i m m' q
unfolding allocate_from
allocate_from-some zero i m hm h = absurd (cc)
allocate_from-some (suc n) i m {m'} {q} hm h =
    elim (Bool-cases (bit_xor (m (offset_bytes + i)) 0xff == 0)) [
      | inl full ↦
          Found-later n i m m' q (byte_full i m hm (inl full))
            (allocate_from-some n (i + 1) m hm (ground arith))
      | inr room ↦ elim (Option-cases (first_clear 8 0 (m (offset_bytes + i)))) [
        | inl no_bit ↦
            Found-later n i m m' q (byte_full i m hm (inr no_bit))
              (allocate_from-some n (i + 1) m hm (ground arith))
        | inr (j, found) ↦
            let memory : m'
                ≡ put m (offset_bytes + i) (bit_or (m (offset_bytes + i)) (byte_bit j)) =
              ground arith in
            let offset : q ≡ i * 8 + j = ground arith in
            rw (memory, offset) (Found-here n i m j found)
      ]
    ]

pub allocate_from-none :
    (n i : ℕ) (m : Memory)
    → IsBytes m
    → allocate_from n i m ≡ none
    → (r : ℕ) → i * 8 ≤ r
    → r < (i + n) * 8
    → bit_clear m r ≡ false
unfolding allocate_from
allocate_from-none zero i m hm h r lo hi = absurd (omega arith)
allocate_from-none (suc n) i m hm h r lo hi = elim (Bool-cases (ltb r (i * 8 + 8))) [
  | inr beyond ↦ allocate_from-none n (i + 1) m hm (ground arith) r (ground arith) (omega arith)
  | inl in_byte ↦ elim (Bool-cases (bit_xor (m (offset_bytes + i)) 0xff == 0)) [
    | inl full ↦ byte_full i m hm (inl full) r lo (ground arith)
    | inr room ↦ byte_full i m hm (inr (ground arith)) r lo (ground arith)
  ]
]
