-- ===== src/Records/Compare.antt =====
-- The comparisons of TypeInt, TypeFloat and TypeChar, CompareStrings and Type::GetData of
-- minisql/src/record/types.cpp.
pub mod Laws
use Prim.Native.Nat.{compare, Ordering}
use zju_database_system.Prelude.{
  ℕ, zero, suc, ◌+◌, ◌-◌, ◌%◌, ◌^◌, min, Bool, true, false, not, ◌&&◌, ◌||◌, Option, none, some,
  List, [], ◌∷◌, length, get_or, ltb, leb, ◌==◌, if◌then◌else◌, ◌>>=◌, ◌>>◌, require,
}
use zju_database_system.Memory.{Memory, put}
use zju_database_system.Records.{
  TypeId, type_invalid, type_int, type_float, type_char, Field, null, integer, floating, chars,
  type_id, same_type,
}

pub data CmpBool : Type 0 where
  k_false k_true k_null : CmpBool

abbrev pub get_cmp_bool : Bool → CmpBool
get_cmp_bool true = k_true
get_cmp_bool false = k_false

-- The six comparisons, CompareEquals and so on.
pub data Comparison : Type 0 where
  equals not_equals less_than less_than_equals greater_than greater_than_equals : Comparison

-- `x == 0`, `x != 0`, `x < 0` and so on for the sign of `x`.
unfoldable pub test : Comparison → Ordering → Bool
test equals o = elim o [ Ordering.eq ↦ true | _ ↦ false ]
test not_equals o = elim o [ Ordering.eq ↦ false | _ ↦ true ]
test less_than o = elim o [ Ordering.lt ↦ true | _ ↦ false ]
test less_than_equals o = elim o [ Ordering.gt ↦ false | _ ↦ true ]
test greater_than o = elim o [ Ordering.gt ↦ true | _ ↦ false ]
test greater_than_equals o = elim o [ Ordering.lt ↦ false | _ ↦ true ]

-- The order of two int32_t in two's complement.
unfoldable pub compare_int32 : ℕ → ℕ → Ordering
compare_int32 a b = compare ((a + 2 ^ 31) % 2 ^ 32) ((b + 2 ^ 31) % 2 ^ 32)

-- The comparisons of TypeInt for two fields with values.
abbrev pub compare_int : Comparison → ℕ → ℕ → CmpBool
compare_int op a b = get_cmp_bool (test op (compare_int32 a b))

-- The sign of memcmp of `n` bytes from `i` on.
unfoldable pub memcmp : ℕ → ℕ → Memory → Memory → Ordering
memcmp zero i s t = Ordering.eq
memcmp (suc n) i s t =
    let rest = memcmp n (i + 1) s t in
    elim (compare (s i) (t i)) [
      | Ordering.lt ↦ Ordering.lt
      | Ordering.eq ↦ rest
      | Ordering.gt ↦ Ordering.gt
    ]

unfoldable pub compare_strings : Memory → ℕ → Memory → ℕ → Ordering
compare_strings str1 len1 str2 len2 = elim (memcmp (min len1 len2) 0 str1 str2) [
  | Ordering.lt ↦ Ordering.lt
  | Ordering.eq ↦ compare len1 len2
  | Ordering.gt ↦ Ordering.gt
]

-- strcpy from `i` on into a buffer with room for `n` bytes more; `none` if it does not end in them.
unfoldable pub str_copy : ℕ → ℕ → (ℕ → ℕ) → Memory → Option Memory
str_copy zero i source buf = none
str_copy (suc n) i source buf =
    let rest = str_copy n (i + 1) source (put buf i (source i)) in
    if source i == 0 then some (put buf i (source i)) else rest

-- A letter or a digit.
unfoldable pub is_alnum : ℕ → Bool
is_alnum b = (leb 97 b && leb b 122) || ((leb 65 b && leb b 90) || (leb 48 b && leb b 57))

-- The loop of GetData, which ends the text at the first byte of the buffer that is no letter or digit.
unfoldable pub cut_text : ℕ → ℕ → Memory → Memory
cut_text zero i buf = buf
cut_text (suc n) i buf =
    let rest = cut_text n (i + 1) buf in if is_alnum (buf i) then rest else put buf i 0

-- `behind` has the bytes of the memory behind the characters of a field.
module _ (behind : List ℕ → ℕ → ℕ) where
  -- The memory that strcpy reads.
  abbrev pub text_of : List ℕ → ℕ → ℕ
  text_of xs i = if ltb i (length xs) then get_or xs i 0 else behind xs (i - length xs)

  -- GetData of characters: the static buffer afterwards, to which the returned pointer points.
  unfoldable pub get_data : List ℕ → Memory → Option Memory
  get_data xs buf = do copied ← str_copy 128 0 (text_of xs) buf; some (cut_text 128 0 copied)

  -- Both pointers are the static buffer, as the second call leaves it. CompareStrings takes the lengths
  -- as int and asserts that they are not negative.
  unfoldable pub compare_chars : Comparison → List ℕ → List ℕ → Memory → Option CmpBool
  compare_chars op xs ys buf = do
    left ← get_data xs buf
    right ← get_data ys left
    require (ltb (length xs) (2 ^ 31) && ltb (length ys) (2 ^ 31))
    some (get_cmp_bool (test op (compare_strings right (length xs) right (length ys))))

-- `float_test` compares two floats as the machine does.
module _ (behind : List ℕ → ℕ → ℕ) (float_test : Comparison → ℕ → ℕ → Bool) where
  -- The comparisons of TypeFloat for two fields with values.
  abbrev pub compare_float : Comparison → ℕ → ℕ → CmpBool
  compare_float op a b = get_cmp_bool (float_test op a b)

  unfoldable pub compare_field : Comparison → Field → Field → Memory → Option CmpBool
  compare_field op (null type_invalid) r buf = none
  compare_field op (null t) r buf = if same_type t (type_id r) then some k_null else none
  compare_field op (integer a) (integer b) buf = some (compare_int op a b)
  compare_field op (integer a) r buf = if same_type type_int (type_id r) then some k_null else none
  compare_field op (floating a) (floating b) buf = some (compare_float op a b)
  compare_field op (floating a) r buf =
      if same_type type_float (type_id r) then some k_null else none
  compare_field op (chars xs) (chars ys) buf = compare_chars behind op xs ys buf
  compare_field op (chars xs) r buf = if same_type type_char (type_id r) then some k_null else none
