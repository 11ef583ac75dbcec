-- ===== src/Storage/Fpu.antt =====
-- What the program takes from the machine and from the C++ library: IEEE 754 arithmetic on `float`
-- and `double` bit patterns, std::format and std::from_chars. None of it is code of the repository:
-- a value of this record is an argument of every definition that uses it.
use my_simple_db.Prelude.{ℕ, ◌/◌, ◌%◌, ◌^◌, ◌≡◌, ◌≢◌, Bool, true, not, Option, List, ◌==◌}
use my_simple_db.Prelude.Int.{ℤ}

-- std::isfinite, by the exponent bits
abbrev pub is_finite64 : ℕ → Bool
is_finite64 b = not (b / 2 ^ 52 % 2 ^ 11 == 2047)

abbrev pub is_finite32 : ℕ → Bool
is_finite32 b = not (b / 2 ^ 23 % 2 ^ 8 == 255)

pub record Platform : Type 0 where
  pub add64 : ℕ → ℕ → ℕ
  pub sub64 : ℕ → ℕ → ℕ
  pub mul64 : ℕ → ℕ → ℕ
  pub div64 : ℕ → ℕ → ℕ
  pub neg64 : ℕ → ℕ
  pub lt64 : ℕ → ℕ → Bool
  pub le64 : ℕ → ℕ → Bool
  pub eq64 : ℕ → ℕ → Bool
  pub add32 : ℕ → ℕ → ℕ
  pub sub32 : ℕ → ℕ → ℕ
  pub mul32 : ℕ → ℕ → ℕ
  pub div32 : ℕ → ℕ → ℕ
  pub neg32 : ℕ → ℕ
  pub eq32 : ℕ → ℕ → Bool
  -- static_cast between float and double, and from int64_t
  pub widen : ℕ → ℕ
  pub narrow : ℕ → ℕ
  pub i64_to_64 : ℤ → ℕ
  pub i64_to_32 : ℤ → ℕ
  -- static_cast<int64_t> of a double in range
  pub trunc : ℕ → ℤ
  -- std::format("{}", x), and the decimal text of a 256-bit magnitude
  pub format_i64 : ℤ → List ℕ
  pub format_64 : ℕ → List ℕ
  pub format_32 : ℕ → List ℕ
  pub format_u256 : ℕ → List ℕ
  -- std::from_chars over a whole text
  pub from_chars_i64 : List ℕ → Option ℤ
  pub from_chars_64 : List ℕ → Option ℕ

-- The documented facts that the theorems use: conversions and
-- negation give finite numbers, and how `<` and `==` behave.
pub record IsIeee (m : Platform) : Type 0 where
  pub neg64_finite : (x : ℕ) → is_finite64 x ≡ true → is_finite64 (m.neg64 x) ≡ true
  pub neg32_finite : (x : ℕ) → is_finite32 x ≡ true → is_finite32 (m.neg32 x) ≡ true
  pub widen_finite : (x : ℕ) → is_finite32 x ≡ true → is_finite64 (m.widen x) ≡ true
  pub i64_to_64_finite : (i : ℤ) → is_finite64 (m.i64_to_64 i) ≡ true
  pub i64_to_32_finite : (i : ℤ) → is_finite32 (m.i64_to_32 i) ≡ true
  -- `<` on doubles is irreflexive
  pub lt64_irrefl : (x : ℕ) → m.lt64 x x ≡ Bool.false
  -- doubles that compare equal are the same, but for the zeros of the two signs; so for floats
  pub eq64_exact : (x y : ℕ) → m.eq64 x y ≡ true → x ≢ 2 ^ 63 → y ≢ 2 ^ 63 → x ≡ y
  pub eq32_exact : (x y : ℕ) → m.eq32 x y ≡ true → x ≢ 2 ^ 31 → y ≢ 2 ^ 31 → x ≡ y
