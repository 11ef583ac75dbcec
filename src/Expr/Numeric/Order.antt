-- ===== src/Expr/Numeric/Order.antt =====
-- dec_cmp compares exactly: the order of the two fractions, with the denominators multiplied out.
use my_simple_db.Prelude.{
  if◌then◌else◌, not, ◌==◌, ◌-◌, ℕ, zero, suc, ◌+◌, ◌*◌, ◌/◌, ◌^◌, ◌≤◌, ◌<◌, ◌≡◌, sym, ◌∙◌, refl,
  ap, Bool, true, false, arith, inl, inr, Bool-cases, ltb, ltb→lt,
}
use native.Mathlib.Decide.{dec_lt}
use Prim.Native.Nat.{compare, Ordering}
use native.Mathlib.Nat.{
  pow-le-pow_right, mul-lt-mul_of_pos_right, mul-le-mul_right, pow-suc, mul_assoc,
}
use my_simple_db.Prelude.Pow.{pow_add, pow_pos}
use my_simple_db.Prelude.Int.{sub_ℕ, eqb_ℤ, ltb_ℤ, ℤ, pos, negsuc, pos_part, neg_part, ◌*ℤ◌, abs}
use my_simple_db.Storage.Types.{DecimalVal, numeric_unscaled_max}
use my_simple_db.Expr.Numeric.{digits_loop, dec_digits, times_ten, cmp_magnitudes, dec_cmp, smaller}

digits_loop-zero : (fuel : ℕ) → digits_loop fuel 0 ≡ 0
unfolding digits_loop
digits_loop-zero zero = refl
digits_loop-zero (suc fuel) = refl

digits_loop-suc : (fuel t : ℕ) → 0 < t → digits_loop (suc fuel) t ≡ suc (digits_loop fuel (t / 10))
unfolding digits_loop
digits_loop-suc fuel t p = ground arith

-- A number of d digits lies between 10^(d-1) and 10^d.
digits_bounds :
    (fuel t : ℕ)
    → 0 < t
    → t < 10 ^ fuel
    → (t < 10 ^ digits_loop fuel t) × (10 ^ digits_loop fuel t ≤ 10 * t)
digits_bounds zero t p h = absurd (omega arith)
digits_bounds (suc fuel) t p h = elim (Bool-cases (ltb 0 (t / 10))) [
  | inl more ↦
      let q = ltb→lt 0 (t / 10) more in
      let ih = digits_bounds fuel (t / 10) q (omega (arith, pow-suc 10 fuel)) in
      rw (digits_loop-suc fuel t p)
        (omega (arith, pow-suc 10 (digits_loop fuel (t / 10)), ih.0, ih.1))
  | inr last ↦
      let z : t / 10 ≡ 0 = ground arith in
      rw (digits_loop-suc fuel t p, z, digits_loop-zero) (omega arith)
]

times_ten_lem : (k m : ℕ) → times_ten k m ≡ m * 10 ^ k
unfolding times_ten
times_ten_lem zero m = omega arith
times_ten_lem (suc k) m = rw pow-suc (grind (arith, times_ten_lem k (m * 10)))

-- Values of different orders of magnitude.
lt_of_digits :
    (ua sa ub sb da db : ℕ)
    → ua < 10 ^ da
    → 10 ^ db ≤ 10 * ub
    → da + sb < db + sa
    → ua * 10 ^ sb < ub * 10 ^ sa
lt_of_digits ua sa ub sb da db hua hub h =
    let p : 10 ^ (da + sb) * 10 ≤ 10 ^ (db + sa) =
      rw (← pow-suc 10 (da + sb)) (pow-le-pow_right (omega arith) h) in
    let q : ua * 10 ^ sb < 10 ^ da * 10 ^ sb =
      mul-lt-mul_of_pos_right hua (pow_pos 10 sb (omega arith)) in
    let r : 10 ^ db * 10 ^ sa ≤ 10 * ub * 10 ^ sa = mul-le-mul_right (10 ^ sa) hub in
    omega (arith, p, q, r, pow_add 10 da sb, pow_add 10 db sa)

compare-mul : (m n p : ℕ) → 0 < p → compare (m * p) (n * p) ≡ compare m n
compare-mul m n p h = elim (dec_lt m n) [
  | yes l ↦ let k = mul-lt-mul_of_pos_right l h in ground arith
  | no g ↦ elim (dec_lt n m) [
    | yes l ↦ let k = mul-lt-mul_of_pos_right l h in ground arith
    | no k ↦ let e : m ≡ n = omega arith in rw e (ground arith)
  ]
]

scale_split : (u s t : ℕ) → s ≤ t → u * 10 ^ (t - s) * 10 ^ s ≡ u * 10 ^ t
scale_split u s t h =
    let e : t - s + s ≡ t = omega arith in
    mul_assoc _ _ _ ∙ ap (λ r. u * r) (sym (pow_add 10 (t - s) s) ∙ ap (λ r. 10 ^ r) e)

-- The two magnitudes brought to one scale compare as the cross products do.
compare-aligned :
    (ua sa ub sb : ℕ)
    → compare
        (if ltb sb sa then ua else times_ten (sb - sa) ua)
        (if ltb sb sa then times_ten (sa - sb) ub else ub)
      ≡ compare (ua * 10 ^ sb) (ub * 10 ^ sa)
compare-aligned ua sa ub sb = elim (Bool-cases (ltb sb sa)) [
  | inl down ↦
      let k = compare-mul ua (ub * 10 ^ (sa - sb)) (10 ^ sb) (pow_pos 10 sb (omega arith)) in
      let e = scale_split ub sb sa (ground arith) in
      rw (down, times_ten_lem) (sym k ∙ ap (compare (ua * 10 ^ sb)) e)
  | inr up ↦
      let k = compare-mul (ua * 10 ^ (sb - sa)) ub (10 ^ sa) (pow_pos 10 sa (omega arith)) in
      let e = scale_split ua sa sb (ground arith) in
      rw (up, times_ten_lem) (sym k ∙ ap (λ t. compare t (ub * 10 ^ sa)) e)
]

eqb-sub_ℕ : (a s b t : ℕ) → eqb_ℤ (sub_ℕ a s) (sub_ℕ b t) ≡ (a + t == b + s)
eqb-sub_ℕ a s b t = ground arith

ltb-sub_ℕ : (a s b t : ℕ) → ltb_ℤ (sub_ℕ a s) (sub_ℕ b t) ≡ ltb (a + t) (b + s)
ltb-sub_ℕ a s b t = ground arith

-- The result of comparing the places of the first digits, and then the aligned magnitudes.
abbrev by_place : Bool → ℕ → ℕ → ℕ → ℕ → Ordering
by_place negative a b m n =
    if not (a == b)
    then smaller negative (ltb a b)
    else if m == n
    then Ordering.eq
    else smaller negative (ltb m n)

-- For negative values the order of the magnitudes is turned round.
abbrev outcome : Bool → ℕ → ℕ → Ordering
outcome true x y = compare y x
outcome false x y = compare x y

by_place_lem :
    (negative : Bool) (a b m n x y : ℕ)
    → (a < b → x < y)
    → (b < a → y < x)
    → compare m n ≡ compare x y
    → by_place negative a b m n ≡ outcome negative x y
by_place_lem true a b m n x y up down same = ground arith
by_place_lem false a b m n x y up down same = ground arith

abbrev IsMagnitude : ℕ → Type 0
IsMagnitude u = (0 < u) × (u < 10 ^ 78)

dec_digits_bounds : (u : ℕ) → IsMagnitude u → (u < 10 ^ dec_digits u) × (10 ^ dec_digits u ≤ 10 * u)
unfolding dec_digits
dec_digits_bounds u h = digits_bounds 78 u h.0 h.1

cmp_magnitudes_lem :
    (negative : Bool) (ua sa ub sb : ℕ)
    → IsMagnitude ua
    → IsMagnitude ub
    → cmp_magnitudes negative ua sa ub sb ≡ outcome negative (ua * 10 ^ sb) (ub * 10 ^ sa)
unfolding cmp_magnitudes
cmp_magnitudes_lem negative ua sa ub sb ha hb =
    let (la, ra) = dec_digits_bounds ua ha in
    let (lb, rb) = dec_digits_bounds ub hb in
    let da = dec_digits ua in
    let db = dec_digits ub in
    rw (eqb-sub_ℕ da sa db sb, ltb-sub_ℕ da sa db sb)
      (by_place_lem negative (da + sb) (db + sa) _ _ _ _ (lt_of_digits ua sa ub sb da db la rb)
        (lt_of_digits ub sb ua sa db da lb ra) (compare-aligned ua sa ub sb))

-- The order of two integers.
abbrev pub compare_ℤ : ℤ → ℤ → Ordering
compare_ℤ a b = compare (pos_part a + neg_part b) (pos_part b + neg_part a)

-- The numerator of a numeric at a common denominator.
abbrev pub cross : DecimalVal → DecimalVal → ℤ
cross a b = a.unscaled *ℤ pos (10 ^ b.scale)

-- 256 bits hold magnitudes below 10^78.
abbrev pub IsNumeric : DecimalVal → Type 0
IsNumeric d = abs d.unscaled < numeric_unscaled_max

pos_part-* : (u : ℤ) (p : ℕ) → pos_part (u *ℤ pos p) ≡ pos_part u * p
unfolding ◌*ℤ◌
pos_part-* (pos n) p = ground arith
pos_part-* (negsuc n) p = ground arith

neg_part-* : (u : ℤ) (p : ℕ) → neg_part (u *ℤ pos p) ≡ neg_part u * p
unfolding ◌*ℤ◌
neg_part-* (pos n) p = ground arith
neg_part-* (negsuc n) p = ground arith

pos_mul : (v n : ℕ) → 0 < suc v * 10 ^ n
pos_mul v n = let p = pow_pos 10 n (omega arith) in grind arith

-- dec_cmp by the signs of the two values.
by_signs :
    (u v : ℤ) (s t : ℕ)
    → abs u < 10 ^ 78
    → abs v < 10 ^ 78
    → dec_cmp (record { unscaled = u; scale = s }) (record { unscaled = v; scale = t })
      ≡ compare
          (pos_part u * 10 ^ t + neg_part v * 10 ^ s)
          (pos_part v * 10 ^ s + neg_part u * 10 ^ t)
unfolding dec_cmp
by_signs (pos zero) (pos zero) s t hu hv = ground arith
by_signs (pos zero) (pos (suc v)) s t hu hv = ground (arith, pos_mul v s)
by_signs (pos zero) (negsuc v) s t hu hv = ground (arith, pos_mul v s)
by_signs (pos (suc u)) (pos zero) s t hu hv = ground (arith, pos_mul u t)
by_signs (pos (suc u)) (pos (suc v)) s t hu hv = ground (
  arith,
  pos_mul u t,
  pos_mul v s,
  cmp_magnitudes_lem false (suc u) s (suc v) t (omega arith, omega arith)
      (omega arith, omega arith),
)
by_signs (pos (suc u)) (negsuc v) s t hu hv = ground (arith, pos_mul u t, pos_mul v s)
by_signs (negsuc u) (pos zero) s t hu hv = ground (arith, pos_mul u t)
by_signs (negsuc u) (pos (suc v)) s t hu hv = ground (arith, pos_mul u t, pos_mul v s)
by_signs (negsuc u) (negsuc v) s t hu hv = ground (
  arith,
  pos_mul u t,
  pos_mul v s,
  cmp_magnitudes_lem true (suc u) s (suc v) t (omega arith, omega arith) (omega arith, omega arith),
)

-- For magnitudes below 10^38, dec_cmp orders two numerics as the fractions that they stand for:
-- `a.unscaled * 10^b.scale` against `b.unscaled * 10^a.scale`.
pub dec_cmp_lem :
    (a b : DecimalVal) → IsNumeric a → IsNumeric b → dec_cmp a b ≡ compare_ℤ (cross a b) (cross b a)
dec_cmp_lem a b ha hb =
    simp (pos_part-*, neg_part-*)
      (by_signs a.unscaled b.unscaled a.scale b.scale (omega arith) (omega arith))
