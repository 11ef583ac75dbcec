-- ===== src/Expr/Numeric/Round.antt =====
-- dec_div divides exactly and rounds half away from zero.
use my_simple_db.Prelude.{
  ℕ, zero, suc, ◌+◌, ◌-◌, ◌*◌, ◌/◌, ◌%◌, ◌^◌, ◌≤◌, ◌<◌, ◌≡◌, sym, ◌∙◌, refl, ap, Bool, false, arith,
  inl, inr, Bool-cases, ltb, leb, leb→le, le→leb, if◌then◌else◌,
}
use native.Mathlib.Nat.{
  pow-suc, pow-zero, mul-one, div-eq_of_lt-le, div-add-mod', mod-lt, le-div_iff_mul-le, mul_assoc,
  mul-le-mul, mul-le-mul_right, pow-succ',
}
use my_simple_db.Prelude.Pow.{pow_pos}
use my_simple_db.Prelude.Int.{ℤ, pos, negsuc, abs, signed, is_negative, eqb_ℤ}
use my_simple_db.Common.{ErrCode, Result, ok, err, ◌>>=◌}
use my_simple_db.Storage.Types.{DecimalVal, numeric_unscaled_max}
use my_simple_db.Expr.Numeric.{Quotient, gate, differ, div_loop, div_finish, dec_div}

-- n / d to the nearest integer, a half upwards.
abbrev pub round_div : ℕ → ℕ → ℕ
round_div n d = (2 * n + d) / (2 * d)

-- The rounded quotient with its sign, or the error that it has more than 38 digits.
abbrev pub rounded : Bool → ℕ → ℕ → Result ℤ
rounded negative n d =
    if leb numeric_unscaled_max (round_div n d)
    then err ErrCode.arith_error
    else ok (signed negative (round_div n d))

round_div-up : (q rem d : ℕ) → d ≤ rem * 2 → rem < d → round_div (q * d + rem) d ≡ q + 1
round_div-up q rem d h l = div-eq_of_lt-le (2 * d) (grind arith) (grind arith)

round_div-down : (q rem d : ℕ) → rem * 2 < d → round_div (q * d + rem) d ≡ q
round_div-down q rem d h = div-eq_of_lt-le (2 * d) (grind arith) (grind arith)

abbrev total : ℕ → Quotient → ℕ
total d s = s.q * d + s.rem

finish_lem :
    (negative : Bool) (d : ℕ) (s : Quotient)
    → s.rem < d
    → div_finish negative d s ≡ rounded negative (total d s) d
unfolding div_finish
finish_lem negative d s l = elim (Bool-cases (leb d (s.rem * 2))) [
  | inl up ↦ rw (up, round_div-up s.q s.rem d (leb→le _ _ up) l) refl
  | inr down ↦ rw (down, round_div-down s.q s.rem d (ground arith)) refl
]

next_total :
    (d : ℕ) (s : Quotient)
    → 0 < d
    → (s.q * 10 + s.rem * 10 / d) * d + s.rem * 10 % d ≡ total d s * 10
next_total d s h = let e = div-add-mod' (s.rem * 10) d in grind (arith, e)

-- A quotient that has reached the gate with a digit to come is out of range.
gate_overflows :
    (q rem d k : ℕ)
    → 0 < d
    → gate ≤ q
    → numeric_unscaled_max ≤ round_div ((q * d + rem) * 10 ^ suc k) d
gate_overflows q rem d k h g =
    let p : 10 ≤ 10 ^ suc k = rw pow-suc (let z = pow_pos 10 k (omega arith) in omega (arith, z)) in
    let a : gate * d ≤ q * d + rem = omega (arith, mul-le-mul_right d g) in
    let b = mul-le-mul a p in (le-div_iff_mul-le (omega arith)).1 (omega (arith, b))

loop_lem :
    (negative : Bool) (k d : ℕ) (s : Quotient)
    → s.rem < d
    → (div_loop k d s >>= div_finish negative d) ≡ rounded negative (total d s * 10 ^ k) d
unfolding div_loop
loop_lem negative zero d s l = rw (pow-zero, mul-one) (finish_lem negative d s l)
loop_lem negative (suc k) d s l = elim (Bool-cases (leb gate s.q)) [
  | inl over ↦
      rw (over, le→leb _ _ (gate_overflows s.q s.rem d k (omega arith) (leb→le _ _ over))) refl
  | inr under ↦
      let next : Quotient = record { q = s.q * 10 + s.rem * 10 / d; rem = s.rem * 10 % d } in
      let e : total d next * 10 ^ k ≡ total d s * 10 ^ suc k =
        ap (λ t. t * 10 ^ k) (next_total d s (omega arith))
        ∙ mul_assoc _ _ _
        ∙ ap (λ t. total d s * t) (sym (pow-succ' 10 k)) in
      rw under (
        loop_lem negative k d next (mod-lt (s.rem * 10) (omega arith))
        ∙ ap (λ n. rounded negative n d) e)
]

abs-ne-zero : (u : ℤ) → 0 < abs u → eqb_ℤ u (pos 0) ≡ false
abs-ne-zero (pos n) h = ground arith
abs-ne-zero (negsuc n) h = ground arith

abbrev pub quotient_sign : DecimalVal → DecimalVal → Bool
quotient_sign l r = differ (is_negative l.unscaled) (is_negative r.unscaled)

-- For a divisor other than zero and a target scale that the inputs allow, dec_div is the quotient
-- l / r at that scale, rounded half away from zero, or the error that it has more than 38 digits.
pub dec_div_lem :
    (l r : DecimalVal) (rscale : ℕ)
    → 0 < abs r.unscaled
    → l.scale ≤ rscale + r.scale
    → dec_div l r rscale
      ≡ rounded
          (quotient_sign l r)
          (abs l.unscaled * 10 ^ (rscale + r.scale - l.scale))
          (abs r.unscaled)
unfolding dec_div
dec_div_lem l r rscale h g =
    let d = abs r.unscaled in
    let n = abs l.unscaled in
    let start : Quotient = record { q = n / d; rem = n % d } in
    let k = rscale + r.scale - l.scale in
    let nonzero : eqb_ℤ r.unscaled (pos 0) ≡ false = abs-ne-zero r.unscaled h in
    let allowed : ltb (rscale + r.scale) l.scale ≡ false = ground arith in
    rw (nonzero, allowed)
      (loop_lem (quotient_sign l r) k d start (mod-lt n h)
        ∙ ap (λ t. rounded (quotient_sign l r) (t * 10 ^ k) d) (div-add-mod' n d))

-- A division by zero is an error, whatever the dividend.
pub dec_div-zero :
    (l r : DecimalVal) (rscale : ℕ)
    → r.unscaled ≡ pos 0
    → dec_div l r rscale ≡ err ErrCode.arith_error
unfolding dec_div
dec_div-zero l r rscale h = rw h refl
