-- ===== src/Storage/Cast/Coerce.antt =====
-- storage/cast.cpp: coerce_numeric, the conversion to a declared numeric(precision, scale), and
-- what its rounding does.
use my_simple_db.Prelude.{
  ℕ, zero, suc, ◌+◌, ◌-◌, ◌*◌, ◌/◌, ◌%◌, ◌^◌, ◌≤◌, ◌<◌, ◌≡◌, refl, true, not, ◌&&◌, arith, ltb, leb,
  if◌then◌else◌,
}
use my_simple_db.Prelude.Pow.{pow_pos}
use native.Mathlib.Nat.{
  pow-zero, pow-suc, pow-le-pow_right, le-div_iff_mul-le, div-eq_of_lt, mod-eq_of_lt,
}
use my_simple_db.Prelude.Int.{
  ℤ, pos, negsuc, ◌+ℤ◌, ◌*ℤ◌, ◌/ℤ◌, abs, eqb_ℤ, ltb_ℤ, is_negative, signed,
}
use my_simple_db.Common.{ErrCode, Result, ok, err, ◌>>=◌}
use my_simple_db.Storage.Types.{TypeAttr, Value, numeric_unscaled_max, numeric_val}
use my_simple_db.Storage.Fpu.{Platform}
use my_simple_db.Storage.Cast.Convert.{get_dec, pow10}
use my_simple_db.Storage.Cast.Table.{CastMode, cast_value}

-- The branch that lowers the scale by `k` digits.
unfoldable pub lower_scale : ℤ → ℕ → ℤ
lower_scale u k =
    let p = pow10 k in
    let r = abs u % p in
    let u' = u /ℤ pos p in
    if leb p (r * 2) then u' +ℤ (if ltb_ℤ u' (pos 0) then negsuc 0 else pos 1) else u'

-- The branch that raises the scale: `k` rounds of `u *= 10`.
unfoldable pub raise_scale : ℕ → ℤ → Result ℤ
raise_scale zero u = ok u
raise_scale (suc k) u =
    let u' = u *ℤ pos 10 in
    let rest = raise_scale k u' in
    if not (eqb_ℤ u' (pos 0)) && leb numeric_unscaled_max (abs u')
    then err ErrCode.value_mismatch
    else rest

-- The loop that counts the digits; 78 rounds are enough for 256 bits.
unfoldable pub precision_loop : ℕ → ℕ → ℕ
precision_loop zero mag = 0
precision_loop (suc fuel) mag =
    let rest = precision_loop fuel (mag / 10) in if ltb 0 mag then rest + 1 else 0

unfoldable pub check_precision : ℕ → ℤ → Result ℤ
unfolding precision_loop
check_precision precision u =
    if ltb 0 precision && ltb precision (precision_loop 78 (abs u))
    then err ErrCode.value_mismatch
    else ok u

unfoldable pub coerce_numeric : Platform → Value → TypeAttr → ℕ → ℕ → CastMode → Result Value
unfolding lower_scale raise_scale check_precision
coerce_numeric m v to precision scale mode = do
  n ← cast_value m v to mode
  d ← get_dec n
  u ←
      (if ltb scale d.scale
        then ok (lower_scale d.unscaled (d.scale - scale))
        else raise_scale (scale - d.scale) d.unscaled)
  u' ← check_precision precision u
  ok (numeric_val to u' scale)

-- Up to 10^76 the powers of ten fit 256 bits.
pow10_lem : (n : ℕ) → n ≤ 76 → pow10 n ≡ 10 ^ n
unfolding pow10
pow10_lem zero h = rw pow-zero
pow10_lem (suc n) h =
    let small : 10 ^ n ≤ 10 ^ 75 = pow-le-pow_right (omega arith) {j = 75} (omega arith) in
    let e = pow10_lem n (omega arith) in rw (e, pow-suc) (omega (arith, small))

-- the nearest integer to m / p, a half upwards
abbrev pub nearest : ℕ → ℕ → ℕ
nearest m p = if leb p (m % p * 2) then m / p + 1 else m / p

-- Where up to 76 digits are dropped, a value that is not negative, or whose magnitude is at least
-- one unit of the target scale, is rounded to the nearest unit, a half away from zero.
pub lower_scale_lem :
    (u : ℤ) (k : ℕ)
    → k ≤ 76
    → (is_negative u ≡ true → 10 ^ k ≤ abs u)
    → lower_scale u k ≡ signed (is_negative u) (nearest (abs u) (10 ^ k))
unfolding lower_scale ◌/ℤ◌ ◌+ℤ◌
lower_scale_lem (pos n) k h big = rw (pow10_lem k h) (ground arith)
lower_scale_lem (negsuc n) k h big =
    let one : 1 ≤ suc n / 10 ^ k =
      (le-div_iff_mul-le (pow_pos 10 k (omega arith))).1 (omega (arith, big refl)) in
    rw (pow10_lem k h) (ground arith)

-- Where up to 76 digits are dropped, a negative value between a half unit and one unit of the
-- target scale becomes plus one unit: the sign test reads the quotient, which is zero by then.
pub lower_scale-small_negative :
    (n k : ℕ) → k ≤ 76 → suc n < 10 ^ k → 10 ^ k ≤ suc n * 2 → lower_scale (negsuc n) k ≡ pos 1
unfolding lower_scale ◌/ℤ◌ ◌+ℤ◌
lower_scale-small_negative n k h small half =
    let z : suc n / 10 ^ k ≡ 0 = div-eq_of_lt small in
    let r : suc n % 10 ^ k ≡ suc n = mod-eq_of_lt small in rw (pow10_lem k h) (ground (arith, z, r))
