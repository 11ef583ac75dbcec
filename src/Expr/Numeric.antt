-- ===== src/Expr/Numeric.antt =====
-- expr/expr_eval.cpp, the numeric (fixed point) arithmetic: dec_align, dec_div, dec_result_scale,
-- dec_arith, dec_digits and dec_cmp. A numeric is `unscaled / 10^scale`. An `int` that a three-way
-- comparison returns is the `Ordering` of its sign.
pub mod Round
pub mod Order
use my_simple_db.Prelude.{
  ℕ, zero, suc, ◌+◌, ◌-◌, ◌*◌, ◌/◌, ◌%◌, ◌^◌, max, min, Bool, true, false, not, ◌&&◌, ltb, leb,
  ◌==◌, if◌then◌else◌,
}
use my_simple_db.Prelude.Int.{
  ℤ, pos, ◌+ℤ◌, ◌-ℤ◌, ◌*ℤ◌, sub_ℕ, ltb_ℤ, eqb_ℤ, abs, signed, is_negative,
}
use my_simple_db.Common.{ErrCode, Result, ok, err, ◌>>=◌}
use my_simple_db.Storage.Types.{DecimalVal, numeric_unscaled_max}
use Prim.Native.Nat.{Ordering}

pub data ArithOp : Type 0 where
  add sub mul div : ArithOp

abbrev pub too_large : ℤ → Bool
too_large u = leb numeric_unscaled_max (abs u)

-- The loop of dec_align, with the number of its rounds.
unfoldable pub align_loop : ℕ → ℤ → Result ℤ
align_loop zero u = ok u
align_loop (suc k) u =
    let u' = u *ℤ pos 10 in
    let rest = align_loop k u' in
    if not (eqb_ℤ u' (pos 0)) && too_large u' then err ErrCode.arith_error else rest

unfoldable pub dec_align : ℤ → ℕ → ℕ → Result ℤ
unfolding align_loop
dec_align u from to = align_loop (to - from) u

abbrev pub differ : Bool → Bool → Bool
differ true b = not b
differ false b = b

-- The loop of dec_div: the quotient and the remainder, or an error.
pub record Quotient : Type 0 where
  pub q : ℕ
  pub rem : ℕ

abbrev pub gate : ℕ
gate = numeric_unscaled_max / 10

unfoldable pub div_loop : ℕ → ℕ → Quotient → Result Quotient
div_loop zero ub s = ok s
div_loop (suc k) ub s =
    let rest = div_loop k ub (record { q = s.q * 10 + s.rem * 10 / ub; rem = s.rem * 10 % ub }) in
    if leb gate s.q then err ErrCode.arith_error else rest

-- The final step: round half away from zero, and check the range.
unfoldable pub div_finish : Bool → ℕ → Quotient → Result ℤ
div_finish negative ub s =
    let q = if leb ub (s.rem * 2) then s.q + 1 else s.q in
    if leb numeric_unscaled_max q then err ErrCode.arith_error else ok (signed negative q)

unfoldable pub dec_div : DecimalVal → DecimalVal → ℕ → Result ℤ
dec_div l r rscale =
    if eqb_ℤ r.unscaled (pos 0)
    then err ErrCode.arith_error
    else if ltb (rscale + r.scale) l.scale
    then err ErrCode.internal
    else (do
      let negative = differ (is_negative l.unscaled) (is_negative r.unscaled)
      let ua = abs l.unscaled
      let ub = abs r.unscaled
      s ← div_loop (rscale + r.scale - l.scale) ub (record { q = ua / ub; rem = ua % ub })
      div_finish negative ub s)

unfoldable pub dec_result_scale : ArithOp → DecimalVal → DecimalVal → Result ℕ
dec_result_scale op l r =
    let hi = max l.scale r.scale in
    let s : ℕ = elim op [
      | ArithOp.add ↦ hi
      | ArithOp.sub ↦ hi
      | ArithOp.mul ↦ l.scale + r.scale
      | ArithOp.div ↦ min (hi + 4) 255
    ] in
    if ltb 255 s then err ErrCode.arith_error else ok s

abbrev in_range : ℤ → Result ℤ
in_range out = if too_large out then err ErrCode.arith_error else ok out

unfoldable pub dec_arith : ArithOp → DecimalVal → DecimalVal → ℕ → Result ℤ
dec_arith ArithOp.add l r rscale = do
  lu ← dec_align l.unscaled l.scale rscale
  ru ← dec_align r.unscaled r.scale rscale
  in_range (lu +ℤ ru)
dec_arith ArithOp.sub l r rscale = do
  lu ← dec_align l.unscaled l.scale rscale
  ru ← dec_align r.unscaled r.scale rscale
  in_range (lu -ℤ ru)
dec_arith ArithOp.mul l r rscale = in_range (l.unscaled *ℤ r.unscaled)
dec_arith ArithOp.div l r rscale = dec_div l r rscale

-- The digits of a magnitude. A 256-bit magnitude has at most 78 of them, so 78 rounds are enough.
unfoldable pub digits_loop : ℕ → ℕ → ℕ
digits_loop zero t = 0
digits_loop (suc fuel) t = let rest = digits_loop fuel (t / 10) in if ltb 0 t then rest + 1 else 0

unfoldable pub dec_digits : ℕ → ℕ
dec_digits u = digits_loop 78 u

-- The alignment loop of dec_cmp, `k` times `m *= 10`.
unfoldable pub times_ten : ℕ → ℕ → ℕ
times_ten zero m = m
times_ten (suc k) m = times_ten k (m * 10)

abbrev pub smaller : Bool → Bool → Ordering
smaller negative a_smaller =
    if (if negative then not a_smaller else a_smaller) then Ordering.lt else Ordering.gt

-- dec_cmp for two values of one sign: by the place of the first digit, then aligned.
unfoldable pub cmp_magnitudes : Bool → ℕ → ℕ → ℕ → ℕ → Ordering
cmp_magnitudes negative ua sa ub sb =
    let ea = sub_ℕ (dec_digits ua) sa in
    let eb = sub_ℕ (dec_digits ub) sb in
    let ma = if ltb sb sa then ua else times_ten (sb - sa) ua in
    let mb = if ltb sb sa then times_ten (sa - sb) ub else ub in
    if not (eqb_ℤ ea eb)
    then smaller negative (ltb_ℤ ea eb)
    else if ma == mb
    then Ordering.eq
    else smaller negative (ltb ma mb)

unfoldable pub dec_cmp : DecimalVal → DecimalVal → Ordering
dec_cmp a b =
    let an = is_negative a.unscaled in
    let bn = is_negative b.unscaled in
    let az = eqb_ℤ a.unscaled (pos 0) in
    let bz = eqb_ℤ b.unscaled (pos 0) in
    if az
    then (if bz then Ordering.eq else if bn then Ordering.gt else Ordering.lt)
    else if bz
    then (if an then Ordering.lt else Ordering.gt)
    else if an
    then (if bn
        then cmp_magnitudes true (abs a.unscaled) a.scale (abs b.unscaled) b.scale
        else Ordering.lt)
    else if bn
    then Ordering.gt
    else cmp_magnitudes false (abs a.unscaled) a.scale (abs b.unscaled) b.scale
