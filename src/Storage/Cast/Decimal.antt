-- ===== src/Storage/Cast/Decimal.antt =====
-- storage/cast.cpp: the text of a numeric and back (parse_decimal_text, decimal_to_text).
use my_simple_db.Prelude.{
  ℕ, zero, suc, ◌+◌, ◌-◌, ◌*◌, Bool, true, false, not, ◌||◌, ◌&&◌, List, [], ◌∷◌, ◌++◌, ltb, leb,
  ◌==◌, if◌then◌else◌, length, take, drop, replicate,
}
use my_simple_db.Prelude.Int.{ℤ, pos, negsuc, sub_ℕ, signed, abs, is_negative}
use my_simple_db.Common.{ErrCode, Result, ok, err, ◌>>=◌}
use my_simple_db.Storage.Types.{DecimalVal, numeric_unscaled_max}
use my_simple_db.Storage.Fpu.{Platform}

abbrev pub is_digit : ℕ → Bool
is_digit c = leb b'0' c && leb c b'9'

-- The variables u, scale and any of the parser.
pub record Digits : Type 0 where
  pub u : ℕ
  pub scale : ℕ
  pub any : Bool

-- The lambda take_digits: the state and the rest of the text.
unfoldable pub take_digits : Bool → Digits → List ℕ → Result (Digits × List ℕ)
take_digits frac st [] = ok (st, [])
take_digits frac st (c ∷ s) =
    let u' = st.u * 10 + (c - b'0') in
    let st' : Digits = record {
      u = u';
      scale = (if frac then st.scale + 1 else st.scale);
      any = true;
    } in
    let rest = take_digits frac st' s in
    if is_digit c
    then (if leb numeric_unscaled_max u' then err ErrCode.value_mismatch else rest)
    else ok (st, c ∷ s)

-- The digits of the exponent: its magnitude, whether there was one, and the rest.
unfoldable pub take_exponent : ℕ → Bool → List ℕ → Result (ℕ × Bool × List ℕ)
take_exponent exp eany [] = ok (exp, eany, [])
take_exponent exp eany (c ∷ s) =
    let exp' = exp * 10 + (c - b'0') in
    let rest = take_exponent exp' true s in
    if is_digit c
    then (if ltb 1000 exp' then err ErrCode.value_mismatch else rest)
    else ok (exp, eany, c ∷ s)

-- An optional sign: whether it is a minus, and the rest.
abbrev pub take_sign : List ℕ → Bool × List ℕ
take_sign [] = (false, [])
take_sign (c ∷ s) = if c == b'+' || c == b'-' then (c == b'-', s) else (false, c ∷ s)

-- The exponent part; the sign of the exponent comes first in the result.
unfoldable pub exponent_part : List ℕ → Result (Bool × ℕ × List ℕ)
unfolding take_exponent
exponent_part [] = ok (false, 0, [])
exponent_part (c ∷ s) =
    if c == b'e' || c == b'E'
    then (do
      let (eneg, t) = take_sign s
      (exp, eany, rest) ← take_exponent 0 false t
      if eany then ok (eneg, exp, rest) else err ErrCode.value_mismatch)
    else ok (false, 0, c ∷ s)

-- The fraction after a point.
unfoldable pub fraction_part : Digits → List ℕ → Result (Digits × List ℕ)
unfolding take_digits
fraction_part st [] = ok (st, [])
fraction_part st (c ∷ s) = if c == b'.' then take_digits true st s else ok (st, c ∷ s)

-- `k` times `u *= 10`, for a negative scale.
unfoldable pub grow : ℕ → ℕ → Result ℕ
grow zero u = ok u
grow (suc k) u =
    let u' = u * 10 in
    let rest = grow k u' in if leb numeric_unscaled_max u' then err ErrCode.value_mismatch else rest

abbrev finish_scale : Bool → ℕ → ℤ → Result DecimalVal
finish_scale neg u (pos s) =
    if ltb 255 s
    then err ErrCode.value_mismatch
    else ok (record { unscaled = signed neg u; scale = s })
finish_scale neg u (negsuc k) = do
  u' ← grow (suc k) u
  ok (record { unscaled = signed neg u'; scale = 0 })

abbrev scale_minus : ℕ → Bool → ℕ → ℤ
scale_minus scale eneg exp = if eneg then pos (scale + exp) else sub_ℕ scale exp

abbrev at_end : List ℕ → Bool
at_end [] = true
at_end (c ∷ s) = false

unfoldable pub parse_decimal_text : List ℕ → Result DecimalVal
unfolding take_digits fraction_part exponent_part grow
parse_decimal_text s = do
  let (neg, t) = take_sign s
  (whole, t1) ← take_digits false (record { u = 0; scale = 0; any = false }) t
  (st, t2) ← fraction_part whole t1
  if not st.any then err ErrCode.value_mismatch else do
    (eneg, exp, t3) ← exponent_part t2
    if not (at_end t3)
        then err ErrCode.value_mismatch
        else finish_scale neg st.u (scale_minus st.scale eneg exp)

-- The digits padded with zeros until one stands before the point.
abbrev pub pad_digits : List ℕ → ℕ → List ℕ
pad_digits digits scale =
    if leb (length digits) scale
    then replicate (scale - length digits + 1) b'0' ++ digits
    else digits

unfoldable pub decimal_to_text : Platform → DecimalVal → List ℕ
decimal_to_text m d =
    let digits = m.format_u256 (abs d.unscaled) in
    let sign : List ℕ = if is_negative d.unscaled then b'-' ∷ [] else [] in
    let padded = pad_digits digits d.scale in
    let whole = length padded - d.scale in
    if d.scale == 0
    then sign ++ digits
    else sign ++ (take whole padded ++ (b'.' ∷ drop whole padded))
