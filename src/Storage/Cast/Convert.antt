-- ===== src/Storage/Cast/Convert.antt =====
-- storage/cast.cpp: the conversion functions.
use my_simple_db.Prelude.{
  ℕ, zero, suc, ◌+◌, ◌-◌, ◌*◌, ◌/◌, ◌%◌, ◌^◌, Bool, true, false, not, ◌||◌, ◌&&◌, none, some, List,
  [], ◌∷◌, map, reverse, ltb, leb, ◌==◌, if◌then◌else◌,
}
use my_simple_db.Prelude.Int.{ℤ, pos, negsuc, ltb_ℤ, eqb_ℤ, signed, abs, is_negative}
use my_simple_db.Common.{ErrCode, Result, ok, err, ◌>>=◌}
use my_simple_db.Storage.Types.{
  TypeAttr, Store, Box, Value, DecimalVal, store_eq, int_val, float_val, double_val, str_val,
  bool_val, numeric_val,
}
use my_simple_db.Storage.Fpu.{Platform, is_finite32, is_finite64}
use my_simple_db.Storage.Cast.Decimal.{parse_decimal_text, decimal_to_text}

-- ==================== Reading a box ====================

abbrev pub get_i64 : Value → Result ℤ
get_i64 v = elim v.box [ Box.i64 i ↦ ok i | _ ↦ err ErrCode.internal ]

abbrev pub get_f32 : Value → Result ℕ
get_f32 v = elim v.box [ Box.float f ↦ ok f | _ ↦ err ErrCode.internal ]

abbrev pub get_f64 : Value → Result ℕ
get_f64 v = elim v.box [ Box.double d ↦ ok d | _ ↦ err ErrCode.internal ]

abbrev pub get_str : Value → Result (List ℕ)
get_str v = elim v.box [ Box.str s ↦ ok s | _ ↦ err ErrCode.internal ]

abbrev pub get_bool : Value → Result Bool
get_bool v = elim v.box [ Box.bool b ↦ ok b | _ ↦ err ErrCode.internal ]

abbrev pub get_dec : Value → Result DecimalVal
get_dec v = elim v.box [ Box.dec d ↦ ok d | _ ↦ err ErrCode.internal ]

-- The loop that removes spaces, on the reversed text.
unfoldable pub skip_spaces : List ℕ → List ℕ
skip_spaces [] = []
skip_spaces (c ∷ s) = let rest = skip_spaces s in if c == b' ' then rest else c ∷ s

unfoldable pub rtrim_space : List ℕ → List ℕ
unfolding skip_spaces
rtrim_space s = reverse (skip_spaces (reverse s))

abbrev pub is_char : TypeAttr → Bool
is_char t = store_eq t.store Store.char_pad

unfoldable pub text_view : Value → Result (List ℕ)
text_view v = do s ← get_str v; if is_char v.type then ok (rtrim_space s) else ok s

-- 10^n by the loop of pow10. A 256-bit integer keeps the product modulo 2^256.
unfoldable pub pow10 : ℕ → ℕ
pow10 zero = 1
pow10 (suc n) = pow10 n * 10 % 2 ^ 256

abbrev pub int32_min : ℤ
int32_min = negsuc 2147483647

abbrev pub int32_max : ℤ
int32_max = pos 2147483647

abbrev pub fits_int32 : ℤ → Bool
fits_int32 i = not (ltb_ℤ i int32_min || ltb_ℤ int32_max i)

abbrev pub int64_min : ℤ
int64_min = negsuc 9223372036854775807

abbrev pub int64_max : ℤ
int64_max = pos 9223372036854775807

-- ==================== Conversions ====================

unfoldable pub restamp : Value → TypeAttr → Result Value
restamp v to = ok (record { type = to; box = v.box })

unfoldable pub i64_restamp : Value → TypeAttr → Result Value
i64_restamp v to =
    if ltb to.width v.type.width
    then (do
      i ← get_i64 v
      if fits_int32 i then ok (record { type = to; box = v.box }) else err ErrCode.value_mismatch)
    else ok (record { type = to; box = v.box })

unfoldable pub text_to_text : Value → TypeAttr → Result Value
text_to_text v to =
    if is_char v.type && store_eq to.store Store.var_len
    then (do s ← get_str v; ok (str_val to (rtrim_space s)))
    else ok (record { type = to; box = v.box })

-- std::from_chars does not know a leading '+'.
unfoldable pub drop_plus : List ℕ → List ℕ
drop_plus [] = []
drop_plus (c ∷ s) = if c == b'+' then s else c ∷ s

abbrev is_empty : List ℕ → Bool
is_empty [] = true
is_empty (c ∷ s) = false

-- |d| / 10^scale to the nearest integer, a half away from zero.
unfoldable pub dec_round_i64 : DecimalVal → Result ℤ
dec_round_i64 d =
    let p = pow10 d.scale in
    let r = abs d.unscaled % p in
    let whole = abs d.unscaled / p in
    let mag = if leb p (r * 2) then whole + 1 else whole in
    if leb 39 d.scale
    then ok (pos 0)
    else if ltb 9223372036854775807 mag
    then err ErrCode.value_mismatch
    else ok (signed (is_negative d.unscaled) mag)

unfoldable pub i64_to_bool : Value → TypeAttr → Result Value
i64_to_bool v to = do
  i ← get_i64 v
  if not (eqb_ℤ i (pos 0)) && not (eqb_ℤ i (pos 1))
      then err ErrCode.value_mismatch
      else ok (bool_val to (not (eqb_ℤ i (pos 0))))

unfoldable pub dec_to_bool : Value → TypeAttr → Result Value
dec_to_bool v to = do
  d ← get_dec v
  if eqb_ℤ d.unscaled (pos 0)
      then ok (bool_val to false)
      else if ltb d.scale 39 && abs d.unscaled == pow10 d.scale
      then ok (bool_val to true)
      else err ErrCode.value_mismatch

abbrev lower : ℕ → ℕ
lower c = if leb b'A' c && leb c b'Z' then c - b'A' + b'a' else c

abbrev pub same_text : List ℕ → List ℕ → Bool
same_text [] [] = true
same_text (c ∷ s) (d ∷ t) = c == d && same_text s t
same_text _ _ = false

abbrev pub text_true : List ℕ
text_true = b't' ∷ b'r' ∷ b'u' ∷ b'e' ∷ []

abbrev pub text_false : List ℕ
text_false = b'f' ∷ b'a' ∷ b'l' ∷ b's' ∷ b'e' ∷ []

unfoldable pub parse_bool : List ℕ → Result Bool
parse_bool s =
    if same_text (map lower s) text_true
    then ok true
    else if same_text (map lower s) text_false
    then ok false
    else err ErrCode.value_mismatch

unfoldable pub text_to_bool : Value → TypeAttr → Result Value
text_to_bool v to = do s ← text_view v; b ← parse_bool s; ok (bool_val to b)

unfoldable pub bool_to_text : Value → TypeAttr → Result Value
bool_to_text v to = do b ← get_bool v; ok (str_val to (if b then text_true else text_false))

unfoldable pub bool_to_i64 : Value → TypeAttr → Result Value
bool_to_i64 v to = do b ← get_bool v; ok (int_val to (if b then pos 1 else pos 0))

unfoldable pub bool_to_dec : Value → TypeAttr → Result Value
bool_to_dec v to = do b ← get_bool v; ok (numeric_val to (if b then pos 1 else pos 0) 0)

-- 1.0f and 1.0
abbrev one32 : ℕ
one32 = 0x3F80_0000

abbrev one64 : ℕ
one64 = 0x3FF0_0000_0000_0000

unfoldable pub bool_to_f32 : Value → TypeAttr → Result Value
bool_to_f32 v to = do b ← get_bool v; ok (float_val to (if b then one32 else 0))

unfoldable pub bool_to_f64 : Value → TypeAttr → Result Value
bool_to_f64 v to = do b ← get_bool v; ok (double_val to (if b then one64 else 0))

unfoldable pub i64_to_dec : Value → TypeAttr → Result Value
i64_to_dec v to = do i ← get_i64 v; ok (numeric_val to i 0)

unfoldable pub dec_to_i64 : Value → TypeAttr → Result Value
unfolding dec_round_i64
dec_to_i64 v to = do d ← get_dec v; i ← dec_round_i64 d; ok (int_val to i)

unfoldable pub text_to_dec : Value → TypeAttr → Result Value
text_to_dec v to = do
  s ← text_view v
  d ← parse_decimal_text s
  ok (numeric_val to d.unscaled d.scale)

-- The conversions that use the machine's floats or the library's texts.
module _ (m : Platform) where
  unfoldable pub i64_to_f32 : Value → TypeAttr → Result Value
  i64_to_f32 v to = do i ← get_i64 v; ok (float_val to (m.i64_to_32 i))

  unfoldable pub i64_to_f64 : Value → TypeAttr → Result Value
  i64_to_f64 v to = do i ← get_i64 v; ok (double_val to (m.i64_to_64 i))

  unfoldable pub narrow_f32 : ℕ → Result ℕ
  narrow_f32 d =
      if is_finite64 d && not (is_finite32 (m.narrow d))
      then err ErrCode.value_mismatch
      else ok (m.narrow d)

  unfoldable pub f64_to_f32 : Value → TypeAttr → Result Value
  unfolding narrow_f32
  f64_to_f32 v to = do d ← get_f64 v; f ← narrow_f32 d; ok (float_val to f)

  unfoldable pub f32_to_f64 : Value → TypeAttr → Result Value
  f32_to_f64 v to = do f ← get_f32 v; ok (double_val to (m.widen f))

  unfoldable pub parse_i64 : List ℕ → Result ℤ
  parse_i64 s =
      if is_empty (drop_plus s)
      then err ErrCode.value_mismatch
      else elim (m.from_chars_i64 (drop_plus s)) [
        | none ↦ err ErrCode.value_mismatch
        | some i ↦ ok i
      ]

  unfoldable pub parse_f64 : List ℕ → Result ℕ
  parse_f64 s =
      if is_empty (drop_plus s)
      then err ErrCode.value_mismatch
      else elim (m.from_chars_64 (drop_plus s)) [
        | none ↦ err ErrCode.value_mismatch
        | some d ↦ if is_finite64 d then ok d else err ErrCode.value_mismatch
      ]

  -- -2^63 and 2^63 as doubles
  unfoldable pub trunc_to_i64 : ℕ → Result ℤ
  trunc_to_i64 d =
      if m.le64 0xC3E0_0000_0000_0000 d && m.lt64 d 0x43E0_0000_0000_0000
      then ok (m.trunc d)
      else err ErrCode.value_mismatch

  unfoldable pub dec_to_f64_raw : DecimalVal → Result ℕ
  unfolding parse_f64
  dec_to_f64_raw d = parse_f64 (decimal_to_text m d)

  unfoldable pub i64_to_text : Value → TypeAttr → Result Value
  i64_to_text v to = do i ← get_i64 v; ok (str_val to (m.format_i64 i))

  unfoldable pub f32_to_text : Value → TypeAttr → Result Value
  f32_to_text v to = do f ← get_f32 v; ok (str_val to (m.format_32 f))

  unfoldable pub f64_to_text : Value → TypeAttr → Result Value
  f64_to_text v to = do d ← get_f64 v; ok (str_val to (m.format_64 d))

  unfoldable pub f32_to_bool : Value → TypeAttr → Result Value
  f32_to_bool v to = do
    f ← get_f32 v
    if not (m.eq32 f 0) && not (m.eq32 f one32)
        then err ErrCode.value_mismatch
        else ok (bool_val to (not (m.eq32 f 0)))

  unfoldable pub f64_to_bool : Value → TypeAttr → Result Value
  f64_to_bool v to = do
    d ← get_f64 v
    if not (m.eq64 d 0) && not (m.eq64 d one64)
        then err ErrCode.value_mismatch
        else ok (bool_val to (not (m.eq64 d 0)))

  unfoldable pub text_to_i64 : Value → TypeAttr → Result Value
  unfolding parse_i64
  text_to_i64 v to = do s ← text_view v; i ← parse_i64 s; ok (int_val to i)

  unfoldable pub text_to_f64 : Value → TypeAttr → Result Value
  unfolding parse_f64
  text_to_f64 v to = do s ← text_view v; d ← parse_f64 s; ok (double_val to d)

  unfoldable pub text_to_f32 : Value → TypeAttr → Result Value
  unfolding parse_f64 narrow_f32
  text_to_f32 v to = do s ← text_view v; d ← parse_f64 s; f ← narrow_f32 d; ok (float_val to f)

  unfoldable pub f64_to_i64 : Value → TypeAttr → Result Value
  unfolding trunc_to_i64
  f64_to_i64 v to = do d ← get_f64 v; i ← trunc_to_i64 d; ok (int_val to i)

  unfoldable pub f32_to_i64 : Value → TypeAttr → Result Value
  unfolding trunc_to_i64
  f32_to_i64 v to = do f ← get_f32 v; i ← trunc_to_i64 (m.widen f); ok (int_val to i)

  unfoldable pub f64_to_dec : Value → TypeAttr → Result Value
  f64_to_dec v to = do
    x ← get_f64 v
    d ← parse_decimal_text (m.format_64 x)
    ok (numeric_val to d.unscaled d.scale)

  unfoldable pub f32_to_dec : Value → TypeAttr → Result Value
  f32_to_dec v to = do
    x ← get_f32 v
    d ← parse_decimal_text (m.format_32 x)
    ok (numeric_val to d.unscaled d.scale)

  unfoldable pub dec_to_f64 : Value → TypeAttr → Result Value
  unfolding dec_to_f64_raw
  dec_to_f64 v to = do d ← get_dec v; x ← dec_to_f64_raw d; ok (double_val to x)

  unfoldable pub dec_to_f32 : Value → TypeAttr → Result Value
  unfolding dec_to_f64_raw narrow_f32
  dec_to_f32 v to = do d ← get_dec v; x ← dec_to_f64_raw d; f ← narrow_f32 x; ok (float_val to f)

  unfoldable pub dec_to_text : Value → TypeAttr → Result Value
  dec_to_text v to = do d ← get_dec v; ok (str_val to (decimal_to_text m d))
