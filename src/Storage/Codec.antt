-- ===== src/Storage/Codec.antt =====
-- storage/codec.cpp: encode_row and decode_row, a row as the bytes of a record.
-- Both return `false` for data that is not valid, here `none`, and raise an error for a type that
-- no column has. `out` is empty before a call; what a call that returns `false` leaves in it is not
-- modelled. `decode_row` takes the memory from `data` on and the length of the record.
pub mod Bytes
pub mod Columns
pub mod Decimals
pub mod Bitmap
pub mod Stored
pub mod Rows
pub mod Bounds
pub mod Accepts
pub mod Typed
use my_simple_db.Prelude.{
  ℕ, zero, suc, ◌+◌, ◌-◌, ◌*◌, ◌/◌, ◌%◌, ◌^◌, Bool, true, false, not, ◌&&◌, ◌||◌, Option, none,
  some, List, [], ◌∷◌, ◌++◌, map, ltb, leb, ◌==◌, if◌then◌else◌, length, set, get_or, take, drop,
  replicate,
}
use my_simple_db.Prelude.Int.{ℤ, pos, abs, is_negative, neg_ℤ}
use my_simple_db.Common.{ErrCode, Result, ok, err, ◌>>=◌}
use my_simple_db.Storage.Types.{
  Rep, Store, ColumnSpec, Box, Value, DecimalVal, store_eq, int_val, float_val, double_val, str_val,
  bool_val, numeric_val, typed_null, value_is_null, numeric_unscaled_max,
}
use my_simple_db.Storage.Fpu.{is_finite32, is_finite64}
use my_simple_db.Storage.Cast.Convert.{fits_int32}
use my_simple_db.Storage.Codec.Bytes.{
  put_u16, put_u32, read_u16, read_u32, to_unsigned, of_unsigned, set_bit, test_bit, low_bytes,
  read_bytes, invert, increment,
}

-- What follows a `return false` or a raise is not run.
abbrev pub and_then {ℓ κ} :
    {X : Type ℓ} {Y : Type κ} → Result (Option X) → (X → Result (Option Y)) → Result (Option Y)
and_then r k = r >>= λ o. elim o [ none ↦ ok none | some x ↦ k x ]

-- `if (bad) { return false; }`
abbrev pub unless {ℓ} : {X : Type ℓ} → Bool → X → Result (Option X)
unless bad x = if bad then ok none else ok (some x)

-- ==================== The cases of encode_row ====================

unfoldable pub put_int : ColumnSpec → ℤ → Result (Option (List ℕ))
put_int col v =
    if not (store_eq col.type.store Store.fixed)
    then err ErrCode.internal
    else if col.type.width == 4
    then unless (not (fits_int32 v)) (put_u32 (to_unsigned 32 v))
    else if col.type.width == 8
    then ok (some (put_u32 (to_unsigned 64 v % 2 ^ 32) ++ put_u32 (to_unsigned 64 v / 2 ^ 32)))
    else err ErrCode.internal

unfoldable pub put_double : ColumnSpec → ℕ → Result (Option (List ℕ))
put_double col bits =
    if not (is_finite64 bits)
    then ok none
    else if not (store_eq col.type.store Store.fixed) || not (col.type.width == 8)
    then err ErrCode.internal
    else ok (some (put_u32 (bits % 2 ^ 32) ++ put_u32 (bits / 2 ^ 32)))

unfoldable pub put_text : ColumnSpec → List ℕ → Result (Option (List ℕ))
put_text col v =
    if store_eq col.type.store Store.var_len
    then unless (ltb 65535 (length v) || (ltb 0 col.length && ltb col.length (length v)))
        (put_u16 (length v) ++ v)
    else if store_eq col.type.store Store.char_pad
    then unless (ltb col.length (length v)) (v ++ replicate (col.length - length v) b' ')
    else err ErrCode.internal

unfoldable pub put_float : ColumnSpec → ℕ → Result (Option (List ℕ))
put_float col bits =
    if not (is_finite32 bits)
    then ok none
    else if not (store_eq col.type.store Store.fixed) || not (col.type.width == 4)
    then err ErrCode.internal
    else ok (some (put_u32 bits))

unfoldable pub put_bool : ColumnSpec → Bool → Result (Option (List ℕ))
put_bool col v =
    if not (store_eq col.type.store Store.fixed) || not (col.type.width == 1)
    then err ErrCode.internal
    else ok (some ((if v then 1 else 0) ∷ []))

-- The 16 bytes of a sign and a magnitude in two's complement.
abbrev pub complement : Bool → ℕ → List ℕ
complement negative mag =
    if negative then increment (invert (low_bytes 16 mag)) else low_bytes 16 mag

unfoldable pub put_decimal : ColumnSpec → DecimalVal → Result (Option (List ℕ))
put_decimal col d =
    if leb numeric_unscaled_max (abs d.unscaled)
    then ok none
    else if not (store_eq col.type.store Store.decimal)
    then err ErrCode.internal
    else ok (some (complement (is_negative d.unscaled) (abs d.unscaled) ++ (d.scale ∷ [])))

-- The switch, for a value that is not NULL.
unfoldable pub put_box : Rep → ColumnSpec → Box → Result (Option (List ℕ))
put_box Rep.int64 col (Box.i64 v) = put_int col v
put_box Rep.double col (Box.double v) = put_double col v
put_box Rep.str col (Box.str v) = put_text col v
put_box Rep.float col (Box.float v) = put_float col v
put_box Rep.bool col (Box.bool v) = put_bool col v
put_box Rep.dec col (Box.dec v) = put_decimal col v
put_box Rep.none col b = err ErrCode.internal
put_box _ col b = ok none

unfoldable pub encode_column : ℕ → ColumnSpec → Value → List ℕ → Result (Option (List ℕ))
encode_column i col v out =
    if value_is_null v
    then unless col.not_null (set out (2 + i / 8) (set_bit (get_or out (2 + i / 8) 0) (i % 8)))
    else and_then (put_box col.type.rep col v.box) (λ bytes. ok (some (out ++ bytes)))

unfoldable pub encode_loop : ℕ → List ColumnSpec → List Value → List ℕ → Result (Option (List ℕ))
encode_loop i (col ∷ cols) (v ∷ values) out =
    and_then (encode_column i col v out) (encode_loop (suc i) cols values)
encode_loop i _ _ out = ok (some out)

-- The length without its own two bytes, as 16 bits.
abbrev pub put_length : List ℕ → List ℕ
put_length out =
    let body_len = (length out - 2) % 2 ^ 16 in
    set (set out 0 (body_len % 256)) 1 (body_len / 256 % 256)

unfoldable pub encode_row : List ColumnSpec → List Value → Result (Option (List ℕ))
encode_row cols values =
    if not (length cols == length values)
    then ok none
    else and_then (encode_loop 0 cols values (0 ∷ 0 ∷ replicate ((length cols + 7) / 8) 0))
        (λ out. ok (some (put_length out)))

-- ==================== The cases of decode_row ====================
-- Each gives the value and the position after it.

abbrev pub Read : Type 0
Read = Result (Option (Value × ℕ))

unfoldable pub take_int : ColumnSpec → List ℕ → ℕ → ℕ → Read
take_int col bytes len at =
    let p = drop at bytes in
    if col.type.width == 4
    then unless (ltb len (at + 4)) (int_val col.type (of_unsigned 32 (read_u32 p)), at + 4)
    else if col.type.width == 8
    then unless (ltb len (at + 8))
        (int_val col.type (of_unsigned 64 (read_u32 p + read_u32 (drop 4 p) * 2 ^ 32)), at + 8)
    else err ErrCode.internal

unfoldable pub take_double : ColumnSpec → List ℕ → ℕ → ℕ → Read
take_double col bytes len at =
    let p = drop at bytes in
    unless (ltb len (at + 8))
      (double_val col.type (read_u32 p + read_u32 (drop 4 p) * 2 ^ 32), at + 8)

unfoldable pub take_text : ColumnSpec → List ℕ → ℕ → ℕ → Read
take_text col bytes len at =
    let p = drop at bytes in
    if store_eq col.type.store Store.var_len
    then (if ltb len (at + 2)
        then ok none
        else unless (ltb len (at + 2 + read_u16 p))
            (str_val col.type (take (read_u16 p) (drop 2 p)), at + 2 + read_u16 p))
    else if store_eq col.type.store Store.char_pad
    then unless (ltb len (at + col.length)) (str_val col.type (take col.length p), at + col.length)
    else err ErrCode.internal

unfoldable pub take_float : ColumnSpec → List ℕ → ℕ → ℕ → Read
take_float col bytes len at =
    unless (ltb len (at + 4)) (float_val col.type (read_u32 (drop at bytes)), at + 4)

unfoldable pub take_bool : ColumnSpec → List ℕ → ℕ → ℕ → Read
take_bool col bytes len at =
    let b = get_or (drop at bytes) 0 0 in
    if ltb len (at + 1)
    then ok none
    else unless (ltb 1 b) (bool_val col.type (not (b == 0)), at + 1)

-- The number of 16 bytes in two's complement.
abbrev pub signed_128 : ℕ → ℤ
signed_128 mag = if not (mag / 2 ^ 127 == 0) then neg_ℤ (pos (2 ^ 128 - mag)) else pos mag

unfoldable pub take_decimal : ColumnSpec → List ℕ → ℕ → ℕ → Read
take_decimal col bytes len at =
    let p = drop at bytes in
    let u = signed_128 (read_bytes 16 p) in
    if ltb len (at + 17)
    then ok none
    else unless (leb numeric_unscaled_max (abs u))
        (numeric_val col.type u (get_or (drop 16 p) 0 0), at + 17)

unfoldable pub take_box : Rep → ColumnSpec → List ℕ → ℕ → ℕ → Read
take_box Rep.int64 = take_int
take_box Rep.double = take_double
take_box Rep.str = take_text
take_box Rep.float = take_float
take_box Rep.bool = take_bool
take_box Rep.dec = take_decimal
take_box Rep.none = λ col bytes len at. err ErrCode.internal

unfoldable pub decode_column : ℕ → ColumnSpec → List ℕ → ℕ → ℕ → Read
decode_column i col bytes len at =
    if test_bit (get_or bytes (2 + i / 8) 0) (i % 8)
    then ok (some (typed_null col.type, at))
    else take_box col.type.rep col bytes len at

unfoldable pub decode_loop : ℕ → List ColumnSpec → List ℕ → ℕ → ℕ → Result (Option (List Value))
decode_loop i [] bytes len at = ok (some [])
decode_loop i (col ∷ cols) bytes len at =
    and_then (decode_column i col bytes len at)
      λ r. and_then (decode_loop (suc i) cols bytes len r.1) λ values. ok (some (r.0 ∷ values))

unfoldable pub decode_row : List ColumnSpec → List ℕ → ℕ → Result (Option (List Value))
decode_row cols bytes len =
    if ltb len 2 || not (read_u16 bytes + 2 == len)
    then ok none
    else if ltb len (2 + (length cols + 7) / 8)
    then ok none
    else decode_loop 0 cols bytes len (2 + (length cols + 7) / 8)
