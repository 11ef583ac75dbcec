-- ===== src/Tests/Codec.antt =====
-- Rows and records.
use my_simple_db.Prelude.{
  ℕ, ◌≡◌, refl, arith, Bool, true, some, List, [], ◌∷◌, ◌++◌, map, replicate,
}
use my_simple_db.Prelude.Int.{pos, negsuc}
use my_simple_db.Common.{ok}
use my_simple_db.Storage.Types.{
  Value, int_val, str_val, numeric_val, k_bigint, k_var_char, null_val,
}
use my_simple_db.Storage.Codec.{
  encode_row, encode_loop, encode_column, put_box, put_int, put_text, put_decimal, decode_row,
}
use my_simple_db.Storage.Codec.Bytes.{to_unsigned, set_bit, low_bytes}
use my_simple_db.Storage.Codec.Rows.{decode_row-encode_row, stored_row}
use my_simple_db.Storage.Codec.Bounds.{decode_row_bounded}
use my_simple_db.Storage.Codec.Typed.{Returns, OfColumns, decode_row-Returns}
use my_simple_db.Storage.Codec.Accepts.{
  Kind, Column, column_spec, holds_row, holds_box, Answers, encode_row-Answers,
}

abbrev column : Kind → ℕ → Column
column k n = record { kind = k; length = n; not_null = Bool.false; scale = 0 }

abbrev columns : List Column
columns =
    column Kind.int 0 ∷ column Kind.char 4 ∷ column Kind.var_char 10 ∷ column Kind.numeric 0 ∷ []

-- -2, 'ab', NULL and 1.25
abbrev row : List Value
row =
    int_val k_bigint (negsuc 1)
    ∷ str_val k_var_char (97 ∷ 98 ∷ [])
    ∷ null_val
    ∷ numeric_val k_bigint (pos 125) 2
    ∷ []

abbrev row_bytes : List ℕ
row_bytes =
    26 ∷ 0 ∷ 4 ∷ 254 ∷ 255 ∷ 255 ∷ 255 ∷ 97 ∷ 98 ∷ 32 ∷ 32 ∷ 125 ∷ (replicate 15 0 ++ (2 ∷ []))

encode_run : encode_row (map column_spec columns) row ≡ ok (some row_bytes)
unfolding encode_row encode_loop encode_column put_box put_int put_text put_decimal to_unsigned
    set_bit low_bytes
encode_run = refl

decode_row-encode_row_example :
    decode_row (map column_spec columns) (row_bytes ++ (7 ∷ [])) 28
    ≡ ok (some (stored_row (map column_spec columns) row))
decode_row-encode_row_example =
    decode_row-encode_row (map column_spec columns) row row_bytes (7 ∷ [])
      (omega arith, (tt, (tt, (omega arith, tt)))) encode_run (omega arith)

decode_row_bounded_example :
    decode_row (map column_spec columns) (row_bytes ++ (7 ∷ [])) 28
    ≡ decode_row (map column_spec columns) row_bytes 28
decode_row_bounded_example = decode_row_bounded (map column_spec columns) row_bytes (7 ∷ [])

encode_row-Answers_example :
    Answers (holds_row columns row) (encode_row (map column_spec columns) row)
encode_row-Answers_example = encode_row-Answers columns row

holds_run : holds_row columns row ≡ true
unfolding holds_row holds_box
holds_run = refl

decode_row-Returns_example :
    Returns (OfColumns columns) (decode_row (map column_spec columns) row_bytes 28)
decode_row-Returns_example = decode_row-Returns columns row_bytes 28
