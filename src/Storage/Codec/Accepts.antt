-- ===== src/Storage/Codec/Accepts.antt =====
-- storage/codec.cpp: for columns of the built-in types, which rows encode_row accepts.
use my_simple_db.Prelude.{
  ℕ, suc, ◌+◌, ◌≡◌, refl, ap, ◌∙◌, Option, none, some, List, [], ◌∷◌, ◌++◌, map, Bool, true, false,
  not, ◌&&◌, ◌||◌, ltb, leb, ◌==◌, if◌then◌else◌, length, arith, inl, inr, Bool-cases, replicate,
  ◌/◌, sym, &&_right, length-map,
}
use my_simple_db.Prelude.Int.{abs}
use my_simple_db.Common.{Result, ok}
use my_simple_db.Storage.Types.{
  TypeAttr, ColumnSpec, Box, Value, value_is_null, numeric_unscaled_max, k_int, k_bigint, k_double,
  k_var_char, k_float, k_char, k_bool, k_numeric,
}
use my_simple_db.Storage.Fpu.{is_finite32, is_finite64}
use my_simple_db.Storage.Cast.Convert.{fits_int32}
use my_simple_db.Storage.Codec.{
  put_box, put_int, put_double, put_text, put_float, put_bool, put_decimal, encode_column,
  encode_loop, encode_row, and_then, put_length, unless,
}

-- The types that a column of a table has.
pub data Kind : Type 0 where
  int bigint double var_char float char bool numeric : Kind

abbrev pub attr_of : Kind → TypeAttr
attr_of Kind.int = k_int
attr_of Kind.bigint = k_bigint
attr_of Kind.double = k_double
attr_of Kind.var_char = k_var_char
attr_of Kind.float = k_float
attr_of Kind.char = k_char
attr_of Kind.bool = k_bool
attr_of Kind.numeric = k_numeric

pub record Column : Type 0 where
  pub kind : Kind
  pub length : ℕ
  pub not_null : Bool
  pub scale : ℕ

abbrev pub spec_of : Kind → ℕ → Bool → ℕ → ColumnSpec
spec_of k n not_null s = record { type = attr_of k; length = n; not_null = not_null; scale = s }

abbrev pub column_spec : Column → ColumnSpec
column_spec c = spec_of c.kind c.length c.not_null c.scale

-- The boxes that a column of a type holds.
unfoldable pub holds_box : Kind → ℕ → Box → Bool
holds_box Kind.int n (Box.i64 i) = fits_int32 i
holds_box Kind.bigint n (Box.i64 i) = true
holds_box Kind.double n (Box.double b) = is_finite64 b
holds_box Kind.float n (Box.float b) = is_finite32 b
holds_box Kind.var_char n (Box.str s) = leb (length s) 65535 && (n == 0 || leb (length s) n)
holds_box Kind.char n (Box.str s) = leb (length s) n
holds_box Kind.bool n (Box.bool b) = true
holds_box Kind.numeric n (Box.dec d) = ltb (abs d.unscaled) numeric_unscaled_max
holds_box _ n b = false

abbrev pub holds : Column → Value → Bool
holds c v = if value_is_null v then not c.not_null else holds_box c.kind c.length v.box

-- A row has a value for each column, which the column holds.
unfoldable pub holds_row : List Column → List Value → Bool
holds_row [] [] = true
holds_row [] (v ∷ values) = false
holds_row (c ∷ cols) [] = false
holds_row (c ∷ cols) (v ∷ values) = holds c v && holds_row cols values

abbrev pub present {ℓ} : {A : Type ℓ} → Option A → Bool
present none = false
present (some a) = true

-- A call that raises nothing and returns `good`.
abbrev pub Answers {ℓ} : {A : Type ℓ} → Bool → Result (Option A) → Type ℓ
Answers {A} good r = (o : Option A) × (r ≡ ok o) × (present o ≡ good)

unless-Answers {ℓ} :
    {A : Type ℓ} (bad good : Bool) (a : A) → not bad ≡ good → Answers good (unless bad a)
unless-Answers true good a e = (none, refl, e)
unless-Answers false good a e = (some a, refl, e)

and_then-Answers {ℓ κ} :
    {X : Type ℓ} {Y : Type κ} (b c : Bool) (r : Result (Option X)) (k : X → Result (Option Y))
    → Answers b r
    → ((x : X) → Answers c (k x))
    → Answers (b && c) (and_then r k)
and_then-Answers b c r k (none, e, p) f = rw e (none, refl, ap (λ x. x && c) p)
and_then-Answers b c r k (some x, e, p) f = let g = f x in rw (e, sym p) g

put_box-Answers :
    (k : Kind) (n : ℕ) (nn : Bool) (s : ℕ) (b : Box)
    → Answers (holds_box k n b) (put_box (attr_of k).rep (spec_of k n nn s) b)
unfolding put_box put_int put_double put_text put_float put_bool put_decimal holds_box
put_box-Answers Kind.int n nn s (Box.i64 i) =
    unless-Answers (not (fits_int32 i)) (fits_int32 i) _ (ground arith)
put_box-Answers Kind.bigint n nn s (Box.i64 i) = (_, refl, refl)
put_box-Answers Kind.double n nn s (Box.double b) =
    unless-Answers (not (is_finite64 b)) (is_finite64 b) _ (ground arith)
put_box-Answers Kind.float n nn s (Box.float b) =
    unless-Answers (not (is_finite32 b)) (is_finite32 b) _ (ground arith)
put_box-Answers Kind.var_char n nn s (Box.str t) = unless-Answers _ _ _ (ground arith)
put_box-Answers Kind.char n nn s (Box.str t) = unless-Answers _ _ _ (ground arith)
put_box-Answers Kind.bool n nn s (Box.bool b) = (_, refl, refl)
put_box-Answers Kind.numeric n nn s (Box.dec d) = unless-Answers _ _ _ (ground arith)
put_box-Answers _ n nn s b = (none, refl, refl)

encode_column-Answers :
    (i : ℕ) (c : Column) (v : Value) (out : List ℕ)
    → Answers (holds c v) (encode_column i (column_spec c) v out)
unfolding encode_column
encode_column-Answers i c v out = elim (Bool-cases (value_is_null v)) [
  | inl null ↦ rw null (unless-Answers c.not_null (not c.not_null) _ refl)
  | inr full ↦
      let b = holds_box c.kind c.length v.box in
      let r =
        and_then-Answers b true _ (λ bytes. ok (some (out ++ bytes)))
          (put_box-Answers c.kind c.length c.not_null c.scale v.box) (λ bytes. (_, refl, refl)) in
      rw full (r.0, r.1, r.2 ∙ ground arith)
]

encode_loop-Answers :
    (cols : List Column) (values : List Value) (i : ℕ) (out : List ℕ)
    → length cols ≡ length values
    → Answers (holds_row cols values) (encode_loop i (map column_spec cols) values out)
unfolding encode_loop holds_row
encode_loop-Answers [] [] i out e = (_, refl, refl)
encode_loop-Answers [] (v ∷ values) i out e = absurd (omega (arith, e))
encode_loop-Answers (c ∷ cols) [] i out e = absurd (omega (arith, e))
encode_loop-Answers (c ∷ cols) (v ∷ values) i out e =
    and_then-Answers (holds c v) (holds_row cols values) (encode_column i (column_spec c) v out) _
      (encode_column-Answers i c v out)
      (λ next. encode_loop-Answers cols values (suc i) next (omega (arith, e)))

holds_row-length :
    (cols : List Column) (values : List Value)
    → holds_row cols values ≡ true
    → length cols ≡ length values
unfolding holds_row
holds_row-length [] [] h = refl
holds_row-length [] (v ∷ values) h = cc
holds_row-length (c ∷ cols) [] h = cc
holds_row-length (c ∷ cols) (v ∷ values) h =
    ap suc (holds_row-length cols values (&&_right (holds c v) (holds_row cols values) h))

-- For columns of the built-in types, encode_row raises no error, and returns a record exactly when
-- the row has a value for each column that the column holds.
pub encode_row-Answers :
    (cols : List Column) (values : List Value)
    → Answers (holds_row cols values) (encode_row (map column_spec cols) values)
unfolding encode_row
encode_row-Answers cols values =
    let size = length-map cols column_spec in
    elim (Bool-cases (length cols == length values)) [
      | inl same ↦
          let r =
            and_then-Answers (holds_row cols values) true _ (λ out. ok (some (put_length out)))
              (encode_loop-Answers cols values 0 (0 ∷ 0 ∷ replicate ((length cols + 7) / 8) 0)
                (ground (arith, same)))
              (λ out. (_, refl, refl)) in
          rw (size, same) (r.0, r.1, r.2 ∙ ground arith)
      | inr differ ↦
          rw (size, differ)
            (
              none,
              refl,
              elim (Bool-cases (holds_row cols values)) [
                | inl p ↦ absurd (ground (arith, differ, holds_row-length cols values p))
                | inr q ↦ sym q
              ],
            )
    ]
