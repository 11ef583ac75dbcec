-- ===== src/Expr/Compare.antt =====
-- expr/expr_eval.cpp: value_cmp, the three-way comparison of values.
pub mod Laws
use Prim.Native.Nat.{compare, Ordering}
use my_simple_db.Prelude.{ℕ, Bool, true, false, List, [], ◌∷◌, if◌then◌else◌}
use my_simple_db.Prelude.Int.{ℤ, pos}
use my_simple_db.Common.{ErrCode, Result, ok, err, ◌>>=◌}
use my_simple_db.Storage.Types.{TypeAttr, Family, Box, Value, DecimalVal, k_double, value_is_null}
use my_simple_db.Storage.Fpu.{Platform}
use my_simple_db.Storage.Cast.Convert.{get_f64, is_char, rtrim_space}
use my_simple_db.Storage.Cast.Table.{CastMode, cast_value}
use my_simple_db.Expr.Numeric.{dec_cmp}
use my_simple_db.Expr.Numeric.Order.{compare_ℤ}

-- std::string_view::compare: by bytes, and a prefix is smaller
unfoldable pub compare_bytes : List ℕ → List ℕ → Ordering
compare_bytes [] [] = Ordering.eq
compare_bytes [] (d ∷ t) = Ordering.lt
compare_bytes (c ∷ s) [] = Ordering.gt
compare_bytes (c ∷ s) (d ∷ t) =
    let rest = compare_bytes s t in
    elim (compare c d) [
      | Ordering.lt ↦ Ordering.lt
      | Ordering.eq ↦ rest
      | Ordering.gt ↦ Ordering.gt
    ]

-- box_f64
unfoldable pub box_f64 : Platform → Value → Result ℕ
box_f64 m v = do d ← cast_value m v k_double CastMode.implicit; get_f64 d

abbrev pub as_dec : ℤ → DecimalVal
as_dec i = record { unscaled = i; scale = 0 }

abbrev pub compare_doubles : Platform → ℕ → ℕ → Ordering
compare_doubles m l r =
    if m.lt64 l r then Ordering.lt else if m.lt64 r l then Ordering.gt else Ordering.eq

-- Comparisons with a float promote both sides to double.
unfoldable pub cmp_promoted : Platform → Value → Value → Result Ordering
cmp_promoted m a b = do l ← box_f64 m a; r ← box_f64 m b; ok (compare_doubles m l r)

abbrev pub cmp_num : Platform → Value → Value → Box → Box → Result Ordering
cmp_num m a b (Box.i64 l) (Box.i64 r) = ok (compare_ℤ l r)
cmp_num m a b (Box.dec l) (Box.dec r) = ok (dec_cmp l r)
cmp_num m a b (Box.dec l) (Box.i64 r) = ok (dec_cmp l (as_dec r))
cmp_num m a b (Box.i64 l) (Box.dec r) = ok (dec_cmp (as_dec l) r)
cmp_num m a b _ _ = cmp_promoted m a b

-- Only a fixed-length side loses its trailing spaces.
abbrev pub padded : TypeAttr → List ℕ → List ℕ
padded t s = if is_char t then rtrim_space s else s

abbrev pub cmp_text : TypeAttr → TypeAttr → Box → Box → Result Ordering
cmp_text ta tb (Box.str l) (Box.str r) = ok (compare_bytes (padded ta l) (padded tb r))
cmp_text ta tb _ _ = err ErrCode.internal

abbrev pub cmp_bools : Bool → Bool → Ordering
cmp_bools false true = Ordering.lt
cmp_bools true false = Ordering.gt
cmp_bools _ _ = Ordering.eq

abbrev pub cmp_bool : Box → Box → Result Ordering
cmp_bool (Box.bool l) (Box.bool r) = ok (cmp_bools l r)
cmp_bool _ _ = err ErrCode.internal

abbrev pub cmp_families : Platform → Value → Value → Family → Family → Result Ordering
cmp_families m a b Family.num Family.num = cmp_num m a b a.box b.box
cmp_families m a b Family.text Family.text = cmp_text a.type b.type a.box b.box
cmp_families m a b Family.bool Family.bool = cmp_bool a.box b.box
cmp_families m a b _ _ = err ErrCode.internal

unfoldable pub value_cmp : Platform → Value → Value → Result Ordering
value_cmp m a b =
    if value_is_null a
    then ok (if value_is_null b then Ordering.eq else Ordering.gt)
    else if value_is_null b
    then ok Ordering.lt
    else cmp_families m a b a.type.family b.type.family
