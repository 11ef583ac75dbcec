-- ===== src/Expr/Eval/Nodes.antt =====
-- expr/expr_eval.cpp: the floats in arithmetic, negation and casts.
use my_simple_db.Prelude.{
  ℕ, ◌-◌, ◌≡◌, true, arith, ◌||◌, ◌&&◌, ltb, leb, length, ◌==◌, if◌then◌else◌,
}
use my_simple_db.Prelude.Int.{ℤ}
use my_simple_db.Common.{ok, Ensures, Ensures-bind, Ensures-then, Ensures-if}
use my_simple_db.Storage.Types.{TypeAttr, Family, Rep, Box, Value, value_is_null, rep_eq, family_eq}
use my_simple_db.Storage.Fpu.{Platform, IsIeee, is_finite32}
use my_simple_db.Storage.Cast.Convert.{get_i64, get_str, get_dec, fits_int32}
use my_simple_db.Storage.Cast.Table.{CastMode, cast_value}
use my_simple_db.Storage.Cast.Coerce.{coerce_numeric, lower_scale, raise_scale, check_precision}
use my_simple_db.Storage.Cast.Finite.{
  IsFinite, Finite32, Finite64, get_f32-IsFinite, get_f64-IsFinite, cast_value-IsFinite,
}
use my_simple_db.Expr.Numeric.{ArithOp, dec_result_scale, dec_arith}
use my_simple_db.Expr.Bound.{CmpOp}
use my_simple_db.Expr.Compare.{value_cmp}
use my_simple_db.Expr.Eval.{
  int_arith, int_result, f64_result, f32_result, to_double, to_float, get_int, to_numeric,
  arith_values, eval_binary, neg_value, eval_neg, eval_compare, cast_int, cast_text, eval_cast,
}

abbrev pub FloatIsFinite : Box → Type 0
FloatIsFinite (Box.float f) = is_finite32 f ≡ true
FloatIsFinite _ = Unit

module _ (m : Platform) (ieee : IsIeee m) where
  pub to_float-IsFinite :
      (v : Value) (t : TypeAttr) → IsFinite v → Ensures Finite32 (to_float m v t)
  unfolding to_float
  to_float-IsFinite v t h =
      Ensures-bind IsFinite Finite32 (cast_value m v t CastMode.implicit) _
        (cast_value-IsFinite m ieee v t CastMode.implicit h) λ x k. get_f32-IsFinite x.type x.box k

  pub to_double-IsFinite :
      (v : Value) (t : TypeAttr) → IsFinite v → Ensures Finite64 (to_double m v t)
  unfolding to_double
  to_double-IsFinite v t h =
      Ensures-bind IsFinite Finite64 (cast_value m v t CastMode.implicit) _
        (cast_value-IsFinite m ieee v t CastMode.implicit h) λ x k. get_f64-IsFinite x.type x.box k

  pub f32_result-IsFinite : (t : TypeAttr) (x : ℕ) → Ensures IsFinite (f32_result t x)
  unfolding f32_result
  f32_result-IsFinite t x = ground arith

  pub f64_result-IsFinite : (t : TypeAttr) (x : ℕ) → Ensures IsFinite (f64_result t x)
  unfolding f64_result
  f64_result-IsFinite t x = ground arith

  pub int_result-IsFinite : (t : TypeAttr) (i : ℤ) → Ensures IsFinite (int_result t i)
  unfolding int_result
  int_result-IsFinite t i = ground arith

  pub arith_values-IsFinite :
      (op : ArithOp) (t : TypeAttr) (r : Rep) (lv rv : Value)
      → Ensures IsFinite (arith_values m op t r lv rv)
  unfolding arith_values
  arith_values-IsFinite op t Rep.dec lv rv = Ensures-then IsFinite (to_numeric m lv t) _ λ l.
      Ensures-then IsFinite (to_numeric m rv t) _ λ r.
        Ensures-then IsFinite (dec_result_scale op l r) _
          λ s. Ensures-then IsFinite (dec_arith op l r s) _ λ u. tt
  arith_values-IsFinite op t Rep.float lv rv =
      Ensures-then IsFinite (to_float m lv t) _
        λ l. Ensures-then IsFinite (to_float m rv t) _ λ r. f32_result-IsFinite t _
  arith_values-IsFinite op t Rep.double lv rv =
      Ensures-then IsFinite (to_double m lv t) _
        λ l. Ensures-then IsFinite (to_double m rv t) _ λ r. f64_result-IsFinite t _
  arith_values-IsFinite op t _ lv rv = Ensures-then IsFinite (get_int m lv t) _ λ l.
      Ensures-then IsFinite (get_int m rv t) _
        λ r. Ensures-then IsFinite (int_arith op l r) _ λ i. int_result-IsFinite t i

  pub eval_binary-IsFinite :
      (op : ArithOp) (t : TypeAttr) (lv rv : Value) → Ensures IsFinite (eval_binary m op t lv rv)
  unfolding eval_binary
  eval_binary-IsFinite op t lv rv =
      Ensures-if IsFinite (value_is_null lv || value_is_null rv) _ _ (λ e. tt)
        λ e. arith_values-IsFinite op t t.rep lv rv

  pub neg_value-IsFinite :
      (t : TypeAttr) (r : Rep) (v : Value) → IsFinite v → Ensures IsFinite (neg_value m t r v)
  unfolding neg_value
  neg_value-IsFinite t Rep.float v h =
      Ensures-bind Finite32 IsFinite (to_float m v t) _ (to_float-IsFinite v t h)
        λ x k. ieee.neg32_finite x k
  neg_value-IsFinite t Rep.double v h =
      Ensures-bind Finite64 IsFinite (to_double m v t) _ (to_double-IsFinite v t h)
        λ x k. ieee.neg64_finite x k
  neg_value-IsFinite t Rep.dec v h = Ensures-then IsFinite (get_dec v) _ λ d. tt
  neg_value-IsFinite t _ v h = Ensures-then IsFinite (get_int m v t) _ λ i. ground arith

  pub eval_neg-IsFinite :
      (t : TypeAttr) (v : Value) → IsFinite v → Ensures IsFinite (eval_neg m t v)
  unfolding eval_neg
  eval_neg-IsFinite t v h =
      Ensures-if IsFinite (value_is_null v) _ _ (λ e. h) λ e. neg_value-IsFinite t t.rep v h

  pub eval_compare-IsFinite :
      (op : CmpOp) (lv rv : Value) → Ensures IsFinite (eval_compare m op lv rv)
  unfolding eval_compare
  eval_compare-IsFinite op lv rv =
      Ensures-if IsFinite (value_is_null lv || value_is_null rv) _ _ (λ e. tt)
        λ e. Ensures-then IsFinite (value_cmp m lv rv) _ λ c. tt

  pub coerce_numeric-IsFinite :
      (v : Value) (to : TypeAttr) (precision scale : ℕ) (mode : CastMode)
      → Ensures IsFinite (coerce_numeric m v to precision scale mode)
  unfolding coerce_numeric
  coerce_numeric-IsFinite v to precision scale mode =
      Ensures-then IsFinite (cast_value m v to mode) _ λ n. Ensures-then IsFinite (get_dec n) _ λ d.
        Ensures-then IsFinite
          (if ltb scale d.scale
            then ok (lower_scale d.unscaled (d.scale - scale))
            else raise_scale (scale - d.scale) d.unscaled)
          _ λ u. Ensures-then IsFinite (check_precision precision u) _ λ w. tt

  pub cast_int-IsFinite : (t : TypeAttr) (v : Value) → IsFinite v → Ensures IsFinite (cast_int t v)
  unfolding cast_int
  cast_int-IsFinite t v h =
      Ensures-if IsFinite (rep_eq t.rep Rep.int64 && t.width == 4) _ _
        (λ e.
          Ensures-then IsFinite (get_i64 v) _
            λ i. Ensures-if IsFinite (fits_int32 i) _ _ (λ p. h) (λ p. tt))
        (λ e. h)

  pub cast_text-IsFinite :
      (t : TypeAttr) (limit : ℕ) (v : Value) → IsFinite v → Ensures IsFinite (cast_text t limit v)
  unfolding cast_text
  cast_text-IsFinite t limit v h =
      Ensures-if IsFinite (family_eq t.family Family.text && ltb 0 limit) _ _
        (λ e.
          Ensures-then IsFinite (get_str v) _
            λ s. Ensures-if IsFinite (leb (length s) limit) _ _ (λ p. h) (λ p. tt))
        (λ e. h)

  pub eval_cast-IsFinite :
      (t : TypeAttr) (limit scale : ℕ) (v : Value)
      → IsFinite v
      → Ensures IsFinite (eval_cast m t limit scale v)
  unfolding eval_cast
  eval_cast-IsFinite t limit scale v h =
      Ensures-if IsFinite (value_is_null v) _ _ (λ e. h)
        λ e.
          Ensures-if IsFinite (rep_eq t.rep Rep.dec && ltb 0 limit) _ _
            (λ p. coerce_numeric-IsFinite v t limit scale CastMode.explicit)
            λ p.
              Ensures-bind IsFinite IsFinite (cast_value m v t CastMode.explicit) _
                (cast_value-IsFinite m ieee v t CastMode.explicit h)
                λ x k.
                  Ensures-bind IsFinite IsFinite (cast_int t x) _ (cast_int-IsFinite t x k)
                    λ y l. cast_text-IsFinite t limit y l
