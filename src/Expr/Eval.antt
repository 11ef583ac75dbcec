-- ===== src/Expr/Eval.antt =====
-- expr/expr_eval.cpp: the evaluator of bound expressions. `row` is `none` in a constant context.
-- The table of built-in functions (expr_func.cpp) is an argument.
pub mod Nodes
pub mod Finite
pub mod Same
use Prim.Native.Nat.{Ordering}
use my_simple_db.Prelude.{
  ℕ, zero, suc, ◌<◌, ◌≡◌, Bool, true, false, not, ◌&&◌, ◌||◌, Option, none, some, List, [], ◌∷◌,
  ltb, leb, ◌==◌, if◌then◌else◌, length, get_elem?,
}
use my_simple_db.Prelude.Int.{ℤ, pos, negsuc, ◌+ℤ◌, ◌-ℤ◌, ◌*ℤ◌, ◌/ℤ◌, neg_ℤ, ltb_ℤ, eqb_ℤ}
use my_simple_db.Common.{ErrCode, Result, ok, err, ◌>>=◌}
use my_simple_db.Storage.Types.{
  TypeAttr, Family, Rep, Box, Value, DecimalVal, value_is_null, null_val, int_val, float_val,
  double_val, bool_val, numeric_val, k_bool, rep_eq, family_eq,
}
use my_simple_db.Storage.Fpu.{Platform, is_finite64, is_finite32}
use my_simple_db.Storage.Cast.Convert.{
  get_i64, get_f32, get_f64, get_dec, get_str, fits_int32, int32_min, int64_min, int64_max,
}
use my_simple_db.Storage.Cast.Table.{CastMode, cast_value}
use my_simple_db.Storage.Cast.Coerce.{coerce_numeric}
use my_simple_db.Expr.Numeric.{ArithOp, dec_result_scale, dec_arith}
use my_simple_db.Expr.Bound.{
  BoundExpr, Args, CmpOp, LogicOp, const, col_ref, arith, neg, cmp, logic, is_null, func_call, cast,
  nil, cons,
}
use my_simple_db.Expr.Compare.{value_cmp}

abbrev pub Builtins : Type 0
Builtins = ℕ → List Value → TypeAttr → Result Value

-- The error code of an integer result that does not fit.
abbrev fits_int64 : ℤ → Bool
fits_int64 i = not (ltb_ℤ i int64_min || ltb_ℤ int64_max i)

-- The int64 arithmetic with the overflow builtins and the division checks.
unfoldable pub int_arith : ArithOp → ℤ → ℤ → Result ℤ
int_arith ArithOp.add l r = if fits_int64 (l +ℤ r) then ok (l +ℤ r) else err ErrCode.arith_error
int_arith ArithOp.sub l r = if fits_int64 (l -ℤ r) then ok (l -ℤ r) else err ErrCode.arith_error
int_arith ArithOp.mul l r = if fits_int64 (l *ℤ r) then ok (l *ℤ r) else err ErrCode.arith_error
int_arith ArithOp.div l r =
    if eqb_ℤ r (pos 0)
    then err ErrCode.arith_error
    else if eqb_ℤ l int64_min && eqb_ℤ r (negsuc 0)
    then err ErrCode.arith_error
    else ok (l /ℤ r)

-- The int domain: 4 bytes wide results must fit an int32.
unfoldable pub int_result : TypeAttr → ℤ → Result Value
int_result t out =
    if t.width == 4 && not (fits_int32 out) then err ErrCode.arith_error else ok (int_val t out)

unfoldable pub f64_result : TypeAttr → ℕ → Result Value
f64_result t out = if is_finite64 out then ok (double_val t out) else err ErrCode.arith_error

unfoldable pub f32_result : TypeAttr → ℕ → Result Value
f32_result t out = if is_finite32 out then ok (float_val t out) else err ErrCode.arith_error

abbrev op64 : Platform → ArithOp → ℕ → ℕ → ℕ
op64 m ArithOp.add = m.add64
op64 m ArithOp.sub = m.sub64
op64 m ArithOp.mul = m.mul64
op64 m ArithOp.div = m.div64

abbrev op32 : Platform → ArithOp → ℕ → ℕ → ℕ
op32 m ArithOp.add = m.add32
op32 m ArithOp.sub = m.sub32
op32 m ArithOp.mul = m.mul32
op32 m ArithOp.div = m.div32

-- The switch of eval_compare on the operator.
abbrev pub holds : CmpOp → Ordering → Bool
holds CmpOp.eq Ordering.eq = true
holds CmpOp.ne Ordering.lt = true
holds CmpOp.ne Ordering.gt = true
holds CmpOp.lt Ordering.lt = true
holds CmpOp.le Ordering.lt = true
holds CmpOp.le Ordering.eq = true
holds CmpOp.gt Ordering.gt = true
holds CmpOp.ge Ordering.gt = true
holds CmpOp.ge Ordering.eq = true
holds _ _ = false

-- The checks of eval_cast on the result: an int fits 32 bits, a text its declared length.
unfoldable pub cast_int : TypeAttr → Value → Result Value
cast_int t out =
    if rep_eq t.rep Rep.int64 && t.width == 4
    then (do i ← get_i64 out; if fits_int32 i then ok out else err ErrCode.value_mismatch)
    else ok out

unfoldable pub cast_text : TypeAttr → ℕ → Value → Result Value
cast_text t limit out =
    if family_eq t.family Family.text && ltb 0 limit
    then (do s ← get_str out; if leb (length s) limit then ok out else err ErrCode.value_mismatch)
    else ok out

module _ (m : Platform) where
  -- to_double, to_float, get_int and to_numeric of expr_value.cpp. Where the cast gives a box of another
  -- kind, at which std::get throws std::bad_variant_access, these give an internal error.
  unfoldable pub to_double : Value → TypeAttr → Result ℕ
  to_double v to = do x ← cast_value m v to CastMode.implicit; get_f64 x

  unfoldable pub to_float : Value → TypeAttr → Result ℕ
  to_float v to = do x ← cast_value m v to CastMode.implicit; get_f32 x

  unfoldable pub get_int : Value → TypeAttr → Result ℤ
  get_int v to = do x ← cast_value m v to CastMode.implicit; get_i64 x

  unfoldable pub to_numeric : Value → TypeAttr → Result DecimalVal
  to_numeric v to = do x ← cast_value m v to CastMode.implicit; get_dec x

  -- eval_binary on two values that are not NULL, by the representation of the result's domain
  unfoldable pub arith_values : ArithOp → TypeAttr → Rep → Value → Value → Result Value
  arith_values op t Rep.dec lv rv = do
    l ← to_numeric lv t
    r ← to_numeric rv t
    rs ← dec_result_scale op l r
    u ← dec_arith op l r rs
    ok (numeric_val t u rs)
  arith_values op t Rep.float lv rv = do
    l ← to_float lv t
    r ← to_float rv t
    f32_result t (op32 m op l r)
  arith_values op t Rep.double lv rv = do
    l ← to_double lv t
    r ← to_double rv t
    f64_result t (op64 m op l r)
  arith_values op t _ lv rv = do
    l ← get_int lv t
    r ← get_int rv t
    out ← int_arith op l r
    int_result t out

  unfoldable pub eval_binary : ArithOp → TypeAttr → Value → Value → Result Value
  eval_binary op t lv rv =
      if value_is_null lv || value_is_null rv then ok null_val else arith_values op t t.rep lv rv

  unfoldable pub neg_value : TypeAttr → Rep → Value → Result Value
  neg_value t Rep.float v = do x ← to_float v t; ok (float_val t (m.neg32 x))
  neg_value t Rep.double v = do x ← to_double v t; ok (double_val t (m.neg64 x))
  neg_value t Rep.dec v = do d ← get_dec v; ok (numeric_val t (neg_ℤ d.unscaled) d.scale)
  neg_value t _ v = do
    i ← get_int v t
    if eqb_ℤ i int64_min || (t.width == 4 && eqb_ℤ i int32_min)
        then err ErrCode.arith_error
        else ok (int_val t (neg_ℤ i))

  unfoldable pub eval_neg : TypeAttr → Value → Result Value
  eval_neg t v = if value_is_null v then ok v else neg_value t t.rep v

  unfoldable pub eval_compare : CmpOp → Value → Value → Result Value
  eval_compare op lv rv =
      if value_is_null lv || value_is_null rv
      then ok null_val
      else (do c ← value_cmp m lv rv; ok (bool_val k_bool (holds op c)))

  unfoldable pub eval_cast : TypeAttr → ℕ → ℕ → Value → Result Value
  unfolding cast_text cast_int
  eval_cast t length scale v =
      if value_is_null v
      then ok v
      else if rep_eq t.rep Rep.dec && ltb 0 length
      then coerce_numeric m v t length scale CastMode.explicit
      else (do
        out ← cast_value m v t CastMode.explicit
        out' ← cast_int t out
        cast_text t length out')

-- std::get_if<bool>
abbrev pub as_bool : Box → Option Bool
as_bool (Box.bool b) = some b
as_bool _ = none

abbrev pub is_value : Option Bool → Bool → Bool
is_value (some true) b = b
is_value (some false) b = not b
is_value none b = false

abbrev pub both_known : Option Bool → Option Bool → Value → Value
both_known (some a) (some b) v = v
both_known _ _ v = null_val

-- A logic operand is a boolean or NULL.
abbrev pub is_operand : Value → Bool
is_operand v = elim v.box [ Box.null ↦ true | Box.bool b ↦ true | _ ↦ false ]

abbrev pub logic_result : LogicOp → Option Bool → Option Bool → Value
logic_result LogicOp.op_and lb rb =
    if is_value lb false || is_value rb false
    then bool_val k_bool false
    else both_known lb rb (bool_val k_bool true)
logic_result LogicOp.op_or lb rb =
    if is_value lb true || is_value rb true
    then bool_val k_bool true
    else both_known lb rb (bool_val k_bool false)

unfoldable pub eval_logic : LogicOp → Value → Value → Result Value
eval_logic op lv rv =
    if not (is_operand lv) || not (is_operand rv)
    then err ErrCode.internal
    else ok (logic_result op (as_bool lv.box) (as_bool rv.box))

unfoldable pub eval_not : Value → Result Value
eval_not v = elim v.box [
  | Box.null ↦ ok v
  | Box.bool b ↦ ok (bool_val k_bool (not b))
  | _ ↦ err ErrCode.internal
]

unfoldable pub eval_is_null : Bool → Value → Value
eval_is_null negate v = bool_val k_bool (if negate then not (value_is_null v) else value_is_null v)

-- The first NULL among the arguments.
unfoldable pub first_null : List Value → Option Value
first_null [] = none
first_null (v ∷ vs) = if value_is_null v then some v else first_null vs

abbrev pub call_or_null : Builtins → ℕ → TypeAttr → List Value → Option Value → Result Value
call_or_null fns func t argv none = fns func argv t
call_or_null fns func t argv (some v) = ok v

unfoldable pub eval_func_call : Builtins → ℕ → Bool → TypeAttr → List Value → Result Value
unfolding first_null
eval_func_call fns func strict t argv =
    if strict then call_or_null fns func t argv (first_null argv) else fns func argv t

-- A literal that is not a finite double is an error.
unfoldable pub eval_literal : Value → Result Value
eval_literal v = elim v.box [
  | Box.double d ↦ if is_finite64 d then ok v else err ErrCode.arith_error
  | _ ↦ ok v
]

-- The column of a row; a constant context has none. An index past the row, which the binder never
-- makes, is undefined in the source; here it is an error.
abbrev pub column : ℕ → Option (List Value) → Result Value
column i none = err ErrCode.internal
column i (some row) = elim (get_elem? row i) [ some v ↦ ok v | none ↦ err ErrCode.internal ]

module _ (m : Platform) (fns : Builtins) (row : Option (List Value)) where
  unfoldable mutual
    pub eval_bound : BoundExpr → Result Value
    eval_bound (const v) = eval_literal v
    eval_bound (col_ref i t) = column i row
    eval_bound (arith op t l r) = do lv ← eval_bound l; rv ← eval_bound r; eval_binary m op t lv rv
    eval_bound (neg t e) = do v ← eval_bound e; eval_neg m t v
    eval_bound (cmp op l r) = do lv ← eval_bound l; rv ← eval_bound r; eval_compare m op lv rv
    eval_bound (logic op l r) = do lv ← eval_bound l; rv ← eval_bound r; eval_logic op lv rv
    eval_bound (BoundExpr.not e) = do v ← eval_bound e; eval_not v
    eval_bound (is_null e negate) = do v ← eval_bound e; ok (eval_is_null negate v)
    eval_bound (func_call func strict t args) = do
      argv ← eval_args args
      eval_func_call fns func strict t argv
    eval_bound (cast t length scale e) = do v ← eval_bound e; eval_cast m t length scale v

    pub eval_args : Args → Result (List Value)
    eval_args nil = ok []
    eval_args (cons e es) = do v ← eval_bound e; vs ← eval_args es; ok (v ∷ vs)

unfoldable pub eval_const : Platform → Builtins → BoundExpr → Result Value
eval_const m fns e = eval_bound m fns none e

-- NULL is no match; anything but a boolean is an internal error.
unfoldable pub matches : Value → Result Bool
matches v = elim v.box [ Box.null ↦ ok false | Box.bool b ↦ ok b | _ ↦ err ErrCode.internal ]

unfoldable pub where_match : Platform → Builtins → BoundExpr → List Value → Result Bool
where_match m fns e row = do v ← eval_bound m fns (some row) e; matches v
