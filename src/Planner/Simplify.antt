-- ===== src/Planner/Simplify.antt =====
-- planner/bool_simplify.cpp: simplification of AND, OR and NOT, and of a comparison of an
-- expression with itself.
pub mod Equal
use my_simple_db.Prelude.{
  ℕ, Bool, true, false, not, ◌&&◌, ◌||◌, Option, none, some, ◌==◌, if◌then◌else◌,
}
use my_simple_db.Prelude.Int.{eqb_ℤ}
use my_simple_db.Storage.Types.{Box, Value, bool_val, k_bool, attr_eq}
use my_simple_db.Storage.Fpu.{Platform}
use my_simple_db.Storage.Cast.Convert.{same_text}
use my_simple_db.Expr.Numeric.{ArithOp}
use my_simple_db.Expr.Bound.{
  BoundExpr, Args, CmpOp, LogicOp, const, col_ref, arith, neg, cmp, logic, is_null, func_call, cast,
  nil, cons,
}
use my_simple_db.Expr.Eval.{as_bool, is_value}

unfoldable pub const_bool : BoundExpr → Option Bool
const_bool (const v) = as_bool v.box
const_bool _ = none

abbrev pub negate_cmp : CmpOp → CmpOp
negate_cmp CmpOp.eq = CmpOp.ne
negate_cmp CmpOp.ne = CmpOp.eq
negate_cmp CmpOp.lt = CmpOp.ge
negate_cmp CmpOp.le = CmpOp.gt
negate_cmp CmpOp.gt = CmpOp.le
negate_cmp CmpOp.ge = CmpOp.lt

abbrev pub cmp_code : CmpOp → ℕ
cmp_code CmpOp.eq = 0
cmp_code CmpOp.ne = 1
cmp_code CmpOp.lt = 2
cmp_code CmpOp.le = 3
cmp_code CmpOp.gt = 4
cmp_code CmpOp.ge = 5

abbrev pub logic_code : LogicOp → ℕ
logic_code LogicOp.op_and = 0
logic_code LogicOp.op_or = 1

abbrev pub arith_code : ArithOp → ℕ
arith_code ArithOp.add = b'+'
arith_code ArithOp.sub = b'-'
arith_code ArithOp.mul = b'*'
arith_code ArithOp.div = b'/'

abbrev pub bool_eq : Bool → Bool → Bool
bool_eq true b = b
bool_eq false b = not b

-- `==` of the variant: the alternatives agree and hold equal values, floats by the machine's `==`.
unfoldable pub box_equal : Platform → Box → Box → Bool
box_equal m Box.null Box.null = true
box_equal m (Box.bool a) (Box.bool b) = bool_eq a b
box_equal m (Box.i64 a) (Box.i64 b) = eqb_ℤ a b
box_equal m (Box.double a) (Box.double b) = m.eq64 a b
box_equal m (Box.float a) (Box.float b) = m.eq32 a b
box_equal m (Box.str a) (Box.str b) = same_text a b
box_equal m (Box.dec a) (Box.dec b) = eqb_ℤ a.unscaled b.unscaled && a.scale == b.scale
box_equal m _ _ = false

unfoldable pub value_equal : Platform → Value → Value → Bool
value_equal m a b = attr_eq a.type b.type && box_equal m a.box b.box

module _ (m : Platform) where
  unfoldable mutual
    pub expr_equal : BoundExpr → BoundExpr → Bool
    expr_equal (const v) (const w) = value_equal m v w
    expr_equal (col_ref i t) (col_ref j u) = i == j && attr_eq t u
    expr_equal (arith o t a b) (arith p u c d) =
        arith_code o == arith_code p && (attr_eq t u && (expr_equal a c && expr_equal b d))
    expr_equal (neg t a) (neg u c) = attr_eq t u && expr_equal a c
    expr_equal (cmp o a b) (cmp p c d) =
        cmp_code o == cmp_code p && (expr_equal a c && expr_equal b d)
    expr_equal (logic o a b) (logic p c d) =
        logic_code o == logic_code p && (expr_equal a c && expr_equal b d)
    expr_equal (BoundExpr.not a) (BoundExpr.not c) = expr_equal a c
    expr_equal (is_null a n) (is_null c k) = bool_eq n k && expr_equal a c
    expr_equal (func_call f s t a) (func_call g r u c) = f == g && (attr_eq t u && args_equal a c)
    expr_equal (cast t l s a) (cast u k r c) = attr_eq t u && (l == k && expr_equal a c)
    expr_equal _ _ = false

    pub args_equal : Args → Args → Bool
    args_equal nil nil = true
    args_equal (cons a es) (cons c cs) = expr_equal a c && args_equal es cs
    args_equal _ _ = false

-- The rules of simplify_logic on the two constants.
abbrev pub const_of : Bool → BoundExpr
const_of b = const (bool_val k_bool b)

abbrev pub is_known : Option Bool → Bool
is_known none = false
is_known (some b) = true

unfoldable pub simplify_logic : LogicOp → BoundExpr → BoundExpr → BoundExpr
unfolding const_bool
simplify_logic LogicOp.op_and l r =
    if is_value (const_bool l) false || is_value (const_bool r) false
    then const_of false
    else if is_known (const_bool l)
    then r
    else if is_known (const_bool r)
    then l
    else logic LogicOp.op_and l r
simplify_logic LogicOp.op_or l r =
    if is_value (const_bool l) true || is_value (const_bool r) true
    then const_of true
    else if is_known (const_bool l)
    then r
    else if is_known (const_bool r)
    then l
    else logic LogicOp.op_or l r

-- The operand of the NOT; the result is the whole expression.
unfoldable pub simplify_not : BoundExpr → BoundExpr
simplify_not (BoundExpr.not e) = e
simplify_not (cmp op l r) = cmp (negate_cmp op) l r
simplify_not (is_null e negate) = is_null e (not negate)
simplify_not e = BoundExpr.not e

abbrev pub keeps_equal : CmpOp → Bool
keeps_equal CmpOp.eq = true
keeps_equal CmpOp.le = true
keeps_equal CmpOp.ge = true
keeps_equal _ = false

unfoldable pub simplify_cmp : Platform → CmpOp → BoundExpr → BoundExpr → BoundExpr
simplify_cmp m op l r =
    if expr_equal m l r
    then (if keeps_equal op then is_null l true else const_of false)
    else cmp op l r
