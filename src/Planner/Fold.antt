-- ===== src/Planner/Fold.antt =====
-- planner/const_fold.cpp: constant folding of an expression. `weak` marks a context that takes NULL
-- for false.
pub mod Relate
pub mod Nodes
pub mod Truth
pub mod Logic
pub mod Not
pub mod Sound
use my_simple_db.Prelude.{Bool, true, false, ◌&&◌, ◌||◌, if◌then◌else◌}
use my_simple_db.Common.{Result, ok, ◌>>=◌}
use my_simple_db.Storage.Types.{TypeAttr, value_is_null, null_val}
use my_simple_db.Storage.Fpu.{Platform}
use my_simple_db.Expr.Numeric.{ArithOp}
use my_simple_db.Expr.Bound.{
  BoundExpr, Args, CmpOp, LogicOp, const, col_ref, arith, neg, cmp, logic, is_null, func_call, cast,
  nil, cons,
}
use my_simple_db.Expr.Eval.{Builtins, eval_const}
use my_simple_db.Planner.Simplify.{simplify_logic, simplify_not, simplify_cmp}
use my_simple_db.Prelude.{ℕ}

abbrev pub is_const : BoundExpr → Bool
is_const (const v) = true
is_const _ = false

abbrev pub is_null_const : BoundExpr → Bool
is_null_const (const v) = value_is_null v
is_null_const _ = false

abbrev pub all_const : Args → Bool
all_const nil = true
all_const (cons a es) = is_const a && all_const es

abbrev pub null_const : BoundExpr
null_const = const null_val

-- The comparison that an absorbed NOT left in a weak context.
abbrev pub again_cmp : Platform → Bool → BoundExpr → BoundExpr
again_cmp m true (cmp op l r) = simplify_cmp m op l r
again_cmp m _ e = e

module _ (m : Platform) (fns : Builtins) where
  -- to_fold_const(eval_const(e))
  unfoldable pub fold_whole : BoundExpr → Result BoundExpr
  fold_whole e = do v ← eval_const m fns e; ok (const v)

  -- What each node does once its children are folded.
  unfoldable pub fold_arith : ArithOp → TypeAttr → BoundExpr → BoundExpr → Result BoundExpr
  unfolding fold_whole
  fold_arith op t l r =
      if is_const l && is_const r
      then fold_whole (arith op t l r)
      else if is_null_const l || is_null_const r
      then ok null_const
      else ok (arith op t l r)

  unfoldable pub fold_cmp : Bool → CmpOp → BoundExpr → BoundExpr → Result BoundExpr
  unfolding fold_whole
  fold_cmp weak op l r =
      if is_const l && is_const r
      then fold_whole (cmp op l r)
      else if is_null_const l || is_null_const r
      then ok null_const
      else if weak
      then ok (simplify_cmp m op l r)
      else ok (cmp op l r)

  unfoldable pub fold_logic : LogicOp → BoundExpr → BoundExpr → Result BoundExpr
  unfolding fold_whole
  fold_logic op l r =
      if is_const l && is_const r then fold_whole (logic op l r) else ok (simplify_logic op l r)

  unfoldable pub fold_not : Bool → BoundExpr → Result BoundExpr
  unfolding fold_whole
  fold_not weak e =
      if is_const e then fold_whole (BoundExpr.not e) else ok (again_cmp m weak (simplify_not e))

  -- A node that is only folded when all its children are constants.
  unfoldable pub fold_if : Bool → BoundExpr → Result BoundExpr
  unfolding fold_whole
  fold_if constant e = if constant then fold_whole e else ok e

  unfoldable mutual
    pub fold_expr : BoundExpr → Bool → Result BoundExpr
    fold_expr (const v) weak = ok (const v)
    fold_expr (col_ref i t) weak = ok (col_ref i t)
    fold_expr (arith op t l r) weak = do
      l' ← fold_expr l false
      r' ← fold_expr r false
      fold_arith op t l' r'
    fold_expr (neg t e) weak = do e' ← fold_expr e false; fold_if (is_const e') (neg t e')
    fold_expr (cmp op l r) weak = do
      l' ← fold_expr l false
      r' ← fold_expr r false
      fold_cmp weak op l' r'
    fold_expr (logic op l r) weak = do
      l' ← fold_expr l weak
      r' ← fold_expr r weak
      fold_logic op l' r'
    fold_expr (BoundExpr.not e) weak = do e' ← fold_expr e false; fold_not weak e'
    fold_expr (is_null e negate) weak = do
      e' ← fold_expr e false
      fold_if (is_const e') (is_null e' negate)
    fold_expr (func_call func strict t args) weak = do
      args' ← fold_args args
      fold_if (all_const args') (func_call func strict t args')
    fold_expr (cast t length scale e) weak = do
      e' ← fold_expr e false
      fold_if (is_const e') (cast t length scale e')

    pub fold_args : Args → Result Args
    fold_args nil = ok nil
    fold_args (cons a es) = do a' ← fold_expr a false; es' ← fold_args es; ok (cons a' es')
