-- ===== src/Tests/Fold.antt =====
-- Constant folding and simplification.
use my_simple_db.Prelude.{ℕ, ◌≡◌, refl, true, false, some, [], ◌∷◌, Bool}
use my_simple_db.Prelude.Int.{pos}
use my_simple_db.Common.{ok}
use my_simple_db.Storage.Types.{Value, k_int, k_bool, int_val, bool_val, k_numeric, attr_eq}
use my_simple_db.Expr.Bound.{BoundExpr, CmpOp, LogicOp, const, col_ref, cmp, logic, is_null, cast}
use my_simple_db.Expr.Eval.{
  eval_bound, eval_literal, eval_not, where_match, matches, eval_logic, eval_compare,
}
use my_simple_db.Expr.Eval.Same.{Same}
use my_simple_db.Expr.Compare.{value_cmp}
use my_simple_db.Planner.Simplify.{
  expr_equal, value_equal, box_equal, simplify_cmp, const_of, simplify_logic,
}
use my_simple_db.Planner.Simplify.Equal.{expr_equal_sound}
use my_simple_db.Planner.Fold.{fold_expr, fold_logic, fold_cmp, fold_not}
use my_simple_db.Planner.Fold.Sound.{fold_expr-eval_bound, fold_expr-where_match}
use my_simple_db.Tests.Machine.{
  machine, machine-IsIeee, null_builtins, null_builtins-Finite, null_builtins-Same,
}

abbrev strict : ℕ → Bool
strict i = true

-- x, an int column
abbrev x : BoundExpr
x = col_ref 0 k_int

abbrev seven : Value
seven = int_val k_int (pos 7)

equal_run : expr_equal machine (cmp CmpOp.lt x (const seven)) (cmp CmpOp.lt x (const seven)) ≡ true
unfolding expr_equal value_equal attr_eq box_equal
equal_run = refl

expr_equal_sound_example : cmp CmpOp.lt x (const seven) ≡ cmp CmpOp.lt x (const seven)
expr_equal_sound_example =
    expr_equal_sound machine strict (cmp CmpOp.lt x (const seven)) (cmp CmpOp.lt x (const seven))
      machine-IsIeee (tt, tt) (tt, tt) equal_run

-- Casts to two scales are taken for equal, and `<>` between them for false.
cast_scales :
    simplify_cmp machine CmpOp.ne (cast k_numeric 10 1 x) (cast k_numeric 10 2 x) ≡ const_of false
unfolding simplify_cmp expr_equal attr_eq
cast_scales = refl

-- TRUE AND x = x
abbrev predicate : BoundExpr
predicate = logic LogicOp.op_and (const (bool_val k_bool true)) (cmp CmpOp.eq x x)

predicate_run : where_match machine null_builtins predicate (seven ∷ []) ≡ ok true
unfolding where_match eval_bound eval_literal eval_compare eval_logic value_cmp matches
predicate_run = refl

folded_run : fold_expr machine null_builtins predicate true ≡ ok (is_null x true)
unfolding fold_expr fold_logic simplify_logic fold_cmp simplify_cmp expr_equal attr_eq
folded_run = refl

fold_expr-where_match_example :
    (e' : BoundExpr) × (fold_expr machine null_builtins predicate true ≡ ok e')
    × (where_match machine null_builtins e' (seven ∷ []) ≡ ok true)
unfolding fold_expr eval_bound eval_literal eval_compare value_cmp
fold_expr-where_match_example =
    fold_expr-where_match machine null_builtins (seven ∷ []) strict predicate true machine-IsIeee
      null_builtins-Finite null_builtins-Same (tt, tt) (tt, (tt, tt))
      (tt, (tt, tt, tt, tt), (λ h. refl), (λ h. refl)) predicate_run

-- NOT NOT (x < 7)
abbrev doubled : BoundExpr
doubled = BoundExpr.not (BoundExpr.not (cmp CmpOp.lt x (const seven)))

doubled_run :
    eval_bound machine null_builtins (some (seven ∷ [])) doubled ≡ ok (bool_val k_bool false)
unfolding eval_bound eval_literal eval_compare eval_not value_cmp
doubled_run = refl

fold_expr-eval_bound_example :
    (e' : BoundExpr) × (w : Value) × (fold_expr machine null_builtins doubled false ≡ ok e')
    × (eval_bound machine null_builtins (some (seven ∷ [])) e' ≡ ok w)
    × Same (bool_val k_bool false) w
unfolding fold_expr fold_not fold_cmp eval_bound eval_literal eval_compare eval_not value_cmp
fold_expr-eval_bound_example =
    fold_expr-eval_bound machine null_builtins (some (seven ∷ [])) strict doubled
      (bool_val k_bool false) machine-IsIeee null_builtins-Finite null_builtins-Same (tt, tt)
      (tt, tt) (((tt, tt, tt, tt), (λ h. refl), tt), (λ h. refl), tt) doubled_run
