-- ===== src/Expr/Eval/Finite.antt =====
-- expr/expr_eval.cpp: infinities and NaN in the results of the evaluator.
use my_simple_db.Prelude.{
  not, zero, suc, ℕ, ◌≡◌, true, false, List, [], ◌∷◌, Option, none, some, ◌||◌, Bool-cases, inl,
  inr, Bool,
}
use my_simple_db.Common.{ok, Ensures, Ensures-bind, Ensures-then, Ensures-if, Ensures-ok}
use my_simple_db.Storage.Types.{TypeAttr, Box, Value, value_is_null, bool_val, k_bool}
use my_simple_db.Storage.Fpu.{Platform, IsIeee, is_finite64}
use my_simple_db.Storage.Cast.Finite.{IsFinite}
use my_simple_db.Expr.Bound.{
  BoundExpr, Args, LogicOp, const, col_ref, neg, cmp, logic, is_null, func_call, cast, nil, cons,
}
use my_simple_db.Expr.Eval.{
  Builtins, eval_logic, eval_not, eval_is_null, first_null, call_or_null, eval_func_call,
  eval_literal, column, as_bool, is_value, is_operand, both_known, logic_result, eval_bound,
  eval_args,
}
use my_simple_db.Expr.Eval.Nodes.{
  FloatIsFinite, eval_binary-IsFinite, eval_neg-IsFinite, eval_compare-IsFinite, eval_cast-IsFinite,
}

known-IsFinite : (a b : Option Bool) (c : Bool) → IsFinite (both_known a b (bool_val k_bool c))
known-IsFinite none b c = tt
known-IsFinite (some a) none c = tt
known-IsFinite (some a) (some b) c = tt

logic_result-IsFinite : (op : LogicOp) (a b : Option Bool) → IsFinite (logic_result op a b)
logic_result-IsFinite LogicOp.op_and a b =
    elim (Bool-cases (is_value a false || is_value b false)) [
      | inl e ↦ rw e tt
      | inr e ↦ rw e (known-IsFinite a b true)
    ]
logic_result-IsFinite LogicOp.op_or a b = elim (Bool-cases (is_value a true || is_value b true)) [
  | inl e ↦ rw e tt
  | inr e ↦ rw e (known-IsFinite a b false)
]

eval_logic-IsFinite : (op : LogicOp) (lv rv : Value) → Ensures IsFinite (eval_logic op lv rv)
unfolding eval_logic
eval_logic-IsFinite op lv rv =
    Ensures-if IsFinite (not (is_operand lv) || not (is_operand rv)) _ _ (λ e. tt)
      λ e. logic_result-IsFinite op (as_bool lv.box) (as_bool rv.box)

not-IsFinite : (t : TypeAttr) (b : Box) → Ensures IsFinite (eval_not (record { type = t; box = b }))
unfolding eval_not
not-IsFinite t Box.null = tt
not-IsFinite t _ = tt

literal-IsFinite :
    (t : TypeAttr) (b : Box)
    → FloatIsFinite b
    → Ensures IsFinite (eval_literal (record { type = t; box = b }))
unfolding eval_literal
literal-IsFinite t (Box.double d) h = Ensures-if IsFinite (is_finite64 d) _ _ (λ e. e) (λ e. tt)
literal-IsFinite t (Box.float f) h = h
literal-IsFinite t _ h = tt

-- A value list, all of it finite.
abbrev pub AllFinite : List Value → Type 0
AllFinite [] = Unit
AllFinite (v ∷ vs) = IsFinite v × AllFinite vs

column-IsFinite :
    (i : ℕ) (row : List Value) → AllFinite row → Ensures IsFinite (column i (some row))
column-IsFinite i [] h = tt
column-IsFinite zero (v ∷ row) h = h.0
column-IsFinite (suc i) (v ∷ row) h = column-IsFinite i row h.1

first_null-IsFinite :
    (fns : Builtins) (func : ℕ) (t : TypeAttr) (argv vs : List Value)
    → Ensures IsFinite (fns func argv t)
    → AllFinite vs
    → Ensures IsFinite (call_or_null fns func t argv (first_null vs))
unfolding first_null
first_null-IsFinite fns func t argv [] k h = k
first_null-IsFinite fns func t argv (v ∷ vs) k h = elim (Bool-cases (value_is_null v)) [
  | inl e ↦ rw e h.0
  | inr e ↦ rw e (first_null-IsFinite fns func t argv vs k h.1)
]

-- The built-in functions return finite floats for finite arguments.
pub record BuiltinsFinite (fns : Builtins) : Type 0 where
  pub at :
      (func : ℕ) (argv : List Value) (t : TypeAttr)
      → AllFinite argv
      → Ensures IsFinite (fns func argv t)

func_call-IsFinite :
    (fns : Builtins) (func : ℕ) (strict : Bool) (t : TypeAttr) (argv : List Value)
    → BuiltinsFinite fns
    → AllFinite argv
    → Ensures IsFinite (eval_func_call fns func strict t argv)
unfolding eval_func_call
func_call-IsFinite fns func true t argv b h =
    first_null-IsFinite fns func t argv argv (b.at func argv t h) h
func_call-IsFinite fns func false t argv b h = b.at func argv t h

-- No float constant of the tree is an infinity or a NaN. (A double constant may be: evaluating it
-- is an error.)
abbrev mutual
  pub FiniteConsts : BoundExpr → Type 0
  FiniteConsts (const v) = FloatIsFinite v.box
  FiniteConsts (col_ref i t) = Unit
  FiniteConsts (BoundExpr.arith op t l r) = FiniteConsts l × FiniteConsts r
  FiniteConsts (neg t e) = FiniteConsts e
  FiniteConsts (cmp op l r) = FiniteConsts l × FiniteConsts r
  FiniteConsts (logic op l r) = FiniteConsts l × FiniteConsts r
  FiniteConsts (BoundExpr.not e) = FiniteConsts e
  FiniteConsts (is_null e negate) = FiniteConsts e
  FiniteConsts (func_call func strict t args) = FiniteArgs args
  FiniteConsts (cast t limit scale e) = FiniteConsts e

  pub FiniteArgs : Args → Type 0
  FiniteArgs nil = Unit
  FiniteArgs (cons e es) = FiniteConsts e × FiniteArgs es

abbrev pub RowFinite : Option (List Value) → Type 0
RowFinite none = Unit
RowFinite (some row) = AllFinite row

row-IsFinite : (i : ℕ) (row : Option (List Value)) → RowFinite row → Ensures IsFinite (column i row)
row-IsFinite i none h = tt
row-IsFinite i (some row) h = column-IsFinite i row h

module _ (m : Platform) (fns : Builtins) (row : Option (List Value)) (ieee : IsIeee m)
    (builtins : BuiltinsFinite fns) (finite : RowFinite row) where
  mutual
    unfolding eval_bound eval_is_null

    pub bound-IsFinite :
        (e : BoundExpr) → FiniteConsts e → Ensures IsFinite (eval_bound m fns row e)
    bound-IsFinite (const v) h = literal-IsFinite v.type v.box h
    bound-IsFinite (col_ref i t) h = row-IsFinite i row finite
    bound-IsFinite (BoundExpr.arith op t l r) h =
        Ensures-then IsFinite (eval_bound m fns row l) _ λ lv.
          Ensures-then IsFinite (eval_bound m fns row r) _
            λ rv. eval_binary-IsFinite m ieee op t lv rv
    bound-IsFinite (neg t e) h =
        Ensures-bind IsFinite IsFinite (eval_bound m fns row e) _ (bound-IsFinite e h)
          λ v k. eval_neg-IsFinite m ieee t v k
    bound-IsFinite (cmp op l r) h = Ensures-then IsFinite (eval_bound m fns row l) _ λ lv.
        Ensures-then IsFinite (eval_bound m fns row r) _ λ rv. eval_compare-IsFinite m ieee op lv rv
    bound-IsFinite (logic op l r) h =
        Ensures-then IsFinite (eval_bound m fns row l) _
          λ lv. Ensures-then IsFinite (eval_bound m fns row r) _ λ rv. eval_logic-IsFinite op lv rv
    bound-IsFinite (BoundExpr.not e) h =
        Ensures-then IsFinite (eval_bound m fns row e) _ λ v. not-IsFinite v.type v.box
    bound-IsFinite (is_null e negate) h = Ensures-then IsFinite (eval_bound m fns row e) _ λ v. tt
    bound-IsFinite (func_call func strict t args) h =
        Ensures-bind AllFinite IsFinite (eval_args m fns row args) _ (args-IsFinite args h)
          λ argv k. func_call-IsFinite fns func strict t argv builtins k
    bound-IsFinite (cast t limit scale e) h =
        Ensures-bind IsFinite IsFinite (eval_bound m fns row e) _ (bound-IsFinite e h)
          λ v k. eval_cast-IsFinite m ieee t limit scale v k

    pub args-IsFinite : (es : Args) → FiniteArgs es → Ensures AllFinite (eval_args m fns row es)
    args-IsFinite nil h = tt
    args-IsFinite (cons e es) h =
        Ensures-bind IsFinite AllFinite (eval_bound m fns row e) _ (bound-IsFinite e h.0) λ v k.
          Ensures-bind AllFinite AllFinite (eval_args m fns row es) _ (args-IsFinite es h.1)
            λ vs l. (k, l)

-- Over a row and constants whose floats are finite, with built-in functions that keep that, every
-- value that the evaluator returns is finite: no infinity or NaN comes out of an expression.
pub eval_bound-IsFinite :
    (m : Platform) (fns : Builtins) (row : Option (List Value)) (e : BoundExpr) (v : Value)
    → IsIeee m
    → BuiltinsFinite fns
    → RowFinite row
    → FiniteConsts e
    → eval_bound m fns row e ≡ ok v
    → IsFinite v
eval_bound-IsFinite m fns row e v ieee builtins finite h p =
    Ensures-ok IsFinite (eval_bound m fns row e) (bound-IsFinite m fns row ieee builtins finite e h)
      p
