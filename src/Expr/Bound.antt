-- ===== src/Expr/Bound.antt =====
-- analyzer/bound_expr.h: the bound expression tree. A child of a node is never null. The list of
-- the arguments of a call is a type of its own. The operator of BoundArith, a char, is one of + -
-- * /.
use my_simple_db.Prelude.{ℕ, Bool}
use my_simple_db.Storage.Types.{TypeAttr, Value}
use my_simple_db.Expr.Numeric.{ArithOp}

pub data CmpOp : Type 0 where
  eq ne lt le gt ge : CmpOp

pub data LogicOp : Type 0 where
  op_and op_or : LogicOp

mutual
  pub data BoundExpr : Type 0 where
    const : Value → BoundExpr
    col_ref : ℕ → TypeAttr → BoundExpr
    arith : ArithOp → TypeAttr → BoundExpr → BoundExpr → BoundExpr
    neg : TypeAttr → BoundExpr → BoundExpr
    cmp : CmpOp → BoundExpr → BoundExpr → BoundExpr
    logic : LogicOp → BoundExpr → BoundExpr → BoundExpr
    not : BoundExpr → BoundExpr
    is_null : BoundExpr → Bool → BoundExpr
    -- the overload's id, its strictness on NULL, the result's type and the arguments
    func_call : ℕ → Bool → TypeAttr → Args → BoundExpr
    -- the target's type, length and scale
    cast : TypeAttr → ℕ → ℕ → BoundExpr → BoundExpr

  pub data Args : Type 0 where
    nil : Args
    cons : BoundExpr → Args → Args
