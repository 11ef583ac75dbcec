-- ===== src/Expr.antt =====
-- The expression evaluator, src/expr.
pub mod Numeric
pub mod Bound
pub mod Compare
pub mod Eval
