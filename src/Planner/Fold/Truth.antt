-- ===== src/Planner/Fold/Truth.antt =====
-- planner/bool_simplify.cpp: AND and OR on values, and the cases of simplify_logic.
use my_simple_db.Prelude.{
  ◌≡◌, refl, sym, true, false, not, Bool, ◌&&◌, ◌||◌, Option, none, some, inl, inr, arith,
}
use my_simple_db.Common.{ok}
use my_simple_db.Storage.Types.{TypeAttr, Box, Value, bool_val, k_bool}
use my_simple_db.Expr.Bound.{BoundExpr, LogicOp, logic}
use my_simple_db.Expr.Eval.{
  eval_literal, eval_logic, as_bool, is_value, is_operand, both_known, logic_result, matches,
}
use my_simple_db.Expr.Eval.Same.{Same}
use my_simple_db.Planner.Simplify.{const_bool, const_of, simplify_logic}
use my_simple_db.Planner.Fold.Relate.{IsBoolean}

-- A boolean, or none for NULL.
abbrev pub truth : Value → Option Bool
truth v = as_bool v.box

abbrev pub absorber : LogicOp → Bool
absorber LogicOp.op_and = false
absorber LogicOp.op_or = true

-- The result of simplify_logic has what each of its five outcomes has.
pub simplify_cases :
    (P : BoundExpr → Type 0) (op : LogicOp) (l r : BoundExpr) (x y : Option Bool)
    → const_bool l ≡ x
    → const_bool r ≡ y
    → (x ≡ some (absorber op) → P (const_of (absorber op)))
    → (y ≡ some (absorber op) → P (const_of (absorber op)))
    → (x ≡ some (not (absorber op)) → P r)
    → (y ≡ some (not (absorber op)) → P l)
    → P (logic op l r)
    → P (simplify_logic op l r)
unfolding simplify_logic
simplify_cases P LogicOp.op_and l r none none e f zl zr ul ur k = rw (e, f) k
simplify_cases P LogicOp.op_and l r none (some true) e f zl zr ul ur k = rw (e, f) (ur refl)
simplify_cases P LogicOp.op_and l r none (some false) e f zl zr ul ur k = rw (e, f) (zr refl)
simplify_cases P LogicOp.op_and l r (some false) y e f zl zr ul ur k = rw e (zl refl)
simplify_cases P LogicOp.op_and l r (some true) none e f zl zr ul ur k = rw (e, f) (ul refl)
simplify_cases P LogicOp.op_and l r (some true) (some true) e f zl zr ul ur k = rw (e, f) (ul refl)
simplify_cases P LogicOp.op_and l r (some true) (some false) e f zl zr ul ur k = rw (e, f) (zr refl)
simplify_cases P LogicOp.op_or l r none none e f zl zr ul ur k = rw (e, f) k
simplify_cases P LogicOp.op_or l r none (some false) e f zl zr ul ur k = rw (e, f) (ur refl)
simplify_cases P LogicOp.op_or l r none (some true) e f zl zr ul ur k = rw (e, f) (zr refl)
simplify_cases P LogicOp.op_or l r (some true) y e f zl zr ul ur k = rw e (zl refl)
simplify_cases P LogicOp.op_or l r (some false) none e f zl zr ul ur k = rw (e, f) (ul refl)
simplify_cases P LogicOp.op_or l r (some false) (some false) e f zl zr ul ur k = rw (e, f) (ul refl)
simplify_cases P LogicOp.op_or l r (some false) (some true) e f zl zr ul ur k = rw (e, f) (zr refl)

-- A boolean operand is the boolean it holds, or NULL.
pub boolean-Same :
    (t : TypeAttr) (b : Box)
    → is_operand (record { type = t; box = b }) ≡ true
    → IsBoolean (record { type = t; box = b })
    → Same
        (both_known (as_bool b) (as_bool b) (bool_val k_bool (is_value (as_bool b) true)))
        (record { type = t; box = b })
boolean-Same t Box.null o h = inl (refl, refl)
boolean-Same t (Box.bool true) o h =
    inr (λ i. record { type = sym (h refl) i; box = Box.bool true })
boolean-Same t (Box.bool false) o h =
    inr (λ i. record { type = sym (h refl) i; box = Box.bool false })
boolean-Same t _ o h = cc

-- The identity of an operator leaves the other operand.
pub identity_left :
    (op : LogicOp) (b : Option Bool)
    → logic_result op (some (not (absorber op))) b
      ≡ both_known b b (bool_val k_bool (is_value b true))
identity_left op b = ground arith

pub identity_right :
    (op : LogicOp) (b : Option Bool)
    → logic_result op b (some (not (absorber op)))
      ≡ both_known b b (bool_val k_bool (is_value b true))
identity_right op b = ground arith

pub absorb_left :
    (op : LogicOp) (b : Option Bool)
    → logic_result op (some (absorber op)) b ≡ bool_val k_bool (absorber op)
absorb_left op b = ground arith

pub absorb_right :
    (op : LogicOp) (b : Option Bool)
    → logic_result op b (some (absorber op)) ≡ bool_val k_bool (absorber op)
absorb_right op b = ground arith

-- What WHERE sees of an operand, and of the result.
abbrev pub passes : Value → Bool
passes v = is_value (truth v) true

abbrev pub join : LogicOp → Bool → Bool → Bool
join LogicOp.op_and a b = a && b
join LogicOp.op_or a b = a || b

pub matches-logic_result :
    (op : LogicOp) (a b : Option Bool)
    → matches (logic_result op a b) ≡ ok (join op (is_value a true) (is_value b true))
unfolding matches
matches-logic_result op a b = ground arith

pub matches_bool : (c : Bool) → matches (bool_val k_bool c) ≡ ok c
unfolding matches
matches_bool c = refl

pub join-absorber :
    (op : LogicOp) (b : Bool)
    → (join op (absorber op) b ≡ absorber op) × (join op b (absorber op) ≡ absorber op)
join-absorber op b = (ground arith, ground arith)

pub join-identity :
    (op : LogicOp) (b : Bool)
    → (join op (not (absorber op)) b ≡ b) × (join op b (not (absorber op)) ≡ b)
join-identity op b = (ground arith, ground arith)

pub matches-operand :
    (t : TypeAttr) (b : Box)
    → is_operand (record { type = t; box = b }) ≡ true
    → matches (record { type = t; box = b }) ≡ ok (is_value (as_bool b) true)
unfolding matches
matches-operand t Box.null h = refl
matches-operand t (Box.bool true) h = refl
matches-operand t (Box.bool false) h = refl
matches-operand t _ h = cc

pub operand-matches :
    (t : TypeAttr) (b : Box) (c : Bool)
    → matches (record { type = t; box = b }) ≡ ok c
    → is_operand (record { type = t; box = b }) ≡ true
unfolding matches
operand-matches t Box.null c h = refl
operand-matches t (Box.bool b) c h = refl
operand-matches t _ c h = cc

pub logic-ok :
    (op : LogicOp) (v w : Value)
    → is_operand v ≡ true
    → is_operand w ≡ true
    → eval_logic op v w ≡ ok (logic_result op (truth v) (truth w))
unfolding eval_logic
logic-ok op v w h k = rw (h, k) refl

pub operand-bool :
    (t : TypeAttr) (b : Box) (c : Bool)
    → as_bool b ≡ some c
    → is_operand (record { type = t; box = b }) ≡ true
operand-bool t (Box.bool b) c h = refl
operand-bool t _ c h = cc

pub literal-bool :
    (t : TypeAttr) (b : Box) (c : Bool) (w : Value)
    → as_bool b ≡ some c
    → eval_literal (record { type = t; box = b }) ≡ ok w
    → truth w ≡ some c
unfolding eval_literal
literal-bool t (Box.bool b) c w h e = ground arith
literal-bool t _ c w h e = cc

-- The value of an AND or OR of two operands.
unfoldable pub result : LogicOp → Value → Value → Value
result op lv rv = logic_result op (truth lv) (truth rv)
