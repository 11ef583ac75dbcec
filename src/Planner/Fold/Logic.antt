-- ===== src/Planner/Fold/Logic.antt =====
-- planner/bool_simplify.cpp: simplify_logic and the value of an AND or an OR of boolean operands.
use my_simple_db.Prelude.{
  ◌≡◌, refl, sym, ◌∙◌, ap, true, false, Bool, ◌&&◌, List, Option, none, some, inl, inr, Bool-cases,
  arith, &&_left, &&_right,
}
use my_simple_db.Common.{ok, Follows}
use my_simple_db.Storage.Types.{Value}
use my_simple_db.Storage.Fpu.{Platform, IsIeee}
use my_simple_db.Expr.Bound.{BoundExpr, const, LogicOp, logic}
use my_simple_db.Expr.Eval.{
  Builtins, eval_bound, eval_logic, as_bool, is_operand, logic_result, matches,
}
use my_simple_db.Expr.Eval.Same.{Same-box}
use my_simple_db.Planner.Simplify.{const_bool, simplify_logic}
use my_simple_db.Planner.Fold.Relate.{
  Alike, IsBoolean, Stands, Stands-trans, const-Stands, whole_lem,
}
use my_simple_db.Planner.Fold.Nodes.{constant_lem}
use my_simple_db.Planner.Fold.{is_const, fold_logic}
use my_simple_db.Expr.Eval.Finite.{BuiltinsFinite, RowFinite}
use my_simple_db.Planner.Fold.Truth.{
  truth, simplify_cases, boolean-Same, identity_left, identity_right, absorb_left, absorb_right,
  passes, matches-logic_result, matches_bool, join-absorber, join-identity, matches-operand,
  operand-matches, logic-ok, literal-bool, result,
}

module _ (m : Platform) (fns : Builtins) (row : Option (List Value)) where
  -- The value of a constant boolean.
  constant-bool :
      (e : BoundExpr) (c : Bool) (w : Value)
      → const_bool e ≡ some c
      → eval_bound m fns row e ≡ ok w
      → truth w ≡ some c
  unfolding const_bool eval_bound
  constant-bool (const v) c w h e = literal-bool v.type v.box c w h e
  constant-bool _ c w h e = cc

  module _ (op : LogicOp) (lv rv : Value) (l r : BoundExpr) (ol : is_operand lv ≡ true)
      (or : is_operand rv ≡ true) where
    -- AND or OR of two folded operands, where the operator is kept.
    kept :
        (weak : Bool) (p : Stands m fns row weak lv l) (q : Stands m fns row weak rv r)
        → is_operand p.value ≡ true
        → is_operand q.value ≡ true
        → Alike weak (result op lv rv) (logic_result op (truth p.value) (truth q.value))
        → Stands m fns row weak (result op lv rv) (logic op l r)
    unfolding eval_bound
    kept weak p q h k a = record {
      value = logic_result op (truth p.value) (truth q.value);
      evaluates = rw (p.evaluates, q.evaluates) (logic-ok op p.value q.value h k);
      alike = a;
      finite = (p.finite, q.finite);
      typed = tt;
    }

    module _ (p : Stands m fns row false lv l) (q : Stands m fns row false rv r) where
      left_box : lv.box ≡ p.value.box
      left_box = Same-box lv p.value p.alike

      right_box : rv.box ≡ q.value.box
      right_box = Same-box rv q.value q.alike

      strong_kept : Stands m fns row false (result op lv rv) (logic op l r)
      unfolding result
      strong_kept =
          kept false p q (rw (← left_box) ol) (rw (← right_box) or)
            (inr (rw (left_box, right_box) refl))

      left_truth : (c : Bool) → const_bool l ≡ some c → truth lv ≡ some c
      left_truth c h = ap as_bool left_box ∙ constant-bool l c p.value h p.evaluates

      right_truth : (c : Bool) → const_bool r ≡ some c → truth rv ≡ some c
      right_truth c h = ap as_bool right_box ∙ constant-bool r c q.value h q.evaluates

      strong_lem :
          IsBoolean lv
          → IsBoolean rv
          → Stands m fns row false (result op lv rv) (simplify_logic op l r)
      unfolding result
      strong_lem bl br =
          simplify_cases (λ e. Stands m fns row false (result op lv rv) e) op l r _ _ refl refl
            (λ h.
              const-Stands m fns row false _ _ tt (inr (rw (left_truth _ h) (absorb_left op _))))
            (λ h.
              const-Stands m fns row false _ _ tt (inr (rw (right_truth _ h) (absorb_right op _))))
            (λ h.
              Stands-trans m fns row false (result op lv rv) rv r
                (rw (left_truth _ h, identity_left op (truth rv))
                  (boolean-Same rv.type rv.box or br))
                q)
            (λ h.
              Stands-trans m fns row false (result op lv rv) lv l
                (rw (right_truth _ h, identity_right op (truth lv))
                  (boolean-Same lv.type lv.box ol bl))
                p)
            strong_kept

    module _ (p : Stands m fns row true lv l) (q : Stands m fns row true rv r) where
      left_matches : matches p.value ≡ ok (passes lv)
      left_matches = sym p.alike ∙ matches-operand lv.type lv.box ol

      right_matches : matches q.value ≡ ok (passes rv)
      right_matches = sym q.alike ∙ matches-operand rv.type rv.box or

      left_operand : is_operand p.value ≡ true
      left_operand = operand-matches p.value.type p.value.box _ left_matches

      right_operand : is_operand q.value ≡ true
      right_operand = operand-matches q.value.type q.value.box _ right_matches

      left_passes : passes p.value ≡ passes lv
      left_passes = cc (left_matches, matches-operand p.value.type p.value.box left_operand)

      right_passes : passes q.value ≡ passes rv
      right_passes = cc (right_matches, matches-operand q.value.type q.value.box right_operand)

      weak_kept : Stands m fns row true (result op lv rv) (logic op l r)
      unfolding result
      weak_kept = kept true p q left_operand right_operand (
          matches-logic_result op (truth lv) (truth rv)
          ∙ rw (← left_passes, ← right_passes)
              (sym (matches-logic_result op (truth p.value) (truth q.value))))

      left_constant : (c : Bool) → const_bool l ≡ some c → passes lv ≡ c
      left_constant c h =
          sym left_passes ∙ rw (constant-bool l c p.value h p.evaluates) (ground arith)

      right_constant : (c : Bool) → const_bool r ≡ some c → passes rv ≡ c
      right_constant c h =
          sym right_passes ∙ rw (constant-bool r c q.value h q.evaluates) (ground arith)

      weak_lem : Stands m fns row true (result op lv rv) (simplify_logic op l r)
      unfolding result
      weak_lem =
          simplify_cases (λ e. Stands m fns row true (result op lv rv) e) op l r _ _ refl refl
            (λ h. const-Stands m fns row true _ _ tt (
              matches-logic_result op (truth lv) (truth rv)
              ∙ rw (left_constant _ h)
                  (rw ((join-absorber op (passes rv)).0) (sym (matches_bool _)))))
            (λ h. const-Stands m fns row true _ _ tt (
              matches-logic_result op (truth lv) (truth rv)
              ∙ rw (right_constant _ h)
                  (rw ((join-absorber op (passes lv)).1) (sym (matches_bool _)))))
            (λ h.
              Stands-trans m fns row true (result op lv rv) rv r
                (matches-logic_result op (truth lv) (truth rv)
                  ∙ rw (left_constant _ h) (
                      rw ((join-identity op (passes rv)).0)
                        (sym (matches-operand rv.type rv.box or))))
                q)
            (λ h.
              Stands-trans m fns row true (result op lv rv) lv l
                (matches-logic_result op (truth lv) (truth rv)
                  ∙ rw (right_constant _ h) (
                      rw ((join-identity op (passes lv)).1)
                        (sym (matches-operand lv.type lv.box ol))))
                p)
            weak_kept

    logic-kept :
        (weak : Bool)
        → Stands m fns row weak lv l
        → Stands m fns row weak rv r
        → Stands m fns row weak (result op lv rv) (logic op l r)
    logic-kept false = strong_kept
    logic-kept true = weak_kept

    logic-simplified :
        (weak : Bool)
        → Stands m fns row weak lv l
        → Stands m fns row weak rv r
        → IsBoolean lv
        → IsBoolean rv
        → Stands m fns row weak (result op lv rv) (simplify_logic op l r)
    logic-simplified false p q bl br = strong_lem p q bl br
    logic-simplified true p q bl br = weak_lem p q

  logic_constant :
      (op : LogicOp) (l r : BoundExpr)
      → (is_const l && is_const r) ≡ true
      → eval_bound m fns none (logic op l r) ≡ eval_bound m fns row (logic op l r)
  unfolding eval_bound
  logic_constant op l r h =
      rw
        (
          constant_lem m fns row l (&&_left _ _ h),
          constant_lem m fns row r (&&_right (is_const l) _ h),
        )
        refl

  module _ (ieee : IsIeee m) (builtins : BuiltinsFinite fns) (finite : RowFinite row) (weak : Bool)
      (op : LogicOp) (lv rv : Value) (l r : BoundExpr) (p : Stands m fns row weak lv l)
      (q : Stands m fns row weak rv r) (bl : IsBoolean lv) (br : IsBoolean rv) where
    operands_lem :
        is_operand lv ≡ true
        → is_operand rv ≡ true
        → Follows (Stands m fns row weak) (ok (result op lv rv)) (fold_logic m fns op l r)
    unfolding fold_logic
    operands_lem ol or =
        let k = logic-kept op lv rv l r ol or weak p q in
        elim (Bool-cases (is_const l && is_const r)) [
          | inl c ↦ rw c (
              whole_lem m fns row ieee builtins finite weak (ok (result op lv rv)) (logic op l r)
                (logic_constant op l r c) (p.finite, q.finite) (k.value, k.evaluates, k.alike))
          | inr c ↦
              rw c (simplify_logic op l r, refl, logic-simplified op lv rv l r ol or weak p q bl br)
        ]

    -- AND or OR of two operands that their folded forms stand for.
    pub logic_lem : Follows (Stands m fns row weak) (eval_logic op lv rv) (fold_logic m fns op l r)
    unfolding eval_logic result
    logic_lem = elim (Bool-cases (is_operand lv)) [
      | inl ol ↦ elim (Bool-cases (is_operand rv)) [
        | inl or ↦ rw (ol, or) (operands_lem ol or)
        | inr no_right ↦ rw (ol, no_right) tt
      ]
      | inr no_left ↦ rw no_left tt
    ]
