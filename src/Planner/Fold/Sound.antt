-- ===== src/Planner/Fold/Sound.antt =====
-- planner/const_fold.cpp: an expression and its folded form, in every row.
use my_simple_db.Prelude.{ℕ, ◌≡◌, refl, sym, ◌∙◌, true, false, Bool, List, [], Option, some}
use my_simple_db.Common.{
  Result, ok, >>=-eq-ok, Ensures, trivial, Follows, Follows-bind, Follows-bind_both, Follows-ok,
  Follows-weaken,
}
use my_simple_db.Storage.Types.{Value}
use my_simple_db.Storage.Fpu.{Platform, IsIeee}
use my_simple_db.Expr.Bound.{
  BoundExpr, Args, const, col_ref, arith, neg, cmp, logic, is_null, func_call, cast, nil, cons,
}
use my_simple_db.Expr.Eval.{Builtins, eval_bound, eval_args, matches, where_match}
use my_simple_db.Expr.Eval.Finite.{FiniteConsts, FiniteArgs, BuiltinsFinite, RowFinite}
use my_simple_db.Expr.Eval.Same.{BuiltinsSame, Follows-refl, Same}
use my_simple_db.Planner.Simplify.{simplify_not}
use my_simple_db.Planner.Simplify.Equal.{Exact}
use my_simple_db.Planner.Fold.{fold_expr, fold_args}
use my_simple_db.Planner.Fold.Relate.{Alike, Alike-of_Same, IsBoolean, Stands, keep_lem}
use my_simple_db.Planner.Fold.Nodes.{
  arith_lem, neg_lem, is_null_lem, cast_lem, StandsArgs, cons-StandsArgs, func_call_lem,
}
use my_simple_db.Planner.Fold.Logic.{logic_lem}
use my_simple_db.Planner.Fold.Not.{ExactSides, WeakOnly, cmp_lem, not_lem}

module _ (m : Platform) (fns : Builtins) (row : Option (List Value)) (strict_of : ℕ → Bool) where
  -- What the analyzer guarantees: an operand of AND, OR or NOT that has a value is boolean or NULL.
  -- And the two sides of each comparison of a weak context fold to expressions with no negative
  -- zero and no cast to a declared scale, in which each call has the strictness that strict_of
  -- gives its function; so do the two sides of the comparison that a NOT of a weak context turns
  -- into.
  abbrev mutual
    pub Foldable : BoundExpr → Bool → Type 0
    Foldable (const v) weak = Unit
    Foldable (col_ref i t) weak = Unit
    Foldable (arith op t l r) weak = Foldable l false × Foldable r false
    Foldable (neg t e) weak = Foldable e false
    Foldable (cmp op l r) weak =
        Foldable l false
        × Foldable r false
        × Ensures (λ l'. WeakOnly weak (Exact strict_of l')) (fold_expr m fns l false)
        × Ensures (λ r'. WeakOnly weak (Exact strict_of r')) (fold_expr m fns r false)
    Foldable (logic op l r) weak =
        Foldable l weak
        × Foldable r weak
        × Ensures IsBoolean (eval_bound m fns row l)
        × Ensures IsBoolean (eval_bound m fns row r)
    Foldable (BoundExpr.not e) weak =
        Foldable e false
        × Ensures IsBoolean (eval_bound m fns row e)
        × Ensures (λ e'. WeakOnly weak (ExactSides strict_of (simplify_not e')))
            (fold_expr m fns e false)
    Foldable (is_null e negate) weak = Foldable e false
    Foldable (func_call func strict t args) weak = FoldableArgs args
    Foldable (cast t limit scale e) weak = Foldable e false

    pub FoldableArgs : Args → Type 0
    FoldableArgs nil = Unit
    FoldableArgs (cons e es) = Foldable e false × FoldableArgs es

  module _ (ieee : IsIeee m) (builtins : BuiltinsFinite fns) (same : BuiltinsSame fns)
      (finite : RowFinite row) where
    weak_pair :
        (weak : Bool) (P Q : Type 0) → WeakOnly weak P → WeakOnly weak Q → WeakOnly weak (P × Q)
    weak_pair true P Q p q = (p, q)
    weak_pair false P Q p q = tt

    abbrev Meets : Bool → Result Value → Result BoundExpr → Type 0
    Meets weak = Follows (Stands m fns row weak)

    mutual
      unfolding eval_bound fold_expr

      fold_expr-Stands :
          (e : BoundExpr) (weak : Bool)
          → FiniteConsts e
          → Foldable e weak
          → Meets weak (eval_bound m fns row e) (fold_expr m fns e weak)
      fold_expr-Stands (const v) weak f h = keep_lem m fns row weak _ (const v) f tt (
          Follows-weaken Same (Alike weak) _ _ (Alike-of_Same weak)
            (Follows-refl (eval_bound m fns row (const v))))
      fold_expr-Stands (col_ref i t) weak f h = keep_lem m fns row weak _ (col_ref i t) f tt (
          Follows-weaken Same (Alike weak) _ _ (Alike-of_Same weak)
            (Follows-refl (eval_bound m fns row (col_ref i t))))
      fold_expr-Stands (arith op t l r) weak f h =
          Follows-bind _ _ (eval_bound m fns row l) (fold_expr m fns l false) _ _
            (fold_expr-Stands l false f.0 h.0)
            λ lv l' p.
              Follows-bind _ _ (eval_bound m fns row r) (fold_expr m fns r false) _ _
                (fold_expr-Stands r false f.1 h.1)
                λ rv r' q. arith_lem m fns row ieee builtins finite weak lv rv l' r' p q op t
      fold_expr-Stands (neg t e) weak f h =
          Follows-bind _ _ (eval_bound m fns row e) (fold_expr m fns e false) _ _
            (fold_expr-Stands e false f h)
            λ v e' p. neg_lem m fns row ieee builtins finite weak v e' p t
      fold_expr-Stands (cmp op l r) weak f h =
          Follows-bind_both _ (λ v. Unit {0}) _ _ (eval_bound m fns row l) (fold_expr m fns l false)
            _ _ (fold_expr-Stands l false f.0 h.0) (trivial (eval_bound m fns row l)) h.2
            λ lv l' p u s.
              Follows-bind_both _ (λ v. Unit {0}) _ _ (eval_bound m fns row r)
                (fold_expr m fns r false) _ _ (fold_expr-Stands r false f.1 h.1)
                (trivial (eval_bound m fns row r)) h.3
                λ rv r' q w t.
                  cmp_lem m fns row ieee strict_of builtins finite weak op lv rv l' r' p q
                    (weak_pair weak _ _ s t)
      fold_expr-Stands (logic op l r) weak f h =
          Follows-bind_both _ _ (λ v. Unit {0}) _ (eval_bound m fns row l) (fold_expr m fns l weak)
            _ _ (fold_expr-Stands l weak f.0 h.0) h.2 (trivial (fold_expr m fns l weak))
            λ lv l' p bl u.
              Follows-bind_both _ _ (λ v. Unit {0}) _ (eval_bound m fns row r)
                (fold_expr m fns r weak) _ _ (fold_expr-Stands r weak f.1 h.1) h.3
                (trivial (fold_expr m fns r weak))
                λ rv r' q br w.
                  logic_lem m fns row ieee builtins finite weak op lv rv l' r' p q bl br
      fold_expr-Stands (BoundExpr.not e) weak f h =
          Follows-bind_both _ _ _ _ (eval_bound m fns row e) (fold_expr m fns e false) _ _
            (fold_expr-Stands e false f h.0) h.1 h.2
            λ v e' p b s. not_lem m fns row ieee strict_of builtins finite weak v e' p b s
      fold_expr-Stands (is_null e negate) weak f h =
          Follows-bind _ _ (eval_bound m fns row e) (fold_expr m fns e false) _ _
            (fold_expr-Stands e false f h)
            λ v e' p. is_null_lem m fns row ieee builtins finite weak v e' p negate
      fold_expr-Stands (func_call func strict t args) weak f h =
          Follows-bind _ _ (eval_args m fns row args) (fold_args m fns args) _ _
            (fold_args-Stands args f h)
            λ vs es p. func_call_lem m fns row ieee builtins finite weak same func strict t vs es p
      fold_expr-Stands (cast t limit scale e) weak f h =
          Follows-bind _ _ (eval_bound m fns row e) (fold_expr m fns e false) _ _
            (fold_expr-Stands e false f h)
            λ v e' p. cast_lem m fns row ieee builtins finite weak v e' p t limit scale

      fold_args-Stands :
          (es : Args)
          → FiniteArgs es
          → FoldableArgs es
          → Follows
              (StandsArgs m fns row ieee builtins finite)
              (eval_args m fns row es)
              (fold_args m fns es)
      fold_args-Stands nil f h =
          (nil, refl, record { values = []; evaluates = refl; alike = tt; all_finite = tt })
      fold_args-Stands (cons e es) f h =
          Follows-bind _ _ (eval_bound m fns row e) (fold_expr m fns e false) _ _
            (fold_expr-Stands e false f.0 h.0)
            λ v e' p.
              Follows-bind _ _ (eval_args m fns row es) (fold_args m fns es) _ _
                (fold_args-Stands es f.1 h.1)
                λ vs es' q. (
                  cons e' es',
                  refl,
                  cons-StandsArgs m fns row ieee builtins finite v vs e' es' p q,
                )

-- Take a machine whose float arithmetic obeys IEEE 754 as IsIeee says, built-in functions that
-- return only finite floats for finite arguments and do not tell one NULL from another, a row whose
-- floats are finite, or no row, and an expression whose single-precision constants are finite and
-- in which every operand of AND, OR and NOT that has a value is boolean or NULL. Outside a WHERE,
-- where the expression has a value, folding it succeeds, and the folded expression has the same
-- value, or both values are NULL.
pub fold_expr-eval_bound :
    (m : Platform) (fns : Builtins) (row : Option (List Value)) (strict_of : ℕ → Bool)
    (e : BoundExpr) (v : Value)
    → IsIeee m
    → BuiltinsFinite fns
    → BuiltinsSame fns
    → RowFinite row
    → FiniteConsts e
    → Foldable m fns row strict_of e false
    → eval_bound m fns row e ≡ ok v
    → (e' : BoundExpr) × (w : Value) × (fold_expr m fns e false ≡ ok e')
      × (eval_bound m fns row e' ≡ ok w)
      × Same v w
fold_expr-eval_bound m fns row strict_of e v ieee builtins same finite f h p =
    let (e', q, s) =
      Follows-ok (Stands m fns row false) (eval_bound m fns row e) (fold_expr m fns e false)
        (fold_expr-Stands m fns row strict_of ieee builtins same finite e false f h) p in
    (e', s.value, q, s.evaluates, s.alike)

-- Take a machine whose float arithmetic obeys IEEE 754 as IsIeee says, built-in functions that
-- return only finite floats for finite arguments and do not tell one NULL from another, a row whose
-- floats are finite, and an expression whose single-precision constants are finite and in which
-- every operand of AND, OR and NOT that has a value is boolean or NULL. Let also the two sides of
-- each comparison that the WHERE reaches through AND and OR, or that a NOT there turns into, fold
-- to expressions without negative zeros and without casts to a declared scale, in which each call
-- has the strictness of its overload. Where such a predicate decides the row, folding it for a
-- WHERE succeeds, and the folded predicate gives the same decision on the row.
pub fold_expr-where_match :
    (m : Platform) (fns : Builtins) (row : List Value) (strict_of : ℕ → Bool) (e : BoundExpr)
    (b : Bool)
    → IsIeee m
    → BuiltinsFinite fns
    → BuiltinsSame fns
    → RowFinite (some row)
    → FiniteConsts e
    → Foldable m fns (some row) strict_of e true
    → where_match m fns e row ≡ ok b
    → (e' : BoundExpr) × (fold_expr m fns e true ≡ ok e') × (where_match m fns e' row ≡ ok b)
unfolding where_match
fold_expr-where_match m fns row strict_of e b ieee builtins same finite f h p =
    let (v, ev, mv) = >>=-eq-ok (eval_bound m fns (some row) e) matches p in
    let (e', q, s) =
      Follows-ok (Stands m fns (some row) true) (eval_bound m fns (some row) e)
        (fold_expr m fns e true)
        (fold_expr-Stands m fns (some row) strict_of ieee builtins same finite e true f h) ev in
    (e', q, rw s.evaluates (sym s.alike ∙ mv))
