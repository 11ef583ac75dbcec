-- ===== src/Planner/Fold/Nodes.antt =====
-- planner/const_fold.cpp: the nodes other than AND, OR and NOT, once their children are folded.
use my_simple_db.Prelude.{
  ℕ, ◌≡◌, refl, ◌∙◌, ap, true, false, Bool, ◌&&◌, ◌||◌, List, ◌∷◌, Option, none, inl, inr,
  Bool-cases, if◌then◌else◌, arith, &&_left, &&_right,
}
use my_simple_db.Common.{Result, ok, Follows, Follows-weaken}
use my_simple_db.Storage.Types.{TypeAttr, Box, Value, value_is_null, box_is_null, null_val}
use my_simple_db.Storage.Fpu.{Platform, IsIeee}
use my_simple_db.Expr.Numeric.{ArithOp}
use my_simple_db.Expr.Bound.{
  BoundExpr, Args, const, CmpOp, cmp, neg, is_null, func_call, cast, nil, cons,
}
use my_simple_db.Expr.Eval.{
  Builtins, eval_bound, eval_args, eval_literal, eval_binary, eval_neg, eval_compare, eval_cast,
  eval_is_null, eval_func_call,
}
use my_simple_db.Expr.Eval.Finite.{FiniteConsts, FiniteArgs, BuiltinsFinite, RowFinite}
use my_simple_db.Expr.Eval.Same.{
  Same, IsNull, Same-box, eval_binary-Same, eval_neg-Same, eval_compare-Same, eval_cast-Same,
  eval_is_null-Same, func_call-Same, BuiltinsSame, SameAll,
}
use my_simple_db.Planner.Fold.{
  is_const, is_null_const, all_const, null_const, fold_whole, fold_arith, fold_if,
}
use my_simple_db.Planner.Fold.Relate.{
  Alike, Alike-of_Same, NotTyped, Stands, keep_lem, const-Stands, whole_lem,
}

or_cases : (a b : Bool) → (a || b) ≡ true → (a ≡ false) → b ≡ true
or_cases a b h e = ground arith

literal-IsNull_box :
    (t : TypeAttr) (b : Box) (w : Value)
    → box_is_null b ≡ true
    → eval_literal (record { type = t; box = b }) ≡ ok w
    → IsNull w
unfolding eval_literal
literal-IsNull_box t Box.null w n h = ground arith
literal-IsNull_box t _ w n h = cc

literal-IsNull : (v w : Value) → IsNull v → eval_literal v ≡ ok w → IsNull w
literal-IsNull v w n h = literal-IsNull_box v.type v.box w n h

module _ (m : Platform) (fns : Builtins) (row : Option (List Value)) where
  -- A constant has one value in every row.
  pub constant_lem :
      (e : BoundExpr) → is_const e ≡ true → eval_bound m fns none e ≡ eval_bound m fns row e
  unfolding eval_bound
  constant_lem (const v) h = refl
  constant_lem _ h = cc

  IsNull-Stands :
      (v : Value) (e : BoundExpr) → Stands m fns row false v e → is_null_const e ≡ true → IsNull v
  unfolding eval_bound
  IsNull-Stands v (const u) s n =
      let w : IsNull s.value = literal-IsNull u s.value n s.evaluates in
      ap box_is_null (Same-box v s.value s.alike) ∙ w
  IsNull-Stands v _ s n = cc

  module _ (ieee : IsIeee m) (builtins : BuiltinsFinite fns) (finite : RowFinite row) where
    -- A node that is folded when its children are constants, and kept otherwise.
    if_lem :
        (weak constant : Bool) (x : Result Value) (e : BoundExpr)
        → (constant ≡ true → eval_bound m fns none e ≡ eval_bound m fns row e)
        → FiniteConsts e
        → NotTyped m fns row e
        → Follows (Alike weak) x (eval_bound m fns row e)
        → Follows (Stands m fns row weak) x (fold_if m fns constant e)
    unfolding fold_if
    if_lem weak true x e c f t h = whole_lem m fns row ieee builtins finite weak x e (c refl) f h
    if_lem weak false x e c f t h = keep_lem m fns row weak x e f t h

    -- A node of two children that is NULL where one of them is the constant NULL.
    pub binary_lem :
        (weak : Bool) (x : Result Value) (l r e : BoundExpr) (last : Result BoundExpr)
        → (is_const l ≡ true → is_const r ≡ true → eval_bound m fns none e ≡ eval_bound m fns row e)
        → ((is_null_const l || is_null_const r) ≡ true → x ≡ ok null_val)
        → FiniteConsts e
        → Follows (Alike weak) x (eval_bound m fns row e)
        → Follows (Stands m fns row weak) x last
        → Follows (Stands m fns row weak) x (
            if is_const l && is_const r
            then fold_whole m fns e
            else if is_null_const l || is_null_const r
            then ok null_const
            else last)
    binary_lem weak x l r e last c n f h k = elim (Bool-cases (is_const l && is_const r)) [
      | inl both ↦ rw both (
          whole_lem m fns row ieee builtins finite weak x e
            (c (&&_left _ _ both) (&&_right (is_const l) _ both)) f h)
      | inr one ↦ elim (Bool-cases (is_null_const l || is_null_const r)) [
        | inl null ↦
            rw (one, null, n null)
              (
                null_const,
                refl,
                const-Stands m fns row weak null_val null_val tt
                    (Alike-of_Same weak null_val null_val (inr refl)),
              )
        | inr value ↦ rw (one, value) k
      ]
    ]

    alike : (weak : Bool) (x y : Result Value) → Follows Same x y → Follows (Alike weak) x y
    alike weak x y = Follows-weaken Same (Alike weak) x y (Alike-of_Same weak)

    module _ (weak : Bool) (lv rv : Value) (l r : BoundExpr) (p : Stands m fns row false lv l)
        (q : Stands m fns row false rv r) where
      null_child :
          (is_null_const l || is_null_const r) ≡ true
          → (value_is_null lv || value_is_null rv) ≡ true
      null_child h = elim (Bool-cases (is_null_const l)) [
        | inl e ↦ rw (IsNull-Stands lv l p e) refl
        | inr e ↦ ground (arith, IsNull-Stands rv r q (or_cases _ _ h e))
      ]

      pub arith_lem :
          (op : ArithOp) (t : TypeAttr)
          → Follows (Stands m fns row weak) (eval_binary m op t lv rv) (fold_arith m fns op t l r)
      unfolding fold_arith eval_bound
      arith_lem op t =
          let x = eval_binary m op t lv rv in
          let e = BoundExpr.arith op t l r in
          let f : FiniteConsts e = (p.finite, q.finite) in
          let h : Follows (Alike weak) x (eval_bound m fns row e) =
            rw (p.evaluates, q.evaluates)
              (alike weak x _ (eval_binary-Same m op t lv p.value rv q.value p.alike q.alike)) in
          binary_lem weak x l r e (ok e) (λ c d. rw (constant_lem l c, constant_lem r d) refl)
            (λ n. unfold eval_binary in rw (null_child n) refl) f h
            (keep_lem m fns row weak x e f tt h)

      pub cmp-Follows :
          (op : CmpOp)
          → Follows (Alike weak) (eval_compare m op lv rv) (eval_bound m fns row (cmp op l r))
      unfolding eval_bound
      cmp-Follows op =
          rw (p.evaluates, q.evaluates)
            (alike weak (eval_compare m op lv rv) _
              (eval_compare-Same m op lv p.value rv q.value p.alike q.alike))

      pub compare_null :
          (op : CmpOp)
          → (is_null_const l || is_null_const r) ≡ true
          → eval_compare m op lv rv ≡ ok null_val
      unfolding eval_compare
      compare_null op n = rw (null_child n) refl

    pub cmp_constant :
        (op : CmpOp) (l r : BoundExpr)
        → is_const l ≡ true
        → is_const r ≡ true
        → eval_bound m fns none (cmp op l r) ≡ eval_bound m fns row (cmp op l r)
    unfolding eval_bound
    cmp_constant op l r c d = rw (constant_lem l c, constant_lem r d) refl

    module _ (weak : Bool) (v : Value) (e : BoundExpr) (p : Stands m fns row false v e) where
      pub neg_lem :
          (t : TypeAttr)
          → Follows (Stands m fns row weak) (eval_neg m t v) (fold_if m fns (is_const e) (neg t e))
      unfolding eval_bound
      neg_lem t =
          if_lem weak (is_const e) (eval_neg m t v) (neg t e) (λ c. rw (constant_lem e c) refl)
            p.finite tt (rw p.evaluates (alike weak _ _ (eval_neg-Same m t v p.value p.alike)))

      pub is_null_lem :
          (negate : Bool)
          → Follows
              (Stands m fns row weak)
              (ok (eval_is_null negate v))
              (fold_if m fns (is_const e) (is_null e negate))
      unfolding eval_bound
      is_null_lem negate =
          if_lem weak (is_const e) (ok (eval_is_null negate v)) (is_null e negate)
            (λ c. rw (constant_lem e c) refl) p.finite tt
            (rw p.evaluates (
              alike weak (ok (eval_is_null negate v)) _ (
                eval_is_null negate p.value,
                refl,
                inr (eval_is_null-Same negate v p.value p.alike),
              )))

      pub cast_lem :
          (t : TypeAttr) (limit scale : ℕ)
          → Follows
              (Stands m fns row weak)
              (eval_cast m t limit scale v)
              (fold_if m fns (is_const e) (cast t limit scale e))
      unfolding eval_bound
      cast_lem t limit scale =
          if_lem weak (is_const e) (eval_cast m t limit scale v) (cast t limit scale e)
            (λ c. rw (constant_lem e c) refl) p.finite tt
            (rw p.evaluates (alike weak _ _ (eval_cast-Same m t limit scale v p.value p.alike)))

    -- The folded arguments stand for the values of the arguments.
    pub record StandsArgs (vs : List Value) (es : Args) : Type 0 where
      pub values : List Value
      pub evaluates : eval_args m fns row es ≡ ok values
      pub alike : SameAll vs values
      pub all_finite : FiniteArgs es

    pub cons-StandsArgs :
        (v : Value) (vs : List Value) (e : BoundExpr) (es : Args)
        → Stands m fns row false v e
        → StandsArgs vs es
        → StandsArgs (v ∷ vs) (cons e es)
    unfolding eval_bound
    cons-StandsArgs v vs e es p q = record {
      values = p.value ∷ q.values;
      evaluates = rw (p.evaluates, q.evaluates) refl;
      alike = (p.alike, q.alike);
      all_finite = (p.finite, q.all_finite);
    }

    args_constant :
        (es : Args) → all_const es ≡ true → eval_args m fns none es ≡ eval_args m fns row es
    unfolding eval_bound
    args_constant nil h = refl
    args_constant (cons e es) h =
        rw (constant_lem e (&&_left _ _ h), args_constant es (&&_right (is_const e) _ h)) refl

    pub func_call_lem :
        (weak : Bool) (same : BuiltinsSame fns) (func : ℕ) (strict : Bool) (t : TypeAttr)
        (vs : List Value) (es : Args)
        → StandsArgs vs es
        → Follows
            (Stands m fns row weak)
            (eval_func_call fns func strict t vs)
            (fold_if m fns (all_const es) (func_call func strict t es))
    unfolding eval_bound
    func_call_lem weak same func strict t vs es p =
        if_lem weak (all_const es) (eval_func_call fns func strict t vs)
          (func_call func strict t es) (λ c. rw (args_constant es c) refl) p.all_finite tt
          (rw p.evaluates
            (alike weak _ _ (func_call-Same fns same func strict t vs p.values p.alike)))
