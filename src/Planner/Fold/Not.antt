-- ===== src/Planner/Fold/Not.antt =====
-- planner/bool_simplify.cpp: the comparison of an expression with itself in a weak context
-- (simplify_cmp), and simplify_not.
use Prim.Native.Nat.{Ordering}
use my_simple_db.Prelude.{
  ℕ, ◌≡◌, refl, sym, ◌∙◌, true, false, not, Bool, ◌||◌, List, Option, inl, inr, Bool-cases,
  if◌then◌else◌, arith,
}
use my_simple_db.Common.{
  Result, ok, err, exit, ◌>>=◌, >>=-eq-ok, Ensures, Ensures-ok, Follows, Follows-ok, Follows-weaken,
}
use my_simple_db.Storage.Types.{TypeAttr, Box, Value, value_is_null, null_val, bool_val, k_bool}
use my_simple_db.Storage.Fpu.{Platform, IsIeee}
use my_simple_db.Expr.Bound.{BoundExpr, CmpOp, cmp, is_null}
use my_simple_db.Expr.Compare.{value_cmp}
use my_simple_db.Expr.Compare.Laws.{value_cmp_self}
use my_simple_db.Expr.Eval.{
  Builtins, eval_bound, eval_compare, eval_not, eval_is_null, holds, matches,
}
use my_simple_db.Expr.Eval.Finite.{FiniteConsts, BuiltinsFinite, RowFinite}
use my_simple_db.Expr.Eval.Same.{Same, eval_not-Same, Follows-refl}
use my_simple_db.Planner.Simplify.{
  negate_cmp, keeps_equal, const_of, expr_equal, simplify_cmp, simplify_not,
}
use my_simple_db.Planner.Simplify.Equal.{Exact, expr_equal_sound}
use my_simple_db.Planner.Fold.{is_const, fold_not, fold_cmp, again_cmp}
use my_simple_db.Planner.Fold.Relate.{
  Alike, Alike-of_Same, Same-trans, IsBoolean, IsBoolean-Same, NotTyped, Stands, Stands-trans,
  const-Stands, keep_lem, whole_lem,
}
use my_simple_db.Planner.Fold.Nodes.{
  constant_lem, binary_lem, cmp-Follows, compare_null, cmp_constant,
}

ok_injective : {v w : Value} → ok v ≡ ok w → v ≡ w
ok_injective h = cc

not_not : (b : Bool) → not (not b) ≡ b
not_not b = ground arith

-- The two sides of a comparison have no negative zeros and no casts to a declared scale.
abbrev pub ExactSides : (ℕ → Bool) → BoundExpr → Type 0
ExactSides strict_of (cmp op l r) = Exact strict_of l × Exact strict_of r
ExactSides strict_of _ = Unit

-- A condition that only a weak context needs.
abbrev pub WeakOnly : Bool → Type 0 → Type 0
WeakOnly true P = P
WeakOnly false P = Unit

Follows-trans : (r s t : Result Value) → Follows Same r s → Follows Same s t → Follows Same r t
Follows-trans (ok u) s t h k =
    let (w, e, a) = Follows-ok Same s t k h.1 in (w, e, Same-trans u h.0 w h.2 a)
Follows-trans (err c) s t h k = tt
Follows-trans exit s t h k = tt

abbrev self : CmpOp → Value → Value
self op v =
    if keeps_equal op then bool_val k_bool (not (value_is_null v)) else bool_val k_bool false

holds_self : (op : CmpOp) → holds op Ordering.eq ≡ keeps_equal op
holds_self op = ground arith

compare_eq :
    (op : CmpOp) (r : Result Ordering) (w : Value)
    → ((o : Ordering) → r ≡ ok o → o ≡ Ordering.eq)
    → (r >>= λ c. ok (bool_val k_bool (holds op c))) ≡ ok w
    → w ≡ bool_val k_bool (keeps_equal op)
compare_eq op (ok o) w f h =
    let e : bool_val k_bool (holds op o) ≡ w = cc in sym e ∙ rw (f o refl, holds_self op) refl
compare_eq op (err c) w f h = cc
compare_eq op exit w f h = cc

matches-self :
    (op : CmpOp) (v : Value)
    → value_is_null v ≡ false
    → matches (bool_val k_bool (keeps_equal op)) ≡ matches (self op v)
unfolding matches
matches-self op v n = ground arith

matches-self_null :
    (op : CmpOp) (v : Value) → value_is_null v ≡ true → matches null_val ≡ matches (self op v)
unfolding matches
matches-self_null op v n = ground arith

holds-negate_cmp : (op : CmpOp) (c : Ordering) → holds (negate_cmp op) c ≡ not (holds op c)
holds-negate_cmp op c = ground arith

negated :
    (op : CmpOp) (r : Result Ordering) (w : Value)
    → (r >>= λ c. ok (bool_val k_bool (holds op c))) ≡ ok w
    → (r >>= λ c. ok (bool_val k_bool (holds (negate_cmp op) c))) ≡ eval_not w
unfolding eval_not
negated op (ok c) w h =
    let e : bool_val k_bool (holds op c) ≡ w = cc in rw (← e, holds-negate_cmp op c) refl
negated op (err c) w h = cc
negated op exit w h = cc

not-is_null :
    (negate : Bool) (u : Value)
    → eval_not (eval_is_null negate u) ≡ ok (eval_is_null (not negate) u)
unfolding eval_not eval_is_null
not-is_null negate u = ground arith

-- A NOT of a NOT is the operand, if that is boolean.
double_not :
    (t : TypeAttr) (b : Box) (w : Value)
    → IsBoolean (record { type = t; box = b })
    → eval_not (record { type = t; box = b }) ≡ ok w
    → Follows Same (eval_not w) (ok (record { type = t; box = b }))
unfolding eval_not
double_not t Box.null w h e =
    let k : record { type = t; box = Box.null } ≡ w = cc in
    rw (← k) (record { type = t; box = Box.null }, refl, inr refl)
double_not t (Box.bool b) w h e =
    let k : bool_val k_bool (not b) ≡ w = cc in
    rw (← k) (
      record { type = t; box = Box.bool b },
      refl,
      inr (λ i. record { type = sym (h refl) i; box = Box.bool (not_not b i) }),
    )
double_not t _ w h e = cc

module _ (m : Platform) (fns : Builtins) (row : Option (List Value)) where
  -- A value compared with itself passes WHERE exactly when the operator admits equality and the
  -- value is not NULL.
  compare_self :
      (ieee : IsIeee m) (op : CmpOp) (v w : Value)
      → eval_compare m op v v ≡ ok w
      → matches w ≡ matches (self op v)
  unfolding eval_compare
  compare_self ieee op v w h = elim (Bool-cases (value_is_null v)) [
    | inl n ↦
        let e : null_val ≡ w = ok_injective (rw (n) at h) in rw (← e) (matches-self_null op v n)
    | inr n ↦
        let e = compare_eq op (value_cmp m v v) w (value_cmp_self m ieee v) (rw n at h) in
        rw e (matches-self op v n)
  ]

  negate_lem :
      (op : CmpOp) (l r w : Value)
      → eval_compare m op l r ≡ ok w
      → eval_compare m (negate_cmp op) l r ≡ eval_not w
  unfolding eval_compare
  negate_lem op l r w h = elim (Bool-cases (value_is_null l || value_is_null r)) [
    | inl n ↦
        let e : null_val ≡ w = ok_injective (rw n at h) in rw (n, ← e) (unfold eval_not in refl)
    | inr n ↦ rw n (negated op (value_cmp m l r) w (rw n at h))
  ]

  -- simplify_not keeps the value of the NOT of a value.
  simplify_not-Same :
      (e : BoundExpr) (w : Value)
      → eval_bound m fns row e ≡ ok w
      → NotTyped m fns row e
      → Follows Same (eval_not w) (eval_bound m fns row (simplify_not e))
  unfolding simplify_not eval_bound
  simplify_not-Same (BoundExpr.not e) w h t =
      let (u, hu, hw) = >>=-eq-ok (eval_bound m fns row e) _ h in
      rw hu (double_not u.type u.box w (Ensures-ok IsBoolean (eval_bound m fns row e) t.0 hu) hw)
  simplify_not-Same (cmp op l r) w h t =
      let (lv, hl, h1) = >>=-eq-ok (eval_bound m fns row l) _ h in
      let (rv, hr, h2) = >>=-eq-ok (eval_bound m fns row r) _ h1 in
      rw (hl, hr, negate_lem op lv rv w h2) (Follows-refl (eval_not w))
  simplify_not-Same (is_null e negate) w h t =
      let (u, hu, hw) = >>=-eq-ok (eval_bound m fns row e) _ h in
      let k : eval_is_null negate u ≡ w = ok_injective hw in
      rw (hu, ← k, not-is_null negate u) (Follows-refl (ok (eval_is_null (not negate) u)))
  simplify_not-Same e w h t = rw h (Follows-refl (eval_not w))

  simplify_not-FiniteConsts : (e : BoundExpr) → FiniteConsts e → FiniteConsts (simplify_not e)
  unfolding simplify_not
  simplify_not-FiniteConsts (BoundExpr.not e) f = f
  simplify_not-FiniteConsts (cmp op l r) f = f
  simplify_not-FiniteConsts (is_null e negate) f = f
  simplify_not-FiniteConsts _ f = f

  simplify_not-NotTyped :
      (e : BoundExpr)
      → Ensures IsBoolean (eval_bound m fns row e)
      → NotTyped m fns row e
      → NotTyped m fns row (simplify_not e)
  unfolding simplify_not
  simplify_not-NotTyped (BoundExpr.not e) b t = t.1
  simplify_not-NotTyped (cmp op l r) b t = tt
  simplify_not-NotTyped (is_null e negate) b t = tt
  simplify_not-NotTyped _ b t = (b, t)

  -- simplify_cmp in a weak context.
  self-Stands :
      (op : CmpOp) (l : BoundExpr) (v : Value)
      → eval_bound m fns row l ≡ ok v
      → FiniteConsts l
      → Stands m fns row true
          (self op v)
          (if keeps_equal op then is_null l true else const_of false)
  unfolding eval_bound
  self-Stands op l v h f = elim (Bool-cases (keeps_equal op)) [
    | inl k ↦ rw k (record {
      value = eval_is_null true v;
      evaluates = rw h refl;
      alike = unfold eval_is_null in refl;
      finite = f;
      typed = tt;
    })
    | inr k ↦ rw k (const-Stands m fns row true _ _ tt refl)
  ]

  again_typed : (op : CmpOp) (l r : BoundExpr) → NotTyped m fns row (cmp op l r)
  again_typed op l r = tt

  again_if :
      (weak : Bool) (op : CmpOp) (l r : BoundExpr) (x : Result Value)
      → Follows (Stands m fns row weak) x (ok (again_cmp m weak (cmp op l r)))
      → Follows
          (Stands m fns row weak)
          x
          (if weak then ok (simplify_cmp m op l r) else ok (cmp op l r))
  again_if true op l r x h = h
  again_if false op l r x h = h

  module _ (ieee : IsIeee m) (strict_of : ℕ → Bool) where
    follow_self :
        (x : Result Value) (op : CmpOp) (l : BoundExpr)
        → FiniteConsts l
        → Follows (Alike true) x (eval_bound m fns row (cmp op l l))
        → Follows
            (Stands m fns row true)
            x
            (ok (if keeps_equal op then is_null l true else const_of false))
    unfolding eval_bound
    follow_self (ok v) op l f h =
        let (w, e, a) = h in
        let (u, hu, hw) = >>=-eq-ok (eval_bound m fns row l) _ e in
        let c = compare_self ieee op u w (rw hu at hw) in
        (_, refl, Stands-trans m fns row true v (self op u) _ (a ∙ c) (self-Stands op l u hu f))
    follow_self (err c) op l f h = tt
    follow_self exit op l f h = tt

    simplify_cmp-Stands :
        (x : Result Value) (op : CmpOp) (l r : BoundExpr)
        → FiniteConsts (cmp op l r)
        → ExactSides strict_of (cmp op l r)
        → Follows (Alike true) x (eval_bound m fns row (cmp op l r))
        → Follows (Stands m fns row true) x (ok (simplify_cmp m op l r))
    unfolding simplify_cmp
    simplify_cmp-Stands x op l r f s h = elim (Bool-cases (expr_equal m l r)) [
      | inl e ↦
          let same = expr_equal_sound m strict_of l r ieee s.0 s.1 e in
          rw e (follow_self x op l f.0 (rw (← same) at h))
      | inr e ↦ rw e (keep_lem m fns row true x (cmp op l r) f tt h)
    ]

    -- A comparison that a weak context looks at again, and any other expression.
    again_cmp-Stands :
        (weak : Bool) (x : Result Value) (e : BoundExpr)
        → FiniteConsts e
        → NotTyped m fns row e
        → WeakOnly weak (ExactSides strict_of e)
        → Follows (Alike weak) x (eval_bound m fns row e)
        → Follows (Stands m fns row weak) x (ok (again_cmp m weak e))
    again_cmp-Stands false x e f t s h = keep_lem m fns row false x e f t h
    again_cmp-Stands true x (cmp op l r) f t s h = simplify_cmp-Stands x op l r f s h
    again_cmp-Stands true x e f t s h = keep_lem m fns row true x e f t h

    module _ (builtins : BuiltinsFinite fns) (finite : RowFinite row) (weak : Bool) where
      pub cmp_lem :
          (op : CmpOp) (lv rv : Value) (l r : BoundExpr)
          → Stands m fns row false lv l
          → Stands m fns row false rv r
          → WeakOnly weak (Exact strict_of l × Exact strict_of r)
          → Follows (Stands m fns row weak) (eval_compare m op lv rv) (fold_cmp m fns weak op l r)
      unfolding fold_cmp
      cmp_lem op lv rv l r p q s =
          let x = eval_compare m op lv rv in
          let f : FiniteConsts (cmp op l r) = (p.finite, q.finite) in
          let h = cmp-Follows m fns row ieee builtins finite weak lv rv l r p q op in
          binary_lem m fns row ieee builtins finite weak x l r (cmp op l r) _
            (cmp_constant m fns row ieee builtins finite op l r)
            (compare_null m fns row ieee builtins finite weak lv rv l r p q op) f h
            (again_if weak op l r x
              (again_cmp-Stands weak x (cmp op l r) f (again_typed op l r) s h))

      pub not_lem :
          (v : Value) (e : BoundExpr)
          → Stands m fns row false v e
          → IsBoolean v
          → WeakOnly weak (ExactSides strict_of (simplify_not e))
          → Follows (Stands m fns row weak) (eval_not v) (fold_not m fns weak e)
      unfolding fold_not eval_bound
      not_lem v e p b s =
          let x = eval_not v in
          let bw : IsBoolean p.value = IsBoolean-Same v p.value p.alike b in
          let be : Ensures IsBoolean (eval_bound m fns row e) = rw p.evaluates bw in
          elim (Bool-cases (is_const e)) [
            | inl c ↦ rw c (
                whole_lem m fns row ieee builtins finite weak x (BoundExpr.not e)
                  (rw (constant_lem m fns row e c) refl) p.finite
                  (rw p.evaluates (
                    Follows-weaken Same (Alike weak) x _ (Alike-of_Same weak)
                      (eval_not-Same v p.value p.alike))))
            | inr c ↦ rw c (
                again_cmp-Stands weak x (simplify_not e) (simplify_not-FiniteConsts e p.finite)
                  (simplify_not-NotTyped e be p.typed) s
                  (Follows-weaken Same (Alike weak) x _ (Alike-of_Same weak) (
                    Follows-trans x _ _ (eval_not-Same v p.value p.alike)
                      (simplify_not-Same e p.value p.evaluates p.typed))))
          ]
