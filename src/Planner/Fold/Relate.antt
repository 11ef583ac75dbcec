-- ===== src/Planner/Fold/Relate.antt =====
-- The relation between the value of an expression and the expression that folding makes of it.
use my_simple_db.Prelude.{◌≡◌, refl, ◌∙◌, subst, true, false, Bool, List, Option, none, inl, inr}
use my_simple_db.Common.{Result, ok, err, exit, ◌>>=◌, Follows, Ensures}
use my_simple_db.Storage.Types.{Box, Value, TypeAttr, value_is_null, k_bool}
use my_simple_db.Storage.Fpu.{Platform, IsIeee}
use my_simple_db.Storage.Cast.Finite.{IsFinite, IsFiniteBox}
use my_simple_db.Expr.Bound.{BoundExpr, const}
use my_simple_db.Expr.Eval.{Builtins, eval_bound, eval_const, eval_literal, matches}
use my_simple_db.Expr.Eval.Nodes.{FloatIsFinite}
use my_simple_db.Expr.Eval.Finite.{FiniteConsts, BuiltinsFinite, RowFinite, bound-IsFinite}
use my_simple_db.Expr.Eval.Same.{Same, Same-box, matches-Same}
use my_simple_db.Planner.Fold.{fold_whole}

-- In a weak context two values are alike where WHERE takes them alike.
abbrev pub Alike : Bool → Value → Value → Type 0
Alike false v w = Same v w
Alike true v w = matches v ≡ matches w

pub Alike-of_Same : (weak : Bool) (v w : Value) → Same v w → Alike weak v w
Alike-of_Same false v w h = h
Alike-of_Same true v w h = matches-Same v w h

pub Same-trans : (u v w : Value) → Same u v → Same v w → Same u w
Same-trans u v w (inl p) q = inl (p.0, rw (← Same-box v w q) p.1)
Same-trans u v w (inr e) q = rw e q

pub Alike-trans : (weak : Bool) (u v w : Value) → Alike weak u v → Alike weak v w → Alike weak u w
Alike-trans false u v w p q = Same-trans u v w p q
Alike-trans true u v w p q = p ∙ q

-- A value that is not NULL has the type boolean.
abbrev pub IsBoolean : Value → Type 0
IsBoolean v = value_is_null v ≡ false → v.type ≡ k_bool

pub IsBoolean-Same : (v w : Value) → Same v w → IsBoolean v → IsBoolean w
IsBoolean-Same v w (inl p) h = λ n. absurd (cc (p.1, n))
IsBoolean-Same v w (inr e) h = subst IsBoolean e h

literal-finite :
    (t : TypeAttr) (b : Box)
    → IsFiniteBox b
    → eval_literal (record { type = t; box = b }) ≡ ok (record { type = t; box = b })
unfolding eval_literal
literal-finite t (Box.double d) h = rw h
literal-finite t _ h = refl

float-finite : (b : Box) → IsFiniteBox b → FloatIsFinite b
float-finite (Box.float f) h = h
float-finite _ h = tt

module _ (m : Platform) (fns : Builtins) (row : Option (List Value)) where
  -- The operand of each NOT at the top of the tree is boolean.
  abbrev pub NotTyped : BoundExpr → Type 0
  NotTyped (BoundExpr.not e) = Ensures IsBoolean (eval_bound m fns row e) × NotTyped e
  NotTyped _ = Unit

  -- The folded expression e' stands for the value v.
  pub record Stands (weak : Bool) (v : Value) (e' : BoundExpr) : Type 0 where
    pub value : Value
    pub evaluates : eval_bound m fns row e' ≡ ok value
    pub alike : Alike weak v value
    pub finite : FiniteConsts e'
    pub typed : NotTyped e'

  pub Stands-trans :
      (weak : Bool) (u v : Value) (e : BoundExpr)
      → Alike weak u v
      → Stands weak v e
      → Stands weak u e
  Stands-trans weak u v e a s = record {
    value = s.value;
    evaluates = s.evaluates;
    alike = Alike-trans weak u v s.value a s.alike;
    finite = s.finite;
    typed = s.typed;
  }

  -- An expression that is kept as it is.
  pub keep_lem :
      (weak : Bool) (x : Result Value) (e' : BoundExpr)
      → FiniteConsts e'
      → NotTyped e'
      → Follows (Alike weak) x (eval_bound m fns row e')
      → Follows (Stands weak) x (ok e')
  keep_lem weak (ok v) e' f t h =
      (e', refl, record { value = h.0; evaluates = h.1; alike = h.2; finite = f; typed = t })
  keep_lem weak (err c) e' f t h = tt
  keep_lem weak exit e' f t h = tt

  -- A constant that replaces a whole expression.
  pub const-Stands :
      (weak : Bool) (v w : Value) → IsFinite w → Alike weak v w → Stands weak v (const w)
  unfolding eval_bound
  const-Stands weak v w f a = record {
    value = w;
    evaluates = literal-finite w.type w.box f;
    alike = a;
    finite = float-finite w.box f;
    typed = tt;
  }

  module _ (ieee : IsIeee m) (builtins : BuiltinsFinite fns) (finite : RowFinite row) where
    whole_results :
        (weak : Bool) (x y : Result Value)
        → Ensures IsFinite y
        → Follows (Alike weak) x y
        → Follows (Stands weak) x (y >>= λ w. ok (const w))
    whole_results weak (ok v) y f h =
        rw h.1
          (const h.0, refl, const-Stands weak v h.0 (subst (λ r. Ensures IsFinite r) h.1 f) h.2)
    whole_results weak (err c) y f h = tt
    whole_results weak exit y f h = tt

    -- An expression of constants that is evaluated when the plan is made.
    pub whole_lem :
        (weak : Bool) (x : Result Value) (e : BoundExpr)
        → eval_bound m fns none e ≡ eval_bound m fns row e
        → FiniteConsts e
        → Follows (Alike weak) x (eval_bound m fns row e)
        → Follows (Stands weak) x (fold_whole m fns e)
    unfolding fold_whole eval_const
    whole_lem weak x e same f h = rw same (
        whole_results weak x (eval_bound m fns row e)
          (bound-IsFinite m fns row ieee builtins finite e f) h)
