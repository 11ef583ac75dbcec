-- ===== src/Expr/Eval/Same.antt =====
-- expr/expr_eval.cpp: the operations and the relation of two values that are both NULL, or equal.
use my_simple_db.Prelude.{
  ℕ, ◌≡◌, refl, sym, ◌∙◌, ap, ap₂, true, false, List, [], ◌∷◌, none, some, ◌||◌, ◌⊎◌, inl, inr,
  Bool-cases, Bool, arith,
}
use my_simple_db.Common.{Result, ok, Follows, Follows-eq}
use my_simple_db.Storage.Types.{TypeAttr, Box, Value, value_is_null, box_is_null, null_val}
use my_simple_db.Storage.Fpu.{Platform}
use my_simple_db.Expr.Numeric.{ArithOp}
use my_simple_db.Expr.Bound.{CmpOp, LogicOp}
use my_simple_db.Expr.Eval.{
  Builtins, eval_binary, eval_neg, eval_compare, eval_cast, eval_logic, eval_not, eval_is_null,
  eval_func_call, first_null, matches,
}

abbrev pub IsNull : Value → Type 0
IsNull v = value_is_null v ≡ true

abbrev pub Same : Value → Value → Type 0
Same v w = (IsNull v × IsNull w) ⊎ (v ≡ w)

pub Same-refl : (v : Value) → Same v v
Same-refl v = inr refl

pub Follows-refl : (r : Result Value) → Follows Same r r
Follows-refl r = Follows-eq Same r r Same-refl refl

-- Two results that are both NULL.
both_null :
    (r s : Result Value) (v w : Value)
    → r ≡ ok v
    → s ≡ ok w
    → IsNull v
    → IsNull w
    → Follows Same r s
both_null r s v w e f n k = rw e (w, f, inl (n, k))

or_right : (a b : Bool) → b ≡ true → (a || b) ≡ true
or_right a b h = ground arith

-- A function that is NULL where an argument is.
module _ (g : Value → Value → Result Value) (left : (l r : Value) → IsNull l → g l r ≡ ok null_val)
    (right : (l r : Value) → IsNull r → g l r ≡ ok null_val) where
  absorbing-Same : (l l' r r' : Value) → Same l l' → Same r r' → Follows Same (g l r) (g l' r')
  absorbing-Same l l' r r' (inl p) q =
      both_null _ _ null_val null_val (left l r p.0) (left l' r' p.1) refl refl
  absorbing-Same l l' r r' (inr e) (inl q) =
      both_null _ _ null_val null_val (right l r q.0) (right l' r' q.1) refl refl
  absorbing-Same l l' r r' (inr e) (inr f) = Follows-eq Same _ _ Same-refl (ap₂ g e f)

-- A function that returns a NULL argument as it is.
module _ (g : Value → Result Value) (strict : (v : Value) → IsNull v → g v ≡ ok v) where
  strict-Same : (v w : Value) → Same v w → Follows Same (g v) (g w)
  strict-Same v w (inl p) = both_null _ _ v w (strict v p.0) (strict w p.1) p.0 p.1
  strict-Same v w (inr e) = Follows-eq Same _ _ Same-refl (ap g e)

module _ (m : Platform) where
  pub eval_binary-Same :
      (op : ArithOp) (t : TypeAttr) (l l' r r' : Value)
      → Same l l'
      → Same r r'
      → Follows Same (eval_binary m op t l r) (eval_binary m op t l' r')
  eval_binary-Same op t =
      absorbing-Same (eval_binary m op t) (λ l r n. unfold eval_binary in rw n)
        (λ l r n. unfold eval_binary in rw (or_right (value_is_null l) (value_is_null r) n))

  pub eval_neg-Same :
      (t : TypeAttr) (v w : Value) → Same v w → Follows Same (eval_neg m t v) (eval_neg m t w)
  eval_neg-Same t = strict-Same (eval_neg m t) (λ v n. unfold eval_neg in rw n)

  pub eval_compare-Same :
      (op : CmpOp) (l l' r r' : Value)
      → Same l l'
      → Same r r'
      → Follows Same (eval_compare m op l r) (eval_compare m op l' r')
  eval_compare-Same op =
      absorbing-Same (eval_compare m op) (λ l r n. unfold eval_compare in rw n)
        (λ l r n. unfold eval_compare in rw (or_right (value_is_null l) (value_is_null r) n))

  pub eval_cast-Same :
      (t : TypeAttr) (limit scale : ℕ) (v w : Value)
      → Same v w
      → Follows Same (eval_cast m t limit scale v) (eval_cast m t limit scale w)
  eval_cast-Same t limit scale =
      strict-Same (eval_cast m t limit scale) (λ v n. unfold eval_cast in rw n)

null_box : (b : Box) → box_is_null b ≡ true → b ≡ Box.null
null_box Box.null h = refl
null_box _ h = cc

pub Same-box : (v w : Value) → Same v w → v.box ≡ w.box
Same-box v w (inl p) = null_box v.box p.0 ∙ sym (null_box w.box p.1)
Same-box v w (inr e) = ap (λ (u : Value). u.box) e

logic-box :
    (op : LogicOp) (l l' r r' : Value)
    → l.box ≡ l'.box
    → r.box ≡ r'.box
    → eval_logic op l r ≡ eval_logic op l' r'
unfolding eval_logic
logic-box op l l' r r' e f = rw (e, f)

pub eval_logic-Same :
    (op : LogicOp) (l l' r r' : Value)
    → Same l l'
    → Same r r'
    → eval_logic op l r ≡ eval_logic op l' r'
eval_logic-Same op l l' r r' p q = logic-box op l l' r r' (Same-box l l' p) (Same-box r r' q)

pub eval_not-Same : (v w : Value) → Same v w → Follows Same (eval_not v) (eval_not w)
eval_not-Same = strict-Same eval_not (λ v n. unfold eval_not in rw (null_box v.box n))

pub eval_is_null-Same :
    (negate : Bool) (v w : Value) → Same v w → eval_is_null negate v ≡ eval_is_null negate w
unfolding eval_is_null
eval_is_null-Same negate v w p = rw (Same-box v w p)

pub matches-Same : (v w : Value) → Same v w → matches v ≡ matches w
unfolding matches
matches-Same v w p = rw (Same-box v w p)

-- Argument lists, value by value.
abbrev pub SameAll : List Value → List Value → Type 0
SameAll [] [] = Unit
SameAll (v ∷ vs) (w ∷ ws) = Same v w × SameAll vs ws
SameAll _ _ = ⊥

-- The built-in functions do not tell one NULL from another.
pub record BuiltinsSame (fns : Builtins) : Type 0 where
  pub at :
      (func : ℕ) (t : TypeAttr) (vs ws : List Value)
      → SameAll vs ws
      → Follows Same (fns func vs t) (fns func ws t)

-- Of two such lists either both hold a NULL, or they are equal.
abbrev FirstNulls : List Value → List Value → Type 0
FirstNulls vs ws =
    ((v : Value) × (w : Value) × (first_null vs ≡ some v)
      × (first_null ws ≡ some w)
      × IsNull v
      × IsNull w)
    ⊎ ((first_null vs ≡ none) × (first_null ws ≡ none))

first_nulls : (vs ws : List Value) → SameAll vs ws → FirstNulls vs ws
unfolding first_null
first_nulls [] [] h = inr (refl, refl)
first_nulls [] (w ∷ ws) h = absurd h
first_nulls (v ∷ vs) [] h = absurd h
first_nulls (v ∷ vs) (w ∷ ws) h = elim h.0 [
  | inl p ↦ inl (v, w, rw p.0, rw p.1, p.0, p.1)
  | inr e ↦ elim (Bool-cases (value_is_null v)) [
    | inl n ↦ inl (v, w, rw n, rw (← e, n), n, rw (← e) n)
    | inr n ↦
        let n' : value_is_null w ≡ false = rw (← e) n in
        elim (first_nulls vs ws h.1) [
          | inl q ↦ inl (q.0, q.1, rw n q.2, rw n' q.3, q.4, q.5)
          | inr q ↦ inr (rw n q.0, rw n' q.1)
        ]
  ]
]

module _ (fns : Builtins) (builtins : BuiltinsSame fns) where
  pub func_call-Same :
      (func : ℕ) (strict : Bool) (t : TypeAttr) (vs ws : List Value)
      → SameAll vs ws
      → Follows Same (eval_func_call fns func strict t vs) (eval_func_call fns func strict t ws)
  unfolding eval_func_call
  func_call-Same func false t vs ws h = builtins.at func t vs ws h
  func_call-Same func true t vs ws h = elim (first_nulls vs ws h) [
    | inl q ↦ rw (q.2, q.3) (q.1, refl, inl (q.4, q.5))
    | inr q ↦ rw (q.0, q.1) (builtins.at func t vs ws h)
  ]
