-- ===== src/Planner/Simplify/Equal.antt =====
-- planner/bool_simplify.cpp: expr_equal and the equality of two expression trees.
use my_simple_db.Prelude.{
  ℕ, ◌≡◌, ◌≢◌, ◌^◌, refl, sym, ◌∙◌, ap, ap₂, true, Bool, List, [], ◌∷◌, ◌==◌, arith, &&_left,
  &&_right, ==_iff,
}
use my_simple_db.Prelude.Int.{ℤ, pos, negsuc, eqb_ℤ}
use my_simple_db.Storage.Types.{
  TypeAttr, Family, Rep, Store, Box, Value, attr_eq, rep_eq, store_eq, family_eq,
}
use my_simple_db.Storage.Fpu.{Platform, IsIeee}
use my_simple_db.Storage.Cast.Convert.{same_text}
use my_simple_db.Expr.Numeric.{ArithOp}
use my_simple_db.Expr.Bound.{
  BoundExpr, Args, CmpOp, LogicOp, const, col_ref, neg, cmp, logic, is_null, func_call, cast, nil,
  cons,
}
use my_simple_db.Planner.Simplify.{
  cmp_code, logic_code, arith_code, bool_eq, box_equal, value_equal, expr_equal, args_equal,
}

rep_eq_sound : (a b : Rep) → rep_eq a b ≡ true → a ≡ b
rep_eq_sound a b h = ground arith

store_eq_sound : (a b : Store) → store_eq a b ≡ true → a ≡ b
store_eq_sound a b h = ground arith

family_eq_sound : (a b : Family) → family_eq a b ≡ true → a ≡ b
family_eq_sound a b h = ground arith

attr_eq_sound : (a b : TypeAttr) → attr_eq a b ≡ true → a ≡ b
unfolding attr_eq
attr_eq_sound a b h =
    let h1 = &&_right (a.id == b.id) _ h in
    let h2 = &&_right (family_eq a.family b.family) _ h1 in
    let h3 = &&_right (a.rank == b.rank) _ h2 in
    let h4 = &&_right (rep_eq a.rep b.rep) _ h3 in
    let e0 = (==_iff a.id b.id).0 (&&_left _ _ h) in
    let e1 = family_eq_sound a.family b.family (&&_left _ _ h1) in
    let e2 = (==_iff a.rank b.rank).0 (&&_left _ _ h2) in
    let e3 = rep_eq_sound a.rep b.rep (&&_left _ _ h3) in
    let e4 = store_eq_sound a.store b.store (&&_left _ _ h4) in
    let e5 = (==_iff a.width b.width).0 (&&_right (store_eq a.store b.store) _ h4) in
    λ i. record { id = e0 i; family = e1 i; rank = e2 i; rep = e3 i; store = e4 i; width = e5 i }

eqb_ℤ_sound : (a b : ℤ) → eqb_ℤ a b ≡ true → a ≡ b
eqb_ℤ_sound (pos a) (pos b) h = ground arith
eqb_ℤ_sound (pos a) (negsuc b) h = ground arith
eqb_ℤ_sound (negsuc a) (pos b) h = ground arith
eqb_ℤ_sound (negsuc a) (negsuc b) h = ground arith

same_text_sound : (s t : List ℕ) → same_text s t ≡ true → s ≡ t
same_text_sound [] [] h = refl
same_text_sound [] (d ∷ t) h = cc
same_text_sound (c ∷ s) [] h = cc
same_text_sound (c ∷ s) (d ∷ t) h =
    ap₂ (λ x y. x ∷ y) ((==_iff c d).0 (&&_left _ _ h))
      (same_text_sound s t (&&_right (c == d) _ h))

-- A box that holds no negative zero.
abbrev pub ExactBox : Box → Type 0
ExactBox (Box.double d) = d ≢ 2 ^ 63
ExactBox (Box.float f) = f ≢ 2 ^ 31
ExactBox _ = Unit

-- The strictness that the function table gives an overload.
module _ (strict_of : ℕ → Bool) where
  abbrev mutual
    pub Exact : BoundExpr → Type 0
    Exact (const v) = ExactBox v.box
    Exact (col_ref i t) = Unit
    Exact (BoundExpr.arith op t l r) = Exact l × Exact r
    Exact (neg t e) = Exact e
    Exact (cmp op l r) = Exact l × Exact r
    Exact (logic op l r) = Exact l × Exact r
    Exact (BoundExpr.not e) = Exact e
    Exact (is_null e negate) = Exact e
    Exact (func_call func strict t args) = (strict ≡ strict_of func) × ExactArgs args
    Exact (cast t limit scale e) = (scale ≡ 0) × Exact e

    pub ExactArgs : Args → Type 0
    ExactArgs nil = Unit
    ExactArgs (cons e es) = Exact e × ExactArgs es

cmp_code_sound : (a b : CmpOp) → (cmp_code a == cmp_code b) ≡ true → a ≡ b
cmp_code_sound a b h = ground arith

logic_code_sound : (a b : LogicOp) → (logic_code a == logic_code b) ≡ true → a ≡ b
logic_code_sound a b h = ground arith

arith_code_sound : (a b : ArithOp) → (arith_code a == arith_code b) ≡ true → a ≡ b
arith_code_sound a b h = ground arith

bool_eq_sound : (a b : Bool) → bool_eq a b ≡ true → a ≡ b
bool_eq_sound a b h = ground arith

module _ (m : Platform) (ieee : IsIeee m) where
  box_equal_sound : (a b : Box) → ExactBox a → ExactBox b → box_equal m a b ≡ true → a ≡ b
  unfolding box_equal
  box_equal_sound Box.null Box.null p q h = refl
  box_equal_sound (Box.bool a) (Box.bool b) p q h = ap Box.bool (bool_eq_sound a b h)
  box_equal_sound (Box.i64 a) (Box.i64 b) p q h = ap Box.i64 (eqb_ℤ_sound a b h)
  box_equal_sound (Box.double a) (Box.double b) p q h = ap Box.double (ieee.eq64_exact a b h p q)
  box_equal_sound (Box.float a) (Box.float b) p q h = ap Box.float (ieee.eq32_exact a b h p q)
  box_equal_sound (Box.str a) (Box.str b) p q h = ap Box.str (same_text_sound a b h)
  box_equal_sound (Box.dec a) (Box.dec b) p q h =
      let e = eqb_ℤ_sound a.unscaled b.unscaled (&&_left _ _ h) in
      let f = (==_iff a.scale b.scale).0 (&&_right (eqb_ℤ a.unscaled b.unscaled) _ h) in
      λ i. Box.dec (record { unscaled = e i; scale = f i })
  box_equal_sound _ _ p q h = cc

  value_equal_sound :
      (v w : Value) → ExactBox v.box → ExactBox w.box → value_equal m v w ≡ true → v ≡ w
  unfolding value_equal
  value_equal_sound v w p q h =
      let e = attr_eq_sound v.type w.type (&&_left _ _ h) in
      let f = box_equal_sound v.box w.box p q (&&_right (attr_eq v.type w.type) _ h) in
      λ i. record { type = e i; box = f i }

  module _ (strict_of : ℕ → Bool) where
    mutual
      unfolding expr_equal

      equal_sound :
          (a b : BoundExpr)
          → Exact strict_of a
          → Exact strict_of b
          → expr_equal m a b ≡ true
          → a ≡ b
      equal_sound (const v) (const w) p q h = ap const (value_equal_sound v w p q h)
      equal_sound (const v) _ p q h = cc
      equal_sound (col_ref i t) (col_ref j u) p q h =
          ap₂ col_ref ((==_iff i j).0 (&&_left _ _ h)) (attr_eq_sound t u (&&_right (i == j) _ h))
      equal_sound (col_ref i t) _ p q h = cc
      equal_sound (BoundExpr.arith o t a b) (BoundExpr.arith r u c d) p q h =
          let h1 = &&_right (arith_code o == arith_code r) _ h in
          let h2 = &&_right (attr_eq t u) _ h1 in
          let e = arith_code_sound o r (&&_left _ _ h) in
          let f = attr_eq_sound t u (&&_left _ _ h1) in
          let g = equal_sound a c p.0 q.0 (&&_left _ _ h2) in
          let k = equal_sound b d p.1 q.1 (&&_right (expr_equal m a c) _ h2) in
          λ i. BoundExpr.arith (e i) (f i) (g i) (k i)
      equal_sound (BoundExpr.arith o t a b) _ p q h = cc
      equal_sound (neg t a) (neg u c) p q h =
          ap₂ neg (attr_eq_sound t u (&&_left _ _ h))
            (equal_sound a c p q (&&_right (attr_eq t u) _ h))
      equal_sound (neg t a) _ p q h = cc
      equal_sound (cmp o a b) (cmp r c d) p q h =
          let h1 = &&_right (cmp_code o == cmp_code r) _ h in
          let e = cmp_code_sound o r (&&_left _ _ h) in
          let g = equal_sound a c p.0 q.0 (&&_left _ _ h1) in
          let k = equal_sound b d p.1 q.1 (&&_right (expr_equal m a c) _ h1) in
          λ i. cmp (e i) (g i) (k i)
      equal_sound (cmp o a b) _ p q h = cc
      equal_sound (logic o a b) (logic r c d) p q h =
          let h1 = &&_right (logic_code o == logic_code r) _ h in
          let e = logic_code_sound o r (&&_left _ _ h) in
          let g = equal_sound a c p.0 q.0 (&&_left _ _ h1) in
          let k = equal_sound b d p.1 q.1 (&&_right (expr_equal m a c) _ h1) in
          λ i. logic (e i) (g i) (k i)
      equal_sound (logic o a b) _ p q h = cc
      equal_sound (BoundExpr.not a) (BoundExpr.not c) p q h =
          ap BoundExpr.not (equal_sound a c p q h)
      equal_sound (BoundExpr.not a) _ p q h = cc
      equal_sound (is_null a n) (is_null c k) p q h =
          ap₂ is_null (equal_sound a c p q (&&_right (bool_eq n k) _ h))
            (bool_eq_sound n k (&&_left _ _ h))
      equal_sound (is_null a n) _ p q h = cc
      equal_sound (func_call f s t a) (func_call g r u c) p q h =
          let h1 = &&_right (f == g) _ h in
          let e = (==_iff f g).0 (&&_left _ _ h) in
          let k = attr_eq_sound t u (&&_left _ _ h1) in
          let l = args_sound a c p.1 q.1 (&&_right (attr_eq t u) _ h1) in
          let n : s ≡ r = p.0 ∙ ap strict_of e ∙ sym q.0 in λ i. func_call (e i) (n i) (k i) (l i)
      equal_sound (func_call f s t a) _ p q h = cc
      equal_sound (cast t l s a) (cast u k r c) p q h =
          let h1 = &&_right (attr_eq t u) _ h in
          let e = attr_eq_sound t u (&&_left _ _ h) in
          let f = (==_iff l k).0 (&&_left _ _ h1) in
          let g = equal_sound a c p.1 q.1 (&&_right (l == k) _ h1) in
          let n : s ≡ r = p.0 ∙ sym q.0 in λ i. cast (e i) (f i) (n i) (g i)
      equal_sound (cast t l s a) _ p q h = cc

      args_sound :
          (a b : Args)
          → ExactArgs strict_of a
          → ExactArgs strict_of b
          → args_equal m a b ≡ true
          → a ≡ b
      args_sound nil nil p q h = refl
      args_sound nil (cons c cs) p q h = cc
      args_sound (cons a es) nil p q h = cc
      args_sound (cons a es) (cons c cs) p q h =
          ap₂ cons (equal_sound a c p.0 q.0 (&&_left _ _ h))
            (args_sound es cs p.1 q.1 (&&_right (expr_equal m a c) _ h))

-- What expr_equal finds equal is equal, for two trees without negative zeros and without casts to a
-- declared scale, in which each call has the strictness of its overload.
pub expr_equal_sound :
    (m : Platform) (strict_of : ℕ → Bool) (a b : BoundExpr)
    → IsIeee m
    → Exact strict_of a
    → Exact strict_of b
    → expr_equal m a b ≡ true
    → a ≡ b
expr_equal_sound m strict_of a b ieee = equal_sound m ieee strict_of a b
