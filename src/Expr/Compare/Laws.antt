-- ===== src/Expr/Compare/Laws.antt =====
-- expr/expr_eval.cpp: value_cmp of a value and itself.
use Prim.Native.Nat.{Ordering}
use my_simple_db.Prelude.{ℕ, ◌-◌, inl, inr, Bool-cases, ◌≡◌, refl, List, [], ◌∷◌, arith}
use my_simple_db.Prelude.Int.{abs}
use my_simple_db.Common.{Result, ok, err, exit, ◌>>=◌}
use my_simple_db.Storage.Types.{TypeAttr, Family, Box, Value, DecimalVal, value_is_null}
use my_simple_db.Storage.Fpu.{Platform, IsIeee}
use my_simple_db.Expr.Numeric.{dec_cmp, cmp_magnitudes, times_ten}
use my_simple_db.Expr.Compare.{
  compare_bytes, box_f64, cmp_promoted, value_cmp, cmp_num, cmp_text, cmp_bool, cmp_families,
  padded, compare_doubles,
}

times_ten_zero : (s u : ℕ) → times_ten (s - s) u ≡ u
unfolding times_ten
times_ten_zero s u = let e : s - s ≡ 0 = omega arith in rw e

dec_cmp_self : (d : DecimalVal) → dec_cmp d d ≡ Ordering.eq
unfolding dec_cmp cmp_magnitudes
dec_cmp_self d = ground (arith, times_ten_zero d.scale (abs d.unscaled))

compare_bytes_self : (s : List ℕ) → compare_bytes s s ≡ Ordering.eq
unfolding compare_bytes
compare_bytes_self [] = refl
compare_bytes_self (c ∷ s) = ground (arith, compare_bytes_self s)

module _ (m : Platform) (ieee : IsIeee m) where
  twice_self :
      (r : Result ℕ) (o : Ordering)
      → (do l ← r; x ← r; ok (compare_doubles m l x)) ≡ ok o
      → o ≡ Ordering.eq
  twice_self (ok l) o h = ground (arith, ieee.lt64_irrefl l)
  twice_self (err e) o h = cc
  twice_self exit o h = cc

  promoted_self : (v : Value) (o : Ordering) → cmp_promoted m v v ≡ ok o → o ≡ Ordering.eq
  unfolding cmp_promoted
  promoted_self v o h = twice_self (box_f64 m v) o h

  num_self : (v : Value) (b : Box) (o : Ordering) → cmp_num m v v b b ≡ ok o → o ≡ Ordering.eq
  num_self v (Box.i64 i) o h = ground arith
  num_self v (Box.dec d) o h = cc (dec_cmp_self d)
  num_self v _ o h = promoted_self v o h

  text_self : (t : TypeAttr) (b : Box) (o : Ordering) → cmp_text t t b b ≡ ok o → o ≡ Ordering.eq
  text_self t (Box.str s) o h = cc (compare_bytes_self (padded t s))
  text_self t _ o h = cc

  bool_self : (b : Box) (o : Ordering) → cmp_bool b b ≡ ok o → o ≡ Ordering.eq
  bool_self (Box.bool b) o h = ground arith
  bool_self _ o h = cc

  families_self :
      (v : Value) (f : Family) (o : Ordering) → cmp_families m v v f f ≡ ok o → o ≡ Ordering.eq
  families_self v Family.num o h = num_self v v.box o h
  families_self v Family.text o h = text_self v.type v.box o h
  families_self v Family.bool o h = bool_self v.box o h
  families_self v Family.none o h = cc

  -- Where value_cmp compares a value with itself without an error, it finds them equal.
  pub value_cmp_self : (v : Value) (o : Ordering) → value_cmp m v v ≡ ok o → o ≡ Ordering.eq
  unfolding value_cmp
  value_cmp_self v o h = elim (Bool-cases (value_is_null v)) [
    | inl null ↦ ground arith
    | inr value ↦ families_self v v.type.family o (rw value at h)
  ]
