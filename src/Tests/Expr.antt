-- ===== src/Tests/Expr.antt =====
-- The evaluator, comparisons and numeric arithmetic.
use Prim.Native.Nat.{Ordering}
use my_simple_db.Prelude.{ℕ, ◌≡◌, ◌*◌, ◌^◌, refl, arith, true, some, [], ◌∷◌}
use my_simple_db.Prelude.Int.{ℤ, pos, negsuc, ◌*ℤ◌}
use my_simple_db.Common.{ok}
use my_simple_db.Storage.Types.{DecimalVal, Value, k_float, k_int, float_val, int_val}
use my_simple_db.Storage.Cast.Convert.{restamp}
use my_simple_db.Storage.Cast.Table.{cast_value, cast_entry}
use my_simple_db.Expr.Numeric.{dec_cmp, dec_div}
use my_simple_db.Expr.Numeric.Order.{dec_cmp_lem, compare_ℤ}
use my_simple_db.Expr.Numeric.Round.{dec_div_lem, rounded}
use my_simple_db.Expr.Bound.{neg, col_ref}
use my_simple_db.Expr.Compare.{value_cmp}
use my_simple_db.Expr.Compare.Laws.{value_cmp_self}
use my_simple_db.Expr.Eval.{eval_bound, eval_neg, neg_value, to_float}
use my_simple_db.Expr.Eval.Finite.{eval_bound-IsFinite}
use my_simple_db.Storage.Cast.Finite.{IsFinite}
use my_simple_db.Tests.Machine.{machine, machine-IsIeee, null_builtins, null_builtins-Finite}

abbrev dec : ℤ → ℕ → DecimalVal
dec u s = record { unscaled = u; scale = s }

-- 1.2 < 1.25
dec_cmp_example :
    dec_cmp (dec (pos 12) 1) (dec (pos 125) 2) ≡ compare_ℤ (pos 12 *ℤ pos 100) (pos 125 *ℤ pos 10)
dec_cmp_example = dec_cmp_lem (dec (pos 12) 1) (dec (pos 125) 2) (omega arith) (omega arith)

-- -2 / 3 at scale 4 is -0.6667
dec_div_example : dec_div (dec (negsuc 1) 0) (dec (pos 3) 0) 4 ≡ rounded true (2 * 10 ^ 4) 3
dec_div_example = dec_div_lem (dec (negsuc 1) 0) (dec (pos 3) 0) 4 (omega arith) (omega arith)

dec_div_run : rounded true (2 * 10 ^ 4) 3 ≡ ok (negsuc 6666)
dec_div_run = refl

-- the float 1.0
abbrev one_float : Value
one_float = float_val k_float 0x3F80_0000

negated_float :
    eval_bound machine null_builtins (some (one_float ∷ [])) (neg k_float (col_ref 0 k_float))
    ≡ ok (float_val k_float 0xBF80_0000)
unfolding eval_bound eval_neg neg_value to_float cast_value cast_entry restamp
negated_float = refl

eval_bound-IsFinite_example : IsFinite (float_val k_float 0xBF80_0000)
eval_bound-IsFinite_example =
    eval_bound-IsFinite machine null_builtins (some (one_float ∷ []))
      (neg k_float (col_ref 0 k_float)) (float_val k_float 0xBF80_0000) machine-IsIeee
      null_builtins-Finite (refl, tt) tt negated_float

self_run : value_cmp machine (int_val k_int (pos 7)) (int_val k_int (pos 7)) ≡ ok Ordering.eq
unfolding value_cmp
self_run = refl

value_cmp_self_example : ◌≡◌ {A = Ordering} Ordering.eq Ordering.eq
value_cmp_self_example =
    value_cmp_self machine machine-IsIeee (int_val k_int (pos 7)) Ordering.eq self_run
