-- ===== src/Tests/Machine.antt =====
-- A machine for the tests: floats are ordered and compared by their bit patterns, a sign change
-- flips the top bit, and every other operation gives the positive zero.
use my_simple_db.Prelude.{ℕ, ◌+◌, ◌/◌, ◌%◌, ◌^◌, ◌≡◌, refl, ltb, leb, ◌==◌, ==_iff, none, [], arith}
use my_simple_db.Prelude.Int.{pos}
use my_simple_db.Common.{ok}
use my_simple_db.Storage.Types.{null_val}
use my_simple_db.Storage.Fpu.{Platform, IsIeee}
use my_simple_db.Expr.Eval.{Builtins}
use my_simple_db.Expr.Eval.Finite.{BuiltinsFinite}
use my_simple_db.Expr.Eval.Same.{BuiltinsSame}
use mathlib.Core.Logic.{inl}

abbrev pub machine : Platform
machine = record {
  add64 = λ x y. 0;
  sub64 = λ x y. 0;
  mul64 = λ x y. 0;
  div64 = λ x y. 0;
  neg64 = λ x. (x + 2 ^ 63) % 2 ^ 64;
  lt64 = λ x y. ltb x y;
  le64 = λ x y. leb x y;
  eq64 = λ x y. x == y;
  add32 = λ x y. 0;
  sub32 = λ x y. 0;
  mul32 = λ x y. 0;
  div32 = λ x y. 0;
  neg32 = λ x. (x + 2 ^ 31) % 2 ^ 32;
  eq32 = λ x y. x == y;
  widen = λ x. 0;
  narrow = λ x. 0;
  i64_to_64 = λ i. 0;
  i64_to_32 = λ i. 0;
  trunc = λ x. pos 0;
  format_i64 = λ i. [];
  format_64 = λ x. [];
  format_32 = λ x. [];
  format_u256 = λ n. [];
  from_chars_i64 = λ s. none;
  from_chars_64 = λ s. none;
}

flip64 : (x : ℕ) → (x + 2 ^ 63) % 2 ^ 64 / 2 ^ 52 % 2 ^ 11 ≡ x / 2 ^ 52 % 2 ^ 11
flip64 x = omega arith

flip32 : (x : ℕ) → (x + 2 ^ 31) % 2 ^ 32 / 2 ^ 23 % 2 ^ 8 ≡ x / 2 ^ 23 % 2 ^ 8
flip32 x = omega arith

pub machine-IsIeee : IsIeee machine
machine-IsIeee = record {
  neg64_finite = λ x h. rw (flip64 x) h;
  neg32_finite = λ x h. rw (flip32 x) h;
  widen_finite = λ x h. refl;
  i64_to_64_finite = λ i. refl;
  i64_to_32_finite = λ i. refl;
  lt64_irrefl = λ x. ground arith;
  eq64_exact = λ x y h p q. (==_iff x y).0 h;
  eq32_exact = λ x y h p q. (==_iff x y).0 h;
}

-- Every built-in function returns NULL.
abbrev pub null_builtins : Builtins
null_builtins func argv t = ok null_val

pub null_builtins-Finite : BuiltinsFinite null_builtins
null_builtins-Finite = record { at = λ func argv t h. tt }

pub null_builtins-Same : BuiltinsSame null_builtins
null_builtins-Same = record { at = λ func t vs ws h. (null_val, refl, inl (refl, refl)) }
