-- ===== src/Storage/Cast/Finite.antt =====
-- A conversion of a value whose floats are finite has finite floats.
use my_simple_db.Prelude.{Bool, ◌≡◌, ℕ, true, false, List, Option, none, some, arith, ltb, ◌&&◌}
use my_simple_db.Common.{Ensures, Ensures-bind, Ensures-then, Ensures-if}
use my_simple_db.Storage.Types.{TypeAttr, Rep, Store, Box, Value, store_eq, value_is_null}
use my_simple_db.Storage.Fpu.{Platform, IsIeee, is_finite32, is_finite64}
use my_simple_db.Storage.Cast.Convert.{
  get_i64, get_f32, get_f64, get_bool, get_dec, get_str, text_view, restamp, i64_restamp,
  text_to_text, i64_to_bool, dec_to_bool, text_to_bool, bool_to_text, bool_to_i64, bool_to_dec,
  bool_to_f32, bool_to_f64, i64_to_dec, dec_to_i64, text_to_dec, i64_to_f32, i64_to_f64, f64_to_f32,
  f32_to_f64, i64_to_text, f32_to_text, f64_to_text, f32_to_bool, f64_to_bool, text_to_i64,
  text_to_f64, text_to_f32, f64_to_i64, f32_to_i64, f64_to_dec, f32_to_dec, dec_to_f64, dec_to_f32,
  dec_to_text, narrow_f32, parse_f64, dec_to_f64_raw, is_char, fits_int32, parse_bool,
  dec_round_i64, parse_i64, trunc_to_i64,
}
use my_simple_db.Storage.Cast.Decimal.{parse_decimal_text, decimal_to_text}
use my_simple_db.Storage.Cast.Table.{CastFn, CastMode, cast_entry, cast_value, run_entry}

abbrev pub IsFiniteBox : Box → Type 0
IsFiniteBox (Box.double d) = is_finite64 d ≡ true
IsFiniteBox (Box.float f) = is_finite32 f ≡ true
IsFiniteBox _ = Unit

-- A float or a double is neither an infinity nor a NaN.
abbrev pub IsFinite : Value → Type 0
IsFinite v = IsFiniteBox v.box

abbrev pub Finite64 : ℕ → Type 0
Finite64 x = is_finite64 x ≡ true

abbrev pub Finite32 : ℕ → Type 0
Finite32 x = is_finite32 x ≡ true

pub get_f64-IsFinite :
    (t : TypeAttr) (b : Box)
    → IsFiniteBox b
    → Ensures Finite64 (get_f64 (record { type = t; box = b }))
get_f64-IsFinite t (Box.double d) h = h
get_f64-IsFinite t _ h = tt

pub get_f32-IsFinite :
    (t : TypeAttr) (b : Box)
    → IsFiniteBox b
    → Ensures Finite32 (get_f32 (record { type = t; box = b }))
get_f32-IsFinite t (Box.float d) h = h
get_f32-IsFinite t _ h = tt

module _ (m : Platform) (ieee : IsIeee m) where
  narrow_f32-IsFinite : (d : ℕ) → Finite64 d → Ensures Finite32 (narrow_f32 m d)
  unfolding narrow_f32
  narrow_f32-IsFinite d h = ground arith

  parse_f64-IsFinite : (s : List ℕ) → Ensures Finite64 (parse_f64 m s)
  unfolding parse_f64
  parse_f64-IsFinite s = ground arith

  module _ (v : Value) (to : TypeAttr) where
    f64_to_f32-IsFinite : IsFinite v → Ensures IsFinite (f64_to_f32 m v to)
    unfolding f64_to_f32
    f64_to_f32-IsFinite h =
        Ensures-bind Finite64 IsFinite (get_f64 v) _ (get_f64-IsFinite v.type v.box h) λ d k.
          Ensures-bind Finite32 IsFinite (narrow_f32 m d) _ (narrow_f32-IsFinite d k) λ f l. l

    restamp-IsFinite : IsFinite v → Ensures IsFinite (restamp v to)
    unfolding restamp
    restamp-IsFinite h = h

    i64_restamp-IsFinite : IsFinite v → Ensures IsFinite (i64_restamp v to)
    unfolding i64_restamp
    i64_restamp-IsFinite h =
        Ensures-if IsFinite (ltb to.width v.type.width) _ _
          (λ e.
            Ensures-then IsFinite (get_i64 v) _
              λ i. Ensures-if IsFinite (fits_int32 i) _ _ (λ p. h) (λ p. tt))
          (λ e. h)

    text_to_text-IsFinite : IsFinite v → Ensures IsFinite (text_to_text v to)
    unfolding text_to_text
    text_to_text-IsFinite h =
        Ensures-if IsFinite (is_char v.type && store_eq to.store Store.var_len) _ _
          (λ e. Ensures-then IsFinite (get_str v) _ λ s. tt) (λ e. h)

    i64_to_bool-IsFinite : Ensures IsFinite (i64_to_bool v to)
    unfolding i64_to_bool
    i64_to_bool-IsFinite = Ensures-then IsFinite (get_i64 v) _ λ i. ground arith

    dec_to_bool-IsFinite : Ensures IsFinite (dec_to_bool v to)
    unfolding dec_to_bool
    dec_to_bool-IsFinite = Ensures-then IsFinite (get_dec v) _ λ d. ground arith

    text_to_bool-IsFinite : Ensures IsFinite (text_to_bool v to)
    unfolding text_to_bool
    text_to_bool-IsFinite =
        Ensures-then IsFinite (text_view v) _ λ s. Ensures-then IsFinite (parse_bool s) _ λ b. tt

    bool_to_text-IsFinite : Ensures IsFinite (bool_to_text v to)
    unfolding bool_to_text
    bool_to_text-IsFinite = Ensures-then IsFinite (get_bool v) _ λ b. tt

    bool_to_i64-IsFinite : Ensures IsFinite (bool_to_i64 v to)
    unfolding bool_to_i64
    bool_to_i64-IsFinite = Ensures-then IsFinite (get_bool v) _ λ b. tt

    bool_to_dec-IsFinite : Ensures IsFinite (bool_to_dec v to)
    unfolding bool_to_dec
    bool_to_dec-IsFinite = Ensures-then IsFinite (get_bool v) _ λ b. tt

    bool_to_f32-IsFinite : Ensures IsFinite (bool_to_f32 v to)
    unfolding bool_to_f32
    bool_to_f32-IsFinite = Ensures-then IsFinite (get_bool v) _ λ b. ground arith

    bool_to_f64-IsFinite : Ensures IsFinite (bool_to_f64 v to)
    unfolding bool_to_f64
    bool_to_f64-IsFinite = Ensures-then IsFinite (get_bool v) _ λ b. ground arith

    i64_to_dec-IsFinite : Ensures IsFinite (i64_to_dec v to)
    unfolding i64_to_dec
    i64_to_dec-IsFinite = Ensures-then IsFinite (get_i64 v) _ λ i. tt

    dec_to_i64-IsFinite : Ensures IsFinite (dec_to_i64 v to)
    unfolding dec_to_i64
    dec_to_i64-IsFinite =
        Ensures-then IsFinite (get_dec v) _ λ d. Ensures-then IsFinite (dec_round_i64 d) _ λ i. tt

    text_to_dec-IsFinite : Ensures IsFinite (text_to_dec v to)
    unfolding text_to_dec
    text_to_dec-IsFinite =
        Ensures-then IsFinite (text_view v) _
          λ s. Ensures-then IsFinite (parse_decimal_text s) _ λ d. tt

    i64_to_f32-IsFinite : Ensures IsFinite (i64_to_f32 m v to)
    unfolding i64_to_f32
    i64_to_f32-IsFinite = Ensures-then IsFinite (get_i64 v) _ λ i. ieee.i64_to_32_finite i

    i64_to_f64-IsFinite : Ensures IsFinite (i64_to_f64 m v to)
    unfolding i64_to_f64
    i64_to_f64-IsFinite = Ensures-then IsFinite (get_i64 v) _ λ i. ieee.i64_to_64_finite i

    f32_to_f64-IsFinite : IsFinite v → Ensures IsFinite (f32_to_f64 m v to)
    unfolding f32_to_f64
    f32_to_f64-IsFinite h =
        Ensures-bind Finite32 IsFinite (get_f32 v) _ (get_f32-IsFinite v.type v.box h)
          λ f k. ieee.widen_finite f k

    i64_to_text-IsFinite : Ensures IsFinite (i64_to_text m v to)
    unfolding i64_to_text
    i64_to_text-IsFinite = Ensures-then IsFinite (get_i64 v) _ λ x. tt

    f32_to_text-IsFinite : Ensures IsFinite (f32_to_text m v to)
    unfolding f32_to_text
    f32_to_text-IsFinite = Ensures-then IsFinite (get_f32 v) _ λ x. tt

    f64_to_text-IsFinite : Ensures IsFinite (f64_to_text m v to)
    unfolding f64_to_text
    f64_to_text-IsFinite = Ensures-then IsFinite (get_f64 v) _ λ x. tt

    dec_to_text-IsFinite : Ensures IsFinite (dec_to_text m v to)
    unfolding dec_to_text
    dec_to_text-IsFinite = Ensures-then IsFinite (get_dec v) _ λ x. tt

    f32_to_bool-IsFinite : Ensures IsFinite (f32_to_bool m v to)
    unfolding f32_to_bool
    f32_to_bool-IsFinite = Ensures-then IsFinite (get_f32 v) _ λ x. ground arith

    f64_to_bool-IsFinite : Ensures IsFinite (f64_to_bool m v to)
    unfolding f64_to_bool
    f64_to_bool-IsFinite = Ensures-then IsFinite (get_f64 v) _ λ x. ground arith

    text_to_i64-IsFinite : Ensures IsFinite (text_to_i64 m v to)
    unfolding text_to_i64
    text_to_i64-IsFinite =
        Ensures-then IsFinite (text_view v) _ λ s. Ensures-then IsFinite (parse_i64 m s) _ λ i. tt

    text_to_f64-IsFinite : Ensures IsFinite (text_to_f64 m v to)
    unfolding text_to_f64
    text_to_f64-IsFinite =
        Ensures-then IsFinite (text_view v) _
          λ s. Ensures-bind Finite64 IsFinite (parse_f64 m s) _ (parse_f64-IsFinite s) λ d k. k

    text_to_f32-IsFinite : Ensures IsFinite (text_to_f32 m v to)
    unfolding text_to_f32
    text_to_f32-IsFinite = Ensures-then IsFinite (text_view v) _ λ s.
        Ensures-bind Finite64 IsFinite (parse_f64 m s) _ (parse_f64-IsFinite s) λ d k.
          Ensures-bind Finite32 IsFinite (narrow_f32 m d) _ (narrow_f32-IsFinite d k) λ f l. l

    f64_to_i64-IsFinite : Ensures IsFinite (f64_to_i64 m v to)
    unfolding f64_to_i64
    f64_to_i64-IsFinite =
        Ensures-then IsFinite (get_f64 v) _ λ x. Ensures-then IsFinite (trunc_to_i64 m x) _ λ i. tt

    f32_to_i64-IsFinite : Ensures IsFinite (f32_to_i64 m v to)
    unfolding f32_to_i64
    f32_to_i64-IsFinite =
        Ensures-then IsFinite (get_f32 v) _
          λ x. Ensures-then IsFinite (trunc_to_i64 m (m.widen x)) _ λ i. tt

    f64_to_dec-IsFinite : Ensures IsFinite (f64_to_dec m v to)
    unfolding f64_to_dec
    f64_to_dec-IsFinite =
        Ensures-then IsFinite (get_f64 v) _
          λ x. Ensures-then IsFinite (parse_decimal_text (m.format_64 x)) _ λ d. tt

    f32_to_dec-IsFinite : Ensures IsFinite (f32_to_dec m v to)
    unfolding f32_to_dec
    f32_to_dec-IsFinite =
        Ensures-then IsFinite (get_f32 v) _
          λ x. Ensures-then IsFinite (parse_decimal_text (m.format_32 x)) _ λ d. tt

    dec_to_f64-IsFinite : Ensures IsFinite (dec_to_f64 m v to)
    unfolding dec_to_f64 dec_to_f64_raw
    dec_to_f64-IsFinite = Ensures-then IsFinite (get_dec v) _ λ d.
        Ensures-bind Finite64 IsFinite (dec_to_f64_raw m d) _
          (parse_f64-IsFinite (decimal_to_text m d)) λ d k. k

    dec_to_f32-IsFinite : Ensures IsFinite (dec_to_f32 m v to)
    unfolding dec_to_f32 dec_to_f64_raw
    dec_to_f32-IsFinite = Ensures-then IsFinite (get_dec v) _ λ d.
        Ensures-bind Finite64 IsFinite (dec_to_f64_raw m d) _
          (parse_f64-IsFinite (decimal_to_text m d))
          λ d k.
            Ensures-bind Finite32 IsFinite (narrow_f32 m d) _ (narrow_f32-IsFinite d k) λ f l. l

    -- The entry, if there is one, keeps floats finite.
    abbrev KeepsFinite : Option CastFn → Type 0
    KeepsFinite none = Unit
    KeepsFinite (some f) = IsFinite v → Ensures IsFinite (f v to)

    entry-IsFinite : (a b : Rep) → KeepsFinite (cast_entry m a b).fn
    unfolding cast_entry
    entry-IsFinite Rep.none _ = tt
    entry-IsFinite Rep.int64 Rep.none = tt
    entry-IsFinite Rep.int64 Rep.int64 = i64_restamp-IsFinite
    entry-IsFinite Rep.int64 Rep.float = λ h. i64_to_f32-IsFinite
    entry-IsFinite Rep.int64 Rep.double = λ h. i64_to_f64-IsFinite
    entry-IsFinite Rep.int64 Rep.str = λ h. i64_to_text-IsFinite
    entry-IsFinite Rep.int64 Rep.bool = λ h. i64_to_bool-IsFinite
    entry-IsFinite Rep.int64 Rep.dec = λ h. i64_to_dec-IsFinite
    entry-IsFinite Rep.float Rep.none = tt
    entry-IsFinite Rep.float Rep.int64 = λ h. f32_to_i64-IsFinite
    entry-IsFinite Rep.float Rep.float = restamp-IsFinite
    entry-IsFinite Rep.float Rep.double = f32_to_f64-IsFinite
    entry-IsFinite Rep.float Rep.str = λ h. f32_to_text-IsFinite
    entry-IsFinite Rep.float Rep.bool = λ h. f32_to_bool-IsFinite
    entry-IsFinite Rep.float Rep.dec = λ h. f32_to_dec-IsFinite
    entry-IsFinite Rep.double Rep.none = tt
    entry-IsFinite Rep.double Rep.int64 = λ h. f64_to_i64-IsFinite
    entry-IsFinite Rep.double Rep.float = f64_to_f32-IsFinite
    entry-IsFinite Rep.double Rep.double = restamp-IsFinite
    entry-IsFinite Rep.double Rep.str = λ h. f64_to_text-IsFinite
    entry-IsFinite Rep.double Rep.bool = λ h. f64_to_bool-IsFinite
    entry-IsFinite Rep.double Rep.dec = λ h. f64_to_dec-IsFinite
    entry-IsFinite Rep.str Rep.none = tt
    entry-IsFinite Rep.str Rep.int64 = λ h. text_to_i64-IsFinite
    entry-IsFinite Rep.str Rep.float = λ h. text_to_f32-IsFinite
    entry-IsFinite Rep.str Rep.double = λ h. text_to_f64-IsFinite
    entry-IsFinite Rep.str Rep.str = text_to_text-IsFinite
    entry-IsFinite Rep.str Rep.bool = λ h. text_to_bool-IsFinite
    entry-IsFinite Rep.str Rep.dec = λ h. text_to_dec-IsFinite
    entry-IsFinite Rep.bool Rep.none = tt
    entry-IsFinite Rep.bool Rep.int64 = λ h. bool_to_i64-IsFinite
    entry-IsFinite Rep.bool Rep.float = λ h. bool_to_f32-IsFinite
    entry-IsFinite Rep.bool Rep.double = λ h. bool_to_f64-IsFinite
    entry-IsFinite Rep.bool Rep.str = λ h. bool_to_text-IsFinite
    entry-IsFinite Rep.bool Rep.bool = restamp-IsFinite
    entry-IsFinite Rep.bool Rep.dec = λ h. bool_to_dec-IsFinite
    entry-IsFinite Rep.dec Rep.none = tt
    entry-IsFinite Rep.dec Rep.int64 = λ h. dec_to_i64-IsFinite
    entry-IsFinite Rep.dec Rep.float = λ h. dec_to_f32-IsFinite
    entry-IsFinite Rep.dec Rep.double = λ h. dec_to_f64-IsFinite
    entry-IsFinite Rep.dec Rep.str = λ h. dec_to_text-IsFinite
    entry-IsFinite Rep.dec Rep.bool = λ h. dec_to_bool-IsFinite
    entry-IsFinite Rep.dec Rep.dec = restamp-IsFinite

    run_entry-IsFinite :
        (allowed : Bool) (o : Option CastFn)
        → KeepsFinite o
        → IsFinite v
        → Ensures IsFinite (run_entry allowed o v to)
    run_entry-IsFinite allowed none k h = tt
    run_entry-IsFinite true (some f) k h = k h
    run_entry-IsFinite false (some f) k h = tt

  pub cast_value-IsFinite :
      (v : Value) (to : TypeAttr) (mode : CastMode)
      → IsFinite v
      → Ensures IsFinite (cast_value m v to mode)
  unfolding cast_value
  cast_value-IsFinite v to mode h =
      Ensures-if IsFinite (value_is_null v) _ _ (λ e. tt)
        λ e. run_entry-IsFinite v to _ _ (entry-IsFinite v to v.type.rep to.rep) h
