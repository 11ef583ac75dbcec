-- ===== src/Storage/Cast/Table.antt =====
-- storage/cast.cpp: the dispatch table kCastTable and cast_value.
use my_simple_db.Prelude.{ℕ, Bool, Option, none, some, ◌&&◌, ltb, if◌then◌else◌}
use my_simple_db.Common.{ErrCode, Result, err}
use my_simple_db.Storage.Types.{TypeAttr, Rep, Value, value_is_null, rep_eq}
use my_simple_db.Storage.Fpu.{Platform}
use my_simple_db.Storage.Cast.Convert.{
  restamp, i64_restamp, text_to_text, i64_to_bool, dec_to_bool, text_to_bool, bool_to_text,
  bool_to_i64, bool_to_dec, bool_to_f32, bool_to_f64, i64_to_dec, dec_to_i64, text_to_dec,
  i64_to_f32, i64_to_f64, f64_to_f32, f32_to_f64, i64_to_text, f32_to_text, f64_to_text,
  f32_to_bool, f64_to_bool, text_to_i64, text_to_f64, text_to_f32, f64_to_i64, f32_to_i64,
  f64_to_dec, f32_to_dec, dec_to_f64, dec_to_f32, dec_to_text,
}

pub data CastMode : Type 0 where
  implicit assignment explicit : CastMode

abbrev pub mode_code : CastMode → ℕ
mode_code CastMode.implicit = 0
mode_code CastMode.assignment = 1
mode_code CastMode.explicit = 2

abbrev pub CastFn : Type 0
CastFn = Value → TypeAttr → Result Value

pub record CastEntry : Type 0 where
  pub fn : Option CastFn
  pub tier : CastMode

abbrev entry : CastMode → CastFn → CastEntry
entry t f = record { fn = some f; tier = t }

abbrev explicit_entry : CastFn → CastEntry
explicit_entry = entry CastMode.explicit

abbrev implicit_entry : CastFn → CastEntry
implicit_entry = entry CastMode.implicit

abbrev no_entry : CastEntry
no_entry = record { fn = none; tier = CastMode.explicit }

unfoldable pub cast_entry : Platform → Rep → Rep → CastEntry
cast_entry m Rep.none _ = no_entry
cast_entry m Rep.int64 Rep.none = no_entry
cast_entry m Rep.int64 Rep.int64 = implicit_entry i64_restamp
cast_entry m Rep.int64 Rep.float = implicit_entry (i64_to_f32 m)
cast_entry m Rep.int64 Rep.double = implicit_entry (i64_to_f64 m)
cast_entry m Rep.int64 Rep.str = explicit_entry (i64_to_text m)
cast_entry m Rep.int64 Rep.bool = explicit_entry i64_to_bool
cast_entry m Rep.int64 Rep.dec = implicit_entry i64_to_dec
cast_entry m Rep.float Rep.none = no_entry
cast_entry m Rep.float Rep.int64 = explicit_entry (f32_to_i64 m)
cast_entry m Rep.float Rep.float = implicit_entry restamp
cast_entry m Rep.float Rep.double = implicit_entry (f32_to_f64 m)
cast_entry m Rep.float Rep.str = explicit_entry (f32_to_text m)
cast_entry m Rep.float Rep.bool = explicit_entry (f32_to_bool m)
cast_entry m Rep.float Rep.dec = explicit_entry (f32_to_dec m)
cast_entry m Rep.double Rep.none = no_entry
cast_entry m Rep.double Rep.int64 = explicit_entry (f64_to_i64 m)
cast_entry m Rep.double Rep.float = entry CastMode.assignment (f64_to_f32 m)
cast_entry m Rep.double Rep.double = implicit_entry restamp
cast_entry m Rep.double Rep.str = explicit_entry (f64_to_text m)
cast_entry m Rep.double Rep.bool = explicit_entry (f64_to_bool m)
cast_entry m Rep.double Rep.dec = explicit_entry (f64_to_dec m)
cast_entry m Rep.str Rep.none = no_entry
cast_entry m Rep.str Rep.int64 = explicit_entry (text_to_i64 m)
cast_entry m Rep.str Rep.float = explicit_entry (text_to_f32 m)
cast_entry m Rep.str Rep.double = explicit_entry (text_to_f64 m)
cast_entry m Rep.str Rep.str = implicit_entry text_to_text
cast_entry m Rep.str Rep.bool = explicit_entry text_to_bool
cast_entry m Rep.str Rep.dec = explicit_entry text_to_dec
cast_entry m Rep.bool Rep.none = no_entry
cast_entry m Rep.bool Rep.int64 = explicit_entry bool_to_i64
cast_entry m Rep.bool Rep.float = explicit_entry bool_to_f32
cast_entry m Rep.bool Rep.double = explicit_entry bool_to_f64
cast_entry m Rep.bool Rep.str = explicit_entry bool_to_text
cast_entry m Rep.bool Rep.bool = implicit_entry restamp
cast_entry m Rep.bool Rep.dec = explicit_entry bool_to_dec
cast_entry m Rep.dec Rep.none = no_entry
cast_entry m Rep.dec Rep.int64 = explicit_entry dec_to_i64
cast_entry m Rep.dec Rep.float = implicit_entry (dec_to_f32 m)
cast_entry m Rep.dec Rep.double = implicit_entry (dec_to_f64 m)
cast_entry m Rep.dec Rep.str = explicit_entry (dec_to_text m)
cast_entry m Rep.dec Rep.bool = explicit_entry dec_to_bool
cast_entry m Rep.dec Rep.dec = implicit_entry restamp

abbrev narrows_int : Value → TypeAttr → Bool
narrows_int v to =
    rep_eq v.type.rep Rep.int64 && rep_eq to.rep Rep.int64 && ltb to.width v.type.width

abbrev pub run_entry : Bool → Option CastFn → Value → TypeAttr → Result Value
run_entry allowed none v to = err ErrCode.internal
run_entry allowed (some f) v to = if allowed then f v to else err ErrCode.internal

abbrev mode_le : CastMode → CastMode → Bool
mode_le a b = if ltb (mode_code b) (mode_code a) then Bool.false else Bool.true

unfoldable pub cast_value : Platform → Value → TypeAttr → CastMode → Result Value
cast_value m v to mode =
    let e = cast_entry m v.type.rep to.rep in
    let tier = if narrows_int v to then CastMode.assignment else e.tier in
    if value_is_null v then err ErrCode.internal else run_entry (mode_le tier mode) e.fn v to
