-- ===== src/Storage/Types.antt =====
-- storage/types.h: type attributes, column definitions and row values.
-- A `float` and a `double` are their IEEE 754 bit patterns, numbers below 2^32 and 2^64; a string
-- is its bytes; `int64_t` and the 256-bit integer of a numeric are integers, whose range is stated
-- where it matters.
use my_simple_db.Prelude.{ℕ, ◌^◌, ◌&&◌, Bool, List, ◌==◌}
use my_simple_db.Prelude.Int.{ℤ}

pub data Family : Type 0 where
  none num text bool : Family

pub data Rep : Type 0 where
  none int64 float double str bool dec : Rep

pub data Store : Type 0 where
  none fixed char_pad var_len decimal : Store

-- the underlying values of the three enums
abbrev pub family_code : Family → ℕ
family_code Family.none = 0
family_code Family.num = 1
family_code Family.text = 2
family_code Family.bool = 3

abbrev pub rep_code : Rep → ℕ
rep_code Rep.none = 0
rep_code Rep.int64 = 1
rep_code Rep.float = 2
rep_code Rep.double = 3
rep_code Rep.str = 4
rep_code Rep.bool = 5
rep_code Rep.dec = 6

abbrev pub store_code : Store → ℕ
store_code Store.none = 0
store_code Store.fixed = 1
store_code Store.char_pad = 2
store_code Store.var_len = 3
store_code Store.decimal = 4

abbrev pub rep_eq : Rep → Rep → Bool
rep_eq a b = rep_code a == rep_code b

abbrev pub store_eq : Store → Store → Bool
store_eq a b = store_code a == store_code b

abbrev pub family_eq : Family → Family → Bool
family_eq a b = family_code a == family_code b

pub record TypeAttr : Type 0 where
  pub id : ℕ
  pub family : Family
  pub rank : ℕ
  pub rep : Rep
  pub store : Store
  pub width : ℕ

-- the default `operator==`
unfoldable pub attr_eq : TypeAttr → TypeAttr → Bool
attr_eq a b =
    a.id == b.id
    && (family_eq a.family b.family
        && (a.rank == b.rank
            && (rep_eq a.rep b.rep && (store_eq a.store b.store && a.width == b.width))))

abbrev pub attr : ℕ → Family → ℕ → Rep → Store → ℕ → TypeAttr
attr i f k r s w = record { id = i; family = f; rank = k; rep = r; store = s; width = w }

-- the default attribute: no type
abbrev pub no_type : TypeAttr
no_type = attr 0 Family.none 0 Rep.none Store.none 0

abbrev pub k_int : TypeAttr
k_int = attr 1 Family.num 1 Rep.int64 Store.fixed 4

abbrev pub k_bigint : TypeAttr
k_bigint = attr 2 Family.num 2 Rep.int64 Store.fixed 8

abbrev pub k_double : TypeAttr
k_double = attr 3 Family.num 5 Rep.double Store.fixed 8

abbrev pub k_var_char : TypeAttr
k_var_char = attr 4 Family.text 0 Rep.str Store.var_len 0

abbrev pub k_float : TypeAttr
k_float = attr 5 Family.num 4 Rep.float Store.fixed 4

abbrev pub k_char : TypeAttr
k_char = attr 6 Family.text 0 Rep.str Store.char_pad 0

abbrev pub k_bool : TypeAttr
k_bool = attr 7 Family.bool 0 Rep.bool Store.fixed 1

abbrev pub k_numeric : TypeAttr
k_numeric = attr 8 Family.num 3 Rep.dec Store.decimal 0

-- `name` is not read by the code that is modelled here
pub record ColumnSpec : Type 0 where
  pub type : TypeAttr
  pub length : ℕ
  pub not_null : Bool
  pub scale : ℕ

-- kNumericUnscaledMax
abbrev pub numeric_unscaled_max : ℕ
numeric_unscaled_max = 10 ^ 38

pub record DecimalVal : Type 0 where
  pub unscaled : ℤ
  pub scale : ℕ

-- the alternatives of the variant
pub data Box : Type 0 where
  null : Box
  bool : Bool → Box
  i64 : ℤ → Box
  double float : ℕ → Box
  str : List ℕ → Box
  dec : DecimalVal → Box

pub record Value : Type 0 where
  pub type : TypeAttr
  pub box : Box

abbrev pub int_val : TypeAttr → ℤ → Value
int_val t v = record { type = t; box = Box.i64 v }

abbrev pub float_val : TypeAttr → ℕ → Value
float_val t v = record { type = t; box = Box.float v }

abbrev pub double_val : TypeAttr → ℕ → Value
double_val t v = record { type = t; box = Box.double v }

abbrev pub str_val : TypeAttr → List ℕ → Value
str_val t v = record { type = t; box = Box.str v }

abbrev pub bool_val : TypeAttr → Bool → Value
bool_val t v = record { type = t; box = Box.bool v }

abbrev pub numeric_val : TypeAttr → ℤ → ℕ → Value
numeric_val t u s = record { type = t; box = Box.dec (record { unscaled = u; scale = s }) }

abbrev pub null_val : Value
null_val = record { type = no_type; box = Box.null }

abbrev pub typed_null : TypeAttr → Value
typed_null t = record { type = t; box = Box.null }

abbrev pub box_is_null : Box → Bool
box_is_null Box.null = Bool.true
box_is_null _ = Bool.false

abbrev pub value_is_null : Value → Bool
value_is_null v = box_is_null v.box
