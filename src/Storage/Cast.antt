-- ===== src/Storage/Cast.antt =====
-- storage/cast.cpp: the dispatch table of value conversions, cast_value and coerce_numeric.
pub mod Decimal
pub mod Convert
pub mod Table
pub mod Coerce
pub mod Finite
