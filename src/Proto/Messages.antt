-- ===== src/Proto/Messages.antt =====
-- proto/proto.h: the bodies of the Ok, Error and Notice frames.
pub mod Laws
use my_simple_db.Prelude.{
  ℕ, zero, suc, ◌+◌, ◌^◌, Bool, true, false, ◌&&◌, ◌||◌, not, Option, none, some, List, [], ◌∷◌,
  ◌++◌, ◌==◌, leb, if◌then◌else◌, length, drop, get_or,
}
use my_simple_db.Common.{ErrCode}
use my_simple_db.Proto.{
  ◌>>=◌, Taken, be_bytes, be_value, append_u16, append_u64, take_u16, take_u64, guard,
}

pub data CommandTag : Type 0 where
  empty create_table drop_table insert delete create_schema drop_schema set : CommandTag
  begin commit rollback create_index drop_index update : CommandTag

abbrev pub tag_code : CommandTag → ℕ
tag_code CommandTag.empty = 0
tag_code CommandTag.create_table = 1
tag_code CommandTag.drop_table = 2
tag_code CommandTag.insert = 3
tag_code CommandTag.delete = 4
tag_code CommandTag.create_schema = 5
tag_code CommandTag.drop_schema = 6
tag_code CommandTag.set = 7
tag_code CommandTag.begin = 8
tag_code CommandTag.commit = 9
tag_code CommandTag.rollback = 10
tag_code CommandTag.create_index = 11
tag_code CommandTag.drop_index = 12
tag_code CommandTag.update = 13

abbrev pub tags : List CommandTag
tags =
    CommandTag.empty ∷ CommandTag.create_table ∷ CommandTag.drop_table ∷ CommandTag.insert
    ∷ CommandTag.delete ∷ CommandTag.create_schema ∷ CommandTag.drop_schema ∷ CommandTag.set
    ∷ CommandTag.begin ∷ CommandTag.commit ∷ CommandTag.rollback ∷ CommandTag.create_index
    ∷ CommandTag.drop_index ∷ CommandTag.update ∷ []

unfoldable pub tag_at : List CommandTag → ℕ → Option CommandTag
tag_at [] n = none
tag_at (tag ∷ rest) zero = some tag
tag_at (tag ∷ rest) (suc n) = tag_at rest n

-- The tag with a code: the cast and the switch.
abbrev pub tag_of : ℕ → Option CommandTag
tag_of n = tag_at tags n

unfoldable pub encode_command : CommandTag → ℕ → List ℕ
encode_command tag count = append_u64 (tag_code tag ∷ []) count

unfoldable pub decode_command : List ℕ → Option (CommandTag × ℕ)
decode_command body =
    guard (length body == 9)
      (do tag ← tag_of (get_or body 0 0); some (tag, be_value 0 (drop 1 body)))

-- A wire code, which the source numbers apart from the error codes of common/err.h, though with the
-- same names.
abbrev pub wire_err_code : ErrCode → ℕ
wire_err_code ErrCode.io_error = 1
wire_err_code ErrCode.catalog_missing = 3
wire_err_code ErrCode.catalog_exists = 4
wire_err_code ErrCode.invalid_type = 6
wire_err_code ErrCode.table_not_found = 7
wire_err_code ErrCode.table_exists = 8
wire_err_code ErrCode.schema_not_found = 9
wire_err_code ErrCode.schema_exists = 10
wire_err_code ErrCode.schema_not_empty = 11
wire_err_code ErrCode.protected_table = 12
wire_err_code ErrCode.invalid_ddl = 13
wire_err_code ErrCode.value_mismatch = 14
wire_err_code ErrCode.record_too_long = 15
wire_err_code ErrCode.arith_error = 16
wire_err_code ErrCode.unknown_column = 17
wire_err_code ErrCode.unknown_var = 18
wire_err_code ErrCode.unknown_stmt = 19
wire_err_code ErrCode.not_implemented = 20
wire_err_code ErrCode.internal = 21
wire_err_code ErrCode.syntax_error = 22
wire_err_code ErrCode.txn_active = 23
wire_err_code ErrCode.no_active_txn = 24
wire_err_code ErrCode.ddl_in_txn = 25
wire_err_code ErrCode.bootstrap_mode = 26
wire_err_code ErrCode.too_many_clients = 27
wire_err_code ErrCode.invalid_var_value = 28
wire_err_code ErrCode.index_exists = 29
wire_err_code ErrCode.index_not_found = 30
wire_err_code ErrCode.star_no_from = 31
wire_err_code ErrCode.unknown_function = 32

-- The switch of decode_error, with 0 and the holes 2 and 5.
abbrev pub known_code : ℕ → Bool
known_code v = leb 1 v && leb v 32 && not (v == 2 || v == 5)

unfoldable pub encode_error : ErrCode → List ℕ → List ℕ
encode_error code message = append_u16 [] (wire_err_code code) ++ message

-- The code is given as its number.
unfoldable pub decode_error : List ℕ → Option (ℕ × List ℕ)
decode_error body = do v ← take_u16 body; guard (known_code v.0) (some (v.0, v.1))

abbrev pub notice_level_max : ℕ
notice_level_max = 9

unfoldable pub encode_notice : ℕ → List ℕ → List ℕ
encode_notice level message = level ∷ message

unfoldable pub decode_notice : List ℕ → Option (ℕ × List ℕ)
decode_notice [] = none
decode_notice (level ∷ message) = guard (leb level notice_level_max) (some (level, message))
