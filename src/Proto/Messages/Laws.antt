-- ===== src/Proto/Messages/Laws.antt =====
-- proto/proto.h: the Ok, Error and Notice frames, written and read back.
use my_simple_db.Prelude.{
  ℕ, sym, none, inl, inr, Bool-cases, ◌<◌, ◌≤◌, ◌≡◌, ◌^◌, ◌↔◌, refl, ap, ◌∙◌, true, false, some,
  List, arith, leb,
}
use my_simple_db.Common.{ErrCode}
use my_simple_db.Proto.{guard}
use my_simple_db.Proto.Cells.{take_u16_lem, be_value_8, length-be_bytes}
use my_simple_db.Proto.Messages.{
  CommandTag, tag_code, tag_of, tag_at, encode_command, decode_command, wire_err_code, known_code,
  encode_error, decode_error, encode_notice, decode_notice, notice_level_max,
}

tag_of-tag_code : (tag : CommandTag) → tag_of (tag_code tag) ≡ some tag
unfolding tag_at
tag_of-tag_code CommandTag.empty = refl
tag_of-tag_code CommandTag.create_table = refl
tag_of-tag_code CommandTag.drop_table = refl
tag_of-tag_code CommandTag.insert = refl
tag_of-tag_code CommandTag.delete = refl
tag_of-tag_code CommandTag.create_schema = refl
tag_of-tag_code CommandTag.drop_schema = refl
tag_of-tag_code CommandTag.set = refl
tag_of-tag_code CommandTag.begin = refl
tag_of-tag_code CommandTag.commit = refl
tag_of-tag_code CommandTag.rollback = refl
tag_of-tag_code CommandTag.create_index = refl
tag_of-tag_code CommandTag.drop_index = refl
tag_of-tag_code CommandTag.update = refl

-- A command tag with its count of rows, a number of 64 bits, is read back.
pub decode_command-encode_command :
    (tag : CommandTag) (count : ℕ)
    → count < 2 ^ 64
    → decode_command (encode_command tag count) ≡ some (tag, count)
unfolding decode_command encode_command
decode_command-encode_command tag count h =
    rw (length-be_bytes 8 count, tag_of-tag_code tag) (ap (λ n. some (tag, n)) (be_value_8 count h))

known : (code : ErrCode) → (known_code (wire_err_code code) ≡ true) × (wire_err_code code < 2 ^ 16)
known code = (grind arith, grind arith)

-- An error's code and its text are read back.
pub decode_error-encode_error :
    (code : ErrCode) (message : List ℕ)
    → decode_error (encode_error code message) ≡ some (wire_err_code code, message)
unfolding decode_error encode_error
decode_error-encode_error code message =
    rw (take_u16_lem (wire_err_code code) message (known code).1, (known code).0) refl

-- A notice is read back exactly where its level is one of the ten of the log.
pub decode_notice-encode_notice :
    (level : ℕ) (message : List ℕ)
    → (decode_notice (encode_notice level message) ≡ some (level, message))
      ↔ (level ≤ notice_level_max)
unfolding decode_notice encode_notice
decode_notice-encode_notice level message = (
  λ e. elim (Bool-cases (leb level notice_level_max)) [
    | inl low ↦ ground (arith, low)
    | inr high ↦ absurd (cc (sym (given high) ∙ e))
  ],
  λ h. given_low (ground (arith, h)),
)
  where
    given :
        leb level notice_level_max ≡ false
        → guard {A = ℕ × List ℕ} (leb level notice_level_max) (some (level, message)) ≡ none
    given high = rw high refl

    given_low :
        leb level notice_level_max ≡ true
        → guard {A = ℕ × List ℕ} (leb level notice_level_max) (some (level, message))
          ≡ some (level, message)
    given_low low = rw low refl
