-- ===== src/Proto/Cells.antt =====
-- proto/proto.h: integers, byte strings and cells, written and read back.
use my_simple_db.Prelude.{
  ℕ, zero, suc, ◌^◌, ◌<◌, ◌≡◌, refl, sym, ap, ◌∙◌, true, false, some, List, [], ◌∷◌, ◌++◌, ltb,
  length, arith, length-append, drop-append, take-append,
}
use mathlib.Core.List.{append_assoc}
use my_simple_db.Storage.Codec.Bytes.{
  to_unsigned, IsSigned, of_unsigned-to_unsigned_64, to_unsigned_bound,
}
use my_simple_db.Proto.{
  be_bytes, be_value, take_bytes, take_number, take_u16, take_u32, take_u64, CellVal, append_cell,
  take_string, take_payload, take_cell, to_u16,
}

pub length-be_bytes : (n v : ℕ) → length (be_bytes n v) ≡ n
unfolding be_bytes
length-be_bytes zero v = refl
length-be_bytes (suc n) v = ap suc (length-be_bytes n v)

pub take_bytes-append :
    (n : ℕ) (s rest : List ℕ) → n ≡ length s → take_bytes n (s ++ rest) ≡ some (s, rest)
unfolding take_bytes
take_bytes-append n s rest e =
    let enough : ltb (length (s ++ rest)) n ≡ false = ground (arith, length-append s rest, e) in
    rw (enough, drop-append n s rest e) (rw e (rw (take-append s rest) refl))

be_value_2 : (v : ℕ) → v < 2 ^ 16 → be_value 0 (be_bytes 2 v) ≡ v
unfolding be_bytes be_value
be_value_2 v h = omega (arith, h)

pub be_value_4 : (v : ℕ) → v < 2 ^ 32 → be_value 0 (be_bytes 4 v) ≡ v
unfolding be_bytes be_value
be_value_4 v h = omega (arith, h)

pub be_value_8 : (v : ℕ) → v < 2 ^ 64 → be_value 0 (be_bytes 8 v) ≡ v
unfolding be_bytes be_value
be_value_8 v h = omega (arith, h)

taken :
    (n v : ℕ) (rest : List ℕ)
    → be_value 0 (be_bytes n v) ≡ v
    → take_number n (be_bytes n v ++ rest) ≡ some (v, rest)
taken n v rest e =
    rw (take_bytes-append n (be_bytes n v) rest (sym (length-be_bytes n v)))
      (ap (λ z. some (z, rest)) e)

pub take_u16_lem :
    (v : ℕ) (rest : List ℕ) → v < 2 ^ 16 → take_u16 (be_bytes 2 v ++ rest) ≡ some (v, rest)
take_u16_lem v rest h = taken 2 v rest (be_value_2 v h)

pub take_u32_lem :
    (v : ℕ) (rest : List ℕ) → v < 2 ^ 32 → take_u32 (be_bytes 4 v ++ rest) ≡ some (v, rest)
take_u32_lem v rest h = taken 4 v rest (be_value_4 v h)

pub take_u64_lem :
    (v : ℕ) (rest : List ℕ) → v < 2 ^ 64 → take_u64 (be_bytes 8 v ++ rest) ≡ some (v, rest)
take_u64_lem v rest h = taken 8 v rest (be_value_8 v h)

-- The values of a cell's C++ type; a string's length fits its field.
abbrev pub IsCell : CellVal → Type 0
IsCell CellVal.null = Unit
IsCell (CellVal.bool b) = Unit
IsCell (CellVal.int64 i) = IsSigned 64 i
IsCell (CellVal.double bits) = bits < 2 ^ 64
IsCell (CellVal.float bits) = bits < 2 ^ 32
IsCell (CellVal.string s) = length s < 2 ^ 16
IsCell (CellVal.decimal bytes scale) = length bytes ≡ 16

pub append_cell_lem : (out : List ℕ) (c : CellVal) → append_cell out c ≡ out ++ append_cell [] c
unfolding append_cell
append_cell_lem out (CellVal.int64 i) = append_assoc out _ _
append_cell_lem out (CellVal.double bits) = append_assoc out _ _
append_cell_lem out (CellVal.string s) =
    ap (λ z. z ++ s) (append_assoc out _ _) ∙ append_assoc out _ _
append_cell_lem out (CellVal.bool b) = append_assoc out _ _
append_cell_lem out (CellVal.float bits) = append_assoc out _ _
append_cell_lem out (CellVal.decimal bytes scale) =
    ap (λ z. z ++ (scale ∷ [])) (append_assoc out _ _) ∙ append_assoc out _ _
append_cell_lem out CellVal.null = refl

pub take_string_lem :
    (s rest : List ℕ)
    → length s < 2 ^ 16
    → take_string (be_bytes 2 (to_u16 (length s)) ++ (s ++ rest)) ≡ some (s, rest)
unfolding take_string
take_string_lem s rest h =
    let n : to_u16 (length s) ≡ length s = omega (arith, h) in
    rw (n, take_u16_lem (length s) (s ++ rest) h) (take_bytes-append (length s) s rest refl)

take_tag : (tag : ℕ) (rest : List ℕ) → take_cell (tag ∷ rest) ≡ take_payload tag rest
unfolding take_cell take_bytes
take_tag tag rest =
    let enough : ltb (length (tag ∷ rest)) 1 ≡ false = ground arith in rw enough refl

pub take_cell-append_cell :
    (c : CellVal) (rest : List ℕ) → IsCell c → take_cell (append_cell [] c ++ rest) ≡ some (c, rest)
unfolding append_cell take_payload
take_cell-append_cell CellVal.null rest h = take_tag 0 rest
take_cell-append_cell (CellVal.bool true) rest h =
    take_tag 4 _ ∙ rw (take_bytes-append 1 (1 ∷ []) rest refl) refl
take_cell-append_cell (CellVal.bool false) rest h =
    take_tag 4 _ ∙ rw (take_bytes-append 1 (0 ∷ []) rest refl) refl
take_cell-append_cell (CellVal.int64 i) rest h =
    take_tag 1 _
    ∙ rw (take_u64_lem (to_unsigned 64 i) rest (to_unsigned_bound 64 i (omega arith)))
        (ap (λ z. some (CellVal.int64 z, rest)) (of_unsigned-to_unsigned_64 i h))
take_cell-append_cell (CellVal.double bits) rest h =
    take_tag 2 _ ∙ rw (take_u64_lem bits rest h) refl
take_cell-append_cell (CellVal.float bits) rest h =
    take_tag 5 _ ∙ rw (take_u32_lem bits rest h) refl
take_cell-append_cell (CellVal.string s) rest h =
    take_tag 3 _
    ∙ rw (append_assoc (be_bytes 2 (to_u16 (length s))) s rest, take_string_lem s rest h) refl
take_cell-append_cell (CellVal.decimal bytes scale) rest h =
    take_tag 6 _
    ∙ rw
        (
          append_assoc bytes (scale ∷ []) rest,
          take_bytes-append 16 bytes (scale ∷ rest) (sym h),
          take_bytes-append 1 (scale ∷ []) rest refl,
        )
        refl
