-- ===== src/Proto.antt =====
-- proto/proto.h: the frames between server and client. A byte is a number below 256. A cursor, the
-- pair of `body` and `off`, is the list of the bytes from `off` on, and a function that returns
-- false gives none.
pub mod Cells
pub mod Results
pub mod Messages
pub mod Frames
use my_simple_db.Prelude.{
  ℕ, zero, suc, ◌+◌, ◌*◌, ◌/◌, ◌%◌, ◌^◌, ◌<◌, ◌≡◌, refl, Bool, true, false, Option, none, some,
  List, [], ◌∷◌, ◌++◌, ltb, leb, ◌==◌, if◌then◌else◌, length, take, drop, get_or, arith,
}
use my_simple_db.Prelude.Int.{ℤ}
use my_simple_db.Storage.Codec.Bytes.{to_unsigned, of_unsigned}

infixl 5 ◌>>=◌
abbrev pub ◌>>=◌ {ℓ κ} : {X : Type ℓ} {Y : Type κ} → Option X → (X → Option Y) → Option Y
none >>= k = none
some x >>= k = k x

-- A result and the cursor after it.
abbrev pub Taken : Type 0 → Type 0
Taken A = Option (A × List ℕ)

-- The loops that shift by eight bits: the `n` low bytes of a number, the highest first, and the
-- number that bytes make.
unfoldable pub be_bytes : ℕ → ℕ → List ℕ
be_bytes zero v = []
be_bytes (suc n) v = (v / 256 ^ n % 256) ∷ be_bytes n v

unfoldable pub be_value : ℕ → List ℕ → ℕ
be_value v [] = v
be_value v (b ∷ bs) = be_value (v * 256 + b) bs

abbrev pub append_u16 : List ℕ → ℕ → List ℕ
append_u16 out v = out ++ be_bytes 2 v

abbrev pub append_u32 : List ℕ → ℕ → List ℕ
append_u32 out v = out ++ be_bytes 4 v

abbrev pub append_u64 : List ℕ → ℕ → List ℕ
append_u64 out v = out ++ be_bytes 8 v

unfoldable pub take_bytes : ℕ → List ℕ → Taken (List ℕ)
take_bytes n body = if ltb (length body) n then none else some (take n body, drop n body)

-- The next `n` bytes as a number.
abbrev pub take_number : ℕ → List ℕ → Taken ℕ
take_number n body = do b ← take_bytes n body; some (be_value 0 b.0, b.1)

abbrev pub take_u16 : List ℕ → Taken ℕ
take_u16 body = take_number 2 body

abbrev pub take_u32 : List ℕ → Taken ℕ
take_u32 body = take_number 4 body

abbrev pub take_u64 : List ℕ → Taken ℕ
take_u64 body = take_number 8 body

-- A cell of a result set. `double` and `float` are bit patterns.
pub data CellVal : Type 0 where
  null : CellVal
  bool : Bool → CellVal
  int64 : ℤ → CellVal
  double float : ℕ → CellVal
  string : List ℕ → CellVal
  decimal : List ℕ → ℕ → CellVal

abbrev pub cell_null : ℕ
cell_null = 0

abbrev pub cell_int : ℕ
cell_int = 1

abbrev pub cell_double : ℕ
cell_double = 2

abbrev pub cell_string : ℕ
cell_string = 3

abbrev pub cell_bool : ℕ
cell_bool = 4

abbrev pub cell_float : ℕ
cell_float = 5

abbrev pub cell_decimal : ℕ
cell_decimal = 6

-- The cast of a length to uint16_t.
abbrev pub to_u16 : ℕ → ℕ
to_u16 n = n % 2 ^ 16

abbrev pub to_u32 : ℕ → ℕ
to_u32 n = n % 2 ^ 32

unfoldable pub append_cell : List ℕ → CellVal → List ℕ
append_cell out (CellVal.int64 i) = append_u64 (out ++ (cell_int ∷ [])) (to_unsigned 64 i)
append_cell out (CellVal.double bits) = append_u64 (out ++ (cell_double ∷ [])) bits
append_cell out (CellVal.string s) = append_u16 (out ++ (cell_string ∷ [])) (to_u16 (length s)) ++ s
append_cell out (CellVal.bool b) = out ++ (cell_bool ∷ []) ++ ((if b then 1 else 0) ∷ [])
append_cell out (CellVal.float bits) = append_u32 (out ++ (cell_float ∷ [])) bits
append_cell out (CellVal.decimal bytes scale) = out ++ (cell_decimal ∷ []) ++ bytes ++ (scale ∷ [])
append_cell out CellVal.null = out ++ (cell_null ∷ [])

abbrev first : List ℕ → ℕ
first one = get_or one 0 0

-- Where a test fails, the decoder returns false.
abbrev pub guard : {A : Type 0} → Bool → Option A → Option A
guard b r = if b then r else none

unfoldable pub take_string : List ℕ → Taken (List ℕ)
take_string body = do len ← take_u16 body; take_bytes len.0 len.1

unfoldable pub take_payload : ℕ → List ℕ → Taken CellVal
take_payload tag body =
    if tag == cell_int
    then (do v ← take_u64 body; some (CellVal.int64 (of_unsigned 64 v.0), v.1))
    else if tag == cell_double
    then (do v ← take_u64 body; some (CellVal.double v.0, v.1))
    else if tag == cell_string
    then (do s ← take_string body; some (CellVal.string s.0, s.1))
    else if tag == cell_bool
    then (do
      one ← take_bytes 1 body
      guard (leb (first one.0) 1) (some (CellVal.bool (ltb 0 (first one.0)), one.1)))
    else if tag == cell_float
    then (do v ← take_u32 body; some (CellVal.float v.0, v.1))
    else if tag == cell_decimal
    then (do
      b ← take_bytes 16 body
      one ← take_bytes 1 b.1
      some (CellVal.decimal b.0 (first one.0), one.1))
    else guard (tag == cell_null) (some (CellVal.null, body))

unfoldable pub take_cell : List ℕ → Taken CellVal
take_cell body = do one ← take_bytes 1 body; take_payload (first one.0) one.1
