-- ===== src/Proto/Results.antt =====
-- proto/proto.h: the three frames of a result set. On a failure the source may have written a part of
-- the result to its output argument; here a failure has no result.
pub mod Laws
use my_simple_db.Prelude.{
  ℕ, zero, suc, ◌+◌, ◌^◌, Bool, true, false, Option, none, some, List, [], ◌∷◌, ◌++◌, ◌==◌,
  if◌then◌else◌, length,
}
use my_simple_db.Proto.{
  ◌>>=◌, Taken, be_value, append_u16, append_u32, append_u64, to_u16, to_u32, CellVal, append_cell,
  take_cell, take_string, take_u32, guard,
}

unfoldable pub append_names : List ℕ → List (List ℕ) → List ℕ
append_names out [] = out
append_names out (col ∷ cols) = append_names (append_u16 out (to_u16 (length col)) ++ col) cols

unfoldable pub encode_rs_head : List (List ℕ) → List ℕ
encode_rs_head cols = append_names (append_u32 [] (to_u32 (length cols))) cols

unfoldable pub append_row : List ℕ → List CellVal → List ℕ
append_row out [] = out
append_row out (cell ∷ row) = append_row (append_cell out cell) row

unfoldable pub append_rows : List ℕ → List (List CellVal) → List ℕ
append_rows out [] = out
append_rows out (row ∷ rows) = append_rows (append_row out row) rows

unfoldable pub encode_rs_batch : List (List CellVal) → List ℕ
encode_rs_batch rows = append_rows (append_u32 [] (to_u32 (length rows))) rows

unfoldable pub encode_rs_end : ℕ → List ℕ
encode_rs_end row_count = append_u64 [] row_count

-- A loop that takes `n` items.
unfoldable pub take_many : {A : Type 0} → (List ℕ → Taken A) → ℕ → List ℕ → Taken (List A)
take_many item zero body = some ([], body)
take_many item (suc n) body = do x ← item body; xs ← take_many item n x.1; some (x.0 ∷ xs.0, xs.1)

abbrev pub take_row : ℕ → List ℕ → Taken (List CellVal)
take_row col_count body = take_many take_cell col_count body

-- Whether the cursor is at the end.
abbrev pub at_end : List ℕ → Bool
at_end rest = length rest == 0

unfoldable pub decode_rs_head : List ℕ → Option (List (List ℕ))
decode_rs_head body = do
  col_count ← take_u32 body
  cols ← take_many take_string col_count.0 col_count.1
  guard (at_end cols.1) (some cols.0)

-- The rows are added to those that are there.
unfoldable pub decode_rs_batch : List ℕ → ℕ → List (List CellVal) → Option (List (List CellVal))
decode_rs_batch body col_count rows = do
  row_count ← take_u32 body
  batch ← take_many (take_row col_count) row_count.0 row_count.1
  guard (at_end batch.1) (some (rows ++ batch.0))

unfoldable pub decode_rs_end : List ℕ → Option ℕ
decode_rs_end body = guard (length body == 8) (some (be_value 0 body))
