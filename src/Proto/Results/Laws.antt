-- ===== src/Proto/Results/Laws.antt =====
-- proto/proto.h: the frames of a result set, written and read back.
use my_simple_db.Prelude.{
  ℕ, ◌^◌, ◌<◌, ◌≡◌, refl, sym, ap, ◌∙◌, some, List, [], ◌∷◌, ◌++◌, length, arith,
}
use mathlib.Core.List.{append_assoc, append-nil}
use my_simple_db.Proto.{
  Taken, append_u16, be_bytes, to_u16, to_u32, CellVal, append_cell, take_cell, take_string,
}
use my_simple_db.Proto.Cells.{
  IsCell, append_cell_lem, take_cell-append_cell, take_string_lem, take_u32_lem, length-be_bytes,
  be_value_8,
}
use my_simple_db.Proto.Results.{
  append_names, encode_rs_head, append_row, append_rows, encode_rs_batch, encode_rs_end, take_many,
  take_row, decode_rs_head, decode_rs_batch, decode_rs_end,
}

abbrev pub All {ℓ} : {A : Type 0} → (A → Type ℓ) → List A → Type ℓ
All P [] = Unit
All P (x ∷ xs) = P x × All P xs

-- The bytes of the items, one after the other.
unfoldable pub join : {A : Type 0} → (A → List ℕ) → List A → List ℕ
join write [] = []
join write (x ∷ xs) = write x ++ join write xs

pub take_many-join {ℓ} :
    {A : Type 0} (P : A → Type ℓ) (item : List ℕ → Taken A) (write : A → List ℕ)
    → ((x : A) (rest : List ℕ) → P x → item (write x ++ rest) ≡ some (x, rest))
    → (xs : List A) (rest : List ℕ) → All P xs
    → take_many item (length xs) (join write xs ++ rest) ≡ some (xs, rest)
unfolding take_many join
take_many-join P item write read [] rest h = refl
take_many-join P item write read (x ∷ xs) rest h =
    rw
      (
        append_assoc (write x) (join write xs) rest,
        read x (join write xs ++ rest) h.0,
        take_many-join P item write read xs rest h.1,
      )
      refl

abbrev pub name_bytes : List ℕ → List ℕ
name_bytes col = be_bytes 2 (to_u16 (length col)) ++ col

abbrev pub cell_bytes : CellVal → List ℕ
cell_bytes c = append_cell [] c

abbrev pub row_bytes : List CellVal → List ℕ
row_bytes row = join cell_bytes row

append_names_lem :
    (out : List ℕ) (cols : List (List ℕ)) → append_names out cols ≡ out ++ join name_bytes cols
unfolding append_names join
append_names_lem out [] = sym (append-nil out)
append_names_lem out (col ∷ cols) =
    append_names_lem (append_u16 out (to_u16 (length col)) ++ col) cols
    ∙ (ap (λ z. z ++ join name_bytes cols) (append_assoc out _ col)
        ∙ append_assoc out (name_bytes col) _)

append_row_lem : (out : List ℕ) (row : List CellVal) → append_row out row ≡ out ++ row_bytes row
unfolding append_row join
append_row_lem out [] = sym (append-nil out)
append_row_lem out (c ∷ row) =
    append_row_lem (append_cell out c) row
    ∙ (ap (λ z. z ++ row_bytes row) (append_cell_lem out c) ∙ append_assoc out (cell_bytes c) _)

append_rows_lem :
    (out : List ℕ) (rows : List (List CellVal)) → append_rows out rows ≡ out ++ join row_bytes rows
unfolding append_rows join
append_rows_lem out [] = sym (append-nil out)
append_rows_lem out (row ∷ rows) =
    append_rows_lem (append_row out row) rows
    ∙ (ap (λ z. z ++ join row_bytes rows) (append_row_lem out row)
        ∙ append_assoc out (row_bytes row) _)

abbrev pub IsName : List ℕ → Type 0
IsName col = length col < 2 ^ 16

-- A row of `cols` cells.
abbrev pub IsRow : ℕ → List CellVal → Type 0
IsRow cols row = (length row ≡ cols) × All IsCell row

pub encode_rs_head_lem :
    (cols : List (List ℕ))
    → encode_rs_head cols ≡ be_bytes 4 (to_u32 (length cols)) ++ join name_bytes cols
unfolding encode_rs_head
encode_rs_head_lem cols = append_names_lem _ cols

pub encode_rs_batch_lem :
    (rows : List (List CellVal))
    → encode_rs_batch rows ≡ be_bytes 4 (to_u32 (length rows)) ++ join row_bytes rows
unfolding encode_rs_batch
encode_rs_batch_lem rows = append_rows_lem _ rows

-- The head of a result set with fewer than 2^32 columns, whose names have fewer than 65536 bytes,
-- is read back as its columns.
pub decode_rs_head-encode_rs_head :
    (cols : List (List ℕ))
    → length cols < 2 ^ 32
    → All IsName cols
    → decode_rs_head (encode_rs_head cols) ≡ some cols
unfolding decode_rs_head
decode_rs_head-encode_rs_head cols few named =
    let n : to_u32 (length cols) ≡ length cols = omega (arith, few) in
    let names =
      take_many-join IsName take_string name_bytes
        (λ col rest h.
          ap take_string (append_assoc (be_bytes 2 (to_u16 (length col))) col rest)
          ∙ take_string_lem col rest h)
        cols [] named in
    rw (encode_rs_head_lem cols, n, take_u32_lem (length cols) (join name_bytes cols) few)
      (rw (sym (append-nil (join name_bytes cols)), names) refl)

read_row :
    (cols : ℕ) (row : List CellVal) (rest : List ℕ)
    → IsRow cols row
    → take_row cols (row_bytes row ++ rest) ≡ some (row, rest)
read_row cols row rest h =
    rw (sym h.0) (take_many-join IsCell take_cell cell_bytes take_cell-append_cell row rest h.1)

-- A batch of fewer than 2^32 rows, each with one cell for each column, whose strings have fewer than
-- 65536 bytes, is read back as its rows, after the rows that were there.
pub decode_rs_batch-encode_rs_batch :
    (cols : ℕ) (rows batch : List (List CellVal))
    → length batch < 2 ^ 32
    → All (IsRow cols) batch
    → decode_rs_batch (encode_rs_batch batch) cols rows ≡ some (rows ++ batch)
unfolding decode_rs_batch
decode_rs_batch-encode_rs_batch cols rows batch few good =
    let n : to_u32 (length batch) ≡ length batch = omega (arith, few) in
    let read =
      take_many-join (IsRow cols) (take_row cols) row_bytes (read_row cols) batch [] good in
    rw (encode_rs_batch_lem batch, n, take_u32_lem (length batch) (join row_bytes batch) few)
      (rw (sym (append-nil (join row_bytes batch)), read) refl)

pub decode_rs_end-encode_rs_end : (n : ℕ) → n < 2 ^ 64 → decode_rs_end (encode_rs_end n) ≡ some n
unfolding decode_rs_end encode_rs_end
decode_rs_end-encode_rs_end n h = rw (length-be_bytes 8 n) (ap (λ z. some z) (be_value_8 n h))
