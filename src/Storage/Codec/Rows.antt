-- ===== src/Storage/Codec/Rows.antt =====
-- storage/codec.cpp: the record of a row, encoded and decoded.
use my_simple_db.Prelude.{
  ℕ, suc, ◌+◌, ◌*◌, ◌/◌, ◌%◌, ◌^◌, ◌<◌, ◌≤◌, ◌≡◌, refl, ap, ◌∙◌, some, List, [], ◌∷◌, ◌++◌, false,
  not, ltb, ◌==◌, length, drop, replicate, arith, length-append, drop_add, drop-append,
  length-replicate, subst, ◌||◌, ◌-◌,
}
use mathlib.Core.List.{append_assoc, append-nil}
use my_simple_db.Common.{ok, Ensures, Ensures-if, Ensures-ok}
use my_simple_db.Storage.Types.{ColumnSpec, Value}
use my_simple_db.Storage.Codec.Bytes.{test_bit}
use my_simple_db.Storage.Codec.{
  encode_column, encode_loop, decode_loop, encode_row, decode_row, put_length,
}
use my_simple_db.Storage.Codec.Columns.{IfSome}
use my_simple_db.Storage.Codec.Bitmap.{marked, marked-replicate, get_or-header}
use my_simple_db.Storage.Codec.Stored.{
  InRange, stored, Ensures-and_then, Ensures-weaken, null_bit, Written, encode_column_lem,
}

abbrev pub AllInRange : List Value → Type 0
AllInRange [] = Unit
AllInRange (v ∷ values) = InRange v.box × AllInRange values

unfoldable pub stored_row : List ColumnSpec → List Value → List Value
stored_row (col ∷ cols) (v ∷ values) = stored col v ∷ stored_row cols values
stored_row _ _ = []

-- A record after all the columns.
record WrittenRow (i : ℕ) (cols : List ColumnSpec) (values : List Value) (a b : ℕ)
    (bitmap body out : List ℕ) : Type 0 where
  bits : List ℕ
  extra : List ℕ
  layout : out ≡ a ∷ b ∷ (bits ++ (body ++ extra))
  size : length bits ≡ length bitmap
  others : (j : ℕ) → j < i → marked bits j ≡ marked bitmap j
  reads :
      (bytes rest : List ℕ) (len at : ℕ)
      → ((j : ℕ) → j < i + length cols → null_bit bytes j ≡ marked bits j)
      → drop at bytes ≡ extra ++ rest
      → at + length extra ≤ len
      → decode_loop i cols bytes len at ≡ ok (some (stored_row cols values))

join_row :
    (i : ℕ) (col : ColumnSpec) (v : Value) (cols : List ColumnSpec) (values : List Value) (a b : ℕ)
    (bitmap body out₁ out : List ℕ) (w : Written i col v a b bitmap body out₁)
    → WrittenRow (suc i) cols values a b w.bits (body ++ w.extra) out
    → WrittenRow i (col ∷ cols) (v ∷ values) a b bitmap body out
unfolding decode_loop stored_row
join_row i col v cols values a b bitmap body out₁ out w r = record {
  bits = r.bits;
  extra = w.extra ++ r.extra;
  layout =
      r.layout ∙ ap (λ (z : List ℕ). a ∷ b ∷ (r.bits ++ z)) (append_assoc body w.extra r.extra);
  size = r.size ∙ w.size;
  others = λ j h. r.others j (omega arith) ∙ w.others j (λ e. omega (arith, e, h));
  reads = λ bytes rest len at agree placed fits.
      let sum = length-append w.extra r.extra in
      let first =
        w.reads bytes (r.extra ++ rest) len at
          (agree i (omega arith) ∙ (r.others i (omega arith) ∙ w.own))
          (placed ∙ append_assoc w.extra r.extra rest) (omega (arith, fits, sum)) in
      let later =
        drop_add at (length w.extra) bytes
        ∙ (ap (drop (length w.extra)) (placed ∙ append_assoc w.extra r.extra rest)
            ∙ drop-append (length w.extra) w.extra (r.extra ++ rest) refl) in
      rw
        (
          first,
          r.reads bytes rest len (at + length w.extra) (λ j h. agree j (omega (arith, h))) later
              (omega (arith, fits, sum)),
        )
        refl;
}

encode_loop_lem :
    (cols : List ColumnSpec) (values : List Value) (i a b : ℕ) (bitmap body : List ℕ)
    → length cols ≡ length values
    → AllInRange values
    → i + length cols ≤ length bitmap * 8
    → ((j : ℕ) → i ≤ j → marked bitmap j ≡ false)
    → Ensures
        (IfSome (WrittenRow i cols values a b bitmap body))
        (encode_loop i cols values (a ∷ b ∷ (bitmap ++ body)))
unfolding encode_loop decode_loop stored_row
encode_loop_lem [] [] i a b bitmap body e range room clear = record {
  bits = bitmap;
  extra = [];
  layout = rw (append-nil body) refl;
  size = refl;
  others = λ j h. refl;
  reads = λ bytes rest len at agree placed fits. refl;
}
encode_loop_lem [] (v ∷ values) i a b bitmap body e range room clear = absurd (omega (arith, e))
encode_loop_lem (col ∷ cols) [] i a b bitmap body e range room clear = absurd (omega (arith, e))
encode_loop_lem (col ∷ cols) (v ∷ values) i a b bitmap body e range room clear =
    let P = WrittenRow i (col ∷ cols) (v ∷ values) a b bitmap body in
    Ensures-and_then (Written i col v a b bitmap body) P
      (encode_column i col v (a ∷ b ∷ (bitmap ++ body))) (encode_loop (suc i) cols values)
      (encode_column_lem i col v a b bitmap body (omega (arith, room)) (clear i (omega arith))
        range.0)
      λ out₁ w.
        let rest =
          encode_loop_lem cols values (suc i) a b w.bits (body ++ w.extra) (omega (arith, e))
            range.1 (omega (arith, room, w.size))
            (λ j h. w.others j (λ q. omega (arith, q, h)) ∙ clear j (omega (arith, h))) in
        rw w.layout (
          Ensures-weaken (WrittenRow (suc i) cols values a b w.bits (body ++ w.extra)) P _
            (λ out r. join_row i col v cols values a b bitmap body out₁ out w r) rest)

-- The record is read back, whatever follows it in memory.
abbrev RoundTrip : List ColumnSpec → List Value → List ℕ → Type 0
RoundTrip cols values out =
    (more : List ℕ)
    → length out < 2 ^ 16 + 2
    → decode_row cols (out ++ more) (length out) ≡ ok (some (stored_row cols values))

finish_row :
    (cols : List ColumnSpec) (values : List Value) (out : List ℕ)
    → WrittenRow 0 cols values 0 0 (replicate ((length cols + 7) / 8) 0) [] out
    → RoundTrip cols values (put_length out)
unfolding decode_row
finish_row cols values out w = rw w.layout λ more h.
    let n = length (w.bits ++ w.extra) in
    let low = (suc (suc n) - 2) % 2 ^ 16 % 256 in
    let high = (suc (suc n) - 2) % 2 ^ 16 / 256 % 256 in
    let size = w.size ∙ length-replicate {A = ℕ} ((length cols + 7) / 8) 0 in
    let sum = length-append w.bits w.extra in
    let header : (ltb (suc (suc n)) 2 || not (low + high * 256 + 2 == suc (suc n))) ≡ false =
      ground (arith, h) in
    let room : ltb (suc (suc n)) (2 + (length cols + 7) / 8) ≡ false = ground (arith, size, sum) in
    let parts = append_assoc w.bits w.extra more in
    let bit = λ (j : ℕ) (k : j < 0 + length cols).
      ap (λ (z : List ℕ). null_bit (low ∷ high ∷ z) j) parts
      ∙ ap (λ x. test_bit x (j % 8))
          (get_or-header low high w.bits (w.extra ++ more) (j / 8) (omega (arith, k, size))) in
    let placed =
      ap (λ (z : List ℕ). drop (2 + (length cols + 7) / 8) (low ∷ high ∷ z)) parts
      ∙ drop-append (2 + (length cols + 7) / 8) (low ∷ high ∷ w.bits) (w.extra ++ more)
          (omega (arith, size)) in
    rw (header, room)
      (w.reads (low ∷ high ∷ (w.bits ++ w.extra ++ more)) more (suc (suc n))
        (2 + (length cols + 7) / 8) bit placed (omega (arith, size, sum)))

encode_row_lem :
    (cols : List ColumnSpec) (values : List Value)
    → AllInRange values
    → Ensures (IfSome (RoundTrip cols values)) (encode_row cols values)
unfolding encode_row
encode_row_lem cols values range =
    let P = RoundTrip cols values in
    let bitmap : List ℕ = replicate ((length cols + 7) / 8) 0 in
    Ensures-if (IfSome P) (not (length cols == length values)) _ _ (λ differ. tt)
      λ same.
        Ensures-and_then (WrittenRow 0 cols values 0 0 bitmap []) P
          (encode_loop 0 cols values (0 ∷ 0 ∷ bitmap)) _
          (subst
            (λ z.
              Ensures (IfSome (WrittenRow 0 cols values 0 0 bitmap []))
                (encode_loop 0 cols values (0 ∷ 0 ∷ z)))
            (append-nil bitmap)
            (encode_loop_lem cols values 0 0 0 bitmap [] (ground (arith, same)) range
              (omega (arith, length-replicate {A = ℕ} ((length cols + 7) / 8) 0))
              (λ j h. marked-replicate _ j)))
          (finish_row cols values)

-- Where encode_row accepts a row of values in the ranges of their C++ types, and the record has
-- at most 65535 bytes after its length, decode_row reads from the record, whatever follows it in
-- memory, the row's values, each with the type of its column and a text of fixed length padded
-- with spaces.
pub decode_row-encode_row :
    (cols : List ColumnSpec) (values : List Value) (out more : List ℕ)
    → AllInRange values
    → encode_row cols values ≡ ok (some out)
    → length out < 2 ^ 16 + 2
    → decode_row cols (out ++ more) (length out) ≡ ok (some (stored_row cols values))
decode_row-encode_row cols values out more range written h =
    Ensures-ok (IfSome (RoundTrip cols values)) _ (encode_row_lem cols values range) written more h
