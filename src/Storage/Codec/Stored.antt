-- ===== src/Storage/Codec/Stored.antt =====
-- storage/codec.cpp: one column of a row, what is written for it and what is read back.
use my_simple_db.Prelude.{
  ℕ, ◌+◌, ◌/◌, ◌%◌, ◌^◌, ◌<◌, ◌≤◌, ◌≡◌, ◌≢◌, refl, sym, ap, ◌∙◌, Option, none, some, List, [], ◌∷◌,
  ◌++◌, Bool, true, false, length, get_or, set, drop, arith, length-set,
}
use mathlib.Core.List.{append_assoc, append-nil}
use my_simple_db.Common.{Result, ok, err, exit, Ensures, Ensures-if}
use my_simple_db.Storage.Types.{Rep, ColumnSpec, Box, Value, typed_null, value_is_null, box_is_null}
use my_simple_db.Storage.Codec.Bytes.{IsSigned, set_bit, test_bit}
use my_simple_db.Storage.Codec.{put_box, take_box, encode_column, decode_column, and_then}
use my_simple_db.Storage.Codec.Columns.{
  IfSome, ReadsBack, padded, take_int-put_int, take_double-put_double, take_float-put_float,
  take_bool-put_bool, take_text-put_text,
}
use my_simple_db.Storage.Codec.Decimals.{take_decimal-put_decimal}
use my_simple_db.Storage.Codec.Bitmap.{
  mark, marked, marked-mark_self, marked-mark_ne, set-header, get_or-header,
}

-- The ranges of the C++ types that a value is stored in.
abbrev pub InRange : Box → Type 0
InRange (Box.i64 i) = IsSigned 64 i
InRange (Box.double b) = b < 2 ^ 64
InRange (Box.float b) = b < 2 ^ 32
InRange (Box.dec d) = d.scale < 256
InRange _ = Unit

-- What a column gives back of a value: the type is the column's, a text of fixed length is padded.
abbrev pub stored_box : ColumnSpec → Box → Box
stored_box col (Box.str s) = Box.str (padded col s)
stored_box col Box.null = Box.null
stored_box col (Box.bool b) = Box.bool b
stored_box col (Box.i64 i) = Box.i64 i
stored_box col (Box.double b) = Box.double b
stored_box col (Box.float b) = Box.float b
stored_box col (Box.dec d) = Box.dec d

abbrev pub stored : ColumnSpec → Value → Value
stored col v = record { type = col.type; box = stored_box col v.box }

take_box-put_box :
    (r : Rep) (col : ColumnSpec) (b : Box)
    → InRange b
    → Ensures
        (IfSome (ReadsBack (take_box r col) (record { type = col.type; box = stored_box col b })))
        (put_box r col b)
unfolding take_box put_box
take_box-put_box Rep.int64 col (Box.i64 i) h = take_int-put_int col i h
take_box-put_box Rep.double col (Box.double b) h = take_double-put_double col b h
take_box-put_box Rep.float col (Box.float b) h = take_float-put_float col b h
take_box-put_box Rep.bool col (Box.bool b) h = take_bool-put_bool col b
take_box-put_box Rep.str col (Box.str s) h = take_text-put_text col s
take_box-put_box Rep.dec col (Box.dec d) h = take_decimal-put_decimal col d h
take_box-put_box Rep.none col b h = tt
take_box-put_box _ col b h = tt

pub Ensures-and_then {ℓ κ μ ν} :
    {X : Type ℓ} {Y : Type κ} (Q : X → Type μ) (P : Y → Type ν) (r : Result (Option X))
    (k : X → Result (Option Y))
    → Ensures (IfSome Q) r
    → ((x : X) → Q x → Ensures (IfSome P) (k x))
    → Ensures (IfSome P) (and_then r k)
Ensures-and_then Q P (ok none) k q f = tt
Ensures-and_then Q P (ok (some x)) k q f = f x q
Ensures-and_then Q P (err e) k q f = tt
Ensures-and_then Q P exit k q f = tt

pub Ensures-weaken {ℓ κ μ} :
    {X : Type ℓ} (Q : X → Type κ) (P : X → Type μ) (r : Result (Option X))
    → ((x : X) → Q x → P x)
    → Ensures (IfSome Q) r
    → Ensures (IfSome P) r
Ensures-weaken Q P (ok none) f q = tt
Ensures-weaken Q P (ok (some x)) f q = f x q
Ensures-weaken Q P (err e) f q = tt
Ensures-weaken Q P exit f q = tt

-- The bit of a column in the bytes of a record.
abbrev pub null_bit : List ℕ → ℕ → Bool
null_bit bytes i = test_bit (get_or bytes (2 + i / 8) 0) (i % 8)

-- A record after one more column.
pub record Written (i : ℕ) (col : ColumnSpec) (v : Value) (a b : ℕ) (bitmap body out : List ℕ)
    : Type 0 where
  pub bits : List ℕ
  pub extra : List ℕ
  pub layout : out ≡ a ∷ b ∷ (bits ++ (body ++ extra))
  pub size : length bits ≡ length bitmap
  pub own : marked bits i ≡ value_is_null v
  pub others : (j : ℕ) → i ≢ j → marked bits j ≡ marked bitmap j
  pub reads :
      (bytes rest : List ℕ) (len at : ℕ)
      → null_bit bytes i ≡ value_is_null v
      → drop at bytes ≡ extra ++ rest
      → at + length extra ≤ len
      → decode_column i col bytes len at ≡ ok (some (stored col v, at + length extra))

null_box : (b : Box) → box_is_null b ≡ true → b ≡ Box.null
null_box Box.null h = refl
null_box (Box.bool x) h = absurd (cc h)
null_box (Box.i64 x) h = absurd (cc h)
null_box (Box.double x) h = absurd (cc h)
null_box (Box.float x) h = absurd (cc h)
null_box (Box.str x) h = absurd (cc h)
null_box (Box.dec x) h = absurd (cc h)

module _ (i : ℕ) (col : ColumnSpec) (v : Value) (a b : ℕ) (bitmap body : List ℕ) where
  mark_column :
      i / 8 < length bitmap
      → value_is_null v ≡ true
      → Written i col v a b bitmap body (
          set
            (a ∷ b ∷ (bitmap ++ body))
            (2 + i / 8)
            (set_bit (get_or (a ∷ b ∷ (bitmap ++ body)) (2 + i / 8) 0) (i % 8)))
  unfolding decode_column
  mark_column h null = record {
    bits = mark bitmap i;
    extra = [];
    layout =
        rw (get_or-header a b bitmap body (i / 8) h, append-nil body)
          (set-header a b bitmap body (i / 8) _ h);
    size = length-set bitmap (i / 8) _;
    own = marked-mark_self bitmap i h ∙ sym null;
    others = λ j differ. marked-mark_ne bitmap i j h differ;
    reads = λ bytes rest len at bit placed fits.
        rw (bit, null, null_box v.box null)
          (ap (λ k. ok (some (typed_null col.type, k))) (omega arith));
  }

  append_column :
      (written : List ℕ)
      → marked bitmap i ≡ false
      → value_is_null v ≡ false
      → ReadsBack (take_box col.type.rep col) (stored col v) written
      → Written i col v a b bitmap body (a ∷ b ∷ (bitmap ++ body) ++ written)
  unfolding decode_column
  append_column written clear full back = record {
    bits = bitmap;
    extra = written;
    layout = ap (λ (z : List ℕ). a ∷ b ∷ z) (append_assoc bitmap body written);
    size = refl;
    own = clear ∙ sym full;
    others = λ j differ. refl;
    reads =
        λ bytes rest len at bit placed fits. rw (bit, full) (back bytes rest len at placed fits);
  }

  pub encode_column_lem :
      i / 8 < length bitmap
      → marked bitmap i ≡ false
      → InRange v.box
      → Ensures
          (IfSome (Written i col v a b bitmap body))
          (encode_column i col v (a ∷ b ∷ (bitmap ++ body)))
  unfolding encode_column
  encode_column_lem h clear range =
      let P = IfSome (Written i col v a b bitmap body) in
      Ensures-if P (value_is_null v) _ _
        (λ null. Ensures-if P col.not_null _ _ (λ bad. tt) (λ good. mark_column h null))
        λ full.
          Ensures-and_then (ReadsBack (take_box col.type.rep col) (stored col v))
            (Written i col v a b bitmap body) (put_box col.type.rep col v.box) _
            (take_box-put_box col.type.rep col v.box range)
            λ written back. append_column written clear full back
