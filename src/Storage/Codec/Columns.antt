-- ===== src/Storage/Codec/Columns.antt =====
-- storage/codec.cpp: what the decoder of a column reads from the bytes that the encoder wrote for
-- it, for each representation.
use my_simple_db.Prelude.{
  ℕ, suc, ◌+◌, ◌-◌, ◌*◌, ◌/◌, ◌%◌, ◌^◌, ◌<◌, ◌≤◌, ◌≡◌, refl, ap, List, ◌++◌, Bool, true, false, not,
  ◌&&◌, ◌||◌, ltb, ◌==◌, if◌then◌else◌, drop, take, arith, length, replicate, Option, none, some,
  ◌∙◌, ap₂, length-append, length-replicate, take-append,
}
use my_simple_db.Prelude.Int.{ℤ, pos, negsuc}
use my_simple_db.Common.{Result, ok, Ensures, Ensures-if}
use my_simple_db.Storage.Types.{
  Store, TypeAttr, ColumnSpec, Value, store_eq, int_val, double_val, float_val, str_val, bool_val,
}
use my_simple_db.Storage.Fpu.{is_finite32, is_finite64}
use my_simple_db.Storage.Cast.Convert.{fits_int32}
use my_simple_db.Storage.Codec.Bytes.{
  IsSigned, put_u32, to_unsigned, of_unsigned, of_unsigned-to_unsigned_32,
  of_unsigned-to_unsigned_64, to_unsigned_bound, read-put_u32, read-put_u16, read_u32,
}
use my_simple_db.Storage.Codec.{
  Read, put_int, take_int, put_double, take_double, put_float, take_float, put_bool, take_bool,
  put_text, take_text, unless,
}

-- What holds of a result that is there.
abbrev pub IfSome {ℓ κ} : {A : Type ℓ} → (A → Type κ) → Option A → Type κ
IfSome P none = Unit
IfSome P (some a) = P a

-- `read` finds `v` wherever the bytes stand in a record, and stops after them.
abbrev pub ReadsBack : (List ℕ → ℕ → ℕ → Read) → Value → List ℕ → Type 0
ReadsBack read v written =
    (bytes rest : List ℕ) (len at : ℕ)
    → drop at bytes ≡ written ++ rest
    → at + length written ≤ len
    → read bytes len at ≡ ok (some (v, at + length written))

-- A field that fits is read.
pub unless_fits {ℓ} :
    {X : Type ℓ} (len end : ℕ) {x y : X}
    → end ≤ len
    → x ≡ y
    → Path (Result (Option X)) (unless (ltb len end) x) (ok (some y))
unless_fits len end {x} fits e =
    let inside : ltb len end ≡ false = ground arith in rw inside (ap (λ z. ok (some z)) e)

read-two_u32 :
    (v : ℕ) (rest : List ℕ)
    → v < 2 ^ 64
    → read_u32 (put_u32 (v % 2 ^ 32) ++ put_u32 (v / 2 ^ 32) ++ rest)
        + read_u32 (put_u32 (v / 2 ^ 32) ++ rest) * 2 ^ 32
      ≡ v
read-two_u32 v rest h =
    let low = read-put_u32 (v % 2 ^ 32) (put_u32 (v / 2 ^ 32) ++ rest) (omega arith) in
    let high = read-put_u32 (v / 2 ^ 32) rest (omega arith) in omega (arith, low, high)

fits_int32-IsSigned : (i : ℤ) → not (fits_int32 i) ≡ false → IsSigned 32 i
fits_int32-IsSigned (pos n) h = ground arith
fits_int32-IsSigned (negsuc n) h = ground arith

pub take_int-put_int :
    (col : ColumnSpec) (i : ℤ)
    → IsSigned 64 i
    → Ensures (IfSome (ReadsBack (take_int col) (int_val col.type i))) (put_int col i)
unfolding take_int put_int
take_int-put_int col i h =
    let P = IfSome (ReadsBack (take_int col) (int_val col.type i)) in
    let value = λ (j : ℤ). int_val col.type j in
    Ensures-if P (not (store_eq col.type.store Store.fixed)) _ _ (λ bad. tt)
      λ good.
        Ensures-if P (col.type.width == 4) _ _
          (λ four.
            Ensures-if P (not (fits_int32 i)) _ _ (λ big. tt)
              λ small bytes rest len at placed fits.
                let bits =
                  read-put_u32 (to_unsigned 32 i) rest (to_unsigned_bound 32 i (omega arith)) in
                let back = of_unsigned-to_unsigned_32 i (fits_int32-IsSigned i small) in
                rw (four, placed)
                  (unless_fits len (at + 4) fits
                    (ap (λ u. (value u, at + 4)) (ap (of_unsigned 32) bits ∙ back))))
          λ not_four.
            Ensures-if P (col.type.width == 8) _ _
              (λ eight bytes rest len at placed fits.
                let bits =
                  read-two_u32 (to_unsigned 64 i) rest (to_unsigned_bound 64 i (omega arith)) in
                let back = of_unsigned-to_unsigned_64 i h in
                rw (not_four, eight, placed)
                  (unless_fits len (at + 8) fits
                    (ap (λ u. (value u, at + 8)) (ap (of_unsigned 64) bits ∙ back))))
              λ other. tt

pub take_double-put_double :
    (col : ColumnSpec) (bits : ℕ)
    → bits < 2 ^ 64
    → Ensures
        (IfSome (ReadsBack (take_double col) (double_val col.type bits)))
        (put_double col bits)
unfolding take_double put_double
take_double-put_double col bits h =
    let P = IfSome (ReadsBack (take_double col) (double_val col.type bits)) in
    Ensures-if P (not (is_finite64 bits)) _ _ (λ bad. tt)
      λ finite.
        Ensures-if P (not (store_eq col.type.store Store.fixed) || not (col.type.width == 8)) _ _
          (λ bad. tt)
          λ good bytes rest len at placed fits. rw placed (
            unless_fits len (at + 8) fits
              (ap (λ u. (double_val col.type u, at + 8)) (read-two_u32 bits rest h)))

pub take_float-put_float :
    (col : ColumnSpec) (bits : ℕ)
    → bits < 2 ^ 32
    → Ensures (IfSome (ReadsBack (take_float col) (float_val col.type bits))) (put_float col bits)
unfolding take_float put_float
take_float-put_float col bits h =
    let P = IfSome (ReadsBack (take_float col) (float_val col.type bits)) in
    Ensures-if P (not (is_finite32 bits)) _ _ (λ bad. tt)
      λ finite.
        Ensures-if P (not (store_eq col.type.store Store.fixed) || not (col.type.width == 4)) _ _
          (λ bad. tt)
          λ good bytes rest len at placed fits. rw placed (
            unless_fits len (at + 4) fits
              (ap (λ u. (float_val col.type u, at + 4)) (read-put_u32 bits rest h)))

pub take_bool-put_bool :
    (col : ColumnSpec) (b : Bool)
    → Ensures (IfSome (ReadsBack (take_bool col) (bool_val col.type b))) (put_bool col b)
unfolding take_bool put_bool
take_bool-put_bool col b =
    let P = IfSome (ReadsBack (take_bool col) (bool_val col.type b)) in
    Ensures-if P (not (store_eq col.type.store Store.fixed) || not (col.type.width == 1)) _ _
      (λ bad. tt) λ good bytes rest len at placed fits. rw placed (inside b len at fits)
  where
    inside :
        (b : Bool) (len at : ℕ)
        → at + 1 ≤ len
        → Path Read
            (if ltb len (at + 1)
              then ok none
              else unless
                  (ltb 1 (if b then 1 else 0))
                  (bool_val col.type (not ((if b then 1 else 0) == 0)), at + 1))
            (ok (some (bool_val col.type b, at + 1)))
    inside true len at h = let e : ltb len (at + 1) ≡ false = ground arith in rw e refl
    inside false len at h = let e : ltb len (at + 1) ≡ false = ground arith in rw e refl

-- ==================== Text ====================

-- What a column of fixed length holds: the text, padded with spaces.
abbrev pub padded : ColumnSpec → List ℕ → List ℕ
padded col s =
    if store_eq col.type.store Store.char_pad
    then s ++ replicate (col.length - length s) b' '
    else s

read_var :
    (t : TypeAttr) (n : ℕ) (s rest : List ℕ) (len at : ℕ)
    → n ≡ length s
    → at + suc (suc (length s)) ≤ len
    → Path Read
        (if ltb len (at + 2)
          then ok none
          else unless (ltb len (at + 2 + n)) (str_val t (take n (s ++ rest)), at + 2 + n))
        (ok (some (str_val t s, at + suc (suc (length s)))))
read_var t n s rest len at e fits =
    let inside : ltb len (at + 2) ≡ false = ground arith in
    rw (inside, e)
      (unless_fits len (at + 2 + length s) (omega arith)
        (ap₂ (λ u k. (str_val t u, k)) (take-append s rest) (omega arith)))

read_char :
    (t : TypeAttr) (n : ℕ) (s rest : List ℕ) (len at : ℕ)
    → n ≡ length s
    → at + length s ≤ len
    → Path Read
        (unless (ltb len (at + n)) (str_val t (take n (s ++ rest)), at + n))
        (ok (some (str_val t s, at + length s)))
read_char t n s rest len at e fits = rw e (
    unless_fits len (at + length s) fits
      (ap (λ u. (str_val t u, at + length s)) (take-append s rest)))

pub take_text-put_text :
    (col : ColumnSpec) (s : List ℕ)
    → Ensures
        (IfSome (ReadsBack (take_text col) (str_val col.type (padded col s))))
        (put_text col s)
unfolding take_text put_text
take_text-put_text col s =
    let P = IfSome (ReadsBack (take_text col) (str_val col.type (padded col s))) in
    Ensures-if P (store_eq col.type.store Store.var_len) _ _
      (λ var.
        Ensures-if P (ltb 65535 (length s) || (ltb 0 col.length && ltb col.length (length s))) _ _
          (λ long. tt)
          λ short bytes rest len at placed fits.
            let not_char : store_eq col.type.store Store.char_pad ≡ false = ground (arith, var) in
            let size : length s < 2 ^ 16 = ground (arith, short) in
            rw (var, placed, not_char)
              (read_var col.type _ s rest len at (read-put_u16 (length s) (s ++ rest) size)
                (omega (arith, fits))))
      λ not_var.
        Ensures-if P (store_eq col.type.store Store.char_pad) _ _
          (λ char.
            Ensures-if P (ltb col.length (length s)) _ _ (λ long. tt)
              λ short bytes rest len at placed fits.
                let size : col.length ≡ length (s ++ replicate (col.length - length s) b' ') =
                  ground (
                    arith,
                    short,
                    length-append s (replicate (col.length - length s) b' '),
                    length-replicate {A = ℕ} (col.length - length s) b' ',
                  ) in
                rw (not_var, char, placed)
                  (read_char col.type _ (s ++ replicate (col.length - length s) b' ') rest len at
                    size fits))
          λ other. tt
