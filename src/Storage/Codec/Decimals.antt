-- ===== src/Storage/Codec/Decimals.antt =====
-- storage/codec.cpp: numerics, the 16 bytes of the complement and the scale.
use my_simple_db.Prelude.{
  ℕ, ◌+◌, ◌-◌, ◌^◌, ◌<◌, ◌≤◌, ◌≡◌, refl, ap, List, [], ◌∷◌, ◌++◌, Bool, true, false, not, ltb, leb,
  if◌then◌else◌, get_or, arith, length, none, some, ◌∙◌, length-append, drop-append, length-map,
  subst, sym,
}
use mathlib.Core.List.{append_assoc}
use my_simple_db.Prelude.Int.{ℤ, pos, negsuc, abs, is_negative, signed}
use my_simple_db.Common.{ok, Ensures, Ensures-if}
use my_simple_db.Storage.Types.{
  Store, TypeAttr, ColumnSpec, DecimalVal, store_eq, numeric_val, numeric_unscaled_max,
}
use my_simple_db.Storage.Codec.Bytes.{
  length-low_bytes, low_bytes, invert, invert-IsBytes, increment, length-increment, read_bytes,
  read_bytes-low_bytes, read_bytes-invert, read_bytes-increment,
}
use my_simple_db.Storage.Codec.{Read, unless, put_decimal, take_decimal, complement, signed_128}
use my_simple_db.Storage.Codec.Columns.{IfSome, ReadsBack}

length-complement : (negative : Bool) (m : ℕ) → length (complement negative m) ≡ 16
length-complement false m = length-low_bytes 16 m
length-complement true m =
    length-increment (invert (low_bytes 16 m))
    ∙ (length-map (low_bytes 16 m) (λ b. 255 - b) ∙ length-low_bytes 16 m)

-- The bytes of a negative number are those of 2^128 less its magnitude.
read_bytes-complement :
    (m : ℕ) (rest : List ℕ)
    → 0 < m
    → m < 2 ^ 128
    → read_bytes 16 (complement true m ++ rest) + m ≡ 2 ^ 128
read_bytes-complement m rest positive h =
    let bs = invert (low_bytes 16 m) in
    let size : length bs ≡ 16 =
      length-map (low_bytes 16 m) (λ b. 255 - b) ∙ length-low_bytes 16 m in
    let value : read_bytes 16 (bs ++ rest) + m + 1 ≡ 2 ^ 128 = read_bytes-invert 16 m rest h in
    let low : read_bytes 16 (bs ++ rest) + 1 < 256 ^ 16 = omega (arith, value) in
    let next : read_bytes 16 (increment bs ++ rest) ≡ read_bytes 16 (bs ++ rest) + 1 =
      subst
        (λ k.
          read_bytes k (bs ++ rest) + 1 < 256 ^ k
          → read_bytes k (increment bs ++ rest) ≡ read_bytes k (bs ++ rest) + 1)
        size (read_bytes-increment bs rest (invert-IsBytes (low_bytes 16 m))) low in
    omega (arith, next, value)

signed_128-complement :
    (negative : Bool) (m : ℕ) (rest : List ℕ)
    → (negative ≡ true → 0 < m)
    → m < 2 ^ 127
    → signed_128 (read_bytes 16 (complement negative m ++ rest)) ≡ signed negative m
signed_128-complement false m rest positive small =
    let value = read_bytes-low_bytes 16 m rest (omega (arith, small)) in
    rw value (ground (arith, small))
signed_128-complement true m rest positive small =
    let value = read_bytes-complement m rest (positive refl) (omega (arith, small)) in
    let x = read_bytes 16 (complement true m ++ rest) in negated x value
  where
    negated : (x : ℕ) → x + m ≡ 2 ^ 128 → signed_128 x ≡ signed true m
    negated x e = ground (arith, positive refl)

signed-abs : (u : ℤ) → signed (is_negative u) (abs u) ≡ u
signed-abs (pos n) = ground arith
signed-abs (negsuc n) = ground arith

abs_positive : (u : ℤ) → is_negative u ≡ true → 0 < abs u
abs_positive (pos n) h = cc
abs_positive (negsuc n) h = omega arith

read_decimal :
    (t : TypeAttr) (u v : ℤ) (k scale len at : ℕ)
    → u ≡ v
    → k ≡ scale
    → leb numeric_unscaled_max (abs v) ≡ false
    → at + 17 ≤ len
    → Path Read
        (if ltb len (at + 17)
          then ok none
          else unless (leb numeric_unscaled_max (abs u)) (numeric_val t u k, at + 17))
        (ok (some (numeric_val t v scale, at + 17)))
read_decimal t u v k scale len at e f small fits =
    let inside : ltb len (at + 17) ≡ false = ground (arith, fits) in rw (e, f, inside, small) refl

pub take_decimal-put_decimal :
    (col : ColumnSpec) (d : DecimalVal)
    → d.scale < 256
    → Ensures
        (IfSome (ReadsBack (take_decimal col) (numeric_val col.type d.unscaled d.scale)))
        (put_decimal col d)
unfolding take_decimal put_decimal
take_decimal-put_decimal col d h =
    let P = IfSome (ReadsBack (take_decimal col) (numeric_val col.type d.unscaled d.scale)) in
    Ensures-if P (leb numeric_unscaled_max (abs d.unscaled)) _ _ (λ bad. tt)
      λ small.
        Ensures-if P (not (store_eq col.type.store Store.decimal)) _ _ (λ bad. tt)
          λ good bytes rest len at placed fits.
            let u = d.unscaled in
            let c = complement (is_negative u) (abs u) in
            let size = length-complement (is_negative u) (abs u) in
            let end : 17 ≡ length (c ++ (d.scale ∷ [])) =
              omega (arith, length-append c (d.scale ∷ []), size) in
            let value =
              signed_128-complement (is_negative u) (abs u) (d.scale ∷ rest) (abs_positive u)
                (ground (arith, small))
              ∙ signed-abs u in
            let scale = ap (λ p. get_or p 0 0) (drop-append 16 c (d.scale ∷ rest) (sym size)) in
            rw (placed ∙ append_assoc c (d.scale ∷ []) rest, sym end)
              (read_decimal col.type _ u _ d.scale len at value scale small
                (omega (arith, fits, end)))
