-- ===== src/Storage/Codec/Bounds.antt =====
-- storage/codec.cpp: the bytes that decode_row reads.
use my_simple_db.Prelude.{
  ℕ, zero, suc, ◌+◌, ◌*◌, ◌/◌, ◌^◌, ◌<◌, ◌≤◌, ◌≡◌, refl, ap, ap₂, ◌∙◌, Option, none, some, List, [],
  ◌∷◌, ◌++◌, ltb, leb, ◌==◌, length, get_or, take, drop, arith, inl, inr, Bool-cases, get_or-append,
  drop-append_le, take-append_le, length-drop,
}
use my_simple_db.Common.{Result, ok, err, exit}
use my_simple_db.Storage.Types.{
  Rep, Store, ColumnSpec, store_eq, int_val, double_val, str_val, numeric_val, numeric_unscaled_max,
}
use my_simple_db.Prelude.Int.{abs}
use my_simple_db.Storage.Codec.Bytes.{read_u16, read_u32, read_bytes, of_unsigned}
use my_simple_db.Storage.Codec.{
  Read, unless, and_then, take_int, take_double, take_text, take_float, take_bool, take_decimal,
  signed_128, take_box, decode_column, decode_loop, decode_row,
}

-- A test that fails on both sides, or results that agree where it passes.
unless_agree {ℓ} :
    {X : Type ℓ} (len end : ℕ) (x y : X)
    → (end ≤ len → x ≡ y)
    → Path (Result (Option X)) (unless (ltb len end) x) (unless (ltb len end) y)
unless_agree len end x y h = elim (Bool-cases (ltb len end)) [
  | inl p ↦ rw p refl
  | inr p ↦ rw p (ap (λ z. ok (some z)) (h (ground (arith, p))))
]

and_then_agree {ℓ κ} :
    {X : Type ℓ} {Y : Type κ} (r : Result (Option X)) (k l : X → Result (Option Y))
    → ((x : X) → k x ≡ l x)
    → and_then r k ≡ and_then r l
and_then_agree (ok none) k l h = refl
and_then_agree (ok (some x)) k l h = h x
and_then_agree (err e) k l h = refl
and_then_agree exit k l h = refl

read_u16-append : (p more : List ℕ) → 2 ≤ length p → read_u16 (p ++ more) ≡ read_u16 p
read_u16-append p more h =
    rw (get_or-append p more 0 0 (omega (arith, h)), get_or-append p more 1 0 (omega (arith, h)))
      refl

read_u32-append : (p more : List ℕ) → 4 ≤ length p → read_u32 (p ++ more) ≡ read_u32 p
read_u32-append p more h =
    rw
      (
        get_or-append p more 0 0 (omega (arith, h)),
        get_or-append p more 1 0 (omega (arith, h)),
        get_or-append p more 2 0 (omega (arith, h)),
        get_or-append p more 3 0 (omega (arith, h)),
      )
      refl

read_bytes-append :
    (n : ℕ) (p more : List ℕ) → n ≤ length p → read_bytes n (p ++ more) ≡ read_bytes n p
unfolding read_bytes
read_bytes-append zero p more h = refl
read_bytes-append (suc n) [] more h = absurd (omega (arith, h))
read_bytes-append (suc n) (x ∷ p) more h =
    ap (λ k. x + 256 * k) (read_bytes-append n p more (omega (arith, h)))

-- A field of `n` bytes that lies within the record: what is read from its first byte on.
within :
    (row more : List ℕ) (at n : ℕ)
    → at + n ≤ length row
    → (drop at (row ++ more) ≡ drop at row ++ more) × (n ≤ length (drop at row))
within row more at n h =
    (drop-append_le at row more (omega (arith, h)), omega (arith, h, length-drop at row))

-- `read` gives the same whatever follows the record.
abbrev Bounded : (List ℕ → ℕ → ℕ → Read) → Type 0
Bounded read =
    (rec more : List ℕ) (at : ℕ) → read (rec ++ more) (length rec) at ≡ read rec (length rec) at

take_float-Bounded : (col : ColumnSpec) → Bounded (take_float col)
unfolding take_float
take_float-Bounded col rec more at =
    unless_agree (length rec) (at + 4) _ _
      λ h. let w = within rec more at 4 h in rw (w.0, read_u32-append (drop at rec) more w.1) refl

take_bool-Bounded : (col : ColumnSpec) → Bounded (take_bool col)
unfolding take_bool
take_bool-Bounded col rec more at = elim (Bool-cases (ltb (length rec) (at + 1))) [
  | inl p ↦ rw p refl
  | inr p ↦
      let w = within rec more at 1 (ground (arith, p)) in
      rw (p, w.0, get_or-append (drop at rec) more 0 0 w.1) refl
]

read_two-append :
    (p more : List ℕ)
    → 8 ≤ length p
    → read_u32 (p ++ more) + read_u32 (drop 4 (p ++ more)) * 2 ^ 32
      ≡ read_u32 p + read_u32 (drop 4 p) * 2 ^ 32
read_two-append p more h =
    let rest = drop-append_le 4 p more (omega (arith, h)) in
    ap₂ (λ x y. x + y * 2 ^ 32) (read_u32-append p more (omega (arith, h)))
      (ap read_u32 rest ∙ read_u32-append (drop 4 p) more (omega (arith, h, length-drop 4 p)))

take_double-Bounded : (col : ColumnSpec) → Bounded (take_double col)
unfolding take_double
take_double-Bounded col rec more at = unless_agree (length rec) (at + 8) _ _ λ h.
    let w = within rec more at 8 h in
    rw w.0 (ap (λ u. (double_val col.type u, at + 8)) (read_two-append (drop at rec) more w.1))

take_int-Bounded : (col : ColumnSpec) → Bounded (take_int col)
unfolding take_int
take_int-Bounded col rec more at = elim (Bool-cases (col.type.width == 4)) [
  | inl four ↦ rw four (
      unless_agree (length rec) (at + 4) _ _ λ h.
        let w = within rec more at 4 h in
        rw w.0 (
          ap (λ u. (int_val col.type (of_unsigned 32 u), at + 4))
            (read_u32-append (drop at rec) more w.1)))
  | inr four ↦ elim (Bool-cases (col.type.width == 8)) [
    | inl eight ↦
        rw (four, eight)
          (unless_agree (length rec) (at + 8) _ _ λ h.
            let w = within rec more at 8 h in
            rw w.0 (
              ap (λ u. (int_val col.type (of_unsigned 64 u), at + 8))
                (read_two-append (drop at rec) more w.1)))
    | inr eight ↦ rw (four, eight) refl
  ]
]

take_text-Bounded : (col : ColumnSpec) → Bounded (take_text col)
unfolding take_text
take_text-Bounded col rec more at = elim (Bool-cases (store_eq col.type.store Store.var_len)) [
  | inl var ↦ elim (Bool-cases (ltb (length rec) (at + 2))) [
    | inl short ↦ rw (var, short) refl
    | inr long ↦
        let w = within rec more at 2 (ground (arith, long)) in
        let size = read_u16-append (drop at rec) more w.1 in
        rw (var, long, w.0, size)
          (unless_agree (length rec) (at + 2 + read_u16 (drop at rec)) _ _ λ h.
            ap (λ s. (str_val col.type s, at + 2 + read_u16 (drop at rec)))
              (ap (take _) (drop-append_le 2 (drop at rec) more w.1)
                ∙ take-append_le (read_u16 (drop at rec)) (drop 2 (drop at rec)) more
                    (omega (arith, h, length-drop 2 (drop at rec), length-drop at rec))))
  ]
  | inr var ↦ elim (Bool-cases (store_eq col.type.store Store.char_pad)) [
    | inl char ↦
        rw (var, char)
          (unless_agree (length rec) (at + col.length) _ _ λ h.
            let w = within rec more at col.length h in
            rw w.0 (
              ap (λ s. (str_val col.type s, at + col.length))
                (take-append_le col.length (drop at rec) more w.1)))
    | inr char ↦ rw (var, char) refl
  ]
]

take_decimal-Bounded : (col : ColumnSpec) → Bounded (take_decimal col)
unfolding take_decimal
take_decimal-Bounded col rec more at = elim (Bool-cases (ltb (length rec) (at + 17))) [
  | inl short ↦ rw short refl
  | inr long ↦
      let w = within rec more at 17 (ground (arith, long)) in
      let p = drop at rec in
      let mag = read_bytes-append 16 p more (omega (arith, w.1)) in
      let scale =
        ap (λ q. get_or q 0 0) (drop-append_le 16 p more (omega (arith, w.1)))
        ∙ get_or-append (drop 16 p) more 0 0 (omega (arith, w.1, length-drop 16 p)) in
      rw (long, w.0, scale)
        (ap
          (λ m.
            unless (leb numeric_unscaled_max (abs (signed_128 m)))
              (numeric_val col.type (signed_128 m) (get_or (drop 16 p) 0 0), at + 17))
          mag)
]

take_box-Bounded : (r : Rep) (col : ColumnSpec) → Bounded (take_box r col)
unfolding take_box
take_box-Bounded Rep.int64 col = take_int-Bounded col
take_box-Bounded Rep.double col = take_double-Bounded col
take_box-Bounded Rep.str col = take_text-Bounded col
take_box-Bounded Rep.float col = take_float-Bounded col
take_box-Bounded Rep.bool col = take_bool-Bounded col
take_box-Bounded Rep.dec col = take_decimal-Bounded col
take_box-Bounded Rep.none col = λ rec more at. refl

decode_column-Bounded :
    (i : ℕ) (col : ColumnSpec) (rec more : List ℕ) (at : ℕ)
    → 2 + i / 8 < length rec
    → decode_column i col (rec ++ more) (length rec) at ≡ decode_column i col rec (length rec) at
unfolding decode_column
decode_column-Bounded i col rec more at h =
    rw (get_or-append rec more (2 + i / 8) 0 h, take_box-Bounded col.type.rep col rec more at) refl

decode_loop-Bounded :
    (cols : List ColumnSpec) (i : ℕ) (rec more : List ℕ) (at : ℕ)
    → 2 + (i + length cols + 7) / 8 ≤ length rec
    → decode_loop i cols (rec ++ more) (length rec) at ≡ decode_loop i cols rec (length rec) at
unfolding decode_loop
decode_loop-Bounded [] i rec more at h = refl
decode_loop-Bounded (col ∷ cols) i rec more at h =
    rw (decode_column-Bounded i col rec more at (omega (arith, h))) (
      and_then_agree (decode_column i col rec (length rec) at) _ _
        λ r. rw (decode_loop-Bounded cols (suc i) rec more r.1 (omega (arith, h))) refl)

-- What decode_row returns for a record, correct or not, does not depend on the bytes after it.
pub decode_row_bounded :
    (cols : List ColumnSpec) (rec more : List ℕ)
    → decode_row cols (rec ++ more) (length rec) ≡ decode_row cols rec (length rec)
unfolding decode_row
decode_row_bounded cols rec more = elim (Bool-cases (ltb (length rec) 2)) [
  | inl short ↦ rw short refl
  | inr long ↦
      let header = read_u16-append rec more (ground (arith, long)) in
      elim (Bool-cases (ltb (length rec) (2 + (length cols + 7) / 8))) [
        | inl p ↦ rw (header, p) refl
        | inr p ↦
            rw (header, p)
              (rw
                (decode_loop-Bounded cols 0 rec more (2 + (length cols + 7) / 8)
                  (ground (arith, p)))
                refl)
      ]
]
