-- ===== src/Storage/Codec/Bytes.antt =====
-- storage/codec.cpp: integers as little-endian bytes, put_u16 to read_u32, and what the C++
-- conversions between signed and unsigned integers do. A pointer into the record is the list of
-- the bytes from there on; a byte beyond the list reads as 0.
use my_simple_db.Prelude.{
  ℕ, zero, suc, ◌+◌, ◌-◌, ◌*◌, ◌/◌, ◌%◌, ◌^◌, ◌<◌, ◌≡◌, refl, List, [], ◌∷◌, ◌++◌, map, Bool, true,
  false, ltb, ◌==◌, if◌then◌else◌, get_or, drop, arith, length, ◌≢◌, ap, inl, inr, Bool-cases,
}
use native.Mathlib.Nat.{mod-lt, pow-suc}
use my_simple_db.Prelude.Int.{ℤ, pos, negsuc}

abbrev pub put_u16 : ℕ → List ℕ
put_u16 v = (v % 256) ∷ (v / 256 % 256) ∷ []

abbrev pub put_u32 : ℕ → List ℕ
put_u32 v = (v % 256) ∷ (v / 256 % 256) ∷ (v / 2 ^ 16 % 256) ∷ (v / 2 ^ 24 % 256) ∷ []

abbrev pub read_u16 : List ℕ → ℕ
read_u16 p = get_or p 0 0 + get_or p 1 0 * 256

abbrev pub read_u32 : List ℕ → ℕ
read_u32 p = get_or p 0 0 + get_or p 1 0 * 256 + get_or p 2 0 * 2 ^ 16 + get_or p 3 0 * 2 ^ 24

-- static_cast of an integer to the unsigned type of `w` bits, and of such a number to the signed
-- type of the same width.
unfoldable pub to_unsigned : ℕ → ℤ → ℕ
to_unsigned w (pos n) = n % 2 ^ w
to_unsigned w (negsuc n) = 2 ^ w - 1 - n % 2 ^ w

unfoldable pub of_unsigned : ℕ → ℕ → ℤ
of_unsigned w u = if ltb u (2 ^ (w - 1)) then pos u else negsuc (2 ^ w - 1 - u)

pub read-put_u16 : (v : ℕ) (rest : List ℕ) → v < 2 ^ 16 → read_u16 (put_u16 v ++ rest) ≡ v
read-put_u16 v rest h = omega arith

pub read-put_u32 : (v : ℕ) (rest : List ℕ) → v < 2 ^ 32 → read_u32 (put_u32 v ++ rest) ≡ v
read-put_u32 v rest h = omega arith

-- Bits of a byte: `b |= 1 << k` and `(b >> k) & 1`.
unfoldable pub set_bit : ℕ → ℕ → ℕ
set_bit b zero = if b % 2 == 1 then b else b + 1
set_bit b (suc k) = b % 2 + 2 * set_bit (b / 2) k

unfoldable pub test_bit : ℕ → ℕ → Bool
test_bit b zero = b % 2 == 1
test_bit b (suc k) = test_bit (b / 2) k

-- The `n` low bytes of a magnitude, the lowest first, and the number of `n` bytes.
unfoldable pub low_bytes : ℕ → ℕ → List ℕ
low_bytes zero m = []
low_bytes (suc n) m = (m % 256) ∷ low_bytes n (m / 256)

unfoldable pub read_bytes : ℕ → List ℕ → ℕ
read_bytes zero p = 0
read_bytes (suc n) p = get_or p 0 0 + 256 * read_bytes n (drop 1 p)

-- The two loops that negate: `~b` of each byte, and one added with the carry.
abbrev pub invert : List ℕ → List ℕ
invert bs = map (λ b. 255 - b) bs

unfoldable pub increment : List ℕ → List ℕ
increment [] = []
increment (b ∷ bs) =
    let rest = increment bs in if (b + 1) % 256 == 0 then 0 ∷ rest else (b + 1) ∷ bs

-- ==================== Lemmas ====================

-- The integers of the signed type of `w` bits.
abbrev pub IsSigned : ℕ → ℤ → Type 0
IsSigned w (pos n) = n < 2 ^ (w - 1)
IsSigned w (negsuc n) = n < 2 ^ (w - 1)

pub of_unsigned-to_unsigned_32 : (i : ℤ) → IsSigned 32 i → of_unsigned 32 (to_unsigned 32 i) ≡ i
unfolding of_unsigned to_unsigned
of_unsigned-to_unsigned_32 (pos n) h = ground arith
of_unsigned-to_unsigned_32 (negsuc n) h = ground arith

pub of_unsigned-to_unsigned_64 : (i : ℤ) → IsSigned 64 i → of_unsigned 64 (to_unsigned 64 i) ≡ i
unfolding of_unsigned to_unsigned
of_unsigned-to_unsigned_64 (pos n) h = ground arith
of_unsigned-to_unsigned_64 (negsuc n) h = ground arith

pub to_unsigned_bound : (w : ℕ) (i : ℤ) → 0 < 2 ^ w → to_unsigned w i < 2 ^ w
unfolding to_unsigned
to_unsigned_bound w (pos n) h = grind (arith, mod-lt n h)
to_unsigned_bound w (negsuc n) h = omega arith

-- A bit that is set reads as set, and the others as before.
pub test_bit-set_bit_self : (b k : ℕ) → test_bit (set_bit b k) k ≡ true
unfolding set_bit test_bit
test_bit-set_bit_self b zero = ground arith
test_bit-set_bit_self b (suc k) =
    let half : (b % 2 + 2 * set_bit (b / 2) k) / 2 ≡ set_bit (b / 2) k = omega arith in
    rw half (test_bit-set_bit_self (b / 2) k)

pub test_bit-set_bit_ne : (b k j : ℕ) → k ≢ j → test_bit (set_bit b k) j ≡ test_bit b j
unfolding set_bit test_bit
test_bit-set_bit_ne b zero zero h = absurd (h refl)
test_bit-set_bit_ne b zero (suc j) h =
    let half : (if b % 2 == 1 then b else b + 1) / 2 ≡ b / 2 = ground arith in rw half refl
test_bit-set_bit_ne b (suc k) zero h =
    let low : (b % 2 + 2 * set_bit (b / 2) k) % 2 ≡ b % 2 = omega arith in rw low refl
test_bit-set_bit_ne b (suc k) (suc j) h =
    let half : (b % 2 + 2 * set_bit (b / 2) k) / 2 ≡ set_bit (b / 2) k = omega arith in
    rw half (test_bit-set_bit_ne (b / 2) k j (λ e. h (ap suc e)))

pub test_bit_zero : (k : ℕ) → test_bit 0 k ≡ false
unfolding test_bit
test_bit_zero zero = refl
test_bit_zero (suc k) = test_bit_zero k

pub length-low_bytes : (n m : ℕ) → length (low_bytes n m) ≡ n
unfolding low_bytes
length-low_bytes zero m = refl
length-low_bytes (suc n) m = ap suc (length-low_bytes n (m / 256))

one256 : 256 ^ 0 ≡ 1
one256 = refl

pub read_bytes-low_bytes :
    (n m : ℕ) (rest : List ℕ) → m < 256 ^ n → read_bytes n (low_bytes n m ++ rest) ≡ m
unfolding low_bytes read_bytes
read_bytes-low_bytes zero m rest h = omega (arith, one256)
read_bytes-low_bytes (suc n) m rest h =
    let e : 256 ^ suc n ≡ 256 ^ n * 256 = pow-suc 256 _ in
    let ih = read_bytes-low_bytes n (m / 256) rest (omega (arith, e)) in rw ih (omega arith)

-- The bytes of the complement.
pub read_bytes-invert :
    (n m : ℕ) (rest : List ℕ)
    → m < 256 ^ n
    → read_bytes n (invert (low_bytes n m) ++ rest) + m + 1 ≡ 256 ^ n
unfolding low_bytes read_bytes
read_bytes-invert zero m rest h = omega (arith, one256)
read_bytes-invert (suc n) m rest h =
    let e : 256 ^ suc n ≡ 256 ^ n * 256 = pow-suc 256 _ in
    let ih = read_bytes-invert n (m / 256) rest (omega (arith, e)) in omega (arith, e, ih)

abbrev pub IsBytes : List ℕ → Type 0
IsBytes [] = Unit
IsBytes (b ∷ bs) = (b < 256) × IsBytes bs

pub invert-IsBytes : (bs : List ℕ) → IsBytes (invert bs)
invert-IsBytes [] = tt
invert-IsBytes (b ∷ bs) = (omega arith, invert-IsBytes bs)

pub length-increment : (bs : List ℕ) → length (increment bs) ≡ length bs
unfolding increment
length-increment [] = refl
length-increment (b ∷ bs) = elim (Bool-cases ((b + 1) % 256 == 0)) [
  | inl p ↦ rw p (ap suc (length-increment bs))
  | inr p ↦ rw p refl
]

pub read_bytes-increment :
    (bs : List ℕ) (rest : List ℕ)
    → IsBytes bs
    → read_bytes (length bs) (bs ++ rest) + 1 < 256 ^ length bs
    → read_bytes (length bs) (increment bs ++ rest) ≡ read_bytes (length bs) (bs ++ rest) + 1
unfolding increment read_bytes
read_bytes-increment [] rest h small = absurd (omega (arith, one256, small))
read_bytes-increment (b ∷ bs) rest h small =
    let e : 256 ^ suc (length bs) ≡ 256 ^ length bs * 256 = pow-suc 256 _ in
    elim (Bool-cases ((b + 1) % 256 == 0)) [
      | inl p ↦
          let full : b ≡ 255 = ground (arith, h.0, p) in
          let ih = read_bytes-increment bs rest h.1 (omega (arith, e, small, full)) in
          rw (p, ih) (omega (arith, full))
      | inr p ↦ rw p (omega arith)
    ]
