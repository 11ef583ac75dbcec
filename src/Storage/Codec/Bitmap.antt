-- ===== src/Storage/Codec/Bitmap.antt =====
-- storage/codec.cpp: the NULL bitmap, bit `i % 8` of byte `i / 8` for column `i`.
use my_simple_db.Prelude.{
  ℕ, suc, ◌+◌, ◌/◌, ◌%◌, ◌<◌, ◌≡◌, ◌≢◌, ap, ◌∙◌, inl, inr, List, ◌∷◌, ◌++◌, Bool, true, false, ◌==◌,
  Bool-cases, arith, length, get_or, set, replicate, get_or-set_self, get_or-set_ne, set-append,
  get_or-append, get_or-replicate,
}
use my_simple_db.Storage.Codec.Bytes.{
  set_bit, test_bit, test_bit-set_bit_self, test_bit-set_bit_ne, test_bit_zero,
}

abbrev pub mark : List ℕ → ℕ → List ℕ
mark bitmap i = set bitmap (i / 8) (set_bit (get_or bitmap (i / 8) 0) (i % 8))

abbrev pub marked : List ℕ → ℕ → Bool
marked bitmap i = test_bit (get_or bitmap (i / 8) 0) (i % 8)

pub marked-mark_self :
    (bitmap : List ℕ) (i : ℕ) → i / 8 < length bitmap → marked (mark bitmap i) i ≡ true
marked-mark_self bitmap i h =
    let b = get_or bitmap (i / 8) 0 in
    ap (λ x. test_bit x (i % 8)) (get_or-set_self bitmap (i / 8) (set_bit b (i % 8)) 0 h)
    ∙ test_bit-set_bit_self b (i % 8)

pub marked-mark_ne :
    (bitmap : List ℕ) (i j : ℕ)
    → i / 8 < length bitmap
    → i ≢ j
    → marked (mark bitmap i) j ≡ marked bitmap j
marked-mark_ne bitmap i j h differ =
    let b = get_or bitmap (i / 8) 0 in
    elim (Bool-cases (i / 8 == j / 8)) [
      | inl p ↦
          let byte : j / 8 ≡ i / 8 = ground (arith, p) in
          rw byte (
            ap (λ x. test_bit x (j % 8)) (get_or-set_self bitmap (i / 8) (set_bit b (i % 8)) 0 h)
            ∙ test_bit-set_bit_ne b (i % 8) (j % 8) (λ e. differ (omega (arith, byte, e))))
      | inr p ↦
          ap (λ x. test_bit x (j % 8))
            (get_or-set_ne bitmap (i / 8) (j / 8) _ 0 (λ e. ground (arith, p, e)))
    ]

pub marked-replicate : (n i : ℕ) → marked (replicate n 0) i ≡ false
marked-replicate n i =
    ap (λ x. test_bit x (i % 8)) (get_or-replicate n (i / 8) 0) ∙ test_bit_zero (i % 8)

-- The bitmap stands after the two bytes of the length.
two_suc : (k : ℕ) → 2 + k ≡ suc (suc k)
two_suc k = omega arith

pub set-header :
    (a b : ℕ) (bitmap body : List ℕ) (k v : ℕ)
    → k < length bitmap
    → set (a ∷ b ∷ (bitmap ++ body)) (2 + k) v ≡ a ∷ b ∷ (set bitmap k v ++ body)
set-header a b bitmap body k v h =
    rw (two_suc k) (ap (λ (z : List ℕ). a ∷ b ∷ z) (set-append bitmap body k v h))

pub get_or-header :
    (a b : ℕ) (bitmap body : List ℕ) (k : ℕ)
    → k < length bitmap
    → get_or (a ∷ b ∷ (bitmap ++ body)) (2 + k) 0 ≡ get_or bitmap k 0
get_or-header a b bitmap body k h = rw (two_suc k) (get_or-append bitmap body k 0 h)
