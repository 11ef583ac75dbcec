-- ===== src/Storage/Buffer/Log/Same.antt =====
-- storage/buffer_pool.cpp: the bytes of a page that log_page_diff writes no patch for.
use my_simple_db.Prelude.{
  ℕ, zero, suc, ◌+◌, ◌*◌, ◌/◌, ◌%◌, ◌<◌, ◌≤◌, ◌≡◌, refl, sym, ap, ◌∙◌, Bool, true, false, not, List,
  [], ◌∷◌, ltb, arith, inl, inr, Bool-cases, get_or, drop, get_or-drop, length, ==_iff, subst,
}
use mathlib.Core.Bool.{false≢true}
use my_simple_db.Storage.Codec.Bytes.{read_bytes, IsBytes}
use my_simple_db.Storage.Buffer.{PageFrame}
use my_simple_db.Storage.Buffer.Diff.{words, load, word_differs}
use my_simple_db.Storage.Buffer.Scan.{intervals, in_intervals, in_intervals-intervals}
use my_simple_db.Storage.Buffer.Log.{IsFrame}

-- Every byte that a read gives is one.
abbrev AllSmall : List ℕ → Type 0
AllSmall p = (j : ℕ) → get_or p j 0 < 256

AllSmall_lem : (p : List ℕ) → IsBytes p → AllSmall p
AllSmall_lem [] h j = omega arith
AllSmall_lem (b ∷ bs) h zero = h.0
AllSmall_lem (b ∷ bs) h (suc j) = AllSmall_lem bs h.1 j

AllSmall-drop : (k : ℕ) (p : List ℕ) → AllSmall p → AllSmall (drop k p)
AllSmall-drop k p h j = rw (get_or-drop k p j 0) (h (k + j))

-- Bytes that make the same number are the same.
get_or-read_bytes :
    (n : ℕ) (p q : List ℕ) (j : ℕ)
    → AllSmall p
    → AllSmall q
    → read_bytes n p ≡ read_bytes n q
    → j < n
    → get_or p j 0 ≡ get_or q j 0
unfolding read_bytes
get_or-read_bytes zero p q j hp hq e h = absurd (omega (arith, h))
get_or-read_bytes (suc n) p q zero hp hq e h = omega (arith, e, hp 0, hq 0)
get_or-read_bytes (suc n) p q (suc j) hp hq e h =
    let rest : read_bytes n (drop 1 p) ≡ read_bytes n (drop 1 q) = omega (arith, e, hp 0, hq 0) in
    let ih =
      get_or-read_bytes n (drop 1 p) (drop 1 q) j (AllSmall-drop 1 p hp) (AllSmall-drop 1 q hq) rest
        (omega (arith, h)) in
    let next : 1 + j ≡ suc j = omega arith in
    subst (λ k. get_or p k 0 ≡ get_or q k 0) next
      (sym (get_or-drop 1 p j 0) ∙ (ih ∙ get_or-drop 1 q j 0))

get_or_beyond : (p : List ℕ) (i : ℕ) → length p ≤ i → get_or p i 0 ≡ 0
get_or_beyond [] i h = refl
get_or_beyond (b ∷ bs) zero h = absurd (omega (arith, h))
get_or_beyond (b ∷ bs) (suc i) h = get_or_beyond bs i (omega (arith, h))

same_word :
    (f : PageFrame) (i : ℕ)
    → IsFrame f
    → word_differs f (i / 8) ≡ false
    → get_or f.before i 0 ≡ get_or f.bytes i 0
same_word f i frame h =
    let e : load f.before (i / 8) ≡ load f.bytes (i / 8) = (==_iff _ _).0 (flip _ h) in
    let place : i / 8 * 8 + i % 8 ≡ i = omega arith in
    let at = λ (p : List ℕ). get_or-drop (i / 8 * 8) p (i % 8) 0 ∙ ap (λ k. get_or p k 0) place in
    sym (at f.before)
    ∙ (get_or-read_bytes 8 _ _ (i % 8)
          (AllSmall-drop _ f.before (AllSmall_lem f.before frame.octets_before))
          (AllSmall-drop _ f.bytes (AllSmall_lem f.bytes frame.octets)) e (omega arith)
        ∙ at f.bytes)
  where
    flip : (b : Bool) → not b ≡ false → b ≡ true
    flip true e = refl
    flip false e = cc

pub same_outside :
    (f : PageFrame) (i : ℕ)
    → IsFrame f
    → in_intervals (intervals words f 0) (i / 8) ≡ false
    → get_or f.before i 0 ≡ get_or f.bytes i 0
same_outside f i frame out = elim (Bool-cases (ltb (i / 8) words)) [
  | inl inside ↦ elim (Bool-cases (word_differs f (i / 8))) [
    | inl differs ↦ absurd (
        false≢true (
          sym out
          ∙ in_intervals-intervals words f 0 (i / 8) (omega arith) (omega arith)
              (ground (arith, inside)) differs))
    | inr same ↦ same_word f i frame same
  ]
  | inr beyond ↦
      let far : 4096 ≤ i = ground (arith, beyond) in
      get_or_beyond f.before i (omega (arith, far, frame.size_before))
      ∙ sym (get_or_beyond f.bytes i (omega (arith, far, frame.size)))
]
