-- ===== src/Storage/Page/Heap/Stores.antt =====
-- storage/page.cpp: stores into the bytes of a page, and the heap pages that are in order.
use my_simple_db.Prelude.{
  ℕ, ◌+◌, ◌-◌, ◌*◌, ◌/◌, ◌%◌, ◌^◌, ◌<◌, ◌≤◌, ◌≡◌, ◌⊎◌, refl, sym, ap, ◌∙◌, subst, true, false, List,
  [], ◌∷◌, ◌++◌, length, get_or, arith, inl, inr,
}
use my_simple_db.Storage.Codec.Bytes.{put_u16}
use my_simple_db.Storage.Wal.{page_size}
use my_simple_db.Storage.Recovery.{overlay}
use my_simple_db.Storage.Recovery.Overlay.{within, length-overlay, get_or-overlay}
use my_simple_db.Storage.Page.Heap.{
  u16_at, slot_count, free_begin, free_end, slot_off, slot_len, slot_size, page_header_size,
}

-- A store, and the stores one after the other.
abbrev pub Store : Type 0
Store = ℕ × List ℕ

unfoldable pub store_all : List Store → List ℕ → List ℕ
store_all [] page = page
store_all (s ∷ ss) page = store_all ss (overlay s.0 s.1 page)

-- The stores lie in a page of some length, and do not reach an offset.
abbrev pub Fit : ℕ → List Store → Type 0
Fit n [] = Unit
Fit n (s ∷ ss) = (s.0 + length s.1 ≤ n) × Fit n ss

abbrev pub Miss : ℕ → List Store → Type 0
Miss j [] = Unit
Miss j (s ∷ ss) = ((j < s.0) ⊎ (s.0 + length s.1 ≤ j)) × Miss j ss

pub length-store_all :
    (ss : List Store) (page : List ℕ)
    → Fit (length page) ss
    → length (store_all ss page) ≡ length page
unfolding store_all
length-store_all [] page fit = refl
length-store_all (s ∷ ss) page fit =
    let e = length-overlay s.0 s.1 page fit.0 in
    length-store_all ss (overlay s.0 s.1 page) (subst (λ n. Fit n ss) (sym e) fit.1) ∙ e

outside :
    (s : Store) (j : ℕ) → (j < s.0) ⊎ (s.0 + length s.1 ≤ j) → within s.0 (length s.1) j ≡ false
outside s j (inl before) = ground (arith, before)
outside s j (inr after) = ground (arith, after)

-- A byte that no store reaches stays.
pub missed :
    (ss : List Store) (page : List ℕ) (j : ℕ)
    → Fit (length page) ss
    → Miss j ss
    → get_or (store_all ss page) j 0 ≡ get_or page j 0
unfolding store_all
missed [] page j fit miss = refl
missed (s ∷ ss) page j fit miss =
    let e = length-overlay s.0 s.1 page fit.0 in
    missed ss (overlay s.0 s.1 page) j (subst (λ n. Fit n ss) (sym e) fit.1) miss.1
    ∙ (get_or-overlay s.0 s.1 page j fit.0 ∙ rw (outside s j miss.0) refl)

-- A byte that the first store writes, and no later one.
pub stored :
    (s : Store) (ss : List Store) (page : List ℕ) (k : ℕ)
    → Fit (length page) (s ∷ ss)
    → k < length s.1
    → Miss (s.0 + k) ss
    → get_or (store_all (s ∷ ss) page) (s.0 + k) 0 ≡ get_or s.1 k 0
unfolding store_all
stored s ss page k fit low miss =
    let e = length-overlay s.0 s.1 page fit.0 in
    let inside : within s.0 (length s.1) (s.0 + k) ≡ true = ground (arith, low) in
    let place : s.0 + k - s.0 ≡ k = omega arith in
    missed ss (overlay s.0 s.1 page) (s.0 + k) (subst (λ n. Fit n ss) (sym e) fit.1) miss
    ∙ (get_or-overlay s.0 s.1 page (s.0 + k) fit.0 ∙ rw inside (ap (λ i. get_or s.1 i 0) place))

-- The same for a store in the middle, and for one that writes a number of two bytes.
pub stored_after :
    (pre : List Store) (s : Store) (ss : List Store) (page : List ℕ) (k : ℕ)
    → Fit (length page) (pre ++ (s ∷ ss))
    → k < length s.1
    → Miss (s.0 + k) ss
    → get_or (store_all (pre ++ (s ∷ ss)) page) (s.0 + k) 0 ≡ get_or s.1 k 0
unfolding store_all
stored_after [] s ss page k fit low miss = stored s ss page k fit low miss
stored_after (p ∷ pre) s ss page k fit low miss =
    let e = length-overlay p.0 p.1 page fit.0 in
    stored_after pre s ss (overlay p.0 p.1 page) k
      (subst (λ n. Fit n (pre ++ (s ∷ ss))) (sym e) fit.1) low miss

pub u16_stored :
    (pre : List Store) (o v : ℕ) (ss : List Store) (page : List ℕ)
    → Fit (length page) (pre ++ ((o, put_u16 v) ∷ ss))
    → v < 2 ^ 16
    → Miss o ss
    → Miss (o + 1) ss
    → u16_at (store_all (pre ++ ((o, put_u16 v) ∷ ss)) page) o ≡ v
u16_stored pre o v ss page fit small miss miss₁ =
    let zero_more : o + 0 ≡ o = omega arith in
    let s : Store = (o, put_u16 v) in
    let low : get_or (store_all (pre ++ (s ∷ ss)) page) o 0 ≡ v % 256 =
      ap (λ j. get_or (store_all (pre ++ (s ∷ ss)) page) j 0) (sym zero_more)
      ∙ stored_after pre s ss page 0 fit (omega arith)
          (subst (λ j. Miss j ss) (sym zero_more) miss) in
    let high : get_or (store_all (pre ++ (s ∷ ss)) page) (o + 1) 0 ≡ v / 256 % 256 =
      stored_after pre s ss page 1 fit (omega arith) miss₁ in
    omega (arith, low, high, small)

-- A heap page in order: the header's numbers agree, and each record lies in the data area.
pub record IsHeap (page : List ℕ) : Type 0 where
  pub size : length page ≡ page_size
  pub after_header : page_header_size ≤ free_begin page
  pub free_order : free_begin page ≤ free_end page
  pub slots : free_end page + slot_size * slot_count page ≡ page_size
  pub ends : (i : ℕ) → i < slot_count page → slot_off page i + slot_len page i ≤ free_begin page
  pub starts :
      (i : ℕ) → i < slot_count page → 0 < slot_len page i → page_header_size ≤ slot_off page i

-- The byte of a record.
abbrev pub record_byte : List ℕ → ℕ → ℕ → ℕ
record_byte page i k = get_or page (slot_off page i + k) 0
