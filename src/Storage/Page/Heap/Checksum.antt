-- ===== src/Storage/Page/Heap/Checksum.antt =====
-- storage/page.cpp: the checksum of a page that an operation ends with.
use my_simple_db.Prelude.{
  ℕ, suc, ◌+◌, ◌-◌, ◌^◌, ◌<◌, ◌≡◌, refl, sym, ap, ap₂, ◌∙◌, Bool, true, false, ◌&&◌, List, [], ◌∷◌,
  ltb, leb, ◌==◌, length, get_or, drop, get_or-drop, arith, inl, inr, Bool-cases,
}
use my_simple_db.Storage.Codec.Bytes.{put_u32}
use my_simple_db.Storage.Wal.{page_size}
use my_simple_db.Storage.Crc.{crc_loop}
use my_simple_db.Storage.Page.{
  page_checksum, without_checksum, page_valid, header_magic, header_checksum,
}
use my_simple_db.Storage.Page.Heap.{set_checksum}
use my_simple_db.Storage.Page.Heap.Stores.{Store, store_all, Fit, missed, stored, length-store_all}

-- The four bytes of the checksum are of no account.
without_checksum_agree :
    (i : ℕ) (p q : List ℕ)
    → length p ≡ length q
    → ((j : ℕ) → (leb 20 (i + j) && ltb (i + j) 24) ≡ false → get_or p j 0 ≡ get_or q j 0)
    → without_checksum i p ≡ without_checksum i q
unfolding without_checksum
without_checksum_agree i [] [] size same = refl
without_checksum_agree i [] (y ∷ q) size same = absurd (omega (arith, size))
without_checksum_agree i (x ∷ p) [] size same = absurd (omega (arith, size))
without_checksum_agree i (x ∷ p) (y ∷ q) size same =
    ap₂ (λ a (r : List ℕ). a ∷ r)
      (elim (Bool-cases (leb 20 i && ltb i 24)) [
        | inl field ↦ rw field refl
        | inr other ↦
            let here : i + 0 ≡ i = omega arith in
            rw other (same 0 (ap (λ k. leb 20 k && ltb k 24) here ∙ other))
      ])
      (without_checksum_agree (suc i) p q (omega (arith, size))
        (λ j out. same (suc j) (ap (λ k. leb 20 k && ltb k 24) (next j) ∙ out)))
  where
    next : (j : ℕ) → i + suc j ≡ suc i + j
    next j = omega arith

page_checksum_bound : (page : List ℕ) → page_checksum page < 2 ^ 32
unfolding page_checksum
page_checksum_bound page = omega arith

module _ (page : List ℕ) (size : length page ≡ page_size) where
  abbrev c : ℕ
  c = page_checksum page

  abbrev last : Store
  last = (20, put_u32 c)

  fit : Fit (length page) (last ∷ [])
  fit = (omega (arith, size), tt)

  summed : set_checksum page ≡ store_all (last ∷ []) page
  unfolding store_all
  summed = refl

  other_byte :
      (j : ℕ) → (leb 20 j && ltb j 24) ≡ false → get_or (set_checksum page) j 0 ≡ get_or page j 0
  other_byte j out = ap (λ p. get_or p j 0) summed ∙ elim (Bool-cases (ltb j 20)) [
    | inl before ↦ missed (last ∷ []) page j fit (inl (ground (arith, before)), tt)
    | inr after ↦ missed (last ∷ []) page j fit (inr (ground (arith, after, out)), tt)
  ]

  field_byte : (k : ℕ) → k < 4 → get_or (drop 20 (set_checksum page)) k 0 ≡ get_or (put_u32 c) k 0
  field_byte k low =
      get_or-drop 20 (set_checksum page) k 0
      ∙ (ap (λ p. get_or p (20 + k) 0) summed ∙ stored last [] page k fit low tt)

  length-set_checksum : length (set_checksum page) ≡ length page
  length-set_checksum = ap length summed ∙ length-store_all (last ∷ []) page fit

  -- Setting the checksum of a page of 4096 bytes makes it valid for the magic number that it has, and
  -- for no other.
  pub page_valid-set_checksum :
      (magic : ℕ) → page_valid (set_checksum page) magic ≡ (header_magic page == magic)
  unfolding page_valid page_checksum
  page_valid-set_checksum magic =
      let same : page_checksum (set_checksum page) ≡ c =
        ap (λ z. 2 ^ 32 - 1 - z)
          (ap (crc_loop 0xFFFF_FFFF) (
            without_checksum_agree 0 (set_checksum page) page length-set_checksum
              (λ j out. other_byte j (ap (λ k. leb 20 k && ltb k 24) (sym (plain j)) ∙ out)))) in
      let read : header_checksum (set_checksum page) ≡ c = omega (
        arith,
        field_byte 0 (omega arith),
        field_byte 1 (omega arith),
        field_byte 2 (omega arith),
        field_byte 3 (omega arith),
        page_checksum_bound page,
      ) in
      let valid : (header_checksum (set_checksum page) == page_checksum (set_checksum page))
          ≡ true =
        ground (arith, same, read) in
      let magic_same : header_magic (set_checksum page) ≡ header_magic page =
        omega (arith, other_byte 0 refl, other_byte 1 refl, other_byte 2 refl, other_byte 3 refl) in
      ap₂ (λ m b. m == magic && b) magic_same valid ∙ and_true (header_magic page == magic)
    where
      plain : (j : ℕ) → 0 + j ≡ j
      plain j = omega arith

      and_true : (b : Bool) → (b && true) ≡ b
      and_true true = refl
      and_true false = refl
