-- ===== src/Storage/Page/Heap/Delete.antt =====
-- storage/page.cpp: what heap_delete makes of a page that is in order.
use my_simple_db.Prelude.{
  ℕ, ◌+◌, ◌*◌, ◌<◌, ◌≤◌, ◌≡◌, ◌⊎◌, refl, sym, ap, ap₂, ◌∙◌, subst, true, false, List, [], ◌∷◌, ltb,
  ◌==◌, length, get_or, arith, inl, inr, Bool-cases,
}
use my_simple_db.Storage.Codec.Bytes.{put_u16, put_u32}
use my_simple_db.Storage.Page.{page_checksum}
use my_simple_db.Storage.Page.Heap.{
  u16_at, slot_count, free_begin, slot_at, slot_off, slot_len, heap_delete, slot_tombstone,
}
use my_simple_db.Storage.Page.Heap.Stores.{
  Store, store_all, Fit, Miss, length-store_all, missed, u16_stored, IsHeap, record_byte,
}

module _ (page : List ℕ) (slot : ℕ) (h : IsHeap page) (there : slot < slot_count page) where
  abbrev at : ℕ
  at = slot_at slot

  abbrev sum : ℕ
  sum = page_checksum (store_all ((at, put_u16 0) ∷ (at + 2, put_u16 0) ∷ []) page)

  abbrev stores : List Store
  stores = (at, put_u16 0) ∷ (at + 2, put_u16 0) ∷ (20, put_u32 sum) ∷ []

  abbrev left : List ℕ
  left = store_all stores page

  deleted : heap_delete slot page ≡ left
  unfolding heap_delete store_all
  deleted = refl

  bounds : (at + 4 ≤ 4096) × (free_begin page ≤ at) × (24 ≤ free_begin page)
  bounds =
      (omega (arith, h.slots, there), omega (arith, h.slots, there, h.free_order), h.after_header)

  fit : Fit (length page) stores
  fit = (
    omega (arith, bounds.0, h.size),
    (omega (arith, bounds.0, h.size), (omega (arith, h.size), tt)),
  )

  below : (j : ℕ) → j < at → (j < 20) ⊎ (24 ≤ j) → Miss j stores
  below j low (inl head) = (inl low, (inl (omega (arith, low)), (inl head, tt)))
  below j low (inr data_or_slot) = (inl low, (inl (omega (arith, low)), (inr data_or_slot, tt)))

  above : (j : ℕ) → at + 4 ≤ j → Miss j stores
  above j high = (
    inr (omega (arith, high)),
    (inr (omega (arith, high)), (inr (omega (arith, high, bounds.1, bounds.2)), tt)),
  )

  same_header : (o : ℕ) → o < 19 → u16_at left o ≡ u16_at page o
  same_header o low =
      ap₂ (λ a b. a + b * 256)
        (missed stores page o fit
          (below o (omega (arith, low, bounds.1, bounds.2)) (inl (omega (arith, low)))))
        (missed stores page (o + 1) fit
          (below (o + 1) (omega (arith, low, bounds.1, bounds.2)) (inl (omega (arith, low)))))

  dead_off : slot_off left slot ≡ 0
  dead_off =
      u16_stored [] at 0 ((at + 2, put_u16 0) ∷ (20, put_u32 sum) ∷ []) page fit (omega arith)
        (inl (omega arith), (inr (omega (arith, bounds.1, bounds.2)), tt))
        (inl (omega arith), (inr (omega (arith, bounds.1, bounds.2)), tt))

  dead_len : slot_len left slot ≡ 0
  dead_len =
      u16_stored ((at, put_u16 0) ∷ []) (at + 2) 0 ((20, put_u32 sum) ∷ []) page fit (omega arith)
        (inr (omega (arith, bounds.1, bounds.2)), tt) (inr (omega (arith, bounds.1, bounds.2)), tt)

  other_place :
      (i j : ℕ)
      → i < slot_count page
      → (i == slot) ≡ false
      → slot_at i ≤ j
      → j < slot_at i + 4
      → Miss j stores
  other_place i j low other from to = elim (Bool-cases (ltb i slot)) [
    | inl before ↦ above j (ground (arith, before, from, h.slots, there))
    | inr after ↦
        below j (ground (arith, after, other, to, h.slots, low))
          (inr (omega (arith, from, h.slots, low, h.free_order, bounds.2)))
  ]

  same_slot :
      (i d : ℕ)
      → d < 3
      → i < slot_count page
      → (i == slot) ≡ false
      → u16_at left (slot_at i + d) ≡ u16_at page (slot_at i + d)
  same_slot i d small low other =
      ap₂ (λ a b. a + b * 256)
        (missed stores page (slot_at i + d) fit
          (other_place i (slot_at i + d) low other (omega arith) (omega (arith, small))))
        (missed stores page (slot_at i + d + 1) fit
          (other_place i (slot_at i + d + 1) low other (omega arith) (omega (arith, small))))

  same_off : (i : ℕ) → i < slot_count page → (i == slot) ≡ false → slot_off left i ≡ slot_off page i
  same_off i low other =
      let e : slot_at i + 0 ≡ slot_at i = omega arith in
      subst (λ o. u16_at left o ≡ u16_at page o) e (same_slot i 0 (omega arith) low other)

  same_byte :
      (i k : ℕ)
      → i < slot_count page
      → (i == slot) ≡ false
      → k < slot_len page i
      → record_byte left i k ≡ record_byte page i k
  same_byte i k low other inside =
      ap (λ o. get_or left (o + k) 0) (same_off i low other)
      ∙ missed stores page (slot_off page i + k) fit (
          below (slot_off page i + k) (omega (arith, h.ends i low, inside, bounds.1))
            (inr (omega (arith, h.starts i low (omega (arith, inside))))))

  in_order : IsHeap left
  in_order = record {
    size = length-store_all stores page fit ∙ h.size;
    after_header = omega (arith, same_header 10 (omega arith), h.after_header);
    free_order =
        omega (arith, same_header 10 (omega arith), same_header 12 (omega arith), h.free_order);
    slots = omega (arith, same_header 8 (omega arith), same_header 12 (omega arith), h.slots);
    ends = λ i low. elim (Bool-cases (i == slot)) [
      | inl e ↦
          let same : i ≡ slot = ground (arith, e) in
          subst (λ m. slot_off left m + slot_len left m ≤ free_begin left) (sym same)
            (omega (arith, dead_off, dead_len))
      | inr e ↦
          let old : i < slot_count page = omega (arith, low, same_header 8 (omega arith)) in
          omega (
            arith,
            same_off i old e,
            same_slot i 2 (omega arith) old e,
            same_header 10 (omega arith),
            h.ends i old,
          )
    ];
    starts = λ i low some_byte. elim (Bool-cases (i == slot)) [
      | inl e ↦
          let same : i ≡ slot = ground (arith, e) in
          absurd (omega (arith, subst (λ m. 0 < slot_len left m) same some_byte, dead_len))
      | inr e ↦
          let old : i < slot_count page = omega (arith, low, same_header 8 (omega arith)) in
          omega (
            arith,
            same_off i old e,
            h.starts i old (omega (arith, same_slot i 2 (omega arith) old e, some_byte)),
          )
    ];
  }

-- On a heap page in order, heap_delete of one of its slots leaves a page in order with as many slots:
-- that slot is a tombstone, and each other slot keeps its place, its length and its bytes.
pub heap_delete-ok :
    (page : List ℕ) (slot : ℕ)
    → IsHeap page
    → slot < slot_count page
    → IsHeap (heap_delete slot page)
      × (slot_count (heap_delete slot page) ≡ slot_count page)
      × (slot_tombstone (heap_delete slot page) slot ≡ true)
      × ((i : ℕ)
          → i < slot_count page
          → (i == slot) ≡ false
          → (slot_off (heap_delete slot page) i ≡ slot_off page i)
            × (slot_len (heap_delete slot page) i ≡ slot_len page i)
            × ((k : ℕ)
                → k < slot_len page i
                → record_byte (heap_delete slot page) i k ≡ record_byte page i k))
unfolding slot_tombstone
heap_delete-ok page slot h there = rw (deleted page slot h there) (
  in_order page slot h there,
  same_header page slot h there 8 (omega arith),
  rw (dead_off page slot h there, dead_len page slot h there) refl,
  λ i low other. (
    same_off page slot h there i low other,
    same_slot page slot h there i 2 (omega arith) low other,
    λ k inside. same_byte page slot h there i k low other inside,
  ),
)
