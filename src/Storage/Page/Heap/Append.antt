-- ===== src/Storage/Page/Heap/Append.antt =====
-- storage/page.cpp: what heap_append makes of a page that is in order.
use my_simple_db.Prelude.{
  ℕ, ◌+◌, ◌-◌, ◌*◌, ◌%◌, ◌^◌, ◌<◌, ◌≤◌, ◌≡◌, refl, sym, ap, ap₂, ◌∙◌, subst, false, some, List, [],
  ◌∷◌, ◌++◌, ltb, ◌==◌, length, get_or, arith, inl, inr, Bool-cases,
}
use my_simple_db.Storage.Codec.Bytes.{put_u16, put_u32}
use my_simple_db.Storage.Page.{page_checksum}
use my_simple_db.Storage.Page.Heap.{
  u16_at, slot_count, free_begin, free_end, slot_at, slot_off, slot_len, available, heap_append,
  slot_size, page_header_size,
}
use my_simple_db.Storage.Page.Heap.Stores.{
  Store, store_all, Fit, Miss, length-store_all, missed, stored_after, u16_stored, IsHeap,
  record_byte,
}

module _ (page rec : List ℕ) (h : IsHeap page)
    (room : free_begin page + length rec + slot_size ≤ free_end page) where
  abbrev n : ℕ
  n = slot_count page

  abbrev off : ℕ
  off = free_begin page

  abbrev new_end : ℕ
  new_end = (free_end page + 2 ^ 16 - slot_size) % 2 ^ 16

  abbrev first : List Store
  first = (off, rec) ∷ (slot_at n, put_u16 off) ∷ (slot_at n + 2, put_u16 (length rec)) ∷ []

  abbrev fields : List Store
  fields =
      (10, put_u16 ((off + length rec) % 2 ^ 16))
      ∷ (12, put_u16 new_end)
      ∷ (8, put_u16 ((n + 1) % 2 ^ 16))
      ∷ []

  abbrev sum : ℕ
  sum = page_checksum (store_all (first ++ fields) page)

  abbrev stores : List Store
  stores = first ++ (fields ++ ((20, put_u32 sum) ∷ []))

  abbrev grown : List ℕ
  grown = store_all stores page

  facts :
      (off + length rec ≤ slot_at n)
      × (slot_at n + 4 ≤ 4096)
      × (24 ≤ off)
      × (free_end page ≡ slot_at n + 4)
  facts = (
    omega (arith, h.slots, room),
    omega (arith, h.slots, room),
    h.after_header,
    omega (arith, h.slots, room),
  )

  fit : Fit (length page) stores
  fit = (
    omega (arith, facts.0, facts.1, h.size),
    (
      omega (arith, facts.1, h.size),
      (
        omega (arith, facts.1, h.size),
        (
          omega (arith, h.size),
          (omega (arith, h.size), (omega (arith, h.size), (omega (arith, h.size), tt))),
        ),
      ),
    ),
  )

  new_count : slot_count grown ≡ n + 1
  new_count =
      u16_stored
        (first ++ ((10, put_u16 ((off + length rec) % 2 ^ 16)) ∷ (12, put_u16 new_end) ∷ [])) 8
        ((n + 1) % 2 ^ 16) ((20, put_u32 sum) ∷ []) page fit (omega arith) (inl (omega arith), tt)
        (inl (omega arith), tt)
      ∙ omega (arith, h.slots, room)

  new_free_end : free_end grown ≡ slot_at n
  new_free_end =
      u16_stored (first ++ ((10, put_u16 ((off + length rec) % 2 ^ 16)) ∷ [])) 12 new_end
        ((8, put_u16 ((n + 1) % 2 ^ 16)) ∷ (20, put_u32 sum) ∷ []) page fit (omega arith)
        (inr (omega arith), (inl (omega arith), tt)) (inr (omega arith), (inl (omega arith), tt))
      ∙ omega (arith, facts.3, facts.1)

  new_free_begin : free_begin grown ≡ off + length rec
  new_free_begin =
      u16_stored first 10 ((off + length rec) % 2 ^ 16)
        ((12, put_u16 new_end) ∷ (8, put_u16 ((n + 1) % 2 ^ 16)) ∷ (20, put_u32 sum) ∷ []) page fit
        (omega arith) (inl (omega arith), (inr (omega arith), (inl (omega arith), tt)))
        (inl (omega arith), (inr (omega arith), (inl (omega arith), tt)))
      ∙ omega (arith, facts.0, facts.1)

  -- The stores behind a place in the data area or in the slots.
  past_header : (j : ℕ) → 24 ≤ j → Miss j (fields ++ ((20, put_u32 sum) ∷ []))
  past_header j far = (
    inr (omega (arith, far)),
    (inr (omega (arith, far)), (inr (omega (arith, far)), (inr (omega (arith, far)), tt))),
  )

  in_data : (j : ℕ) → 24 ≤ j → j < off → Miss j stores
  in_data j far low = (
    inl low,
    (inl (omega (arith, low, facts.0)), (inl (omega (arith, low, facts.0)), past_header j far)),
  )

  in_slots : (j : ℕ) → slot_at n + 4 ≤ j → Miss j stores
  in_slots j far = (
    inr (omega (arith, facts.0, far)),
    (
      inr (omega (arith, far)),
      (inr (omega (arith, far)), past_header j (omega (arith, far, facts.0, facts.2))),
    ),
  )

  new_slot_off : slot_off grown n ≡ off
  new_slot_off =
      u16_stored ((off, rec) ∷ []) (slot_at n) off
        ((slot_at n + 2, put_u16 (length rec)) ∷ (fields ++ ((20, put_u32 sum) ∷ []))) page fit
        (omega (arith, facts.0, facts.1))
        (inl (omega arith), past_header (slot_at n) (omega (arith, facts.0, facts.2)))
        (inl (omega arith), past_header (slot_at n + 1) (omega (arith, facts.0, facts.2)))

  new_slot_len : slot_len grown n ≡ length rec
  new_slot_len =
      u16_stored ((off, rec) ∷ (slot_at n, put_u16 off) ∷ []) (slot_at n + 2) (length rec)
        (fields ++ ((20, put_u32 sum) ∷ [])) page fit (omega (arith, facts.0, facts.1))
        (past_header (slot_at n + 2) (omega (arith, facts.0, facts.2)))
        (past_header (slot_at n + 2 + 1) (omega (arith, facts.0, facts.2)))

  new_byte : (k : ℕ) → k < length rec → get_or grown (off + k) 0 ≡ get_or rec k 0
  new_byte k low =
      stored_after [] (off, rec)
        ((slot_at n, put_u16 off)
          ∷ (slot_at n + 2, put_u16 (length rec))
          ∷ (fields ++ ((20, put_u32 sum) ∷ [])))
        page k fit low
        (
          inl (omega (arith, low, facts.0)),
          (inl (omega (arith, low, facts.0)), past_header (off + k) (omega (arith, facts.2))),
        )

  old_slot : (i d : ℕ) → i < n → u16_at grown (slot_at i + d) ≡ u16_at page (slot_at i + d)
  old_slot i d low =
      ap₂ (λ a b. a + b * 256)
        (missed stores page (slot_at i + d) fit
          (in_slots (slot_at i + d) (omega (arith, low, facts.1))))
        (missed stores page (slot_at i + d + 1) fit
          (in_slots (slot_at i + d + 1) (omega (arith, low, facts.1))))

  old_slot_off : (i : ℕ) → i < n → slot_off grown i ≡ slot_off page i
  old_slot_off i low =
      let e : slot_at i + 0 ≡ slot_at i = omega arith in
      subst (λ o. u16_at grown o ≡ u16_at page o) e (old_slot i 0 low)

  old_byte : (i k : ℕ) → i < n → k < slot_len page i → record_byte grown i k ≡ record_byte page i k
  old_byte i k low inside =
      ap (λ o. get_or grown (o + k) 0) (old_slot_off i low)
      ∙ missed stores page (slot_off page i + k) fit (
          in_data (slot_off page i + k) (omega (arith, h.starts i low (omega (arith, inside))))
            (omega (arith, h.ends i low, inside)))

  in_order : IsHeap grown
  in_order = record {
    size = length-store_all stores page fit ∙ h.size;
    after_header = omega (arith, new_free_begin, facts.2);
    free_order = omega (arith, new_free_begin, new_free_end, facts.0);
    slots = omega (arith, new_free_end, new_count, facts.1, h.slots, room);
    ends = λ i low. elim (Bool-cases (i == n)) [
      | inl e ↦
          let last : i ≡ n = ground (arith, e) in
          subst (λ m. slot_off grown m + slot_len grown m ≤ free_begin grown) (sym last)
            (omega (arith, new_slot_off, new_slot_len, new_free_begin))
      | inr e ↦
          let old : i < n = ground (arith, e, low, new_count) in
          omega (arith, old_slot_off i old, old_slot i 2 old, new_free_begin, h.ends i old)
    ];
    starts = λ i low some_byte. elim (Bool-cases (i == n)) [
      | inl e ↦
          let last : i ≡ n = ground (arith, e) in
          subst (λ m. page_header_size ≤ slot_off grown m) (sym last)
            (omega (arith, new_slot_off, facts.2))
      | inr e ↦
          let old : i < n = ground (arith, e, low, new_count) in
          omega
            (arith, old_slot_off i old, h.starts i old (omega (arith, old_slot i 2 old, some_byte)))
    ];
  }

  returned : heap_append page rec ≡ some (grown, n)
  unfolding heap_append store_all
  returned =
      let enough : ltb (available page) (length rec + slot_size) ≡ false =
        ground (arith, room, h.slots) in
      let slot : (n + 1) % 2 ^ 16 - 1 ≡ n = omega (arith, h.slots) in rw (enough, slot) refl

-- On a heap page in order with room for a record and its slot, heap_append returns a page in order and
-- the next slot. That slot has the record's length and its bytes, and each earlier slot keeps its
-- place, its length and its bytes.
pub heap_append-ok :
    (page rec : List ℕ)
    → IsHeap page
    → free_begin page + length rec + slot_size ≤ free_end page
    → (grown : List ℕ) × (heap_append page rec ≡ some (grown, slot_count page))
      × IsHeap grown
      × (slot_count grown ≡ slot_count page + 1)
      × (slot_len grown (slot_count page) ≡ length rec)
      × ((k : ℕ) → k < length rec → record_byte grown (slot_count page) k ≡ get_or rec k 0)
      × ((i : ℕ)
          → i < slot_count page
          → (slot_off grown i ≡ slot_off page i)
            × (slot_len grown i ≡ slot_len page i)
            × ((k : ℕ) → k < slot_len page i → record_byte grown i k ≡ record_byte page i k))
heap_append-ok page rec h room = (
  grown page rec h room,
  returned page rec h room,
  in_order page rec h room,
  new_count page rec h room,
  new_slot_len page rec h room,
  λ k low.
      ap (λ o. get_or (grown page rec h room) (o + k) 0) (new_slot_off page rec h room)
      ∙ new_byte page rec h room k low,
  λ i low. (
    old_slot_off page rec h room i low,
    old_slot page rec h room i 2 low,
    λ k inside. old_byte page rec h room i k low inside,
  ),
)
