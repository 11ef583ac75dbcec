-- ===== src/Tests/Heap.antt =====
-- An empty heap page, and one with a record.
use my_simple_db.Prelude.{
  ℕ, ◌+◌, ◌<◌, ◌≤◌, ◌≡◌, ◌==◌, arith, true, false, some, List, [], ◌∷◌, ◌++◌, replicate,
  length-replicate, get_or,
}
use my_simple_db.Storage.Page.Heap.{
  slot_count, slot_off, slot_len, heap_append, heap_delete, slot_tombstone, free_end, free_begin,
}
use my_simple_db.Storage.Page.{page_valid, header_magic}
use my_simple_db.Storage.Page.Heap.{set_checksum}
use my_simple_db.Storage.Page.Heap.Checksum.{page_valid-set_checksum}
use my_simple_db.Storage.Page.Heap.Stores.{IsHeap, record_byte}
use my_simple_db.Storage.Page.Heap.Append.{heap_append-ok}
use my_simple_db.Storage.Page.Heap.Delete.{heap_delete-ok}

-- The magic number and the checksum are not read here.
abbrev header : List ℕ
header =
    0 ∷ 0 ∷ 0 ∷ 0 ∷ 2 ∷ 0 ∷ 0 ∷ 0 ∷ 0 ∷ 0 ∷ 24 ∷ 0 ∷ 0 ∷ 16 ∷ 0 ∷ 0 ∷ 0 ∷ 0 ∷ 0 ∷ 0 ∷ 0 ∷ 0 ∷ 0 ∷ 0
    ∷ []

abbrev empty_page : List ℕ
empty_page = header ++ replicate 4072 0

empty_page-IsHeap : IsHeap empty_page
empty_page-IsHeap = record {
  size = omega (arith, length-replicate {A = ℕ} 4072 0);
  after_header = omega arith;
  free_order = omega arith;
  slots = omega arith;
  ends = λ i low. absurd (omega (arith, low));
  starts = λ i low some_byte. absurd (omega (arith, low));
}

abbrev rec : List ℕ
rec = 5 ∷ 6 ∷ 7 ∷ []

heap_append-ok_example :
    (grown : List ℕ) × (heap_append empty_page rec ≡ some (grown, 0))
    × IsHeap grown
    × (slot_count grown ≡ 1)
    × (slot_len grown 0 ≡ 3)
    × ((k : ℕ) → k < 3 → record_byte grown 0 k ≡ get_or rec k 0)
    × ((i : ℕ)
        → i < 0
        → (slot_off grown i ≡ slot_off empty_page i)
          × (slot_len grown i ≡ slot_len empty_page i)
          × ((k : ℕ)
              → k < slot_len empty_page i
              → record_byte grown i k ≡ record_byte empty_page i k))
heap_append-ok_example = heap_append-ok empty_page rec empty_page-IsHeap (omega arith)

fits : free_begin empty_page + 3 + 4 ≤ free_end empty_page
fits = omega arith

one_row : List ℕ
one_row = (heap_append-ok empty_page rec empty_page-IsHeap fits).0

one_row-IsHeap : IsHeap one_row
unfolding one_row
one_row-IsHeap = (heap_append-ok empty_page rec empty_page-IsHeap fits).2

one_slot : 0 < slot_count one_row
unfolding one_row
one_slot = omega (arith, (heap_append-ok empty_page rec empty_page-IsHeap fits).3)

heap_delete-ok_example :
    IsHeap (heap_delete 0 one_row)
    × (slot_count (heap_delete 0 one_row) ≡ slot_count one_row)
    × (slot_tombstone (heap_delete 0 one_row) 0 ≡ true)
    × ((i : ℕ)
        → i < slot_count one_row
        → (i == 0) ≡ false
        → (slot_off (heap_delete 0 one_row) i ≡ slot_off one_row i)
          × (slot_len (heap_delete 0 one_row) i ≡ slot_len one_row i)
          × ((k : ℕ)
              → k < slot_len one_row i
              → record_byte (heap_delete 0 one_row) i k ≡ record_byte one_row i k))
heap_delete-ok_example = heap_delete-ok one_row 0 one_row-IsHeap one_slot

page_valid-set_checksum_example :
    page_valid (set_checksum empty_page) 0 ≡ (header_magic empty_page == 0)
page_valid-set_checksum_example =
    page_valid-set_checksum empty_page (omega (arith, length-replicate {A = ℕ} 4072 0)) 0
