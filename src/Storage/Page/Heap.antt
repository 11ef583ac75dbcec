-- ===== src/Storage/Page/Heap.antt =====
-- storage/page.h and storage/page.cpp: the slotted pages of a heap. A store through a pointer into the
-- page replaces the bytes from an offset on; all numbers are little-endian.
pub mod Stores
pub mod Append
pub mod Delete
pub mod Checksum
use my_simple_db.Prelude.{
  ℕ, zero, suc, ◌+◌, ◌-◌, ◌*◌, ◌%◌, ◌^◌, Bool, true, ◌&&◌, Option, none, some, List, [], ◌∷◌, ltb,
  ◌==◌, if◌then◌else◌, length, get_or, take, drop,
}
use my_simple_db.Storage.Codec.Bytes.{put_u16, put_u32, low_bytes, read_bytes}
use my_simple_db.Storage.Wal.{page_size}
use my_simple_db.Storage.Files.{zero_page}
use my_simple_db.Storage.Recovery.{overlay}
use my_simple_db.Storage.Page.{page_checksum}

abbrev pub page_header_size : ℕ
page_header_size = 24

abbrev pub slot_size : ℕ
slot_size = 4

abbrev pub max_record_len : ℕ
max_record_len = 4096 - page_header_size - slot_size

abbrev pub u16_at : List ℕ → ℕ → ℕ
u16_at page off = get_or page off 0 + get_or page (off + 1) 0 * 256

abbrev pub slot_count : List ℕ → ℕ
slot_count page = u16_at page 8

abbrev pub free_begin : List ℕ → ℕ
free_begin page = u16_at page 10

abbrev pub free_end : List ℕ → ℕ
free_end page = u16_at page 12

abbrev pub set_u16 : ℕ → ℕ → List ℕ → List ℕ
set_u16 off v page = overlay off (put_u16 v) page

abbrev pub set_u32 : ℕ → ℕ → List ℕ → List ℕ
set_u32 off v page = overlay off (put_u32 v) page

abbrev pub set_checksum : List ℕ → List ℕ
set_checksum page = set_u32 20 (page_checksum page) page

abbrev pub file_next_rowid : List ℕ → ℕ
file_next_rowid page = read_bytes 8 (drop page_header_size page)

abbrev pub set_file_next_rowid : ℕ → List ℕ → List ℕ
set_file_next_rowid v page = overlay page_header_size (low_bytes 8 v) page

-- `type` is the byte of the page's type.
unfoldable pub init_page : ℕ → ℕ → List ℕ
init_page magic type = set_checksum (
    set_u16 12 page_size
      (set_u16 10 page_header_size (overlay 4 (type ∷ []) (set_u32 0 magic zero_page))))

unfoldable pub page_all_zero : List ℕ → Bool
page_all_zero [] = true
page_all_zero (b ∷ page) = b == 0 && page_all_zero page

-- The offset of a slot.
abbrev pub slot_at : ℕ → ℕ
slot_at i = page_size - slot_size * (i + 1)

abbrev pub slot_off : List ℕ → ℕ → ℕ
slot_off page i = u16_at page (slot_at i)

abbrev pub slot_len : List ℕ → ℕ → ℕ
slot_len page i = u16_at page (slot_at i + 2)

-- The bytes from a record's start on.
abbrev pub record_at : List ℕ → ℕ → List ℕ
record_at page i = drop (slot_off page i) page

-- uint16_t and uint32_t differences wrap around.
abbrev pub free_space : List ℕ → ℕ
free_space page = (free_end page + 2 ^ 16 - free_begin page) % 2 ^ 16

abbrev pub available : List ℕ → ℕ
available page = (free_end page + 2 ^ 32 - free_begin page) % 2 ^ 32

-- The page and the slot. The length of the record is a uint16_t.
unfoldable pub heap_append : List ℕ → List ℕ → Option (List ℕ × ℕ)
heap_append page rec =
    let n = slot_count page in
    let off = free_begin page in
    let filled = set_u16 8 ((n + 1) % 2 ^ 16) (
      set_u16 12 ((free_end page + 2 ^ 16 - slot_size) % 2 ^ 16) (
        set_u16 10 ((off + length rec) % 2 ^ 16) (
          set_u16 (slot_at n + 2) (length rec)
            (set_u16 (slot_at n) off (overlay off rec page))))) in
    if ltb (available page) (length rec + slot_size)
    then none
    else some (set_checksum filled, (n + 1) % 2 ^ 16 - 1)

unfoldable pub slot_tombstone : List ℕ → ℕ → Bool
slot_tombstone page i = slot_off page i == 0 && slot_len page i == 0

unfoldable pub heap_delete : ℕ → List ℕ → List ℕ
heap_delete slot page = set_checksum (set_u16 (slot_at slot + 2) 0 (set_u16 (slot_at slot) 0 page))

-- The slots from `i` on, `left` of them; the next offset and the next slot.
unfoldable pub compact_loop : ℕ → ℕ → ℕ → ℕ → List ℕ → (ℕ × ℕ) × List ℕ
compact_loop zero i off dst page = ((off, dst), page)
compact_loop (suc left) i off dst page =
    let n = slot_len page i in
    let moved = overlay off (take n (record_at page i)) page in
    let dead = slot_tombstone page i in
    compact_loop left (i + 1) (if dead then off else (off + n) % 2 ^ 16)
      (if dead then dst else dst + 1)
      (if dead then page else set_u16 (slot_at dst + 2) n (set_u16 (slot_at dst) off moved))

unfoldable pub heap_compact : List ℕ → List ℕ
heap_compact page =
    let c = compact_loop (slot_count page) 0 page_header_size 0 page in
    let off = (c.0).0 in
    let dst = (c.0).1 in
    set_checksum (
      set_u16 12 ((page_size + 2 ^ 16 - (dst * slot_size) % 2 ^ 16) % 2 ^ 16)
        (set_u16 10 off (set_u16 8 dst c.1)))
