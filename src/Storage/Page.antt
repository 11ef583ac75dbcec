-- ===== src/Storage/Page.antt =====
-- storage/page.h and storage/page.cpp: the header of a page, its checksum and its validity. A page is
-- the list of its bytes; the fields of the header stand at the offsets that the compiler gives them.
pub mod Heap
use my_simple_db.Prelude.{
  ℕ, suc, ◌-◌, ◌^◌, Bool, ◌&&◌, List, [], ◌∷◌, ltb, leb, ◌==◌, if◌then◌else◌, drop,
}
use my_simple_db.Storage.Codec.Bytes.{read_u32}
use my_simple_db.Storage.Crc.{crc_loop}

abbrev pub magic_file_header : ℕ
magic_file_header = 0x5444_4146

abbrev pub magic_heap : ℕ
magic_heap = 0x5041_4548

abbrev pub header_magic : List ℕ → ℕ
header_magic page = read_u32 page

abbrev pub header_checksum : List ℕ → ℕ
header_checksum page = read_u32 (drop 20 page)

-- The bytes from offset `i` on, with zeros for the four bytes of the checksum.
unfoldable pub without_checksum : ℕ → List ℕ → List ℕ
without_checksum i [] = []
without_checksum i (b ∷ page) =
    (if leb 20 i && ltb i 24 then 0 else b) ∷ without_checksum (suc i) page

unfoldable pub page_checksum : List ℕ → ℕ
page_checksum page = 2 ^ 32 - 1 - crc_loop 0xFFFF_FFFF (without_checksum 0 page)

unfoldable pub page_valid : List ℕ → ℕ → Bool
page_valid page magic = header_magic page == magic && header_checksum page == page_checksum page
