-- ===== src/Storage/Buffer/Log.antt =====
-- storage/buffer_pool.cpp and storage/recovery.cpp: the patches that log_page_diff writes, as recovery
-- reads them.
pub mod Redo
pub mod Same
pub mod Entries
pub mod Passes
pub mod Recover
use my_simple_db.Prelude.{
  ℕ, zero, suc, ◌+◌, ◌-◌, ◌*◌, ◌/◌, ◌%◌, ◌^◌, ◌<◌, ◌≤◌, ◌≡◌, refl, sym, ap, ap₂, ◌∙◌, Bool, true,
  false, not, ◌&&◌, ◌||◌, List, [], ◌∷◌, ◌++◌, ltb, leb, ◌==◌, if◌then◌else◌, arith, inl, inr,
  Bool-cases, subst, length, get_or, take, drop, length-append, length-take, length-drop,
  drop-append, drop_add, take-append,
}
use mathlib.Core.List.{append-nil}
use my_simple_db.Storage.Codec.Bytes.{
  low_bytes, read_bytes, length-low_bytes, read_bytes-low_bytes, IsBytes,
}
use my_simple_db.Storage.Wal.{WalRecord, wal_put_u32, wal_put_u64, page_size}
use my_simple_db.Storage.Recovery.{patch_file, patch_page, patch_offset, patch_len, patch_bytes}
use my_simple_db.Storage.Recovery.Overlay.{IsPatch, patch_byte}
use my_simple_db.Storage.Buffer.{PageFrame}
use my_simple_db.Storage.Buffer.Diff.{words, load, word_differs, part, patch_payload}

-- A frame of a table's page: its numbers fit their types, and its two pages are 4096 bytes.
pub record IsFrame (f : PageFrame) : Type 0 where
  pub named : 0 < f.page.file_id
  pub file_small : f.page.file_id < 2 ^ 64
  pub page_small : f.page.page_no < 2 ^ 32
  pub size : length f.bytes ≡ page_size
  pub size_before : length f.before ≡ page_size
  pub octets : IsBytes f.bytes
  pub octets_before : IsBytes f.before

pub length-part :
    (page : List ℕ) (off len : ℕ) → off + len ≤ length page → length (part page off len) ≡ len
length-part page off len h = omega (arith, h, length-take len (drop off page), length-drop off page)

take_all : (n : ℕ) (s : List ℕ) → n ≡ length s → take n s ≡ s
take_all n s e = rw e (subst (λ z. take (length s) z ≡ s) (append-nil s) (take-append s []))

module _ (f : PageFrame) (frame : IsFrame f) (lo hi : ℕ) (start : lo < hi) (end : hi ≤ words)
    (r : WalRecord) (payload : r.payload ≡ patch_payload f (lo * 8) ((hi - lo) * 8)) where
  abbrev off : ℕ
  off = lo * 8

  abbrev len : ℕ
  len = (hi - lo) * 8

  abbrev after : List ℕ
  after = part f.bytes off len

  abbrev old : List ℕ
  old = part f.before off len

  length-after : length after ≡ len
  length-after = length-part f.bytes off len (omega (arith, start, end, frame.size))

  length-old : length old ≡ len
  length-old = length-part f.before off len (omega (arith, start, end, frame.size_before))

  abbrev file_bytes : List ℕ
  file_bytes = wal_put_u64 f.page.file_id

  abbrev page_bytes : List ℕ
  page_bytes = wal_put_u32 f.page.page_no

  layout :
      r.payload
      ≡ file_bytes ++ (page_bytes ++ (wal_put_u32 off ++ (wal_put_u32 len ++ (after ++ old))))
  unfolding patch_payload
  layout = payload

  drop_8 : drop 8 r.payload ≡ page_bytes ++ (wal_put_u32 off ++ (wal_put_u32 len ++ (after ++ old)))
  drop_8 = ap (drop 8) layout ∙ drop-append 8 file_bytes _ (sym (length-low_bytes 8 f.page.file_id))

  drop_12 : drop 12 r.payload ≡ wal_put_u32 off ++ (wal_put_u32 len ++ (after ++ old))
  drop_12 =
      drop_add 8 4 r.payload
      ∙ (ap (drop 4) drop_8 ∙ drop-append 4 page_bytes _ (sym (length-low_bytes 4 f.page.page_no)))

  drop_16 : drop 16 r.payload ≡ wal_put_u32 len ++ (after ++ old)
  drop_16 =
      drop_add 12 4 r.payload
      ∙ (ap (drop 4) drop_12 ∙ drop-append 4 (wal_put_u32 off) _ (sym (length-low_bytes 4 off)))

  drop_20 : drop 20 r.payload ≡ after ++ old
  drop_20 =
      drop_add 16 4 r.payload
      ∙ (ap (drop 4) drop_16 ∙ drop-append 4 (wal_put_u32 len) _ (sym (length-low_bytes 4 len)))

  pub patch_file_lem : patch_file r ≡ f.page.file_id
  patch_file_lem =
      ap (read_bytes 8) layout ∙ read_bytes-low_bytes 8 f.page.file_id _ frame.file_small

  pub patch_page_lem : patch_page r ≡ f.page.page_no
  patch_page_lem =
      ap (read_bytes 4) drop_8 ∙ read_bytes-low_bytes 4 f.page.page_no _ frame.page_small

  pub patch_offset_lem : patch_offset r ≡ off
  patch_offset_lem =
      ap (read_bytes 4) drop_12 ∙ read_bytes-low_bytes 4 off _ (omega (arith, start, end))

  pub patch_len_lem : patch_len r ≡ len
  patch_len_lem =
      ap (read_bytes 4) drop_16 ∙ read_bytes-low_bytes 4 len _ (omega (arith, start, end))

  length-payload : length r.payload ≡ 20 + 2 * len
  length-payload = omega (
    arith,
    ap length drop_20,
    length-append after old,
    length-after,
    length-old,
    length-drop 20 r.payload,
    start,
  )

  pub interval-IsPatch : IsPatch r
  interval-IsPatch = record {
    region = omega (arith, patch_offset_lem, patch_len_lem, start, end);
    size = omega (arith, length-payload, patch_len_lem);
  }

  pub patch_bytes-after : patch_bytes false r ≡ after
  patch_bytes-after =
      ap (λ n. take n (drop 20 r.payload)) patch_len_lem
      ∙ (ap (take len) drop_20 ∙ take_exactly len after old (sym length-after))
    where
      take_exactly : (n : ℕ) (s t : List ℕ) → n ≡ length s → take n (s ++ t) ≡ s
      take_exactly n s t e = rw e (take-append s t)

  pub patch_bytes-old : patch_bytes true r ≡ old
  patch_bytes-old =
      ap (λ n. take n (drop (20 + n) r.payload)) patch_len_lem
      ∙ (ap (take len) (
            drop_add 20 len r.payload
            ∙ (ap (drop len) drop_20 ∙ drop-append len after old (sym length-after)))
          ∙ take_all len old (sym length-old))
