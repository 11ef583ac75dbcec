-- ===== src/Storage/Buffer.antt =====
-- storage/buffer_pool.h and storage/buffer_pool.cpp: the page cache. A pointer to the data of a frame
-- is the frame's number. The page table is a list of pairs, of which the first with a page counts.
pub mod Diff
pub mod Log
pub mod Durable
pub mod Evict
pub mod Flush
pub mod View
pub mod Scan
use my_simple_db.Prelude.{
  ℕ, zero, suc, ◌+◌, ◌-◌, ◌*◌, ◌/◌, ◌%◌, ◌^◌, Bool, true, false, not, ◌&&◌, ◌||◌, Option, none,
  some, List, [], ◌∷◌, ◌++◌, ltb, leb, ◌==◌, if◌then◌else◌, length, get_or, set, take, drop,
  replicate,
}
use my_simple_db.Common.{ErrCode, Result, ok, err, exit, ◌>>=◌}
use my_simple_db.Storage.Wal.{Wal, WalOp, append, wal_get_u64, wal_put_u64, wal_put_u32, page_size}
use my_simple_db.Storage.Files.{Files, zero_page, read_page, write_page}
use my_simple_db.Storage.Page.{page_valid}
use my_simple_db.Storage.Recovery.{overlay}

pub record PageId : Type 0 where
  pub file_id : ℕ
  pub page_no : ℕ

abbrev pub same_page : PageId → PageId → Bool
same_page a b = a.file_id == b.file_id && a.page_no == b.page_no

abbrev pub invalid_page : PageId
invalid_page = record { file_id = 0; page_no = 0 }

-- `bytes` is the field `data`.
pub record PageFrame : Type 0 where
  pub page : PageId
  pub valid : Bool
  pub dirty : Bool
  pub ref : Bool
  pub pin : ℕ
  pub bytes : List ℕ
  pub before : List ℕ

abbrev pub empty_frame : PageFrame
empty_frame = record {
  page = invalid_page;
  valid = false;
  dirty = false;
  ref = false;
  pin = 0;
  bytes = zero_page;
  before = zero_page;
}

pub record UndoEntry : Type 0 where
  pub page : PageId
  pub off : ℕ
  pub len : ℕ
  pub before : List ℕ

pub record TxnContext : Type 0 where
  pub txn_id : ℕ
  pub wrote : Bool
  pub undo : List UndoEntry

abbrev pub PageTable : Type 0
PageTable = List (PageId × ℕ)

pub record BufferPool : Type 0 where
  pub frames : List PageFrame
  pub page_table : PageTable
  pub clock_hand : ℕ
  pub wal : Wal
  pub txn : Option TxnContext

unfoldable pub table_find : PageId → ℕ → PageTable → ℕ
table_find page missing [] = missing
table_find page missing ((p, i) ∷ table) =
    if same_page p page then i else table_find page missing table

unfoldable pub table_erase : PageId → PageTable → PageTable
table_erase page [] = []
table_erase page ((p, i) ∷ table) =
    let rest = table_erase page table in if same_page p page then rest else (p, i) ∷ rest

abbrev pub find : BufferPool → PageId → ℕ
find p page = table_find page (length p.frames) p.page_table

abbrev pub frame_at : BufferPool → ℕ → PageFrame
frame_at p idx = get_or p.frames idx empty_frame

abbrev pub set_frame : BufferPool → ℕ → PageFrame → BufferPool
set_frame p idx f = record p { frames = set p.frames idx f }

-- Whether the pointer is one of a valid frame.
abbrev pub has_frame : BufferPool → ℕ → Bool
has_frame p idx = ltb idx (length p.frames) && (frame_at p idx).valid

-- memcmp
unfoldable pub same_bytes : List ℕ → List ℕ → Bool
same_bytes [] [] = true
same_bytes (a ∷ as') (b ∷ bs) = a == b && same_bytes as' bs
same_bytes _ _ = false

unfoldable pub write_back : PageFrame → Files → Result (PageFrame × Files)
write_back f fs =
    if not f.valid || not f.dirty
    then ok (f, fs)
    else if not (same_bytes f.before f.bytes)
    then exit
    else ok (record f { dirty = false }, write_page f.page.file_id f.page.page_no f.bytes fs)

-- ==================== evict ====================

-- The victim, which was written back, leaves the page table.
abbrev pub after_victim : ℕ → BufferPool → PageFrame × Files → BufferPool × Files
after_victim idx p w = (
  record p {
    frames = set p.frames idx (record (w.0) { valid = false });
    page_table = if (w.0).valid then table_erase (w.0).page p.page_table else p.page_table;
    clock_hand = (idx + 1) % length p.frames;
  },
  w.1,
)

unfoldable pub take_victim : ℕ → BufferPool → Files → Result (ℕ × (BufferPool × Files))
take_victim idx p fs = do w ← write_back (frame_at p idx) fs; ok (idx, after_victim idx p w)

abbrev pub clear_ref : ℕ → BufferPool → BufferPool
clear_ref idx p = set_frame p idx (record (frame_at p idx) { ref = false })

-- A frame that is passed over: it is pinned, or it gets its second chance.
abbrev pub has_chance : PageFrame → Bool
has_chance f = f.valid && f.ref

unfoldable pub evict_loop : ℕ → ℕ → BufferPool → Files → Result (ℕ × (BufferPool × Files))
evict_loop zero i p fs = err ErrCode.internal
evict_loop (suc k) i p fs =
    let idx = (p.clock_hand + i) % length p.frames in
    let f = frame_at p idx in
    let pinned = ltb 0 f.pin in
    let rest = evict_loop k (i + 1) (if pinned then p else clear_ref idx p) fs in
    if pinned || has_chance f then rest else take_victim idx p fs

-- At most two rounds over the frames.
unfoldable pub evict : BufferPool → Files → Result (ℕ × (BufferPool × Files))
evict p fs = evict_loop (2 * length p.frames) 0 p fs

-- ==================== read, allocate, unpin ====================

-- uint16_t
abbrev pub pin_more : ℕ → ℕ
pin_more n = (n + 1) % 2 ^ 16

unfoldable pub read : PageId → ℕ → BufferPool → Files → Result (ℕ × (BufferPool × Files))
read page magic p fs =
    let hit = find p page in
    if not (hit == length p.frames)
    then ok (
      hit,
      (
        set_frame p hit
            (record (frame_at p hit) { ref = true; pin = pin_more (frame_at p hit).pin }),
        fs,
      ),
    )
    else (do
      e ← evict p fs
      let loaded = read_page page.file_id page.page_no (e.1).1
      if not (page_valid loaded.1 magic)
          then exit
          else ok (
            e.0,
            (
              record ((e.1).0) {
                frames = set ((e.1).0).frames e.0 (record {
                  page = page;
                  valid = true;
                  dirty = false;
                  ref = true;
                  pin = 1;
                  bytes = loaded.1;
                  before = loaded.1;
                });
                page_table = (page, e.0) ∷ ((e.1).0).page_table;
              },
              loaded.0,
            ),
          ))

unfoldable pub allocate : PageId → BufferPool → Files → Result (ℕ × (BufferPool × Files))
allocate page p fs =
    let hit = find p page in
    if not (hit == length p.frames)
    then ok (
      hit,
      (set_frame p hit (record (frame_at p hit) { pin = pin_more (frame_at p hit).pin }), fs),
    )
    else (do
      e ← evict p fs
      ok (
        e.0,
        (
          record ((e.1).0) {
            frames = set ((e.1).0).frames e.0 (record {
              page = page;
              valid = true;
              dirty = true;
              ref = true;
              pin = 1;
              bytes = zero_page;
              before = zero_page;
            });
            page_table = (page, e.0) ∷ ((e.1).0).page_table;
          },
          (e.1).1,
        ),
      ))

unfoldable pub unpin : ℕ → BufferPool → Result BufferPool
unpin idx p =
    if not (has_frame p idx)
    then err ErrCode.internal
    else ok (set_frame p idx (record (frame_at p idx) { pin = (frame_at p idx).pin - 1 }))
