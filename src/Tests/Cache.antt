-- ===== src/Tests/Cache.antt =====
-- Reads, allocations and a checkpoint over an empty pool of two frames.
use my_simple_db.Prelude.{
  ℕ, zero, suc, ◌<◌, ◌≡◌, refl, arith, true, false, none, List, [], ◌∷◌, ◌++◌, replicate, length,
}
use my_simple_db.Common.{ok, Ensures}
use my_simple_db.Storage.Crc.{crc_loop, crc_table, crc_rounds}
use my_simple_db.Storage.Wal.{Wal}
use my_simple_db.Storage.Files.{Files}
use my_simple_db.Storage.Page.{page_valid, page_checksum, without_checksum}
use my_simple_db.Storage.Buffer.{PageId, BufferPool, empty_frame, frame_at, read, allocate}
use my_simple_db.Storage.Buffer.Evict.{AllLoggedFrames}
use my_simple_db.Storage.Buffer.Flush.{flush_all, invalidate_all}
use my_simple_db.Storage.Buffer.View.{IsPool, view}
use my_simple_db.Storage.Engine.{Engine, in_txn, engine_open, engine_close}
use my_simple_db.Storage.Engine.Restart.{engine_open-engine_close}
use my_simple_db.Storage.Buffer.View.Coherent.{IsRead, IsAllocated, allocate-IsAllocated}
use my_simple_db.Storage.Buffer.View.Checkpoint.{IsCheckpoint, invalidate_all-IsPool}
use my_simple_db.Storage.Buffer.View.Returns.{read-ok, flush_all-ok}

abbrev empty_wal : Wal
empty_wal = record { file = []; next_lsn = 1; next_txn_id = 1; bytes_since_reset = 0 }

abbrev pool : BufferPool
pool = invalidate_all (record {
  frames = empty_frame ∷ empty_frame ∷ [];
  page_table = [];
  clock_hand = 0;
  wal = empty_wal;
  txn = none;
})

-- Zeros with their checksum.
abbrev zeros : List ℕ
zeros = replicate 20 0 ++ (17 ∷ 0 ∷ 28 ∷ 199 ∷ replicate 4072 0)

abbrev disk : Files
disk = record { exists = λ f. true; page = λ f p. zeros }

zeros_valid : page_valid zeros 0 ≡ true
unfolding page_valid page_checksum without_checksum crc_loop crc_table crc_rounds
zeros_valid = refl

pool-IsPool : IsPool pool disk
pool-IsPool = (invalidate_all-IsPool _ disk).0

logged : AllLoggedFrames pool
unfolding invalidate_all
logged zero = λ e. absurd (cc e)
logged (suc zero) = λ e. absurd (cc e)
logged (suc (suc m)) = λ e. absurd (cc e)

abbrev page : PageId
page = record { file_id = 2; page_no = 3 }

two_frames : 1 < length pool.frames
unfolding invalidate_all
two_frames = omega arith

unpinned : (frame_at pool 1).pin ≡ 0
unfolding invalidate_all
unpinned = refl

read-ok_example :
    (x : ℕ × (BufferPool × Files)) × (read page 0 pool disk ≡ ok x) × IsRead pool disk page x
read-ok_example =
    read-ok page 0 pool disk 1 pool-IsPool two_frames unpinned logged (λ absent. zeros_valid)

allocate-IsAllocated_example : Ensures (IsAllocated pool disk page) (allocate page pool disk)
allocate-IsAllocated_example = allocate-IsAllocated page pool disk pool-IsPool

flush_all-ok_example :
    (x : BufferPool × Files) × (flush_all pool disk ≡ ok x) × IsCheckpoint pool disk x
flush_all-ok_example = flush_all-ok pool disk pool-IsPool logged

abbrev engine : Engine
engine = record {
  pool = pool;
  files = disk;
  tail_pages = (2, 3) ∷ [];
  tail_undo = [];
  pending_drops = [];
  is_open = true;
}

idle : in_txn engine ≡ false
unfolding in_txn invalidate_all
idle = refl

engine_open-engine_close_example :
    (closed : Engine) × (opened : Engine) × (engine_close engine ≡ ok closed)
    × (engine_open closed ≡ ok opened)
    × (closed.pool.wal.file ≡ [])
    × ((p : PageId) → view opened.pool opened.files p ≡ view pool disk p)
engine_open-engine_close_example = engine_open-engine_close engine idle pool-IsPool logged
