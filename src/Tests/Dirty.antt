-- ===== src/Tests/Dirty.antt =====
-- A page of the cache that is changed in place, marked dirty, committed or not, and recovered.
use my_simple_db.Prelude.{
  ℕ, zero, suc, ◌≡◌, refl, arith, true, false, some, List, [], ◌∷◌, length, leb, if◌then◌else◌,
  replicate, length-replicate, get_or-replicate,
}
use my_simple_db.Common.{ok}
use my_simple_db.Storage.Codec.Bytes.{IsBytes}
use my_simple_db.Storage.Wal.{Wal}
use my_simple_db.Storage.Files.{Files, zero_page}
use my_simple_db.Storage.Recovery.Passes.{IsFiles}
use my_simple_db.Storage.Buffer.{PageFrame, TxnContext, BufferPool, empty_frame, table_find}
use my_simple_db.Storage.Buffer.Diff.{mark_dirty}
use my_simple_db.Storage.Buffer.Durable.{IsFresh}
use my_simple_db.Storage.Buffer.Evict.{AllLoggedFrames}
use my_simple_db.Storage.Buffer.Flush.{invalidate_all}
use my_simple_db.Storage.Buffer.Log.{IsFrame}
use my_simple_db.Storage.Buffer.Log.Recover.{Recovers}
use my_simple_db.Storage.Buffer.View.{IsPool}
use my_simple_db.Storage.Buffer.View.Checkpoint.{invalidate_all-IsPool}
use my_simple_db.Storage.Buffer.View.Dirty.{IsEdited, edited, edited_frame, mark_dirty-ok}
use my_simple_db.Storage.Buffer.View.Atomic.{committed, cut_off, recover-mark_dirty}
use my_simple_db.Storage.Buffer.View.Reads.{inserted, inserted-IsPool}

abbrev empty_wal : Wal
empty_wal = record { file = []; next_lsn = 1; next_txn_id = 2; bytes_since_reset = 0 }

abbrev txn : TxnContext
txn = record { txn_id = 1; wrote = false; undo = [] }

-- Page 3 of file 2 as it was read.
abbrev clean_frame : PageFrame
clean_frame = record {
  page = record { file_id = 2; page_no = 3 };
  valid = true;
  dirty = false;
  ref = true;
  pin = 1;
  bytes = zero_page;
  before = zero_page;
}

abbrev disk : Files
disk = record { exists = λ f. false; page = λ f p. zero_page }

abbrev emptied : BufferPool
emptied = record {
  frames = empty_frame ∷ empty_frame ∷ [];
  page_table = [];
  clock_hand = 0;
  wal = empty_wal;
  txn = some txn;
}

emptied-IsPool : IsPool emptied disk
unfolding invalidate_all
emptied-IsPool = (invalidate_all-IsPool emptied disk).0

abbrev pool : BufferPool
pool = inserted emptied 1 clean_frame

-- The first byte becomes 7.
abbrev new_page : List ℕ
new_page = 7 ∷ replicate 4095 0

pool-IsPool : IsPool pool disk
unfolding table_find
pool-IsPool =
    inserted-IsPool emptied disk emptied-IsPool 1 (omega arith) refl clean_frame refl refl
      (λ clean. refl)

logged : AllLoggedFrames pool
logged zero = λ e. absurd (cc e)
logged (suc zero) = λ e. absurd (cc e)
logged (suc (suc m)) = λ e. absurd (cc e)

zeros-IsBytes : (n : ℕ) → IsBytes (replicate n 0)
zeros-IsBytes zero = tt
zeros-IsBytes (suc n) = (omega arith, zeros-IsBytes n)

well_formed : IsFrame (edited_frame pool 1 new_page)
well_formed = record {
  named = omega arith;
  file_small = omega arith;
  page_small = omega arith;
  size = omega (arith, length-replicate {A = ℕ} 4095 0);
  size_before = length-replicate {A = ℕ} 4096 0;
  octets = (omega arith, zeros-IsBytes 4095);
  octets_before = zeros-IsBytes 4096;
}

fresh : IsFresh empty_wal txn
fresh = record { empty = refl; room = omega arith; small = omega arith }

disk-IsFiles : IsFiles disk
disk-IsFiles = record {
  sized = λ f p. length-replicate {A = ℕ} 4096 0;
  absent = λ f p i gone. get_or-replicate 4096 i 0;
}

mark_dirty-ok_example :
    (q : BufferPool) × (mark_dirty 1 (edited pool 1 new_page) ≡ ok q)
    × IsEdited pool disk 1 new_page txn q
mark_dirty-ok_example = mark_dirty-ok 1 new_page pool disk txn pool-IsPool logged refl refl

-- The log is cut off in its first record.
recover-mark_dirty_example :
    (q : BufferPool) × (mark_dirty 1 (edited pool 1 new_page) ≡ ok q)
    × Recovers
        (edited_frame pool 1 new_page)
        disk
        (cut_off 40 (committed q txn) empty_wal)
        (if leb (length (committed q txn).file) 40 then new_page else zero_page)
recover-mark_dirty_example =
    recover-mark_dirty 1 new_page pool disk txn pool-IsPool logged refl refl refl refl well_formed
      fresh disk-IsFiles 40 empty_wal
