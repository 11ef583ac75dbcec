-- ===== src/Tests/Buffer.antt =====
-- A page that is changed, logged, committed or not, and recovered.
use my_simple_db.Prelude.{
  ℕ, zero, suc, ◌<◌, ◌≡◌, refl, arith, true, false, none, [], ◌∷◌, length, take, leb, inl,
  if◌then◌else◌, replicate, length-replicate, get_or-replicate,
}
use my_simple_db.Common.{ErrCode, ok, err}
use my_simple_db.Storage.Codec.Bytes.{IsBytes}
use my_simple_db.Storage.Wal.{Wal}
use my_simple_db.Storage.Files.{Files, zero_page}
use my_simple_db.Storage.Recovery.{Recovering, recover}
use my_simple_db.Storage.Recovery.Overlay.{byte}
use my_simple_db.Storage.Recovery.Passes.{IsFiles}
use my_simple_db.Storage.Buffer.{PageFrame, TxnContext, BufferPool, frame_at, evict}
use my_simple_db.Storage.Buffer.Evict.{AllLoggedFrames, evict-ok, evict-all_pinned}
use my_simple_db.Storage.Buffer.Log.{IsFrame}
use my_simple_db.Storage.Buffer.Log.Recover.{Recovers}
use my_simple_db.Storage.Buffer.Durable.{
  IsFresh, commit_log, diff_log, abort_log, recover-commit_log, recover-diff_log, recover-cut_log,
  recover-abort_log,
}

-- Page 3 of file 2, whose first byte became 7.
abbrev changed : PageFrame
changed = record {
  page = record { file_id = 2; page_no = 3 };
  valid = true;
  dirty = true;
  ref = true;
  pin = 1;
  bytes = 7 ∷ replicate 4095 0;
  before = zero_page;
}

replicate-IsBytes : (n : ℕ) → IsBytes (replicate n 0)
replicate-IsBytes zero = tt
replicate-IsBytes (suc n) = (omega arith, replicate-IsBytes n)

changed-IsFrame : IsFrame changed
changed-IsFrame = record {
  named = omega arith;
  file_small = omega arith;
  page_small = omega arith;
  size = omega (arith, length-replicate {A = ℕ} 4095 0);
  size_before = length-replicate {A = ℕ} 4096 0;
  octets = (omega arith, replicate-IsBytes 4095);
  octets_before = replicate-IsBytes 4096;
}

abbrev empty_wal : Wal
empty_wal = record { file = []; next_lsn = 1; next_txn_id = 2; bytes_since_reset = 0 }

abbrev txn : TxnContext
txn = record { txn_id = 1; wrote = false; undo = [] }

fresh : IsFresh empty_wal txn
fresh = record { empty = refl; room = omega arith; small = omega arith }

abbrev empty_disk : Files
empty_disk = record { exists = λ f. false; page = λ f p. zero_page }

empty_disk-IsFiles : IsFiles empty_disk
empty_disk-IsFiles = record {
  sized = λ f p. length-replicate {A = ℕ} 4096 0;
  absent = λ f p i gone. get_or-replicate 4096 i 0;
}

recover-commit_log_example :
    Recovers changed empty_disk (commit_log changed empty_wal txn) changed.bytes
recover-commit_log_example =
    recover-commit_log changed changed-IsFrame empty_wal txn fresh empty_disk empty_disk-IsFiles
      (commit_log changed empty_wal txn) refl (λ i. inl refl)

recover-diff_log_example :
    Recovers changed empty_disk (diff_log changed empty_wal txn) changed.before
recover-diff_log_example =
    recover-diff_log changed changed-IsFrame empty_wal txn fresh empty_disk empty_disk-IsFiles
      (diff_log changed empty_wal txn) refl (λ i. inl refl)

abbrev cut_wal : Wal
cut_wal = record {
  file = take 40 (commit_log changed empty_wal txn).file;
  next_lsn = 3;
  next_txn_id = 2;
  bytes_since_reset = 0;
}

recover-cut_log_example : Recovers changed empty_disk cut_wal (
    if leb (length (commit_log changed empty_wal txn).file) 40
    then changed.bytes
    else changed.before)
recover-cut_log_example =
    recover-cut_log changed changed-IsFrame empty_wal txn fresh empty_disk empty_disk-IsFiles 40
      cut_wal refl (λ i. refl)

recover-abort_log_example :
    (end : Recovering) × (emptied : Wal) × (recover empty_disk (abort_log changed empty_wal txn)
      ≡ ok (end, emptied))
    × (emptied.file ≡ [])
    × ((q p i : ℕ) → byte end.files q p i ≡ byte empty_disk q p i)
recover-abort_log_example =
    recover-abort_log changed changed-IsFrame empty_wal txn fresh empty_disk empty_disk-IsFiles
      (abort_log changed empty_wal txn) refl

-- Two frames of which the second is free, though it has a second chance.
abbrev pool : BufferPool
pool = record {
  frames = changed ∷ (record changed { pin = 0; dirty = false }) ∷ [];
  page_table = [];
  clock_hand = 1;
  wal = empty_wal;
  txn = none;
}

abbrev logged_pool : BufferPool
logged_pool = record pool {
  frames = (record changed { dirty = false }) ∷ (record changed { pin = 0; dirty = false }) ∷ [];
}

clean : AllLoggedFrames logged_pool
clean zero = λ e. absurd (cc e)
clean (suc zero) = λ e. absurd (cc e)
clean (suc (suc m)) = λ e. absurd (cc e)

evict-ok_example :
    (idx : ℕ) × (r : BufferPool × Files) × (evict logged_pool empty_disk ≡ ok (idx, r))
    × (idx < 2)
    × ((frame_at logged_pool idx).pin ≡ 0)
evict-ok_example = evict-ok logged_pool empty_disk 1 (omega arith) refl clean

abbrev full_pool : BufferPool
full_pool = record pool { frames = changed ∷ changed ∷ [] }

full_pinned : (m : ℕ) → m < 2 → 0 < (frame_at full_pool m).pin
full_pinned zero h = omega arith
full_pinned (suc zero) h = omega arith
full_pinned (suc (suc m)) h = absurd (omega (arith, h))

evict-all_pinned_example : evict full_pool empty_disk ≡ err ErrCode.internal
evict-all_pinned_example = evict-all_pinned full_pool empty_disk full_pinned
