-- ===== src/Tests/Recovery.antt =====
-- A log with a committed and an unfinished transaction, cut off and recovered.
use my_simple_db.Prelude.{
  if◌then◌else◌, ℕ, ◌≡◌, refl, arith, true, false, List, [], ◌∷◌, ◌++◌, take, length-replicate,
  get_or-replicate,
}
use my_simple_db.Common.{exit, ok}
use my_simple_db.Storage.Codec.Bytes.{low_bytes, read_bytes}
use my_simple_db.Storage.Crc.{crc32, crc_loop, crc_table, crc_rounds}
use my_simple_db.Storage.Wal.{
  Wal, WalOp, WalRecord, record_bytes, append, next, read_loop, read_log, wal_put_u32, wal_put_u64,
  page_size,
}
use my_simple_db.Storage.Wal.Crash.{
  Entry, append_all, records_of, whole_records, AreEntries, read_log-append_all,
}
use my_simple_db.Storage.Files.{Files, zero_page}
use my_simple_db.Storage.Recovery.{
  Collected, Recovering, collect, collect_record, nothing_collected, validate_patch, contains,
  recover,
}
use my_simple_db.Storage.Recovery.Overlay.{byte, patch_byte}
use my_simple_db.Storage.Recovery.Passes.{IsFiles, committed_byte}
use my_simple_db.Storage.Recovery.Invalid.{valid_log, recover-valid_log}
use my_simple_db.Storage.Recovery.Sound.{Content, rewrites, patched, recover-committed_byte}

abbrev empty_wal : Wal
empty_wal = record { file = []; next_lsn = 1; next_txn_id = 3; bytes_since_reset = 0 }

-- one byte at the start of page 0 of file 1
abbrev patch : ℕ → ℕ → List ℕ
patch after before =
    wal_put_u64 1 ++ (wal_put_u32 0 ++ (wal_put_u32 0 ++ (wal_put_u32 1 ++ (after ∷ before ∷ []))))

abbrev entries : List Entry
entries =
    record { op = WalOp.page_patch; txn = 1; payload = patch 7 0 }
    ∷ record { op = WalOp.commit; txn = 1; payload = [] }
    ∷ record { op = WalOp.page_patch; txn = 2; payload = patch 9 7 }
    ∷ []

abbrev log : Wal
log = append_all entries empty_wal

entries_valid : AreEntries entries
unfolding low_bytes
entries_valid =
    ((omega arith, omega arith), ((omega arith, omega arith), ((omega arith, omega arith), tt)))

read_log-append_all_example :
    read_log (take 80 log.file) ≡ take (whole_records 80 entries) (records_of 1 entries)
read_log-append_all_example =
    read_log-append_all entries empty_wal 80 refl entries_valid (omega arith)

whole_run : whole_records 80 entries ≡ 2
unfolding whole_records low_bytes
whole_run = refl

abbrev logged : ℕ → ℕ → ℕ → ℕ → WalRecord
logged lsn txn after before = record { lsn = lsn; txn = txn; op = 1; payload = patch after before }

abbrev collected : Collected
collected = record {
  records = logged 1 1 7 0 ∷ logged 3 2 9 7 ∷ [];
  committed = 1 ∷ [];
  aborted = [];
  commit_abort_count = 1;
}

collect_run : collect (read_log log.file) nothing_collected ≡ ok collected
unfolding append_all append record_bytes low_bytes read_bytes crc32 crc_loop crc_table crc_rounds
    next read_loop read_log collect collect_record validate_patch
collect_run = refl

-- Nothing of the pages was written before the crash.
abbrev lost_disk : Files
lost_disk = record { exists = λ f. false; page = λ f p. zero_page }

lost_disk-IsFiles : IsFiles lost_disk
lost_disk-IsFiles = record {
  sized = λ f p. length-replicate {A = ℕ} page_size 0;
  absent = λ f p i gone. get_or-replicate page_size i 0;
}

abbrev no_content : Content
no_content f p i = 0

abbrev committed_content : Content
committed_content f p i = committed_byte collected collected.records f p i 0

-- the first patch is committed, the second holds the 7 that it replaced
first_honest :
    (f p i : ℕ)
    → rewrites collected (logged 1 1 7 0) f p i ≡ true
    → patch_byte true (logged 1 1 7 0) i ≡ committed_content f p i
unfolding contains
first_honest f p i h = cc

second_honest :
    (f p i : ℕ)
    → rewrites collected (logged 3 2 9 7) f p i ≡ true
    → patch_byte true (logged 3 2 9 7) i
      ≡ patched collected (logged 1 1 7 0) committed_content f p i
unfolding contains low_bytes read_bytes committed_byte
second_honest f p i h =
    let file : f ≡ 1 = ground (arith, h) in
    let page : p ≡ 0 = ground (arith, h) in
    let place : i ≡ 0 = ground (arith, h) in rw (file, page, place) refl

recover-committed_byte_example :
    (end : Recovering) × (after : Wal) × (recover lost_disk log ≡ ok (end, after))
    × (after.file ≡ [])
    × ((f p i : ℕ) → byte end.files f p i ≡ committed_content f p i)
recover-committed_byte_example =
    recover-committed_byte lost_disk no_content log collected collect_run lost_disk-IsFiles
      (λ f p i untouched free. get_or-replicate page_size i 0) (first_honest, (second_honest, tt))

recover-valid_log_example :
    (x : Recovering × Wal) × (recover lost_disk log
      ≡ (if valid_log (read_log log.file) then ok x else exit))
recover-valid_log_example = recover-valid_log lost_disk log
