-- ===== src/Storage/Recovery.antt =====
-- storage/recovery.cpp: recovery after a crash, in three passes over the records of the log. The
-- calls that flush change nothing that is modelled. A record with a valid checksum and a content
-- that is not valid ends the process.
pub mod Overlay
pub mod Passes
pub mod Sound
pub mod Invalid
use my_simple_db.Prelude.{
  ℕ, zero, suc, ◌+◌, ◌-◌, ◌*◌, Bool, true, false, not, ◌&&◌, ◌||◌, List, [], ◌∷◌, ◌++◌, reverse,
  ltb, ◌==◌, if◌then◌else◌, length, take, drop,
}
use my_simple_db.Common.{Result, ok, err, exit, ◌>>=◌, ◌>>◌}
use my_simple_db.Storage.Wal.{
  Wal, WalRecord, WalOp, wal_op_code, wal_get_u32, wal_get_u64, wal_patch_header_size, page_size,
  read_log, reset,
}
use my_simple_db.Storage.Files.{Files, read_page, write_page, remove_table_file, table_file_exists}

-- The fields of a patch.
abbrev pub patch_file : WalRecord → ℕ
patch_file r = wal_get_u64 r.payload

abbrev pub patch_page : WalRecord → ℕ
patch_page r = wal_get_u32 (drop 8 r.payload)

abbrev pub patch_offset : WalRecord → ℕ
patch_offset r = wal_get_u32 (drop 12 r.payload)

abbrev pub patch_len : WalRecord → ℕ
patch_len r = wal_get_u32 (drop 16 r.payload)

abbrev pub critical_if : Bool → Result (Unit {0})
critical_if bad = if bad then exit else ok tt

-- The source reads the fields of a payload that is shorter than 20 bytes beyond its end; here these
-- bytes are zeros.
unfoldable pub validate_patch : WalRecord → Result (Unit {0})
validate_patch r =
    critical_if (patch_file r == 0)
    >> (critical_if (
          ltb page_size (patch_offset r)
          || (patch_len r == 0 || ltb (page_size - patch_offset r) (patch_len r)))
        >> critical_if (not (length r.payload == wal_patch_header_size + 2 * patch_len r)))

unfoldable pub validate_drop : WalRecord → Result (Unit {0})
validate_drop r = critical_if (not (length r.payload == 8)) >> critical_if (patch_file r == 0)

-- The bytes of a region are replaced.
unfoldable pub overlay : ℕ → List ℕ → List ℕ → List ℕ
overlay offset bytes page = take offset page ++ (bytes ++ drop (offset + length bytes) page)

abbrev pub patch_bytes : Bool → WalRecord → List ℕ
patch_bytes undo r =
    take (patch_len r) (drop (wal_patch_header_size + (if undo then patch_len r else 0)) r.payload)

unfoldable pub apply_patch : Bool → WalRecord → Files → Files
apply_patch undo r fs =
    let read = read_page (patch_file r) (patch_page r) fs in
    write_page (patch_file r) (patch_page r) (overlay (patch_offset r) (patch_bytes undo r) read.1)
      read.0

-- What the first pass collects.
pub record Collected : Type 0 where
  pub records : List WalRecord
  pub committed : List ℕ
  pub aborted : List ℕ
  pub commit_abort_count : ℕ

abbrev pub is_op : WalOp → WalRecord → Bool
is_op op r = r.op == wal_op_code op

-- One round of the loop of the first pass.
unfoldable pub collect_record : WalRecord → Collected → Result Collected
collect_record r c =
    if is_op WalOp.page_patch r
    then validate_patch r
      >> ok (record {
        records = c.records ++ (r ∷ []);
        committed = c.committed;
        aborted = c.aborted;
        commit_abort_count = c.commit_abort_count;
      })
    else if is_op WalOp.drop_file r
    then validate_drop r
      >> ok (record {
        records = c.records ++ (r ∷ []);
        committed = c.committed;
        aborted = c.aborted;
        commit_abort_count = c.commit_abort_count;
      })
    else if is_op WalOp.commit r
    then critical_if (not (length r.payload == 0))
      >> ok (record {
        records = c.records;
        committed = r.txn ∷ c.committed;
        aborted = c.aborted;
        commit_abort_count = c.commit_abort_count + 1;
      })
    else if is_op WalOp.abort r
    then critical_if (not (length r.payload == 0))
      >> ok (record {
        records = c.records;
        committed = c.committed;
        aborted = r.txn ∷ c.aborted;
        commit_abort_count = c.commit_abort_count + 1;
      })
    else exit

unfoldable pub collect : List WalRecord → Collected → Result Collected
collect [] c = ok c
collect (r ∷ log) c = collect_record r c >>= collect log

abbrev pub nothing_collected : Collected
nothing_collected = record { records = []; committed = []; aborted = []; commit_abort_count = 0 }

unfoldable pub contains : List ℕ → ℕ → Bool
contains [] t = false
contains (x ∷ xs) t = x == t || contains xs t

-- The counters `replayed`, `patches`, `drops` and `undone` go with the files.
pub record RecoveryStats : Type 0 where
  pub replayed : ℕ
  pub patches : ℕ
  pub drops : ℕ
  pub undone : ℕ

pub record Recovering : Type 0 where
  pub files : Files
  pub stats : RecoveryStats

abbrev count_patch : RecoveryStats → RecoveryStats
count_patch s = record {
  replayed = s.replayed;
  patches = s.patches + 1;
  drops = s.drops;
  undone = s.undone;
}

abbrev count_drop : RecoveryStats → RecoveryStats
count_drop s = record {
  replayed = s.replayed;
  patches = s.patches;
  drops = s.drops + 1;
  undone = s.undone;
}

abbrev count_undone : RecoveryStats → RecoveryStats
count_undone s = record {
  replayed = s.replayed;
  patches = s.patches;
  drops = s.drops;
  undone = s.undone + 1;
}

-- One round of the second pass, and of the third.
unfoldable pub redo_record : Collected → WalRecord → Recovering → Recovering
redo_record c r s =
    if not (contains c.committed r.txn)
    then s
    else if is_op WalOp.page_patch r
    then record { files = apply_patch false r s.files; stats = count_patch s.stats }
    else if table_file_exists (patch_file r) s.files
    then record { files = remove_table_file (patch_file r) s.files; stats = count_drop s.stats }
    else s

unfoldable pub undo_record : Collected → WalRecord → Recovering → Recovering
undo_record c r s =
    if contains c.committed r.txn || (contains c.aborted r.txn || not (is_op WalOp.page_patch r))
    then s
    else record { files = apply_patch true r s.files; stats = count_undone s.stats }

unfoldable pub redo : Collected → List WalRecord → Recovering → Recovering
redo c [] s = s
redo c (r ∷ rs) s = redo c rs (redo_record c r s)

unfoldable pub undo : Collected → List WalRecord → Recovering → Recovering
undo c [] s = s
undo c (r ∷ rs) s = undo c rs (undo_record c r s)

unfoldable pub recover : Files → Wal → Result (Recovering × Wal)
recover files wal = do
  c ← collect (read_log wal.file) nothing_collected
  let replayed = length c.records + c.commit_abort_count
  let start : Recovering = record {
    files = files;
    stats = record { replayed = replayed; patches = 0; drops = 0; undone = 0 };
  }
  let end = undo c (reverse c.records) (redo c c.records start)
  if replayed == 0 && length wal.file == 0 then ok (end, wal) else ok (end, reset wal)
