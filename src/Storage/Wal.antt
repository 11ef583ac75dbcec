-- ===== src/Storage/Wal.antt =====
-- storage/wal.h and storage/wal.cpp: the write-ahead log. The file wal.log is the list of its
-- bytes. A write appends all its bytes: the loop around ::write and the errors of the system calls
-- are not modelled. A reader is the list of the bytes that it has not consumed, in its buffer or
-- still in the file: `fill` fails exactly at the end of the file.
pub mod Record
pub mod Crash
use my_simple_db.Prelude.{
  ℕ, zero, suc, ◌+◌, ◌*◌, ◌==◌, Option, none, some, List, [], ◌∷◌, ◌++◌, ltb, if◌then◌else◌, length,
  get_or, take, drop,
}
use my_simple_db.Storage.Codec.Bytes.{low_bytes, read_bytes}
use my_simple_db.Storage.Crc.{crc32}

pub data WalOp : Type 0 where
  page_patch drop_file commit abort : WalOp

abbrev pub wal_op_code : WalOp → ℕ
wal_op_code WalOp.page_patch = 1
wal_op_code WalOp.drop_file = 2
wal_op_code WalOp.commit = 3
wal_op_code WalOp.abort = 4

abbrev pub page_size : ℕ
page_size = 4096

abbrev pub wal_header_size : ℕ
wal_header_size = 25

abbrev pub wal_patch_header_size : ℕ
wal_patch_header_size = 20

abbrev pub wal_payload_max : ℕ
wal_payload_max = wal_patch_header_size + 2 * page_size

-- A memcpy of the native little-endian integer.
abbrev pub wal_put_u64 : ℕ → List ℕ
wal_put_u64 v = low_bytes 8 v

abbrev pub wal_put_u32 : ℕ → List ℕ
wal_put_u32 v = low_bytes 4 v

abbrev pub wal_get_u64 : List ℕ → ℕ
wal_get_u64 p = read_bytes 8 p

abbrev pub wal_get_u32 : List ℕ → ℕ
wal_get_u32 p = read_bytes 4 p

-- A record as the reader gives it. `op` is the byte, which can be any.
pub record WalRecord : Type 0 where
  pub lsn : ℕ
  pub txn : ℕ
  pub op : ℕ
  pub payload : List ℕ

pub record Wal : Type 0 where
  pub file : List ℕ
  pub next_lsn : ℕ
  pub next_txn_id : ℕ
  pub bytes_since_reset : ℕ

-- The fields that the CRC covers before the payload: lsn, txn and op.
abbrev pub covered : ℕ → ℕ → ℕ → List ℕ
covered lsn txn op = wal_put_u64 lsn ++ (wal_put_u64 txn ++ (op ∷ []))

-- The bytes that an append writes.
unfoldable pub record_bytes : ℕ → ℕ → ℕ → List ℕ → List ℕ
record_bytes lsn txn op payload =
    let head = covered lsn txn op in
    wal_put_u32 (length payload) ++ (head ++ (wal_put_u32 (crc32 (head ++ payload)) ++ payload))

-- The new state and the LSN of the record.
unfoldable pub append : WalOp → ℕ → List ℕ → Wal → Wal × ℕ
append op txn payload w = (
  record {
    file = w.file ++ record_bytes w.next_lsn txn (wal_op_code op) payload;
    next_lsn = w.next_lsn + 1;
    next_txn_id = w.next_txn_id;
    bytes_since_reset = w.bytes_since_reset + (wal_header_size + length payload);
  },
  w.next_lsn,
)

unfoldable pub alloc_txn_id : Wal → Wal × ℕ
alloc_txn_id w = (
  record {
    file = w.file;
    next_lsn = w.next_lsn;
    next_txn_id = w.next_txn_id + 1;
    bytes_since_reset = w.bytes_since_reset;
  },
  w.next_txn_id,
)

unfoldable pub reset : Wal → Wal
reset w = record {
  file = [];
  next_lsn = w.next_lsn;
  next_txn_id = w.next_txn_id;
  bytes_since_reset = 0;
}

-- The next record and the bytes after it.
unfoldable pub next : List ℕ → Option (WalRecord × List ℕ)
next buf =
    let len = wal_get_u32 buf in
    let payload = take len (drop wal_header_size buf) in
    if ltb (length buf) wal_header_size
    then none
    else if ltb wal_payload_max len
    then none
    else if ltb (length buf) (wal_header_size + len)
    then none
    else if crc32 (take 17 (drop 4 buf) ++ payload) == wal_get_u32 (drop 21 buf)
    then some (
      record {
        lsn = wal_get_u64 (drop 4 buf);
        txn = wal_get_u64 (drop 12 buf);
        op = get_or (drop 20 buf) 0 0;
        payload = payload;
      },
      drop (wal_header_size + len) buf,
    )
    else none

-- The loop `while (reader.next(&rec))`: the records up to the first that is not valid. A record
-- takes at least 25 bytes, so the number of bytes is enough fuel.
unfoldable pub read_loop : ℕ → List ℕ → List WalRecord
read_loop zero buf = []
read_loop (suc fuel) buf = elim (next buf) [ none ↦ [] | some r ↦ r.0 ∷ read_loop fuel r.1 ]

unfoldable pub read_log : List ℕ → List WalRecord
read_log file = read_loop (length file) file
