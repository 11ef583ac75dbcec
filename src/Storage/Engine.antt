-- ===== src/Storage/Engine.antt =====
-- storage/engine.h and storage/engine.cpp: transactions and checkpoints. The engine and the pool both
-- have a pointer to the running transaction; it is the field `txn` of the pool here, and the lists
-- of TxnContext that only the engine uses are fields of the engine. The cache of the index trees is
-- not modelled.
pub mod Restart
use my_simple_db.Prelude.{
  ℕ, Bool, true, false, not, ◌||◌, Option, none, some, List, [], ◌∷◌, ◌++◌, reverse, ◌==◌,
  if◌then◌else◌,
}
use my_simple_db.Common.{ErrCode, Result, ok, err, ◌>>=◌, ◌>>◌, raise_if}
use my_simple_db.Storage.Wal.{Wal, WalOp, append, alloc_txn_id, reset, wal_put_u64}
use my_simple_db.Storage.Files
use my_simple_db.Storage.Files.{Files}
use my_simple_db.Storage.Recovery.{Recovering, recover, contains}
use my_simple_db.Storage.Buffer.{PageId, UndoEntry, TxnContext, BufferPool}
use my_simple_db.Storage.Buffer.Diff.{restore_region}
use my_simple_db.Storage.Buffer.Flush.{flush_all, invalidate_all, drop_table}

pub record TailUndo : Type 0 where
  pub fid : ℕ
  pub had : Bool
  pub old_tail : ℕ

-- `tail_pages` is the map from a file to its last page; the first pair of a file counts.
pub record Engine : Type 0 where
  pub pool : BufferPool
  pub files : Files
  pub tail_pages : List (ℕ × ℕ)
  pub tail_undo : List TailUndo
  pub pending_drops : List ℕ
  pub is_open : Bool

unfoldable pub in_txn : Engine → Bool
in_txn e = elim e.pool.txn [ none ↦ false | some t ↦ true ]

abbrev pub set_wal : Wal → BufferPool → BufferPool
set_wal w p = record p { wal = w }

abbrev pub set_txn : Option TxnContext → BufferPool → BufferPool
set_txn t p = record p { txn = t }

unfoldable pub erase_tail : ℕ → List (ℕ × ℕ) → List (ℕ × ℕ)
erase_tail fid [] = []
erase_tail fid ((f, tail) ∷ tails) =
    let rest = erase_tail fid tails in if f == fid then rest else (f, tail) ∷ rest

unfoldable pub check_txn : ℕ → Engine → Result (Unit {0})
check_txn fid e =
    raise_if (not (in_txn e)) ErrCode.internal
    >> raise_if (contains e.pending_drops fid) ErrCode.internal

unfoldable pub begin_txn : Engine → Result Engine
begin_txn e =
    let id = alloc_txn_id e.pool.wal in
    if in_txn e
    then err ErrCode.internal
    else ok (record e {
      pool =
          set_txn (some (record { txn_id = id.1; wrote = false; undo = [] })) (set_wal id.0 e.pool);
      tail_undo = [];
      pending_drops = [];
    })

-- The end of a transaction in the log, where it has written.
abbrev pub log_end : WalOp → TxnContext → Wal → Wal
log_end op t w = if t.wrote then (append op t.txn_id [] w).0 else w

unfoldable pub remove_files : List ℕ → Files → Files
remove_files [] fs = fs
remove_files (fid ∷ drops) fs = remove_files drops (Files.remove_table_file fid fs)

unfoldable pub commit_txn : Engine → Result Engine
commit_txn e = elim e.pool.txn [
  | none ↦ err ErrCode.internal
  | some t ↦ ok (record e {
    pool = set_txn none (set_wal (log_end WalOp.commit t e.pool.wal) e.pool);
    files = remove_files e.pending_drops e.files;
    tail_undo = [];
    pending_drops = [];
  })
]

unfoldable pub restore_all : List UndoEntry → BufferPool → Files → BufferPool × Files
restore_all [] p fs = (p, fs)
restore_all (u ∷ undo) p fs =
    let r = restore_region u.page u.off u.before p fs in restore_all undo r.0 r.1

unfoldable pub restore_tails : List TailUndo → List (ℕ × ℕ) → List (ℕ × ℕ)
restore_tails [] tails = tails
restore_tails (u ∷ undo) tails =
    restore_tails undo (if u.had then (u.fid, u.old_tail) ∷ tails else erase_tail u.fid tails)

unfoldable pub rollback_txn : Engine → Result Engine
rollback_txn e = elim e.pool.txn [
  | none ↦ err ErrCode.internal
  | some t ↦
      let r = restore_all (reverse t.undo) (set_txn none e.pool) e.files in
      ok (record e {
        pool = set_wal (log_end WalOp.abort t (r.0).wal) r.0;
        files = r.1;
        tail_pages = restore_tails (reverse e.tail_undo) e.tail_pages;
        tail_undo = [];
        pending_drops = [];
      })
]

-- The calls that make the files durable change nothing that is modelled.
unfoldable pub checkpoint : Engine → Result Engine
checkpoint e = if in_txn e then err ErrCode.internal else (do
  r ← flush_all e.pool e.files
  ok (record e { pool = set_wal (reset (r.0).wal) r.0; files = r.1 }))

unfoldable pub engine_open : Engine → Result Engine
engine_open e = do
  r ← recover e.files e.pool.wal
  ok (record e {
    pool = invalidate_all (set_wal r.1 e.pool);
    files = (r.0).files;
    tail_pages = [];
    is_open = true;
  })

unfoldable pub engine_close : Engine → Result Engine
engine_close e = do c ← checkpoint e; ok (record c { is_open = false })

-- Without an argument, check_txn tests for the file 0, which no table has.
unfoldable pub engine_remove_table_file : ℕ → Engine → Result Engine
engine_remove_table_file fid e = check_txn 0 e >> (elim e.pool.txn [
  | none ↦ err ErrCode.internal
  | some t ↦ (do
    let logged = (append WalOp.drop_file t.txn_id (wal_put_u64 fid) e.pool.wal).0
    let dropping = set_txn (some (record t { wrote = true })) (set_wal logged e.pool)
    r ← drop_table fid dropping e.files
    ok (record e {
      pool = r.0;
      files = r.1;
      tail_pages = erase_tail fid e.tail_pages;
      pending_drops = e.pending_drops ++ (fid ∷ []);
    }))
])
