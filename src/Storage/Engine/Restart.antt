-- ===== src/Storage/Engine/Restart.antt =====
-- storage/engine.cpp: the engine is closed and opened again.
use my_simple_db.Prelude.{◌≡◌, refl, ap, ◌∙◌, true, false, []}
use my_simple_db.Common.{ok}
use my_simple_db.Storage.Wal.{Wal, reset, read_log, read_loop}
use my_simple_db.Storage.Files.{Files}
use my_simple_db.Storage.Recovery.{recover, collect, redo, undo, Recovering}
use my_simple_db.Storage.Buffer.{PageId}
use my_simple_db.Storage.Buffer.Evict.{AllLoggedFrames}
use my_simple_db.Storage.Buffer.Flush.{invalidate_all}
use my_simple_db.Storage.Buffer.View.{view, IsPool, on_disk}
use my_simple_db.Storage.Buffer.View.Checkpoint.{invalidate_all-IsPool}
use my_simple_db.Storage.Buffer.View.Returns.{flush_all-ok}
use my_simple_db.Storage.Engine.{Engine, in_txn, checkpoint, engine_open, engine_close, set_wal}

-- Recovery of an empty log changes nothing.
recover_empty :
    (fs : Files) (w : Wal)
    → w.file ≡ []
    → (r : Recovering) × (recover fs w ≡ ok (r, w)) × (r.files ≡ fs)
unfolding recover read_log read_loop collect redo undo
recover_empty fs w empty = (
  record { files = fs; stats = record { replayed = 0; patches = 0; drops = 0; undone = 0 } },
  rw empty refl,
  refl,
)

-- In an engine whose pool has a table with exactly the valid frames, where each frame that is not
-- dirty has the page of its file and each dirty frame is logged, outside a transaction, closing and
-- opening again succeed, and every page is as it was.
pub engine_open-engine_close :
    (e : Engine)
    → in_txn e ≡ false
    → IsPool e.pool e.files
    → AllLoggedFrames e.pool
    → (closed : Engine) × (opened : Engine) × (engine_close e ≡ ok closed)
      × (engine_open closed ≡ ok opened)
      × (closed.pool.wal.file ≡ [])
      × ((page : PageId) → view opened.pool opened.files page ≡ view e.pool e.files page)
unfolding engine_close engine_open checkpoint reset
engine_open-engine_close e idle h logged =
    let c = flush_all-ok e.pool e.files h logged in
    let closed : Engine = record e {
      pool = set_wal (reset ((c.0).0).wal) (c.0).0;
      files = (c.0).1;
      is_open = false;
    } in
    let r = recover_empty closed.files closed.pool.wal refl in
    let opened : Engine = record closed {
      pool = invalidate_all (set_wal closed.pool.wal closed.pool);
      files = (r.0).files;
      tail_pages = [];
      is_open = true;
    } in
    (
      closed,
      opened,
      rw (idle, c.1) refl,
      rw r.1 refl,
      refl,
      λ page.
          (invalidate_all-IsPool (set_wal closed.pool.wal closed.pool) (r.0).files).1 page
          ∙ (ap (λ fs. on_disk fs page) r.2 ∙ (c.2).files page),
    )
