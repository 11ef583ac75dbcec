-- ===== src/Storage/Buffer/View/Atomic.antt =====
-- storage/buffer_pool.cpp, storage/wal.cpp and storage/recovery.cpp together: a page of the cache is
-- changed in place and marked dirty, its transaction commits, the process crashes, and recovery runs.
use my_simple_db.Prelude.{
  ℕ, ◌≡◌, sym, ap, ◌∙◌, true, false, List, [], if◌then◌else◌, length, take, get_or, leb, some,
  subst, arith,
}
use my_simple_db.Common.{ok}
use my_simple_db.Storage.Files.{Files}
use my_simple_db.Storage.Wal.{Wal, WalOp, append}
use my_simple_db.Storage.Recovery.Passes.{IsFiles}
use my_simple_db.Storage.Buffer.{PageFrame, TxnContext, BufferPool, frame_at, has_frame}
use my_simple_db.Storage.Buffer.Diff.{mark_dirty}
use my_simple_db.Storage.Buffer.Durable.{
  IsFresh, commit_log, page_on, diff_log_lem, recover-cut_log,
}
use my_simple_db.Storage.Buffer.Evict.{AllLoggedFrames}
use my_simple_db.Storage.Buffer.Log.{IsFrame}
use my_simple_db.Storage.Buffer.Log.Recover.{Recovers}
use my_simple_db.Storage.Buffer.View.{IsPool}
use my_simple_db.Storage.Buffer.View.Dirty.{edited, edited_frame, mark_dirty-ok}

-- The log once the transaction has committed.
abbrev pub committed : BufferPool → TxnContext → Wal
committed q t = (append WalOp.commit t.txn_id [] q.wal).0

-- A log whose file is cut off after `n` bytes. The numbers in memory are lost with the process.
abbrev pub cut_off : ℕ → Wal → Wal → Wal
cut_off n log memory = record memory { file = take n log.file }

module _ (idx : ℕ) (new : List ℕ) (p : BufferPool) (fs : Files) (t : TxnContext)
    (pool : IsPool p fs) (logged : AllLoggedFrames p) (here : has_frame p idx ≡ true)
    (active : p.txn ≡ some t) (untouched : (frame_at p idx).dirty ≡ false)
    (baseline : (frame_at p idx).before ≡ (frame_at p idx).bytes)
    (frame : IsFrame (edited_frame p idx new)) (fresh : IsFresh p.wal t) (files : IsFiles fs) where
  abbrev f : PageFrame
  f = edited_frame p idx new

  on_file : (i : ℕ) → page_on fs f i ≡ get_or f.before i 0
  on_file i =
      ap (λ bytes. get_or bytes i 0)
        (pool.clean idx (ground (arith, here)) (ground (arith, here)) untouched ∙ sym baseline)

  -- Take a pool in which the page table has exactly the valid frames, each frame that is not dirty has
  -- the page of the file, and no dirty frame has a change that is not in the log; a transaction with a
  -- number of 64 bits is active, and the log is empty with 513 numbers left for its records. Let the
  -- bytes of a valid frame that is not dirty, and whose baseline is its page, be overwritten in place,
  -- the page before and after being 4096 bytes, in a file whose number is not zero and fits 64 bits, at
  -- a page number that fits 32. The pages of the disk are 4096 long, and those of a file that does not
  -- exist are zeros. Then mark_dirty on the frame returns. Where the transaction then commits, the process
  -- ends without the page being written, and the log is cut off at any byte, recovery succeeds, empties
  -- the log and changes no other page, and the page is the new one if the whole log was left, and else
  -- the old one: never a mixture.
  pub recover-mark_dirty :
      (n : ℕ) (memory : Wal)
      → (q : BufferPool) × (mark_dirty idx (edited p idx new) ≡ ok q)
        × Recovers f fs
            (cut_off n (committed q t) memory)
            (if leb (length (committed q t).file) n then new else (frame_at p idx).bytes)
  recover-mark_dirty n memory =
      let (q, e, edit) = mark_dirty-ok idx new p fs t pool logged here active in
      let after = cut_off n (committed q t) memory in
      let log : committed q t ≡ commit_log f p.wal t =
        ap (λ w. (append WalOp.commit t.txn_id [] w).0)
          (edit.log ∙ sym (diff_log_lem f frame p.wal t fresh fs files)) in
      (
        q,
        e,
        subst (λ b. Recovers f fs after (if leb (length (committed q t).file) n then new else b))
            baseline
            (subst
              (λ (w : Wal). Recovers f fs after (if leb (length w.file) n then new else f.before))
              (sym log)
              (recover-cut_log f frame p.wal t fresh fs files n after
                (ap (λ (w : Wal). take n w.file) log) on_file)),
      )
