-- ===== src/Storage/Buffer/Diff.antt =====
-- storage/buffer_pool.cpp: log_page_diff, mark_dirty and restore_region. A word is eight bytes. The
-- loops go over the 512 words of a page, which are the fuel.
use my_simple_db.Prelude.{
  ℕ, zero, suc, ◌+◌, ◌-◌, ◌*◌, Bool, true, not, ◌&&◌, none, some, List, [], ◌∷◌, ◌++◌, ltb, leb,
  ◌==◌, if◌then◌else◌, length, set, take, drop,
}
use my_simple_db.Common.{ErrCode, Result, ok, err}
use my_simple_db.Storage.Wal.{Wal, WalOp, append, wal_get_u64, wal_put_u64, wal_put_u32}
use my_simple_db.Storage.Files.{Files, read_page, write_page}
use my_simple_db.Storage.Recovery.{overlay}
use my_simple_db.Storage.Buffer.{
  PageId, PageFrame, TxnContext, BufferPool, find, frame_at, set_frame, has_frame,
}

abbrev pub words : ℕ
words = 512

abbrev pub load : List ℕ → ℕ → ℕ
load page w = wal_get_u64 (drop (w * 8) page)

abbrev pub word_differs : PageFrame → ℕ → Bool
word_differs f w = not (load f.before w == load f.bytes w)

-- The inner loop: the end of the interval, and the word where the outer loop goes on.
unfoldable pub grow : ℕ → PageFrame → ℕ → ℕ → ℕ × ℕ
grow zero f w hi = (hi, w)
grow (suc fuel) f w hi =
    let rest = grow fuel f (w + 1) (if word_differs f w then w + 1 else hi) in
    if ltb w words && leb w hi then rest else (hi, w)

abbrev pub part : List ℕ → ℕ → ℕ → List ℕ
part page off len = take len (drop off page)

-- The payload of the patch for `len` bytes from offset `off` on.
unfoldable pub patch_payload : PageFrame → ℕ → ℕ → List ℕ
patch_payload f off len =
    wal_put_u64 f.page.file_id
    ++ (wal_put_u32 f.page.page_no
        ++ (wal_put_u32 off
            ++ (wal_put_u32 len ++ (part f.bytes off len ++ part f.before off len))))

-- The log and the transaction, which the loop writes to.
abbrev pub Logging : Type 0
Logging = Wal × TxnContext

unfoldable pub log_interval : PageFrame → ℕ → ℕ → Logging → Logging
log_interval f lo hi s =
    let off = lo * 8 in
    let len = (hi - lo) * 8 in
    (
      (append WalOp.page_patch (s.1).txn_id (patch_payload f off len) s.0).0,
      record (s.1) {
        wrote = true;
        undo =
            (s.1).undo
            ++ (record { page = f.page; off = off; len = len; before = part f.before off len }
                ∷ []);
      },
    )

unfoldable pub diff_loop : ℕ → PageFrame → ℕ → Logging → Logging
diff_loop zero f w s = s
diff_loop (suc fuel) f w s =
    let g = grow words f (w + 1) (w + 1) in
    let differs = word_differs f w in
    let rest =
      diff_loop fuel f (if differs then g.1 else w + 1)
        (if differs then log_interval f w g.0 s else s) in
    if ltb w words then rest else s

unfoldable pub log_page_diff : PageFrame → Logging → PageFrame × Logging
log_page_diff f s = (record f { before = f.bytes }, diff_loop words f 0 s)

unfoldable pub mark_dirty : ℕ → BufferPool → Result BufferPool
mark_dirty idx p = if not (has_frame p idx) then err ErrCode.internal else elim p.txn [
  | none ↦ err ErrCode.internal
  | some t ↦
      let logged = log_page_diff (frame_at p idx) (p.wal, t) in
      ok (record p {
        frames = set p.frames idx (record (logged.0) { dirty = true });
        wal = (logged.1).0;
        txn = some (logged.1).1;
      })
]

unfoldable pub restore_region : PageId → ℕ → List ℕ → BufferPool → Files → BufferPool × Files
restore_region page off before p fs =
    let idx = find p page in
    let f = frame_at p idx in
    let loaded = read_page page.file_id page.page_no fs in
    if idx == length p.frames
    then (p, write_page page.file_id page.page_no (overlay off before loaded.1) loaded.0)
    else (
      set_frame p idx (record f {
        bytes = overlay off before f.bytes;
        before = overlay off before f.before;
        dirty = true;
      }),
      fs,
    )
