-- ===== src/Storage/Buffer/Log/Entries.antt =====
-- storage/buffer_pool.cpp and storage/recovery.cpp: the records that log_page_diff appends, and what
-- the passes of recovery make of them.
use my_simple_db.Prelude.{
  ℕ, ◌+◌, ◌^◌, ◌<◌, ◌≤◌, ◌≡◌, refl, sym, ap, ◌∙◌, List, [], ◌∷◌, ◌++◌, arith,
}
use mathlib.Core.List.{append_assoc, append-nil}
use my_simple_db.Common.{Result, ok, ◌>>=◌}
use my_simple_db.Storage.Wal.{WalRecord, WalOp}
use my_simple_db.Storage.Wal.Record.{to_record}
use my_simple_db.Storage.Wal.Crash.{Entry, append_all, records_of, AreEntries}
use my_simple_db.Storage.Recovery.{Collected, validate_patch, collect, collect_record}
use my_simple_db.Storage.Buffer.{PageFrame}
use my_simple_db.Storage.Buffer.Diff.{words, Logging, log_interval}
use my_simple_db.Storage.Buffer.Scan.{AreIntervals, log_intervals}
use my_simple_db.Storage.Buffer.Log.{
  IsFrame, patch_file_lem, patch_offset_lem, patch_len_lem, length-payload,
}
use my_simple_db.Storage.Buffer.Log.Redo.{payload_of}

abbrev pub entry_of : PageFrame → ℕ → ℕ × ℕ → Entry
entry_of f txn g = record { op = WalOp.page_patch; txn = txn; payload = payload_of f g }

unfoldable pub entries_of : PageFrame → ℕ → List (ℕ × ℕ) → List Entry
entries_of f txn [] = []
entries_of f txn (g ∷ gs) = entry_of f txn g ∷ entries_of f txn gs

pub log_intervals-append_all :
    (f : PageFrame) (gs : List (ℕ × ℕ)) (s : Logging)
    → (log_intervals f gs s).0 ≡ append_all (entries_of f (s.1).txn_id gs) s.0
unfolding log_intervals log_interval entries_of append_all
log_intervals-append_all f [] s = refl
log_intervals-append_all f (g ∷ gs) s = log_intervals-append_all f gs (log_interval f g.0 g.1 s)

abbrev pub patch_of : PageFrame → ℕ → ℕ → ℕ × ℕ → WalRecord
patch_of f lsn txn g = to_record lsn txn 1 (payload_of f g)

unfoldable pub patches : PageFrame → ℕ → ℕ → List (ℕ × ℕ) → List WalRecord
patches f lsn txn [] = []
patches f lsn txn (g ∷ gs) = patch_of f lsn txn g ∷ patches f (lsn + 1) txn gs

pub records_of-entries_of :
    (f : PageFrame) (lsn txn : ℕ) (gs : List (ℕ × ℕ))
    → records_of lsn (entries_of f txn gs) ≡ patches f lsn txn gs
unfolding records_of entries_of patches
records_of-entries_of f lsn txn [] = refl
records_of-entries_of f lsn txn (g ∷ gs) =
    ap (λ rs. patch_of f lsn txn g ∷ rs) (records_of-entries_of f (lsn + 1) txn gs)

module _ (f : PageFrame) (frame : IsFrame f) (txn : ℕ) where
  pub entries_of-AreEntries :
      (gs : List (ℕ × ℕ)) (w : ℕ)
      → AreIntervals w gs
      → txn < 2 ^ 64
      → AreEntries (entries_of f txn gs)
  unfolding entries_of
  entries_of-AreEntries [] w h small = tt
  entries_of-AreEntries (g ∷ gs) w h small =
      let r = patch_of f 0 txn g in
      (
        (small, omega (arith, length-payload f frame g.0 g.1 h.1 h.2 r refl, h.1, h.2)),
        entries_of-AreEntries gs g.1 h.3 small,
      )

  validate_patch_of :
      (lsn : ℕ) (g : ℕ × ℕ)
      → g.0 < g.1
      → g.1 ≤ words
      → validate_patch (patch_of f lsn txn g) ≡ ok tt
  unfolding validate_patch
  validate_patch_of lsn g start end =
      let r = patch_of f lsn txn g in
      let file = patch_file_lem f frame g.0 g.1 start end r refl in
      let off = patch_offset_lem f frame g.0 g.1 start end r refl in
      let len = patch_len_lem f frame g.0 g.1 start end r refl in
      let size = length-payload f frame g.0 g.1 start end r refl in
      ground (arith, file, off, len, size, frame.named, start, end)

  collect_record_patch :
      (lsn : ℕ) (g : ℕ × ℕ) (c : Collected)
      → g.0 < g.1
      → g.1 ≤ words
      → collect_record (patch_of f lsn txn g) c
        ≡ ok (record c { records = c.records ++ (patch_of f lsn txn g ∷ []) })
  unfolding collect_record
  collect_record_patch lsn g c start end = rw (validate_patch_of lsn g start end) refl

  pub collect-patches :
      (gs : List (ℕ × ℕ)) (lsn w : ℕ) (rest : List WalRecord) (c : Collected)
      → AreIntervals w gs
      → collect (patches f lsn txn gs ++ rest) c
        ≡ collect rest (record c { records = c.records ++ patches f lsn txn gs })
  unfolding collect patches
  collect-patches [] lsn w rest c h =
      ap (λ rs. collect rest (record c { records = rs })) (sym (append-nil c.records))
  collect-patches (g ∷ gs) lsn w rest c h =
      let r = patch_of f lsn txn g in
      let d : Collected = record c { records = c.records ++ (r ∷ []) } in
      ap (λ (z : Result Collected). z >>= collect (patches f (lsn + 1) txn gs ++ rest))
        (collect_record_patch lsn g c h.1 h.2)
      ∙ (collect-patches gs (lsn + 1) g.1 rest d h.3
          ∙ ap (λ rs. collect rest (record c { records = rs }))
              (append_assoc c.records (r ∷ []) (patches f (lsn + 1) txn gs)))
