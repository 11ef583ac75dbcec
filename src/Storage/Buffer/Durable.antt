-- ===== src/Storage/Buffer/Durable.antt =====
-- storage/buffer_pool.cpp, storage/wal.cpp and storage/recovery.cpp together: a frame is logged, its
-- transaction commits or not, the process crashes, and recovery runs.
use my_simple_db.Prelude.{
  ℕ, zero, suc, ◌+◌, ◌/◌, ◌^◌, ◌<◌, ◌≤◌, ◌≡◌, ◌⊎◌, refl, sym, ap, ap₂, ◌∙◌, true, false, List, [],
  ◌∷◌, ◌++◌, length, take, get_or, leb, if◌then◌else◌, arith, inl, inr, Bool-cases, length-append,
  take-append_le,
}
use my_simple_db.Storage.Wal.{Wal, WalOp, append, read_log}
use my_simple_db.Storage.Wal.Crash.{Entry, append_all, records_of, AreEntries}
use my_simple_db.Storage.Wal.Crash.Cut.{
  read_log_whole, read_log_cut, records_of-append, append_all-append,
}
use my_simple_db.Storage.Files.{Files}
use my_simple_db.Common.{ok}
use my_simple_db.Storage.Recovery.{Recovering, recover}
use my_simple_db.Storage.Recovery.Overlay.{byte}
use my_simple_db.Storage.Recovery.Passes.{IsFiles}
use my_simple_db.Storage.Buffer.{PageFrame, TxnContext}
use my_simple_db.Storage.Buffer.Diff.{words, log_page_diff}
use my_simple_db.Storage.Buffer.Scan.{
  intervals, in_intervals, AreIntervals, intervals-AreIntervals, diff_loop_lem, length-intervals,
}
use my_simple_db.Storage.Buffer.Log.{IsFrame}
use my_simple_db.Storage.Buffer.Log.Redo.{is_page}
use my_simple_db.Storage.Buffer.Log.Same.{same_outside}
use my_simple_db.Storage.Buffer.Log.Entries.{
  entries_of, patches, log_intervals-append_all, records_of-entries_of, entries_of-AreEntries,
  entry_of,
}
use my_simple_db.Storage.Buffer.Log.Recover.{
  Recovers, end_record, recover_aborted, recover_unfinished, recover_finished,
}

-- The log after log_page_diff, and after the commit of the transaction.
abbrev pub diff_log : PageFrame → Wal → TxnContext → Wal
diff_log f w t = ((log_page_diff f (w, t)).1).0

abbrev pub end_log : WalOp → PageFrame → Wal → TxnContext → Wal
end_log op f w t = (append op t.txn_id [] (diff_log f w t)).0

abbrev pub commit_log : PageFrame → Wal → TxnContext → Wal
commit_log f w t = end_log WalOp.commit f w t

abbrev pub abort_log : PageFrame → Wal → TxnContext → Wal
abort_log f w t = end_log WalOp.abort f w t

abbrev pub page_on : Files → PageFrame → ℕ → ℕ
page_on disk f i = byte disk f.page.file_id f.page.page_no i

-- A log that is empty, with room for the numbers that the records of a page need.
pub record IsFresh (w : Wal) (t : TxnContext) : Type 0 where
  pub empty : w.file ≡ []
  pub room : w.next_lsn + 513 ≤ 2 ^ 64
  pub small : t.txn_id < 2 ^ 64

abbrev end_entry : WalOp → TxnContext → Entry
end_entry op t = record { op = op; txn = t.txn_id; payload = [] }

AreEntries-append : (es fs : List Entry) → AreEntries es → AreEntries fs → AreEntries (es ++ fs)
AreEntries-append [] fs h k = k
AreEntries-append (e ∷ es) fs h k = (h.0, AreEntries-append es fs h.1 k)

take_all : (s : List ℕ) → take (length s) s ≡ s
take_all [] = refl
take_all (b ∷ s) = ap (λ r. b ∷ r) (take_all s)

length-entries_of :
    (f : PageFrame) (txn : ℕ) (gs : List (ℕ × ℕ)) → length (entries_of f txn gs) ≡ length gs
unfolding entries_of
length-entries_of f txn [] = refl
length-entries_of f txn (g ∷ gs) = ap suc (length-entries_of f txn gs)

take-entries_of :
    (f : PageFrame) (txn k : ℕ) (gs : List (ℕ × ℕ))
    → take k (entries_of f txn gs) ≡ entries_of f txn (take k gs)
unfolding entries_of
take-entries_of f txn zero gs = refl
take-entries_of f txn (suc k) [] = refl
take-entries_of f txn (suc k) (g ∷ gs) =
    ap (λ es. entry_of f txn g ∷ es) (take-entries_of f txn k gs)

take-AreIntervals : (k w : ℕ) (gs : List (ℕ × ℕ)) → AreIntervals w gs → AreIntervals w (take k gs)
take-AreIntervals zero w gs h = tt
take-AreIntervals (suc k) w [] h = tt
take-AreIntervals (suc k) w (g ∷ gs) h = (h.0, h.1, h.2, take-AreIntervals k g.1 gs h.3)

module _ (f : PageFrame) (frame : IsFrame f) (w : Wal) (t : TxnContext) (fresh : IsFresh w t)
    (disk : Files) (files : IsFiles disk) where
  abbrev pub gaps : List (ℕ × ℕ)
  gaps = intervals words f 0

  abbrev pub entries : List Entry
  entries = entries_of f t.txn_id gaps

  abbrev all_entries : WalOp → List Entry
  all_entries op = entries ++ (end_entry op t ∷ [])

  ordered : AreIntervals 0 gaps
  ordered = intervals-AreIntervals words f 0

  pub diff_log_lem : diff_log f w t ≡ append_all entries w
  unfolding log_page_diff
  diff_log_lem =
      ap (λ (s : Wal × TxnContext). s.0) (diff_loop_lem words f 0 (w, t))
      ∙ log_intervals-append_all f gaps (w, t)

  end_log_lem : (op : WalOp) → end_log op f w t ≡ append_all (all_entries op) w
  unfolding append_all
  end_log_lem op =
      ap (λ (v : Wal). (append op t.txn_id [] v).0) diff_log_lem
      ∙ sym (append_all-append entries (end_entry op t ∷ []) w)

  good : AreEntries entries
  good = entries_of-AreEntries f frame t.txn_id gaps 0 ordered fresh.small

  good_all : (op : WalOp) → AreEntries (all_entries op)
  good_all op =
      AreEntries-append entries (end_entry op t ∷ []) good ((fresh.small, omega arith), tt)

  room : (op : WalOp) → w.next_lsn + length (all_entries op) ≤ 2 ^ 64
  room op = omega (
    arith,
    fresh.room,
    length-append entries (end_entry op t ∷ []),
    length-entries_of f t.txn_id gaps,
    length-intervals words f 0,
  )

  all_records :
      (op : WalOp)
      → records_of w.next_lsn (all_entries op)
        ≡ patches f w.next_lsn t.txn_id gaps
          ++ (end_record op (w.next_lsn + length entries) t.txn_id ∷ [])
  unfolding records_of
  all_records op =
      records_of-append w.next_lsn entries (end_entry op t ∷ [])
      ∙ ap (λ rs. rs ++ (end_record op (w.next_lsn + length entries) t.txn_id ∷ []))
          (records_of-entries_of f w.next_lsn t.txn_id gaps)

  at_page : (q p i v : ℕ) → is_page f q p ≡ true → page_on disk f i ≡ v → byte disk q p i ≡ v
  at_page q p i v here e =
      let file : q ≡ f.page.file_id = ground (arith, here) in
      let page : p ≡ f.page.page_no = ground (arith, here) in
      ap₂ (λ a b. byte disk a b i) file page ∙ e

  -- The bytes that no patch covers are the old ones and the new ones.
  either :
      (i : ℕ)
      → (page_on disk f i ≡ get_or f.before i 0) ⊎ (page_on disk f i ≡ get_or f.bytes i 0)
      → in_intervals gaps (i / 8) ≡ false
      → (page_on disk f i ≡ get_or f.before i 0) × (page_on disk f i ≡ get_or f.bytes i 0)
  either i (inl old) out = (old, old ∙ same_outside f i frame out)
  either i (inr new) out = (new ∙ sym (same_outside f i frame out), new)

  -- Take a frame that is logged to an empty log with room for the numbers, by a transaction that
  -- then commits, and a crash after which each byte of the page on the disk is the old one or the
  -- new one, as when the page was not written, was written, or was written in part. Recovery
  -- succeeds, empties the log, gives the page the bytes of the frame, and changes no other page.
  pub recover-commit_log :
      (after : Wal)
      → after.file ≡ (commit_log f w t).file
      → ((i : ℕ)
          → (page_on disk f i ≡ get_or f.before i 0) ⊎ (page_on disk f i ≡ get_or f.bytes i 0))
      → Recovers f disk after f.bytes
  recover-commit_log after log mixed =
      let whole =
        read_log_whole (all_entries WalOp.commit) w fresh.empty (good_all WalOp.commit)
          (room WalOp.commit) _ (omega arith) in
      recover_finished f frame t.txn_id w.next_lsn 0 gaps ordered disk files after
        (w.next_lsn + length entries)
        (ap read_log (log ∙ ap (λ (v : Wal). v.file) (end_log_lem WalOp.commit))
          ∙ (ap read_log (sym (take_all (append_all (all_entries WalOp.commit) w).file))
              ∙ (whole ∙ all_records WalOp.commit)))
        (λ q p i here out. at_page q p i _ here (either i (mixed i) out).1)

  -- The same where the transaction did not commit: recovery puts back the page as it was before the
  -- frame was changed, also where the changed page had been written to the disk.
  pub recover-diff_log :
      (after : Wal)
      → after.file ≡ (diff_log f w t).file
      → ((i : ℕ)
          → (page_on disk f i ≡ get_or f.before i 0) ⊎ (page_on disk f i ≡ get_or f.bytes i 0))
      → Recovers f disk after f.before
  recover-diff_log after log mixed =
      let whole =
        read_log_whole entries w fresh.empty good
          (omega (arith, room WalOp.commit, length-append entries (end_entry WalOp.commit t ∷ [])))
          _ (omega arith) in
      recover_unfinished f frame t.txn_id w.next_lsn 0 gaps ordered disk files after
        (ap read_log (log ∙ ap (λ (v : Wal). v.file) diff_log_lem)
          ∙ (ap read_log (sym (take_all (append_all entries w).file))
              ∙ (whole ∙ records_of-entries_of f w.next_lsn t.txn_id gaps)))
        (λ q p i here out. at_page q p i _ here (either i (mixed i) out).0)

  cut_records :
      (k : ℕ)
      → k < length (all_entries WalOp.commit)
      → records_of w.next_lsn (take k (all_entries WalOp.commit))
        ≡ patches f w.next_lsn t.txn_id (take k gaps)
  cut_records k h =
      ap (records_of w.next_lsn) (
        take-append_le k entries (end_entry WalOp.commit t ∷ [])
          (omega (arith, h, length-append entries (end_entry WalOp.commit t ∷ [])))
        ∙ take-entries_of f t.txn_id k gaps)
      ∙ records_of-entries_of f w.next_lsn t.txn_id (take k gaps)

  -- Take a frame that is logged to an empty log with room for the numbers, by a transaction that
  -- then commits, a disk that has the old page, and a crash that cuts the log off at any byte.
  -- Recovery succeeds, empties the log and changes no other page, and the page is the new one if the
  -- whole log was left, and else the old one: never a mixture.
  pub recover-cut_log :
      (n : ℕ) (after : Wal)
      → after.file ≡ take n (commit_log f w t).file
      → ((i : ℕ) → page_on disk f i ≡ get_or f.before i 0)
      → Recovers f disk after (if leb (length (commit_log f w t).file) n then f.bytes else f.before)
  recover-cut_log n after log old =
      let bytes = ap (λ (v : Wal). v.file) (end_log_lem WalOp.commit) in
      let found = log ∙ ap (take n) bytes in
      elim (Bool-cases (leb (length (commit_log f w t).file) n)) [
        | inl whole ↦
            let records =
              read_log_whole (all_entries WalOp.commit) w fresh.empty (good_all WalOp.commit)
                (room WalOp.commit) n (ground (arith, whole, ap length bytes)) in
            rw whole (
              recover_finished f frame t.txn_id w.next_lsn 0 gaps ordered disk files after
                (w.next_lsn + length entries)
                (ap read_log found ∙ (records ∙ all_records WalOp.commit))
                (λ q p i here out. at_page q p i _ here (either i (inl (old i)) out).1))
        | inr cut ↦
            let left =
              read_log_cut (all_entries WalOp.commit) w fresh.empty (good_all WalOp.commit)
                (room WalOp.commit) n (ground (arith, cut, ap length bytes)) in
            rw cut (
              recover_unfinished f frame t.txn_id w.next_lsn 0 (take left.0 gaps)
                (take-AreIntervals left.0 0 gaps ordered) disk files after
                (ap read_log found ∙ (left.2 ∙ cut_records left.0 left.1))
                (λ q p i here out. at_page q p i _ here (old i)))
      ]

  -- Where the transaction rolled back, with its abort in the log, recovery changes no byte of the
  -- disk: it relies on the disk for the old page, and keeps the new one where that is there.
  pub recover-abort_log :
      (after : Wal)
      → after.file ≡ (abort_log f w t).file
      → (end : Recovering) × (emptied : Wal) × (recover disk after ≡ ok (end, emptied))
        × (emptied.file ≡ [])
        × ((q p i : ℕ) → byte end.files q p i ≡ byte disk q p i)
  recover-abort_log after log =
      let whole =
        read_log_whole (all_entries WalOp.abort) w fresh.empty (good_all WalOp.abort)
          (room WalOp.abort) _ (omega arith) in
      recover_aborted f frame t.txn_id w.next_lsn 0 gaps ordered disk files after
        (w.next_lsn + length entries)
        (ap read_log (log ∙ ap (λ (v : Wal). v.file) (end_log_lem WalOp.abort))
          ∙ (ap read_log (sym (take_all (append_all (all_entries WalOp.abort) w).file))
              ∙ (whole ∙ all_records WalOp.abort)))
