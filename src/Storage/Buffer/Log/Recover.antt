-- ===== src/Storage/Buffer/Log/Recover.antt =====
-- storage/buffer_pool.cpp and storage/recovery.cpp: recovery with a log that holds the patches of
-- one frame, with or without the commit of its transaction.
use my_simple_db.Prelude.{
  ℕ, ◌/◌, ◌≡◌, refl, sym, ap, ◌∙◌, Bool, true, false, ◌&&◌, ◌||◌, List, [], ◌∷◌, ◌++◌,
  if◌then◌else◌, get_or, inl, inr, Bool-cases, ==_refl, arith,
}
use mathlib.Core.List.{append-nil}
use my_simple_db.Common.{ok}
use my_simple_db.Storage.Wal.{Wal, WalOp, WalRecord, wal_op_code, read_log}
use my_simple_db.Storage.Wal.Record.{to_record}
use my_simple_db.Storage.Files.{Files}
use my_simple_db.Storage.Recovery.{
  Collected, Recovering, collect, collect_record, nothing_collected, contains, recover,
}
use my_simple_db.Storage.Recovery.Overlay.{byte}
use my_simple_db.Storage.Recovery.Passes.{IsFiles, committed_byte}
use my_simple_db.Storage.Recovery.Sound.{Content, rewritten, recover-committed_byte}
use my_simple_db.Storage.Buffer.{PageFrame}
use my_simple_db.Storage.Buffer.Scan.{in_intervals, AreIntervals}
use my_simple_db.Storage.Buffer.Log.{IsFrame}
use my_simple_db.Storage.Buffer.Log.Entries.{patches, collect-patches}
use my_simple_db.Storage.Buffer.Log.Redo.{is_page}
use my_simple_db.Storage.Buffer.Log.Passes.{
  committed_byte-patches, rewritten-patches, patches-Honest, patches-Honest_ended,
}

-- The disk, with one page replaced.
abbrev pub with_page : PageFrame → List ℕ → Files → Content
with_page f page disk q p i = if is_page f q p then get_or page i 0 else byte disk q p i

-- The record that ends a transaction.
abbrev pub end_record : WalOp → ℕ → ℕ → WalRecord
end_record op lsn txn = to_record lsn txn (wal_op_code op) []

-- Recovery gives the disk with that page, and an empty log.
abbrev pub Recovers : PageFrame → Files → Wal → List ℕ → Type 0
Recovers f disk wal page =
    (end : Recovering) × (after : Wal) × (recover disk wal ≡ ok (end, after))
    × (after.file ≡ [])
    × ((q p i : ℕ) → byte end.files q p i ≡ with_page f page disk q p i)

module _ (f : PageFrame) (frame : IsFrame f) (txn lsn w : ℕ) (gs : List (ℕ × ℕ))
    (good : AreIntervals w gs) (disk : Files) (files : IsFiles disk) (wal : Wal) where
  -- On the disk, the bytes that no patch covers are those of a page.
  abbrev pub Agrees : List ℕ → Type 0
  Agrees page =
      (q p i : ℕ)
      → is_page f q p ≡ true
      → in_intervals gs (i / 8) ≡ false
      → byte disk q p i ≡ get_or page i 0

  abbrev unfinished : Collected
  unfinished = record {
    records = patches f lsn txn gs;
    committed = [];
    aborted = [];
    commit_abort_count = 0;
  }

  abbrev finished : Collected
  finished = record {
    records = patches f lsn txn gs;
    committed = txn ∷ [];
    aborted = [];
    commit_abort_count = 1;
  }

  abbrev aborted : Collected
  aborted = record {
    records = patches f lsn txn gs;
    committed = [];
    aborted = txn ∷ [];
    commit_abort_count = 1;
  }

  unfinished_log :
      read_log wal.file ≡ patches f lsn txn gs
      → collect (read_log wal.file) nothing_collected ≡ ok unfinished
  unfolding collect
  unfinished_log log =
      ap (λ rs. collect rs nothing_collected) (log ∙ sym (append-nil (patches f lsn txn gs)))
      ∙ collect-patches f frame txn gs lsn w [] nothing_collected good

  finished_log :
      (k : ℕ)
      → read_log wal.file ≡ patches f lsn txn gs ++ (end_record WalOp.commit k txn ∷ [])
      → collect (read_log wal.file) nothing_collected ≡ ok finished
  unfolding collect collect_record
  finished_log k log =
      ap (λ rs. collect rs nothing_collected) log
      ∙ collect-patches f frame txn gs lsn w (end_record WalOp.commit k txn ∷ []) nothing_collected
          good

  aborted_log :
      (k : ℕ)
      → read_log wal.file ≡ patches f lsn txn gs ++ (end_record WalOp.abort k txn ∷ [])
      → collect (read_log wal.file) nothing_collected ≡ ok aborted
  unfolding collect collect_record
  aborted_log k log =
      ap (λ rs. collect rs nothing_collected) log
      ∙ collect-patches f frame txn gs lsn w (end_record WalOp.abort k txn ∷ []) nothing_collected
          good

  committed_byte_none :
      (c : Collected) (rs : List WalRecord) (q p i v : ℕ)
      → c.committed ≡ []
      → committed_byte c rs q p i v ≡ v
  unfolding committed_byte contains
  committed_byte_none c [] q p i v none = refl
  committed_byte_none c (r ∷ rs) q p i v none =
      let miss : contains c.committed r.txn ≡ false = rw none refl in
      rw miss (committed_byte_none c rs q p i v none)

  nothing_committed : (rs : List WalRecord) (q p i v : ℕ) → committed_byte unfinished rs q p i v ≡ v
  nothing_committed rs q p i v = committed_byte_none unfinished rs q p i v refl

  finished_contains : contains finished.committed txn ≡ true
  unfolding contains
  finished_contains = rw (==_refl txn) refl

  not_rewritten :
      (q p i : ℕ)
      → rewritten unfinished unfinished.records q p i ≡ false
      → is_page f q p ≡ true
      → in_intervals gs (i / 8) ≡ false
  unfolding contains
  not_rewritten q p i free here =
      rest _ _ here (sym (rewritten-patches f frame txn gs lsn w unfinished q p i good) ∙ free)
    where
      rest : (b d : Bool) → b ≡ true → (b && d) ≡ false → d ≡ false
      rest b d e h = ground (arith, e, h)

  -- Without the commit, recovery puts the old page back.
  pub recover_unfinished :
      read_log wal.file ≡ patches f lsn txn gs → Agrees f.before → Recovers f disk wal f.before
  recover_unfinished log agrees =
      let before = with_page f f.before disk in
      let done =
        recover-committed_byte disk before wal unfinished (unfinished_log log) files
          (λ q p i untouched free. elim (Bool-cases (is_page f q p)) [
            | inl here ↦ rw here (agrees q p i here (not_rewritten q p i free here))
            | inr other ↦ rw other refl
          ])
          (patches-Honest f frame txn gs lsn w unfinished _ good
            λ q p i here later. nothing_committed _ q p i _ ∙ rw here refl) in
      (done.0, done.1, done.2, done.3, λ q p i. done.4 q p i ∙ nothing_committed _ q p i _)

  covered_or_not :
      (q p i : ℕ)
      → Agrees f.bytes
      → (if is_page f q p && in_intervals gs (i / 8) then get_or f.bytes i 0 else byte disk q p i)
        ≡ with_page f f.bytes disk q p i
  covered_or_not q p i agrees = elim (Bool-cases (is_page f q p)) [
    | inr other ↦ rw other refl
    | inl here ↦ elim (Bool-cases (in_intervals gs (i / 8))) [
      | inl covered ↦ rw (here, covered) refl
      | inr left ↦ rw (here, left) (agrees q p i here left)
    ]
  ]

  -- With the commit, recovery puts the new page there.
  pub recover_finished :
      (k : ℕ)
      → read_log wal.file ≡ patches f lsn txn gs ++ (end_record WalOp.commit k txn ∷ [])
      → Agrees f.bytes
      → Recovers f disk wal f.bytes
  recover_finished k log agrees =
      let done =
        recover-committed_byte disk (byte disk) wal finished (finished_log k log) files
          (λ q p i untouched free. refl)
          (patches-Honest_ended f frame txn gs lsn w finished _ good (rw finished_contains refl)) in
      (
        done.0,
        done.1,
        done.2,
        done.3,
        λ q p i.
            done.4 q p i
            ∙ (committed_byte-patches f frame txn gs lsn w finished q p i _ good finished_contains
                ∙ covered_or_not q p i agrees),
      )

  aborted_contains : (contains aborted.committed txn || contains aborted.aborted txn) ≡ true
  unfolding contains
  aborted_contains = rw (==_refl txn) refl

  -- After an abort, recovery leaves the disk as it is.
  pub recover_aborted :
      (k : ℕ)
      → read_log wal.file ≡ patches f lsn txn gs ++ (end_record WalOp.abort k txn ∷ [])
      → (end : Recovering) × (after : Wal) × (recover disk wal ≡ ok (end, after))
        × (after.file ≡ [])
        × ((q p i : ℕ) → byte end.files q p i ≡ byte disk q p i)
  recover_aborted k log =
      let done =
        recover-committed_byte disk (byte disk) wal aborted (aborted_log k log) files
          (λ q p i untouched free. refl)
          (patches-Honest_ended f frame txn gs lsn w aborted _ good aborted_contains) in
      (
        done.0,
        done.1,
        done.2,
        done.3,
        λ q p i. done.4 q p i ∙ committed_byte_none aborted _ q p i _ refl,
      )
