-- ===== src/Storage/Recovery/Sound.antt =====
-- storage/recovery.cpp: the three passes together, byte by byte.
use my_simple_db.Prelude.{
  ℕ, ◌+◌, ◌≡◌, refl, sym, ap, ◌∙◌, Bool, true, false, ◌&&◌, ◌||◌, List, [], ◌∷◌, ◌++◌, reverse,
  ◌==◌, if◌then◌else◌, length, arith, inl, inr, Bool-cases,
}
use my_simple_db.Common.{Result, ok, exit, ◌>>◌, Ensures, Ensures-if, Ensures-ok, Ensures-bind, err}
use my_simple_db.Storage.Wal.{Wal, WalRecord, WalOp, read_log, reset}
use my_simple_db.Storage.Files.{Files}
use my_simple_db.Storage.Recovery.{
  Collected, Recovering, is_op, validate_patch, validate_drop, collect_record, collect,
  nothing_collected, redo, undo, recover,
}
use my_simple_db.Storage.Recovery.Overlay.{
  byte, covers, patch_byte, IsSized, validate_patch-IsPatch,
}
use my_simple_db.Storage.Recovery.Passes.{
  IsFiles, IsLogged, AllLogged, touched, committed_byte, committed_byte_agree, redo_lem, undone,
  undo-reverse, undo_record_lem,
}

-- The content of the data files, byte by byte.
abbrev pub Content : Type 0
Content = ℕ → ℕ → ℕ → ℕ

abbrev pub rewrites : Collected → WalRecord → ℕ → ℕ → ℕ → Bool
rewrites c r f p i = undone c r && covers r f p i

-- The content after a patch of an unfinished transaction.
abbrev pub patched : Collected → WalRecord → Content → Content
patched c r content f p i = if rewrites c r f p i then patch_byte false r i else content f p i

-- The patches of the unfinished transactions hold, as their old bytes, what they replaced, when
-- they are made one after the other from a content.
abbrev pub Honest : Collected → Content → List WalRecord → Type 0
Honest c content [] = Unit
Honest c content (r ∷ rs) =
    ((f p i : ℕ) → rewrites c r f p i ≡ true → patch_byte true r i ≡ content f p i)
    × Honest c (patched c r content) rs

-- Whether a patch of an unfinished transaction writes a byte.
unfoldable pub rewritten : Collected → List WalRecord → ℕ → ℕ → ℕ → Bool
rewritten c [] f p i = false
rewritten c (r ∷ rs) f p i = rewrites c r f p i || rewritten c rs f p i

undo-IsSized :
    (c : Collected) (rs : List WalRecord) (s : Recovering)
    → AllLogged rs
    → IsSized s.files
    → IsSized (undo c (reverse rs) s).files
unfolding undo
undo-IsSized c [] s valid h = h
undo-IsSized c (r ∷ rs) s valid h =
    rw (undo-reverse c r rs s)
      (undo_record_lem c r (undo c (reverse rs) s) 0 0 0 valid.0 (undo-IsSized c rs s valid.1 h)).0

undo_lem :
    (c : Collected) (rs : List WalRecord) (s : Recovering) (content : Content) (f p i : ℕ)
    → AllLogged rs
    → IsSized s.files
    → Honest c content rs
    → (rewritten c rs f p i ≡ false → byte s.files f p i ≡ content f p i)
    → byte (undo c (reverse rs) s).files f p i ≡ content f p i
unfolding undo rewritten
undo_lem c [] s content f p i valid h honest same = same refl
undo_lem c (r ∷ rs) s content f p i valid h honest same =
    let later = undo c (reverse rs) s in
    let step = (undo_record_lem c r later f p i valid.0 (undo-IsSized c rs s valid.1 h)).1 in
    let first : byte (undo c (reverse (r ∷ rs)) s).files f p i
        ≡ (if rewrites c r f p i then patch_byte true r i else byte later.files f p i) =
      ap (λ (z : Recovering). byte z.files f p i) (undo-reverse c r rs s) ∙ step in
    first ∙ elim (Bool-cases (rewrites c r f p i)) [
      | inl hit ↦ rw hit (honest.0 f p i hit)
      | inr miss ↦
          let kept : patched c r content f p i ≡ content f p i = rw miss refl in
          rw miss (
            undo_lem c rs s (patched c r content) f p i valid.1 h honest.1
              (λ none. same (ap (λ b. b || rewritten c rs f p i) miss ∙ none) ∙ sym kept)
            ∙ kept)
    ]

AllLogged-append :
    (rs : List WalRecord) (r : WalRecord) → AllLogged rs → IsLogged r → AllLogged (rs ++ (r ∷ []))
AllLogged-append [] r h valid = (valid, tt)
AllLogged-append (x ∷ rs) r h valid = (h.0, AllLogged-append rs r h.1 valid)

Ensures-after {ℓ} :
    {A : Type ℓ} (P : A → Type 0) (r : Result (Unit {0})) (a : A)
    → (r ≡ ok tt → P a)
    → Ensures P (r >> ok a)
Ensures-after P (ok t) a h = h refl
Ensures-after P (err e) a h = tt
Ensures-after P exit a h = tt

collect_record-AllLogged :
    (r : WalRecord) (c : Collected)
    → AllLogged c.records
    → Ensures (λ (d : Collected). AllLogged d.records) (collect_record r c)
unfolding collect_record
collect_record-AllLogged r c h =
    let P = λ (d : Collected). AllLogged d.records in
    Ensures-if P (is_op WalOp.page_patch r) _ _
      (λ patch.
        Ensures-after P (validate_patch r) _
          (λ good. AllLogged-append c.records r h (λ p. validate_patch-IsPatch r good)))
      λ other.
        Ensures-if P (is_op WalOp.drop_file r) _ _
          (λ drop.
            Ensures-after P (validate_drop r) _
              (λ good. AllLogged-append c.records r h (λ p. absurd (cc (other, p)))))
          λ other₂.
            Ensures-if P (is_op WalOp.commit r) _ _ (λ commit. Ensures-after P _ _ (λ good. h))
              λ other₃.
                Ensures-if P (is_op WalOp.abort r) _ _ (λ abort. Ensures-after P _ _ (λ good. h))
                  (λ unknown. tt)

collect-AllLogged :
    (log : List WalRecord) (c : Collected)
    → AllLogged c.records
    → Ensures (λ (d : Collected). AllLogged d.records) (collect log c)
unfolding collect
collect-AllLogged [] c h = h
collect-AllLogged (r ∷ log) c h =
    Ensures-bind (λ (d : Collected). AllLogged d.records) (λ (d : Collected). AllLogged d.records)
      (collect_record r c) (collect log) (collect_record-AllLogged r c h) (collect-AllLogged log)

log_emptied :
    (b : Bool) (end : Recovering) (w : Wal)
    → (b ≡ true → w.file ≡ [])
    → (w' : Wal) × Path
        (Result (Recovering × Wal))
        (if b then ok (end, w) else ok (end, reset w))
        (ok (end, w'))
      × (w'.file ≡ [])
unfolding reset
log_emptied true end w empty = (w, refl, empty refl)
log_emptied false end w empty = (reset w, refl, refl)

empty_of_length : (xs : List ℕ) (n : ℕ) → (n == 0 && length xs == 0) ≡ true → xs ≡ []
empty_of_length [] n h = refl
empty_of_length (x ∷ xs) n h = absurd (ground (arith, h))

-- Take a log whose records are valid, any content of the data files before it, and a disk, with
-- pages of 4096 bytes and nothing in missing files, that agrees with that content on each byte
-- that no committed and no unfinished transaction of the log writes, so also where only aborted
-- transactions wrote. Let the patches of the unfinished transactions hold as their old bytes what
-- they replaced on top of the committed content. Then recovery succeeds and empties the log, and
-- each byte of the data files is the last that a committed transaction wrote (zero in a removed
-- file), or the one before the log where none did.
pub recover-committed_byte :
    (disk : Files) (before : Content) (wal : Wal) (c : Collected)
    → collect (read_log wal.file) nothing_collected ≡ ok c
    → IsFiles disk
    → ((f p i : ℕ)
        → touched c c.records f p i ≡ false
        → rewritten c c.records f p i ≡ false
        → byte disk f p i ≡ before f p i)
    → Honest c (λ f p i. committed_byte c c.records f p i (before f p i)) c.records
    → (end : Recovering) × (after : Wal) × (recover disk wal ≡ ok (end, after))
      × (after.file ≡ [])
      × ((f p i : ℕ) → byte end.files f p i ≡ committed_byte c c.records f p i (before f p i))
unfolding recover
recover-committed_byte disk before wal c collected files agree honest =
    let replayed = length c.records + c.commit_abort_count in
    let start : Recovering = record {
      files = disk;
      stats = record { replayed = replayed; patches = 0; drops = 0; undone = 0 };
    } in
    let valid =
      Ensures-ok (λ (d : Collected). AllLogged d.records) _
        (collect-AllLogged (read_log wal.file) nothing_collected tt) collected in
    let middle = redo c c.records start in
    let end = undo c (reverse c.records) middle in
    let closed =
      log_emptied (replayed == 0 && length wal.file == 0) end wal
        (empty_of_length wal.file replayed) in
    let redone = λ (f p i : ℕ). redo_lem c c.records start f p i valid files in
    (
      end,
      closed.0,
      rw collected closed.1,
      closed.2,
      λ f p i.
          undo_lem c c.records middle (λ g q k. committed_byte c c.records g q k (before g q k)) f p
            i valid (redone f p i).0.sized honest
            (λ free.
              (redone f p i).1
              ∙ committed_byte_agree c c.records f p i (byte disk f p i) (before f p i)
                  (λ untouched. agree f p i untouched free)),
    )
