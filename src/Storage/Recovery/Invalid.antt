-- ===== src/Storage/Recovery/Invalid.antt =====
-- storage/recovery.cpp: on which logs recovery ends the process.
use my_simple_db.Prelude.{
  ◌+◌, ◌*◌, ◌≡◌, refl, Bool, true, false, not, ◌&&◌, ◌||◌, List, [], ◌∷◌, leb, ltb, ◌==◌,
  if◌then◌else◌, length, arith, inl, inr, Bool-cases,
}
use my_simple_db.Common.{Result, ok, exit, ◌>>=◌, ◌>>◌}
use my_simple_db.Storage.Wal.{Wal, WalRecord, WalOp, page_size, read_log}
use my_simple_db.Storage.Files.{Files}
use my_simple_db.Storage.Recovery.{
  Collected, Recovering, RecoveryStats, patch_file, patch_offset, patch_len, is_op, critical_if,
  validate_patch, validate_drop, collect_record, collect, nothing_collected, recover,
}

-- A patch names a file, has a region that is not empty and lies in the page, and the old and the
-- new bytes of it.
abbrev pub valid_patch : WalRecord → Bool
valid_patch r =
    ltb 0 (patch_file r)
    && (ltb 0 (patch_len r)
        && (leb (patch_offset r + patch_len r) page_size
            && length r.payload == 20 + 2 * patch_len r))

abbrev pub valid_record : WalRecord → Bool
valid_record r =
    if is_op WalOp.page_patch r
    then valid_patch r
    else if is_op WalOp.drop_file r
    then length r.payload == 8 && ltb 0 (patch_file r)
    else (is_op WalOp.commit r || is_op WalOp.abort r) && length r.payload == 0

unfoldable pub valid_log : List WalRecord → Bool
valid_log [] = true
valid_log (r ∷ log) = valid_record r && valid_log log

validate_patch_lem : (r : WalRecord) → validate_patch r ≡ critical_if (not (valid_patch r))
unfolding validate_patch
validate_patch_lem r = ground arith

validate_drop_lem :
    (r : WalRecord)
    → validate_drop r ≡ critical_if (not (length r.payload == 8 && ltb 0 (patch_file r)))
unfolding validate_drop
validate_drop_lem r = ground arith

-- A step that succeeds where `good`, and ends the process otherwise.
abbrev Decides {ℓ} : {A : Type ℓ} → Bool → Result A → Type ℓ
Decides {A} true r = (a : A) × (r ≡ ok a)
Decides false r = r ≡ exit

critical-Decides {ℓ} :
    {A : Type ℓ} (good : Bool) (t : Result (Unit {0})) (a : A)
    → t ≡ critical_if (not good)
    → Decides good (t >> ok a)
critical-Decides true t a e = (a, rw e refl)
critical-Decides false t a e = rw e refl

collect_record-Decides :
    (r : WalRecord) (c : Collected) → Decides (valid_record r) (collect_record r c)
unfolding collect_record
collect_record-Decides r c = elim (Bool-cases (is_op WalOp.page_patch r)) [
  | inl patch ↦
      rw patch (critical-Decides (valid_patch r) (validate_patch r) _ (validate_patch_lem r))
  | inr patch ↦ elim (Bool-cases (is_op WalOp.drop_file r)) [
    | inl drop ↦ rw (patch, drop) (critical-Decides _ (validate_drop r) _ (validate_drop_lem r))
    | inr drop ↦ elim (Bool-cases (is_op WalOp.commit r)) [
      | inl commit ↦ rw (patch, drop, commit) (critical-Decides (length r.payload == 0) _ _ refl)
      | inr commit ↦ elim (Bool-cases (is_op WalOp.abort r)) [
        | inl abort ↦
            rw (patch, drop, commit, abort) (critical-Decides (length r.payload == 0) _ _ refl)
        | inr abort ↦ rw (patch, drop, commit, abort) refl
      ]
    ]
  ]
]

bind-Decides {ℓ κ} :
    {A : Type ℓ} {B : Type κ} (b c : Bool) (r : Result A) (k : A → Result B)
    → Decides b r
    → ((a : A) → Decides c (k a))
    → Decides (b && c) (r >>= k)
bind-Decides true c r k (a, e) f = rw e (f a)
bind-Decides false c r k e f = rw e refl

collect-Decides : (log : List WalRecord) (c : Collected) → Decides (valid_log log) (collect log c)
unfolding collect valid_log
collect-Decides [] c = (c, refl)
collect-Decides (r ∷ log) c =
    bind-Decides (valid_record r) (valid_log log) (collect_record r c) (collect log)
      (collect_record-Decides r c) (collect-Decides log)

finish-Decides : {A : Type 0} (b : Bool) (x y : A) → Decides true (if b then ok x else ok y)
finish-Decides true x y = (x, refl)
finish-Decides false x y = (y, refl)

decided {ℓ} :
    {A : Type ℓ} (b : Bool) (r : Result A) (other : A)
    → Decides (b && true) r
    → (x : A) × (r ≡ (if b then ok x else exit))
decided true r other h = h
decided false r other h = (other, h)

-- On every disk, recovery succeeds where each record that the reader gives is valid, and ends the
-- process where one is not.
pub recover-valid_log :
    (disk : Files) (wal : Wal)
    → (x : Recovering × Wal) × (recover disk wal
        ≡ (if valid_log (read_log wal.file) then ok x else exit))
unfolding recover
recover-valid_log disk wal =
    let nothing : RecoveryStats = record { replayed = 0; patches = 0; drops = 0; undone = 0 } in
    decided (valid_log (read_log wal.file)) (recover disk wal)
      (record { files = disk; stats = nothing }, wal)
      (bind-Decides (valid_log (read_log wal.file)) true
        (collect (read_log wal.file) nothing_collected) _
        (collect-Decides (read_log wal.file) nothing_collected) (λ c. finish-Decides _ _ _))
