-- ===== src/Storage/Recovery/Passes.antt =====
-- storage/recovery.cpp: what the second and the third pass do to each byte of the data files.
use my_simple_db.Prelude.{
  ℕ, ◌≡◌, refl, sym, ap, ◌∙◌, Bool, true, false, not, ◌&&◌, ◌||◌, List, [], ◌∷◌, ◌++◌, reverse,
  ◌==◌, if◌then◌else◌, arith, inl, inr, ==_iff, subst, Bool-cases, length-replicate,
  get_or-replicate,
}
use mathlib.Core.List.{reverse-cons}
use my_simple_db.Storage.Wal.{WalRecord, WalOp, page_size}
use my_simple_db.Storage.Files.{Files, read_page, write_page, remove_table_file}
use my_simple_db.Storage.Recovery.{
  Collected, Recovering, contains, is_op, patch_file, apply_patch, redo_record, undo_record, redo,
  undo,
}
use my_simple_db.Storage.Recovery.Overlay.{
  byte, covers, patch_byte, IsSized, IsPatch, byte-apply_patch, apply_patch-IsSized,
}

-- Pages of the right size, and zeros in a file that is not there.
pub record IsFiles (fs : Files) : Type 0 where
  pub sized : IsSized fs
  pub absent : (f p i : ℕ) → fs.exists f ≡ false → byte fs f p i ≡ 0

-- A patch in the log is in range.
abbrev pub IsLogged : WalRecord → Type 0
IsLogged r = is_op WalOp.page_patch r ≡ true → IsPatch r

abbrev pub AllLogged : List WalRecord → Type 0
AllLogged [] = Unit
AllLogged (r ∷ rs) = IsLogged r × AllLogged rs

-- A committed record that writes a byte, and what it writes: a patch its new byte, and the removal
-- of the file a zero.
abbrev pub touches : Collected → WalRecord → ℕ → ℕ → ℕ → Bool
touches c r f p i =
    contains c.committed r.txn
    && (if is_op WalOp.page_patch r then covers r f p i else f == patch_file r)

abbrev pub written_byte : WalRecord → ℕ → ℕ
written_byte r i = if is_op WalOp.page_patch r then patch_byte false r i else 0

not_made :
    (b e : Bool) → (if b then true else if b then true else e) ≡ false → (b ≡ false) × (e ≡ false)
not_made true e h = absurd (cc h)
not_made false e h = (refl, h)

not_kept : (b e : Bool) → b ≡ false → (if b then false else e) ≡ false → e ≡ false
not_kept true e other h = absurd (cc other)
not_kept false e other h = h

apply_patch-IsFiles :
    (u : Bool) (r : WalRecord) (fs : Files) → IsPatch r → IsFiles fs → IsFiles (apply_patch u r fs)
unfolding apply_patch read_page write_page
apply_patch-IsFiles u r fs valid h = record {
  sized = apply_patch-IsSized u r fs valid h.sized;
  absent = λ f p i gone.
      let both = not_made (f == patch_file r) (fs.exists f) gone in
      rw both.0 (h.absent f p i both.1);
}

remove_table_file-IsFiles :
    (file : ℕ) (fs : Files) → IsFiles fs → IsFiles (remove_table_file file fs)
unfolding remove_table_file
remove_table_file-IsFiles file fs h = record {
  sized = λ f p. elim (Bool-cases (f == file)) [
    | inl same ↦ rw same (length-replicate {A = ℕ} page_size 0)
    | inr other ↦ rw other (h.sized f p)
  ];
  absent = λ f p i gone. elim (Bool-cases (f == file)) [
    | inl same ↦ rw same (get_or-replicate page_size i 0)
    | inr other ↦ rw other (h.absent f p i (not_kept (f == file) (fs.exists f) other gone))
  ];
}

byte-remove_table_file :
    (file : ℕ) (fs : Files) (f p i : ℕ)
    → byte (remove_table_file file fs) f p i ≡ (if f == file then 0 else byte fs f p i)
unfolding remove_table_file
byte-remove_table_file file fs f p i = elim (Bool-cases (f == file)) [
  | inl same ↦ rw same (get_or-replicate page_size i 0)
  | inr other ↦ rw other refl
]

redo_record-IsFiles :
    (c : Collected) (r : WalRecord) (s : Recovering)
    → IsLogged r
    → IsFiles s.files
    → IsFiles (redo_record c r s).files
unfolding redo_record
redo_record-IsFiles c r s valid h = elim (Bool-cases (contains c.committed r.txn)) [
  | inr left ↦ rw left h
  | inl done ↦ elim (Bool-cases (is_op WalOp.page_patch r)) [
    | inl patch ↦ rw (done, patch) (apply_patch-IsFiles false r s.files (valid patch) h)
    | inr drop ↦ elim (Bool-cases (s.files.exists (patch_file r))) [
      | inl there ↦ rw (done, drop, there) (remove_table_file-IsFiles (patch_file r) s.files h)
      | inr gone ↦ rw (done, drop, gone) h
    ]
  ]
]

removed :
    (file : ℕ) (fs : Files) (f p i : ℕ)
    → IsFiles fs
    → fs.exists file ≡ false
    → byte fs f p i ≡ (if f == file then 0 else byte fs f p i)
removed file fs f p i h gone = elim (Bool-cases (f == file)) [
  | inl same ↦
      rw same
        (h.absent f p i (subst (λ g. fs.exists g ≡ false) (sym ((==_iff f file).0 same)) gone))
  | inr other ↦ rw other refl
]

byte-redo_record :
    (c : Collected) (r : WalRecord) (s : Recovering) (f p i : ℕ)
    → IsLogged r
    → IsFiles s.files
    → byte (redo_record c r s).files f p i
      ≡ (if touches c r f p i then written_byte r i else byte s.files f p i)
unfolding redo_record
byte-redo_record c r s f p i valid h = elim (Bool-cases (contains c.committed r.txn)) [
  | inr left ↦ rw left refl
  | inl done ↦ elim (Bool-cases (is_op WalOp.page_patch r)) [
    | inl patch ↦ rw (done, patch) (byte-apply_patch false r s.files f p i (valid patch) h.sized)
    | inr drop ↦ elim (Bool-cases (s.files.exists (patch_file r))) [
      | inl there ↦ rw (done, drop, there) (byte-remove_table_file (patch_file r) s.files f p i)
      | inr gone ↦ rw (done, drop, gone) (removed (patch_file r) s.files f p i h gone)
    ]
  ]
]

-- The last byte that the committed records write, or the byte before.
unfoldable pub committed_byte : Collected → List WalRecord → ℕ → ℕ → ℕ → ℕ → ℕ
committed_byte c [] f p i v = v
committed_byte c (r ∷ rs) f p i v =
    committed_byte c rs f p i (if touches c r f p i then written_byte r i else v)

pub redo_lem :
    (c : Collected) (rs : List WalRecord) (s : Recovering) (f p i : ℕ)
    → AllLogged rs
    → IsFiles s.files
    → IsFiles (redo c rs s).files
      × (byte (redo c rs s).files f p i ≡ committed_byte c rs f p i (byte s.files f p i))
unfolding redo committed_byte
redo_lem c [] s f p i valid h = (h, refl)
redo_lem c (r ∷ rs) s f p i valid h =
    let rest =
      redo_lem c rs (redo_record c r s) f p i valid.1 (redo_record-IsFiles c r s valid.0 h) in
    (rest.0, rest.1 ∙ ap (committed_byte c rs f p i) (byte-redo_record c r s f p i valid.0 h))

-- Whether a committed record writes a byte.
unfoldable pub touched : Collected → List WalRecord → ℕ → ℕ → ℕ → Bool
touched c [] f p i = false
touched c (r ∷ rs) f p i = touches c r f p i || touched c rs f p i

-- Where one does, the byte before is of no account.
pub committed_byte_agree :
    (c : Collected) (rs : List WalRecord) (f p i v w : ℕ)
    → (touched c rs f p i ≡ false → v ≡ w)
    → committed_byte c rs f p i v ≡ committed_byte c rs f p i w
unfolding committed_byte touched
committed_byte_agree c [] f p i v w h = h refl
committed_byte_agree c (r ∷ rs) f p i v w h = elim (Bool-cases (touches c r f p i)) [
  | inl hit ↦ rw hit refl
  | inr miss ↦ rw miss (
      committed_byte_agree c rs f p i v w
        (λ none. h (ap (λ b. b || touched c rs f p i) miss ∙ none)))
]

-- ==================== The third pass ====================

abbrev pub undone : Collected → WalRecord → Bool
undone c r =
    not (contains c.committed r.txn || (contains c.aborted r.txn || not (is_op WalOp.page_patch r)))

pub undo_append :
    (c : Collected) (xs ys : List WalRecord) (s : Recovering)
    → undo c (xs ++ ys) s ≡ undo c ys (undo c xs s)
unfolding undo
undo_append c [] ys s = refl
undo_append c (x ∷ xs) ys s = undo_append c xs ys (undo_record c x s)

-- The first record is undone last.
pub undo-reverse :
    (c : Collected) (r : WalRecord) (rs : List WalRecord) (s : Recovering)
    → undo c (reverse (r ∷ rs)) s ≡ undo_record c r (undo c (reverse rs) s)
unfolding undo
undo-reverse c r rs s =
    ap (λ z. undo c z s) (reverse-cons r rs) ∙ undo_append c (reverse rs) (r ∷ []) s

is_patch_of_undone : (a b p : Bool) → not (a || (b || not p)) ≡ true → p ≡ true
is_patch_of_undone a b p h = ground (arith, h)

undone-patch : (c : Collected) (r : WalRecord) → undone c r ≡ true → is_op WalOp.page_patch r ≡ true
undone-patch c r h =
    is_patch_of_undone (contains c.committed r.txn) (contains c.aborted r.txn)
      (is_op WalOp.page_patch r) h

flipped : (b : Bool) (v : Bool) → not b ≡ v → b ≡ not v
flipped b v h = ground (arith, h)

pub undo_record_lem :
    (c : Collected) (r : WalRecord) (s : Recovering) (f p i : ℕ)
    → IsLogged r
    → IsSized s.files
    → IsSized (undo_record c r s).files
      × (byte (undo_record c r s).files f p i
          ≡ (if undone c r && covers r f p i then patch_byte true r i else byte s.files f p i))
unfolding undo_record
undo_record_lem c r s f p i valid h = elim (Bool-cases (undone c r)) [
  | inl out ↦
      let patch = valid (undone-patch c r out) in
      rw (flipped _ true out)
        (apply_patch-IsSized true r s.files patch h, byte-apply_patch true r s.files f p i patch h)
  | inr kept ↦ rw (flipped _ false kept) (h, refl)
]
