-- ===== src/Storage/Recovery/Overlay.antt =====
-- storage/recovery.cpp: what a patch does to each byte of the data files.
use my_simple_db.Prelude.{
  ℕ, ◌+◌, ◌-◌, ◌*◌, ◌≤◌, ◌≡◌, refl, sym, ap, ◌∙◌, Bool, true, false, ◌&&◌, List, ◌++◌, leb, ltb,
  ◌==◌, if◌then◌else◌, length, get_or, take, drop, arith, inl, inr, Bool-cases, length-append,
  length-take, length-drop, get_or-append, get_or-append_ge, get_or-take, get_or-drop, ap₂,
}
use my_simple_db.Common.{ok}
use my_simple_db.Storage.Wal.{WalRecord, page_size}
use my_simple_db.Storage.Files.{Files, read_page, write_page}
use my_simple_db.Storage.Recovery.{
  patch_file, patch_page, patch_offset, patch_len, patch_bytes, overlay, apply_patch,
  validate_patch,
}

abbrev pub within : ℕ → ℕ → ℕ → Bool
within offset len i = leb offset i && ltb i (offset + len)

pub length-overlay :
    (offset : ℕ) (bytes page : List ℕ)
    → offset + length bytes ≤ length page
    → length (overlay offset bytes page) ≡ length page
unfolding overlay
length-overlay offset bytes page h = omega (
  arith,
  h,
  length-append (take offset page) (bytes ++ drop (offset + length bytes) page),
  length-append bytes (drop (offset + length bytes) page),
  length-take offset page,
  length-drop (offset + length bytes) page,
)

pub get_or-overlay :
    (offset : ℕ) (bytes page : List ℕ) (i : ℕ)
    → offset + length bytes ≤ length page
    → get_or (overlay offset bytes page) i 0
      ≡ (if within offset (length bytes) i then get_or bytes (i - offset) 0 else get_or page i 0)
unfolding overlay
get_or-overlay offset bytes page i h =
    let n = length bytes in
    let front = take offset page in
    let rest = bytes ++ drop (offset + n) page in
    let size : length front ≡ offset = omega (arith, length-take offset page, h) in
    elim (Bool-cases (leb offset i)) [
      | inl after ↦
          let skip : get_or (front ++ rest) i 0 ≡ get_or rest (i - offset) 0 =
            get_or-append_ge front rest i 0 (ground (arith, size, after))
            ∙ ap (λ k. get_or rest (i - k) 0) size in
          elim (Bool-cases (ltb i (offset + n))) [
            | inl inside ↦
                rw (skip, after, inside)
                  (get_or-append bytes (drop (offset + n) page) (i - offset) 0
                    (ground (arith, inside, after)))
            | inr outside ↦
                let place : offset + n + (i - offset - n) ≡ i = ground (arith, outside, after) in
                rw (skip, after, outside)
                  (get_or-append_ge bytes (drop (offset + n) page) (i - offset) 0
                      (ground (arith, outside, after))
                    ∙ (get_or-drop (offset + n) page (i - offset - n) 0
                        ∙ ap (λ k. get_or page k 0) place))
          ]
      | inr before ↦ rw before (
          get_or-append front rest i 0 (ground (arith, size, before))
          ∙ get_or-take offset page i 0 (ground (arith, before)))
    ]

-- A byte of the data files.
abbrev pub byte : Files → ℕ → ℕ → ℕ → ℕ
byte fs f p i = get_or (fs.page f p) i 0

abbrev pub IsSized : Files → Type 0
IsSized fs = (f p : ℕ) → length (fs.page f p) ≡ page_size

-- The patches that validate_patch lets pass.
pub record IsPatch (r : WalRecord) : Type 0 where
  pub region : patch_offset r + patch_len r ≤ page_size
  pub size : length r.payload ≡ 20 + 2 * patch_len r

pub validate_patch-IsPatch : (r : WalRecord) → validate_patch r ≡ ok tt → IsPatch r
unfolding validate_patch
validate_patch-IsPatch r h = record { region = ground (arith, h); size = ground (arith, h) }

abbrev pub covers : WalRecord → ℕ → ℕ → ℕ → Bool
covers r f p i = f == patch_file r && p == patch_page r && within (patch_offset r) (patch_len r) i

abbrev pub patch_byte : Bool → WalRecord → ℕ → ℕ
patch_byte undo r i = get_or (patch_bytes undo r) (i - patch_offset r) 0

length-patch_bytes :
    (undo : Bool) (r : WalRecord) → IsPatch r → length (patch_bytes undo r) ≡ patch_len r
length-patch_bytes true r valid = omega (
  arith,
  valid.size,
  length-take (patch_len r) (drop (20 + patch_len r) r.payload),
  length-drop (20 + patch_len r) r.payload,
)
length-patch_bytes false r valid =
    omega
      (arith, valid.size, length-take (patch_len r) (drop 20 r.payload), length-drop 20 r.payload)

same_file :
    (f p : ℕ) (r : WalRecord) → (f == patch_file r && p == patch_page r) ≡ true → f ≡ patch_file r
same_file f p r h = ground (arith, h)

same_page :
    (f p : ℕ) (r : WalRecord) → (f == patch_file r && p == patch_page r) ≡ true → p ≡ patch_page r
same_page f p r h = ground (arith, h)

-- A patch changes the bytes of its region, and no other.
pub byte-apply_patch :
    (undo : Bool) (r : WalRecord) (fs : Files) (f p i : ℕ)
    → IsPatch r
    → IsSized fs
    → byte (apply_patch undo r fs) f p i
      ≡ (if covers r f p i then patch_byte undo r i else byte fs f p i)
unfolding apply_patch read_page write_page
byte-apply_patch undo r fs f p i valid sized =
    elim (Bool-cases (f == patch_file r && p == patch_page r)) [
      | inl here ↦
          let size = length-patch_bytes undo r valid in
          let fits : patch_offset r + length (patch_bytes undo r)
              ≤ length (fs.page (patch_file r) (patch_page r)) =
            omega (arith, size, valid.region, sized (patch_file r) (patch_page r)) in
          let b = patch_byte undo r i in
          let e₁ =
            get_or-overlay (patch_offset r) (patch_bytes undo r)
              (fs.page (patch_file r) (patch_page r)) i fits in
          let e₂ =
            ap
              (λ n.
                if within (patch_offset r) n i then b else byte fs (patch_file r) (patch_page r) i)
              size in
          let e₃ =
            ap₂ (λ g q. if within (patch_offset r) (patch_len r) i then b else byte fs g q i)
              (same_file f p r here) (same_page f p r here) in
          rw here (e₁ ∙ (e₂ ∙ sym e₃))
      | inr elsewhere ↦ rw elsewhere refl
    ]

pub apply_patch-IsSized :
    (undo : Bool) (r : WalRecord) (fs : Files)
    → IsPatch r
    → IsSized fs
    → IsSized (apply_patch undo r fs)
unfolding apply_patch read_page write_page
apply_patch-IsSized undo r fs valid sized f p =
    elim (Bool-cases (f == patch_file r && p == patch_page r)) [
      | inl here ↦
          let size = length-patch_bytes undo r valid in
          let fits : patch_offset r + length (patch_bytes undo r)
              ≤ length (fs.page (patch_file r) (patch_page r)) =
            omega (arith, size, valid.region, sized (patch_file r) (patch_page r)) in
          rw here (
            length-overlay (patch_offset r) (patch_bytes undo r)
              (fs.page (patch_file r) (patch_page r)) fits
            ∙ sized (patch_file r) (patch_page r))
      | inr elsewhere ↦ rw elsewhere (sized f p)
    ]
