-- ===== src/Storage/Buffer/Log/Redo.antt =====
-- storage/buffer_pool.cpp and storage/recovery.cpp: which bytes the patch for an interval of words
-- covers, and what it writes there.
use my_simple_db.Prelude.{
  ℕ, ◌+◌, ◌-◌, ◌*◌, ◌/◌, ◌<◌, ◌≤◌, ◌≡◌, refl, ap, ap₂, ◌∙◌, Bool, true, false, ◌&&◌, List, ◌==◌,
  if◌then◌else◌, arith, inl, inr, Bool-cases, get_or, drop, get_or-take, get_or-drop,
}
use my_simple_db.Storage.Wal.{WalRecord}
use my_simple_db.Storage.Recovery.{patch_bytes}
use my_simple_db.Storage.Recovery.Overlay.{IsPatch, covers, within, patch_byte}
use my_simple_db.Storage.Buffer.{PageFrame}
use my_simple_db.Storage.Buffer.Diff.{words, part, patch_payload}
use my_simple_db.Storage.Buffer.Scan.{in_interval}
use my_simple_db.Storage.Buffer.Log.{
  IsFrame, patch_file_lem, patch_page_lem, patch_offset_lem, patch_len_lem, interval-IsPatch,
  patch_bytes-after, patch_bytes-old,
}

abbrev pub payload_of : PageFrame → ℕ × ℕ → List ℕ
payload_of f r = patch_payload f (r.0 * 8) ((r.1 - r.0) * 8)

-- The page that a patch writes: the old one when it is undone.
abbrev pub image : Bool → PageFrame → List ℕ
image old f = if old then f.before else f.bytes

abbrev pub is_page : PageFrame → ℕ → ℕ → Bool
is_page f q p = q == f.page.file_id && p == f.page.page_no

within_words :
    (lo hi i : ℕ) → lo < hi → within (lo * 8) ((hi - lo) * 8) i ≡ in_interval (lo, hi) (i / 8)
within_words lo hi i h = elim (Bool-cases (in_interval (lo, hi) (i / 8))) [
  | inl e ↦ rw e (ground (arith, e, h))
  | inr e ↦ rw e (ground (arith, e, h))
]

get_or-part :
    (page : List ℕ) (off len i : ℕ)
    → within off len i ≡ true
    → get_or (part page off len) (i - off) 0 ≡ get_or page i 0
get_or-part page off len i h =
    let small : i - off < len = ground (arith, h) in
    let place : off + (i - off) ≡ i = ground (arith, h) in
    get_or-take len (drop off page) (i - off) 0 small
    ∙ (get_or-drop off page (i - off) 0 ∙ ap (λ k. get_or page k 0) place)

module _ (f : PageFrame) (frame : IsFrame f) (g : ℕ × ℕ) (start : g.0 < g.1) (end : g.1 ≤ words)
    (r : WalRecord) (payload : r.payload ≡ payload_of f g) where
  pub payload_of-IsPatch : IsPatch r
  payload_of-IsPatch = interval-IsPatch f frame g.0 g.1 start end r payload

  pub covers_lem : (q p i : ℕ) → covers r q p i ≡ (is_page f q p && in_interval g (i / 8))
  covers_lem q p i =
      rw
        (
          patch_file_lem f frame g.0 g.1 start end r payload,
          patch_page_lem f frame g.0 g.1 start end r payload,
          patch_offset_lem f frame g.0 g.1 start end r payload,
          patch_len_lem f frame g.0 g.1 start end r payload,
          within_words g.0 g.1 i start,
        )
        refl

  patched_part : (old : Bool) → patch_bytes old r ≡ part (image old f) (g.0 * 8) ((g.1 - g.0) * 8)
  patched_part true = patch_bytes-old f frame g.0 g.1 start end r payload
  patched_part false = patch_bytes-after f frame g.0 g.1 start end r payload

  pub patch_byte_lem :
      (old : Bool) (i : ℕ)
      → in_interval g (i / 8) ≡ true
      → patch_byte old r i ≡ get_or (image old f) i 0
  patch_byte_lem old i h =
      ap₂ (λ bs off. get_or bs (i - off) 0) (patched_part old)
        (patch_offset_lem f frame g.0 g.1 start end r payload)
      ∙ get_or-part (image old f) (g.0 * 8) _ i (within_words g.0 g.1 i start ∙ h)
