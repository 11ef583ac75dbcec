-- ===== src/Storage/Buffer/View/Checkpoint.antt =====
-- storage/buffer_pool.cpp: flush_all and invalidate_all against the pages that the cache gives.
use my_simple_db.Prelude.{
  ℕ, zero, suc, ◌<◌, ◌≡◌, ◌≢◌, refl, sym, ap, ap₂, ◌∙◌, true, false, List, [], ◌∷◌, ◌==◌,
  if◌then◌else◌, length, get_or, map, arith, inl, inr, Bool-cases,
}
use mathlib.Core.Bool.{false≢true}
use my_simple_db.Common.{Ensures, Ensures-bind}
use my_simple_db.Storage.Files.{Files}
use my_simple_db.Storage.Buffer.{
  PageId, PageFrame, empty_frame, BufferPool, table_find, find, write_back,
}
use my_simple_db.Storage.Buffer.Flush.{flush_frames, flush_all, invalidate_all}
use my_simple_db.Storage.Buffer.View.{on_disk, view, IsPool, Written, write_back-Written}

abbrev frame_of : List PageFrame → ℕ → PageFrame
frame_of frames m = get_or frames m empty_frame

abbrev AreClean : List PageFrame → Files → Type 0
AreClean frames fs =
    (m : ℕ)
    → (frame_of frames m).valid ≡ true
    → (frame_of frames m).dirty ≡ false
    → on_disk fs (frame_of frames m).page ≡ (frame_of frames m).bytes

-- No two valid frames have the same page.
abbrev AreApart : List PageFrame → Type 0
AreApart frames =
    (m k : ℕ)
    → (frame_of frames m).valid ≡ true
    → (frame_of frames k).valid ≡ true
    → (frame_of frames m).page ≡ (frame_of frames k).page
    → m ≡ k

record IsFlushed (frames : List PageFrame) (fs : Files) (w : List PageFrame × Files) : Type 0 where
  size : length w.0 ≡ length frames
  pages : (m : ℕ) → (frame_of w.0 m).page ≡ (frame_of frames m).page
  valids : (m : ℕ) → (frame_of w.0 m).valid ≡ (frame_of frames m).valid
  bytes : (m : ℕ) → (frame_of w.0 m).bytes ≡ (frame_of frames m).bytes
  stored :
      (m : ℕ)
      → (frame_of frames m).valid ≡ true
      → on_disk w.1 (frame_of frames m).page ≡ (frame_of frames m).bytes
  other :
      (page : PageId)
      → ((m : ℕ) → (frame_of frames m).valid ≡ true → page ≢ (frame_of frames m).page)
      → on_disk w.1 page ≡ on_disk fs page

not_next : (m : ℕ) → zero ≢ suc m
not_next m e = absurd (omega (arith, e))

flush_frames-IsFlushed :
    (frames : List PageFrame) (fs : Files)
    → AreClean frames fs
    → AreApart frames
    → Ensures (IsFlushed frames fs) (flush_frames frames fs)
unfolding flush_frames
flush_frames-IsFlushed [] fs clean apart = record {
  size = refl;
  pages = λ m. refl;
  valids = λ m. refl;
  bytes = λ m. refl;
  stored = λ m v. absurd (cc v);
  other = λ page h. refl;
}
flush_frames-IsFlushed (f ∷ frames) fs clean apart =
    Ensures-bind (Written f fs) (IsFlushed (f ∷ frames) fs) (write_back f fs) _
      (write_back-Written f fs (clean zero))
      (λ w written.
        Ensures-bind (IsFlushed frames w.1) (IsFlushed (f ∷ frames) fs) (flush_frames frames w.1) _
          (flush_frames-IsFlushed frames w.1 (rest_clean w written)
            (λ m k v u e. next_eq m k (apart (suc m) (suc k) v u e)))
          (λ rest flushed. first_and_rest w written rest flushed))
  where
    next_eq : (m k : ℕ) → suc m ≡ suc k → m ≡ k
    next_eq m k e = omega (arith, e)

    rest_clean : (w : PageFrame × Files) → Written f fs w → AreClean frames w.1
    rest_clean w written m v d =
        written.other (frame_of frames m).page
          (λ head same. not_next m (apart zero (suc m) head v (sym same)))
        ∙ clean (suc m) v d

    first_and_rest :
        (w : PageFrame × Files)
        → Written f fs w
        → (rest : List PageFrame × Files) → IsFlushed frames w.1 rest
        → IsFlushed (f ∷ frames) fs (w.0 ∷ rest.0, rest.1)
    first_and_rest w written rest flushed = record {
      size = ap suc flushed.size;
      pages =
          by_index (λ g k. (frame_of (w.0 ∷ rest.0) k).page ≡ g.page) written.page flushed.pages;
      valids =
          by_index (λ g k. (frame_of (w.0 ∷ rest.0) k).valid ≡ g.valid) written.valid
            flushed.valids;
      bytes =
          by_index (λ g k. (frame_of (w.0 ∷ rest.0) k).bytes ≡ g.bytes) written.bytes flushed.bytes;
      stored =
          by_index (λ g k. g.valid ≡ true → on_disk rest.1 g.page ≡ g.bytes)
            (λ v.
              flushed.other f.page (λ m u same. not_next m (apart zero (suc m) v u same))
              ∙ written.stored v)
            flushed.stored;
      other =
          λ page h. flushed.other page (λ m v. h (suc m) v) ∙ written.other page (λ v. h zero v);
    }
      where
        by_index :
            (P : PageFrame → ℕ → Type 0)
            → P f zero
            → ((m : ℕ) → P (frame_of frames m) (suc m))
            → (k : ℕ) → P (frame_of (f ∷ frames) k) k
        by_index P first next zero = first
        by_index P first next (suc m) = next m

valid_inside :
    (frames : List PageFrame) (m : ℕ) → (frame_of frames m).valid ≡ true → m < length frames
valid_inside [] m v = absurd (cc v)
valid_inside (f ∷ frames) zero v = omega arith
valid_inside (f ∷ frames) (suc m) v = omega (arith, valid_inside frames m v)

pool-AreApart : (p : BufferPool) (fs : Files) → IsPool p fs → AreApart p.frames
pool-AreApart p fs h m k v u same =
    sym (h.listed m (valid_inside p.frames m v) v)
    ∙ (ap (find p) same ∙ h.listed k (valid_inside p.frames k u) u)

-- After flush_all, the files have every page, and no page changes.
pub record IsCheckpoint (p : BufferPool) (fs : Files) (x : BufferPool × Files) : Type 0 where
  pub pool : IsPool x.0 x.1
  pub files : (page : PageId) → on_disk x.1 page ≡ view p fs page
  pub views : (page : PageId) → view x.0 x.1 page ≡ view p fs page

module _ (p : BufferPool) (fs : Files) (h : IsPool p fs) (w : List PageFrame × Files)
    (flushed : IsFlushed p.frames fs w) where
  abbrev q : BufferPool
  q = record p { frames = w.0 }

  same_find : (page : PageId) → find q page ≡ find p page
  same_find page = ap (λ n. table_find page n p.page_table) flushed.size

  all_stored : (page : PageId) → on_disk w.1 page ≡ view p fs page
  all_stored page = elim (Bool-cases (find p page == length p.frames)) [
    | inl absent ↦
        let gone : find p page ≡ length p.frames = ground (arith, absent) in
        rw absent (
          flushed.other page (λ m v same. absurd (
            lost m (valid_inside p.frames m v)
              (sym (h.listed m (valid_inside p.frames m v) v) ∙ (ap (find p) (sym same) ∙ gone)))))
    | inr present ↦
        let low : find p page < length p.frames = ground (arith, present, h.bounded page) in
        let entry = h.entry page low in
        rw present (ap (on_disk w.1) (sym entry.1) ∙ flushed.stored (find p page) entry.0)
  ]
    where
      lost : (m : ℕ) → m < length p.frames → m ≡ length p.frames → ⊥
      lost m low e = absurd (omega (arith, low, e))

  flush_all-IsCheckpoint_pool : IsCheckpoint p fs (q, w.1)
  flush_all-IsCheckpoint_pool = record {
    pool = record {
      bounded = λ page. omega (arith, same_find page, flushed.size, h.bounded page);
      entry = λ page low.
          let old = h.entry page (omega (arith, same_find page, flushed.size, low)) in
          (
            ap (λ m. (frame_of w.0 m).valid) (same_find page)
                ∙ (flushed.valids (find p page) ∙ old.0),
            ap (λ m. (frame_of w.0 m).page) (same_find page)
                ∙ (flushed.pages (find p page) ∙ old.1),
          );
      listed = λ m low v.
          same_find (frame_of w.0 m).page
          ∙ (ap (find p) (flushed.pages m)
              ∙ h.listed m (omega (arith, flushed.size, low)) (sym (flushed.valids m) ∙ v));
      clean = λ m low v d.
          ap (on_disk w.1) (flushed.pages m)
          ∙ (flushed.stored m (sym (flushed.valids m) ∙ v) ∙ sym (flushed.bytes m));
    };
    files = all_stored;
    views = λ page. elim (Bool-cases (find p page == length p.frames)) [
      | inl absent ↦
          ap₂ (λ m n. if m == n then on_disk w.1 page else (frame_of w.0 m).bytes) (same_find page)
            flushed.size
          ∙ (rw absent (all_stored page ∙ rw absent refl))
      | inr present ↦
          ap₂ (λ m n. if m == n then on_disk w.1 page else (frame_of w.0 m).bytes) (same_find page)
            flushed.size
          ∙ (rw present (flushed.bytes (find p page)))
    ];
  }

-- In a pool in which the page table has exactly the valid frames, and each frame that is not dirty
-- has the page of the file, where flush_all returns, every page of the files is the page as the
-- cache gave it, no page changes, and the pool stays such a pool.
pub flush_all-IsCheckpoint :
    (p : BufferPool) (fs : Files) → IsPool p fs → Ensures (IsCheckpoint p fs) (flush_all p fs)
unfolding flush_all
flush_all-IsCheckpoint p fs h =
    Ensures-bind (IsFlushed p.frames fs) (IsCheckpoint p fs) (flush_frames p.frames fs) _
      (flush_frames-IsFlushed p.frames fs (λ m v d. h.clean m (valid_inside p.frames m v) v d)
        (pool-AreApart p fs h))
      (λ w flushed. flush_all-IsCheckpoint_pool p fs h w flushed)

cleared_frame :
    (frames : List PageFrame) (m : ℕ) → frame_of (map (λ f. empty_frame) frames) m ≡ empty_frame
cleared_frame [] m = refl
cleared_frame (f ∷ frames) zero = refl
cleared_frame (f ∷ frames) (suc m) = cleared_frame frames m

-- Over any files, what invalidate_all leaves is such a pool, and gives the pages of the files.
pub invalidate_all-IsPool :
    (p : BufferPool) (fs : Files)
    → IsPool (invalidate_all p) fs
      × ((page : PageId) → view (invalidate_all p) fs page ≡ on_disk fs page)
unfolding invalidate_all table_find
invalidate_all-IsPool p fs = (
  record {
    bounded = λ page. omega arith;
    entry = λ page low. absurd (omega (arith, low));
    listed = λ m low v. absurd (invalid m v);
    clean = λ m low v d. absurd (invalid m v);
  },
  λ page.
      let gone : (length (map (λ f. empty_frame) p.frames)
            == length (map (λ f. empty_frame) p.frames))
          ≡ true =
        ground arith in
      rw gone refl,
)
  where
    invalid : (m : ℕ) → (frame_of (map (λ f. empty_frame) p.frames) m).valid ≡ true → ⊥
    invalid m v = false≢true (sym (ap (λ (f : PageFrame). f.valid) (cleared_frame p.frames m)) ∙ v)
