-- ===== src/Storage/Buffer/View/Coherent.antt =====
-- storage/buffer_pool.cpp: read, allocate and unpin against the pages that the
-- cache gives.
use my_simple_db.Prelude.{
  ℕ, ◌<◌, ◌≡◌, refl, sym, ap, ◌∙◌, subst, Bool, true, false, not, ◌&&◌, ltb, ◌==◌, if◌then◌else◌,
  length, arith, inl, inr, Bool-cases, ==_iff,
}
use my_simple_db.Common.{Ensures, Ensures-if, Ensures-bind}
use my_simple_db.Storage.Files.{Files, zero_page, read_page, fd_for}
use my_simple_db.Storage.Page.{page_valid}
use my_simple_db.Storage.Buffer.{
  PageId, same_page, PageFrame, empty_frame, BufferPool, find, frame_at, set_frame, has_frame,
  evict, read, allocate, unpin,
}
use my_simple_db.Storage.Buffer.Evict.{get_or-set_self}
use my_simple_db.Storage.Buffer.View.{
  on_disk, view, IsPool, same_page_eq, IsSameCore, IsSimilar, view-similar, similar-IsPool,
  set_frame-IsSimilar,
}
use my_simple_db.Storage.Buffer.View.Reads.{
  Gives, evict-Evicted, inserted, inserted-IsPool, view_inserted,
}

-- The frame that a read gives has the page, and no page changes.
pub record IsRead (p : BufferPool) (fs : Files) (page : PageId) (x : ℕ × (BufferPool × Files))
    : Type 0 where
  pub pool : IsPool (x.1).0 (x.1).1
  pub views : (other : PageId) → view (x.1).0 (x.1).1 other ≡ view p fs other
  pub bytes : (frame_at (x.1).0 x.0).bytes ≡ view p fs page

-- An allocation clears a page that is not cached, and changes no other.
pub record IsAllocated (p : BufferPool) (fs : Files) (page : PageId) (x : ℕ × (BufferPool × Files))
    : Type 0 where
  pub pool : IsPool (x.1).0 (x.1).1
  pub views :
      (other : PageId)
      → view (x.1).0 (x.1).1 other ≡ (
          if find p page == length p.frames && same_page page other
          then zero_page
          else view p fs other)

cached :
    (p : BufferPool) (fs : Files) (page : PageId)
    → IsPool p fs
    → not (find p page == length p.frames) ≡ true
    → find p page < length p.frames
cached p fs page h e = ground (arith, e, h.bounded page)

not_cached : (m n : ℕ) → not (m == n) ≡ false → m ≡ n
not_cached m n e = (==_iff m n).0 (ground (arith, e))

touched_frame :
    (p : BufferPool) (fs : Files) (page : PageId) (g : PageFrame)
    → IsPool p fs
    → find p page < length p.frames
    → IsSameCore g (frame_at p (find p page))
    → IsRead p fs page (find p page, (set_frame p (find p page) g, fs))
touched_frame p fs page g h low same =
    let q = set_frame p (find p page) g in
    let s = set_frame-IsSimilar p (find p page) g low same in
    let present : (find p page == length p.frames) ≡ false = ground (arith, low) in
    record {
      pool = similar-IsPool p q fs s h;
      views = view-similar p q fs s;
      bytes = (s.core (find p page)).bytes ∙ rw present refl;
    }

-- The open of a file changes no page.
fd_for-IsPool : (file : ℕ) (p : BufferPool) (fs : Files) → IsPool p fs → IsPool p (fd_for file fs)
fd_for-IsPool file p fs h = record {
  bounded = h.bounded;
  entry = h.entry;
  listed = h.listed;
  clean = h.clean;
}

pub not_there :
    (p : BufferPool) (fs : Files) (page : PageId)
    → find p page ≡ length p.frames
    → on_disk fs page ≡ view p fs page
not_there p fs page absent =
    let e : (find p page == length p.frames) ≡ true = ground (arith, absent) in rw e refl

-- A frame that comes into the pool after an eviction.
record IsBrought (p : BufferPool) (fs : Files) (e : ℕ × (BufferPool × Files)) (g : PageFrame)
    : Type 0 where
  pool : IsPool (inserted (e.1).0 e.0 g) (e.1).1
  views :
      (other : PageId)
      → view (inserted (e.1).0 e.0 g) (e.1).1 other
        ≡ (if same_page g.page other then g.bytes else view p fs other)
  frame : frame_at (inserted (e.1).0 e.0 g) e.0 ≡ g

brought :
    (p : BufferPool) (fs : Files) (e : ℕ × (BufferPool × Files))
    → Gives p fs e
    → (g : PageFrame) → g.valid ≡ true
    → find (e.1).0 g.page ≡ length ((e.1).0).frames
    → (g.dirty ≡ false → on_disk (e.1).1 g.page ≡ g.bytes)
    → IsBrought p fs e g
brought p fs e v g good gone clean =
    let inside : e.0 < length ((e.1).0).frames = subst (λ n. e.0 < n) (sym v.size) v.inside in
    record {
      pool = inserted-IsPool (e.1).0 (e.1).1 v.pool e.0 inside v.free g good gone clean;
      views = λ other.
          view_inserted (e.1).0 (e.1).1 v.pool e.0 inside v.free g good gone clean other
          ∙ ap (λ z. if same_page g.page other then g.bytes else z) (v.views other);
      frame = get_or-set_self ((e.1).0).frames e.0 g empty_frame inside;
    }

-- In a pool in which the page table has exactly the valid frames, and each frame that is not dirty
-- has the page of the file, where a read returns, the frame that it gives has the page as it was,
-- cached or in the file, no page changes, whichever frame is evicted, and the pool stays such a pool.
pub read-IsRead :
    (page : PageId) (magic : ℕ) (p : BufferPool) (fs : Files)
    → IsPool p fs
    → Ensures (IsRead p fs page) (read page magic p fs)
unfolding read read_page
read-IsRead page magic p fs h =
    Ensures-if (IsRead p fs page) (not (find p page == length p.frames)) _ _
      (λ hit.
        touched_frame p fs page _ h (cached p fs page h hit)
          (record { page = refl; valid = refl; dirty = λ d. d; bytes = refl }))
      (λ miss.
        let absent = not_cached (find p page) (length p.frames) miss in
        Ensures-bind (Gives p fs) (IsRead p fs page) (evict p fs) _ (evict-Evicted p fs h) (λ e v.
          Ensures-if (IsRead p fs page) (not (page_valid (on_disk (e.1).1 page) magic)) _ _
            (λ bad. tt) (λ good. loaded page p fs absent e v)))
  where
    loaded :
        (page : PageId) (p : BufferPool) (fs : Files)
        → find p page ≡ length p.frames
        → (e : ℕ × (BufferPool × Files)) → Gives p fs e
        → IsRead p fs page (
          e.0,
          (
            inserted (e.1).0 e.0 (record {
              page = page;
              valid = true;
              dirty = false;
              ref = true;
              pin = 1;
              bytes = on_disk (e.1).1 page;
              before = on_disk (e.1).1 page;
            }),
            fd_for page.file_id (e.1).1,
          ),
        )
    loaded page p fs absent e v =
        let g : PageFrame = record {
          page = page;
          valid = true;
          dirty = false;
          ref = true;
          pin = 1;
          bytes = on_disk (e.1).1 page;
          before = on_disk (e.1).1 page;
        } in
        let gone = v.missing page absent in
        let clean : g.dirty ≡ false → on_disk (e.1).1 page ≡ g.bytes = λ d. refl in
        let b = brought p fs e v g refl gone clean in
        let old : on_disk (e.1).1 page ≡ view p fs page =
          not_there (e.1).0 (e.1).1 page gone ∙ v.views page in
        record {
          pool = fd_for-IsPool page.file_id _ (e.1).1 b.pool;
          views = λ other. b.views other ∙ elim (Bool-cases (same_page page other)) [
            | inl here ↦ rw here (old ∙ ap (view p fs) (same_page_eq page other here))
            | inr there ↦ rw there refl
          ];
          bytes = ap (λ (f : PageFrame). f.bytes) b.frame ∙ old;
        }

-- In such a pool, where an allocation returns, it clears the page, where that was not cached, and
-- changes no other page, and the pool stays such a pool. A page that was cached stays as it was.
pub allocate-IsAllocated :
    (page : PageId) (p : BufferPool) (fs : Files)
    → IsPool p fs
    → Ensures (IsAllocated p fs page) (allocate page p fs)
unfolding allocate
allocate-IsAllocated page p fs h =
    Ensures-if (IsAllocated p fs page) (not (find p page == length p.frames)) _ _
      (λ hit.
        let t =
          touched_frame p fs page _ h (cached p fs page h hit)
            (record { page = refl; valid = refl; dirty = λ d. d; bytes = refl }) in
        let present : (find p page == length p.frames) ≡ false = flip _ hit in
        record { pool = t.pool; views = λ other. t.views other ∙ rw present refl })
      (λ miss.
        let absent = not_cached (find p page) (length p.frames) miss in
        Ensures-bind (Gives p fs) (IsAllocated p fs page) (evict p fs) _ (evict-Evicted p fs h)
          (λ e v. cleared page p fs absent e v))
  where
    flip : (b : Bool) → not b ≡ true → b ≡ false
    flip b e = ground (arith, e)

    cleared :
        (page : PageId) (p : BufferPool) (fs : Files)
        → find p page ≡ length p.frames
        → (e : ℕ × (BufferPool × Files)) → Gives p fs e
        → IsAllocated p fs page (
          e.0,
          (
            inserted (e.1).0 e.0 (record {
              page = page;
              valid = true;
              dirty = true;
              ref = true;
              pin = 1;
              bytes = zero_page;
              before = zero_page;
            }),
            (e.1).1,
          ),
        )
    cleared page p fs absent e v =
        let g : PageFrame = record {
          page = page;
          valid = true;
          dirty = true;
          ref = true;
          pin = 1;
          bytes = zero_page;
          before = zero_page;
        } in
        let b = brought p fs e v g refl (v.missing page absent) (λ d. absurd (cc d)) in
        let missing : (find p page == length p.frames) ≡ true = ground (arith, absent) in
        record { pool = b.pool; views = λ other. b.views other ∙ rw missing refl }

-- A call that only changes a frame's pin keeps the pool and every page.
pub record IsKept (p : BufferPool) (fs : Files) (q : BufferPool) : Type 0 where
  pub pool : IsPool q fs
  pub views : (page : PageId) → view q fs page ≡ view p fs page

frame_inside : (p : BufferPool) (idx : ℕ) → not (has_frame p idx) ≡ false → idx < length p.frames
frame_inside p idx e = low _ (frame_at p idx).valid e
  where
    low : (n : ℕ) (v : Bool) → not (ltb idx n && v) ≡ false → idx < n
    low n v e = ground (arith, e)

similar-IsKept : (p q : BufferPool) (fs : Files) → IsPool p fs → IsSimilar p q → IsKept p fs q
similar-IsKept p q fs h s = record {
  pool = similar-IsPool p q fs s h;
  views = view-similar p q fs s;
}

-- In such a pool, where unpin returns, no page changes, and the pool stays such a pool.
pub unpin-IsKept :
    (idx : ℕ) (p : BufferPool) (fs : Files) → IsPool p fs → Ensures (IsKept p fs) (unpin idx p)
unfolding unpin
unpin-IsKept idx p fs h =
    Ensures-if (IsKept p fs) (not (has_frame p idx)) _ _ (λ bad. tt)
      (λ good. similar-IsKept p _ fs h (
        set_frame-IsSimilar p idx _ (frame_inside p idx good)
          (record { page = refl; valid = refl; dirty = λ d. d; bytes = refl })))
