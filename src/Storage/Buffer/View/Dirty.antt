-- ===== src/Storage/Buffer/View/Dirty.antt =====
-- storage/buffer_pool.cpp: a page that is changed in place, through the pointer of its frame, and
-- then marked dirty.
use my_simple_db.Prelude.{
  ℕ, ◌<◌, ◌≡◌, ◌≢◌, refl, sym, ap, ap₂, ◌∙◌, subst, true, false, List, [], ◌∷◌, ◌==◌, if◌then◌else◌,
  length, set, arith, inl, inr, Bool-cases, length-set, ==_iff, ==_refl, some,
}
use mathlib.Core.Bool.{false≢true}
use my_simple_db.Common.{ok}
use my_simple_db.Storage.Wal.Crash.{append_all}
use my_simple_db.Storage.Files.{Files}
use my_simple_db.Storage.Buffer.{
  PageId, PageFrame, TxnContext, BufferPool, same_page, same_bytes, empty_frame, find, table_find,
  frame_at, set_frame, has_frame,
}
use my_simple_db.Storage.Buffer.Diff.{words, Logging, mark_dirty, log_page_diff}
use my_simple_db.Storage.Buffer.Scan.{intervals, diff_loop_lem}
use my_simple_db.Storage.Buffer.Log.Entries.{entries_of, log_intervals-append_all}
use my_simple_db.Storage.Buffer.Evict.{
  get_or-set_self, get_or-set_ne, IsLoggedFrame, AllLoggedFrames,
}
use my_simple_db.Storage.Buffer.View.{view, on_disk, IsPool, same_page_eq, same_page_refl}

same_bytes_refl : (s : List ℕ) → same_bytes s s ≡ true
unfolding same_bytes
same_bytes_refl [] = refl
same_bytes_refl (b ∷ s) = rw (==_refl b, same_bytes_refl s) refl

-- The bytes of the frame are overwritten in place.
abbrev pub edited_frame : BufferPool → ℕ → List ℕ → PageFrame
edited_frame p idx new = record (frame_at p idx) { bytes = new }

abbrev pub edited : BufferPool → ℕ → List ℕ → BufferPool
edited p idx new = set_frame p idx (edited_frame p idx new)

-- What such a change and the call of mark_dirty together do to a pool: it is in order, no frame has a
-- change that is not in the log, the page is the new one, the frame is dirty, and the log has one more
-- patch for each interval of words in which the new page differs from the frame's baseline.
pub record IsEdited (p : BufferPool) (fs : Files) (idx : ℕ) (new : List ℕ) (t : TxnContext)
    (q : BufferPool) : Type 0 where
  pub pool : IsPool q fs
  pub logged : AllLoggedFrames q
  pub dirty : (frame_at q idx).dirty ≡ true
  pub views :
      (other : PageId)
      → view q fs other ≡ (if same_page (frame_at p idx).page other then new else view p fs other)
  pub log :
      q.wal
      ≡ append_all
          (entries_of
            (edited_frame p idx new)
            t.txn_id
            (intervals words (edited_frame p idx new) 0))
          p.wal

module _ (idx : ℕ) (new : List ℕ) (p : BufferPool) (fs : Files) (t : TxnContext)
    (pool : IsPool p fs) (logged : AllLoggedFrames p) (here : has_frame p idx ≡ true)
    (active : p.txn ≡ some t) where
  abbrev f : PageFrame
  f = frame_at (edited p idx new) idx

  abbrev marked : BufferPool
  marked = record (edited p idx new) {
    frames = set (edited p idx new).frames idx (record f { before = f.bytes; dirty = true });
    wal = ((log_page_diff f (p.wal, t)).1).0;
    txn = some ((log_page_diff f (p.wal, t)).1).1;
  }

  inside : idx < length p.frames
  inside = ground (arith, here)

  valid_here : (frame_at p idx).valid ≡ true
  valid_here = ground (arith, here)

  size : length marked.frames ≡ length p.frames
  size = length-set _ idx _ ∙ length-set p.frames idx _

  f_lem : f ≡ edited_frame p idx new
  f_lem = get_or-set_self p.frames idx _ empty_frame inside

  abbrev result : PageFrame
  result = record (edited_frame p idx new) { before = new; dirty = true }

  at_idx : frame_at marked idx ≡ result
  at_idx =
      get_or-set_self (edited p idx new).frames idx _ empty_frame
        (subst (λ n. idx < n) (sym (length-set p.frames idx _)) inside)
      ∙ ap (λ (g : PageFrame). record g { before = g.bytes; dirty = true }) f_lem

  elsewhere : (m : ℕ) → idx ≢ m → frame_at marked m ≡ frame_at p m
  elsewhere m ne =
      get_or-set_ne (edited p idx new).frames idx m _ empty_frame ne
      ∙ get_or-set_ne p.frames idx m _ empty_frame ne

  -- What holds of the frame that was marked, and of the others as they were.
  each :
      (P : ℕ → PageFrame → Type 0)
      → P idx result
      → ((m : ℕ) → P m (frame_at p m))
      → (m : ℕ) → P m (frame_at marked m)
  each P there others m = elim (Bool-cases (idx == m)) [
    | inl e ↦
        subst (λ k. P k (frame_at marked k)) ((==_iff idx m).0 e) (subst (P idx) (sym at_idx) there)
    | inr e ↦ subst (P m) (sym (elsewhere m (λ same. absurd (ground (arith, e, same))))) (others m)
  ]

  find_lem : (page : PageId) → find marked page ≡ find p page
  find_lem page = ap (λ n. table_find page n p.page_table) size

  abbrev Has : PageId → ℕ → PageFrame → Type 0
  Has page m g = m ≡ find p page → (g.valid ≡ true) × (g.page ≡ page)

  marked-IsPool : IsPool marked fs
  marked-IsPool = record {
    bounded = λ page. omega (arith, find_lem page, size, pool.bounded page);
    entry = λ page low.
        each (Has page) (entry_of_pool page low idx) (entry_of_pool page low) (find marked page)
          (find_lem page);
    listed = λ m low v.
        find_lem (frame_at marked m).page
        ∙ each (λ m g. m < length p.frames → g.valid ≡ true → find p g.page ≡ m) (pool.listed idx)
            pool.listed m (omega (arith, size, low)) v;
    clean = λ m low.
        each
          (λ m g.
            m < length p.frames → g.valid ≡ true → g.dirty ≡ false → on_disk fs g.page ≡ g.bytes)
          (λ l v d. absurd (cc d)) pool.clean m (omega (arith, size, low));
  }
    where
      entry_of_pool :
          (page : PageId)
          → find marked page < length marked.frames
          → (m : ℕ) → Has page m (frame_at p m)
      entry_of_pool page low m e =
          subst (λ k. ((frame_at p k).valid ≡ true) × ((frame_at p k).page ≡ page)) (sym e)
            (pool.entry page (omega (arith, find_lem page, size, low)))

  same_views :
      (other : PageId)
      → view marked fs other
        ≡ (if same_page (frame_at p idx).page other then new else view p fs other)
  same_views other = elim (Bool-cases (same_page (frame_at p idx).page other)) [
    | inl e ↦
        let at : find p other ≡ idx =
          subst (λ a. find p a ≡ idx) (same_page_eq _ other e)
            (pool.listed idx inside valid_here) in
        let place : find marked other ≡ idx = find_lem other ∙ at in
        let present : (find marked other == length marked.frames) ≡ false =
          ground (arith, place, size, inside) in
        rw (e, present)
          (ap (λ m. (frame_at marked m).bytes) place ∙ ap (λ (g : PageFrame). g.bytes) at_idx)
    | inr e ↦ rw e (
        ap₂ (λ m n. if m == n then on_disk fs other else (frame_at marked m).bytes) (find_lem other)
          size
        ∙ cached_as_before other e)
  ]
    where
      not_idx :
          (other : PageId)
          → same_page (frame_at p idx).page other ≡ false
          → (find p other == length p.frames) ≡ false
          → idx ≢ find p other
      not_idx other e present same =
          let low : find p other < length p.frames = ground (arith, present, pool.bounded other) in
          let page : (frame_at p idx).page ≡ other =
            ap (λ m. (frame_at p m).page) same ∙ (pool.entry other low).1 in
          false≢true (sym e ∙ (ap (λ a. same_page a other) page ∙ same_page_refl other))

      cached_as_before :
          (other : PageId)
          → same_page (frame_at p idx).page other ≡ false
          → (if find p other == length p.frames
              then on_disk fs other
              else (frame_at marked (find p other)).bytes)
            ≡ view p fs other
      cached_as_before other e = elim (Bool-cases (find p other == length p.frames)) [
        | inl out ↦ rw out refl
        | inr present ↦
            rw present
              (ap (λ (g : PageFrame). g.bytes) (elsewhere (find p other) (not_idx other e present)))
      ]

  marked_log :
      marked.wal
      ≡ append_all
          (entries_of
            (edited_frame p idx new)
            t.txn_id
            (intervals words (edited_frame p idx new) 0))
          p.wal
  unfolding log_page_diff
  marked_log =
      ap (λ (s : Logging). s.0) (diff_loop_lem words f 0 (p.wal, t))
      ∙ (log_intervals-append_all f (intervals words f 0) (p.wal, t)
          ∙ ap (λ g. append_all (entries_of g t.txn_id (intervals words g 0)) p.wal) f_lem)

  marked_lem : mark_dirty idx (edited p idx new) ≡ ok marked
  unfolding mark_dirty log_page_diff
  marked_lem = rw (still_here, active) refl
    where
      still_here : has_frame (edited p idx new) idx ≡ true
      still_here =
          let e : (frame_at (edited p idx new) idx).valid ≡ true =
            ap (λ (g : PageFrame). g.valid) f_lem ∙ valid_here in
          let low : idx < length (edited p idx new).frames =
            subst (λ n. idx < n) (sym (length-set p.frames idx _)) inside in
          rw e (ground (arith, low))

  -- Take a pool in which the page table has exactly the valid frames, each frame that is not dirty has
  -- the page of the file, and no dirty frame has a change that is not in the log. Where a transaction is
  -- active and the bytes of a valid frame are overwritten in place, mark_dirty on the frame returns, and
  -- the pool is such a pool again. The page is the new one, no other page changes, the frame is dirty,
  -- and the log is the old one with a patch appended for each interval of words in which the new bytes
  -- differ from the frame's baseline.
  pub mark_dirty-ok :
      (q : BufferPool) × (mark_dirty idx (edited p idx new) ≡ ok q) × IsEdited p fs idx new t q
  mark_dirty-ok = (
    marked,
    marked_lem,
    record {
      pool = marked-IsPool;
      logged = each (λ m g. IsLoggedFrame g) (λ e. same_bytes_refl new) logged;
      dirty = ap (λ (g : PageFrame). g.dirty) at_idx;
      views = same_views;
      log = marked_log;
    },
  )
