-- ===== src/Storage/Buffer/View.antt =====
-- storage/buffer_pool.cpp: the pages as the cache gives them, and what write_back and evict do to
-- them.
pub mod Victim
pub mod Reads
pub mod Coherent
pub mod Checkpoint
pub mod Returns
pub mod Dirty
pub mod Atomic
use my_simple_db.Prelude.{
  ℕ, zero, suc, ◌+◌, ◌*◌, ◌%◌, ◌<◌, ◌≤◌, ◌≡◌, ◌≢◌, refl, sym, ap, ap₂, ◌∙◌, subst, Bool, true,
  false, not, ◌&&◌, ◌||◌, List, [], ◌∷◌, ltb, ◌==◌, if◌then◌else◌, length, get_or, set, arith, inl,
  inr, Bool-cases, length-set, ==_iff, ==_refl,
}
use native.Mathlib.Nat.{mod-lt}
use mathlib.Core.Bool.{false≢true}
use my_simple_db.Common.{ErrCode, Result, ok, err, exit, ◌>>=◌, Ensures, Ensures-if, Ensures-bind}
use my_simple_db.Storage.Files.{Files, write_page}
use my_simple_db.Storage.Buffer.{
  PageId, same_page, PageFrame, PageTable, empty_frame, BufferPool, table_find, table_erase, find,
  frame_at, set_frame, same_bytes, write_back, take_victim, after_victim, clear_ref, has_chance,
  evict_loop, evict,
}
use my_simple_db.Storage.Buffer.Evict.{get_or-set_self, get_or-set_ne}

-- The abstract store: a page is what its frame holds, or else the file.
abbrev pub on_disk : Files → PageId → List ℕ
on_disk fs page = fs.page page.file_id page.page_no

abbrev pub view : BufferPool → Files → PageId → List ℕ
view p fs page =
    if find p page == length p.frames then on_disk fs page else (frame_at p (find p page)).bytes

-- The page table has exactly the valid frames, and a frame that is not dirty has the page of the file.
pub record IsPool (p : BufferPool) (fs : Files) : Type 0 where
  pub bounded : (page : PageId) → find p page ≤ length p.frames
  pub entry :
      (page : PageId)
      → find p page < length p.frames
      → ((frame_at p (find p page)).valid ≡ true) × ((frame_at p (find p page)).page ≡ page)
  pub listed :
      (m : ℕ) → m < length p.frames → (frame_at p m).valid ≡ true → find p (frame_at p m).page ≡ m
  pub clean :
      (m : ℕ)
      → m < length p.frames
      → (frame_at p m).valid ≡ true
      → (frame_at p m).dirty ≡ false
      → on_disk fs (frame_at p m).page ≡ (frame_at p m).bytes

abbrev page_id : ℕ → ℕ → PageId
page_id f n = record { file_id = f; page_no = n }

pub same_page_eq : (a b : PageId) → same_page a b ≡ true → a ≡ b
same_page_eq a b e = ap₂ page_id (ground (arith, e)) (ground (arith, e))

pub same_page_refl : (a : PageId) → same_page a a ≡ true
same_page_refl a = ground arith

pub same_page_ne : (a b : PageId) → a ≢ b → same_page a b ≡ false
same_page_ne a b h = elim (Bool-cases (same_page a b)) [
  | inl e ↦ absurd (h (same_page_eq a b e))
  | inr e ↦ e
]

-- What write_back leaves of a frame and of the files.
pub record Written (f : PageFrame) (fs : Files) (w : PageFrame × Files) : Type 0 where
  pub page : (w.0).page ≡ f.page
  pub valid : (w.0).valid ≡ f.valid
  pub bytes : (w.0).bytes ≡ f.bytes
  pub stored : f.valid ≡ true → on_disk w.1 f.page ≡ f.bytes
  pub other : (p : PageId) → (f.valid ≡ true → p ≢ f.page) → on_disk w.1 p ≡ on_disk fs p

write_page_self :
    (a : PageId) (bytes : List ℕ) (fs : Files)
    → on_disk (write_page a.file_id a.page_no bytes fs) a ≡ bytes
unfolding write_page
write_page_self a bytes fs = rw (same_page_refl a) refl

write_page_ne :
    (a b : PageId) (bytes : List ℕ) (fs : Files)
    → b ≢ a
    → on_disk (write_page a.file_id a.page_no bytes fs) b ≡ on_disk fs b
unfolding write_page
write_page_ne a b bytes fs h = rw (same_page_ne b a h) refl

pub write_back-Written :
    (f : PageFrame) (fs : Files)
    → (f.valid ≡ true → f.dirty ≡ false → on_disk fs f.page ≡ f.bytes)
    → Ensures (Written f fs) (write_back f fs)
unfolding write_back
write_back-Written f fs clean =
    Ensures-if (Written f fs) (not f.valid || not f.dirty) _ _
      (λ skip. record {
        page = refl;
        valid = refl;
        bytes = refl;
        stored = λ v. clean v (not_dirty f.valid f.dirty skip v);
        other = λ p h. refl;
      })
      (λ due.
        Ensures-if (Written f fs) (not (same_bytes f.before f.bytes)) _ _ (λ bad. tt)
          (λ good. record {
            page = refl;
            valid = refl;
            bytes = refl;
            stored = λ v. write_page_self f.page f.bytes fs;
            other = λ p h. write_page_ne f.page p f.bytes fs (h (is_valid f.valid f.dirty due));
          }))
  where
    not_dirty : (v d : Bool) → (not v || not d) ≡ true → v ≡ true → d ≡ false
    not_dirty v d e h = ground (arith, e, h)

    is_valid : (v d : Bool) → (not v || not d) ≡ false → v ≡ true
    is_valid v d e = ground (arith, e)

-- ==================== Changes that keep the pages ====================

pub record IsSameCore (g f : PageFrame) : Type 0 where
  pub page : g.page ≡ f.page
  pub valid : g.valid ≡ f.valid
  pub dirty : g.dirty ≡ false → f.dirty ≡ false
  pub bytes : g.bytes ≡ f.bytes

pub record IsSimilar (p q : BufferPool) : Type 0 where
  pub size : length q.frames ≡ length p.frames
  pub table : q.page_table ≡ p.page_table
  pub core : (m : ℕ) → IsSameCore (frame_at q m) (frame_at p m)

pub similar_find : (p q : BufferPool) → IsSimilar p q → (page : PageId) → find q page ≡ find p page
similar_find p q s page = ap₂ (λ n t. table_find page n t) s.size s.table

pub view-similar :
    (p q : BufferPool) (fs : Files)
    → IsSimilar p q
    → (page : PageId) → view q fs page ≡ view p fs page
view-similar p q fs s page =
    let e = similar_find p q s page in
    ap₂ (λ m n. if m == n then on_disk fs page else (frame_at q m).bytes) e s.size
    ∙ ap (λ b. if find p page == length p.frames then on_disk fs page else b)
        (s.core (find p page)).bytes

pub similar-IsPool : (p q : BufferPool) (fs : Files) → IsSimilar p q → IsPool p fs → IsPool q fs
similar-IsPool p q fs s h = record {
  bounded = λ page.
      subst (λ m. m ≤ length q.frames) (sym (similar_find p q s page))
        (subst (λ n. find p page ≤ n) (sym s.size) (h.bounded page));
  entry = λ page inside.
      let e = similar_find p q s page in
      let old = h.entry page (omega (arith, e, s.size, inside)) in
      (
        ap (λ m. (frame_at q m).valid) e ∙ ((s.core (find p page)).valid ∙ old.0),
        ap (λ m. (frame_at q m).page) e ∙ ((s.core (find p page)).page ∙ old.1),
      );
  listed = λ m inside v.
      similar_find p q s (frame_at q m).page
      ∙ (ap (find p) (s.core m).page
          ∙ h.listed m (omega (arith, s.size, inside)) (sym (s.core m).valid ∙ v));
  clean = λ m inside v d.
      ap (on_disk fs) (s.core m).page
      ∙ (h.clean m (omega (arith, s.size, inside)) (sym (s.core m).valid ∙ v) ((s.core m).dirty d)
          ∙ sym (s.core m).bytes);
}

-- A change of a frame's pin or second chance, or of its log.
pub set_frame-IsSimilar :
    (p : BufferPool) (idx : ℕ) (g : PageFrame)
    → idx < length p.frames
    → IsSameCore g (frame_at p idx)
    → IsSimilar p (set_frame p idx g)
set_frame-IsSimilar p idx g inside same = record {
  size = length-set p.frames idx g;
  table = refl;
  core = λ m. elim (Bool-cases (idx == m)) [
    | inl e ↦
        let here : idx ≡ m = (==_iff idx m).0 e in
        subst (λ k. IsSameCore (frame_at (set_frame p idx g) k) (frame_at p k)) here
          (subst (λ f. IsSameCore f (frame_at p idx))
            (sym (get_or-set_self p.frames idx g empty_frame inside)) same)
    | inr e ↦
        subst (λ f. IsSameCore f (frame_at p m))
          (sym
            (get_or-set_ne p.frames idx m g empty_frame (λ here. absurd (ground (arith, e, here)))))
          (record { page = refl; valid = refl; dirty = λ d. d; bytes = refl })
  ];
}
