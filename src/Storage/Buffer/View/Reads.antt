-- ===== src/Storage/Buffer/View/Reads.antt =====
-- storage/buffer_pool.cpp: what evict does to the pages that the cache gives, and a page that comes
-- into the pool.
use my_simple_db.Prelude.{
  ℕ, zero, suc, ◌+◌, ◌*◌, ◌%◌, ◌<◌, ◌≡◌, ◌≢◌, refl, sym, ap, ap₂, ◌∙◌, subst, Bool, true, false,
  ◌||◌, ◌∷◌, ltb, ◌==◌, if◌then◌else◌, length, set, arith, inl, inr, Bool-cases, length-set, ==_iff,
}
use native.Mathlib.Nat.{mod-lt}
use mathlib.Core.Bool.{false≢true}
use my_simple_db.Common.{Result, ok, err, exit, Ensures, Ensures-if, Ensures-bind}
use my_simple_db.Storage.Files.{Files}
use my_simple_db.Storage.Buffer.{
  PageId, same_page, PageFrame, empty_frame, BufferPool, table_find, find, frame_at, write_back,
  take_victim, clear_ref, has_chance, evict_loop, evict,
}
use my_simple_db.Storage.Buffer.Evict.{get_or-set_self, get_or-set_ne}
use my_simple_db.Storage.Buffer.View.{
  on_disk, view, IsPool, same_page_eq, same_page_refl, Written, write_back-Written, IsSimilar,
  similar_find, view-similar, similar-IsPool, set_frame-IsSimilar,
}
use my_simple_db.Storage.Buffer.View.Victim.{Evicted, after_victim-Evicted}

pub Ensures-weaken {ℓ κ μ} :
    {A : Type ℓ} (P : A → Type κ) (Q : A → Type μ) (r : Result A)
    → ((a : A) → P a → Q a)
    → Ensures P r
    → Ensures Q r
Ensures-weaken P Q (ok a) f h = f a h
Ensures-weaken P Q (err e) f h = tt
Ensures-weaken P Q exit f h = tt

abbrev pub Gives : BufferPool → Files → ℕ × (BufferPool × Files) → Type 0
Gives p fs x = Evicted p fs x.0 x.1

take_victim-Evicted :
    (idx : ℕ) (p : BufferPool) (fs : Files)
    → idx < length p.frames
    → IsPool p fs
    → Ensures (Gives p fs) (take_victim idx p fs)
unfolding take_victim
take_victim-Evicted idx p fs inside h =
    Ensures-bind (Written (frame_at p idx) fs) (Gives p fs) (write_back (frame_at p idx) fs) _
      (write_back-Written (frame_at p idx) fs (h.clean idx inside))
      (λ w written. after_victim-Evicted p fs h idx inside w written)

similar-Evicted :
    (p q : BufferPool) (fs : Files) (x : ℕ × (BufferPool × Files))
    → IsSimilar p q
    → Gives q fs x
    → Gives p fs x
similar-Evicted p q fs x s e = record {
  pool = e.pool;
  views = λ page. e.views page ∙ view-similar p q fs s page;
  size = e.size ∙ s.size;
  inside = subst (λ n. x.0 < n) s.size e.inside;
  free = e.free;
  missing = λ page absent. e.missing page (similar_find p q s page ∙ (absent ∙ sym s.size));
}

clear_ref-IsSimilar :
    (p : BufferPool) (idx : ℕ) → idx < length p.frames → IsSimilar p (clear_ref idx p)
clear_ref-IsSimilar p idx inside =
    set_frame-IsSimilar p idx (record (frame_at p idx) { ref = false }) inside
      (record { page = refl; valid = refl; dirty = λ d. d; bytes = refl })

same_pool-IsSimilar : (p : BufferPool) → IsSimilar p p
same_pool-IsSimilar p = record {
  size = refl;
  table = refl;
  core = λ m. record { page = refl; valid = refl; dirty = λ d. d; bytes = refl };
}

round-IsSimilar :
    (b : Bool) (p : BufferPool) (idx : ℕ)
    → idx < length p.frames
    → IsSimilar p (if b then p else clear_ref idx p)
round-IsSimilar true p idx inside = same_pool-IsSimilar p
round-IsSimilar false p idx inside = clear_ref-IsSimilar p idx inside

evict_loop-Evicted :
    (k i : ℕ) (p : BufferPool) (fs : Files)
    → 0 < length p.frames
    → IsPool p fs
    → Ensures (Gives p fs) (evict_loop k i p fs)
unfolding evict_loop
evict_loop-Evicted zero i p fs some_frame h = tt
evict_loop-Evicted (suc k) i p fs some_frame h =
    let idx = (p.clock_hand + i) % length p.frames in
    let inside : idx < length p.frames = mod-lt (p.clock_hand + i) some_frame in
    let pinned = ltb 0 (frame_at p idx).pin in
    let next = if pinned then p else clear_ref idx p in
    let s = round-IsSimilar pinned p idx inside in
    Ensures-if (Gives p fs) (pinned || has_chance (frame_at p idx)) _ _
      (λ over.
        Ensures-weaken (Gives next fs) (Gives p fs) (evict_loop k (i + 1) next fs)
          (λ x. similar-Evicted p next fs x s)
          (evict_loop-Evicted k (i + 1) next fs (subst (λ n. 0 < n) (sym s.size) some_frame)
            (similar-IsPool p next fs s h)))
      (λ stop. take_victim-Evicted idx p fs inside h)

pub evict-Evicted : (p : BufferPool) (fs : Files) → IsPool p fs → Ensures (Gives p fs) (evict p fs)
unfolding evict evict_loop
evict-Evicted p fs h = elim (Bool-cases (length p.frames == 0)) [
  | inl none_there ↦
      let e : 2 * length p.frames ≡ 0 = ground (arith, none_there) in
      subst (λ k. Ensures (Gives p fs) (evict_loop k 0 p fs)) (sym e) tt
  | inr some_there ↦ evict_loop-Evicted _ 0 p fs (ground (arith, some_there)) h
]

-- A page that is not cached comes into a free frame.
abbrev pub inserted : BufferPool → ℕ → PageFrame → BufferPool
inserted r idx g = record r {
  frames = set r.frames idx g;
  page_table = (g.page, idx) ∷ r.page_table;
}

module _ (r : BufferPool) (fs : Files) (h : IsPool r fs) (idx : ℕ) (inside : idx < length r.frames)
    (free : (frame_at r idx).valid ≡ false) (g : PageFrame) (good : g.valid ≡ true)
    (absent : find r g.page ≡ length r.frames)
    (clean : g.dirty ≡ false → on_disk fs g.page ≡ g.bytes) where
  abbrev q : BufferPool
  q = inserted r idx g

  size : length q.frames ≡ length r.frames
  size = length-set r.frames idx g

  find_inserted :
      (page : PageId) → find q page ≡ (if same_page g.page page then idx else find r page)
  unfolding table_find
  find_inserted page =
      ap (λ n. if same_page g.page page then idx else table_find page n r.page_table) size

  frame_self : frame_at q idx ≡ g
  frame_self = get_or-set_self r.frames idx g empty_frame inside

  frame_ne : (m : ℕ) → idx ≢ m → frame_at q m ≡ frame_at r m
  frame_ne m apart = get_or-set_ne r.frames idx m g empty_frame apart

  in_use : (m : ℕ) → (frame_at r m).valid ≡ true → idx ≢ m
  in_use m v here = absurd (false≢true (sym free ∙ (ap (λ k. (frame_at r k).valid) here ∙ v)))

  pub view_inserted :
      (page : PageId) → view q fs page ≡ (if same_page g.page page then g.bytes else view r fs page)
  view_inserted page = elim (Bool-cases (same_page g.page page)) [
    | inl e ↦
        let now : find q page ≡ idx = find_inserted page ∙ rw e refl in
        let present : (find q page == length q.frames) ≡ false =
          ground (arith, now, size, inside) in
        rw (present, e)
          (ap (λ m. (frame_at q m).bytes) now ∙ ap (λ (f : PageFrame). f.bytes) frame_self)
    | inr e ↦
        let now : find q page ≡ find r page = find_inserted page ∙ rw e refl in
        ap₂ (λ m n. if m == n then on_disk fs page else (frame_at q m).bytes) now size
        ∙ (kept page ∙ rw e refl)
  ]
    where
      kept :
          (page : PageId)
          → (if find r page == length r.frames
              then on_disk fs page
              else (frame_at q (find r page)).bytes)
            ≡ view r fs page
      kept page = elim (Bool-cases (find r page == length r.frames)) [
        | inl gone ↦ rw gone refl
        | inr there ↦
            let low : find r page < length r.frames = ground (arith, there, h.bounded page) in
            rw there (ap (λ (f : PageFrame). f.bytes) (frame_ne _ (in_use _ (h.entry page low).0)))
      ]

  pub inserted-IsPool : IsPool q fs
  inserted-IsPool = record {
    bounded = λ page. elim (Bool-cases (same_page g.page page)) [
      | inl e ↦
          let now : find q page ≡ idx = find_inserted page ∙ rw e refl in
          omega (arith, now, size, inside)
      | inr e ↦
          let now : find q page ≡ find r page = find_inserted page ∙ rw e refl in
          omega (arith, now, size, h.bounded page)
    ];
    entry = λ page low. elim (Bool-cases (same_page g.page page)) [
      | inl e ↦
          let now : find q page ≡ idx = find_inserted page ∙ rw e refl in
          let same = ap (frame_at q) now ∙ frame_self in
          (
            ap (λ (f : PageFrame). f.valid) same ∙ good,
            ap (λ (f : PageFrame). f.page) same ∙ same_page_eq g.page page e,
          )
      | inr e ↦
          let now : find q page ≡ find r page = find_inserted page ∙ rw e refl in
          let old = h.entry page (omega (arith, now, size, low)) in
          let same = ap (frame_at q) now ∙ frame_ne (find r page) (in_use _ old.0) in
          (
            ap (λ (f : PageFrame). f.valid) same ∙ old.0,
            ap (λ (f : PageFrame). f.page) same ∙ old.1,
          )
    ];
    listed = λ m low v. elim (Bool-cases (idx == m)) [
      | inl e ↦
          let here : idx ≡ m = (==_iff idx m).0 e in
          let page : (frame_at q m).page ≡ g.page =
            ap (λ k. (frame_at q k).page) (sym here) ∙ ap (λ (f : PageFrame). f.page) frame_self in
          ap (find q) page ∙ (find_inserted g.page ∙ (rw (same_page_refl g.page) here))
      | inr e ↦
          let same = frame_ne m (differ m e) in
          let low_r : m < length r.frames = omega (arith, size, low) in
          let old = h.listed m low_r (sym (ap (λ (f : PageFrame). f.valid) same) ∙ v) in
          ap (λ (f : PageFrame). find q f.page) same
          ∙ (find_inserted (frame_at r m).page ∙ elsewhere (frame_at r m).page m low_r old)
    ];
    clean = λ m low v d. elim (Bool-cases (idx == m)) [
      | inl e ↦
          let same : frame_at q m ≡ g = ap (frame_at q) (sym ((==_iff idx m).0 e)) ∙ frame_self in
          subst (λ (f : PageFrame). on_disk fs f.page ≡ f.bytes) (sym same)
            (clean (sym (ap (λ (f : PageFrame). f.dirty) same) ∙ d))
      | inr e ↦
          let same = frame_ne m (differ m e) in
          subst (λ (f : PageFrame). on_disk fs f.page ≡ f.bytes) (sym same)
            (h.clean m (omega (arith, size, low)) (sym (ap (λ (f : PageFrame). f.valid) same) ∙ v)
              (sym (ap (λ (f : PageFrame). f.dirty) same) ∙ d))
    ];
  }
    where
      differ : (m : ℕ) → (idx == m) ≡ false → idx ≢ m
      differ m e here = absurd (ground (arith, e, here))

      elsewhere :
          (page : PageId) (m : ℕ)
          → m < length r.frames
          → find r page ≡ m
          → (if same_page g.page page then idx else find r page) ≡ m
      elsewhere page m low old = elim (Bool-cases (same_page g.page page)) [
        | inr e ↦ rw e old
        | inl e ↦
            let gone : find r page ≡ length r.frames =
              ap (find r) (sym (same_page_eq g.page page e)) ∙ absent in
            absurd (omega (arith, gone, old, low))
      ]
