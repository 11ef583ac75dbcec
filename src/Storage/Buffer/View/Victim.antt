-- ===== src/Storage/Buffer/View/Victim.antt =====
-- storage/buffer_pool.cpp: a victim of evict leaves the pool, and the loop around it.
use my_simple_db.Prelude.{
  ℕ, ◌<◌, ◌≡◌, ◌≢◌, refl, sym, ap, ap₂, ◌∙◌, Bool, true, false, ◌&&◌, [], ◌∷◌, ◌==◌, if◌then◌else◌,
  length, arith, inl, inr, Bool-cases, length-set,
}
use mathlib.Core.Bool.{false≢true}
use my_simple_db.Storage.Files.{Files}
use my_simple_db.Storage.Buffer.{
  PageId, same_page, PageFrame, PageTable, empty_frame, BufferPool, table_find, table_erase, find,
  frame_at, after_victim,
}
use my_simple_db.Storage.Buffer.Evict.{get_or-set_self, get_or-set_ne}
use my_simple_db.Storage.Buffer.View.{
  on_disk, view, IsPool, same_page_eq, same_page_refl, same_page_ne, Written,
}

-- The entry that is erased is missing, and the others stay.
table_find-table_erase :
    (v page : PageId) (missing : ℕ) (table : PageTable)
    → table_find page missing (table_erase v table)
      ≡ (if same_page v page then missing else table_find page missing table)
unfolding table_find table_erase
table_find-table_erase v page missing [] = elim (Bool-cases (same_page v page)) [
  | inl e ↦ rw e refl
  | inr e ↦ rw e refl
]
table_find-table_erase v page missing ((x, i) ∷ table) =
    let ih = table_find-table_erase v page missing table in
    elim (Bool-cases (same_page x v)) [
      | inl here ↦
          let e : same_page x page ≡ same_page v page =
            ap (λ y. same_page y page) (same_page_eq x v here) in
          elim (Bool-cases (same_page v page)) [
            | inl hit ↦ rw (here, hit) (ih ∙ rw hit refl)
            | inr miss ↦ rw (here, miss, e, miss) (ih ∙ rw miss refl)
          ]
      | inr other ↦ elim (Bool-cases (same_page x page)) [
        | inl hit ↦
            let apart : same_page v page ≡ false = same_page_ne v page (λ same. false≢true (
              sym other
              ∙ (ap (same_page x) (same ∙ sym (same_page_eq x page hit)) ∙ same_page_refl x))) in
            rw (other, hit, apart) refl
        | inr miss ↦ rw (other, miss) ih
      ]
    ]

-- What evict leaves: a pool with the same pages, in which the frame that it gives is free.
pub record Evicted (p : BufferPool) (fs : Files) (idx : ℕ) (r : BufferPool × Files) : Type 0 where
  pub pool : IsPool r.0 r.1
  pub views : (page : PageId) → view r.0 r.1 page ≡ view p fs page
  pub size : length (r.0).frames ≡ length p.frames
  pub inside : idx < length p.frames
  pub free : (frame_at r.0 idx).valid ≡ false
  pub missing :
      (page : PageId) → find p page ≡ length p.frames → find r.0 page ≡ length (r.0).frames

module _ (p : BufferPool) (fs : Files) (h : IsPool p fs) (idx : ℕ) (inside : idx < length p.frames)
    (w : PageFrame × Files) (written : Written (frame_at p idx) fs w) where
  abbrev victim : PageFrame
  victim = frame_at p idx

  abbrev q : BufferPool
  q = (after_victim idx p w).0

  abbrev leaves : PageId → Bool
  leaves page = victim.valid && same_page victim.page page

  size : length q.frames ≡ length p.frames
  size = length-set p.frames idx _

  find_after :
      (page : PageId) → find q page ≡ (if leaves page then length p.frames else find p page)
  find_after page =
      ap (λ n. table_find page n q.page_table) size
      ∙ (ap₂
            (λ v x.
              table_find page (length p.frames)
                (if v then table_erase x p.page_table else p.page_table))
            written.valid written.page
          ∙ by_valid victim.valid)
    where
      by_valid :
          (v : Bool)
          → table_find page
              (length p.frames)
              (if v then table_erase victim.page p.page_table else p.page_table)
            ≡ (if v && same_page victim.page page then length p.frames else find p page)
      by_valid true = table_find-table_erase victim.page page (length p.frames) p.page_table
      by_valid false = refl

  stays : (page : PageId) → leaves page ≡ false → victim.valid ≡ true → page ≢ victim.page
  stays page e v same = absurd (
      false≢true (
        sym (apart victim.valid _ e v)
        ∙ (ap (same_page victim.page) same ∙ same_page_refl victim.page)))
    where
      apart : (a b : Bool) → (a && b) ≡ false → a ≡ true → b ≡ false
      apart a b c d = ground (arith, c, d)

  gone : (page : PageId) → leaves page ≡ true → (victim.valid ≡ true) × (victim.page ≡ page)
  gone page e = (ground (arith, e), same_page_eq victim.page page (second victim.valid _ e))
    where
      second : (a b : Bool) → (a && b) ≡ true → b ≡ true
      second a b c = ground (arith, c)

  not_victim :
      (page : PageId) → leaves page ≡ false → find p page < length p.frames → idx ≢ find p page
  not_victim page e low here =
      let old = h.entry page low in
      let v : victim.valid ≡ true = ap (λ m. (frame_at p m).valid) here ∙ old.0 in
      let same : victim.page ≡ page = ap (λ m. (frame_at p m).page) here ∙ old.1 in
      stays page e v (sym same)

  frame_ne : (m : ℕ) → idx ≢ m → frame_at q m ≡ frame_at p m
  frame_ne m apart = get_or-set_ne p.frames idx m _ empty_frame apart

  frame_self : (frame_at q idx).valid ≡ false
  frame_self = ap (λ (f : PageFrame). f.valid) (get_or-set_self p.frames idx _ empty_frame inside)

  view_after : (page : PageId) → view q w.1 page ≡ view p fs page
  view_after page = elim (Bool-cases (leaves page)) [
    | inl e ↦
        let out = gone page e in
        let now : find q page ≡ length q.frames = find_after page ∙ (rw e refl ∙ sym size) in
        let then_ : find p page ≡ idx = ap (find p) (sym out.1) ∙ h.listed idx inside out.0 in
        let absent : (find q page == length q.frames) ≡ true = ground (arith, now) in
        let present : (find p page == length p.frames) ≡ false = ground (arith, then_, inside) in
        rw (absent, present, then_) (sym (ap (on_disk w.1) out.1) ∙ written.stored out.0)
    | inr e ↦
        let now : find q page ≡ find p page = find_after page ∙ rw e refl in
        ap₂ (λ m n. if m == n then on_disk w.1 page else (frame_at q m).bytes) now size
        ∙ elim (Bool-cases (find p page == length p.frames)) [
          | inl absent ↦ rw absent (written.other page (stays page e))
          | inr present ↦
              let low : find p page < length p.frames = ground (arith, present, h.bounded page) in
              rw present (ap (λ (f : PageFrame). f.bytes) (frame_ne _ (not_victim page e low)))
        ]
  ]

  -- A valid frame other than the victim has another page.
  other_page :
      (m : ℕ)
      → m < length p.frames
      → (frame_at p m).valid ≡ true
      → idx ≢ m
      → leaves (frame_at p m).page ≡ false
  other_page m low v apart = elim (Bool-cases (leaves (frame_at p m).page)) [
    | inr e ↦ e
    | inl e ↦
        let out = gone (frame_at p m).page e in
        absurd (apart (sym (h.listed idx inside out.0) ∙ (ap (find p) out.1 ∙ h.listed m low v)))
  ]

  other_frame : (m : ℕ) → (frame_at q m).valid ≡ true → idx ≢ m
  other_frame m v here =
      absurd (false≢true (sym frame_self ∙ (ap (λ k. (frame_at q k).valid) here ∙ v)))

  after_victim-IsPool : IsPool q w.1
  after_victim-IsPool = record {
    bounded = λ page. elim (Bool-cases (leaves page)) [
      | inl e ↦
          let now : find q page ≡ length p.frames = find_after page ∙ rw e refl in
          omega (arith, now, size)
      | inr e ↦
          let now : find q page ≡ find p page = find_after page ∙ rw e refl in
          omega (arith, now, size, h.bounded page)
    ];
    entry = λ page low. elim (Bool-cases (leaves page)) [
      | inl e ↦
          let now : find q page ≡ length p.frames = find_after page ∙ rw e refl in
          absurd (omega (arith, now, size, low))
      | inr e ↦
          let now : find q page ≡ find p page = find_after page ∙ rw e refl in
          let inside_p : find p page < length p.frames = omega (arith, now, size, low) in
          let old = h.entry page inside_p in
          let same = ap (frame_at q) now ∙ frame_ne (find p page) (not_victim page e inside_p) in
          (
            ap (λ (f : PageFrame). f.valid) same ∙ old.0,
            ap (λ (f : PageFrame). f.page) same ∙ old.1,
          )
    ];
    listed = λ m low v.
        let apart = other_frame m v in
        let same = frame_ne m apart in
        let low_p : m < length p.frames = omega (arith, low, size) in
        let v_p = sym (ap (λ (f : PageFrame). f.valid) same) ∙ v in
        let e = other_page m low_p v_p apart in
        ap (λ (f : PageFrame). find q f.page) same
        ∙ (find_after (frame_at p m).page ∙ (rw e refl ∙ h.listed m low_p v_p));
    clean = λ m low v d.
        let apart = other_frame m v in
        let same = frame_ne m apart in
        let low_p : m < length p.frames = omega (arith, low, size) in
        let v_p = sym (ap (λ (f : PageFrame). f.valid) same) ∙ v in
        let d_p = sym (ap (λ (f : PageFrame). f.dirty) same) ∙ d in
        let e = other_page m low_p v_p apart in
        ap (λ (f : PageFrame). on_disk w.1 f.page) same
        ∙ (written.other (frame_at p m).page (stays (frame_at p m).page e)
            ∙ (h.clean m low_p v_p d_p ∙ sym (ap (λ (f : PageFrame). f.bytes) same)));
  }

  pub after_victim-Evicted : Evicted p fs idx (after_victim idx p w)
  after_victim-Evicted = record {
    pool = after_victim-IsPool;
    views = view_after;
    size = size;
    inside = inside;
    free = frame_self;
    missing = λ page absent. find_after page ∙ (gone_or_absent (leaves page) absent ∙ sym size);
  }
    where
      gone_or_absent : (b : Bool) {m n : ℕ} → m ≡ n → (if b then n else m) ≡ n
      gone_or_absent true e = refl
      gone_or_absent false e = e
