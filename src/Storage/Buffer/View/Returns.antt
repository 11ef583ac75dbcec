-- ===== src/Storage/Buffer/View/Returns.antt =====
-- storage/buffer_pool.cpp: when read and flush_all return.
use my_simple_db.Prelude.{
  ℕ, ◌<◌, ◌≡◌, refl, sym, ap, ◌∙◌, Bool, true, false, List, [], ◌∷◌, ◌==◌, length, arith, inl, inr,
  Bool-cases, zero, suc, get_or,
}
use my_simple_db.Common.{Result, ok, exit, err, ◌>>=◌, Ensures-ok}
use my_simple_db.Storage.Files.{Files, read_page}
use my_simple_db.Storage.Page.{page_valid}
use my_simple_db.Storage.Buffer.{
  PageId, PageFrame, empty_frame, BufferPool, find, frame_at, evict, read, write_back,
}
use my_simple_db.Storage.Buffer.Evict.{AllLoggedFrames, IsLoggedFrame, evict-ok, write_back-ok}
use my_simple_db.Storage.Buffer.Flush.{flush_frames, flush_all}
use my_simple_db.Storage.Buffer.View.{on_disk, IsPool}
use my_simple_db.Storage.Buffer.View.Reads.{Gives, evict-Evicted}
use my_simple_db.Storage.Buffer.View.Coherent.{IsRead, read-IsRead, not_there}
use my_simple_db.Storage.Buffer.View.Checkpoint.{IsCheckpoint, flush_all-IsCheckpoint}

abbrev Returning : {A : Type 0} → Result A → Type 0
Returning {A} r = (a : A) × (r ≡ ok a)

goes_on :
    {A : Type 0} {B : Type 0} (r : Result A) (f : A → Result B) (a : A)
    → r ≡ ok a
    → Returning (f a)
    → Returning (r >>= f)
goes_on r f a e next = (next.0, ap (λ z. z >>= f) e ∙ next.1)

returns : {A : Type 0} → Result A → Bool
returns (ok a) = true
returns (err e) = false
returns exit = false

returned : {A : Type 0} (r : Result A) → returns r ≡ true → Returning r
unfolding returns
returned (ok a) e = (a, refl)
returned (err c) e = absurd (cc e)
returned exit e = absurd (cc e)

read-Returning :
    (page : PageId) (magic : ℕ) (p : BufferPool) (fs : Files) (j : ℕ)
    → IsPool p fs
    → j < length p.frames
    → (frame_at p j).pin ≡ 0
    → AllLoggedFrames p
    → (find p page ≡ length p.frames → page_valid (on_disk fs page) magic ≡ true)
    → Returning (read page magic p fs)
unfolding read read_page returns
read-Returning page magic p fs j h inside free logged good =
    returned (read page magic p fs) (elim (Bool-cases (find p page == length p.frames)) [
      | inr hit ↦ rw hit refl
      | inl miss ↦
          let e = evict-ok p fs j inside free logged in
          let v = Ensures-ok (Gives p fs) (evict p fs) (evict-Evicted p fs h) e.2 in
          let absent : find p page ≡ length p.frames = ground (arith, miss) in
          let same : on_disk (e.1).1 page ≡ on_disk fs page =
            not_there (e.1).0 (e.1).1 page (v.missing page absent)
            ∙ (v.views page ∙ sym (not_there p fs page absent)) in
          let valid : page_valid (on_disk (e.1).1 page) magic ≡ true =
            ap (λ z. page_valid z magic) same ∙ good absent in
          rw (miss, e.2, valid) refl
    ])

-- In a pool in which the page table has exactly the valid frames, each frame that is not dirty has
-- the page of the file, each dirty frame is logged, and one frame has no pin, a read of a page that
-- is cached, or valid in its file, returns. The frame that it gives has the page, no page changes, and the pool stays such
-- that the table and the files are in order.
pub read-ok :
    (page : PageId) (magic : ℕ) (p : BufferPool) (fs : Files) (j : ℕ)
    → IsPool p fs
    → j < length p.frames
    → (frame_at p j).pin ≡ 0
    → AllLoggedFrames p
    → (find p page ≡ length p.frames → page_valid (on_disk fs page) magic ≡ true)
    → (x : ℕ × (BufferPool × Files)) × (read page magic p fs ≡ ok x) × IsRead p fs page x
read-ok page magic p fs j h inside free logged good =
    let r = read-Returning page magic p fs j h inside free logged good in
    (
      r.0,
      r.1,
      Ensures-ok (IsRead p fs page) (read page magic p fs) (read-IsRead page magic p fs h) r.1,
    )

flush_frames-Returning :
    (frames : List PageFrame) (fs : Files)
    → ((m : ℕ) → IsLoggedFrame (get_or frames m empty_frame))
    → Returning (flush_frames frames fs)
unfolding flush_frames
flush_frames-Returning [] fs logged = (_, refl)
flush_frames-Returning (f ∷ frames) fs logged =
    let w = write_back-ok f fs (logged zero) in
    let rest = flush_frames-Returning frames w.1 (λ m. logged (suc m)) in
    goes_on (write_back f fs) _ (w.0, w.1) w.2
      (goes_on (flush_frames frames w.1) _ rest.0 rest.1 (_, refl))

-- In a pool in which the page table has exactly the valid frames, each frame that is not dirty has
-- the page of the file, and each dirty frame is logged, flush_all returns. Then every page of the
-- files is the page as the cache gave it, no page changes, and the table and the files stay in order.
pub flush_all-ok :
    (p : BufferPool) (fs : Files)
    → IsPool p fs
    → AllLoggedFrames p
    → (x : BufferPool × Files) × (flush_all p fs ≡ ok x) × IsCheckpoint p fs x
unfolding flush_all
flush_all-ok p fs h logged =
    let w = flush_frames-Returning p.frames fs logged in
    let r =
      goes_on (flush_frames p.frames fs) (λ w. ok (record p { frames = w.0 }, w.1)) w.0 w.1
        (_, refl) in
    (r.0, r.1, Ensures-ok (IsCheckpoint p fs) (flush_all p fs) (flush_all-IsCheckpoint p fs h) r.1)
