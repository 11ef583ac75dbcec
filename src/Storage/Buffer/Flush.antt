-- ===== src/Storage/Buffer/Flush.antt =====
-- storage/buffer_pool.cpp: flush, flush_all, invalidate_all and drop_table. The order in which the
-- hash table gives its entries is that of the list.
use my_simple_db.Prelude.{ℕ, List, [], ◌∷◌, ◌==◌, if◌then◌else◌, length, get_or, set, map}
use my_simple_db.Common.{Result, ok, ◌>>=◌}
use my_simple_db.Storage.Files.{Files}
use my_simple_db.Storage.Buffer.{
  PageId, PageFrame, PageTable, BufferPool, empty_frame, find, frame_at, set_frame, write_back,
}

unfoldable pub flush : PageId → BufferPool → Files → Result (BufferPool × Files)
flush page p fs =
    let idx = find p page in
    if idx == length p.frames
    then ok (p, fs)
    else (do w ← write_back (frame_at p idx) fs; ok (set_frame p idx w.0, w.1))

unfoldable pub flush_frames : List PageFrame → Files → Result (List PageFrame × Files)
flush_frames [] fs = ok ([], fs)
flush_frames (f ∷ frames) fs = do
  w ← write_back f fs
  rest ← flush_frames frames w.1
  ok (w.0 ∷ rest.0, rest.1)

unfoldable pub flush_all : BufferPool → Files → Result (BufferPool × Files)
flush_all p fs = do w ← flush_frames p.frames fs; ok (record p { frames = w.0 }, w.1)

unfoldable pub invalidate_all : BufferPool → BufferPool
invalidate_all p = record p {
  frames = map (λ f. empty_frame) p.frames;
  page_table = [];
  clock_hand = 0;
}

-- The frames, the entries that are kept, and the files.
unfoldable pub drop_loop :
    ℕ → PageTable → List PageFrame → Files → Result ((List PageFrame × PageTable) × Files)
drop_loop file_id [] frames fs = ok ((frames, []), fs)
drop_loop file_id ((page, idx) ∷ table) frames fs =
    if page.file_id == file_id
    then (do
      w ← write_back (get_or frames idx empty_frame) fs
      drop_loop file_id table (set frames idx empty_frame) w.1)
    else (do
      rest ← drop_loop file_id table frames fs
      ok (((rest.0).0, (page, idx) ∷ (rest.0).1), rest.1))

unfoldable pub drop_table : ℕ → BufferPool → Files → Result (BufferPool × Files)
drop_table file_id p fs = do
  d ← drop_loop file_id p.page_table p.frames fs
  ok (record p { frames = (d.0).0; page_table = (d.0).1 }, d.1)
