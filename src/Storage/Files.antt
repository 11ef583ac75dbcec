-- ===== src/Storage/Files.antt =====
-- storage/file_manager.cpp: the data files, as far as recovery uses them. A page that is beyond the
-- end of its file, or whose file does not exist, reads as zeros. Open descriptors and the
-- errors of the system calls are not modelled.
use my_simple_db.Prelude.{ℕ, Bool, true, false, ◌&&◌, List, ◌==◌, if◌then◌else◌, replicate}
use my_simple_db.Storage.Wal.{page_size}

pub record Files : Type 0 where
  pub exists : ℕ → Bool
  pub page : ℕ → ℕ → List ℕ

abbrev pub zero_page : List ℕ
zero_page = replicate page_size 0

-- The open with O_CREAT makes a file that is not there.
abbrev pub fd_for : ℕ → Files → Files
fd_for file_id fs = record {
  exists = λ f. if f == file_id then true else fs.exists f;
  page = fs.page;
}

unfoldable pub read_page : ℕ → ℕ → Files → Files × List ℕ
read_page file_id page_no fs = (fd_for file_id fs, fs.page file_id page_no)

unfoldable pub write_page : ℕ → ℕ → List ℕ → Files → Files
write_page file_id page_no bytes fs = record {
  exists = λ f. if f == file_id then true else fs.exists f;
  page = λ f p. if f == file_id && p == page_no then bytes else fs.page f p;
}

unfoldable pub remove_table_file : ℕ → Files → Files
remove_table_file file_id fs = record {
  exists = λ f. if f == file_id then false else fs.exists f;
  page = λ f p. if f == file_id then zero_page else fs.page f p;
}

abbrev pub table_file_exists : ℕ → Files → Bool
table_file_exists file_id fs = fs.exists file_id
