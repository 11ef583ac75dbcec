-- ===== src/Lib.antt =====
-- my_simple_db, a small SQL database server in C++ (src/): verification of parts of its storage
-- engine, its expression evaluator and its planner.
--
-- How the program is put together. A client sends SQL text to the server (src/server), the parser
-- makes a syntax tree, the analyzer (src/analyzer) binds names and types and makes bound
-- expressions, the planner (src/planner) builds a plan and optimises it, and the executor
-- (src/executor) runs it over the storage engine (src/storage): heap files of slotted pages, B+ tree
-- index files, a buffer pool, and a write-ahead log from which a crash is recovered.
--
-- Which file models what:
--   Common: the error codes of src/common/err.h. DB_RAISE is the result `err`, DB_CRITICAL, which
--     ends the process, is `exit`. The text of a message is not modelled.
--   Storage/Types: src/storage/types.h, type attributes, column definitions and values.
--   Storage/Fpu: what the program takes from the machine and the C++ library, IEEE 754 arithmetic,
--     std::format and std::from_chars, as a record `Platform` that is an argument of the
--     definitions, with the documented facts that theorems use in `IsIeee`.
--   Storage/Cast: src/storage/cast.cpp. Decimal is the parser and printer of numerics, Convert the
--     conversion functions, Table the table kCastTable and cast_value, Coerce is coerce_numeric.
--   Storage/Codec: src/storage/codec.cpp, encode_row and decode_row over lists of bytes. Bytes has
--     the integers in little-endian order, Columns and Decimals the round trip of one column, Bitmap
--     the NULL bitmap, Stored one column of a row, Rows a whole row, Bounds what decode_row reads,
--     Accepts which rows have a record, Typed the types of what is decoded.
--   Storage/Crc: the CRC-32 of src/storage/page.cpp. Storage/Wal: src/storage/wal.h and wal.cpp, the
--     log as a list of bytes; Wal/Record: one record; Wal/Crash: what the reader finds in a log that
--     is cut off.
--   Storage/Files: the pages of the data files, as far as recovery uses src/storage/file_manager.cpp.
--   Storage/Recovery: src/storage/recovery.cpp. Overlay is what a patch does to each byte, Passes the
--     second and the third pass, Sound the whole of recovery, Invalid the logs that it refuses.
--   Storage/Page: src/storage/page.h and page.cpp, the header of a page and its checksum; Page/Heap
--     the slotted pages, with Stores the bytes that change, Append, Delete and Checksum.
--   Storage/Buffer: src/storage/buffer_pool.h and buffer_pool.cpp, the page cache. Diff is
--     log_page_diff, Scan the intervals of words that it finds, Log and its children the patches that
--     it writes, as recovery reads them, Durable the pool, the log and recovery together, Evict the
--     clock, Flush the operations that write back or drop frames, View the pages as the cache gives
--     them. Of View, Dirty is a page that is changed in place and marked dirty, and Atomic the same
--     with a commit, a crash and recovery.
--   Storage/Engine: the transactions and the checkpoints of src/storage/engine.cpp; Engine/Restart
--     closes and opens an engine.
--   Proto: src/proto/proto.h, the frames between client and server. Cells is the coding of a cell,
--     Results the three frames of a result set, Messages the other bodies, Frames the loops over a
--     socket; what the calls of ::recv and ::send return is an argument.
--   Expr/Numeric: the fixed point arithmetic of src/expr/expr_eval.cpp; Expr/Bound: the tree of
--     src/analyzer/bound_expr.h; Expr/Compare: value_cmp; Expr/Eval: the evaluator. The table of
--     built-in functions (src/expr/expr_func.cpp) is an argument of the evaluator.
--   Planner/Simplify: src/planner/bool_simplify.cpp; Planner/Fold: fold_expr of
--     src/planner/const_fold.cpp.
--   Tests: runs on concrete inputs.
--
-- Numbers. A `float` and a `double` are their bit patterns, numbers below 2^32 and 2^64. An int64_t
-- and the 256-bit integer of a numeric are integers. The arithmetic of int64_t is checked by the
-- source; a 256-bit product is below 10^76 for operands in range, and pow10, the one loop that can
-- pass 2^256, keeps its wrap-around. The loops that count the digits of a magnitude take 78 rounds
-- of fuel, which is enough for 256 bits. The loop over the log takes the number of its bytes as fuel; a
-- record has at least 25.
--
-- The loops of log_page_diff take the 512 words of a page as fuel, and the clock of evict its two
-- rounds.
--
-- Not modelled: sessions and threads, the lexer and the grammar (generated from
-- lexer.l and parser.y), the client, logging and configuration. The parts that are left are listed
-- in the manifest.
pub mod Prelude
pub mod Common
pub mod Storage
pub mod Expr
pub mod Planner
pub mod Proto
mod Tests
