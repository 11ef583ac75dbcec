-- ===== src/Storage/Wal/Crash/Cut.antt =====
-- storage/wal.cpp: how many records of a log lie whole before a cut.
use my_simple_db.Prelude.{
  ℕ, zero, suc, ◌+◌, ◌-◌, ◌^◌, ◌<◌, ◌≤◌, ◌≡◌, refl, ap, ◌∙◌, List, [], ◌∷◌, ◌++◌, length, take, ltb,
  arith, inl, inr, Bool-cases, length-append,
}
use my_simple_db.Storage.Wal.{Wal, WalRecord, wal_op_code, read_log}
use my_simple_db.Storage.Wal.Record.{length-record_bytes, to_record}
use my_simple_db.Storage.Wal.Crash.{
  Entry, append_all, records_of, AreEntries, log_bytes, whole_records, whole_records_cut,
  whole_records_cons, whole_records_empty, read_log-append_all, entry_bytes, file-append_all,
}

length-log_bytes :
    (lsn : ℕ) (e : Entry) (es : List Entry)
    → length (log_bytes lsn (e ∷ es)) ≡ 25 + length e.payload + length (log_bytes (lsn + 1) es)
unfolding log_bytes
length-log_bytes lsn e es = omega (
  arith,
  length-append (entry_bytes lsn e) (log_bytes (lsn + 1) es),
  length-record_bytes lsn e.txn (wal_op_code e.op) e.payload,
)

pub whole_records_all :
    (es : List Entry) (n lsn : ℕ) → length (log_bytes lsn es) ≤ n → whole_records n es ≡ length es
whole_records_all [] n lsn h = whole_records_empty n
whole_records_all (e ∷ es) n lsn h =
    let size = length-log_bytes lsn e es in
    whole_records_cons n e es (ground (arith, h, size))
    ∙ ap suc (whole_records_all es (n - (25 + length e.payload)) (lsn + 1) (omega (arith, h, size)))

pub whole_records_less :
    (es : List Entry) (n lsn : ℕ) → n < length (log_bytes lsn es) → whole_records n es < length es
unfolding log_bytes
whole_records_less [] n lsn h = absurd (omega (arith, h))
whole_records_less (e ∷ es) n lsn h =
    let size = length-log_bytes lsn e es in
    elim (Bool-cases (ltb n (25 + length e.payload))) [
      | inl cut ↦ omega (arith, whole_records_cut n e es cut)
      | inr whole ↦ omega (
        arith,
        whole_records_cons n e es whole,
        whole_records_less es (n - (25 + length e.payload)) (lsn + 1)
            (ground (arith, h, size, whole)),
      )
    ]

pub length-records_of : (lsn : ℕ) (es : List Entry) → length (records_of lsn es) ≡ length es
unfolding records_of
length-records_of lsn [] = refl
length-records_of lsn (e ∷ es) = ap suc (length-records_of (lsn + 1) es)

pub take-records_of :
    (k lsn : ℕ) (es : List Entry) → take k (records_of lsn es) ≡ records_of lsn (take k es)
unfolding records_of
take-records_of zero lsn es = refl
take-records_of (suc k) lsn [] = refl
take-records_of (suc k) lsn (e ∷ es) =
    ap (λ rs. to_record lsn e.txn (wal_op_code e.op) e.payload ∷ rs)
      (take-records_of k (lsn + 1) es)

pub records_of-append :
    (lsn : ℕ) (es fs : List Entry)
    → records_of lsn (es ++ fs) ≡ records_of lsn es ++ records_of (lsn + length es) fs
unfolding records_of
records_of-append lsn [] fs = ap (λ k. records_of k fs) (omega arith)
records_of-append lsn (e ∷ es) fs =
    ap (λ rs. to_record lsn e.txn (wal_op_code e.op) e.payload ∷ rs)
      (records_of-append (lsn + 1) es fs
        ∙ ap (λ k. records_of (lsn + 1) es ++ records_of k fs) (omega arith))

pub append_all-append :
    (es fs : List Entry) (w : Wal) → append_all (es ++ fs) w ≡ append_all fs (append_all es w)
unfolding append_all
append_all-append [] fs w = refl
append_all-append (e ∷ es) fs w = append_all-append es fs _

take_long : (n : ℕ) (xs : List WalRecord) → length xs ≤ n → take n xs ≡ xs
take_long zero [] h = refl
take_long (suc n) [] h = refl
take_long zero (x ∷ xs) h = absurd (omega (arith, h))
take_long (suc n) (x ∷ xs) h =
    ap (λ (ys : List WalRecord). x ∷ ys) (take_long n xs (omega (arith, h)))

module _ (es : List Entry) (w : Wal) (empty : w.file ≡ []) (good : AreEntries es)
    (room : w.next_lsn + length es ≤ 2 ^ 64) where
  bytes : (append_all es w).file ≡ log_bytes w.next_lsn es
  bytes = file-append_all es w ∙ ap (λ z. z ++ log_bytes w.next_lsn es) empty

  -- A cut at the end, or beyond it, leaves every record.
  pub read_log_whole :
      (n : ℕ)
      → length (append_all es w).file ≤ n
      → read_log (take n (append_all es w).file) ≡ records_of w.next_lsn es
  read_log_whole n h =
      let all = whole_records_all es n w.next_lsn (omega (arith, h, ap length bytes)) in
      read_log-append_all es w n empty good room
      ∙ take_long (whole_records n es) _ (omega (arith, all, length-records_of w.next_lsn es))

  -- A cut before it leaves some records, and not the last.
  pub read_log_cut :
      (n : ℕ)
      → n < length (append_all es w).file
      → (k : ℕ) × (k < length es)
        × (read_log (take n (append_all es w).file) ≡ records_of w.next_lsn (take k es))
  read_log_cut n h =
      let k = whole_records n es in
      (
        k,
        whole_records_less es n w.next_lsn (omega (arith, h, ap length bytes)),
        read_log-append_all es w n empty good room ∙ take-records_of k w.next_lsn es,
      )
