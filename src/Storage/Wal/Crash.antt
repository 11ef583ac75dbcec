-- ===== src/Storage/Wal/Crash.antt =====
-- storage/wal.cpp: what the reader finds in a log that a crash cut off at any byte.
pub mod Cut
use my_simple_db.Prelude.{
  ℕ, zero, suc, ◌+◌, ◌-◌, ◌^◌, ◌<◌, ◌≤◌, ◌≡◌, refl, sym, ap, ◌∙◌, none, some, List, [], ◌∷◌, ◌++◌,
  true, false, ltb, if◌then◌else◌, length, take, arith, inl, inr, Bool-cases, length-append,
  take-append_lt, take-append_ge,
}
use mathlib.Core.List.{append_assoc, append-nil}
use my_simple_db.Storage.Wal.{
  WalOp, WalRecord, Wal, wal_op_code, wal_payload_max, record_bytes, append, next, read_loop,
  read_log,
}
use my_simple_db.Storage.Wal.Record.{
  to_record, length-record_bytes, next-record_bytes, next-take-record_bytes,
}

-- A call of append, and the calls one after the other.
pub record Entry : Type 0 where
  pub op : WalOp
  pub txn : ℕ
  pub payload : List ℕ

unfoldable pub append_all : List Entry → Wal → Wal
append_all [] w = w
append_all (e ∷ entries) w = append_all entries (append e.op e.txn e.payload w).0

-- The records that they write, from an LSN on.
unfoldable pub records_of : ℕ → List Entry → List WalRecord
records_of lsn [] = []
records_of lsn (e ∷ entries) =
    to_record lsn e.txn (wal_op_code e.op) e.payload ∷ records_of (lsn + 1) entries

abbrev entry_bytes : ℕ → Entry → List ℕ
entry_bytes lsn e = record_bytes lsn e.txn (wal_op_code e.op) e.payload

-- The bytes that they write.
unfoldable log_bytes : ℕ → List Entry → List ℕ
log_bytes lsn [] = []
log_bytes lsn (e ∷ entries) = entry_bytes lsn e ++ log_bytes (lsn + 1) entries

file-append_all :
    (entries : List Entry) (w : Wal)
    → (append_all entries w).file ≡ w.file ++ log_bytes w.next_lsn entries
unfolding append_all log_bytes append
file-append_all [] w = sym (append-nil w.file)
file-append_all (e ∷ entries) w =
    file-append_all entries (append e.op e.txn e.payload w).0
    ∙ append_assoc w.file (entry_bytes w.next_lsn e) (log_bytes (w.next_lsn + 1) entries)

-- The number of the records that lie whole in the first n bytes.
unfoldable pub whole_records : ℕ → List Entry → ℕ
whole_records n [] = 0
whole_records n (e ∷ entries) =
    let rest = whole_records (n - (25 + length e.payload)) entries in
    if ltb n (25 + length e.payload) then 0 else rest + 1

-- The entries that append can write: the payload fits, and the numbers are of 64 bits.
abbrev pub IsEntry : Entry → Type 0
IsEntry e = (e.txn < 2 ^ 64) × (length e.payload ≤ wal_payload_max)

abbrev pub AreEntries : List Entry → Type 0
AreEntries [] = Unit
AreEntries (e ∷ entries) = IsEntry e × AreEntries entries

whole_records_cut :
    (n : ℕ) (e : Entry) (entries : List Entry)
    → ltb n (25 + length e.payload) ≡ true
    → whole_records n (e ∷ entries) ≡ 0
unfolding whole_records
whole_records_cut n e entries cut = rw cut refl

whole_records_cons :
    (n : ℕ) (e : Entry) (entries : List Entry)
    → ltb n (25 + length e.payload) ≡ false
    → whole_records n (e ∷ entries) ≡ suc (whole_records (n - (25 + length e.payload)) entries)
unfolding whole_records
whole_records_cons n e entries whole = rw whole (omega arith)

whole_records_empty : (n : ℕ) → whole_records n [] ≡ 0
unfolding whole_records
whole_records_empty n = refl

read_loop-none : (fuel : ℕ) (buf : List ℕ) → next buf ≡ none → read_loop fuel buf ≡ []
unfolding read_loop
read_loop-none zero buf h = refl
read_loop-none (suc fuel) buf h = rw (read_loop, h) refl

read_loop-some :
    (fuel : ℕ) (buf rest : List ℕ) (r : WalRecord)
    → next buf ≡ some (r, rest)
    → read_loop (suc fuel) buf ≡ r ∷ read_loop fuel rest
unfolding read_loop
read_loop-some fuel buf rest r h = rw (read_loop, h) refl

next_empty : (n : ℕ) → next (take n []) ≡ none
unfolding next
next_empty zero = refl
next_empty (suc n) = refl

next_cut :
    (n lsn : ℕ) (e : Entry) (rest : List ℕ)
    → length e.payload ≤ wal_payload_max
    → ltb n (25 + length e.payload) ≡ true
    → next (take n (entry_bytes lsn e ++ rest)) ≡ none
next_cut n lsn e rest hp cut =
    let size = length-record_bytes lsn e.txn (wal_op_code e.op) e.payload in
    let short : n < 25 + length e.payload = ground (arith, cut) in
    rw (take-append_lt n (entry_bytes lsn e) rest (omega (arith, size, short)))
      (next-take-record_bytes n lsn e.txn (wal_op_code e.op) e.payload hp short)

next_whole :
    (n lsn : ℕ) (e : Entry) (rest : List ℕ)
    → IsEntry e
    → lsn < 2 ^ 64
    → ltb n (25 + length e.payload) ≡ false
    → next (take n (entry_bytes lsn e ++ rest))
      ≡ some (
        to_record lsn e.txn (wal_op_code e.op) e.payload,
        take (n - (25 + length e.payload)) rest,
      )
next_whole n lsn e rest valid h whole =
    let size = length-record_bytes lsn e.txn (wal_op_code e.op) e.payload in
    let k = n - (25 + length e.payload) in
    rw (take-append_ge n k (entry_bytes lsn e) rest (ground (arith, size, whole)))
      (next-record_bytes lsn e.txn (wal_op_code e.op) e.payload (take k rest) h valid.0 valid.1)

read_loop-take-log_bytes :
    (entries : List Entry) (fuel n lsn : ℕ)
    → AreEntries entries
    → lsn + length entries ≤ 2 ^ 64
    → whole_records n entries ≤ fuel
    → read_loop fuel (take n (log_bytes lsn entries))
      ≡ take (whole_records n entries) (records_of lsn entries)
unfolding log_bytes records_of
read_loop-take-log_bytes [] fuel n lsn valid room enough =
    read_loop-none fuel (take n []) (next_empty n) ∙ sym (take_nil (whole_records n []))
  where
    take_nil : (k : ℕ) → Path (List WalRecord) (take k []) []
    take_nil zero = refl
    take_nil (suc k) = refl
read_loop-take-log_bytes (e ∷ entries) fuel n lsn valid room enough =
    elim (Bool-cases (ltb n (25 + length e.payload))) [
      | inl cut ↦
          rw (whole_records_cut n e entries cut)
            (read_loop-none fuel _ (next_cut n lsn e (log_bytes (lsn + 1) entries) valid.0.1 cut))
      | inr whole ↦
          let count = whole_records_cons n e entries whole in
          let k = n - (25 + length e.payload) in
          let step = read_loop-some (fuel - 1) _ _ _ (
            next_whole n lsn e (log_bytes (lsn + 1) entries) valid.0 (omega (arith, room)) whole) in
          let rest =
            read_loop-take-log_bytes entries (fuel - 1) k (lsn + 1) valid.1 (omega (arith, room))
              (omega (arith, enough, count)) in
          let more : fuel ≡ suc (fuel - 1) = omega (arith, enough, count) in
          rw count (
            ap (λ f. read_loop f (take n (entry_bytes lsn e ++ log_bytes (lsn + 1) entries))) more
            ∙ (step
                ∙ ap (λ (z : List WalRecord). to_record lsn e.txn (wal_op_code e.op) e.payload ∷ z)
                    rest))
    ]

-- A record takes at least one byte, so the bytes are enough fuel.
whole_records_bound :
    (entries : List Entry) (n lsn : ℕ)
    → whole_records n entries ≤ length (take n (log_bytes lsn entries))
unfolding log_bytes
whole_records_bound [] n lsn = rw (whole_records_empty n) (omega arith)
whole_records_bound (e ∷ entries) n lsn =
    let size = length-record_bytes lsn e.txn (wal_op_code e.op) e.payload in
    let k = n - (25 + length e.payload) in
    elim (Bool-cases (ltb n (25 + length e.payload))) [
      | inl cut ↦ rw (whole_records_cut n e entries cut) (omega arith)
      | inr whole ↦
          let rest = whole_records_bound entries k (lsn + 1) in
          rw
            (
              whole_records_cons n e entries whole,
              take-append_ge n k (entry_bytes lsn e) (log_bytes (lsn + 1) entries)
                  (ground (arith, size, whole)),
            )
            (omega (
              arith,
              rest,
              size,
              length-append (entry_bytes lsn e) (take k (log_bytes (lsn + 1) entries)),
            ))
    ]

-- However a log is cut off that was written from empty by appends of payloads of at most 8212
-- bytes, with 64-bit transaction and sequence numbers, the reader gives exactly the records that
-- lie whole before the cut, in order, with the sequence numbers that append returned.
pub read_log-append_all :
    (entries : List Entry) (w : Wal) (n : ℕ)
    → w.file ≡ []
    → AreEntries entries
    → w.next_lsn + length entries ≤ 2 ^ 64
    → read_log (take n (append_all entries w).file)
      ≡ take (whole_records n entries) (records_of w.next_lsn entries)
unfolding read_log
read_log-append_all entries w n empty valid room =
    let bytes : (append_all entries w).file ≡ log_bytes w.next_lsn entries =
      file-append_all entries w ∙ ap (λ z. z ++ log_bytes w.next_lsn entries) empty in
    rw bytes (
      read_loop-take-log_bytes entries _ n w.next_lsn valid room
        (whole_records_bound entries n w.next_lsn))
