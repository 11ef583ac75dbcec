-- ===== src/Storage/Wal/Record.antt =====
-- storage/wal.cpp: the reader on one record, whole or cut off.
use my_simple_db.Prelude.{
  ℕ, ◌+◌, ◌-◌, ◌^◌, ◌<◌, ◌≤◌, ◌≡◌, refl, sym, ap, ◌∙◌, none, some, List, [], ◌∷◌, ◌++◌, true, false,
  ltb, length, get_or, take, drop, arith, inl, inr, Bool-cases, length-append, length-take,
  take-append_ge, drop-append, drop_add, take-append, ==_refl,
}
use mathlib.Core.List.{append_assoc}
use my_simple_db.Storage.Codec.Bytes.{length-low_bytes, read_bytes-low_bytes}
use my_simple_db.Storage.Crc.{crc32, crc32_bound}
use my_simple_db.Storage.Wal.{
  WalRecord, wal_get_u32, wal_get_u64, wal_put_u32, wal_put_u64, wal_payload_max, covered,
  record_bytes, next,
}

abbrev pub to_record : ℕ → ℕ → ℕ → List ℕ → WalRecord
to_record lsn txn op payload = record { lsn = lsn; txn = txn; op = op; payload = payload }

next_lem :
    (buf p after : List ℕ) (lsn txn op : ℕ)
    → wal_get_u32 buf ≡ length p
    → take 17 (drop 4 buf) ≡ covered lsn txn op
    → wal_get_u32 (drop 21 buf) ≡ crc32 (covered lsn txn op ++ p)
    → take (length p) (drop 25 buf) ≡ p
    → drop (25 + length p) buf ≡ after
    → wal_get_u64 (drop 4 buf) ≡ lsn
    → wal_get_u64 (drop 12 buf) ≡ txn
    → get_or (drop 20 buf) 0 0 ≡ op
    → 25 + length p ≤ length buf
    → length p ≤ wal_payload_max
    → next buf ≡ some (to_record lsn txn op p, after)
unfolding next
next_lem buf p after lsn txn op len head crc payload rest l t o whole small =
    let long : ltb (length buf) 25 ≡ false = ground (arith, whole) in
    let bounded : ltb wal_payload_max (length p) ≡ false = ground (arith, small) in
    let fits : ltb (length buf) (25 + length p) ≡ false = ground (arith, whole) in
    rw
      (
        len,
        long,
        bounded,
        fits,
        head,
        crc,
        payload,
        ==_refl (crc32 (covered lsn txn op ++ p)),
        rest,
        l,
        t,
        o,
      )
      refl

length-covered : (lsn txn op : ℕ) → length (covered lsn txn op) ≡ 17
length-covered lsn txn op =
    let a = length-append (wal_put_u64 lsn) (wal_put_u64 txn ++ (op ∷ [])) in
    let b = length-append (wal_put_u64 txn) (op ∷ []) in
    omega (arith, a, b, length-low_bytes 8 lsn, length-low_bytes 8 txn)

pub length-record_bytes :
    (lsn txn op : ℕ) (p : List ℕ) → length (record_bytes lsn txn op p) ≡ 25 + length p
unfolding record_bytes
length-record_bytes lsn txn op p =
    let head = covered lsn txn op in
    let crc = wal_put_u32 (crc32 (head ++ p)) in
    let a = length-append (wal_put_u32 (length p)) (head ++ (crc ++ p)) in
    let b = length-append head (crc ++ p) in
    let c = length-append crc p in
    omega (
      arith,
      a,
      b,
      c,
      length-covered lsn txn op,
      length-low_bytes 4 (length p),
      length-low_bytes 4 (crc32 (head ++ p)),
    )

-- A whole record is read, and the bytes after it are left.
pub next-record_bytes :
    (lsn txn op : ℕ) (p rest : List ℕ)
    → lsn < 2 ^ 64
    → txn < 2 ^ 64
    → length p ≤ wal_payload_max
    → next (record_bytes lsn txn op p ++ rest) ≡ some (to_record lsn txn op p, rest)
unfolding record_bytes
next-record_bytes lsn txn op p rest hl ht hp =
    let head = covered lsn txn op in
    let size = wal_put_u32 (length p) in
    let crc = wal_put_u32 (crc32 (head ++ p)) in
    let buf = record_bytes lsn txn op p ++ rest in
    let tail = crc ++ (p ++ rest) in
    let layout : buf ≡ size ++ (head ++ tail) =
      append_assoc size (head ++ (crc ++ p)) rest
      ∙ ap (λ z. size ++ z)
          (append_assoc head (crc ++ p) rest ∙ ap (λ z. head ++ z) (append_assoc crc p rest)) in
    let d4 : drop 4 buf ≡ head ++ tail =
      ap (drop 4) layout
      ∙ drop-append 4 size (head ++ tail) (sym (length-low_bytes 4 (length p))) in
    let d21 : drop 21 buf ≡ tail =
      drop_add 4 17 buf
      ∙ (ap (drop 17) d4 ∙ drop-append 17 head tail (sym (length-covered lsn txn op))) in
    let d25 : drop 25 buf ≡ p ++ rest =
      drop_add 21 4 buf
      ∙ (ap (drop 4) d21
          ∙ drop-append 4 crc (p ++ rest) (sym (length-low_bytes 4 (crc32 (head ++ p))))) in
    let inner : head ++ tail ≡ wal_put_u64 lsn ++ (wal_put_u64 txn ++ (op ∷ tail)) =
      append_assoc (wal_put_u64 lsn) _ tail
      ∙ ap (λ z. wal_put_u64 lsn ++ z) (append_assoc (wal_put_u64 txn) (op ∷ []) tail) in
    let d12 : drop 12 buf ≡ wal_put_u64 txn ++ (op ∷ tail) =
      drop_add 4 8 buf
      ∙ (ap (drop 8) (d4 ∙ inner)
          ∙ drop-append 8 (wal_put_u64 lsn) _ (sym (length-low_bytes 8 lsn))) in
    let d20 : drop 20 buf ≡ op ∷ tail =
      drop_add 12 8 buf
      ∙ (ap (drop 8) d12 ∙ drop-append 8 (wal_put_u64 txn) _ (sym (length-low_bytes 8 txn))) in
    next_lem buf p rest lsn txn op
      (ap wal_get_u32 layout ∙ read_bytes-low_bytes 4 (length p) (head ++ tail) (omega (arith, hp)))
      (ap (take 17) d4 ∙ take_exactly 17 head tail (sym (length-covered lsn txn op)))
      (ap wal_get_u32 d21
        ∙ read_bytes-low_bytes 4 (crc32 (head ++ p)) (p ++ rest) (crc32_bound (head ++ p)))
      (ap (take (length p)) d25 ∙ take-append p rest)
      (drop_add 25 (length p) buf ∙ (ap (drop (length p)) d25 ∙ drop-append (length p) p rest refl))
      (ap wal_get_u64 (d4 ∙ inner) ∙ read_bytes-low_bytes 8 lsn _ hl)
      (ap wal_get_u64 d12 ∙ read_bytes-low_bytes 8 txn _ ht) (ap (λ z. get_or z 0 0) d20)
      (omega
        (arith, length-append (record_bytes lsn txn op p) rest, length-record_bytes lsn txn op p))
      hp
  where
    take_exactly : (n : ℕ) (s t : List ℕ) → n ≡ length s → take n (s ++ t) ≡ s
    take_exactly n s t e = rw e (take-append s t)

next_short :
    (buf : List ℕ) (len : ℕ)
    → wal_get_u32 buf ≡ len
    → 25 ≤ length buf
    → len ≤ wal_payload_max
    → length buf < 25 + len
    → next buf ≡ none
unfolding next
next_short buf len e long small short =
    let a : ltb (length buf) 25 ≡ false = ground (arith, long) in
    let b : ltb wal_payload_max len ≡ false = ground (arith, small) in
    let c : ltb (length buf) (25 + len) ≡ true = ground (arith, short) in rw (e, a, b, c) refl

wal_get_u32-take-record_bytes :
    (n lsn txn op : ℕ) (p : List ℕ)
    → length p ≤ wal_payload_max
    → 4 ≤ n
    → wal_get_u32 (take n (record_bytes lsn txn op p)) ≡ length p
unfolding record_bytes
wal_get_u32-take-record_bytes n lsn txn op p hp h =
    let size = length-low_bytes 4 (length p) in
    ap wal_get_u32 (take-append_ge n (n - 4) (wal_put_u32 (length p)) _ (omega (arith, size, h)))
    ∙ read_bytes-low_bytes 4 (length p) _ (omega (arith, hp))

-- Of a record that is cut off, nothing is read.
pub next-take-record_bytes :
    (n lsn txn op : ℕ) (p : List ℕ)
    → length p ≤ wal_payload_max
    → n < 25 + length p
    → next (take n (record_bytes lsn txn op p)) ≡ none
unfolding next
next-take-record_bytes n lsn txn op p hp h =
    let size = length-take n (record_bytes lsn txn op p) in
    let whole = length-record_bytes lsn txn op p in
    elim (Bool-cases (ltb n 25)) [
      | inl short ↦
          let e : ltb (length (take n (record_bytes lsn txn op p))) 25 ≡ true =
            ground (arith, size, whole, short) in
          rw e refl
      | inr long ↦
          next_short (take n (record_bytes lsn txn op p)) (length p)
            (wal_get_u32-take-record_bytes n lsn txn op p hp (ground (arith, long)))
            (ground (arith, size, whole, long, h)) hp (omega (arith, size, whole, h))
    ]
