-- ===== src/SsTable/RoundTrip.antt =====
-- A table file is read back as the records that were written to it.
use lsmtree.Base.{
  ℕ, zero, suc, ◌+◌, ◌-◌, ◌<◌, ◌≤◌, ◌^◌, ◌≡◌, refl, ap, sym, subst, ◌∙◌, List, [], ◌∷◌, ◌++◌,
  length, take, drop, ◌==◌, false, arith, All, append_assoc, append-nil, take-append, drop-append,
  length-append, ==-refl,
}
use lsmtree.Base.Checked.{ok, ◌>>=◌}
use lsmtree.Checksum.{crc32, crc32-bound}
use lsmtree.Record.{Record, RecordType, encoded_record_size}
use lsmtree.SsTable.{
  TableError, record_header, record_key, record_value, record_checksum, type_byte,
  record_header_bytes, encode_sstable_record, add_record, add_records, read_bytes, type_of_byte,
  read_sstable_record, iterate_records,
}
use lsmtree.Text.{Str}
use lsmtree.Text.Words.{
  le_bytes, le_number, length-le_bytes, le_number-le_bytes, take-le_bytes, drop-le_bytes,
}
use lsmtree.Compaction.Slices.{bytes_of}

-- The sequence is a 64-bit number, and key and value are shorter than 2^32 bytes.
pub record FitsTableRecord (r : Record) : Type 0 where
  pub seq : r.seq < 2 ^ 64
  pub key : length r.key < 2 ^ 32
  pub value : length r.value < 2 ^ 32

pub length-record_header_bytes : (r : Record) → length (record_header_bytes r) ≡ 17
unfolding record_header_bytes
length-record_header_bytes r = omega (
  arith,
  length-append (le_bytes 8 r.seq) (le_bytes 4 (length r.key) ++ le_bytes 4 (length r.value)),
  length-append (le_bytes 4 (length r.key)) (le_bytes 4 (length r.value)),
  length-le_bytes 8 r.seq,
  length-le_bytes 4 (length r.key),
  length-le_bytes 4 (length r.value),
)

read_bytes-length :
    (e : TableError) (xs rest : Str) → read_bytes (length xs) e (xs ++ rest) ≡ ok (xs, rest)
unfolding read_bytes
read_bytes-length e xs rest = rw (take-append, drop-append) (ground (arith, length-append xs rest))

read_bytes-append :
    (n : ℕ) (e : TableError) (xs rest : Str)
    → length xs ≡ n
    → read_bytes n e (xs ++ rest) ≡ ok (xs, rest)
read_bytes-append n e xs rest h =
    subst (λ (k : ℕ). read_bytes k e (xs ++ rest) ≡ ok (xs, rest)) h (read_bytes-length e xs rest)

-- What one record takes in a table.
unfoldable pub record_bytes : Record → Str
record_bytes r =
    let encoded = record_header_bytes r ++ (r.key ++ r.value) in
    encoded ++ le_bytes 4 (crc32 encoded)

add_record_fits : (r : Record) → FitsTableRecord r → add_record r ≡ ok (record_bytes r)
unfolding add_record encode_sstable_record record_bytes
add_record_fits r f = ground (arith, f.key, f.value)

type_of : (t : RecordType) → type_of_byte (type_byte t + 0) ≡ ok t
type_of RecordType.value = refl
type_of RecordType.tombstone = refl

-- The fields of the header.
header_type : (r : Record) → type_of_byte (le_number (take 1 (record_header_bytes r))) ≡ ok r.type
unfolding record_header_bytes le_number
header_type r = type_of (r.type)

header_sequence :
    (r : Record) → FitsTableRecord r → le_number (take 8 (drop 1 (record_header_bytes r))) ≡ r.seq
unfolding record_header_bytes
header_sequence r f =
    ap le_number (take-le_bytes 8 r.seq (le_bytes 4 (length r.key) ++ le_bytes 4 (length r.value)))
    ∙ le_number-le_bytes 8 r.seq f.seq

header_key_size :
    (r : Record)
    → FitsTableRecord r
    → le_number (take 4 (drop 9 (record_header_bytes r))) ≡ length r.key
unfolding record_header_bytes
header_key_size r f =
    ap (λ s. le_number (take 4 s))
      (drop-le_bytes 8 r.seq (le_bytes 4 (length r.key) ++ le_bytes 4 (length r.value)))
    ∙ ap le_number (take-le_bytes 4 (length r.key) (le_bytes 4 (length r.value)))
    ∙ le_number-le_bytes 4 (length r.key) f.key

behind_key_size :
    (r : Record)
    → drop 12 (le_bytes 8 r.seq ++ (le_bytes 4 (length r.key) ++ le_bytes 4 (length r.value)))
      ≡ le_bytes 4 (length r.value)
behind_key_size r =
    let front = le_bytes 8 r.seq ++ le_bytes 4 (length r.key) in
    let size : length front ≡ 12 = omega (
      arith,
      length-append (le_bytes 8 r.seq) (le_bytes 4 (length r.key)),
      length-le_bytes 8 r.seq,
      length-le_bytes 4 (length r.key),
    ) in
    ap (drop {A = ℕ} 12) (
      sym
        (append_assoc (le_bytes 8 r.seq) (le_bytes 4 (length r.key)) (le_bytes 4 (length r.value))))
    ∙ subst (λ (n : ℕ). drop n (front ++ le_bytes 4 (length r.value)) ≡ le_bytes 4 (length r.value))
        size (drop-append front (le_bytes 4 (length r.value)))

header_value_size :
    (r : Record)
    → FitsTableRecord r
    → le_number (take 4 (drop 13 (record_header_bytes r))) ≡ length r.value
unfolding record_header_bytes
header_value_size r f =
    ap (λ s. le_number (take 4 s)) (behind_key_size r)
    ∙ ap (λ s. le_number (take 4 s)) (sym (append-nil (le_bytes 4 (length r.value))))
    ∙ ap le_number (take-le_bytes 4 (length r.value) [])
    ∙ le_number-le_bytes 4 (length r.value) f.value

record_bytes-append :
    (r : Record) (rest : Str)
    → record_bytes r ++ rest
      ≡ record_header_bytes r
        ++ (r.key
            ++ (r.value
                ++ (le_bytes 4 (crc32 (record_header_bytes r ++ (r.key ++ r.value))) ++ rest)))
unfolding record_bytes
record_bytes-append r rest = simp append_assoc

-- A record that stands in a table file is read back, with what follows it, if its sequence fits 64
-- bits, its key and value are shorter than 2^32 bytes, and the bytes that are left reach so far.
pub read_sstable_record-record_bytes :
    (r : Record) (available : ℕ) (rest : Str)
    → FitsTableRecord r
    → encoded_record_size r ≤ available
    → read_sstable_record available (record_bytes r ++ rest) ≡ ok (r, rest)
unfolding read_sstable_record
read_sstable_record-record_bytes r available rest f h = rw record_bytes-append (
    rw
      (
        read_bytes-append 17 record_header (record_header_bytes r) _ (length-record_header_bytes r),
        header_type r,
        header_sequence r f,
        header_key_size r f,
        header_value_size r f,
        read_bytes-append (length r.key) record_key r.key _ refl,
        read_bytes-append (length r.value) record_value r.value _ refl,
        read_bytes-append 4 record_checksum
            (le_bytes 4 (crc32 (record_header_bytes r ++ (r.key ++ r.value)))) rest
            (length-le_bytes 4 (crc32 (record_header_bytes r ++ (r.key ++ r.value)))),
        le_number-le_bytes 4 (crc32 (record_header_bytes r ++ (r.key ++ r.value)))
            (crc32-bound (record_header_bytes r ++ (r.key ++ r.value))),
        ==-refl (crc32 (record_header_bytes r ++ (r.key ++ r.value))),
      )
      (ground arith))

-- What the records take in a table.
unfoldable pub all_record_bytes : List Record → Str
all_record_bytes [] = []
all_record_bytes (r ∷ rs) = record_bytes r ++ all_record_bytes rs

-- Records whose fields fit are all written.
pub add_records_fit :
    (rs : List Record) → All FitsTableRecord rs → add_records rs ≡ ok (all_record_bytes rs)
unfolding add_records all_record_bytes
add_records_fit [] f = refl
add_records_fit (r ∷ rs) f = rw (add_record_fits r f.0, add_records_fit rs f.1)

iterate_records-step :
    (fuel left : ℕ) (r : Record) (rs : List Record) (rest : Str)
    → FitsTableRecord r
    → left ≡ bytes_of (r ∷ rs)
    → iterate_records (suc fuel) left (record_bytes r ++ rest)
      ≡ (iterate_records fuel (bytes_of rs) rest >>= λ qs. ok (r ∷ qs))
unfolding iterate_records
iterate_records-step fuel left r rs rest f h =
    let more : (left == 0) ≡ false = unfold bytes_of in ground (arith, h) in
    let size : encoded_record_size r ≤ left = unfold bytes_of in omega (arith, h) in
    let behind : left - encoded_record_size r ≡ bytes_of rs = unfold bytes_of in omega (arith, h) in
    rw (more, read_sstable_record-record_bytes r left rest f size, behind)

-- The iterator gives the records that were written, in order, and ends where the records end, if the
-- fields of each fit their widths. The number of records is enough fuel.
pub iterate_records-all_record_bytes :
    (rs : List Record) (rest : Str)
    → All FitsTableRecord rs
    → iterate_records (length rs) (bytes_of rs) (all_record_bytes rs ++ rest) ≡ ok rs
unfolding all_record_bytes
iterate_records-all_record_bytes [] rest f = unfold iterate_records bytes_of in refl
iterate_records-all_record_bytes (r ∷ rs) rest f = rw (
  append_assoc (record_bytes r) (all_record_bytes rs) rest,
  iterate_records-step (length rs) (bytes_of (r ∷ rs)) r rs (all_record_bytes rs ++ rest) f.0 refl,
  iterate_records-all_record_bytes rs rest f.1,
)

-- More fuel than there are records is as good.
pub iterate_records_fuel :
    (fuel : ℕ) (rs : List Record) (rest : Str)
    → length rs ≤ fuel
    → All FitsTableRecord rs
    → iterate_records fuel (bytes_of rs) (all_record_bytes rs ++ rest) ≡ ok rs
unfolding all_record_bytes
iterate_records_fuel zero [] rest l f = unfold iterate_records bytes_of in refl
iterate_records_fuel (suc fuel) [] rest l f = unfold iterate_records bytes_of in refl
iterate_records_fuel zero (r ∷ rs) rest l f = absurd (omega (arith, l))
iterate_records_fuel (suc fuel) (r ∷ rs) rest l f = rw (
  append_assoc (record_bytes r) (all_record_bytes rs) rest,
  iterate_records-step fuel (bytes_of (r ∷ rs)) r rs (all_record_bytes rs ++ rest) f.0 refl,
  iterate_records_fuel fuel rs rest (omega (arith, l)) f.1,
)
