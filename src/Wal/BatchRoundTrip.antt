-- ===== src/Wal/BatchRoundTrip.antt =====
-- The batch parser reads back what the encoder wrote.
use lsmtree.Base.{
  ℕ, ◌^◌, ◌<◌, ◌≡◌, refl, List, [], ◌∷◌, ◌++◌, length, false, arith, map, All, append_assoc,
  append-nil, take-append, drop-append, length-append, ==-refl,
}
use lsmtree.Base.Checked.{ok}
use lsmtree.Record.{Record, RecordType}
use lsmtree.Text.{Str}
use lsmtree.Text.Decimal.{
  to_string, is_digit, to_string-IsDigit, stoull-to_string, length-to_string, span_digits-append,
}
use lsmtree.Wal.{encode_wal_record, encode_wal_records, encode_batch, entry_of, operation}
use lsmtree.Wal.Batch.{
  read_length, consume, read_field, read_length_prefixed_field, read_record, read_records,
  parse_batch, is_empty, operation_type,
}

-- The sizes and the sequence of a record are 64-bit numbers.
pub record FitsWal (r : Record) : Type 0 where
  pub seq : r.seq < 2 ^ 64
  pub key : length r.key < 2 ^ 64
  pub value : length r.value < 2 ^ 64

is_empty_of_length : (s : Str) → 0 < length s → is_empty s ≡ false
is_empty_of_length [] h = absurd (omega arith)
is_empty_of_length (c ∷ s) h = refl

pub read_length-to_string :
    (n c : ℕ) (rest : Str)
    → n < 2 ^ 64
    → is_digit c ≡ false
    → read_length (to_string n ++ c ∷ rest) ≡ ok (n, c ∷ rest)
unfolding read_length
read_length-to_string n c rest h e = rw (
  span_digits-append (to_string n) c rest (to_string-IsDigit n) e,
  stoull-to_string n h,
  is_empty_of_length (to_string n) (length-to_string n),
)

pub consume_lem : (c : ℕ) (s : Str) → consume c (c ∷ s) ≡ ok s
unfolding consume
consume_lem c s = rw ==-refl

pub read_field-append :
    (field rest : Str) → read_field (length field) (field ++ rest) ≡ ok (field, rest)
unfolding read_field
read_field-append field rest =
    rw (take-append, drop-append) (ground (arith, length-append field rest))

read_length_prefixed_field_lem :
    (terminator : ℕ) (field rest : Str)
    → length field < 2 ^ 64
    → read_length_prefixed_field terminator
        (to_string (length field) ++ b',' ∷ (field ++ terminator ∷ rest))
      ≡ ok (field, rest)
unfolding read_length_prefixed_field
read_length_prefixed_field_lem terminator field rest h = rw (
  read_length-to_string (length field) b',' (field ++ terminator ∷ rest) h refl,
  consume_lem b',' (field ++ terminator ∷ rest),
  read_field-append field (terminator ∷ rest),
  consume_lem terminator rest,
)

-- The encoding of a record and what follows it, bracketed to the right.
encode_wal_record-append :
    (r : Record) (rest : Str)
    → encode_wal_record r ++ rest
      ≡ operation r.type
        ∷ b','
        ∷ (to_string r.seq
            ++ b','
              ∷ (to_string (length r.key)
                  ++ b','
                    ∷ (r.key
                        ++ b'='
                          ∷ (to_string (length r.value) ++ b',' ∷ (r.value ++ b'\n' ∷ rest)))))
unfolding encode_wal_record
encode_wal_record-append r rest = simp append_assoc

operation_type-operation : (t : RecordType) → operation_type (operation t ∷ []) ≡ ok t
operation_type-operation RecordType.value = refl
operation_type-operation RecordType.tombstone = refl

read_record-encode :
    (r : Record) (rest : Str)
    → FitsWal r
    → read_record (encode_wal_record r ++ rest) ≡ ok (entry_of r, rest)
unfolding read_record
read_record-encode r rest fits = rw encode_wal_record-append (
    rw (
      read_field-append (operation r.type ∷ []),
      consume_lem b',',
      operation_type-operation,
      read_length-to_string r.seq b',' _ fits.seq refl,
      consume_lem b',',
      read_length_prefixed_field_lem b'=' r.key _ fits.key,
      read_length_prefixed_field_lem b'\n' r.value rest fits.value,
    ))

pub read_records-encode :
    (rs : List Record) (rest : Str)
    → All FitsWal rs
    → read_records (length rs) (encode_wal_records rs ++ rest) ≡ ok (map entry_of rs, rest)
unfolding read_records encode_wal_records
read_records-encode [] rest h = refl
read_records-encode (r ∷ rs) rest h = rw (
  append_assoc (encode_wal_record r) (encode_wal_records rs) rest,
  read_record-encode r (encode_wal_records rs ++ rest) h.0,
  read_records-encode rs rest h.1,
)

-- Whatever batch is logged, the parser returns its records in order, if there are fewer than 2^64 of
-- them and their sequences and sizes are 64-bit numbers.
pub parse_batch-encode_batch :
    (ops : List Record)
    → length ops < 2 ^ 64
    → All FitsWal ops
    → parse_batch (encode_batch ops) ≡ ok (map entry_of ops)
unfolding parse_batch encode_batch
parse_batch-encode_batch ops few fits = rw (
  read_length-to_string (length ops) b',' (encode_wal_records ops) few refl,
  consume_lem b',' (encode_wal_records ops),
  ← append-nil (encode_wal_records ops),
  read_records-encode ops [] fits,
)
