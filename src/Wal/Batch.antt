-- ===== src/Wal/Batch.antt =====
-- `WALBatchParser`. The state of the parser is what it has not read of the payload:
-- `content_.substr(position_)`.
use lsmtree.Base.{
  ℕ, zero, suc, List, [], ◌∷◌, length, take, drop, ltb, ◌==◌, not, if◌then◌else◌, Bool, true, false,
}
use lsmtree.Base.Checked.{Checked, ok, err, ◌>>=◌, ◌>>◌, require, or_throw}
use lsmtree.Record.{RecordType, Entry}
use lsmtree.Text.{Str}
use lsmtree.Text.Decimal.{span_digits, stoull}
use lsmtree.Wal.{Corruption, batch_length, record_operation, record_length, record_delimiter}

abbrev pub Parser : Type 0 → Type 0
Parser A = Str → Checked Corruption (A × Str)

abbrev pub is_empty : Str → Bool
is_empty [] = true
is_empty (c ∷ s) = false

-- `readLength`
unfoldable pub read_length : Parser ℕ
read_length s =
    let (ds, rest) = span_digits s in
    require (not (is_empty ds)) record_length
    >> (require (not (is_empty rest)) record_length
        >> (or_throw (stoull ds) record_length >>= λ n. ok (n, rest)))

-- `consume`
unfoldable pub consume : ℕ → Str → Checked Corruption Str
consume expected [] = err record_delimiter
consume expected (c ∷ s) = if c == expected then ok s else err record_delimiter

-- `readField`
unfoldable pub read_field : ℕ → Parser Str
read_field n s = if ltb (length s) n then err record_length else ok (take n s, drop n s)

-- `readLengthPrefixedField`
unfoldable pub read_length_prefixed_field : ℕ → Parser Str
read_length_prefixed_field terminator s = do
  (n, s) ← read_length s
  s ← consume b',' s
  (field, s) ← read_field n s
  s ← consume terminator s
  ok (field, s)

-- `operation != "D" && operation != "P"` throws.
abbrev pub operation_type : Str → Checked Corruption RecordType
operation_type [] = err record_operation
operation_type (c ∷ s) =
    if c == b'P'
    then ok RecordType.value
    else if c == b'D'
    then ok RecordType.tombstone
    else err record_operation

-- `readRecord`
unfoldable pub read_record : Parser (Str × Entry)
read_record s = do
  (operation, s) ← read_field 1 s
  s ← consume b',' s
  type ← operation_type operation
  (sequence, s) ← read_length s
  s ← consume b',' s
  (key, s) ← read_length_prefixed_field b'=' s
  (value, s) ← read_length_prefixed_field b'\n' s
  ok ((key, record { type = type; seq = sequence; value = value }), s)

-- The loop of `parse`, for the records that are left.
unfoldable pub read_records : ℕ → Parser (List (Str × Entry))
read_records zero s = ok ([], s)
read_records (suc n) s = do (r, s) ← read_record s; (rs, s) ← read_records n s; ok (r ∷ rs, s)

-- `WALBatchParser::parse`
unfoldable pub parse_batch : Str → Checked Corruption (List (Str × Entry))
parse_batch s = do
  (n, s) ← read_length s
  s ← consume b',' s
  (records, s) ← read_records n s
  require (is_empty s) batch_length
  ok records
