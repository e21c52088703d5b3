-- ===== src/Tests/Log.antt =====
-- Tests of the write-ahead log.
use lsmtree.Base.{◌+◌, ◌≡◌, refl, [], ◌∷◌, ◌++◌, length, take, drop, replicate, true, arith}
use lsmtree.Base.Checked.{ok, err}
use lsmtree.Checksum.{crc32}
use lsmtree.Record.{Record, RecordType}
use lsmtree.Tests.{put_a, put_b, two_puts}
use lsmtree.Text.{Str}
use lsmtree.Text.Affix.{starts_with, ends_with}
use lsmtree.Text.Decimal.{to_string, digits_before}
use lsmtree.Text.Words.{le_bytes}
use lsmtree.Wal.{
  encode_batch, encode_wal_record, encode_wal_records, encode_wal_frame, before_committed_batch,
}
use lsmtree.Wal.BatchRoundTrip.{FitsWal}
use lsmtree.Wal.Frames.{parse_wal_records}
use lsmtree.Wal.Recovery.{FitsBatch, encode_log, entries_of, parse_wal_records-encode_log}
use lsmtree.Wal.Torn.{ends_committed, recover_zero_tail, torn_marker_refused}

batch_bytes :
    encode_batch (put_a ∷ [])
    ≡ b'1' ∷ b',' ∷ b'P' ∷ b',' ∷ b'1' ∷ b',' ∷ b'1' ∷ b',' ∷ b'a' ∷ b'=' ∷ b'1' ∷ b',' ∷ b'x'
      ∷ b'\n' ∷ []
unfolding encode_batch encode_wal_records encode_wal_record to_string digits_before
batch_bytes = refl

put_a-FitsWal : FitsWal put_a
put_a-FitsWal = record { seq = omega arith; key = omega arith; value = omega arith }

put_b-FitsWal : FitsWal put_b
put_b-FitsWal = record { seq = omega arith; key = omega arith; value = omega arith }

pub two_puts-FitsBatch : FitsBatch two_puts
unfolding encode_batch encode_wal_records encode_wal_record to_string digits_before
two_puts-FitsBatch = record {
  few = omega arith;
  records = (put_a-FitsWal, (put_b-FitsWal, tt));
  payload = omega arith;
}

parse_wal_records-encode_log_example :
    parse_wal_records (encode_log (two_puts ∷ two_puts ∷ [])) 5
    ≡ ok (entries_of (two_puts ∷ two_puts ∷ []), 5 + length (encode_log (two_puts ∷ two_puts ∷ [])))
parse_wal_records-encode_log_example =
    parse_wal_records-encode_log (two_puts ∷ two_puts ∷ [])
      (two_puts-FitsBatch, (two_puts-FitsBatch, tt))

-- The first 3 bytes of a frame, and the rest.
abbrev pub started : Str
started = b'W' ∷ b'F' ∷ b'R' ∷ []

abbrev pub missing : Str
missing = drop 4 (encode_wal_frame (encode_batch two_puts))

pub torn_frame : encode_wal_frame (encode_batch two_puts) ≡ started ++ b'M' ∷ missing
unfolding encode_wal_frame
torn_frame = refl

recover_zero_tail_example :
    parse_wal_records (encode_log (two_puts ∷ []) ++ replicate 7 0) 5
    ≡ ok (entries_of (two_puts ∷ []), 5 + length (encode_log (two_puts ∷ [])))
recover_zero_tail_example = recover_zero_tail (two_puts ∷ []) 7 (two_puts-FitsBatch, tt)

-- put("WCMT", "x") at 1
abbrev put_marker : Record
put_marker = record {
  key = b'W' ∷ b'C' ∷ b'M' ∷ b'T' ∷ [];
  seq = 1;
  type = RecordType.value;
  value = b'x' ∷ [];
}

put_marker-FitsBatch : FitsBatch (put_marker ∷ [])
unfolding encode_batch encode_wal_records encode_wal_record to_string digits_before
put_marker-FitsBatch = record {
  few = omega arith;
  records = (record { seq = omega arith; key = omega arith; value = omega arith }, tt);
  payload = omega arith;
}

-- The bytes behind the first, up to the end of the key.
abbrev up_to_key : Str
up_to_key = take 23 (drop 1 (encode_wal_frame (encode_batch (put_marker ∷ []))))

abbrev behind_key : Str
behind_key = drop 25 (encode_wal_frame (encode_batch (put_marker ∷ [])))

marker_is_torn :
    encode_wal_frame (encode_batch (put_marker ∷ [])) ≡ b'W' ∷ up_to_key ++ b'=' ∷ behind_key
unfolding encode_wal_frame encode_batch encode_wal_records encode_wal_record to_string digits_before
    le_bytes crc32
marker_is_torn = refl

marker_ends_committed : ends_committed (b'W' ∷ up_to_key) ≡ true
unfolding encode_wal_frame encode_batch encode_wal_records encode_wal_record to_string digits_before
    le_bytes crc32 ends_with starts_with
marker_ends_committed = refl

torn_marker_refused_example :
    parse_wal_records (encode_log (two_puts ∷ []) ++ b'W' ∷ up_to_key) 5
    ≡ err before_committed_batch
torn_marker_refused_example =
    torn_marker_refused (two_puts ∷ []) (put_marker ∷ []) b'W' up_to_key behind_key b'='
      (two_puts-FitsBatch, tt) put_marker-FitsBatch marker_is_torn marker_ends_committed
