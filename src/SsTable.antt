-- ===== src/SsTable.antt =====
-- The records of a table file, src/SSTable.cpp and encodeSSTableRecord of src/utils.cpp. A file that is
-- being read stands as its bytes from the position on.
pub mod RoundTrip
pub mod Search
pub mod Footer
pub mod Sparse
pub mod Blocks
pub mod Located
pub mod File
pub mod IndexRead
pub mod Opened
pub mod Get
pub mod Disk
pub mod DiskSteps
pub mod DiskLaws
use lsmtree.Base.{
  ℕ, zero, suc, ◌+◌, ◌-◌, ◌<◌, ◌^◌, List, [], ◌∷◌, ◌++◌, length, take, drop, ltb, leb, ◌==◌, ◌||◌,
  not, if◌then◌else◌, Bool, true, false,
}
use lsmtree.Base.Checked.{Checked, ok, err, ◌>>=◌, ◌>>◌, require}
use lsmtree.Checksum.{crc32}
use lsmtree.Record.{
  Record, RecordType, Result, encoded_record_header_size, encoded_record_checksum_size,
  encoded_record_size,
}
use lsmtree.Text.{Str, str_lt}
use lsmtree.Text.Words.{le_bytes, le_number}

-- The messages of the exceptions.
pub data TableError : Type 0 where
  field_too_large record_header record_type record_length record_key record_value record_checksum :
      TableError
  -- no exception of the program: the fuel of a loop ran out
  no_fuel : TableError

abbrev pub type_byte : RecordType → ℕ
type_byte RecordType.value = 0
type_byte RecordType.tombstone = 1

-- The fields in front of the key.
unfoldable pub record_header_bytes : Record → Str
record_header_bytes r =
    type_byte r.type
    ∷ (le_bytes 8 r.seq ++ (le_bytes 4 (length r.key) ++ le_bytes 4 (length r.value)))

-- `encodeSSTableRecord`
unfoldable pub encode_sstable_record : Record → Checked TableError Str
encode_sstable_record r =
    if leb (2 ^ 32) (length r.key) || leb (2 ^ 32) (length r.value)
    then err field_too_large
    else ok (record_header_bytes r ++ (r.key ++ r.value))

-- What `FileWriter::add` writes: the encoded record and its checksum.
unfoldable pub add_record : Record → Checked TableError Str
add_record r = do encoded ← encode_sstable_record r; ok (encoded ++ le_bytes 4 (crc32 encoded))

-- The calls of `add` in `addRecordToFile`.
unfoldable pub add_records : List Record → Checked TableError Str
add_records [] = ok []
add_records (r ∷ rs) = do first ← add_record r; others ← add_records rs; ok (first ++ others)

-- `input.read` of `n` bytes
unfoldable pub read_bytes : ℕ → TableError → Str → Checked TableError (Str × Str)
read_bytes n e s = if ltb (length s) n then err e else ok (take n s, drop n s)

abbrev pub type_of_byte : ℕ → Checked TableError RecordType
type_of_byte n =
    if n == 0
    then ok RecordType.value
    else if n == 1
    then ok RecordType.tombstone
    else err record_type

-- `readRecord`
unfoldable pub read_sstable_record : ℕ → Str → Checked TableError (Record × Str)
read_sstable_record available s = do
  require (not (ltb available (encoded_record_header_size + encoded_record_checksum_size)))
      record_header
  (header, s) ← read_bytes encoded_record_header_size record_header s
  type ← type_of_byte (le_number (take 1 header))
  let sequence = le_number (take 8 (drop 1 header))
  let key_size = le_number (take 4 (drop 9 header))
  let value_size = le_number (take 4 (drop 13 header))
  let payload = available - encoded_record_header_size - encoded_record_checksum_size
  require (not (ltb payload key_size || ltb (payload - key_size) value_size)) record_length
  (key, s) ← read_bytes key_size record_key s
  (value, s) ← read_bytes value_size record_value s
  (stored, s) ← read_bytes 4 record_checksum s
  require (crc32 (header ++ (key ++ value)) == le_number stored) record_checksum
  ok (record { key = key; seq = sequence; type = type; value = value }, s)

-- What `SSTableIterator` gives, from the bytes of records that are left; each record takes some.
unfoldable pub iterate_records : ℕ → ℕ → Str → Checked TableError (List Record)
iterate_records zero left s = if left == 0 then ok [] else err no_fuel
iterate_records (suc fuel) left s =
    if left == 0
    then ok []
    else read_sstable_record left s >>= λ (r, rest).
        iterate_records fuel (left - encoded_record_size r) rest >>= λ rs. ok (r ∷ rs)

abbrev pub table_result : RecordType → Str → Result
table_result RecordType.value v = Result.value v
table_result RecordType.tombstone v = Result.tombstone

-- The loop of `SSTable::get` over a block.
unfoldable pub search_block : ℕ → ℕ → Str → ℕ → Str → Checked TableError Result
search_block zero left key read_seq s = if left == 0 then ok Result.absent else err no_fuel
search_block (suc fuel) left key read_seq s =
    if left == 0
    then ok Result.absent
    else read_sstable_record left s >>= λ (r, rest).
        if str_lt key r.key
        then ok Result.absent
        else (if str_lt r.key key || ltb read_seq r.seq
            then search_block fuel (left - encoded_record_size r) key read_seq rest
            else ok (table_result r.type r.value))
