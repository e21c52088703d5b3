-- ===== src/Wal.antt =====
-- The write-ahead log of src/MemTable.cpp: its format and its encoder.
pub mod Batch
pub mod BatchRoundTrip
pub mod Frames
pub mod FrameRoundTrip
pub mod Recovery
pub mod Torn
pub mod Writer
use lsmtree.Base.{ℕ, ◌+◌, List, [], ◌∷◌, ◌++◌, length}
use lsmtree.Checksum.{crc32}
use lsmtree.Record.{Record, RecordType, Entry}
use lsmtree.Text.{Str}
use lsmtree.Text.Decimal.{to_string}
use lsmtree.Text.Words.{le_bytes}

-- "LWAL"
abbrev pub wal_magic : Str
wal_magic = b'L' ∷ b'W' ∷ b'A' ∷ b'L' ∷ []

abbrev pub wal_version : ℕ
wal_version = 2

abbrev pub wal_header_size : ℕ
wal_header_size = 5

-- "WFRM"
abbrev pub frame_magic : Str
frame_magic = b'W' ∷ b'F' ∷ b'R' ∷ b'M' ∷ []

-- "WCMT"
abbrev pub commit_magic : Str
commit_magic = b'W' ∷ b'C' ∷ b'M' ∷ b'T' ∷ []

-- Frame magic, payload size, checksum and commit magic.
abbrev pub frame_metadata_size : ℕ
frame_metadata_size = 20

-- What the parsers throw; each constructor is one of the messages.
pub data Corruption : Type 0 where
  batch_length record_operation record_length record_delimiter frame_checksum : Corruption
  before_committed_batch invalid_format : Corruption
  -- no exception of the program: the fuel of a loop ran out
  stuck : Corruption

abbrev pub operation : RecordType → ℕ
operation RecordType.value = b'P'
operation RecordType.tombstone = b'D'

-- `encodeWALRecord`
unfoldable pub encode_wal_record : Record → Str
encode_wal_record r =
    operation r.type
    ∷ b','
    ∷ (to_string r.seq
        ++ b','
          ∷ (to_string (length r.key)
              ++ b','
                ∷ (r.key ++ b'=' ∷ (to_string (length r.value) ++ b',' ∷ (r.value ++ b'\n' ∷ [])))))

unfoldable pub encode_wal_records : List Record → Str
encode_wal_records [] = []
encode_wal_records (r ∷ rs) = encode_wal_record r ++ encode_wal_records rs

-- The payload that `applyBatch` builds.
unfoldable pub encode_batch : List Record → Str
encode_batch ops = to_string (length ops) ++ b',' ∷ encode_wal_records ops

-- `encodeWALFrame`
unfoldable pub encode_wal_frame : Str → Str
encode_wal_frame payload =
    frame_magic
    ++ (le_bytes 8 (length payload) ++ (payload ++ (le_bytes 4 (crc32 payload) ++ commit_magic)))

-- What a logged record stands for in memory.
abbrev pub entry_of : Record → Str × Entry
entry_of r = (r.key, record { type = r.type; seq = r.seq; value = r.value })
