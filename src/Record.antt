-- ===== src/Record.antt =====
-- The shared types of inc/utils.h: record types, entries, keys and records.
pub mod Visible
pub mod Sorted
pub mod Latest
pub mod Apart
use lsmtree.Base.{ℕ, ◌+◌, Bool, ltb, if◌then◌else◌, not, length}
use lsmtree.Text.{Str, str_eq, str_lt}

-- `enum class Type`
pub data RecordType : Type 0 where
  value tombstone : RecordType

-- `enum class Result`. What the caller finds in the out-parameter stands with `value`.
pub data Result : Type 0 where
  value : Str → Result
  tombstone absent : Result

pub record Entry : Type 0 where
  pub type : RecordType
  pub seq : ℕ
  pub value : Str

pub record Record : Type 0 where
  pub key : Str
  pub seq : ℕ
  pub type : RecordType
  pub value : Str

pub record Key : Type 0 where
  pub key : Str
  pub seq : ℕ

-- `Key::operator<`: by key, and the newest first within a key.
abbrev pub key_less : Key → Key → Bool
key_less a b = if not (str_eq a.key b.key) then str_lt a.key b.key else ltb b.seq a.seq

abbrev pub encoded_record_header_size : ℕ
encoded_record_header_size = 17

abbrev pub encoded_record_checksum_size : ℕ
encoded_record_checksum_size = 4

-- `encodedRecordSize`
abbrev pub encoded_record_size : Record → ℕ
encoded_record_size r =
    encoded_record_header_size + length r.key + length r.value + encoded_record_checksum_size
