-- ===== src/MemTable.antt =====
-- `class MemTable` of src/MemTable.cpp.
mod Map
pub mod Insert
pub mod Lookup
pub mod Restore
pub mod Reopen
pub mod Durability
pub mod Size
pub use Map.{Table, records}
unfoldable pub use Map.{lower_bound, find, insert_or_assign}
use lsmtree.Base.{
  ℕ, ◌+◌, ◌-◌, ◌%◌, ◌^◌, ◌≡◌, refl, List, [], ◌∷◌, ◌++◌, length, max, not, if◌then◌else◌, Bool,
  true, false, Option, none, some,
}
use lsmtree.Base.Checked.{Checked, ok, err, ◌>>=◌}
use lsmtree.Record.{Record, RecordType, Entry, Key, Result}
use lsmtree.Text.{Str, str_eq}
use lsmtree.Wal.{encode_batch, encode_wal_frame, entry_of}
use lsmtree.Wal.Writer.{WalFileWriter, Answers, write}

pub record MemTable : Type 0 where
  pub table : Table
  pub wal_writer : WalFileWriter
  pub current_size_bytes : ℕ
  pub current_seq : ℕ

-- `entrySize`: the type takes one byte and the sequence eight.
abbrev pub entry_size : Str → Entry → ℕ
entry_size key e = length key + length e.value + 1 + 8

-- size_t arithmetic
abbrev pub size_mod : ℕ
size_mod = 2 ^ 64

-- `currentSizeBytes_ -= entrySize(key, existing->second)`, if there is such an entry
abbrev release_size : Str → Option Entry → ℕ → ℕ
release_size key none n = n
release_size key (some e) n = (n + (size_mod - entry_size key e % size_mod)) % size_mod

-- `applyToMemory`
unfoldable pub apply_to_memory : MemTable → Str → Entry → MemTable
apply_to_memory m key e =
    let map_key : Key = record { key = key; seq = e.seq } in
    let released = release_size key (find map_key m.table) m.current_size_bytes in
    record m {
      current_size_bytes = (released + entry_size key e) % size_mod;
      table = insert_or_assign map_key e m.table;
      current_seq = max e.seq m.current_seq;
    }

-- The loop over a batch, or over what a log held.
unfoldable pub apply_all : MemTable → List (Str × Entry) → MemTable
apply_all m [] = m
apply_all m ((key, e) ∷ es) = apply_all (apply_to_memory m key e) es

unfoldable pub apply_records : MemTable → List Record → MemTable
apply_records m [] = m
apply_records m (r ∷ rs) = apply_records (apply_to_memory m r.key (entry_of r).1) rs

-- `applyBatch`
unfoldable pub apply_batch : Answers → MemTable → List Record → Bool × MemTable
apply_batch io m [] = (true, m)
apply_batch io m (op ∷ ops) =
    let (written, w) = write io m.wal_writer (encode_wal_frame (encode_batch (op ∷ ops))) in
    if written
    then (true, apply_records (record m { wal_writer = w }) (op ∷ ops))
    else (false, record m { wal_writer = w })

-- `put`
unfoldable pub put : Answers → MemTable → Str → ℕ → Str → Bool × MemTable
put io m key seq value =
    apply_batch io m (record { key = key; seq = seq; type = RecordType.value; value = value } ∷ [])

-- `remove`
unfoldable pub remove : Answers → MemTable → Str → ℕ → Bool × MemTable
remove io m key seq =
    apply_batch io m (record { key = key; seq = seq; type = RecordType.tombstone; value = [] } ∷ [])

abbrev result_of_type : RecordType → Str → Result
result_of_type RecordType.value v = Result.value v
result_of_type RecordType.tombstone v = Result.tombstone

-- The answer at the place that `lower_bound` found.
abbrev answer : Str → Table → Result
answer key [] = Result.absent
answer key ((k, e) ∷ rest) =
    if not (str_eq k.key key) then Result.absent else result_of_type e.type e.value

-- `get`
unfoldable pub get : MemTable → Str → ℕ → Result
get m key read_seq = answer key (lower_bound (record { key = key; seq = read_seq }) m.table)

-- `size`, `size_bytes` and `getMaxWALSeq`
abbrev pub size : MemTable → ℕ
size m = length m.table

abbrev pub size_bytes : MemTable → ℕ
size_bytes m = m.current_size_bytes

abbrev pub get_max_wal_seq : MemTable → ℕ
get_max_wal_seq m = m.current_seq
