-- ===== src/Database.antt =====
-- `class DB` of src/DB.cpp: its state, and the reads. The table files are an interface.
pub mod Order
pub mod First
pub mod Lookup
pub mod Spans
pub mod Levels
pub mod Newest
pub mod Select
pub mod Compact
pub mod Grow
pub mod Written
pub mod Output
pub mod Views
pub mod Selects
pub mod Installed
pub mod Swapped
pub mod Kept
pub mod Outputs
pub mod Trimmed
pub mod Taken
pub mod Finish
pub mod Preserves
pub mod Compacts
pub mod Stretch
pub mod Numbers
pub mod Chosen
pub mod Higher
pub mod Rounds
pub mod Batch
pub mod Flush
pub mod Flushed
pub mod FlushTable
pub mod Flushes
pub mod Writes
pub mod Snapshots
pub mod Reads
use lsmtree.Base.{
  ℕ, zero, suc, ◌+◌, ◌-◌, ◌%◌, ◌^◌, List, [], ◌∷◌, ◌||◌, if◌then◌else◌, Bool, Option, none, some,
}
use lsmtree.Base.Checked.{Checked, ok, err}
use lsmtree.Manifest.{Manifest, TableMeta, Level, level, level_count, get_table_meta}
use lsmtree.MemTable.{MemTable, get}
use lsmtree.Record.{Record, Result}
use lsmtree.Scan.{Db}
use lsmtree.TableFiles.{TableFiles}
use lsmtree.Text.{Str, str_lt}

-- The thresholds that the constructor is given.
pub record Options : Type 0 where
  pub flush_threshold_bytes : ℕ
  pub level0_compaction_threshold : ℕ
  pub compaction_slice_bytes : ℕ
  pub compaction_base_threshold_bytes : ℕ

-- `wal_number` is the number in `walFilePath_`, and `snapshots` the multiset of the active snapshots
-- in ascending order. `saved_manifest` is what the file MANIFEST holds.
pub record Database (F : TableFiles) : Type 0 where
  pub active_mem_table : MemTable
  pub wal_number : ℕ
  pub manifest : Manifest
  pub saved_manifest : Manifest
  pub compaction_cursors : List (ℕ × Str)
  pub files : F.Files
  pub next_seq : ℕ
  pub snapshots : List ℕ
  pub write_failed : Bool

-- `nextSeq_ - 1`
abbrev pub last_seq_of : ℕ → ℕ
last_seq_of next_seq = (next_seq + (2 ^ 64 - 1)) % 2 ^ 64

-- `result == Result::VALUE`, and the value
abbrev pub value_of : Result → Option Str
value_of (Result.value v) = some v
value_of Result.tombstone = none
value_of Result.absent = none

module _ {F : TableFiles} where
  -- The part of the database that a scan reads, where the tables hold these records.
  abbrev pub view : Database F → (ℕ → List Record) → Db
  view db contents = record {
    active_mem_table = db.active_mem_table;
    manifest = db.manifest;
    next_seq = db.next_seq;
    files = contents;
  }

  -- `searchTable`
  unfoldable pub search_table : Database F → ℕ → Str → ℕ → Database F × Option Result
  search_table db number key read_seq =
      let (fs, result) = F.search_table db.files number key read_seq in
      (record db { files = fs }, result)

  -- A search goes on where the last one found nothing; a throw ends it.
  abbrev pub or_else :
      Database F × Option Result
      → (Database F → Database F × Option Result)
      → Database F × Option Result
  or_else (db, none) f = (db, none)
  or_else (db, some Result.absent) f = f db
  or_else (db, some Result.tombstone) f = (db, some Result.tombstone)
  or_else (db, some (Result.value v)) f = (db, some (Result.value v))

  -- One round over level 0.
  unfoldable pub search_in_range : Database F → TableMeta → Str → ℕ → Database F × Option Result
  search_in_range db t key read_seq =
      if str_lt key t.min_key || str_lt t.max_key key
      then (db, some Result.absent)
      else search_table db t.number key read_seq

  -- The loop over level 0.
  unfoldable pub search_level_zero : Database F → Level → Str → ℕ → Database F × Option Result
  search_level_zero db [] key read_seq = (db, some Result.absent)
  search_level_zero db (t ∷ ts) key read_seq =
      or_else (search_in_range db t key read_seq) (λ db. search_level_zero db ts key read_seq)

  -- What a round does with the answer of `getTableMeta`.
  abbrev pub search_found :
      Database F → Str → ℕ → Checked (Unit {0}) (Option TableMeta) → Database F × Option Result
  search_found db key read_seq (err thrown) = (db, none)
  search_found db key read_seq (ok none) = (db, some Result.absent)
  search_found db key read_seq (ok (some t)) = search_table db t.number key read_seq

  -- One round over the other levels.
  unfoldable pub search_level : Database F → ℕ → Str → ℕ → Database F × Option Result
  search_level db number key read_seq =
      search_found db key read_seq (get_table_meta db.manifest number key)

  -- The loop over the other levels: so many from this one on.
  unfoldable pub search_levels : Database F → ℕ → ℕ → Str → ℕ → Database F × Option Result
  search_levels db zero number key read_seq = (db, some Result.absent)
  search_levels db (suc left) number key read_seq =
      or_else (search_level db number key read_seq)
        (λ db. search_levels db left (suc number) key read_seq)

  -- `searchSSTables`
  unfoldable pub search_sstables : Database F → Str → ℕ → Database F × Option Result
  search_sstables db key read_seq =
      or_else (search_level_zero db (level db.manifest 0) key read_seq)
        (λ db. search_levels db (level_count db.manifest - 1) 1 key read_seq)

  -- `result == Result::VALUE`, behind a search
  abbrev pub reply : Database F × Option Result → Database F × Option (Option Str)
  reply (db, none) = (db, none)
  reply (db, some r) = (db, some (value_of r))

  -- `get` with a read sequence; `none` is an exception, and `some none` the answer false.
  unfoldable pub get_at : Database F → Str → ℕ → Database F × Option (Option Str)
  get_at db key read_seq = reply (
      or_else (db, some (get db.active_mem_table key read_seq))
        (λ db. search_sstables db key read_seq))

  -- `get` of the newest.
  unfoldable pub get_newest : Database F → Str → Database F × Option (Option Str)
  get_newest db key = get_at db key (last_seq_of db.next_seq)
