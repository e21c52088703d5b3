-- ===== src/Database/Flush.antt =====
-- `DB::flush`, `DB::write`, `DB::put` and `DB::remove` of src/DB.cpp.
use lsmtree.Base.{
  ℕ, ◌+◌, ◌%◌, ◌^◌, List, [], length, ltb, ◌==◌, if◌then◌else◌, Bool, true, false, Option, none,
  some,
}
use lsmtree.Base.Checked.{Checked, ok, err}
use lsmtree.Database.{Database, Options, last_seq_of}
use lsmtree.Database.Batch.{WriteBatch, number_records}
use lsmtree.Database.Batch
use lsmtree.Database.Compact.{
  SaveAnswer, Progress, save, and_then, front_key, back_key, maybe_compact,
}
use lsmtree.Manifest.{TableMeta, allocate_number, add_table}
use lsmtree.MemTable.{MemTable, records, size, size_bytes, apply_batch}
use lsmtree.MemTable.Restore.{open_mem_table}
use lsmtree.Record.{Record}
use lsmtree.TableFiles.{TableFiles}
use lsmtree.Text.{Str}
use lsmtree.Wal.{Corruption}
use lsmtree.Wal.Writer.{Answers}

-- What the system calls of a flush answer, but for those of the table files: whether the directory of
-- the tables is there or is made, what becomes of the manifest, the file that stands at the path of
-- the new log, if there is one, whether that log is opened and the old one removed, and the saves of
-- the compactions.
pub record FlushAnswers : Type 0 where
  pub directory : Bool
  pub manifest : SaveAnswer
  pub log_file : Option Str
  pub log_opened : Bool
  pub log_removed : Bool
  pub compactions : List SaveAnswer

-- The table of these records, unless the write or the `file_size` threw.
abbrev pub meta_of : ℕ → List Record → Option ℕ → Option ℕ → Option TableMeta
meta_of number rs none size = none
meta_of number rs (some bytes) none = none
meta_of number rs (some bytes) (some size) =
    some (record { number = number; size = size; min_key = front_key rs; max_key = back_key rs })

module _ {F : TableFiles} where
  -- `allocateNumber` twice, and `setLogNumber`; between the two the directory is made.
  unfoldable pub take_numbers : FlushAnswers → Database F → Bool × Database F
  take_numbers io db =
      let m = (allocate_number db.manifest).1 in
      let (wal_number, m') = allocate_number m in
      if io.directory
      then (true, record db { manifest = record m' { log_number = wal_number } })
      else (false, record db { manifest = m })

  -- `SSTable::build`, and `file_size` of its file: the table that is added
  unfoldable pub build_table : ℕ → Database F → Database F × Option TableMeta
  build_table number db =
      let rs = records db.active_mem_table.table in
      let (fs, written) = F.write_table db.files number rs in
      if F.exists_table db.files number
      then (db, none)
      else (record db { files = fs }, meta_of number rs written (F.table_size fs number))

  -- `addTable` on level 0 and `setLastSeq`, unless the table was not built.
  unfoldable pub register_table : Database F × Option TableMeta → Bool × Database F
  register_table (db, none) = (false, db)
  register_table (db, some t) =
      let (added, m) = add_table t 0 db.manifest in
      (added, record db { manifest = record m { last_seq = last_seq_of db.next_seq } })

  -- `activeMemTable_` and `walFilePath_`, unless the log was not opened.
  abbrev pub with_log : FlushAnswers → Database F → Checked Corruption MemTable → Bool × Database F
  with_log io db (err e) = (false, db)
  with_log io db (ok m) =
      if io.log_opened
      then (true, record db { active_mem_table = m; wal_number = db.manifest.log_number })
      else (false, db)

  -- The new log and its memtable.
  unfoldable pub switch_log : FlushAnswers → Database F → Bool × Database F
  switch_log io db = with_log io db (open_mem_table io.log_file)

  -- The steps of a flush up to the compactions.
  unfoldable pub flush_table : FlushAnswers → Database F → Bool × Database F
  flush_table io db = and_then (take_numbers io db) (λ d.
      and_then (register_table (build_table db.manifest.next_table_number d)) (λ d.
        and_then (save io.manifest d) (λ d. and_then (switch_log io d) (λ d. (io.log_removed, d)))))

  -- `catch (...)`: `writeFailed_` is set
  abbrev pub fail_writes : Progress × Database F → Progress × Database F
  fail_writes (Progress.thrown, db) = (Progress.thrown, record db { write_failed = true })
  fail_writes (Progress.finished, db) = (Progress.finished, db)
  fail_writes (Progress.running, db) = (Progress.running, db)

  -- The compactions behind a flush that did not throw.
  abbrev pub compact_after : Options → List SaveAnswer → Bool × Database F → Progress × Database F
  compact_after o answers (false, db) = (Progress.thrown, db)
  compact_after o answers (true, db) = maybe_compact o answers db

  -- `flush`
  unfoldable pub flush : Options → FlushAnswers → Database F → Progress × Database F
  flush o io db =
      if size db.active_mem_table == 0
      then (Progress.finished, db)
      else fail_writes (compact_after o io.compactions (flush_table io db))

  -- `write` behind the log: a flush where the memtable has grown; what it throws is dropped.
  abbrev pub flush_if_full : Options → FlushAnswers → Bool × Database F → Bool × Database F
  flush_if_full o io (false, db) = (false, db)
  flush_if_full o io (true, db) = (
    true,
    if ltb o.flush_threshold_bytes (size_bytes db.active_mem_table) then (flush o io db).1 else db,
  )

  -- The records of a batch get their numbers and go to the log and the memtable.
  unfoldable pub apply_write : Answers → Database F → WriteBatch → Bool × Database F
  apply_write log db batch =
      let (applied, m) = apply_batch log db.active_mem_table (number_records db.next_seq batch) in
      (
        applied,
        record db { next_seq = (db.next_seq + length batch) % 2 ^ 64; active_mem_table = m },
      )

  -- `write`
  unfoldable pub write :
      Options → Answers → FlushAnswers → Database F → WriteBatch → Bool × Database F
  write o log io db batch =
      if db.write_failed then (false, db) else flush_if_full o io (apply_write log db batch)

  -- `put`
  abbrev pub put : Options → Answers → FlushAnswers → Database F → Str → Str → Bool × Database F
  put o log io db key value = write o log io db (Batch.put [] key value)

  -- `remove`
  abbrev pub remove : Options → Answers → FlushAnswers → Database F → Str → Bool × Database F
  remove o log io db key = write o log io db (Batch.remove [] key)
