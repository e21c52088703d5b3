-- ===== src/Tests/Store.antt =====
-- A database on table files on a disk, of which a snapshot was taken when it was empty.
use lsmtree.SsTable.Disk.{Disk}
use lsmtree.Tests.DiskFiles.{
  table_files, table_laws, empty_disk, disk_a, is_free, all_read, held, wrote, measured,
  disk_a_opens, Holds-a,
}
use lsmtree.Base.{
  ℕ, ◌≡◌, refl, ap, subst, ◌∙◌, List, [], ◌∷◌, length, true, false, none, some, arith,
}
use lsmtree.Database.{Database, Options}
use lsmtree.Database.Batch.{WriteBatch}
use lsmtree.Database.Compact.{SaveAnswer}
use lsmtree.Database.Flush.{FlushAnswers, apply_write, flush}
use lsmtree.Database.Flushes.{KeepsReads, flush-KeepsReads}
use lsmtree.Database.FlushTable.{Succeeds}
use lsmtree.Database.Order.{IsOrdered}
use lsmtree.Database.Writes.{apply_write-IsOrdered}
use lsmtree.Manifest.{new_manifest}
use lsmtree.MemTable.Restore.{fresh, open_writer}
use lsmtree.Record.{Record, RecordType}
use lsmtree.Wal.Writer.{Answers, write}
use lsmtree.Wal.{encode_batch, encode_wal_frame}
use lsmtree.Tests.{put_a}
use lsmtree.MemTable.{records, apply_batch, apply_records, apply_to_memory, insert_or_assign}
use lsmtree.Database.Batch.{number_records}

abbrev pub empty_database : Database table_files
empty_database = record {
  active_mem_table = fresh (open_writer none);
  wal_number = 0;
  manifest = new_manifest;
  saved_manifest = new_manifest;
  compaction_cursors = [];
  files = empty_disk;
  next_seq = 1;
  snapshots = 0 ∷ [];
  write_failed = false;
}

abbrev pub no_contents : ℕ → List Record
no_contents n = []

pub empty-IsOrdered : IsOrdered table_laws empty_database no_contents
empty-IsOrdered = record {
  memory = tt;
  memory_old = tt;
  tables = λ i t k. absurd k;
  level_zero = tt;
  disjoint = λ i. tt;
  newer_memory = λ i t k. absurd k;
  newer_levels = λ i j t u h k. absurd k;
  in_64_bits = omega arith;
  free = λ n h. is_free n;
}

-- put("a", "x")
abbrev pub batch_a : WriteBatch
batch_a = record { key = b'a' ∷ []; type = RecordType.value; value = b'x' ∷ [] } ∷ []

-- Every byte of its frame is written and synced.
abbrev pub good_a : Answers
good_a = record {
  written = some (length (encode_wal_frame (encode_batch (put_a ∷ []))));
  synced = true;
}

-- The database behind the put.
abbrev pub database_a : Database table_files
database_a = (apply_write good_a empty_database batch_a).1

apply_write-IsOrdered_example : IsOrdered table_laws database_a no_contents
apply_write-IsOrdered_example =
    apply_write-IsOrdered table_laws good_a empty_database no_contents empty-IsOrdered batch_a
      (omega arith)

pub put_acked : (apply_write good_a empty_database batch_a).0 ≡ true
unfolding apply_write apply_batch write open_writer number_records
put_acked = ground arith

pub memory_a : records database_a.active_mem_table.table ≡ put_a ∷ []
unfolding apply_write apply_batch write open_writer number_records apply_records apply_to_memory
    insert_or_assign
memory_a = ground arith

pub ordered_a : IsOrdered table_laws database_a no_contents
ordered_a =
    apply_write-IsOrdered table_laws good_a empty_database no_contents empty-IsOrdered batch_a
      (omega arith)

-- Every step of a flush succeeds, and no compaction follows.
abbrev pub good_flush : FlushAnswers
good_flush = record {
  directory = true;
  manifest = SaveAnswer.saved;
  log_file = none;
  log_opened = true;
  log_removed = true;
  compactions = [];
}

pub flush_succeeds : Succeeds table_laws good_flush database_a
unfolding apply_write
flush_succeeds = record {
  some_record = λ e. cc (e, memory_a);
  directory = refl;
  absent = refl;
  bytes = 84;
  written = ap (λ rs. (table_files.write_table empty_disk 0 rs).1) memory_a ∙ wrote;
  size = 84;
  measured =
      ap (λ rs. table_files.table_size (table_files.write_table empty_disk 0 rs).0 0) memory_a
      ∙ measured;
  saved = refl;
  no_log = refl;
  opened = refl;
  room = omega arith;
}

abbrev pub thresholds : Options
thresholds = record {
  flush_threshold_bytes = 1024;
  level0_compaction_threshold = 4;
  compaction_slice_bytes = 1024;
  compaction_base_threshold_bytes = 1024;
}

flush-KeepsReads_example :
    KeepsReads table_laws database_a (flush thresholds good_flush database_a).1 no_contents
flush-KeepsReads_example =
    flush-KeepsReads table_laws thresholds good_flush database_a no_contents ordered_a
      flush_succeeds refl tt

-- Level 0 is compacted as soon as it has a table.
abbrev pub compact_now : Options
compact_now = record thresholds { level0_compaction_threshold = 0 }

-- The table that the flush writes has the put.
pub table_a :
    (d : Disk) (rs : List Record)
    → d ≡ (table_files.write_table empty_disk 0 (records database_a.active_mem_table.table)).0
    → table_laws.Holds d 0 rs
    → rs ≡ put_a ∷ []
table_a d rs e h =
    let same : d ≡ disk_a = e ∙ ap (λ qs. (table_files.write_table empty_disk 0 qs).0) memory_a in
    held disk_a 0 rs (put_a ∷ []) (all_read disk_a disk_a_opens)
      (subst (λ (x : Disk). table_laws.Holds x 0 rs) same h) Holds-a
