-- ===== src/Tests/Puts.antt =====
-- A put and a removal on a database, and the reads behind them.
use lsmtree.Tests.Store.{database_a, ordered_a, no_contents, good_flush, thresholds}
use lsmtree.Tests.DiskFiles.{all_read, table_laws}
use lsmtree.Base.{
  if◌then◌else◌, ℕ, ◌+◌, ◌<◌, ◌^◌, ltb, ◌≡◌, ◌≢◌, refl, [], ◌∷◌, length, true, false, none, some,
  arith,
}
use lsmtree.Database.{get_newest}
use lsmtree.Database.Batch.{BatchRecord, WriteBatch}
use lsmtree.Database.Batch
use lsmtree.Database.Flush.{apply_write, put, remove}
use lsmtree.MemTable.Restore.{open_writer}
use lsmtree.Record.{Record, RecordType}
use lsmtree.Text.{Str, compare_str}
use lsmtree.Wal.Writer.{Answers, write}
use lsmtree.Wal.{encode_batch, encode_wal_frame, encode_wal_records, encode_wal_record}
use lsmtree.Text.Words.{le_bytes}
use lsmtree.Text.Decimal.{to_string}
use lsmtree.Tests.{put_b}
use lsmtree.Database.Reads.{get_newest-put, get_newest-remove}
use lsmtree.MemTable.{
  size_bytes, find, apply_batch, apply_records, apply_to_memory, insert_or_assign,
}
use lsmtree.Database.Batch.{number_records}

room_a : database_a.next_seq + 1 < 2 ^ 64
unfolding apply_write
room_a = omega arith

-- put("b", "y") and remove("a") behind the put of "a"
abbrev good_b : Answers
good_b = record {
  written = some (length (encode_wal_frame (encode_batch (put_b ∷ []))));
  synced = true;
}

abbrev remove_second : Record
remove_second = record { key = b'a' ∷ []; seq = 2; type = RecordType.tombstone; value = [] }

abbrev good_remove : Answers
good_remove = record {
  written = some (length (encode_wal_frame (encode_batch (remove_second ∷ []))));
  synced = true;
}

opens_a : (t n : ℕ) → database_a.files.opens t n ≡ true
unfolding apply_write
opens_a t n = refl

put_b_acked : (apply_write good_b database_a (Batch.put [] (b'b' ∷ []) (b'y' ∷ []))).0 ≡ true
unfolding apply_write apply_batch write open_writer number_records apply_records apply_to_memory
    insert_or_assign Batch.put
put_b_acked = ground arith

put_b_small :
    ltb thresholds.flush_threshold_bytes (
      size_bytes
        (apply_write good_b database_a (Batch.put [] (b'b' ∷ []) (b'y' ∷ []))).1.active_mem_table)
    ≡ false
unfolding apply_write apply_batch write open_writer number_records apply_records apply_to_memory
    insert_or_assign find compare_str encode_wal_frame encode_batch Batch.put le_bytes to_string
    encode_wal_records encode_wal_record
put_b_small = refl

get_newest-put_example :
    ((get_newest
        (put thresholds good_b good_flush database_a (b'b' ∷ []) (b'y' ∷ [])).1
        (b'b' ∷ [])).1
      ≡ (if (put thresholds good_b good_flush database_a (b'b' ∷ []) (b'y' ∷ [])).0
          then some (some (b'y' ∷ []))
          else (get_newest database_a (b'b' ∷ [])).1))
    × ((j : Str)
        → (b'b' ∷ []) ≢ j
        → (get_newest (put thresholds good_b good_flush database_a (b'b' ∷ []) (b'y' ∷ [])).1 j).1
          ≡ (get_newest database_a j).1)
get_newest-put_example =
    get_newest-put table_laws thresholds good_b good_flush database_a no_contents ordered_a room_a
      (all_read database_a.files opens_a) (b'b' ∷ []) (b'y' ∷ []) put_b_small

remove_acked : (apply_write good_remove database_a (Batch.remove [] (b'a' ∷ []))).0 ≡ true
unfolding apply_write apply_batch write open_writer number_records apply_records apply_to_memory
    insert_or_assign Batch.remove
remove_acked = ground arith

remove_small :
    ltb thresholds.flush_threshold_bytes (
      size_bytes
        (apply_write good_remove database_a (Batch.remove [] (b'a' ∷ []))).1.active_mem_table)
    ≡ false
unfolding apply_write apply_batch write open_writer number_records apply_records apply_to_memory
    insert_or_assign find compare_str encode_wal_frame encode_batch Batch.remove le_bytes to_string
    encode_wal_records encode_wal_record
remove_small = refl

get_newest-remove_example :
    ((get_newest (remove thresholds good_remove good_flush database_a (b'a' ∷ [])).1 (b'a' ∷ [])).1
      ≡ (if (remove thresholds good_remove good_flush database_a (b'a' ∷ [])).0
          then some none
          else (get_newest database_a (b'a' ∷ [])).1))
    × ((j : Str)
        → (b'a' ∷ []) ≢ j
        → (get_newest (remove thresholds good_remove good_flush database_a (b'a' ∷ [])).1 j).1
          ≡ (get_newest database_a j).1)
get_newest-remove_example =
    get_newest-remove table_laws thresholds good_remove good_flush database_a no_contents ordered_a
      room_a (all_read database_a.files opens_a) (b'a' ∷ []) remove_small
