-- ===== src/Tests/Memory.antt =====
-- Tests of the memtable.
use lsmtree.Base.{◌≡◌, refl, [], ◌∷◌, ◌++◌, length, drop, true, false, none, some, arith}
use lsmtree.Base.Checked.{ok}
use lsmtree.MemTable.{MemTable, Table, apply_records, apply_batch, get}
use lsmtree.MemTable.Durability.{History, open_mem_table-History, open_mem_table-crash}
use lsmtree.MemTable.Lookup.{get-apply_records}
use lsmtree.MemTable.Restore.{open_writer, fresh, open_mem_table}
use lsmtree.MemTable.Size.{IsCounted, apply_batch-IsCounted, apply_batch_fails, table_bytes}
use lsmtree.Record.{RecordType, Entry, Key, Result}
use lsmtree.Record.Visible.{visible, result_of}
use lsmtree.Tests.{put_a, put_b, remove_a, two_puts}
use lsmtree.Tests.Log.{two_puts-FitsBatch, started, missing, torn_frame}
use lsmtree.Text.{compare_str}
use lsmtree.Text.Affix.{starts_with, ends_with}
use lsmtree.Wal.{encode_batch, encode_wal_frame}
use lsmtree.Wal.Frames.{has_valid_frame_after}
use lsmtree.Wal.Torn.{ends_committed}
use lsmtree.Wal.Writer.{Answers, write}

-- Every byte of the frame of two puts is written and synced.
abbrev good : Answers
good = record { written = some (length (encode_wal_frame (encode_batch two_puts))); synced = true }

-- `write` returns -1.
abbrev bad : Answers
bad = record { written = none; synced = true }

abbrev empty_mem_table : MemTable
empty_mem_table = fresh (open_writer none)

-- The memtable after two puts.
abbrev after_two : MemTable
after_two = (apply_batch good empty_mem_table two_puts).1

two_puts_acked : (apply_batch good empty_mem_table two_puts).0 ≡ true
unfolding apply_batch write open_writer
two_puts_acked = ground arith

two_puts-History : History after_two (two_puts ∷ [])
two_puts-History =
    History.acked good put_a (put_b ∷ []) History.opened two_puts-FitsBatch two_puts_acked

open_mem_table-History_example : open_mem_table (some after_two.wal_writer.file) ≡ ok after_two
open_mem_table-History_example = open_mem_table-History two_puts-History

not_committed : ends_committed started ≡ false
unfolding ends_with starts_with
not_committed = refl

none_after : has_valid_frame_after (drop 1 started) ≡ false
unfolding has_valid_frame_after starts_with
none_after = refl

open_mem_table-crash_example :
    open_mem_table (some (after_two.wal_writer.file ++ started)) ≡ ok after_two
open_mem_table-crash_example =
    open_mem_table-crash two_puts started missing b'M' two_puts-History two_puts-FitsBatch
      torn_frame not_committed none_after

empty-IsCounted : IsCounted empty_mem_table
unfolding table_bytes open_writer
empty-IsCounted = record { bytes = refl; newest = tt }

apply_batch-IsCounted_example : IsCounted after_two
apply_batch-IsCounted_example = apply_batch-IsCounted good empty_mem_table two_puts empty-IsCounted

two_puts_fail : (apply_batch bad empty_mem_table two_puts).0 ≡ false
unfolding apply_batch write open_writer
two_puts_fail = refl

apply_batch_fails_example :
    let m' = (apply_batch bad empty_mem_table two_puts).1 in
    (m'.table ≡ [])
    × (m'.current_size_bytes ≡ 0)
    × (m'.current_seq ≡ 0)
    × ((apply_batch good m' two_puts).0 ≡ false)
apply_batch_fails_example =
    apply_batch_fails bad good empty_mem_table two_puts put_a (put_b ∷ []) two_puts_fail

get-apply_records_example :
    get (apply_records empty_mem_table (put_a ∷ remove_a ∷ put_b ∷ [])) (b'a' ∷ []) 2
    ≡ result_of (visible (b'a' ∷ []) 2 (put_a ∷ remove_a ∷ put_b ∷ []))
get-apply_records_example =
    get-apply_records (b'a' ∷ []) 2 empty_mem_table (put_a ∷ remove_a ∷ put_b ∷ []) tt

-- A read behind the put sees the value, one behind the removal the tombstone.
old_and_new :
    (result_of (visible (b'a' ∷ []) 2 (put_a ∷ remove_a ∷ [])) ≡ Result.value (b'x' ∷ []))
    × (result_of (visible (b'a' ∷ []) 3 (put_a ∷ remove_a ∷ [])) ≡ Result.tombstone)
unfolding visible compare_str
old_and_new = (refl, refl)

abbrev key_a : Key
key_a = record { key = b'a' ∷ []; seq = 3 }

abbrev gone : Entry
gone = record { type = RecordType.tombstone; seq = 3; value = [] }

abbrev one_entry : Table
one_entry =
    (
      record { key = b'a' ∷ []; seq = 1 },
      record { type = RecordType.value; seq = 1; value = b'x' ∷ [] },
    )
    ∷ []
