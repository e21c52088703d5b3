-- ===== src/Tests/Merging.antt =====
-- Tests of merges, compactions and scans.
use lsmtree.Base.{
  ◌<◌, ◌^◌, ◌≡◌, ◌↔◌, refl, List, [], ◌∷◌, true, false, some, All, In, arith, inl, inr,
}
use mathlib.Core.List.{Perm}
use lsmtree.Compaction.{compacted_records, compaction_slices, slice_loop}
use lsmtree.Compaction.Reads.{visible-compacted_records}
use lsmtree.Compaction.Slices.{bytes_of, AreDisjoint, compaction_slices-AreDisjoint}
use lsmtree.Merge.{retain_for_compaction, retain_loop, latest_visible_per_key}
use lsmtree.Merge.Latest.{Ascends, In-latest_visible_per_key}
use lsmtree.Merge.Queue.{
  Sources, merge_all, merge_loop, enqueue_all, enqueue_current, pop_top, total,
}
use lsmtree.Merge.Queue.Loop.{concat}
use lsmtree.Merge.Queue.Sorted.{Apart, merge_all-IsSorted}
use lsmtree.Merge.Queue.Sound.{merge_all-perm}
use lsmtree.Merge.Retain.{
  OneBoundary, visible-retain_for_compaction, retain_for_compaction-OneBoundary,
}
use lsmtree.Record.{Record, RecordType}
use lsmtree.Record.Sorted.{IsSorted}
use lsmtree.Record.Visible.{visible, IsLatest}
use lsmtree.Scan.{Db, scan, scan_sequence}
use lsmtree.Scan.Range.{In-scan, scan-Ascends}
use lsmtree.Scan.Sound.{stored, level_records, table_records, IsConsistent}
use lsmtree.Scan.Sublists.{AreApart, AreApart-Pairwise}
use lsmtree.Tests.{put_a, put_b, remove_a, two_puts}
use lsmtree.Text.{compare_str, str_le, str_lt}
use lsmtree.Text.Order.{Before}

-- The old table, and the new one that removes "a".
abbrev two_tables : Sources
two_tables = two_puts ∷ (remove_a ∷ []) ∷ []

-- Both in order.
abbrev all_three : List Record
all_three = remove_a ∷ put_a ∷ put_b ∷ []

a-Before_b : Before (b'a' ∷ []) (b'b' ∷ [])
unfolding compare_str
a-Before_b = refl

two_puts-IsSorted : IsSorted two_puts
two_puts-IsSorted = ((inl a-Before_b, tt), (tt, tt))

all_three-IsSorted : IsSorted all_three
all_three-IsSorted = ((inr (refl, omega arith), (inl a-Before_b, tt)), two_puts-IsSorted)

two_tables-IsSorted : All IsSorted two_tables
two_tables-IsSorted = (two_puts-IsSorted, ((tt, tt), tt))

apart : (a b : Record) → a.seq < b.seq → Apart a b
apart a b h e = omega (arith, e.1)

two_tables-AreApart : AreApart (concat two_tables)
unfolding concat
two_tables-AreApart = (
  (apart put_a put_b (omega arith), (apart put_a remove_a (omega arith), tt)),
  ((apart put_b remove_a (omega arith), tt), (tt, tt)),
)

merge_run : merge_all two_tables ≡ all_three
unfolding merge_all merge_loop enqueue_all enqueue_current pop_top total compare_str
merge_run = refl

merge_all-perm_example : Perm (merge_all two_tables) (concat two_tables)
merge_all-perm_example = merge_all-perm two_tables

merge_all-IsSorted_example : IsSorted (merge_all two_tables)
merge_all-IsSorted_example =
    merge_all-IsSorted two_tables two_tables-IsSorted
      (AreApart-Pairwise (concat two_tables) two_tables-AreApart)

-- With a snapshot at 1 both records of "a" are kept; without one only the removal is.
retain_run :
    (retain_for_compaction 1 all_three ≡ all_three)
    × (retain_for_compaction 3 all_three ≡ remove_a ∷ put_b ∷ [])
unfolding retain_for_compaction retain_loop compare_str
retain_run = (refl, refl)

visible-retain_for_compaction_example :
    visible (b'a' ∷ []) 3 (retain_for_compaction 2 all_three) ≡ visible (b'a' ∷ []) 3 all_three
visible-retain_for_compaction_example =
    visible-retain_for_compaction (b'a' ∷ []) 3 2 all_three (omega arith) all_three-IsSorted

retain_for_compaction-OneBoundary_example : OneBoundary 3 (retain_for_compaction 3 all_three)
retain_for_compaction-OneBoundary_example =
    retain_for_compaction-OneBoundary 3 all_three all_three-IsSorted

In-latest_visible_per_key_example :
    In put_b (latest_visible_per_key all_three)
    ↔ ((visible (b'b' ∷ []) 3 all_three ≡ some put_b) × (RecordType.value ≡ RecordType.value))
In-latest_visible_per_key_example =
    In-latest_visible_per_key 3 all_three put_b all_three-IsSorted
      (omega arith, (omega arith, (omega arith, tt)))

visible-compacted_records_example :
    (visible (b'b' ∷ []) 3 (compacted_records (1 ∷ []) 3 two_tables) ≡ some put_b)
    ↔ IsLatest (b'b' ∷ []) 3 (concat two_tables) put_b
visible-compacted_records_example =
    visible-compacted_records (1 ∷ []) 3 two_tables (b'b' ∷ []) 3 put_b two_tables-IsSorted
      two_tables-AreApart (omega arith)

-- The threshold is passed in the middle of the key "a", whose records stay together.
slices_run : compaction_slices 20 all_three ≡ (remove_a ∷ put_a ∷ []) ∷ (put_b ∷ []) ∷ []
unfolding compaction_slices slice_loop compare_str
slices_run = refl

all_three-bytes : bytes_of all_three < 2 ^ 64
unfolding bytes_of
all_three-bytes = omega arith

compaction_slices-AreDisjoint_example : AreDisjoint (compaction_slices 20 all_three)
compaction_slices-AreDisjoint_example =
    compaction_slices-AreDisjoint 20 all_three all_three-bytes all_three-IsSorted

-- A database with both puts in table 7 and the removal in memory.
abbrev db : Db
db = record {
  active_mem_table = record {
    table =
        (
          record { key = b'a' ∷ []; seq = 3 },
          record { type = RecordType.tombstone; seq = 3; value = [] },
        )
        ∷ [];
    wal_writer = record { file = []; poisoned = false };
    current_size_bytes = 10;
    current_seq = 3;
  };
  manifest = record {
    levels = (record { number = 7; size = 90; min_key = b'a' ∷ []; max_key = b'b' ∷ [] } ∷ []) ∷ [];
    next_table_number = 8;
    log_number = 6;
    last_seq = 2;
  };
  next_seq = 4;
  files = λ n. two_puts;
}

db-IsConsistent : IsConsistent db
unfolding stored level_records table_records compare_str
db-IsConsistent = record {
  memory = (tt, tt);
  tables = (
    (record { sorted = two_puts-IsSorted; in_bounds = ((refl, refl), ((refl, refl), tt)) }, tt),
    tt,
  );
  apart = (
    ((λ e. omega (arith, e.1)), ((λ e. omega (arith, e.1)), tt)),
    ((apart put_a put_b (omega arith), tt), (tt, tt)),
  );
}

In-scan_example : In put_b (scan db (b'a' ∷ []) (b'c' ∷ []) 3) ↔ (
    (str_le (b'a' ∷ []) (b'b' ∷ []) ≡ true)
    × (str_lt (b'b' ∷ []) (b'c' ∷ []) ≡ true)
    × (RecordType.value ≡ RecordType.value)
    × IsLatest (b'b' ∷ []) (scan_sequence db 3) (stored db) put_b)
In-scan_example = In-scan db (b'a' ∷ []) (b'c' ∷ []) 3 put_b db-IsConsistent

scan-Ascends_example : Ascends (scan db (b'a' ∷ []) (b'c' ∷ []) 3)
scan-Ascends_example = scan-Ascends db (b'a' ∷ []) (b'c' ∷ []) 3 db-IsConsistent
