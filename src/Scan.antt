-- ===== src/Scan.antt =====
-- `DB::scan` of src/DB.cpp, and the iterators under it. An iterator is what it has still to give. The
-- file of a table stands as the records that `SSTableIterator` reads from it.
pub mod Iterators
pub mod Sublists
pub mod Sound
pub mod Range
use lsmtree.Base.{
  ℕ, zero, suc, ◌+◌, ◌-◌, ◌%◌, ◌^◌, List, [], ◌∷◌, ◌++◌, map, length, ltb, not, ◌==◌, ◌&&◌,
  if◌then◌else◌, Bool, true, false,
}
use lsmtree.Manifest.{Manifest, TableMeta, Level}
use lsmtree.MemTable.{MemTable, records}
use lsmtree.Merge.{latest_visible_per_key, is_tombstone}
use lsmtree.Merge.Queue.{Sources, merge_all}
use lsmtree.Record.{Record, RecordType}
use lsmtree.Text.{Str, str_lt, str_le}

-- What a scan reads of a database.
pub record Db : Type 0 where
  pub active_mem_table : MemTable
  pub manifest : Manifest
  pub next_seq : ℕ
  pub files : ℕ → List Record

-- `SnapshotIterator`: the wrapped iterator, and the read sequence
pub record SnapshotIterator : Type 0 where
  pub iterator : List Record
  pub read_seq : ℕ

-- `skipInvisibleRecords`, on the wrapped iterator
unfoldable pub skip_invisible_records : ℕ → List Record → List Record
skip_invisible_records s [] = []
skip_invisible_records s (r ∷ rs) =
    let rest = skip_invisible_records s rs in if ltb s r.seq then rest else r ∷ rs

-- The constructor.
unfoldable pub snapshot_iterator : List Record → ℕ → SnapshotIterator
snapshot_iterator iterator s = record { iterator = skip_invisible_records s iterator; read_seq = s }

-- `advance`, on an iterator that is valid
unfoldable pub advance : SnapshotIterator → SnapshotIterator
advance i = record i {
  iterator = skip_invisible_records i.read_seq (elim i.iterator [ [] ↦ [] | r ∷ rs ↦ rs ]);
}

-- What `current` gives until the iterator is no longer valid, in so many steps.
unfoldable pub drain : ℕ → SnapshotIterator → List Record
drain zero i = []
drain (suc n) i = elim i.iterator [ [] ↦ [] | r ∷ rs ↦ r ∷ drain n (advance i) ]

-- All that a snapshot iterator gives; no step gives more than one record.
abbrev pub snapshot_records : ℕ → List Record → List Record
snapshot_records s source = drain (length source) (snapshot_iterator source s)

-- `overlapsScanRange`
abbrev pub overlaps_scan_range : TableMeta → Str → Str → Bool
overlaps_scan_range t start end = str_le start t.max_key && str_lt t.min_key end

-- `selectScanTables`, on one level
unfoldable pub select_of_level : Level → Str → Str → List ℕ
select_of_level [] start end = []
select_of_level (t ∷ ts) start end =
    let rest = select_of_level ts start end in
    if overlaps_scan_range t start end then t.number ∷ rest else rest

unfoldable pub select_of_levels : List Level → Str → Str → List ℕ
select_of_levels [] start end = []
select_of_levels (l ∷ ls) start end = select_of_level l start end ++ select_of_levels ls start end

-- `selectScanTables`
abbrev pub select_scan_tables : Manifest → Str → Str → List ℕ
select_scan_tables m start end = select_of_levels m.levels start end

-- The iterators of a scan: the memtable's, then one for each selected table.
abbrev pub scan_sources : Db → Str → Str → Sources
scan_sources db start end =
    records db.active_mem_table.table ∷ map db.files (select_scan_tables db.manifest start end)

-- The default read sequence stands for the newest.
abbrev pub scan_sequence : Db → ℕ → ℕ
scan_sequence db read_seq =
    if read_seq == 2 ^ 64 - 1 then (db.next_seq + (2 ^ 64 - 1)) % 2 ^ 64 else read_seq

-- The filter behind the merge.
unfoldable pub in_range : Str → Str → List Record → List Record
in_range start end [] = []
in_range start end (r ∷ rs) =
    let rest = in_range start end rs in
    if str_le start r.key && (str_lt r.key end && not (is_tombstone r.type)) then r ∷ rest else rest

-- `DB::scan`
unfoldable pub scan : Db → Str → Str → ℕ → List Record
scan db start end read_seq =
    let s = scan_sequence db read_seq in
    in_range start end
      (latest_visible_per_key (merge_all (map (snapshot_records s) (scan_sources db start end))))
