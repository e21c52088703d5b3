-- ===== src/Tests/Compacting.antt =====
-- Reads, compactions and snapshots of a database with a table.
use lsmtree.Base.{
  ℕ, ◌≡◌, ◌∙◌, refl, ap, sym, subst, ◌<◌, ◌^◌, ◌+◌, List, [], ◌∷◌, some, inl, arith, length, In,
}
use lsmtree.Compaction.Slices.{bytes_of}
use lsmtree.Merge.{retain_for_compaction, retain_loop}
use lsmtree.Merge.Queue.{merge_all, merge_loop, enqueue_all, enqueue_current, pop_top, total}
use lsmtree.Text.{compare_str}
use lsmtree.Compaction.{slice_loop, compacted_records, compaction_slices}
use lsmtree.Database.{Database, view, value_of, get_at}
use lsmtree.Database.Compact.{SaveAnswer, compact_level, next_level, maybe_compact}
use lsmtree.Database.Select.{
  select_level_zero_compaction_tables, insert_overlapping, insert_tables, insert_number, hull,
}
use lsmtree.Database.Preserves.{HasRoom, Preserves}
use lsmtree.Database.Flush.{apply_write}
use lsmtree.Database.Flushed.{flushed_contents, flushed-IsOrdered}
use lsmtree.Database.FlushTable.{flushed_database-IsFlushed}
use lsmtree.Database.FlushTable.{flushed_database, flushed_table}
use lsmtree.Database.Newest.{get_at-Same, Answers}
use lsmtree.Database.Order.{IsOrdered}
use lsmtree.Database.Rounds.{HasRoomFor, RoomInRounds, maybe_compact-Preserves}
use lsmtree.Database.Snapshots.{AreAscending, snapshot, release, release-snapshot, snapshot_reads}
use lsmtree.Manifest.{level, add_table, add_to_level_zero, split_at_first_not}
use lsmtree.Record.{Record}
use lsmtree.Record.Visible.{visible, result_of}
use lsmtree.Scan.Sound.{stored}
use lsmtree.Tests.{put_a}
use lsmtree.Tests.Store.{
  no_contents, database_a, ordered_a, good_flush, flush_succeeds, compact_now, table_a,
}
use lsmtree.Tests.DiskFiles.{table_files, table_laws}

-- The database behind the flush.
abbrev database_b : Database table_files
database_b = flushed_database table_laws good_flush database_a no_contents ordered_a flush_succeeds

abbrev contents_b : ℕ → List Record
contents_b =
    flushed_contents table_laws database_a database_b no_contents ordered_a
      (flushed_table table_laws good_flush database_a no_contents ordered_a flush_succeeds)
      (flushed_database-IsFlushed table_laws good_flush database_a no_contents ordered_a
        flush_succeeds)

ordered_b : IsOrdered table_laws database_b contents_b
ordered_b =
    flushed-IsOrdered table_laws database_a database_b no_contents ordered_a
      (flushed_table table_laws good_flush database_a no_contents ordered_a flush_succeeds)
      (flushed_database-IsFlushed table_laws good_flush database_a no_contents ordered_a
        flush_succeeds)

get_at-Same_example :
    Answers table_laws contents_b
      (b'a' ∷ [])
      1
      database_b
      (get_at database_b (b'a' ∷ []) 1)
      (value_of (result_of (visible (b'a' ∷ []) 1 (stored (view database_b contents_b)))))
get_at-Same_example = get_at-Same table_laws contents_b (b'a' ∷ []) 1 database_b ordered_b

release-snapshot_example :
    AreAscending (snapshot database_a).1.snapshots
    × ((release (snapshot database_a).0 (snapshot database_a).1.snapshots).1 ≡ database_a.snapshots)
unfolding apply_write
release-snapshot_example = release-snapshot database_a (tt, tt)

abbrev output : List Record → List Record
output rs = compacted_records (0 ∷ []) 1 (rs ∷ [])

output_a : output (put_a ∷ []) ≡ put_a ∷ []
unfolding compacted_records merge_all merge_loop enqueue_all enqueue_current pop_top total
    compare_str retain_for_compaction retain_loop
output_a = refl

selected :
    select_level_zero_compaction_tables database_b.manifest
      (flushed_table table_laws good_flush database_a no_contents ordered_a flush_succeeds)
      []
    ≡ 0 ∷ []
unfolding select_level_zero_compaction_tables insert_overlapping insert_tables insert_number hull
    add_table apply_write
selected = refl

abbrev HasRoomOf : List Record → Type 0
HasRoomOf out = (bytes_of out < 2 ^ 64) × (2 + length (compaction_slices 1024 out) < 2 ^ 64)

output-HasRoom : HasRoomOf (put_a ∷ [])
unfolding bytes_of compaction_slices slice_loop
output-HasRoom = (ground arith, ground arith)

room_zero : (c : ℕ → List Record) → c 0 ≡ put_a ∷ [] → HasRoomFor compact_now database_b c 0
unfolding add_table apply_write add_to_level_zero split_at_first_not
room_zero c e =
    let room = subst HasRoomOf (sym (ap output e ∙ output_a)) output-HasRoom in
    subst (HasRoom 1024 database_b c) (sym selected) (record { bytes = room.0; numbers = room.1 })

in_table :
    In
      (flushed_table table_laws good_flush database_a no_contents ordered_a flush_succeeds)
      (level database_b.manifest 0)
unfolding add_table apply_write add_to_level_zero split_at_first_not
in_table = inl refl

-- Whatever the tables of this database hold, if it is ordered, its only table holds the put.
holds_put : (c : ℕ → List Record) → IsOrdered table_laws database_b c → c 0 ≡ put_a ∷ []
unfolding apply_write
holds_put c o =
    table_a database_b.files (c 0) refl
      (o.tables 0
        (flushed_table table_laws good_flush database_a no_contents ordered_a flush_succeeds)
        in_table).held

chosen : (number : ℕ) → next_level compact_now database_b ≡ some number → number ≡ 0
unfolding add_table apply_write add_to_level_zero split_at_first_not
chosen number e = cc

room_in_rounds : RoomInRounds table_laws compact_now (SaveAnswer.saved ∷ []) database_b
room_in_rounds number e = (
  λ c o.
      subst (HasRoomFor compact_now database_b c) (sym (chosen number e))
        (room_zero c (holds_put c o)),
  tt,
)

-- The table goes from level 0 to level 1.
maybe_compact-Preserves_example :
    Preserves table_laws database_b
      (maybe_compact compact_now (SaveAnswer.saved ∷ []) database_b).1
      contents_b
maybe_compact-Preserves_example =
    maybe_compact-Preserves table_laws compact_now (SaveAnswer.saved ∷ []) database_b contents_b
      ordered_b room_in_rounds

ascending_b : AreAscending database_b.snapshots
unfolding apply_write
ascending_b = (tt, tt)

active_b : In 0 database_b.snapshots
unfolding apply_write
active_b = inl refl

-- The snapshot of the empty database reads nothing behind the compaction either.
snapshot_reads_example :
    (c' : ℕ → List Record) × IsOrdered table_laws
      (compact_level compact_now SaveAnswer.saved 0 database_b).1
      c'
    × (visible
          (b'a' ∷ [])
          0
          (stored (view (compact_level compact_now SaveAnswer.saved 0 database_b).1 c'))
        ≡ visible (b'a' ∷ []) 0 (stored (view database_b contents_b)))
snapshot_reads_example =
    snapshot_reads table_laws compact_now SaveAnswer.saved 0 database_b contents_b (b'a' ∷ []) 0
      ordered_b ascending_b (room_zero contents_b (holds_put contents_b ordered_b)) active_b
