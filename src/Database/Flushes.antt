-- ===== src/Database/Flushes.antt =====
-- A flush whose steps succeed keeps the database ordered and every read as it was.
use lsmtree.Database.FlushTable.{
  Succeeds, flushed_table, flushed_database, flush_table_lem, flushed_database-IsFlushed,
}
use lsmtree.Base.{
  if◌then◌else◌, ◌==◌, ℕ, ◌≤◌, ◌≡◌, ◌≢◌, ◌∙◌, refl, sym, ap, subst, List, [], ◌∷◌, true, false,
  arith, Bool, length,
}
use lsmtree.Compaction.{smallest_active_snapshot}
use lsmtree.Database.{Database, Options, view, last_seq_of}
use lsmtree.Database.Compact.{Progress, maybe_compact}
use lsmtree.Database.Flush.{FlushAnswers, flush_table, fail_writes, compact_after, flush}
use lsmtree.Database.Flushed.{flushed_contents, flushed-IsOrdered, flushed-visible}
use lsmtree.Database.Order.{IsOrdered}
use lsmtree.Database.Rounds.{RoomInRounds, maybe_compact-Preserves}
use lsmtree.MemTable.{Table, records}
use lsmtree.Record.{Record}
use lsmtree.Record.Visible.{visible}
use lsmtree.Scan.Sound.{stored}
use lsmtree.TableFiles.{TableFiles, TableLaws}
use lsmtree.Text.{Str}

module _ {F : TableFiles} (L : TableLaws F) where
  -- `db'` is ordered, and every read at or above the smallest active snapshot finds in it what it finds
  -- in `db`.
  pub record KeepsReads (db db' : Database F) (contents : ℕ → List Record) : Type 0 where
    pub new_contents : ℕ → List Record
    pub ordered : IsOrdered L db' new_contents
    pub reads :
        (k : Str) (s : ℕ)
        → smallest_active_snapshot db.snapshots (last_seq_of db.next_seq) ≤ s
        → visible k s (stored (view db' new_contents)) ≡ visible k s (stored (view db contents))

  with_failed-IsOrdered :
      (db : Database F) (c : ℕ → List Record) (x : Bool)
      → IsOrdered L db c
      → IsOrdered L (record db { write_failed = x }) c
  with_failed-IsOrdered db c x o = record {
    memory = o.memory;
    memory_old = o.memory_old;
    tables = λ i t m.
        let s = o.tables i t m in
        record {
          held = s.held;
          table = s.table;
          some_record = s.some_record;
          numbered = s.numbered;
          old = s.old;
        };
    level_zero = o.level_zero;
    disjoint = o.disjoint;
    newer_memory = o.newer_memory;
    newer_levels = o.newer_levels;
    in_64_bits = o.in_64_bits;
    free = o.free;
  }

  fail_writes-KeepsReads :
      (db d : Database F) (c : ℕ → List Record) (p : Progress)
      → KeepsReads db d c
      → KeepsReads db (fail_writes (p, d)).1 c
  fail_writes-KeepsReads db d c Progress.thrown k = record {
    new_contents = k.new_contents;
    ordered = with_failed-IsOrdered d k.new_contents true k.ordered;
    reads = k.reads;
  }
  fail_writes-KeepsReads db d c Progress.finished k = k
  fail_writes-KeepsReads db d c Progress.running k = k

  not_empty : (t : Table) → records t ≢ [] → (length t == 0) ≡ false
  not_empty [] h = absurd (h refl)
  not_empty (e ∷ t) h = ground arith

  -- Over any table files that keep the laws, a flush of an ordered database with records in its
  -- memtable, whose steps up to the compactions succeed, where no file stands at the path of the new
  -- log and the table counter does not wrap, leaves an ordered database that answers every read
  -- at or above the smallest active snapshot as before, whatever the compactions behind it do, if in
  -- each of their rounds there is room for what it writes.
  pub flush-KeepsReads :
      (options : Options) (io : FlushAnswers) (db : Database F) (contents : ℕ → List Record)
      (o : IsOrdered L db contents) (s : Succeeds L io db)
      → io.log_removed ≡ true
      → RoomInRounds L options io.compactions (flushed_database L io db contents o s)
      → KeepsReads db (flush options io db).1 contents
  unfolding flush
  flush-KeepsReads options io db contents o s gone room =
      let d = flushed_database L io db contents o s in
      let t = flushed_table L io db contents o s in
      let f = flushed_database-IsFlushed L io db contents o s in
      let c = flushed_contents L db d contents o t f in
      let later =
        maybe_compact-Preserves L options io.compactions d c
          (flushed-IsOrdered L db d contents o t f) room in
      let done : KeepsReads db (maybe_compact options io.compactions d).1 contents = record {
        new_contents = later.new_contents;
        ordered = later.ordered;
        reads = λ k n h. later.reads k n h ∙ flushed-visible L db d contents o t f k n;
      } in
      subst
        (λ (b : Bool).
          KeepsReads db
            (if b
              then (Progress.finished, db)
              else fail_writes (compact_after options io.compactions (flush_table io db))).1
            contents)
        (sym (not_empty db.active_mem_table.table s.some_record))
        (subst
          (λ a. KeepsReads db (fail_writes (compact_after options io.compactions a)).1 contents)
          (sym (flush_table_lem L io db contents o s ∙ ap (λ (b : Bool). (b, d)) gone))
          (fail_writes-KeepsReads db (maybe_compact options io.compactions d).1 contents
            (maybe_compact options io.compactions d).0 done))
