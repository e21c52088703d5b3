-- ===== src/Database/Compact.antt =====
-- The compactions of src/DB.cpp: what they write, and when they run. An answer
-- says what happens to a save of the manifest; the other failures are those of the table files.
use lsmtree.Database.Select.{
  select_level_zero_compaction_tables, find_cursor, set_cursor, select_table,
  append_overlapping_tables, first_over_budget_level,
}
use lsmtree.Base.{
  ℕ, zero, suc, ◌+◌, List, [], ◌∷◌, map, ltb, if◌then◌else◌, length, Bool, true, false, Option,
  none, some,
}
use lsmtree.Compaction.{compacted_records, compaction_slices}
use lsmtree.Database.{Database, Options, last_seq_of}
use lsmtree.Manifest.{TableMeta, Level, level, allocate_number, replace_tables}
use lsmtree.Merge.Queue.{Sources}
use lsmtree.Record.{Record}
use lsmtree.TableFiles.{TableFiles}
use lsmtree.Text.{Str}

-- What becomes of a save of the manifest: it succeeds, it throws and leaves the old file, or it throws
-- behind the rename.
pub data SaveAnswer : Type 0 where
  saved kept_old replaced : SaveAnswer

-- The outcome of a loop: it ended, it threw, or there was no answer left for its next round.
pub data Progress : Type 0 where
  finished thrown running : Progress

-- The keys of the first and the last record; there is no table without records.
unfoldable pub front_key : List Record → Str
front_key [] = []
front_key (r ∷ rs) = r.key

unfoldable pub back_key : List Record → Str
back_key [] = []
back_key (r ∷ []) = r.key
back_key (r ∷ q ∷ rs) = back_key (q ∷ rs)

-- A source in front of the others, if no one throws.
abbrev pub add_source : Option (List Record) → Option Sources → Option Sources
add_source none ss = none
add_source (some rs) none = none
add_source (some rs) (some ss) = some (rs ∷ ss)

module _ {F : TableFiles} where
  -- A step of a method; `false` is an exception, which ends the method.
  abbrev pub and_then : Bool × Database F → (Database F → Bool × Database F) → Bool × Database F
  and_then (false, db) f = (false, db)
  and_then (true, db) f = f db

  -- `manifest_->save()`
  unfoldable pub save : SaveAnswer → Database F → Bool × Database F
  save SaveAnswer.saved db = (true, record db { saved_manifest = db.manifest })
  save SaveAnswer.kept_old db = (false, db)
  save SaveAnswer.replaced db = (false, record db { saved_manifest = db.manifest })

  -- What the iterators of the tables give.
  unfoldable pub read_tables : Database F → List ℕ → Option Sources
  read_tables db [] = some []
  read_tables db (n ∷ ns) = add_source (F.read_table db.files n) (read_tables db ns)

  -- `writeCompactionSlice`
  unfoldable pub write_compaction_slice : Database F → List Record → Database F × Option TableMeta
  write_compaction_slice db rs =
      let (number, m) = allocate_number db.manifest in
      let (fs, size) = F.write_table db.files number rs in
      (
        record db { manifest = m; files = fs },
        elim size [
          | none ↦ none
          | some bytes ↦ some (record {
            number = number;
            size = bytes;
            min_key = front_key rs;
            max_key = back_key rs;
          })
        ],
      )

  -- `outputTables.push_back`, in front of what the later rounds push
  abbrev pub push_table :
      TableMeta → Database F × Option (List TableMeta) → Database F × Option (List TableMeta)
  push_table t (db, none) = (db, none)
  push_table t (db, some ts) = (db, some (t ∷ ts))

  -- The later rounds of the loop, unless this one threw.
  abbrev pub write_rest :
      Database F × Option TableMeta
      → (Database F → Database F × Option (List TableMeta))
      → Database F × Option (List TableMeta)
  write_rest (db, none) f = (db, none)
  write_rest (db, some t) f = push_table t (f db)

  -- `writeCompactionOutput`, of the slices that it cuts
  unfoldable pub write_compaction_output :
      Database F → List (List Record) → Database F × Option (List TableMeta)
  write_compaction_output db [] = (db, some [])
  write_compaction_output db (rs ∷ slices) =
      write_rest (write_compaction_slice db rs) (λ db. write_compaction_output db slices)

  -- `removeFile` of every input table
  unfoldable pub remove_tables : List ℕ → Database F → Bool × Database F
  remove_tables [] db = (true, db)
  remove_tables (n ∷ ns) db =
      let (fs, removed) = F.remove_table db.files n in
      and_then (removed, record db { files = fs }) (λ db. remove_tables ns db)

  -- `tableCache_.erase` of every input table
  unfoldable pub forget_tables : List ℕ → Database F → Database F
  forget_tables [] db = db
  forget_tables (n ∷ ns) db = forget_tables ns (record db { files = F.forget_table db.files n })

  -- `manifest_->replaceTables`
  unfoldable pub replace : List ℕ → List TableMeta → ℕ → Database F → Bool × Database F
  replace removed added target db =
      let (done, m) = replace_tables removed added target db.manifest in
      (done, record db { manifest = m })

  -- `compactRange` behind the output.
  abbrev pub install :
      SaveAnswer → List ℕ → ℕ → Database F × Option (List TableMeta) → Bool × Database F
  install answer removed target (db, none) = (false, db)
  install answer removed target (db, some added) = and_then (replace removed added target db) (λ db.
      and_then (save answer db)
        (λ db. and_then (remove_tables removed db) (λ db. (true, forget_tables removed db))))

  -- `compactRange` behind the reads.
  abbrev pub compact_sources :
      Options → SaveAnswer → List ℕ → ℕ → Database F → Option Sources → Bool × Database F
  compact_sources o answer removed target db none = (false, db)
  compact_sources o answer removed target db (some sources) = install answer removed target (
      write_compaction_output db (
        compaction_slices o.compaction_slice_bytes
          (compacted_records db.snapshots (last_seq_of db.next_seq) sources)))

  -- `compactRange`
  unfoldable pub compact_range : Options → SaveAnswer → List ℕ → ℕ → Database F → Bool × Database F
  compact_range o answer removed target db =
      compact_sources o answer removed target db (read_tables db removed)

  -- `selectHigherLevelCompactionTables`, of the tables of the level
  abbrev pub select_of_tables : Database F → ℕ → Level → List ℕ × Database F
  select_of_tables db number [] = ([], db)
  select_of_tables db number (t ∷ ts) =
      let selected = select_table (find_cursor db.compaction_cursors number) t ts in
      (
        map (λ (u : TableMeta). u.number)
            (selected ∷ append_overlapping_tables db.manifest selected (number + 1)),
        record db { compaction_cursors = set_cursor db.compaction_cursors number selected.max_key },
      )

  -- `selectHigherLevelCompactionTables`
  abbrev pub select_higher_level_compaction_tables : Database F → ℕ → List ℕ × Database F
  select_higher_level_compaction_tables db number =
      select_of_tables db number (level db.manifest number)

  -- The branch of `compactLevel` for level 0, of its tables.
  abbrev pub compact_level_zero : Options → SaveAnswer → Database F → Level → Bool × Database F
  compact_level_zero o answer db [] = (true, db)
  compact_level_zero o answer db (t ∷ ts) =
      compact_range o answer (select_level_zero_compaction_tables db.manifest t ts) 1 db

  -- The other branch, of the selected tables.
  abbrev pub compact_selected : Options → SaveAnswer → ℕ → List ℕ × Database F → Bool × Database F
  compact_selected o answer target ([], db) = (true, db)
  compact_selected o answer target (n ∷ ns, db) = compact_range o answer (n ∷ ns) target db

  -- `compactLevel`
  unfoldable pub compact_level : Options → SaveAnswer → ℕ → Database F → Bool × Database F
  compact_level o answer zero db = compact_level_zero o answer db (level db.manifest 0)
  compact_level o answer (suc number) db =
      compact_selected o answer (suc number + 1)
        (select_higher_level_compaction_tables db (suc number))

  -- The level that the next round of `maybeCompact` compacts.
  abbrev pub next_level : Options → Database F → Option ℕ
  next_level o db =
      if ltb o.level0_compaction_threshold (length (level db.manifest 0))
      then some 0
      else first_over_budget_level o db.manifest

  -- A round of `maybeCompact` and those behind it.
  abbrev pub run_round :
      Bool × Database F → (Database F → Progress × Database F) → Progress × Database F
  run_round (false, db) f = (Progress.thrown, db)
  run_round (true, db) f = f db

  -- The loop ends where no level is to be compacted.
  abbrev pub unless_done :
      Option ℕ → Database F → (ℕ → Progress × Database F) → Progress × Database F
  unless_done none db f = (Progress.finished, db)
  unless_done (some number) db f = f number

  -- `maybeCompact`, with an answer for each round
  unfoldable pub maybe_compact : Options → List SaveAnswer → Database F → Progress × Database F
  maybe_compact o [] db = unless_done (next_level o db) db (λ number. (Progress.running, db))
  maybe_compact o (answer ∷ answers) db =
      unless_done (next_level o db) db
        (λ number. run_round (compact_level o answer number db) (λ db. maybe_compact o answers db))

  -- `compact`
  abbrev pub compact : Options → SaveAnswer → Database F → Bool × Database F
  compact o answer db = compact_level o answer 0 db
