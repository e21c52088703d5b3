-- ===== src/Database/Rounds.antt =====
-- The rounds of `maybeCompact` keep a database ordered and its reads as they were.
use lsmtree.Base.{
  ℕ, zero, suc, ◌+◌, ◌≤◌, ◌≡◌, ◌∙◌, refl, sym, subst, List, [], ◌∷◌, Bool, true, false, Option,
  none, some, arith, map, In,
}
use lsmtree.Compaction.{smallest_active_snapshot}
use lsmtree.Database.{Database, Options, last_seq_of}
use lsmtree.Database.Chosen.{zero-Selects}
use lsmtree.Database.Compact.{
  SaveAnswer, Progress, select_of_tables, select_higher_level_compaction_tables, compact_level_zero,
  compact_selected, compact_range, compact_level, next_level, unless_done, run_round, maybe_compact,
}
use lsmtree.Database.Select.{
  select_level_zero_compaction_tables, select_table, find_cursor, set_cursor,
  append_overlapping_tables,
}
use lsmtree.Database.Compacts.{compact_range-Preserves}
use lsmtree.Database.Preserves.{HasRoom, Preserves, Preserves-refl}
use lsmtree.Database.Higher.{chosen, higher-Selects, select_table-In, append_overlapping_tables_lem}
use lsmtree.Database.Order.{IsOrdered}
use lsmtree.Manifest.{Level, TableMeta, level}
use lsmtree.Record.{Record}
use lsmtree.TableFiles.{TableFiles, TableLaws}
use lsmtree.Text.{Str}

-- There is room for what a compaction of these tables of level 0 writes.
abbrev RoomZero : {F : TableFiles} → Options → Database F → (ℕ → List Record) → Level → Type 0
RoomZero o db contents [] = Unit
RoomZero o db contents (t ∷ ts) =
    HasRoom o.compaction_slice_bytes db contents
      (select_level_zero_compaction_tables db.manifest t ts)

-- There is room for what a compaction of the level writes.
abbrev pub HasRoomFor : {F : TableFiles} → Options → Database F → (ℕ → List Record) → ℕ → Type 0
HasRoomFor o db contents zero = RoomZero o db contents (level db.manifest 0)
HasRoomFor o db contents (suc number) =
    HasRoom o.compaction_slice_bytes (select_higher_level_compaction_tables db (suc number)).1
      contents (select_higher_level_compaction_tables db (suc number)).0

module _ {F : TableFiles} (L : TableLaws F) where
  pub Preserves-trans :
      (a b c : Database F) (x : ℕ → List Record) (p : Preserves L a b x)
      → Preserves L b c p.new_contents
      → Preserves L a c x
  Preserves-trans a b c x p q = record {
    new_contents = q.new_contents;
    ordered = q.ordered;
    memory = q.memory ∙ p.memory;
    next_seq = q.next_seq ∙ p.next_seq;
    snapshots = q.snapshots ∙ p.snapshots;
    write_failed = q.write_failed ∙ p.write_failed;
    reads = λ k s h.
        q.reads k s (
          subst (λ ss. smallest_active_snapshot ss (last_seq_of b.next_seq) ≤ s) (sym p.snapshots)
            (subst (λ n. smallest_active_snapshot a.snapshots (last_seq_of n) ≤ s) (sym p.next_seq)
              h))
        ∙ p.reads k s h;
  }

  -- The cursors do not count.
  with_cursors-IsOrdered :
      (db : Database F) (c : ℕ → List Record) (x : List (ℕ × Str))
      → IsOrdered L db c
      → IsOrdered L (record db { compaction_cursors = x }) c
  with_cursors-IsOrdered db c x o = record {
    memory = o.memory;
    memory_old = o.memory_old;
    tables = λ i t m.
        let s = o.tables i t m in
        record {
          held = s.held;
          table = s.table;
          some_record = s.some_record;
          numbered = s.numbered;
          old = s.old;
        };
    level_zero = o.level_zero;
    disjoint = o.disjoint;
    newer_memory = o.newer_memory;
    newer_levels = o.newer_levels;
    in_64_bits = o.in_64_bits;
    free = o.free;
  }

  with_cursors-Preserves :
      (db d : Database F) (c : ℕ → List Record) (x : List (ℕ × Str))
      → Preserves L (record db { compaction_cursors = x }) d c
      → Preserves L db d c
  with_cursors-Preserves db d c x p = record {
    new_contents = p.new_contents;
    ordered = p.ordered;
    memory = p.memory;
    next_seq = p.next_seq;
    snapshots = p.snapshots;
    write_failed = p.write_failed;
    reads = p.reads;
  }

  zero-Preserves :
      (o : Options) (answer : SaveAnswer) (db : Database F) (c : ℕ → List Record) (l : Level)
      → level db.manifest 0 ≡ l
      → IsOrdered L db c
      → RoomZero o db c l
      → Preserves L db (compact_level_zero o answer db l).1 c
  zero-Preserves o answer db c [] e ordered room = Preserves-refl L db c ordered
  zero-Preserves o answer db c (t ∷ ts) e ordered room =
      compact_range-Preserves L o answer db c 0
        (select_level_zero_compaction_tables db.manifest t ts) ordered
        (zero-Selects L db c ordered t ts e) room

  higher-Preserves :
      (o : Options) (answer : SaveAnswer) (db : Database F) (c : ℕ → List Record) (i : ℕ)
      (l : Level)
      → level db.manifest (suc i) ≡ l
      → IsOrdered L db c
      → HasRoom o.compaction_slice_bytes
          (select_of_tables db (suc i) l).1
          c
          (select_of_tables db (suc i) l).0
      → Preserves L db (compact_selected o answer (suc i + 1) (select_of_tables db (suc i) l)).1 c
  higher-Preserves o answer db c i [] e ordered room = Preserves-refl L db c ordered
  higher-Preserves o answer db c i (t ∷ ts) e ordered room =
      let selected = select_table (find_cursor db.compaction_cursors (suc i)) t ts in
      let cursors = set_cursor db.compaction_cursors (suc i) selected.max_key in
      let d = record db { compaction_cursors = cursors } in
      let here =
        subst (In selected) (sym e)
          (select_table-In (find_cursor db.compaction_cursors (suc i)) t ts) in
      let d_ordered = with_cursors-IsOrdered db c cursors ordered in
      let numbers : Level → List ℕ = λ us. map (λ (u : TableMeta). u.number) (selected ∷ us) in
      let kept : ℕ → List ℕ → Type 0 = λ n ns.
        HasRoom o.compaction_slice_bytes d c ns
        → Preserves L d (compact_range o answer ns n d).1 c in
      let taken : kept (suc (suc i)) (chosen L d c d_ordered i selected here) = λ r.
        compact_range-Preserves L o answer d c (suc i) (chosen L d c d_ordered i selected here)
          d_ordered (higher-Selects L d c d_ordered i selected here) r in
      let appended : kept (suc (suc i))
          (numbers (append_overlapping_tables d.manifest selected (suc (suc i)))) =
        subst (λ us. kept (suc (suc i)) (numbers us))
          (sym (append_overlapping_tables_lem d.manifest selected (suc (suc i)))) taken in
      with_cursors-Preserves db
        (compact_range o answer
          (numbers (append_overlapping_tables d.manifest selected (suc i + 1))) (suc i + 1) d).1
        c cursors
        (subst (λ (n : ℕ). kept n (numbers (append_overlapping_tables d.manifest selected n)))
          (omega arith) appended room)

  -- A compaction of any level of an ordered database, whatever its system calls answer, keeps it
  -- ordered and answers every read at or above the smallest active snapshot as before, if there is room
  -- for what it writes.
  pub compact_level-Preserves :
      (o : Options) (answer : SaveAnswer) (number : ℕ) (db : Database F) (c : ℕ → List Record)
      → IsOrdered L db c
      → HasRoomFor o db c number
      → Preserves L db (compact_level o answer number db).1 c
  unfolding compact_level
  compact_level-Preserves o answer zero db c ordered room =
      zero-Preserves o answer db c (level db.manifest 0) refl ordered room
  compact_level-Preserves o answer (suc i) db c ordered room =
      higher-Preserves o answer db c i (level db.manifest (suc i)) refl ordered room

  -- In every round there is room.
  abbrev pub RoomInRounds : Options → List SaveAnswer → Database F → Type 0
  RoomInRounds o [] db = Unit
  RoomInRounds o (answer ∷ answers) db =
      (number : ℕ)
      → next_level o db ≡ some number
      → ((c : ℕ → List Record) → IsOrdered L db c → HasRoomFor o db c number)
        × RoomInRounds o answers (compact_level o answer number db).1

  unless_done-Preserves :
      (a : Database F) (c : ℕ → List Record) (n : Option ℕ) (f : ℕ → Progress × Database F)
      → IsOrdered L a c
      → ((number : ℕ) → n ≡ some number → Preserves L a (f number).1 c)
      → Preserves L a (unless_done n a f).1 c
  unless_done-Preserves a c none f o h = Preserves-refl L a c o
  unless_done-Preserves a c (some number) f o h = h number refl

  run_round-Preserves :
      (a d : Database F) (done : Bool) (f : Database F → Progress × Database F)
      (c : ℕ → List Record) (p : Preserves L a d c)
      → Preserves L d (f d).1 p.new_contents
      → Preserves L a (run_round (done, d) f).1 c
  run_round-Preserves a d true f c p q = Preserves-trans a d (f d).1 c p q
  run_round-Preserves a d false f c p q = p

  -- Over any table files that keep the laws, however many rounds `maybeCompact` makes on an ordered database, and whatever the system calls of
  -- each answer, the database stays ordered and answers every read at or above the smallest active
  -- snapshot as before, if in every round there is room for what it writes.
  pub maybe_compact-Preserves :
      (o : Options) (answers : List SaveAnswer) (db : Database F) (c : ℕ → List Record)
      → IsOrdered L db c
      → RoomInRounds o answers db
      → Preserves L db (maybe_compact o answers db).1 c
  unfolding maybe_compact
  maybe_compact-Preserves o [] db c ordered room =
      unless_done-Preserves db c (next_level o db) (λ number. (Progress.running, db)) ordered
        (λ number e. Preserves-refl L db c ordered)
  maybe_compact-Preserves o (answer ∷ answers) db c ordered room =
      unless_done-Preserves db c (next_level o db)
        (λ number. run_round (compact_level o answer number db) (λ d. maybe_compact o answers d))
        ordered
        (λ number e.
          let (fits, later) = room number e in
          let p = compact_level-Preserves o answer number db c ordered (fits c ordered) in
          let d = (compact_level o answer number db).1 in
          run_round-Preserves db d (compact_level o answer number db).0
            (λ d. maybe_compact o answers d) c p
            (maybe_compact-Preserves o answers d p.new_contents p.ordered later))
