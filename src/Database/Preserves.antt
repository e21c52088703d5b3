-- ===== src/Database/Preserves.antt =====
-- What a compaction keeps: the order of the database, and the reads.
use lsmtree.Base.{
  ℕ, suc, ◌+◌, ◌^◌, ◌≤◌, ◌<◌, ◌≡◌, refl, sym, ap, subst, List, [], ◌∷◌, In, inl, inr, map, length,
}
use lsmtree.Compaction.{compacted_records, compaction_slices, smallest_active_snapshot}
use lsmtree.Compaction.Slices.{bytes_of}
use lsmtree.Database.{Database, view, last_seq_of}
use lsmtree.Database.Order.{IsOrdered}
use lsmtree.Database.Written.{Extends}
use lsmtree.Manifest.{TableMeta}
use lsmtree.Record.{Record}
use lsmtree.Record.Visible.{visible}
use lsmtree.Scan.Sound.{stored}
use lsmtree.TableFiles.{TableFiles, TableLaws}
use lsmtree.Text.{Str}
use lsmtree.Manifest.{Level}
use lsmtree.MemTable.{records}
use lsmtree.Scan.Sound.{table_records, level_records}
use lsmtree.Base.{get_or, ◌++◌}

-- Contents that agree on the tables make the same records.
table_records_agree :
    (c c' : ℕ → List Record) (ts : Level)
    → ((t : TableMeta) → In t ts → c' t.number ≡ c t.number)
    → table_records c' ts ≡ table_records c ts
unfolding table_records
table_records_agree c c' [] h = refl
table_records_agree c c' (t ∷ ts) h =
    rw (h t (inl refl), table_records_agree c c' ts (λ u i. h u (inr i))) refl

level_records_agree :
    (c c' : ℕ → List Record) (ls : List Level)
    → ((j : ℕ) (t : TableMeta) → In t (get_or ls j []) → c' t.number ≡ c t.number)
    → level_records c' ls ≡ level_records c ls
unfolding level_records
level_records_agree c c' [] h = refl
level_records_agree c c' (l ∷ ls) h =
    rw (table_records_agree c c' l (h 0), level_records_agree c c' ls (λ j. h (suc j))) refl

pub map_agree :
    (c c' : ℕ → List Record) (ns : List ℕ) → ((n : ℕ) → In n ns → c' n ≡ c n) → map c' ns ≡ map c ns
map_agree c c' [] h = refl
map_agree c c' (n ∷ ns) h = rw (h n (inl refl), map_agree c c' ns (λ m i. h m (inr i))) refl

-- What a compaction of these tables writes, in all and in slices.
abbrev pub output_of : {F : TableFiles} → Database F → (ℕ → List Record) → List ℕ → List Record
output_of db contents removed =
    compacted_records db.snapshots (last_seq_of db.next_seq) (map contents removed)

abbrev pub slices_of :
    {F : TableFiles} → ℕ → Database F → (ℕ → List Record) → List ℕ → List (List Record)
slices_of threshold db contents removed =
    compaction_slices threshold (output_of db contents removed)

-- The output has fewer than 2^64 bytes, and there are numbers for its tables.
pub record HasRoom {F : TableFiles} (threshold : ℕ) (db : Database F) (contents : ℕ → List Record)
    (removed : List ℕ) : Type 0 where
  pub bytes : bytes_of (output_of db contents removed) < 2 ^ 64
  pub numbers :
      db.manifest.next_table_number + length (slices_of threshold db contents removed) < 2 ^ 64

module _ {F : TableFiles} (L : TableLaws F) where
  -- `db'` is ordered and differs from `db` in its tables and files alone, and every read at or above
  -- the smallest active snapshot finds in it what it finds in `db`.
  pub record Preserves (db db' : Database F) (contents : ℕ → List Record) : Type 0 where
    pub new_contents : ℕ → List Record
    pub ordered : IsOrdered L db' new_contents
    pub memory : db'.active_mem_table ≡ db.active_mem_table
    pub next_seq : db'.next_seq ≡ db.next_seq
    pub snapshots : db'.snapshots ≡ db.snapshots
    pub write_failed : db'.write_failed ≡ db.write_failed
    pub reads :
        (k : Str) (s : ℕ)
        → smallest_active_snapshot db.snapshots (last_seq_of db.next_seq) ≤ s
        → visible k s (stored (view db' new_contents)) ≡ visible k s (stored (view db contents))

  -- More table files change nothing of what the database holds.
  pub Extends-stored :
      (db d : Database F) (contents c : ℕ → List Record)
      → IsOrdered L db contents
      → Extends L db d contents c
      → stored (view d c) ≡ stored (view db contents)
  unfolding stored
  Extends-stored db d contents c o x =
      subst (λ (e : Database F). stored (view e c) ≡ stored (view db contents)) (sym x.same)
        (ap (◌++◌ (records db.active_mem_table.table)) (
          level_records_agree contents c db.manifest.levels
            (λ j t m. x.agree t.number (o.tables j t m).numbered)))

  pub Extends-Preserves :
      (db d : Database F) (contents c : ℕ → List Record)
      → IsOrdered L db contents
      → Extends L db d contents c
      → Preserves db d contents
  Extends-Preserves db d contents c o x = record {
    new_contents = c;
    ordered = x.ordered;
    memory = ap (λ (e : Database F). e.active_mem_table) x.same;
    next_seq = ap (λ (e : Database F). e.next_seq) x.same;
    snapshots = ap (λ (e : Database F). e.snapshots) x.same;
    write_failed = ap (λ (e : Database F). e.write_failed) x.same;
    reads = λ k s h. ap (visible k s) (Extends-stored db d contents c o x);
  }

  pub Preserves-refl :
      (db : Database F) (contents : ℕ → List Record)
      → IsOrdered L db contents
      → Preserves db db contents
  Preserves-refl db contents o = record {
    new_contents = contents;
    ordered = o;
    memory = refl;
    next_seq = refl;
    snapshots = refl;
    write_failed = refl;
    reads = λ k s h. refl;
  }
