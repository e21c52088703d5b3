-- ===== src/Database/Output.antt =====
-- `writeCompactionOutput`: one table for each slice.
use lsmtree.Base.{
  ℕ, ◌+◌, ◌^◌, ◌≤◌, ◌<◌, ◌≡◌, ◌∙◌, refl, sym, ap, subst, List, [], ◌∷◌, Option, none, some, All,
  All_map, arith, length,
}
use lsmtree.Database.{Database}
use lsmtree.Database.Compact.{
  push_table, write_rest, write_compaction_slice, write_compaction_output,
}
use lsmtree.Database.Grow.{put_contents}
use lsmtree.Database.Order.{Stands, IsOrdered}
use lsmtree.Database.Written.{
  IsSlice, Extends, Extends-refl, Extends-trans, Describes, slice_after,
  write_compaction_slice-Extends, write_compaction_slice-Stands,
}
use lsmtree.Manifest.{TableMeta}
use lsmtree.Record.{Record}
use lsmtree.TableFiles.{TableFiles, TableLaws}

module _ {F : TableFiles} (L : TableLaws F) where
  -- The tables are those of the slices, in order.
  abbrev pub DescribeAll : (ℕ → List Record) → List TableMeta → List (List Record) → Type 0
  DescribeAll contents [] [] = Unit
  DescribeAll contents [] (rs ∷ slices) = ⊥
  DescribeAll contents (t ∷ ts) [] = ⊥
  DescribeAll contents (t ∷ ts) (rs ∷ slices) =
      Describes L contents t rs × DescribeAll contents ts slices

  -- What a whole output leaves: a database that extends `db`, and, if nothing was thrown, a table that
  -- stands for each slice.
  pub record Writes (db : Database F) (contents : ℕ → List Record) (slices : List (List Record))
      (result : Database F × Option (List TableMeta)) : Type 0 where
    pub new_contents : ℕ → List Record
    pub extends : Extends L db result.0 contents new_contents
    pub tables :
        (ts : List TableMeta)
        → result.1 ≡ some ts
        → All (Stands L result.0 new_contents) ts
          × DescribeAll new_contents ts slices
          × All (λ t. db.manifest.next_table_number ≤ t.number) ts

  push-Writes :
      (db d : Database F) (contents x : ℕ → List Record) (rs : List Record)
      (slices : List (List Record)) (t : TableMeta) (a : Database F × Option (List TableMeta))
      → Extends L db d contents x
      → Stands L d x t × Describes L x t rs × (db.manifest.next_table_number ≤ t.number)
      → Writes d x slices a
      → Writes db contents (rs ∷ slices) (push_table t a)
  push-Writes db d contents x rs slices t (c, none) first s w = record {
    new_contents = w.new_contents;
    extends = Extends-trans L db d c contents x w.new_contents first w.extends;
    tables = λ ts e. cc;
  }
  push-Writes db d contents x rs slices t (c, some us) first s w =
      let (stand, described, numbers) = w.tables us refl in
      let later : db.manifest.next_table_number ≤ d.manifest.next_table_number =
        omega
          (arith, first.grows, ap (λ (x : Database F). x.manifest.next_table_number) first.same) in
      let here : Stands L c w.new_contents t = w.extends.stands t s.0 in
      let same : w.new_contents t.number ≡ x t.number = w.extends.agree t.number s.0.numbered in
      record {
        new_contents = w.new_contents;
        extends = Extends-trans L db d c contents x w.new_contents first w.extends;
        tables = λ ts e.
            subst
              (λ (o : Option (List TableMeta)). elim o [
                | none ↦ Unit
                | some vs ↦
                    All (Stands L c w.new_contents) vs
                    × DescribeAll w.new_contents vs (rs ∷ slices)
                    × All (λ u. db.manifest.next_table_number ≤ u.number) vs
              ])
              e
              (
                (here, stand),
                ((same ∙ s.1.0, s.1.1, s.1.2), described),
                (
                  s.2,
                  All_map (λ u. d.manifest.next_table_number ≤ u.number)
                      (λ u. db.manifest.next_table_number ≤ u.number) us
                      (λ u h. omega (arith, later, h)) numbers,
                ),
              );
      }

  rest-Writes :
      (db d : Database F) (contents x : ℕ → List Record) (rs : List Record)
      (slices : List (List Record)) (o : Option TableMeta)
      (f : Database F → Database F × Option (List TableMeta))
      → Extends L db d contents x
      → ((t : TableMeta)
          → o ≡ some t
          → Stands L d x t × Describes L x t rs × (db.manifest.next_table_number ≤ t.number))
      → Writes d x slices (f d)
      → Writes db contents (rs ∷ slices) (write_rest (d, o) f)
  rest-Writes db d contents x rs slices none f first s w = record {
    new_contents = x;
    extends = first;
    tables = λ ts e. cc;
  }
  rest-Writes db d contents x rs slices (some t) f first s w =
      push-Writes db d contents x rs slices t (f d) first (s t refl) w

  no_tables :
      (d : Database F) (c : ℕ → List Record) (ts : List TableMeta)
      → some [] ≡ some ts
      → All (Stands L d c) ts
        × DescribeAll c ts []
        × All (λ t. d.manifest.next_table_number ≤ t.number) ts
  no_tables d c [] e = (tt, tt, tt)
  no_tables d c (t ∷ ts) e = cc

  -- Sorted slices with records in them are each written under a number of its own, if the table
  -- counter does not wrap.
  pub write_compaction_output-Writes :
      (slices : List (List Record)) (db : Database F) (contents : ℕ → List Record)
      → IsOrdered L db contents
      → All (IsSlice db.next_seq) slices
      → db.manifest.next_table_number + length slices < 2 ^ 64
      → Writes db contents slices (write_compaction_output db slices)
  unfolding write_compaction_output
  write_compaction_output-Writes [] db contents o s room = record {
    new_contents = contents;
    extends = Extends-refl L db contents o;
    tables = no_tables db contents;
  }
  write_compaction_output-Writes (rs ∷ slices) db contents o s room =
      let here : db.manifest.next_table_number + 1 < 2 ^ 64 = omega (arith, room) in
      let db' = (write_compaction_slice db rs).0 in
      let with_table = put_contents contents db.manifest.next_table_number rs in
      let first = write_compaction_slice-Extends L db contents o rs s.0 here in
      let moved = slice_after L db contents o rs s.0 here in
      rest-Writes db db' contents with_table rs slices (write_compaction_slice db rs).1
        (λ d. write_compaction_output d slices) first
        (write_compaction_slice-Stands L db contents o rs s.0 here)
        (write_compaction_output-Writes slices db' with_table first.ordered
          (subst (λ (d : Database F). All (IsSlice d.next_seq) slices) (sym moved) s.1)
          (subst (λ (d : Database F). d.manifest.next_table_number + length slices < 2 ^ 64)
            (sym moved) (omega (arith, room))))
