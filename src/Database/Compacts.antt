-- ===== src/Database/Compacts.antt =====
-- A compaction: whatever its system calls answer, the database stays ordered and answers every read
-- that is still possible as before.
use lsmtree.Database.Preserves.{
  Preserves-refl, map_agree, Extends-stored, Extends-Preserves, output_of, slices_of, HasRoom,
  Preserves,
}
use lsmtree.Base.{
  ℕ, suc, ◌^◌, ◌≤◌, ◌<◌, ◌≡◌, ◌≢◌, ◌∙◌, refl, sym, ap, subst, List, All, All-intro, All-In, In, inl,
  inr, arith, map, some, none, Option,
}
use lsmtree.Compaction.{smallest_active_snapshot}
use lsmtree.Compaction.Pieces.{In-compacted_records, compaction_slices_some, pieces}
use lsmtree.Compaction.Reads.{visible-compacted_records, compacted_records-IsSorted}
use lsmtree.Compaction.Slices.{bytes_of, concat-compaction_slices, compaction_slices-AreDisjoint}
use lsmtree.Database.{Database, Options, view, last_seq_of}
use lsmtree.Database.Compact.{
  SaveAnswer, and_then, replace, install, compact_sources, compact_range, write_compaction_output,
}
use lsmtree.Database.Kept.{In-taken, swapped-visible}
use lsmtree.Database.Order.{Stands, IsOrdered}
use lsmtree.Database.Output.{DescribeAll, Writes, write_compaction_output-Writes}
use lsmtree.Database.Outputs.{described-Outputs, written_down}
use lsmtree.Database.Selects.{Selects, Selects_agree, Selects_next}
use lsmtree.Database.Swapped.{Outputs, new, replaced_whole, from_old_or_new, swapped-IsOrdered}
use lsmtree.Database.Taken.{
  IsNumber, Stands-there, read_tables_taken, taken-IsSorted, taken-AreApart,
}
use lsmtree.Database.Written.{Extends}
use lsmtree.Manifest.{TableMeta, level}
use lsmtree.Manifest.Positions.{is_removed-In}
use lsmtree.Merge.Queue.{Sources}
use lsmtree.Merge.Queue.Loop.{concat}
use lsmtree.Record.{Record}
use lsmtree.Record.Visible.{visible, IsLatest}
use lsmtree.Scan.Sound.{stored}
use lsmtree.TableFiles.{TableFiles, TableLaws}
use lsmtree.Text.{Str}
use lsmtree.Database.Finish.{finish, finish-Finished}
use lsmtree.Database.Written.{IsSlice}
use lsmtree.Record.Sorted.{IsSorted}
use lsmtree.Scan.Sublists.{AreApart}
use lsmtree.Base.{◌↔◌}

module _ {F : TableFiles} (L : TableLaws F) where
  module _ (db : Database F) (contents : ℕ → List Record) (o : IsOrdered L db contents) (i : ℕ)
      (removed : List ℕ) (sel : Selects db.manifest contents i removed) (threshold : ℕ) where
    abbrev output : List Record
    output = output_of db contents removed

    abbrev slices : Sources
    slices = slices_of threshold db contents removed

    numbers : All (IsNumber L db contents o) removed
    numbers =
        All-intro (IsNumber L db contents o) removed
          (λ n k. let (j, at, t, here, same) = sel.taken n k in (j, t, here, same))

    taken_apart : AreApart (concat (map contents removed))
    taken_apart = taken-AreApart L db contents o removed numbers sel.distinct

    taken_sorted : All IsSorted (map contents removed)
    taken_sorted = taken-IsSorted L db contents o removed numbers

    taken_old : (r : Record) → In r (concat (map contents removed)) → r.seq < db.next_seq
    taken_old r k =
        let (n, gone, there) = (In-taken contents removed r).0 k in
        let (t, s, e) =
          Stands-there L db contents o n
            (All-In (IsNumber L db contents o) removed n numbers gone) in
        All-In (λ r. r.seq < db.next_seq) (contents t.number) r s.old
          (subst (λ n. In r (contents n)) (sym e) there)

    module _ (fits : bytes_of output < 2 ^ 64) where
      whole : concat slices ≡ output
      whole = concat-compaction_slices threshold output fits

      slices_fit : All (IsSlice db.next_seq) slices
      slices_fit =
          let sorted =
            compacted_records-IsSorted db.snapshots (last_seq_of db.next_seq) (map contents removed)
              taken_sorted taken_apart in
          pieces (λ r. r.seq < db.next_seq) slices (subst IsSorted (sym whole) sorted)
            (All-intro (λ r. r.seq < db.next_seq) (concat slices)
              (λ r k. taken_old r (
                In-compacted_records db.snapshots (last_seq_of db.next_seq) (map contents removed) r
                  (subst (In r) whole k))))
            (compaction_slices_some threshold output)

      module _ (d : Database F) (c : ℕ → List Record) (x : Extends L db d contents c)
          (ts : List TableMeta) (stand : All (Stands L d c) ts)
          (described : DescribeAll L c ts slices)
          (fresh : All (λ t. db.manifest.next_table_number ≤ t.number) ts) where
        number_old : (n : ℕ) → In n removed → n < db.manifest.next_table_number
        number_old n k =
            let (t, s, e) =
              Stands-there L db contents o n
                (All-In (IsNumber L db contents o) removed n numbers k) in
            omega (arith, s.numbered, e)

        same_taken : map c removed ≡ map contents removed
        same_taken = map_agree contents c removed (λ n k. x.agree n (number_old n k))

        sel_after : Selects d.manifest c i removed
        sel_after =
            subst (λ (e : Database F). Selects e.manifest c i removed) (sym x.same)
              (Selects_next db.manifest c i removed x.next (
                Selects_agree db.manifest contents c i removed
                  (λ j t m. x.agree t.number (o.tables j t m).numbered) sel))

        out : Outputs L d c removed sel_after.low sel_after.high ts
        out =
            described-Outputs L d c i removed sel_after ts slices stand described
              (compaction_slices_some threshold output)
              (compaction_slices-AreDisjoint threshold output fits (
                compacted_records-IsSorted db.snapshots (last_seq_of db.next_seq)
                  (map contents removed) taken_sorted taken_apart))
              (λ r k.
                subst (λ ss. In r (concat ss)) (sym same_taken)
                  (In-compacted_records db.snapshots (last_seq_of db.next_seq)
                    (map contents removed) r (subst (In r) whole k)))

        swapped : Database F
        swapped = record d { manifest = new L d c x.ordered i removed sel_after ts out }

        avoids :
            (j : ℕ) (t : TableMeta)
            → In t (level (new L d c x.ordered i removed sel_after ts out) j)
            → All (λ m. m ≢ t.number) removed
        avoids j t k =
            All-intro (λ m. m ≢ t.number) removed
              (λ m h e. elim (from_old_or_new L d c x.ordered i removed sel_after ts out j t k) [
                | inl new_one ↦ omega (
                  arith,
                  number_old m h,
                  All-In (λ t. db.manifest.next_table_number ≤ t.number) ts t fresh new_one.1,
                  e,
                )
                | inr old_one ↦
                    cc (
                      (is_removed-In removed t.number).1 (subst (λ n. In n removed) e h),
                      old_one.1,
                    )
              ])

        swapped_reads :
            (k : Str) (s : ℕ)
            → smallest_active_snapshot db.snapshots (last_seq_of db.next_seq) ≤ s
            → visible k s (stored (view swapped c)) ≡ visible k s (stored (view db contents))
        unfolding swapped
        swapped_reads k s h =
            swapped-visible L d c x.ordered i removed sel_after ts out output
              (λ r m. written_down L c ts slices r described (subst (In r) (sym whole) m)) k s
              (λ r.
                subst (λ ss. (visible k s output ≡ some r) ↔ IsLatest k s (concat ss) r)
                  (sym same_taken)
                  (visible-compacted_records db.snapshots (last_seq_of db.next_seq)
                    (map contents removed) k s r taken_sorted taken_apart h))
            ∙ ap (visible k s) (Extends-stored L db d contents c o x)

        finished :
            (answer : SaveAnswer) → Preserves L db (finish L answer removed swapped).1 contents
        unfolding swapped
        finished answer =
            let f =
              finish-Finished L answer removed swapped c
                (swapped-IsOrdered L d c x.ordered i removed sel_after ts out) avoids in
            record {
              new_contents = c;
              ordered = f.ordered;
              memory =
                  ap (λ (e : Database F). e.active_mem_table) f.same
                  ∙ ap (λ (e : Database F). e.active_mem_table) x.same;
              next_seq =
                  ap (λ (e : Database F). e.next_seq) f.same
                  ∙ ap (λ (e : Database F). e.next_seq) x.same;
              snapshots =
                  ap (λ (e : Database F). e.snapshots) f.same
                  ∙ ap (λ (e : Database F). e.snapshots) x.same;
              write_failed =
                  ap (λ (e : Database F). e.write_failed) f.same
                  ∙ ap (λ (e : Database F). e.write_failed) x.same;
              reads = λ k s h.
                  ap (λ (e : Database F). visible k s (stored (view e c))) f.same
                  ∙ swapped_reads k s h;
            }

        installed_Preserves :
            (answer : SaveAnswer)
            → Preserves L db (install answer removed (suc i) (d, some ts)).1 contents
        unfolding replace swapped
        installed_Preserves answer =
            subst
              (λ b.
                Preserves L db (and_then (b, swapped) (λ e. finish L answer removed e)).1 contents)
              (sym (replaced_whole L d c x.ordered i removed sel_after ts out)) (finished answer)

      install-Preserves :
          (answer : SaveAnswer) (d : Database F) (tables : Option (List TableMeta))
          → Writes L db contents slices (d, tables)
          → Preserves L db (install answer removed (suc i) (d, tables)).1 contents
      install-Preserves answer d none w =
          Extends-Preserves L db d contents w.new_contents o w.extends
      install-Preserves answer d (some ts) w =
          let (stand, described, fresh) = w.tables ts refl in
          installed_Preserves d w.new_contents w.extends ts stand described fresh answer

  -- A compaction of selected tables keeps the database ordered, and every read at or above the
  -- smallest active snapshot is answered as before, whatever its system calls answer, if its records
  -- take fewer than 2^64 bytes and the table counter does not wrap.
  pub compact_range-Preserves :
      (options : Options) (answer : SaveAnswer) (db : Database F) (contents : ℕ → List Record)
      (i : ℕ) (removed : List ℕ)
      → IsOrdered L db contents
      → Selects db.manifest contents i removed
      → HasRoom options.compaction_slice_bytes db contents removed
      → Preserves L db (compact_range options answer removed (suc i) db).1 contents
  unfolding compact_range
  compact_range-Preserves options answer db contents i removed o sel room =
      let th = options.compaction_slice_bytes in
      let cut = slices_of th db contents removed in
      let w =
        write_compaction_output-Writes L cut db contents o
          (slices_fit db contents o i removed sel th room.bytes) room.numbers in
      elim (read_tables_taken L db contents o removed (numbers db contents o i removed sel th)) [
        | inl read ↦
            subst
              (λ ss.
                Preserves L db (compact_sources options answer removed (suc i) db ss).1 contents)
              (sym read)
              (install-Preserves db contents o i removed sel th room.bytes answer
                (write_compaction_output db cut).0 (write_compaction_output db cut).1 w)
        | inr fails ↦
            subst
              (λ ss.
                Preserves L db (compact_sources options answer removed (suc i) db ss).1 contents)
              (sym fails) (Preserves-refl L db contents o)
      ]
