-- ===== src/Database/Newest.antt =====
-- `DB::get` answers by the newest record of the key in view.
use lsmtree.Base.{
  ℕ, zero, suc, ◌-◌, ◌≡◌, ◌⊎◌, ◌∙◌, refl, sym, ap, subst, List, Option, none, some, All, In, inl,
  inr, arith, length, Option-cases, All-intro,
}
use lsmtree.Base.Checked.{ok}
use lsmtree.Database.{
  Database, view, value_of, or_else, search_level_zero, search_level, search_found, search_levels,
  search_sstables, get_at, reply,
}
use lsmtree.Database.First.{first-newer, In-table_records}
use lsmtree.Database.Levels.{visible-find_table, get_table_meta_of}
use lsmtree.Database.Spans.{span_records, span_records-whole, whole_levels, In-span_records}
use lsmtree.Database.Lookup.{
  Finds, Serves, or_else-Finds, search_table-Finds, search_level_zero-Finds,
}
use lsmtree.Database.Order.{NewerThan, IsOrdered, Same, Same-refl, Same-IsOrdered}
use lsmtree.Manifest.{Manifest, level, level_count, find_table}
use lsmtree.Manifest.Lookup.{find_table-In}
use lsmtree.MemTable.{records, get}
use lsmtree.MemTable.Lookup.{get_lem}
use lsmtree.Record.{Record, Result}
use lsmtree.Record.Visible.{visible, result_of}
use lsmtree.Scan.Sound.{IsTable, table_records, level_records, stored}
use lsmtree.TableFiles.{TableFiles, TableLaws}
use lsmtree.Text.{Str}

module _ {F : TableFiles} (L : TableLaws F) (contents : ℕ → List Record) (k : Str) (s : ℕ) where
  serves :
      (db : Database F) (i : ℕ)
      → IsOrdered L db contents
      → All (Serves L contents k s db) (level db.manifest i)
  serves db i o =
      All-intro (Serves L contents k s db) (level db.manifest i)
        (λ t m. let stands = o.tables i t m in (stands.held, stands.table))

  pub are_tables :
      (db : Database F) (i : ℕ)
      → IsOrdered L db contents
      → All (IsTable contents) (level db.manifest i)
  are_tables db i o =
      All-intro (IsTable contents) (level db.manifest i) (λ t m. (o.tables i t m).table)

  search_level-Finds :
      (db : Database F) (n : ℕ)
      → IsOrdered L db contents
      → Finds L db
          (search_level db (suc n) k s)
          (result_of (visible k s (table_records contents (level db.manifest (suc n)))))
  unfolding search_level
  search_level-Finds db n o =
      let l = level db.manifest (suc n) in
      let answer = visible-find_table contents k s l (are_tables db (suc n) o) (o.disjoint n) in
      elim (Option-cases (find_table k l)) [
        | inl e ↦
            let none_here : visible k s (table_records contents l) ≡ none = answer ∙ rw e refl in
            subst (Finds L db (search_level db (suc n) k s)) (ap result_of (sym none_here)) (
              subst (λ a. Finds L db (search_found db k s a) Result.absent)
                (sym (get_table_meta_of db.manifest n k ∙ ap ok e)) (inl refl, Same-refl L db))
        | inr (t, e) ↦
            let there : visible k s (table_records contents l) ≡ visible k s (contents t.number) =
              answer ∙ rw e refl in
            let held = (o.tables (suc n) t (find_table-In k l t e).0).held in
            subst (λ x. Finds L db (search_level db (suc n) k s) (result_of x)) (sym there)
              (subst
                (λ a.
                  Finds L db (search_found db k s a) (result_of (visible k s (contents t.number))))
                (sym (get_table_meta_of db.manifest n k ∙ ap ok e))
                (search_table-Finds L db t.number k s (contents t.number) held))
      ]

  pub newer_below :
      (db : Database F) (left n : ℕ)
      → IsOrdered L db contents
      → NewerThan
          (table_records contents (level db.manifest n))
          (span_records contents db.manifest.levels left (suc n))
  newer_below db left n o r q i j e =
      let (t, m, a) = In-table_records contents (level db.manifest n) r i in
      let (l, le, u, h, b) = In-span_records contents db.manifest.levels left (suc n) q j in
      o.newer_levels n l t u (omega (arith, le)) m h r q a b e

  search_levels-Finds :
      (left n : ℕ) (db : Database F)
      → IsOrdered L db contents
      → Finds L db
          (search_levels db left (suc n) k s)
          (result_of (visible k s (span_records contents db.manifest.levels left (suc n))))
  unfolding search_levels span_records
  search_levels-Finds zero n db o = unfold visible in (inl refl, Same-refl L db)
  search_levels-Finds (suc left) n db o =
      let here = table_records contents (level db.manifest (suc n)) in
      let below = span_records contents db.manifest.levels left (suc (suc n)) in
      subst (λ x. Finds L db (search_levels db (suc left) (suc n) k s) x)
        (first-newer k s here below (newer_below db left (suc n) o))
        (or_else-Finds L db (search_level db (suc n) k s)
          (λ d. search_levels d left (suc (suc n)) k s) (result_of (visible k s here))
          (result_of (visible k s below)) (search_level-Finds db n o)
          (λ d e.
            subst
              (λ (m : Manifest).
                Finds L d (search_levels d left (suc (suc n)) k s)
                  (result_of (visible k s (span_records contents m.levels left (suc (suc n))))))
              (ap (λ x. x.manifest) e.1)
              (search_levels-Finds left (suc n) d (Same-IsOrdered L db d contents e o))))

  -- The tables answer as all their records together.
  search_sstables-Finds :
      (db : Database F)
      → IsOrdered L db contents
      → Finds L db
          (search_sstables db k s)
          (result_of (visible k s (level_records contents db.manifest.levels)))
  unfolding search_sstables
  search_sstables-Finds db o =
      let ls = db.manifest.levels in
      let zeroth = table_records contents (level db.manifest 0) in
      let others = span_records contents ls (level_count db.manifest - 1) 1 in
      subst (λ x. Finds L db (search_sstables db k s) (result_of (visible k s x)))
        (whole_levels contents ls)
        (subst (λ x. Finds L db (search_sstables db k s) x)
          (first-newer k s zeroth others (newer_below db (level_count db.manifest - 1) 0 o))
          (or_else-Finds L db (search_level_zero db (level db.manifest 0) k s)
            (λ d. search_levels d (level_count d.manifest - 1) 1 k s)
            (result_of (visible k s zeroth)) (result_of (visible k s others))
            (search_level_zero-Finds L contents k s (level db.manifest 0) db (serves db 0 o)
              o.level_zero)
            (λ d e.
              subst
                (λ (m : Manifest).
                  Finds L d (search_levels d (level_count d.manifest - 1) 1 k s) (
                    result_of (visible k s (span_records contents m.levels (level_count m - 1) 1))))
                (ap (λ x. x.manifest) e.1)
                (search_levels-Finds (level_count d.manifest - 1) 0 d
                  (Same-IsOrdered L db d contents e o)))))

  pub newer_tables_all :
      (db : Database F)
      → IsOrdered L db contents
      → NewerThan (records db.active_mem_table.table) (level_records contents db.manifest.levels)
  newer_tables_all db o r q i j e =
      let whole = span_records-whole contents db.manifest.levels in
      let (l, le, t, m, a) =
        In-span_records contents db.manifest.levels (length db.manifest.levels) 0 q
          (subst (In q) (sym whole) j) in
      o.newer_memory l t m r q i a e

  get_at-Finds :
      (db : Database F)
      → IsOrdered L db contents
      → Finds L db
          (or_else (db, some (get db.active_mem_table k s)) (λ d. search_sstables d k s))
          (result_of (visible k s (stored (view db contents))))
  unfolding stored
  get_at-Finds db o =
      let memory = records db.active_mem_table.table in
      let tables = level_records contents db.manifest.levels in
      subst
        (Finds L db (or_else (db, some (get db.active_mem_table k s)) (λ d. search_sstables d k s)))
        (first-newer k s memory tables (newer_tables_all db o))
        (or_else-Finds L db (db, some (get db.active_mem_table k s)) (λ d. search_sstables d k s)
          (result_of (visible k s memory)) (result_of (visible k s tables))
          (inl (ap some (get_lem k s db.active_mem_table o.memory)), Same-refl L db)
          (λ d e.
            subst
              (λ (m : Manifest).
                Finds L d (search_sstables d k s)
                  (result_of (visible k s (level_records contents m.levels))))
              (ap (λ x. x.manifest) e.1)
              (search_sstables-Finds d (Same-IsOrdered L db d contents e o))))

  -- `get` answers with `a`, or throws since a read of a table does.
  abbrev pub Answers : Database F → Database F × Option (Option Str) → Option Str → Type 0
  Answers db r a = ((r.1 ≡ some a) ⊎ ((r.1 ≡ none) × (L.Reads db.files → ⊥))) × Same L db r.0

  reply-Answers :
      (db : Database F) (a : Database F × Option Result) (r : Result)
      → Finds L db a r
      → Answers db (reply a) (value_of r)
  reply-Answers db (d, none) r (inl e, s) = absurd (cc e)
  reply-Answers db (d, none) r (inr (e, throws), s) = (inr (refl, throws), s)
  reply-Answers db (d, some x) r (inl e, s) =
      (inl (ap (λ (o : Option Result). elim o [ none ↦ none | some y ↦ some (value_of y) ]) e), s)
  reply-Answers db (d, some x) r (inr (e, throws), s) = absurd (cc e)

  -- Over any table files that keep the laws, a read of an ordered database answers by the newest record of the key at or below the read
  -- sequence, of all that the memtable and the tables hold, or it throws, which it does only where
  -- opening or reading a table does. It leaves the database as it was but for the files, which hold
  -- what they held.
  pub get_at-Same :
      (db : Database F)
      → IsOrdered L db contents
      → Answers db (get_at db k s) (value_of (result_of (visible k s (stored (view db contents)))))
  unfolding get_at
  get_at-Same db o =
      reply-Answers db
        (or_else (db, some (get db.active_mem_table k s)) (λ d. search_sstables d k s))
        (result_of (visible k s (stored (view db contents)))) (get_at-Finds db o)
