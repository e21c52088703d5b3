-- ===== src/Database/Finish.antt =====
-- The steps of `compactRange` behind `replaceTables`.
use lsmtree.Base.{ℕ, ◌≡◌, ◌≢◌, refl, List, All, In, true, Bool}
use lsmtree.Database.{Database}
use lsmtree.Database.Compact.{SaveAnswer, save, and_then, remove_tables, forget_tables}
use lsmtree.Database.Order.{IsOrdered}
use lsmtree.Database.Trimmed.{
  with_saved-IsOrdered, step-Trimmed, remove_tables-Trimmed, forget_tables-Trimmed,
  Trimmed-IsOrdered,
}
use lsmtree.Manifest.{TableMeta, Manifest, level}
use lsmtree.Record.{Record}
use lsmtree.TableFiles.{TableFiles, TableLaws}

module _ {F : TableFiles} (L : TableLaws F) where
  -- The steps behind `replaceTables`.
  abbrev pub finish : SaveAnswer → List ℕ → Database F → Bool × Database F
  finish answer removed db =
      and_then (save answer db)
        (λ db. and_then (remove_tables removed db) (λ db. (true, forget_tables removed db)))

  -- What they leave is `db`, but for the saved manifest and the files.
  pub record Finished (db db' : Database F) (c : ℕ → List Record) : Type 0 where
    pub saved : Manifest
    pub files : F.Files
    pub same : db' ≡ record db { saved_manifest = saved; files = files }
    pub ordered : IsOrdered L db' c

  pub finish-Finished :
      (answer : SaveAnswer) (removed : List ℕ) (db : Database F) (c : ℕ → List Record)
      → IsOrdered L db c
      → ((j : ℕ) (t : TableMeta) → In t (level db.manifest j) → All (λ m. m ≢ t.number) removed)
      → Finished db (finish answer removed db).1 c
  unfolding save
  finish-Finished SaveAnswer.kept_old removed db c o h = record {
    saved = db.saved_manifest;
    files = db.files;
    same = refl;
    ordered = o;
  }
  finish-Finished SaveAnswer.replaced removed db c o h = record {
    saved = db.manifest;
    files = db.files;
    same = refl;
    ordered = with_saved-IsOrdered L db c db.manifest o;
  }
  finish-Finished SaveAnswer.saved removed db c o h =
      let d = record db { saved_manifest = db.manifest } in
      let (done, e) = remove_tables removed d in
      let trimmed =
        step-Trimmed L removed d e done (λ db. (true, forget_tables removed db))
          (remove_tables-Trimmed L removed d) (forget_tables-Trimmed L removed removed e) in
      record {
        saved = db.manifest;
        files = trimmed.0;
        same = trimmed.1;
        ordered =
            Trimmed-IsOrdered L removed d
              (and_then (remove_tables removed d) (λ db. (true, forget_tables removed db))).1 c
              trimmed h (with_saved-IsOrdered L db c db.manifest o);
      }
