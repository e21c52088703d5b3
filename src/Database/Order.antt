-- ===== src/Database/Order.antt =====
-- The order of a database's sources: what is newer stands where a read looks first.
use lsmtree.Base.{ℕ, suc, ◌≤◌, ◌<◌, ◌^◌, ◌≡◌, ◌≢◌, List, [], ◌∷◌, All, In, subst, sym, refl}
use lsmtree.Database.{Database, search_table}
use lsmtree.Manifest.{Level, TableMeta, level}
use lsmtree.Manifest.Levels.{IsDisjoint}
use lsmtree.MemTable.{records}
use lsmtree.Record.{Record}
use lsmtree.Record.Sorted.{IsSorted}
use lsmtree.Scan.Sound.{IsTable}
use lsmtree.TableFiles.{TableFiles, TableLaws}

-- Where both have a record of a key, that of `xs` is newer.
abbrev pub NewerThan : List Record → List Record → Type 0
NewerThan xs ys = (r q : Record) → In r xs → In q ys → r.key ≡ q.key → q.seq < r.seq

-- Level 0: each table is newer than those behind it.
abbrev pub AreNewestFirst : (ℕ → List Record) → Level → Type 0
AreNewestFirst contents [] = Unit
AreNewestFirst contents (t ∷ ts) =
    All (λ u. NewerThan (contents t.number) (contents u.number)) ts × AreNewestFirst contents ts

module _ {F : TableFiles} (L : TableLaws F) where
  -- A table of the manifest: its file, its metadata and its records fit together.
  pub record Stands (db : Database F) (contents : ℕ → List Record) (t : TableMeta) : Type 0 where
    pub held : L.Holds db.files t.number (contents t.number)
    pub table : IsTable contents t
    pub some_record : contents t.number ≢ []
    pub numbered : t.number < db.manifest.next_table_number
    pub old : All (λ r. r.seq < db.next_seq) (contents t.number)

  -- The invariant of a database whose tables hold `contents`.
  pub record IsOrdered (db : Database F) (contents : ℕ → List Record) : Type 0 where
    pub memory : IsSorted (records db.active_mem_table.table)
    pub memory_old : All (λ r. r.seq < db.next_seq) (records db.active_mem_table.table)
    pub tables : (i : ℕ) (t : TableMeta) → In t (level db.manifest i) → Stands db contents t
    pub level_zero : AreNewestFirst contents (level db.manifest 0)
    pub disjoint : (i : ℕ) → IsDisjoint (level db.manifest (suc i))
    pub newer_memory :
        (i : ℕ) (t : TableMeta)
        → In t (level db.manifest i)
        → NewerThan (records db.active_mem_table.table) (contents t.number)
    pub newer_levels :
        (i j : ℕ) (t u : TableMeta)
        → i < j
        → In t (level db.manifest i)
        → In u (level db.manifest j)
        → NewerThan (contents t.number) (contents u.number)
    pub in_64_bits : db.next_seq < 2 ^ 64
    pub free : (n : ℕ) → db.manifest.next_table_number ≤ n → L.IsFree db.files n

  -- Nothing that the files held is lost, and no read begins to throw.
  pub record Keeps (fs gs : F.Files) : Type 0 where
    pub holds : (n : ℕ) (rs : List Record) → L.Holds fs n rs → L.Holds gs n rs
    pub free : (n : ℕ) → L.IsFree fs n → L.IsFree gs n
    pub reads : L.Reads fs → L.Reads gs

  pub Keeps-refl : (fs : F.Files) → Keeps fs fs
  Keeps-refl fs = record { holds = λ n rs h. h; free = λ n h. h; reads = λ h. h }

  pub Keeps-trans : (fs gs hs : F.Files) → Keeps fs gs → Keeps gs hs → Keeps fs hs
  Keeps-trans fs gs hs a b = record {
    holds = λ n rs h. b.holds n rs (a.holds n rs h);
    free = λ n h. b.free n (a.free n h);
    reads = λ h. b.reads (a.reads h);
  }

  -- The databases differ in their files alone, and nothing that these held is lost.
  abbrev pub Same : Database F → Database F → Type 0
  Same db db' = (fs : F.Files) × (db' ≡ record db { files = fs }) × Keeps db.files fs

  pub Same-refl : (db : Database F) → Same db db
  Same-refl db = (db.files, refl, Keeps-refl db.files)

  pub Same-trans : (a b c : Database F) → Same a b → Same b c → Same a c
  Same-trans a b c (fs, e, k) (gs, f, l) = (
    gs,
    subst (λ d. c ≡ record d { files = gs }) e f,
    Keeps-trans a.files fs gs k (subst (λ d. Keeps d.files gs) e l),
  )

  with_files-IsOrdered :
      (db : Database F) (fs : F.Files) (contents : ℕ → List Record)
      → Keeps db.files fs
      → IsOrdered db contents
      → IsOrdered (record db { files = fs }) contents
  with_files-IsOrdered db fs contents k o = record {
    memory = o.memory;
    memory_old = o.memory_old;
    tables = λ i t m.
        let s = o.tables i t m in
        record {
          held = k.holds t.number (contents t.number) s.held;
          table = s.table;
          some_record = s.some_record;
          numbered = s.numbered;
          old = s.old;
        };
    level_zero = o.level_zero;
    disjoint = o.disjoint;
    newer_memory = o.newer_memory;
    newer_levels = o.newer_levels;
    in_64_bits = o.in_64_bits;
    free = λ n h. k.free n (o.free n h);
  }

  -- What changes the files alone and loses nothing keeps the order.
  pub Same-IsOrdered :
      (db db' : Database F) (contents : ℕ → List Record)
      → Same db db'
      → IsOrdered db contents
      → IsOrdered db' contents
  Same-IsOrdered db db' contents (fs, e, k) o =
      subst (λ d. IsOrdered d contents) (sym e) (with_files-IsOrdered db fs contents k o)

  pub search_table-Same :
      (db : Database F) (number : ℕ) (key : List ℕ) (read_seq : ℕ)
      → Same db (search_table db number key read_seq).0
  unfolding search_table
  search_table-Same db number key read_seq = (
    (F.search_table db.files number key read_seq).0,
    refl,
    record {
      holds = λ n rs h. L.search_keeps db.files number n key read_seq rs h;
      free = λ n h. L.search_free db.files number n key read_seq h;
      reads = λ h. L.search_reads db.files number key read_seq h;
    },
  )
