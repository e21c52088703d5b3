-- ===== src/Database/Grow.antt =====
-- New table files leave the order of a database as it was.
use lsmtree.Base.{
  ℕ, ◌≤◌, ◌<◌, ◌≡◌, refl, List, [], ◌∷◌, ◌==◌, if◌then◌else◌, All, All-intro, All-In, In, arith,
  ==-refl,
}
use lsmtree.Database.{Database}
use lsmtree.Database.Order.{NewerThan, AreNewestFirst, Stands, IsOrdered}
use lsmtree.Manifest.{Level, TableMeta, level}
use lsmtree.Record.{Record}
use lsmtree.Scan.Sound.{IsTable}
use lsmtree.TableFiles.{TableFiles, TableLaws}

-- The contents of the tables, with those of table `n` changed.
abbrev pub put_contents : (ℕ → List Record) → ℕ → List Record → ℕ → List Record
put_contents contents n rs m = if m == n then rs else contents m

pub put_contents_same :
    (contents : ℕ → List Record) (n : ℕ) (rs : List Record) → put_contents contents n rs n ≡ rs
put_contents_same contents n rs = rw (==-refl n) refl

pub put_contents_below :
    (contents : ℕ → List Record) (n m : ℕ) (rs : List Record)
    → m < n
    → put_contents contents n rs m ≡ contents m
put_contents_below contents n m rs h = ground arith

module _ (contents contents' : ℕ → List Record) where
  -- Both say the same of this table.
  abbrev Agree : TableMeta → Type 0
  Agree t = contents' t.number ≡ contents t.number

  IsTable-Agree : (t : TableMeta) → Agree t → IsTable contents t → IsTable contents' t
  IsTable-Agree t e h = record { sorted = rw e h.sorted; in_bounds = rw e h.in_bounds }

  NewerThan-Agree :
      (t u : TableMeta)
      → Agree t
      → Agree u
      → NewerThan (contents t.number) (contents u.number)
      → NewerThan (contents' t.number) (contents' u.number)
  NewerThan-Agree t u e f n = rw (e, f) n

  AreNewestFirst-Agree :
      (ts : Level) → All Agree ts → AreNewestFirst contents ts → AreNewestFirst contents' ts
  AreNewestFirst-Agree [] a n = tt
  AreNewestFirst-Agree (t ∷ ts) a n = (
    All-intro (λ u. NewerThan (contents' t.number) (contents' u.number)) ts
        (λ u i.
          NewerThan-Agree t u a.0 (All-In Agree ts u a.1 i)
            (All-In (λ u. NewerThan (contents t.number) (contents u.number)) ts u n.0 i)),
    AreNewestFirst-Agree ts a.1 n.1,
  )

module _ {F : TableFiles} (L : TableLaws F) where
  pub Stands-agree :
      (db : Database F) (contents contents' : ℕ → List Record) (t : TableMeta)
      → contents' t.number ≡ contents t.number
      → Stands L db contents t
      → Stands L db contents' t
  Stands-agree db contents contents' t e s = record {
    held = rw e s.held;
    table = IsTable-Agree contents contents' t e s.table;
    some_record = rw e s.some_record;
    numbered = s.numbered;
    old = rw e s.old;
  }

  -- Only the contents of the tables that stand count.
  pub IsOrdered_agree :
      (db : Database F) (contents contents' : ℕ → List Record)
      → ((i : ℕ) (t : TableMeta)
          → In t (level db.manifest i)
          → contents' t.number ≡ contents t.number)
      → IsOrdered L db contents
      → IsOrdered L db contents'
  IsOrdered_agree db contents contents' e o = record {
    memory = o.memory;
    memory_old = o.memory_old;
    tables = λ i t m. Stands-agree db contents contents' t (e i t m) (o.tables i t m);
    level_zero =
        AreNewestFirst-Agree contents contents' (level db.manifest 0)
          (All-intro (Agree contents contents') (level db.manifest 0) (λ t m. e 0 t m))
          o.level_zero;
    disjoint = o.disjoint;
    newer_memory = λ i t m. rw (e i t m) (o.newer_memory i t m);
    newer_levels = λ i j t u h m n.
        NewerThan-Agree contents contents' t u (e i t m) (e j u n) (o.newer_levels i j t u h m n);
    in_64_bits = o.in_64_bits;
    free = o.free;
  }

  -- The database with other files, and with its table counter moved on.
  abbrev pub grown : Database F → F.Files → ℕ → Database F
  grown db fs next = record db {
    manifest = record db.manifest { next_table_number = next };
    files = fs;
  }

  pub Stands-grown :
      (db : Database F) (contents : ℕ → List Record) (fs : F.Files) (next : ℕ) (t : TableMeta)
      → db.manifest.next_table_number ≤ next
      → L.Holds fs t.number (contents t.number)
      → Stands L db contents t
      → Stands L (grown db fs next) contents t
  Stands-grown db contents fs next t h held s = record {
    held = held;
    table = s.table;
    some_record = s.some_record;
    numbered = omega (arith, s.numbered);
    old = s.old;
  }

  -- Files that still hold the tables that stand keep the order.
  pub IsOrdered_grown :
      (db : Database F) (contents : ℕ → List Record) (fs : F.Files) (next : ℕ)
      → db.manifest.next_table_number ≤ next
      → ((i : ℕ) (t : TableMeta)
          → In t (level db.manifest i)
          → L.Holds fs t.number (contents t.number))
      → ((n : ℕ) → next ≤ n → L.IsFree fs n)
      → IsOrdered L db contents
      → IsOrdered L (grown db fs next) contents
  IsOrdered_grown db contents fs next h held free o = record {
    memory = o.memory;
    memory_old = o.memory_old;
    tables = λ i t m. Stands-grown db contents fs next t h (held i t m) (o.tables i t m);
    level_zero = o.level_zero;
    disjoint = o.disjoint;
    newer_memory = o.newer_memory;
    newer_levels = o.newer_levels;
    in_64_bits = o.in_64_bits;
    free = free;
  }
