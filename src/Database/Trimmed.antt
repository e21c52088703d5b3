-- ===== src/Database/Trimmed.antt =====
-- The last steps of a compaction: the manifest is saved, the taken tables are removed and forgotten.
use lsmtree.Base.{ℕ, ◌≡◌, ◌≢◌, refl, sym, subst, List, [], ◌∷◌, All, In, arith, Bool, true, false}
use lsmtree.Database.{Database}
use lsmtree.Database.Compact.{and_then, remove_tables, forget_tables}
use lsmtree.Database.Grow.{IsOrdered_grown}
use lsmtree.Database.Order.{IsOrdered}
use lsmtree.Manifest.{TableMeta, Manifest, level}
use lsmtree.Record.{Record}
use lsmtree.TableFiles.{TableFiles, TableLaws}

module _ {F : TableFiles} (L : TableLaws F) where
  pub with_saved-IsOrdered :
      (db : Database F) (c : ℕ → List Record) (x : Manifest)
      → IsOrdered L db c
      → IsOrdered L (record db { saved_manifest = x }) c
  with_saved-IsOrdered db c x o = record {
    memory = o.memory;
    memory_old = o.memory_old;
    tables = λ i t m.
        let s = o.tables i t m in
        record {
          held = s.held;
          table = s.table;
          some_record = s.some_record;
          numbered = s.numbered;
          old = s.old;
        };
    level_zero = o.level_zero;
    disjoint = o.disjoint;
    newer_memory = o.newer_memory;
    newer_levels = o.newer_levels;
    in_64_bits = o.in_64_bits;
    free = o.free;
  }

  -- The files lose nothing but the tables `ns`.
  pub record Trims (ns : List ℕ) (fs gs : F.Files) : Type 0 where
    pub holds : (n : ℕ) (rs : List Record) → All (λ m. m ≢ n) ns → L.Holds fs n rs → L.Holds gs n rs
    pub free : (n : ℕ) → L.IsFree fs n → L.IsFree gs n

  -- The databases differ in their files alone, which lose nothing but the tables `ns`.
  abbrev pub Trimmed : List ℕ → Database F → Database F → Type 0
  Trimmed ns db db' = (fs : F.Files) × (db' ≡ record db { files = fs }) × Trims ns db.files fs

  Trims-trans :
      (ns : List ℕ) (fs gs hs : F.Files) → Trims ns fs gs → Trims ns gs hs → Trims ns fs hs
  Trims-trans ns fs gs hs a b = record {
    holds = λ n rs h x. b.holds n rs h (a.holds n rs h x);
    free = λ n x. b.free n (a.free n x);
  }

  Trimmed-trans :
      (ns : List ℕ) (a b c : Database F) → Trimmed ns a b → Trimmed ns b c → Trimmed ns a c
  Trimmed-trans ns a b c (fs, e, k) (gs, f, l) = (
    gs,
    subst (λ d. c ≡ record d { files = gs }) e f,
    Trims-trans ns a.files fs gs k (subst (λ d. Trims ns d.files gs) e l),
  )

  Trims-more : (n : ℕ) (ns : List ℕ) (fs gs : F.Files) → Trims ns fs gs → Trims (n ∷ ns) fs gs
  Trims-more n ns fs gs t = record { holds = λ m rs h x. t.holds m rs h.1 x; free = t.free }

  Trimmed-more : (n : ℕ) (ns : List ℕ) (a b : Database F) → Trimmed ns a b → Trimmed (n ∷ ns) a b
  Trimmed-more n ns a b (fs, e, k) = (fs, e, Trims-more n ns a.files fs k)

  remove_one :
      (db : Database F) (n : ℕ) (ns : List ℕ)
      → Trimmed (n ∷ ns) db (record db { files = (F.remove_table db.files n).0 })
  remove_one db n ns = (
    (F.remove_table db.files n).0,
    refl,
    record {
      holds = λ m rs h x. L.remove_keeps db.files n m rs h.0 x;
      free = λ m x. L.remove_free db.files n m x;
    },
  )

  pub step-Trimmed :
      (ns : List ℕ) (db d : Database F) (done : Bool) (f : Database F → Bool × Database F)
      → Trimmed ns db d
      → Trimmed ns d (f d).1
      → Trimmed ns db (and_then (done, d) f).1
  step-Trimmed ns db d true f a b = Trimmed-trans ns db d (f d).1 a b
  step-Trimmed ns db d false f a b = a

  pub remove_tables-Trimmed :
      (ns : List ℕ) (db : Database F) → Trimmed ns db (remove_tables ns db).1
  unfolding remove_tables
  remove_tables-Trimmed [] db = (db.files, refl, record { holds = λ n rs h x. x; free = λ n x. x })
  remove_tables-Trimmed (n ∷ ns) db =
      let next = record db { files = (F.remove_table db.files n).0 } in
      step-Trimmed (n ∷ ns) db next (F.remove_table db.files n).1 (λ d. remove_tables ns d)
        (remove_one db n ns)
        (Trimmed-more n ns next (remove_tables ns next).1 (remove_tables-Trimmed ns next))

  pub forget_tables-Trimmed :
      (ns : List ℕ) (taken : List ℕ) (db : Database F) → Trimmed taken db (forget_tables ns db)
  unfolding forget_tables
  forget_tables-Trimmed [] taken db =
      (db.files, refl, record { holds = λ n rs h x. x; free = λ n x. x })
  forget_tables-Trimmed (n ∷ ns) taken db =
      let next = record db { files = F.forget_table db.files n } in
      Trimmed-trans taken db next (forget_tables ns next)
        (
          F.forget_table db.files n,
          refl,
          record {
            holds = λ m rs h x. L.forget_keeps db.files n m rs x;
            free = λ m x. L.forget_free db.files n m x;
          },
        )
        (forget_tables-Trimmed ns taken next)

  -- Files that lose only tables that the manifest does not name keep the order.
  pub Trimmed-IsOrdered :
      (ns : List ℕ) (db db' : Database F) (c : ℕ → List Record)
      → Trimmed ns db db'
      → ((j : ℕ) (t : TableMeta) → In t (level db.manifest j) → All (λ m. m ≢ t.number) ns)
      → IsOrdered L db c
      → IsOrdered L db' c
  Trimmed-IsOrdered ns db db' c (fs, e, k) h o =
      subst (λ d. IsOrdered L d c) (sym e)
        (IsOrdered_grown L db c fs db.manifest.next_table_number (omega arith)
          (λ j t m. k.holds t.number (c t.number) (h j t m) (o.tables j t m).held)
          (λ n x. k.free n (o.free n x)) o)
