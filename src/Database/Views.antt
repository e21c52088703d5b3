-- ===== src/Database/Views.antt =====
-- All that an ordered database holds: no two records share key and sequence, so a scan is right too.
use lsmtree.Base.{
  ℕ, zero, suc, ◌≡◌, ◌↔◌, ◌⊎◌, refl, sym, subst, List, [], ◌∷◌, ◌++◌, All, All-intro, All-In,
  All_map, All-append, In, In-append, In-append_left, In-append_right, inl, inr, arith, length,
  true, get_or,
}
use lsmtree.Database.{Database, view}
use lsmtree.Database.First.{In-table_records}
use lsmtree.Database.Order.{NewerThan, AreNewestFirst, IsOrdered}
use lsmtree.Database.Newest.{are_tables, newer_below, newer_tables_all}
use lsmtree.Manifest.Levels.{IsDisjoint, LeftOf, le_Before, Before-le}
use lsmtree.Text.Order.{Before, Before-ne}
use lsmtree.Database.Spans.{span_records, span_records-whole, In-span_records}
use lsmtree.Manifest.{Manifest, TableMeta, Level, level}
use lsmtree.MemTable.{records}
use lsmtree.Record.{Record}
use lsmtree.Record.Latest.{apart}
use lsmtree.Record.Sorted.{IsSorted, Precedes}
use lsmtree.Scan.Sound.{IsTable, IsConsistent, table_records, level_records, stored}
use lsmtree.Merge.Queue.Sorted.{Apart}
use lsmtree.Scan.Sublists.{AreApart}
use lsmtree.TableFiles.{TableFiles, TableLaws}
use lsmtree.Text.{str_le}

-- Lists that share no key and sequence are apart together.
pub AreApart-append :
    (xs ys : List Record)
    → AreApart xs
    → AreApart ys
    → ((r q : Record) → In r xs → In q ys → Apart r q)
    → AreApart (xs ++ ys)
AreApart-append [] ys a b c = b
AreApart-append (x ∷ xs) ys a b c = (
  All-append (Apart x) xs ys a.0 (All-intro (Apart x) ys (λ q i. c x q (inl refl) i)),
  AreApart-append xs ys a.1 b (λ r q i j. c r q (inr i) j),
)

-- Sorted records are apart.
pub IsSorted-AreApart : (rs : List Record) → IsSorted rs → AreApart rs
IsSorted-AreApart [] h = tt
IsSorted-AreApart (r ∷ rs) h =
    (All_map (Precedes r) (Apart r) rs (λ q p e. apart r q p e.0 e.1) h.0, IsSorted-AreApart rs h.1)

NewerThan-Apart :
    (xs ys : List Record) → NewerThan xs ys → (r q : Record) → In r xs → In q ys → Apart r q
NewerThan-Apart xs ys n r q i j e = let newer = n r q i j e.0 in omega (arith, e.1)

All-levels : (P : Level → Type 0) (ls : List Level) → ((i : ℕ) → P (get_or ls i [])) → All P ls
All-levels P [] h = tt
All-levels P (l ∷ ls) h = (h 0, All-levels P ls (λ i. h (suc i)))

table_records-In :
    (contents : ℕ → List Record) (ts : Level) (t : TableMeta) (r : Record)
    → In t ts
    → In r (contents t.number)
    → In r (table_records contents ts)
unfolding table_records
table_records-In contents [] t r i j = absurd i
table_records-In contents (u ∷ ts) t r (inl e) j =
    In-append_left r (contents u.number) (table_records contents ts)
      (subst (λ (v : TableMeta). In r (contents v.number)) e j)
table_records-In contents (u ∷ ts) t r (inr i) j =
    In-append_right r (contents u.number) (table_records contents ts)
      (table_records-In contents ts t r i j)

level_records-In :
    (contents : ℕ → List Record) (ls : List Level) (n : ℕ) (t : TableMeta) (r : Record)
    → In t (get_or ls n [])
    → In r (contents t.number)
    → In r (level_records contents ls)
unfolding level_records
level_records-In contents [] n t r i j = absurd i
level_records-In contents (l ∷ ls) zero t r i j =
    In-append_left r (table_records contents l) (level_records contents ls)
      (table_records-In contents l t r i j)
level_records-In contents (l ∷ ls) (suc n) t r i j =
    In-append_right r (table_records contents l) (level_records contents ls)
      (level_records-In contents ls n t r i j)

-- A record stands in a table of the manifest.
abbrev pub InTables : Manifest → (ℕ → List Record) → Record → Type 0
InTables m contents r = (j : ℕ) × (t : TableMeta) × In t (level m j) × In r (contents t.number)

pub In-level_records :
    (m : Manifest) (contents : ℕ → List Record) (r : Record)
    → In r (level_records contents m.levels) ↔ InTables m contents r
In-level_records m contents r = (
  λ i.
      let (j, le, t, h, k) =
        In-span_records contents m.levels (length m.levels) 0 r
          (subst (In r) (sym (span_records-whole contents m.levels)) i) in
      (j, t, h, k),
  λ i. let (j, t, h, k) = i in level_records-In contents m.levels j t r h k,
)

module _ (contents : ℕ → List Record) where
  zero-AreApart :
      (ts : Level)
      → All (IsTable contents) ts
      → AreNewestFirst contents ts
      → AreApart (table_records contents ts)
  unfolding table_records
  zero-AreApart [] h n = tt
  zero-AreApart (t ∷ ts) h n =
      AreApart-append (contents t.number) (table_records contents ts)
        (IsSorted-AreApart (contents t.number) h.0.sorted) (zero-AreApart ts h.1 n.1)
        (NewerThan-Apart (contents t.number) (table_records contents ts) (λ r q i j e.
          let (u, m, o) = In-table_records contents ts q j in
          All-In (λ u. NewerThan (contents t.number) (contents u.number)) ts u n.0 m r q i o e))

  pub left_keys :
      (t u : TableMeta) (r q : Record)
      → IsTable contents t
      → IsTable contents u
      → LeftOf t u
      → In r (contents t.number)
      → In q (contents u.number)
      → Before r.key q.key
  left_keys t u r q a b l i j =
      let (x, high) =
        All-In (λ q. (str_le t.min_key q.key ≡ true) × (str_le q.key t.max_key ≡ true))
          (contents t.number) r a.in_bounds i in
      let (low, y) =
        All-In (λ q. (str_le u.min_key q.key ≡ true) × (str_le q.key u.max_key ≡ true))
          (contents u.number) q b.in_bounds j in
      Before-le r.key u.min_key q.key (le_Before r.key t.max_key u.min_key high l) low

  disjoint-AreApart :
      (ts : Level)
      → All (IsTable contents) ts
      → IsDisjoint ts
      → AreApart (table_records contents ts)
  unfolding table_records
  disjoint-AreApart [] h d = tt
  disjoint-AreApart (t ∷ ts) h d =
      AreApart-append (contents t.number) (table_records contents ts)
        (IsSorted-AreApart (contents t.number) h.0.sorted) (disjoint-AreApart ts h.1 d.2)
        (λ r q i j e.
          let (u, m, o) = In-table_records contents ts q j in
          let before =
            left_keys t u r q h.0 (All-In (IsTable contents) ts u h.1 m)
              (All-In (LeftOf t) ts u d.1 m) i o in
          Before-ne r.key q.key before (sym e.0))

module _ {F : TableFiles} (L : TableLaws F) (db : Database F) (contents : ℕ → List Record)
    (o : IsOrdered L db contents) where
  abbrev span : ℕ → ℕ → List Record
  span left n = span_records contents db.manifest.levels left n

  level-AreApart : (n : ℕ) → AreApart (table_records contents (level db.manifest n))
  level-AreApart zero =
      zero-AreApart contents (level db.manifest 0) (are_tables L contents [] 0 db 0 o) o.level_zero
  level-AreApart (suc n) =
      disjoint-AreApart contents (level db.manifest (suc n))
        (are_tables L contents [] 0 db (suc n) o) (o.disjoint n)

  span-AreApart : (left n : ℕ) → AreApart (span left n)
  unfolding span_records
  span-AreApart zero n = tt
  span-AreApart (suc left) n =
      AreApart-append (table_records contents (level db.manifest n)) (span left (suc n))
        (level-AreApart n) (span-AreApart left (suc n))
        (NewerThan-Apart (table_records contents (level db.manifest n)) (span left (suc n))
          (newer_below L contents [] 0 db left n o))

  -- What an ordered database holds has no two records of one key and sequence.
  pub stored-AreApart : AreApart (stored (view db contents))
  unfolding stored
  stored-AreApart =
      let ls = db.manifest.levels in
      AreApart-append (records db.active_mem_table.table) (level_records contents ls)
        (IsSorted-AreApart (records db.active_mem_table.table) o.memory)
        (subst AreApart (span_records-whole contents ls) (span-AreApart (length ls) 0))
        (NewerThan-Apart (records db.active_mem_table.table) (level_records contents ls)
          (newer_tables_all L contents [] 0 db o))

  -- A scan of an ordered database finds its sources as it needs them.
  pub view-IsConsistent : IsConsistent (view db contents)
  view-IsConsistent = record {
    memory = o.memory;
    tables =
        All-levels (λ l. All (IsTable contents) l) db.manifest.levels
          (λ i. are_tables L contents [] 0 db i o);
    apart = stored-AreApart;
  }

-- What a database holds stands in its memtable or in a table.
pub In-stored :
    {F : TableFiles} (db : Database F) (contents : ℕ → List Record) (r : Record)
    → In r (stored (view db contents))
      ↔ (In r (records db.active_mem_table.table) ⊎ InTables db.manifest contents r)
unfolding stored
In-stored db contents r =
    let memory = records db.active_mem_table.table in
    let tables = level_records contents db.manifest.levels in
    let (down, up) = In-level_records db.manifest contents r in
    (
      λ i. elim (In-append r memory tables i) [ inl j ↦ inl j | inr j ↦ inr (down j) ],
      λ i. elim i [
        | inl j ↦ In-append_left r memory tables j
        | inr j ↦ In-append_right r memory tables (up j)
      ],
    )
