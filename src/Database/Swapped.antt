-- ===== src/Database/Swapped.antt =====
-- A database stays ordered when a compaction installs its tables.
use lsmtree.Base.{
  ℕ, suc, ◌≤◌, ◌<◌, ◌≡◌, ◌⊎◌, sym, ap, subst, List, All, All-In, In, inl, inr, true, false, arith,
  Bool-cases, ltb,
}
use lsmtree.Database.{Database}
use lsmtree.Database.Installed.{
  replace_tables-Joins, came_from, stays, new-IsDisjoint, level_other, AreNewestFirst-erase_tables,
}
use lsmtree.Database.Order.{NewerThan, AreNewestFirst, Stands, IsOrdered}
use lsmtree.Database.Selects.{Selects}
use lsmtree.Manifest.{Manifest, TableMeta, level, is_removed, replace_tables}
use lsmtree.Manifest.Levels.{IsRange}
use lsmtree.Manifest.Replace.{AreApartTables}
use lsmtree.MemTable.{records}
use lsmtree.Record.{Record}
use lsmtree.TableFiles.{TableFiles, TableLaws}
use lsmtree.Text.{Str, str_le}

-- The tables that a compaction has written: they stand, in the range of the taken ones and apart, and
-- what they hold comes from the taken tables.
pub record Outputs {F : TableFiles} (L : TableLaws F) (db : Database F) (c : ℕ → List Record)
    (removed : List ℕ) (low high : Str) (ts : List TableMeta) : Type 0 where
  pub stand : All (Stands L db c) ts
  pub inside : All (λ t. (str_le low t.min_key ≡ true) × (str_le t.max_key high ≡ true)) ts
  pub ranges : All IsRange ts
  pub apart : AreApartTables ts
  pub origin :
      (t : TableMeta) (r : Record)
      → In t ts
      → In r (c t.number)
      → (n : ℕ) × In n removed × In r (c n)

module _ {F : TableFiles} (L : TableLaws F) (db : Database F) (c : ℕ → List Record)
    (o : IsOrdered L db c) (i : ℕ) (removed : List ℕ) (sel : Selects db.manifest c i removed)
    (ts : List TableMeta) (out : Outputs L db c removed sel.low sel.high ts) where
  abbrev m : Manifest
  m = db.manifest

  -- The manifest that `replaceTables` leaves.
  abbrev pub new : Manifest
  new = (replace_tables removed ts (suc i) m).1

  pub replaced_whole : (replace_tables removed ts (suc i) m).0 ≡ true
  replaced_whole =
      (replace_tables-Joins m i removed sel.low sel.high ts (o.disjoint i) sel.clear out.inside
        out.ranges out.apart).0

  same_rest : new ≡ record m { levels = new.levels }
  same_rest =
      (replace_tables-Joins m i removed sel.low sel.high ts (o.disjoint i) sel.clear out.inside
        out.ranges out.apart).1.rest

  same_next : new.next_table_number ≡ m.next_table_number
  same_next = ap (λ (x : Manifest). x.next_table_number) same_rest

  pub from_old_or_new :
      (j : ℕ) (t : TableMeta)
      → In t (level new j)
      → ((j ≡ suc i) × In t ts) ⊎ (In t (level m j) × (is_removed removed t.number ≡ false))
  from_old_or_new =
      came_from m i removed sel.low sel.high ts (o.disjoint i) sel.clear out.inside out.ranges
        out.apart

  pub kept :
      (j : ℕ) (t : TableMeta)
      → In t (level m j)
      → is_removed removed t.number ≡ false
      → In t (level new j)
  kept =
      stays m i removed sel.low sel.high ts (o.disjoint i) sel.clear out.inside out.ranges out.apart

  pub installed : (t : TableMeta) → In t ts → In t (level new (suc i))
  installed t k =
      ((replace_tables-Joins m i removed sel.low sel.high ts (o.disjoint i) sel.clear out.inside
            out.ranges out.apart).1.members
          t).1
        (inl k)

  -- The taken table that an output record comes from.
  pub source :
      (t : TableMeta) (r : Record)
      → In t ts
      → In r (c t.number)
      → (j : ℕ) × (i ≤ j)
        × (j ≤ suc i)
        × (u : TableMeta) × In u (level m j)
        × In u.number removed
        × In r (c u.number)
  source t r k h =
      let (n, taken, there) = out.origin t r k h in
      let (j, at, u, here, same) = sel.taken n taken in
      (
        j,
        elim at [ inl e ↦ omega (arith, e) | inr e ↦ omega (arith, e) ],
        elim at [ inl e ↦ omega (arith, e) | inr e ↦ omega (arith, e) ],
        u,
        here,
        subst (λ n. In n removed) (sym same) taken,
        subst (λ n. In r (c n)) (sym same) there,
      )

  abbrev pub db' : Database F
  db' = record db { manifest = new }

  Stands-on : (t : TableMeta) → Stands L db c t → Stands L db' c t
  Stands-on t s = record {
    held = s.held;
    table = s.table;
    some_record = s.some_record;
    numbered = omega (arith, same_next, s.numbered);
    old = s.old;
  }

  swapped_newer_memory :
      (j : ℕ) (t : TableMeta)
      → In t (level new j)
      → NewerThan (records db.active_mem_table.table) (c t.number)
  swapped_newer_memory j t k r q x y e = elim (from_old_or_new j t k) [
    | inr h ↦ o.newer_memory j t h.0 r q x y e
    | inl h ↦
        let (l, low, high, u, at, taken, there) = source t q h.1 y in
        o.newer_memory l u at r q x there e
  ]

  -- An output is newer than what lies deeper, as its sources were.
  output_above :
      (j : ℕ) (t u : TableMeta)
      → suc i < j
      → In t ts
      → In u (level m j)
      → NewerThan (c t.number) (c u.number)
  output_above j t u less k h r q x y e =
      let (l, low, high, v, at, taken, there) = source t r k x in
      o.newer_levels l j v u (omega (arith, high)) at h r q there y e

  -- What is left above an output is newer, or has none of its keys.
  output_below :
      (j : ℕ) (t u : TableMeta)
      → j < suc i
      → In t (level m j)
      → is_removed removed t.number ≡ false
      → In u ts
      → NewerThan (c t.number) (c u.number)
  output_below j t u less h left k r q x y e =
      let (l, low, high, v, at, taken, there) = source u q k y in
      elim (Bool-cases (ltb j l)) [
        | inl f ↦ o.newer_levels j l t v (ground (arith, f)) h at r q x there e
        | inr f ↦
            let same_j : j ≡ i = ground (arith, f, low) in
            let same_l : l ≡ i = ground (arith, f, low) in
            absurd (
              sel.alone t v r q (subst (λ n. In t (level m n)) same_j h)
                (subst (λ n. In v (level m n)) same_l at) left taken x there e)
      ]

  swapped_newer_levels :
      (a b : ℕ) (t u : TableMeta)
      → a < b
      → In t (level new a)
      → In u (level new b)
      → NewerThan (c t.number) (c u.number)
  swapped_newer_levels a b t u less k h = elim (from_old_or_new a t k) [
    | inl x ↦ elim (from_old_or_new b u h) [
      | inl y ↦ absurd (omega (arith, x.0, y.0))
      | inr y ↦ output_above b t u (omega (arith, x.0)) x.1 y.0
    ]
    | inr x ↦ elim (from_old_or_new b u h) [
      | inl y ↦ output_below a t u (omega (arith, y.0)) x.0 x.1 y.1
      | inr y ↦ o.newer_levels a b t u less x.0 y.0
    ]
  ]

  -- The order holds with the new tables in place.
  pub swapped-IsOrdered : IsOrdered L db' c
  swapped-IsOrdered = record {
    memory = o.memory;
    memory_old = o.memory_old;
    tables = λ j t k. elim (from_old_or_new j t k) [
      | inl h ↦ Stands-on t (All-In (Stands L db c) ts t out.stand h.1)
      | inr h ↦ Stands-on t (o.tables j t h.0)
    ];
    level_zero =
        subst (AreNewestFirst c)
          (sym (
            level_other m i removed sel.low sel.high ts (o.disjoint i) sel.clear out.inside
              out.ranges out.apart 0 (λ e. omega (arith, e))))
          (AreNewestFirst-erase_tables c removed (level m 0) o.level_zero);
    disjoint =
        new-IsDisjoint m i removed sel.low sel.high ts (o.disjoint i) sel.clear out.inside
          out.ranges out.apart o.disjoint;
    newer_memory = swapped_newer_memory;
    newer_levels = swapped_newer_levels;
    in_64_bits = o.in_64_bits;
    free = λ n h. o.free n (omega (arith, same_next, h));
  }
