-- ===== src/Database/Taken.antt =====
-- The tables that a compaction takes are read back, are sorted, and share no record.
use lsmtree.Base.{◌⊎◌, none}
use lsmtree.Base.{
  ℕ, zero, suc, ◌≡◌, ◌≢◌, ◌∙◌, refl, sym, ap, subst, List, [], ◌∷◌, All, All-intro, All-In, In, inl,
  inr, arith, map, some, ltb, Bool-cases,
}
use lsmtree.Database.{Database}
use lsmtree.Database.Compact.{add_source, read_tables}
use lsmtree.Database.Kept.{In-taken}
use lsmtree.Database.Order.{NewerThan, AreNewestFirst, Stands, IsOrdered}
use lsmtree.Database.Selects.{AreDistinct}
use lsmtree.Database.Views.{AreApart-append, IsSorted-AreApart, left_keys}
use lsmtree.Manifest.{TableMeta, Level, level}
use lsmtree.Manifest.Levels.{IsDisjoint, LeftOf}
use lsmtree.Merge.Queue.Loop.{concat}
use lsmtree.Merge.Queue.Sorted.{Apart}
use lsmtree.Record.{Record}
use lsmtree.Record.Sorted.{IsSorted}
use lsmtree.Scan.Sound.{IsTable}
use lsmtree.Scan.Sublists.{AreApart}
use lsmtree.TableFiles.{TableFiles, TableLaws}
use lsmtree.Text.Order.{Before-ne}

-- Two tables of level 0 with numbers of their own.
zero-Apart :
    (c : ℕ → List Record) (ts : Level) (t u : TableMeta) (r q : Record)
    → AreNewestFirst c ts
    → In t ts
    → In u ts
    → t.number ≢ u.number
    → In r (c t.number)
    → In q (c u.number)
    → Apart r q
zero-Apart c [] t u r q n i j d x y e = absurd i
zero-Apart c (v ∷ ts) t u r q n (inl a) (inl b) d x y e =
    d (ap (λ (w : TableMeta). w.number) (a ∙ sym b))
zero-Apart c (v ∷ ts) t u r q n (inl a) (inr j) d x y e =
    let newer =
      subst (λ w. NewerThan (c w.number) (c u.number)) (sym a)
        (All-In (λ u. NewerThan (c v.number) (c u.number)) ts u n.0 j) in
    omega (arith, newer r q x y e.0, e.1)
zero-Apart c (v ∷ ts) t u r q n (inr i) (inl b) d x y e =
    let newer =
      subst (λ w. NewerThan (c w.number) (c t.number)) (sym b)
        (All-In (λ u. NewerThan (c v.number) (c u.number)) ts t n.0 i) in
    omega (arith, newer q r y x (sym e.0), e.1)
zero-Apart c (v ∷ ts) t u r q n (inr i) (inr j) d x y e = zero-Apart c ts t u r q n.1 i j d x y e

-- Two tables of a level without overlaps with numbers of their own.
pub disjoint_keys :
    (c : ℕ → List Record) (ts : Level) (t u : TableMeta) (r q : Record)
    → IsDisjoint ts
    → All (IsTable c) ts
    → In t ts
    → In u ts
    → t.number ≢ u.number
    → In r (c t.number)
    → In q (c u.number)
    → r.key ≢ q.key
disjoint_keys c [] t u r q n h i j d x y e = absurd i
disjoint_keys c (v ∷ ts) t u r q n h (inl a) (inl b) d x y e =
    d (ap (λ (w : TableMeta). w.number) (a ∙ sym b))
disjoint_keys c (v ∷ ts) t u r q n h (inl a) (inr j) d x y e =
    Before-ne r.key q.key
      (left_keys c t u r q (subst (IsTable c) (sym a) h.0) (All-In (IsTable c) ts u h.1 j)
        (subst (λ w. LeftOf w u) (sym a) (All-In (LeftOf v) ts u n.1 j)) x y)
      (sym e)
disjoint_keys c (v ∷ ts) t u r q n h (inr i) (inl b) d x y e =
    Before-ne q.key r.key
      (left_keys c u t q r (subst (IsTable c) (sym b) h.0) (All-In (IsTable c) ts t h.1 i)
        (subst (λ w. LeftOf w t) (sym b) (All-In (LeftOf v) ts t n.1 i)) y x)
      e
disjoint_keys c (v ∷ ts) t u r q n h (inr i) (inr j) d x y e =
    disjoint_keys c ts t u r q n.2 h.1 i j d x y e

module _ {F : TableFiles} (L : TableLaws F) (db : Database F) (c : ℕ → List Record)
    (o : IsOrdered L db c) where
  same_level :
      (j : ℕ) (t u : TableMeta) (r q : Record)
      → In t (level db.manifest j)
      → In u (level db.manifest j)
      → t.number ≢ u.number
      → In r (c t.number)
      → In q (c u.number)
      → Apart r q
  same_level zero t u r q i k d x y =
      zero-Apart c (level db.manifest 0) t u r q o.level_zero i k d x y
  same_level (suc j) t u r q i k d x y = λ e.
      disjoint_keys c (level db.manifest (suc j)) t u r q (o.disjoint j)
        (All-intro (IsTable c) (level db.manifest (suc j)) (λ t m. (o.tables (suc j) t m).table)) i
        k d x y e.0

  -- Tables with numbers of their own share no record.
  tables-Apart :
      (j l : ℕ) (t u : TableMeta) (r q : Record)
      → In t (level db.manifest j)
      → In u (level db.manifest l)
      → t.number ≢ u.number
      → In r (c t.number)
      → In q (c u.number)
      → Apart r q
  tables-Apart j l t u r q i k d x y = elim (Bool-cases (ltb j l)) [
    | inl f ↦ λ e.
        let newer = o.newer_levels j l t u (ground (arith, f)) i k r q x y e.0 in
        omega (arith, newer, e.1)
    | inr f ↦ elim (Bool-cases (ltb l j)) [
      | inl g ↦ λ e.
          let newer = o.newer_levels l j u t (ground (arith, g)) k i q r y x (sym e.0) in
          omega (arith, newer, e.1)
      | inr g ↦
          let same : l ≡ j = ground (arith, f, g) in
          same_level j t u r q i (subst (λ n. In u (level db.manifest n)) same k) d x y
    ]
  ]

  -- `n` is the number of a table of the manifest.
  abbrev pub IsNumber : ℕ → Type 0
  IsNumber n = (j : ℕ) × (t : TableMeta) × In t (level db.manifest j) × (t.number ≡ n)

  pub Stands-there : (n : ℕ) → IsNumber n → (t : TableMeta) × Stands L db c t × (t.number ≡ n)
  Stands-there n (j, t, k, e) = (t, o.tables j t k, e)

  pub read_tables_taken :
      (ns : List ℕ)
      → All IsNumber ns
      → (read_tables db ns ≡ some (map c ns)) ⊎ (read_tables db ns ≡ none)
  unfolding read_tables
  read_tables_taken [] h = inl refl
  read_tables_taken (n ∷ ns) h =
      let (t, s, e) = Stands-there n h.0 in
      elim (L.read_gives db.files n (c n) (subst (λ n. L.Holds db.files n (c n)) e s.held)) [
        | inl here ↦ elim (read_tables_taken ns h.1) [
          | inl there ↦
              inl (
                ap (λ o. add_source o (read_tables db ns)) here
                ∙ ap (add_source (some (c n))) there)
          | inr fails ↦
              inr (
                ap (λ o. add_source o (read_tables db ns)) here
                ∙ ap (add_source (some (c n))) fails)
        ]
        | inr (fails, throws) ↦ inr (ap (λ o. add_source o (read_tables db ns)) fails)
      ]

  pub taken-IsSorted : (ns : List ℕ) → All IsNumber ns → All IsSorted (map c ns)
  taken-IsSorted [] h = tt
  taken-IsSorted (n ∷ ns) h =
      let (t, s, e) = Stands-there n h.0 in
      (subst (λ n. IsSorted (c n)) e s.table.sorted, taken-IsSorted ns h.1)

  pub taken-AreApart :
      (ns : List ℕ) → All IsNumber ns → AreDistinct ns → AreApart (concat (map c ns))
  unfolding concat
  taken-AreApart [] h d = tt
  taken-AreApart (n ∷ ns) h d =
      let (j, t, k, e) = h.0 in
      AreApart-append (c n) (concat (map c ns))
        (IsSorted-AreApart (c n) (subst (λ n. IsSorted (c n)) e (o.tables j t k).table.sorted))
        (taken-AreApart ns h.1 d.1)
        (λ r q x y.
          let (m, i, z) = (In-taken c ns q).0 y in
          let (l, u, k', f) = All-In IsNumber ns m h.1 i in
          tables-Apart j l t u r q k k' (λ same. All-In (λ m. n ≢ m) ns m d.0 i (sym e ∙ same ∙ f))
            (subst (λ n. In r (c n)) (sym e) x) (subst (λ n. In q (c n)) (sym f) z))
