-- ===== src/Database/Outputs.antt =====
-- The tables that a compaction writes fit where it installs them.
use lsmtree.Base.{
  ℕ, ◌≡◌, ◌≢◌, ◌∙◌, refl, sym, ap, subst, List, [], ◌∷◌, ◌++◌, All, All-intro, All-In, In, inl, inr,
  In-append, In-append_left, In-append_right, true, false, arith, map,
}
use lsmtree.Compaction.Pieces.{All_back}
use lsmtree.Compaction.Slices.{AreDisjoint}
use lsmtree.Database.{Database}
use lsmtree.Database.Compact.{front_key, back_key}
use lsmtree.Database.Kept.{In-taken}
use lsmtree.Database.Order.{Stands}
use lsmtree.Database.Output.{DescribeAll}
use lsmtree.Database.Selects.{Selects}
use lsmtree.Database.Swapped.{Outputs}
use lsmtree.Database.Written.{In-back}
use lsmtree.Manifest.{TableMeta, ranges_overlap}
use lsmtree.Manifest.Levels.{IsRange}
use lsmtree.Manifest.Replace.{AreApartTables}
use lsmtree.Merge.Queue.{Sources}
use lsmtree.Merge.Queue.Loop.{concat}
use lsmtree.Record.{Record}
use lsmtree.Scan.Sound.{IsTable, le_trans}
use lsmtree.TableFiles.{TableFiles, TableLaws}
use lsmtree.Text.{Str, str_le}
use lsmtree.Text.Order.{Before, compare_str_swap}

pub In-front : (rs : List Record) → rs ≢ [] → (q : Record) × In q rs × (front_key rs ≡ q.key)
unfolding front_key
In-front [] n = absurd (n refl)
In-front (r ∷ rs) n = (r, inl refl, refl)

In-back_of : (rs : List Record) → rs ≢ [] → (q : Record) × In q rs × (back_key rs ≡ q.key)
In-back_of [] n = absurd (n refl)
In-back_of (r ∷ rs) n = In-back r rs

-- The smallest key of a table that holds a record is not above its largest.
IsRange-of :
    (contents : ℕ → List Record) (t : TableMeta)
    → IsTable contents t
    → contents t.number ≢ []
    → IsRange t
IsRange-of contents t h n =
    let (q, i, e) = In-front (contents t.number) n in
    let (low, high) =
      All-In (λ q. (str_le t.min_key q.key ≡ true) × (str_le q.key t.max_key ≡ true))
        (contents t.number) q h.in_bounds i in
    le_trans t.min_key q.key t.max_key low high

module _ {F : TableFiles} (L : TableLaws F) (c : ℕ → List Record) where
  -- What the tables hold, the slices hold, and the other way round.
  described :
      (ts : List TableMeta) (slices : Sources) (t : TableMeta) (r : Record)
      → DescribeAll L c ts slices
      → In t ts
      → In r (c t.number)
      → In r (concat slices)
  unfolding concat
  described [] [] t r d i j = absurd i
  described [] (s ∷ slices) t r d i j = absurd d
  described (u ∷ ts) [] t r d i j = absurd d
  described (u ∷ ts) (s ∷ slices) t r d (inl e) j =
      In-append_left r s (concat slices)
        (subst (In r) d.0.0 (subst (λ (v : TableMeta). In r (c v.number)) e j))
  described (u ∷ ts) (s ∷ slices) t r d (inr i) j =
      In-append_right r s (concat slices) (described ts slices t r d.1 i j)

  pub written_down :
      (ts : List TableMeta) (slices : Sources) (r : Record)
      → DescribeAll L c ts slices
      → In r (concat slices)
      → (t : TableMeta) × In t ts × In r (c t.number)
  unfolding concat
  written_down [] [] r d i = absurd i
  written_down [] (s ∷ slices) r d i = absurd d
  written_down (u ∷ ts) [] r d i = absurd d
  written_down (u ∷ ts) (s ∷ slices) r d i = elim (In-append r s (concat slices) i) [
    | inl j ↦ (u, inl refl, subst (In r) (sym d.0.0) j)
    | inr j ↦ let (t, k, h) = written_down ts slices r d.1 j in (t, inr k, h)
  ]

  -- Tables of disjoint slices do not overlap.
  later_min :
      (ts : List TableMeta) (slices : Sources) (x : Str) (u : TableMeta)
      → DescribeAll L c ts slices
      → All (λ s. s ≢ []) slices
      → All (λ (y : Record). Before x y.key) (concat slices)
      → In u ts
      → Before x u.min_key
  unfolding concat
  later_min [] slices x u d n b i = absurd i
  later_min (t ∷ ts) [] x u d n b i = absurd d
  later_min (t ∷ ts) (s ∷ slices) x u d n b (inl e) =
      let (q, j, f) = In-front s n.0 in
      subst (Before x) (sym (ap (λ (v : TableMeta). v.min_key) e ∙ d.0.1 ∙ f)) (
        All-In (λ (y : Record). Before x y.key) (s ++ concat slices) q b
          (In-append_left q s (concat slices) j))
  later_min (t ∷ ts) (s ∷ slices) x u d n b (inr i) =
      later_min ts slices x u d.1 n.1
        (All_back (λ (y : Record). Before x y.key) s (concat slices) b) i

  disjoint_tables :
      (ts : List TableMeta) (slices : Sources)
      → DescribeAll L c ts slices
      → All (λ s. s ≢ []) slices
      → AreDisjoint slices
      → AreApartTables ts
  disjoint_tables [] slices d n a = tt
  disjoint_tables (t ∷ ts) [] d n a = absurd d
  disjoint_tables (t ∷ ts) (s ∷ slices) d n a =
      let (q, j, f) = In-back_of s n.0 in
      let behind : All (λ (y : Record). Before t.max_key y.key) (concat slices) =
        subst (λ x. All (λ (y : Record). Before x y.key) (concat slices)) (sym (d.0.2 ∙ f))
          (All-In (λ (x : Record). All (λ (y : Record). Before x.key y.key) (concat slices)) s q a.0
            j) in
      (
        All-intro (λ u. ranges_overlap t u.min_key u.max_key ≡ false) ts
            (λ u i. ground (
              arith,
              later_min ts slices t.max_key u d.1 n.1 behind i,
              compare_str_swap t.max_key u.min_key,
            )),
        disjoint_tables ts slices d.1 n.1 a.1,
      )

  -- The keys of the tables lie where those of the slices do.
  tables_inside :
      (low high : Str) (ts : List TableMeta) (slices : Sources)
      → DescribeAll L c ts slices
      → All (λ s. s ≢ []) slices
      → All (λ (r : Record). (str_le low r.key ≡ true) × (str_le r.key high ≡ true)) (concat slices)
      → All (λ (t : TableMeta). (str_le low t.min_key ≡ true) × (str_le t.max_key high ≡ true)) ts
  unfolding concat
  tables_inside low high [] slices d n a = tt
  tables_inside low high (t ∷ ts) [] d n a = absurd d
  tables_inside low high (t ∷ ts) (s ∷ slices) d n a =
      let (q, i, e) = In-front s n.0 in
      let (p, j, f) = In-back_of s n.0 in
      let within = λ (r : Record). (str_le low r.key ≡ true) × (str_le r.key high ≡ true) in
      let at_front =
        All-In within (s ++ concat slices) q a (In-append_left q s (concat slices) i) in
      let at_back = All-In within (s ++ concat slices) p a (In-append_left p s (concat slices) j) in
      (
        (
          subst (λ x. str_le low x ≡ true) (sym (d.0.1 ∙ e)) at_front.0,
          subst (λ x. str_le x high ≡ true) (sym (d.0.2 ∙ f)) at_back.1,
        ),
        tables_inside low high ts slices d.1 n.1 (All_back within s (concat slices) a),
      )

module _ {F : TableFiles} (L : TableLaws F) (db : Database F) (c : ℕ → List Record) (i : ℕ)
    (removed : List ℕ) (sel : Selects db.manifest c i removed) (ts : List TableMeta)
    (slices : Sources) (stand : All (Stands L db c) ts) (d : DescribeAll L c ts slices)
    (some : All (λ s. s ≢ []) slices) (disjoint : AreDisjoint slices)
    (taken : (r : Record) → In r (concat slices) → In r (concat (map c removed))) where
  slices_within :
      All
        (λ (r : Record). (str_le sel.low r.key ≡ true) × (str_le r.key sel.high ≡ true))
        (concat slices)
  slices_within =
      All-intro (λ (r : Record). (str_le sel.low r.key ≡ true) × (str_le r.key sel.high ≡ true))
        (concat slices)
        (λ r k.
          let (n, gone, there) = (In-taken c removed r).0 (taken r k) in
          All-In (λ (r : Record). (str_le sel.low r.key ≡ true) × (str_le r.key sel.high ≡ true))
            (c n) r (sel.within n gone) there)

  -- Tables of disjoint slices of what the taken tables held are outputs.
  pub described-Outputs : Outputs L db c removed sel.low sel.high ts
  described-Outputs = record {
    stand = stand;
    inside = tables_inside L c sel.low sel.high ts slices d some slices_within;
    ranges = All-intro IsRange ts (λ t k.
        let s = All-In (Stands L db c) ts t stand k in IsRange-of c t s.table s.some_record);
    apart = disjoint_tables L c ts slices d some disjoint;
    origin = λ t r k h. (In-taken c removed r).0 (taken r (described L c ts slices t r d k h));
  }
