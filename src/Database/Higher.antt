-- ===== src/Database/Higher.antt =====
-- The tables that `compactLevel` chooses above level 0 may be taken.
use lsmtree.Base.{
  ℕ, suc, ◌≡◌, ◌≢◌, ◌↔◌, ◌∙◌, refl, sym, ap, subst, List, [], ◌∷◌, ◌++◌, All, All-In, All-intro, In,
  inl, inr, true, false, leb, ◌||◌, arith, Bool-cases, map, some, none, Option, not,
  In-append_right,
}
use lsmtree.Database.{Database}
use lsmtree.Database.Select.{select_table, overlapping_tables, append_overlapping_tables}
use lsmtree.Database.Chosen.{in_range_of}
use lsmtree.Database.Levels.{get_or_past}
use lsmtree.Database.Order.{IsOrdered}
use lsmtree.Database.Outputs.{In-front}
use lsmtree.Database.Selects.{Selects, AreDistinct}
use lsmtree.Database.Stretch.{Meets, stretch, outside_stretch}
use lsmtree.Database.Taken.{disjoint_keys}
use lsmtree.Database.Views.{left_keys}
use lsmtree.Manifest.{
  TableMeta, Manifest, Level, level, level_count, is_removed, ranges_overlap, split_at_first_not,
}
use lsmtree.Manifest.Levels.{IsDisjoint, LeftOf, split-append}
use lsmtree.Manifest.Positions.{is_removed-In}
use lsmtree.Record.{Record}
use lsmtree.Scan.Sound.{IsTable}
use lsmtree.TableFiles.{TableFiles, TableLaws}
use lsmtree.Text.{Str, str_le, str_lt}
use lsmtree.Text.Order.{Before-ne, compare_str_swap}

pub select_table-In :
    (cursor : Option Str) (t : TableMeta) (ts : Level) → In (select_table cursor t ts) (t ∷ ts)
unfolding select_table
select_table-In none t ts = inl refl
select_table-In (some key) t ts =
    let test = λ (u : TableMeta). not (str_lt key u.min_key) in
    let parts = split_at_first_not test (t ∷ ts) in
    let whole = split-append test (t ∷ ts) in
    elim parts.1
        as (λ back. parts.0 ++ back ≡ t ∷ ts → In (elim back [ [] ↦ t | u ∷ us ↦ u ]) (t ∷ ts)) [
          | [] ↦ λ e. inl refl
          | u ∷ us ↦ λ e. subst (In u) e (In-append_right u parts.0 (u ∷ us) (inl refl))
        ]
      whole

Meets-iff : (low high : Str) (t : TableMeta) → (ranges_overlap t low high ≡ true) ↔ Meets low high t
Meets-iff low high t = (
  λ e. ground (arith, compare_str_swap high t.min_key, compare_str_swap t.max_key low),
  λ e. ground (arith, compare_str_swap high t.min_key, compare_str_swap t.max_key low),
)

In-overlapping_tables :
    (selected : TableMeta) (ts : Level) (u : TableMeta)
    → In u (overlapping_tables selected ts)
      ↔ (In u ts × (ranges_overlap u selected.min_key selected.max_key ≡ true))
unfolding overlapping_tables
In-overlapping_tables selected [] u = (λ i. absurd i, λ p. absurd p.0)
In-overlapping_tables selected (t ∷ ts) u =
    let (down, up) = In-overlapping_tables selected ts u in
    (λ i. ground (arith, down), λ p. ground (arith, up))

overlapping_none :
    (selected : TableMeta) (ts : Level) → ts ≡ [] → overlapping_tables selected ts ≡ []
unfolding overlapping_tables
overlapping_none selected [] e = refl
overlapping_none selected (t ∷ ts) e = cc

-- Beyond the last level nothing overlaps.
pub append_overlapping_tables_lem :
    (m : Manifest) (selected : TableMeta) (next : ℕ)
    → append_overlapping_tables m selected next ≡ overlapping_tables selected (level m next)
append_overlapping_tables_lem m selected next = elim (Bool-cases (leb (level_count m) next)) [
  | inl e ↦
      let none_there = get_or_past m.levels next (ground (arith, e)) in
      rw e (sym (overlapping_none selected (level m next) none_there))
  | inr e ↦ rw e refl
]

numbers_of :
    (ts : Level) (n : ℕ)
    → In n (map (λ (t : TableMeta). t.number) ts)
    → (t : TableMeta) × In t ts × (t.number ≡ n)
numbers_of [] n i = absurd i
numbers_of (t ∷ ts) n (inl e) = (t, inl refl, sym e)
numbers_of (t ∷ ts) n (inr i) = let (u, k, e) = numbers_of ts n i in (u, inr k, e)

of_numbers :
    (ts : Level) (t : TableMeta) → In t ts → In t.number (map (λ (t : TableMeta). t.number) ts)
of_numbers [] t i = absurd i
of_numbers (u ∷ ts) t (inl e) = inl (ap (λ (w : TableMeta). w.number) e)
of_numbers (u ∷ ts) t (inr i) = inr (of_numbers ts t i)

-- Tables of a level without overlaps have numbers of their own, if each holds a record.
distinct_numbers :
    (c : ℕ → List Record) (selected : TableMeta) (ts : Level)
    → IsDisjoint ts
    → All (λ t. IsTable c t × (c t.number ≢ [])) ts
    → AreDistinct (map (λ (t : TableMeta). t.number) (overlapping_tables selected ts))
unfolding overlapping_tables
distinct_numbers c selected [] d h = tt
distinct_numbers c selected (t ∷ ts) d h =
    let rest = distinct_numbers c selected ts d.2 h.1 in
    elim (Bool-cases (ranges_overlap t selected.min_key selected.max_key)) [
      | inr e ↦ rw e rest
      | inl e ↦ rw e (
        All-intro (λ n. t.number ≢ n)
            (map (λ (t : TableMeta). t.number) (overlapping_tables selected ts))
            (λ n i same.
              let (u, k, f) = numbers_of (overlapping_tables selected ts) n i in
              let (there, x) = (In-overlapping_tables selected ts u).0 k in
              let (r, j, g) = In-front (c t.number) h.0.1 in
              let of_u = All-In (λ t. IsTable c t × (c t.number ≢ [])) ts u h.1 there in
              let before =
                left_keys c t u r r h.0.0 of_u.0 (All-In (LeftOf t) ts u d.1 there) j
                  (subst (λ (n : ℕ). In r (c n)) (same ∙ sym f) j) in
              Before-ne r.key r.key before refl),
        rest,
      )
    ]

module _ {F : TableFiles} (L : TableLaws F) (db : Database F) (c : ℕ → List Record)
    (o : IsOrdered L db c) (i : ℕ) (selected : TableMeta)
    (here : In selected (level db.manifest (suc i))) where
  abbrev m : Manifest
  m = db.manifest

  abbrev next : Level
  next = level m (suc (suc i))

  abbrev pub chosen : List ℕ
  chosen = map (λ (u : TableMeta). u.number) (selected ∷ overlapping_tables selected next)

  of_next :
      (u : TableMeta)
      → In u (overlapping_tables selected next)
      → In u next × Meets selected.min_key selected.max_key u
  of_next u k =
      let (there, x) = (In-overlapping_tables selected next u).0 k in
      (there, (Meets-iff selected.min_key selected.max_key u).0 x)

  not_chosen : (n : ℕ) → In n chosen → is_removed chosen n ≡ false → ⊥
  not_chosen n k e = cc ((is_removed-In chosen n).1 k, e)

  apart_from_next : (u : TableMeta) → In u next → selected.number ≢ u.number
  apart_from_next u k same =
      let (r, j, g) = In-front (c selected.number) (o.tables (suc i) selected here).some_record in
      let newer =
        o.newer_levels (suc i) (suc (suc i)) selected u (omega arith) here k r r j
          (subst (λ (n : ℕ). In r (c n)) same j) refl in
      omega (arith, newer)

  -- The selected table and what it overlaps on the next level may be taken.
  pub higher-Selects : Selects m c (suc i) chosen
  higher-Selects =
      let s = stretch selected.min_key selected.max_key next in
      let own = o.tables (suc i) selected here in
      record {
        low = s.least;
        high = s.greatest;
        taken = λ n k. elim k [
          | inl e ↦ (suc i, inl refl, selected, here, sym e)
          | inr j ↦
              let (u, h, e) = numbers_of (overlapping_tables selected next) n j in
              (suc (suc i), inr refl, u, (of_next u h).0, e)
        ];
        distinct = (
          All-intro (λ n. selected.number ≢ n)
              (map (λ (t : TableMeta). t.number) (overlapping_tables selected next))
              (λ n j same.
                let (u, h, e) = numbers_of (overlapping_tables selected next) n j in
                apart_from_next u (of_next u h).0 (same ∙ sym e)),
          distinct_numbers c selected next (o.disjoint (suc i)) (
              All-intro (λ t. IsTable c t × (c t.number ≢ [])) next
                (λ t k. let w = o.tables (suc (suc i)) t k in (w.table, w.some_record))),
        );
        clear = λ u k left.
            elim (Bool-cases
              (str_lt selected.max_key u.min_key || str_lt u.max_key selected.min_key)) [
                | inl out ↦
                    outside_stretch selected.min_key selected.max_key next s u (o.disjoint (suc i))
                      k out
                | inr meets ↦ absurd (
                    not_chosen u.number
                      (inr (
                        of_numbers (overlapping_tables selected next) u (
                          (In-overlapping_tables selected next u).1
                            (k, (Meets-iff selected.min_key selected.max_key u).1 meets))))
                      left)
              ];
        within = λ n k. elim k [
          | inl e ↦
              subst
                (λ n.
                  All (λ r. (str_le s.least r.key ≡ true) × (str_le r.key s.greatest ≡ true)) (c n))
                (sym e) (in_range_of c selected s.least s.greatest own.table s.below s.above)
          | inr j ↦
              let (u, h, e) = numbers_of (overlapping_tables selected next) n j in
              let (there, meets) = of_next u h in
              let (a, b) = s.inside u there meets in
              subst
                (λ n.
                  All (λ r. (str_le s.least r.key ≡ true) × (str_le r.key s.greatest ≡ true)) (c n))
                e (in_range_of c u s.least s.greatest (o.tables (suc (suc i)) u there).table a b)
        ];
        alone = λ t u r q k l left taken x y.
            disjoint_keys c (level m (suc i)) t u r q (o.disjoint i)
              (All-intro (IsTable c) (level m (suc i)) (λ t k. (o.tables (suc i) t k).table)) k l
              (λ same. not_chosen t.number (subst (λ n. In n chosen) (sym same) taken) left) x y;
      }
