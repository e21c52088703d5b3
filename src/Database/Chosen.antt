-- ===== src/Database/Chosen.antt =====
-- The tables that `compactLevel` chooses may be taken.
use lsmtree.Base.{
  ℕ, ◌≡◌, ◌⊎◌, refl, sym, subst, List, [], ◌∷◌, All, All-In, All_map, In, inl, inr, true, false,
  ◌||◌, Bool-cases,
}
use lsmtree.Database.{Database}
use lsmtree.Database.Select.{select_level_zero_compaction_tables, hull, insert_tables}
use lsmtree.Database.Numbers.{
  In-insert_tables, insert_tables-Descends, In-insert_overlapping, insert_overlapping-Descends,
  Descends-AreDistinct, hull_holds,
}
use lsmtree.Database.Order.{IsOrdered}
use lsmtree.Database.Selects.{Selects}
use lsmtree.Database.Stretch.{Meets, stretch, outside_stretch}
use lsmtree.Manifest.{TableMeta, Manifest, Level, level, is_removed}
use lsmtree.Manifest.Positions.{is_removed-In}
use lsmtree.Record.{Record}
use lsmtree.Scan.Sound.{IsTable, le_trans}
use lsmtree.TableFiles.{TableFiles, TableLaws}
use lsmtree.Text.{Str, str_le, str_lt}

-- Keys of a table lie in every range that holds the table's.
pub in_range_of :
    (c : ℕ → List Record) (t : TableMeta) (low high : Str)
    → IsTable c t
    → str_le low t.min_key ≡ true
    → str_le t.max_key high ≡ true
    → All (λ r. (str_le low r.key ≡ true) × (str_le r.key high ≡ true)) (c t.number)
in_range_of c t low high h x y =
    All_map (λ r. (str_le t.min_key r.key ≡ true) × (str_le r.key t.max_key ≡ true))
      (λ r. (str_le low r.key ≡ true) × (str_le r.key high ≡ true)) (c t.number)
      (λ r b. (le_trans low t.min_key r.key x b.0, le_trans r.key t.max_key high b.1 y)) h.in_bounds

module _ {F : TableFiles} (L : TableLaws F) (db : Database F) (c : ℕ → List Record)
    (o : IsOrdered L db c) where
  abbrev m : Manifest
  m = db.manifest

  module _ (t : TableMeta) (ts : Level) (here : level m 0 ≡ t ∷ ts) where
    abbrev low : Str
    low = (hull (t ∷ ts) t.min_key t.max_key).0

    abbrev high : Str
    high = (hull (t ∷ ts) t.min_key t.max_key).1

    abbrev chosen : List ℕ
    chosen = select_level_zero_compaction_tables m t ts

    -- What the selection of level 0 holds.
    from_chosen :
        (n : ℕ)
        → In n chosen
        → ((u : TableMeta) × In u (level m 1) × Meets low high u × (u.number ≡ n))
          ⊎ ((u : TableMeta) × In u (level m 0) × (u.number ≡ n))
    unfolding select_level_zero_compaction_tables
    from_chosen n i =
        elim ((In-insert_overlapping low high (level m 1) (insert_tables (t ∷ ts) []) n).0 i) [
          | inl x ↦ inl x
          | inr j ↦ elim ((In-insert_tables (t ∷ ts) [] n).0 j) [
            | inl x ↦ let (u, k, e) = x in inr (u, subst (In u) (sym here) k, e)
            | inr z ↦ absurd z
          ]
        ]

    zero_chosen : (u : TableMeta) → In u (level m 0) → In u.number chosen
    unfolding select_level_zero_compaction_tables
    zero_chosen u k =
        (In-insert_overlapping low high (level m 1) (insert_tables (t ∷ ts) []) u.number).1
          (inr ((In-insert_tables (t ∷ ts) [] u.number).1 (inl (u, subst (In u) here k, refl))))

    one_chosen : (u : TableMeta) → In u (level m 1) → Meets low high u → In u.number chosen
    unfolding select_level_zero_compaction_tables
    one_chosen u k meets =
        (In-insert_overlapping low high (level m 1) (insert_tables (t ∷ ts) []) u.number).1
          (inl (u, k, meets, refl))

    not_chosen : (n : ℕ) → In n chosen → is_removed chosen n ≡ false → ⊥
    not_chosen n i e = cc ((is_removed-In chosen n).1 i, e)

    -- The selection of level 0 may be taken.
    pub zero-Selects : Selects m c 0 chosen
    zero-Selects =
        let s = stretch low high (level m 1) in
        record {
          low = s.least;
          high = s.greatest;
          taken = λ n i. elim (from_chosen n i) [
            | inl x ↦ let (u, k, meets, e) = x in (1, inr refl, u, k, e)
            | inr x ↦ let (u, k, e) = x in (0, inl refl, u, k, e)
          ];
          distinct =
              unfold select_level_zero_compaction_tables in
              Descends-AreDistinct chosen (
                insert_overlapping-Descends low high (level m 1) (insert_tables (t ∷ ts) [])
                  (insert_tables-Descends (t ∷ ts) [] tt));
          clear = λ u k left. elim (Bool-cases (str_lt high u.min_key || str_lt u.max_key low)) [
            | inl out ↦ outside_stretch low high (level m 1) s u (o.disjoint 0) k out
            | inr meets ↦ absurd (not_chosen u.number (one_chosen u k meets) left)
          ];
          within = λ n i. elim (from_chosen n i) [
            | inl x ↦
                let (u, k, meets, e) = x in
                let (a, b) = s.inside u k meets in
                subst
                  (λ n.
                    All (λ r. (str_le s.least r.key ≡ true) × (str_le r.key s.greatest ≡ true))
                      (c n))
                  e (in_range_of c u s.least s.greatest (o.tables 1 u k).table a b)
            | inr x ↦
                let (u, k, e) = x in
                let (a, b) =
                  All-In
                    (λ (t : TableMeta).
                      (str_le low t.min_key ≡ true) × (str_le t.max_key high ≡ true))
                    (t ∷ ts) u (hull_holds (t ∷ ts) t.min_key t.max_key).2 (subst (In u) here k) in
                subst
                  (λ n.
                    All (λ r. (str_le s.least r.key ≡ true) × (str_le r.key s.greatest ≡ true))
                      (c n))
                  e
                  (in_range_of c u s.least s.greatest (o.tables 0 u k).table
                    (le_trans s.least low u.min_key s.below a)
                    (le_trans u.max_key high s.greatest b s.above))
          ];
          alone = λ u v r q k l left taken x y. absurd (not_chosen u.number (zero_chosen u k) left);
        }
