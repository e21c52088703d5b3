-- ===== src/Database/Levels.antt =====
-- One level above 0: the table that is found there answers for all of it.
use lsmtree.Base.{
  ℕ, zero, suc, ◌≤◌, ◌≡◌, ◌∙◌, refl, sym, subst, List, [], ◌∷◌, none, some, All, All-In, In, inl,
  inr, arith, get_or, length, true, Option-cases,
}
use lsmtree.Base.Checked.{ok}
use lsmtree.Database.First.{no_answer, In-table_records}
use lsmtree.Manifest.{
  Manifest, split_at_first_not, TableMeta, Level, level, find_table, get_table_meta,
}
use lsmtree.Manifest.Levels.{IsDisjoint, LeftOf, le_Before, Before-le}
use lsmtree.Manifest.Lookup.{Covers, find_table-covered, find_table-In}
use lsmtree.Record.{Record}
use lsmtree.Record.Visible.{visible, visible-append, better_none}
use lsmtree.Scan.Sound.{IsTable, table_records}
use lsmtree.Text.{Str, str_le}
use lsmtree.Text.Order.{Before, compare_str_refl}

-- On a level without overlaps the one table that covers a key answers for the level.
module _ (contents : ℕ → List Record) (k : Str) (s : ℕ) where
  not_left :
      (t u : TableMeta) (r : Record)
      → IsTable contents u
      → In r (contents u.number)
      → r.key ≡ k
      → LeftOf t u
      → str_le k t.max_key ≡ true
      → ⊥
  not_left t u r h i e l c =
      let (low, high) =
        All-In (λ q. (str_le u.min_key q.key ≡ true) × (str_le q.key u.max_key ≡ true))
          (contents u.number) r h.in_bounds i in
      let before = Before-le k u.min_key r.key (le_Before k t.max_key u.min_key c l) low in
      cc (compare_str_refl k, subst (Before k) e before)

  visible_behind :
      (t : TableMeta) (ts : Level)
      → All (IsTable contents) ts
      → All (LeftOf t) ts
      → str_le k t.max_key ≡ true
      → visible k s (table_records contents ts) ≡ none
  visible_behind t ts h l c = no_answer k s (table_records contents ts) (λ r i e.
      let (u, m, o) = In-table_records contents ts r i in
      not_left t u r (All-In (IsTable contents) ts u h m) o e (All-In (LeftOf t) ts u l m) c)

  visible_level :
      (ts : Level) (t : TableMeta)
      → All (IsTable contents) ts
      → IsDisjoint ts
      → In t ts
      → Covers t k
      → visible k s (table_records contents ts) ≡ visible k s (contents t.number)
  unfolding table_records
  visible_level [] t h d i c = absurd i
  visible_level (u ∷ us) t h d (inl e) c =
      visible-append k s (contents u.number) (table_records contents us)
      ∙ rw (← e, visible_behind t us h.1 (subst (λ v. All (LeftOf v) us) (sym e) d.1) c.1)
          (better_none (visible k s (contents t.number)))
  visible_level (u ∷ us) t h d (inr i) c =
      visible-append k s (contents u.number) (table_records contents us)
      ∙ rw
          (
            no_answer k s (contents u.number) (λ r j e.
                let (low, high) =
                  All-In (λ q. (str_le u.min_key q.key ≡ true) × (str_le q.key u.max_key ≡ true))
                    (contents u.number) r h.0.in_bounds j in
                let left = All-In (LeftOf u) us t d.1 i in
                let before =
                  Before-le r.key t.min_key k (le_Before r.key u.max_key t.min_key high left) c.0 in
                cc (compare_str_refl k, subst (λ x. Before x k) e before)),
            visible_level us t h.1 d.2 i c,
          )
          refl

  -- A level without overlaps answers as the table that is found there.
  pub visible-find_table :
      (ts : Level)
      → All (IsTable contents) ts
      → IsDisjoint ts
      → visible k s (table_records contents ts)
        ≡ elim (find_table k ts) [ none ↦ none | some t ↦ visible k s (contents t.number) ]
  visible-find_table ts h d = elim (Option-cases (find_table k ts)) [
    | inl e ↦ rw e (
        no_answer k s (table_records contents ts) (λ r i same.
          let (t, m, o) = In-table_records contents ts r i in
          let bounds =
            All-In (λ q. (str_le t.min_key q.key ≡ true) × (str_le q.key t.max_key ≡ true))
              (contents t.number) r (All-In (IsTable contents) ts t h m).in_bounds o in
          let covers =
            subst (λ x. (str_le t.min_key x ≡ true) × (str_le x t.max_key ≡ true)) same bounds in
          cc (find_table-covered k ts t d m covers, e)))
    | inr (t, e) ↦ let (i, c) = find_table-In k ts t e in rw e (visible_level ts t h d i c)
  ]

pub get_or_past : (ls : List Level) (n : ℕ) → length ls ≤ n → get_or ls n [] ≡ []
get_or_past [] n h = refl
get_or_past (l ∷ ls) zero h = absurd (omega arith)
get_or_past (l ∷ ls) (suc n) h = get_or_past ls n (omega arith)

find_none : (k : Str) (ts : Level) → ts ≡ [] → find_table k ts ≡ none
unfolding find_table split_at_first_not
find_none k [] e = refl
find_none k (t ∷ ts) e = cc

pub get_table_meta_of :
    (m : Manifest) (n : ℕ) (k : Str)
    → get_table_meta m (suc n) k ≡ ok (find_table k (level m (suc n)))
unfolding get_table_meta
get_table_meta_of m n k =
    ground (arith, find_none k (get_or m.levels (suc n) []), get_or_past m.levels (suc n))
