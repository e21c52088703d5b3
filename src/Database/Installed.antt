-- ===== src/Database/Installed.antt =====
-- The order of a database once a compaction has put its tables in the place of those it took.
use lsmtree.Base.{
  ℕ, suc, ◌≡◌, ◌≢◌, ◌⊎◌, ◌∙◌, refl, sym, subst, List, [], ◌∷◌, All, All-intro, All-In, In, inl, inr,
  true, false, map, arith, ◌==◌, ==_iff, Bool-cases,
}
use lsmtree.Database.Order.{NewerThan, AreNewestFirst}
use lsmtree.Manifest.{
  Manifest, TableMeta, Level, level, is_removed, erase_tables, replace_tables, ranges_overlap,
}
use lsmtree.Manifest.Invariant.{All-erase_tables, erase_tables-IsDisjoint}
use lsmtree.Manifest.Levels.{IsRange, IsDisjoint, le_Before, Before-le}
use lsmtree.Manifest.Replace.{Fits, AreApartTables, add_tables-Joins}
use lsmtree.Manifest.Positions.{get_or-map, In-erase_tables, Joins}
use lsmtree.Record.{Record}
use lsmtree.Text.{Str, str_le}
use lsmtree.Text.Order.{Before, compare_str_swap}

abbrev pub erased : Manifest → List ℕ → Manifest
erased m removed = record m { levels = map (erase_tables removed) m.levels }

level-erased :
    (m : Manifest) (removed : List ℕ) (j : ℕ)
    → level (erased m removed) j ≡ erase_tables removed (level m j)
level-erased m removed j =
    get_or-map (erase_tables removed) m.levels j (unfold erase_tables in refl)

pub AreNewestFirst-erase_tables :
    (contents : ℕ → List Record) (removed : List ℕ) (ts : Level)
    → AreNewestFirst contents ts
    → AreNewestFirst contents (erase_tables removed ts)
unfolding erase_tables
AreNewestFirst-erase_tables contents removed [] n = tt
AreNewestFirst-erase_tables contents removed (t ∷ ts) n =
    let rest = AreNewestFirst-erase_tables contents removed ts n.1 in
    let newer =
      All-erase_tables (λ u. NewerThan (contents t.number) (contents u.number)) removed ts n.0 in
    elim (Bool-cases (is_removed removed t.number)) [
      | inl e ↦ rw e rest
      | inr e ↦ rw e (newer, rest)
    ]

module _ (m : Manifest) (i : ℕ) (removed : List ℕ) (low high : Str) (ts : List TableMeta)
    (disjoint : IsDisjoint (level m (suc i)))
    (clear : (u : TableMeta)
      → In u (level m (suc i))
      → is_removed removed u.number ≡ false
      → Before u.max_key low ⊎ Before high u.min_key)
    (inside : All (λ t. (str_le low t.min_key ≡ true) × (str_le t.max_key high ≡ true)) ts)
    (ranges : All IsRange ts) (apart : AreApartTables ts) where
  no_overlap :
      (t u : TableMeta)
      → (str_le low t.min_key ≡ true) × (str_le t.max_key high ≡ true)
      → Before u.max_key low ⊎ Before high u.min_key
      → ranges_overlap u t.min_key t.max_key ≡ false
  no_overlap t u h (inl b) =
      ground (arith, Before-le u.max_key low t.min_key b h.0, compare_str_swap u.max_key t.min_key)
  no_overlap t u h (inr b) =
      ground (arith, le_Before t.max_key high u.min_key h.1 b, compare_str_swap t.max_key u.min_key)

  -- `replaceTables` of such tables does not throw.
  pub replace_tables-Joins :
      ((replace_tables removed ts (suc i) m).0 ≡ true)
      × Joins (erased m removed) (replace_tables removed ts (suc i) m).1 (suc i) ts
  unfolding replace_tables
  replace_tables-Joins =
      let here = level-erased m removed (suc i) in
      add_tables-Joins ts i (erased m removed) ranges apart
        (subst IsDisjoint (sym here) (erase_tables-IsDisjoint removed (level m (suc i)) disjoint))
        (subst (λ l. All (λ t. Fits t l) ts) (sym here)
          (All-intro (λ t. Fits t (erase_tables removed (level m (suc i)))) ts
            (λ t k.
              All-intro (λ u. ranges_overlap u t.min_key t.max_key ≡ false)
                (erase_tables removed (level m (suc i)))
                (λ u h.
                  let (stays, kept) = (In-erase_tables removed (level m (suc i)) u).0 h in
                  no_overlap t u
                    (All-In (λ t. (str_le low t.min_key ≡ true) × (str_le t.max_key high ≡ true)) ts
                      t inside k)
                    (clear u stays kept)))))

  abbrev pub replaced : Manifest
  replaced = (replace_tables removed ts (suc i) m).1

  pub level_other : (j : ℕ) → j ≢ suc i → level replaced j ≡ erase_tables removed (level m j)
  level_other j h = replace_tables-Joins.1.others j h ∙ level-erased m removed j

  -- Where a table of the new manifest comes from.
  pub came_from :
      (j : ℕ) (t : TableMeta)
      → In t (level replaced j)
      → ((j ≡ suc i) × In t ts) ⊎ (In t (level m j) × (is_removed removed t.number ≡ false))
  came_from j t k = elim (Bool-cases (j == suc i)) [
    | inr e ↦ inr (
        (In-erase_tables removed (level m j) t).0
          (subst (In t) (level_other j (λ f. cc ((==_iff j (suc i)).1 f, e))) k))
    | inl e ↦
        let f = (==_iff j (suc i)).0 e in
        elim ((replace_tables-Joins.1.members t).0
          (subst (λ (n : ℕ). In t (level replaced n)) f k)) [
            | inl h ↦ inl (f, h)
            | inr h ↦ inr (
                (In-erase_tables removed (level m j) t).0 (
                  subst (λ (n : ℕ). In t (erase_tables removed (level m n))) (sym f)
                    (subst (In t) (level-erased m removed (suc i)) h)))
          ]
  ]

  -- A table that was not taken stays.
  pub stays :
      (j : ℕ) (t : TableMeta)
      → In t (level m j)
      → is_removed removed t.number ≡ false
      → In t (level replaced j)
  stays j t k e =
      let here = (In-erase_tables removed (level m j) t).1 (k, e) in
      elim (Bool-cases (j == suc i)) [
        | inr f ↦ subst (In t) (sym (level_other j (λ g. cc ((==_iff j (suc i)).1 g, f)))) here
        | inl f ↦
            let g = (==_iff j (suc i)).0 f in
            subst (λ (n : ℕ). In t (level replaced n)) (sym g)
              ((replace_tables-Joins.1.members t).1 (
                inr (
                  subst (In t) (sym (level-erased m removed (suc i)))
                    (subst (λ (n : ℕ). In t (erase_tables removed (level m n))) g here))))
      ]

  pub new-IsDisjoint :
      ((j : ℕ) → IsDisjoint (level m (suc j))) → (j : ℕ) → IsDisjoint (level replaced (suc j))
  new-IsDisjoint d j = elim (Bool-cases (suc j == suc i)) [
    | inl e ↦
        subst (λ (n : ℕ). IsDisjoint (level replaced n)) (sym ((==_iff (suc j) (suc i)).0 e))
          replace_tables-Joins.1.disjoint
    | inr e ↦
        subst IsDisjoint (sym (level_other (suc j) (λ f. cc ((==_iff (suc j) (suc i)).1 f, e))))
          (erase_tables-IsDisjoint removed (level m (suc j)) (d j))
  ]
