-- ===== src/Manifest/Replace.antt =====
-- What `replaceTables` makes of the levels, where every added table fits its level.
use lsmtree.Manifest.Positions.{
  get_or-resize_levels, length-resize_levels, get_or-set_same, get_or-set_other, In-insert, Joins,
}
use lsmtree.Base.{
  ℕ, suc, ◌≡◌, ◌↔◌, ◌∙◌, refl, sym, ap, subst, List, [], ◌∷◌, ◌++◌, true, false, some, ◌==◌, All,
  All-In, All-intro, In, inl, inr, ◌⊎◌, arith, Option-cases,
}
use lsmtree.Manifest.{
  Manifest, TableMeta, Level, level, ranges_overlap, split_at_first_not, add_to_sorted_level,
  add_table, add_tables, resize_levels,
}
use lsmtree.Manifest.Levels.{
  IsRange, IsDisjoint, add_to_sorted_level-IsDisjoint, add_to_sorted_level_refuses, split-append,
}
use lsmtree.Text.{str_lt}

-- No table of the level overlaps the new one.
abbrev pub Fits : TableMeta → Level → Type 0
Fits table l = All (λ u. ranges_overlap u table.min_key table.max_key ≡ false) l

Fits-added :
    (table : TableMeta) (l : Level)
    → Fits table l
    → (new : Level) × (add_to_sorted_level table l ≡ some new)
Fits-added table l f = elim (Option-cases (add_to_sorted_level table l)) [
  | inl e ↦
      let (t, i, o) = add_to_sorted_level_refuses table l e in
      absurd (cc (o, All-In (λ u. ranges_overlap u table.min_key table.max_key ≡ false) l t f i))
  | inr p ↦ p
]

In-add_to_sorted_level :
    (table : TableMeta) (l new : Level) (t : TableMeta)
    → add_to_sorted_level table l ≡ some new
    → In t new ↔ ((t ≡ table) ⊎ In t l)
unfolding add_to_sorted_level
In-add_to_sorted_level table l new t e =
    let test = λ (c : TableMeta). str_lt c.min_key table.min_key in
    let front = (split_at_first_not test l).0 in
    let back = (split_at_first_not test l).1 in
    let here : front ++ table ∷ back ≡ new = ground (arith, e) in
    let (down, up) = In-insert t table front back in
    let whole = split-append test l in
    (
      λ i. elim (down (subst (In t) (sym here) i)) [
        | inl a ↦ inl a
        | inr j ↦ inr (subst (In t) whole j)
      ],
      λ i.
          subst (In t) here
            (up (elim i [ inl a ↦ inl a | inr j ↦ inr (subst (In t) (sym whole) j) ])),
    )

some_level : (n : ℕ) → (suc n == 0) ≡ false
some_level n = ground arith

-- A table that overlaps none is added.
pub add_table-Joins :
    (table : TableMeta) (n : ℕ) (m : Manifest)
    → IsRange table
    → IsDisjoint (level m (suc n))
    → Fits table (level m (suc n))
    → ((add_table table (suc n) m).0 ≡ true)
      × Joins m (add_table table (suc n) m).1 (suc n) (table ∷ [])
unfolding add_table
add_table-Joins table n m r d f =
    let same = get_or-resize_levels (suc n) m.levels in
    let (new, e) = Fits-added table (level m (suc n)) f in
    let e' = subst (λ l. add_to_sorted_level table l ≡ some new) (sym (same (suc n))) e in
    let long = length-resize_levels (suc n) m.levels in
    rw (some_level n, e')
      (
        refl,
        record {
          others =
              λ j h. get_or-set_other (resize_levels (suc n) m.levels) (suc n) j new h ∙ same j;
          members = λ t.
              let (down, up) = In-add_to_sorted_level table (level m (suc n)) new t e in
              let there = get_or-set_same (resize_levels (suc n) m.levels) (suc n) new long in
              (
                λ i. elim (down (subst (In t) there i)) [ inl a ↦ inl (inl a) | inr j ↦ inr j ],
                λ i. subst (In t) (sym there) (
                    up (elim i [
                      | inl j ↦ elim j [ inl a ↦ inl a | inr z ↦ absurd z ]
                      | inr j ↦ inr j
                    ])),
              );
          disjoint =
              subst IsDisjoint
                (sym (get_or-set_same (resize_levels (suc n) m.levels) (suc n) new long))
                (add_to_sorted_level-IsDisjoint table (level m (suc n)) new r d e);
          rest = refl;
        },
      )

-- Each of these tables fits beside the later ones.
abbrev pub AreApartTables : List TableMeta → Type 0
AreApartTables [] = Unit
AreApartTables (t ∷ ts) =
    All (λ u. ranges_overlap t u.min_key u.max_key ≡ false) ts × AreApartTables ts

still_fit :
    (t : TableMeta) (ts : List TableMeta) (m m' : Manifest) (target : ℕ)
    → Joins m m' target (t ∷ [])
    → All (λ u. ranges_overlap t u.min_key u.max_key ≡ false) ts
    → All (λ u. Fits u (level m target)) ts
    → All (λ u. Fits u (level m' target)) ts
still_fit t ts m m' target j a f =
    All-intro (λ u. Fits u (level m' target)) ts
      (λ u i.
        All-intro (λ v. ranges_overlap v u.min_key u.max_key ≡ false) (level m' target)
          (λ v k. elim ((j.members v).0 k) [
            | inl h ↦ elim h [
              | inl e ↦
                  subst (λ w. ranges_overlap w u.min_key u.max_key ≡ false) (sym e)
                    (All-In (λ u. ranges_overlap t u.min_key u.max_key ≡ false) ts u a i)
              | inr z ↦ absurd z
            ]
            | inr h ↦
                All-In (λ w. ranges_overlap w u.min_key u.max_key ≡ false) (level m target) v
                  (All-In (λ u. Fits u (level m target)) ts u f i) h
          ]))

Joins-trans :
    (t : TableMeta) (ts : List TableMeta) (m m' m'' : Manifest) (target : ℕ)
    → Joins m m' target (t ∷ [])
    → Joins m' m'' target ts
    → Joins m m'' target (t ∷ ts)
Joins-trans t ts m m' m'' target a b = record {
  others = λ j h. b.others j h ∙ a.others j h;
  members = λ u. (
    λ i. elim ((b.members u).0 i) [
      | inl k ↦ inl (inr k)
      | inr k ↦ elim ((a.members u).0 k) [
        | inl h ↦ inl (elim h [ inl e ↦ inl e | inr z ↦ absurd z ])
        | inr h ↦ inr h
      ]
    ],
    λ i. elim i [
      | inl h ↦ elim h [
        | inl e ↦ (b.members u).1 (inr ((a.members u).1 (inl (inl e))))
        | inr k ↦ (b.members u).1 (inl k)
      ]
      | inr h ↦ (b.members u).1 (inr ((a.members u).1 (inr h)))
    ],
  );
  disjoint = b.disjoint;
  rest = b.rest ∙ ap (λ (x : Manifest). record x { levels = m''.levels }) a.rest;
}

-- Tables that overlap neither one another nor the level are all added.
pub add_tables-Joins :
    (tables : List TableMeta) (n : ℕ) (m : Manifest)
    → All IsRange tables
    → AreApartTables tables
    → IsDisjoint (level m (suc n))
    → All (λ t. Fits t (level m (suc n))) tables
    → ((add_tables tables (suc n) m).0 ≡ true)
      × Joins m (add_tables tables (suc n) m).1 (suc n) tables
unfolding add_tables
add_tables-Joins [] n m r a d f = (
  refl,
  record {
    others = λ j h. refl;
    members = λ t. (λ i. inr i, λ i. elim i [ inl z ↦ absurd z | inr j ↦ j ]);
    disjoint = d;
    rest = refl;
  },
)
add_tables-Joins (t ∷ ts) n m r a d f =
    let (done, first) = add_table-Joins t n m r.0 d f.0 in
    let m' = (add_table t (suc n) m).1 in
    let fits : All (λ u. Fits u (level m' (suc n))) ts =
      still_fit t ts m m' (suc n) first a.0 f.1 in
    let (done', later) = add_tables-Joins ts n m' r.1 a.1 first.disjoint fits in
    rw done (done', Joins-trans t ts m m' (add_tables ts (suc n) m').1 (suc n) first later)
