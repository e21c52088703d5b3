-- ===== src/Manifest/Lookup.antt =====
-- `getTableMeta` on a level without overlaps finds the table that holds a key.
use lsmtree.Base.{
  ◌≡◌, refl, sym, subst, [], ◌∷◌, true, not, some, All, In, inl, inr, arith, In-append_left,
}
use lsmtree.Text.{Str, str_lt, str_le}
use lsmtree.Text.Order.{Before, compare_str_swap}
use lsmtree.Manifest.{TableMeta, Level, split_at_first_not, last_covering, find_table}
use lsmtree.Manifest.Levels.{IsRange, LeftOf, IsDisjoint, le_Before, Before-le, split-append}

-- `key` lies in the range of `t`.
abbrev pub Covers : TableMeta → Str → Type 0
Covers t key = (str_le t.min_key key ≡ true) × (str_le key t.max_key ≡ true)

last_covering-cons :
    (key : Str) (h : TableMeta) (ts : Level) (t : TableMeta)
    → last_covering key ts ≡ some t
    → last_covering key (h ∷ ts) ≡ some t
last_covering-cons key h [] t e = cc
last_covering-cons key h (u ∷ ts) t e = e

-- Tables that start behind `key` are behind the position.
front_empty :
    (key : Str) (ts : Level)
    → All (λ t. Before key t.min_key) ts
    → (split_at_first_not (λ t. not (str_lt key t.min_key)) ts).0 ≡ []
unfolding split_at_first_not
front_empty key [] a = refl
front_empty key (t ∷ ts) a = ground arith

behind :
    (key : Str) (t : TableMeta) (ts : Level)
    → str_le key t.max_key ≡ true
    → All (LeftOf t) ts
    → All (λ u. Before key u.min_key) ts
behind key t [] c a = tt
behind key t (u ∷ ts) c a = (le_Before key t.max_key u.min_key c a.0, behind key t ts c a.1)

LeftOf-In : (t u : TableMeta) (ts : Level) → All (LeftOf t) ts → In u ts → LeftOf t u
LeftOf-In t u [] a i = absurd i
LeftOf-In t u (v ∷ ts) a (inl e) = subst (LeftOf t) (sym e) a.0
LeftOf-In t u (v ∷ ts) a (inr i) = LeftOf-In t u ts a.1 i

starts_before :
    (key : Str) (h t : TableMeta)
    → IsRange h
    → LeftOf h t
    → str_le t.min_key key ≡ true
    → not (str_lt key h.min_key) ≡ true
starts_before key h t r l c = ground (
  arith,
  compare_str_swap h.min_key key,
  le_Before h.min_key h.max_key t.min_key,
  Before-le h.min_key t.min_key key,
)

-- The table that holds a key is found.
pub find_table-covered :
    (key : Str) (level : Level) (t : TableMeta)
    → IsDisjoint level
    → In t level
    → Covers t key
    → find_table key level ≡ some t
unfolding find_table split_at_first_not
find_table-covered key [] t d i c = absurd i
find_table-covered key (h ∷ ts) t d (inl e) c =
    subst
      (λ u.
        last_covering key (split_at_first_not (λ t. not (str_lt key t.min_key)) (u ∷ ts)).0
        ≡ some t)
      e
      (ground (
        arith,
        front_empty key ts (behind key t ts c.1 (subst (λ u. All (LeftOf u) ts) (sym e) d.1)),
        compare_str_swap t.min_key key,
      ))
find_table-covered key (h ∷ ts) t d (inr i) c =
    rw (starts_before key h t d.0 (LeftOf-In h t ts d.1 i) c.0) (
      last_covering-cons key h ((split_at_first_not (λ u. not (str_lt key u.min_key)) ts).0) t
        (find_table-covered key ts t d.2 i c))

-- What is found holds the key and stands on the level.
last_covering-In :
    (key : Str) (ts : Level) (t : TableMeta)
    → last_covering key ts ≡ some t
    → In t ts × Covers t key
last_covering-In key [] t e = cc
last_covering-In key (u ∷ []) t e = ground arith
last_covering-In key (u ∷ v ∷ ts) t e = let (i, c) = last_covering-In key (v ∷ ts) t e in (inr i, c)

pub find_table-In :
    (key : Str) (level : Level) (t : TableMeta)
    → find_table key level ≡ some t
    → In t level × Covers t key
unfolding find_table
find_table-In key level t e =
    let test = λ (u : TableMeta). not (str_lt key u.min_key) in
    let (i, c) = last_covering-In key (split_at_first_not test level).0 t e in
    (
      subst (In t) (split-append test level)
          (In-append_left t _ (split_at_first_not test level).1 i),
      c,
    )
