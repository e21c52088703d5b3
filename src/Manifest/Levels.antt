-- ===== src/Manifest/Levels.antt =====
-- The tables of a level above 0 stand in the order of their keys and do not overlap.
use lsmtree.Base.{
  ◌≡◌, refl, sym, subst, [], ◌∷◌, ◌++◌, Bool, true, false, none, some, All, In, In-append_left,
  In-append_right, inl, inr, arith, Bool-cases,
}
use lsmtree.Text.{Str, str_lt, str_le}
use lsmtree.Text.Order.{Before, Before-trans, compare_str→eq, compare_str_swap}
use lsmtree.Manifest.{
  TableMeta, Level, ranges_overlap, split_at_first_not, last_overlaps, first_overlaps,
  add_to_sorted_level,
}

-- The smallest key of a table is not above its largest.
abbrev pub IsRange : TableMeta → Type 0
IsRange t = str_le t.min_key t.max_key ≡ true

-- All keys of `t` stand before all keys of `u`.
abbrev pub LeftOf : TableMeta → TableMeta → Type 0
LeftOf t u = Before t.max_key u.min_key

abbrev pub IsDisjoint : Level → Type 0
IsDisjoint [] = Unit
IsDisjoint (t ∷ ts) = IsRange t × All (LeftOf t) ts × IsDisjoint ts

pub le_Before : (a b c : Str) → str_le a b ≡ true → Before b c → Before a c
le_Before a b c h p = ground (arith, compare_str→eq a b, Before-trans a b c)

pub Before-le : (a b c : Str) → Before a b → str_le b c ≡ true → Before a c
Before-le a b c p h = ground (arith, compare_str→eq b c, Before-trans a b c)

-- A table that starts further left and does not overlap ends before the other starts.
left_of :
    (t u : TableMeta)
    → IsRange u
    → str_lt t.min_key u.min_key ≡ true
    → ranges_overlap t u.min_key u.max_key ≡ false
    → LeftOf t u
left_of t u r l o =
    ground (arith, Before-le t.min_key u.min_key u.max_key, compare_str_swap u.min_key t.max_key)

-- A table that does not start further left and does not overlap starts after the other ends.
right_of :
    (t u : TableMeta)
    → IsRange t
    → str_lt t.min_key u.min_key ≡ false
    → ranges_overlap t u.min_key u.max_key ≡ false
    → LeftOf u t
right_of t u r l o = ground (
  arith,
  compare_str_swap t.min_key u.max_key,
  compare_str_swap u.min_key t.min_key,
  compare_str→eq t.min_key u.min_key,
  Before-le u.min_key t.min_key t.max_key,
)

pub All_left :
    (t u : TableMeta) (ts : Level) → IsRange u → LeftOf t u → All (LeftOf u) ts → All (LeftOf t) ts
All_left t u [] r h a = tt
All_left t u (v ∷ ts) r h a = (
  Before-trans t.max_key u.max_key v.min_key (Before-le t.max_key u.min_key u.max_key h r) a.0,
  All_left t u ts r h a.1,
)

All-insert :
    (P : TableMeta → Type 0) (xs : Level) (x : TableMeta) (ys : Level)
    → All P (xs ++ ys)
    → P x
    → All P (xs ++ x ∷ ys)
All-insert P [] x ys a p = (p, a)
All-insert P (w ∷ xs) x ys a p = (a.0, All-insert P xs x ys a.1 p)

-- The test fails at the first table, where there is one.
abbrev HeadFails : (TableMeta → Bool) → Level → Type 0
HeadFails test [] = Unit
HeadFails test (t ∷ ts) = test t ≡ false

-- `table` fits where the tables in front start further left and the first one behind does not.
insert-IsDisjoint :
    (table : TableMeta) (front back : Level)
    → IsRange table
    → IsDisjoint (front ++ back)
    → All (λ c. str_lt c.min_key table.min_key ≡ true) front
    → HeadFails (λ c. str_lt c.min_key table.min_key) back
    → last_overlaps front table ≡ false
    → first_overlaps back table ≡ false
    → IsDisjoint (front ++ table ∷ back)
insert-IsDisjoint table [] [] r d f b lo fo = (r, tt, tt)
insert-IsDisjoint table [] (c ∷ cs) r d f b lo fo =
    let h = right_of c table d.0 b fo in (r, (h, All_left table c cs d.0 h d.1), d)
insert-IsDisjoint table (t ∷ []) back r d f b lo fo =
    (d.0, (left_of t table r f.0 lo, d.1), insert-IsDisjoint table [] back r d.2 tt b refl fo)
insert-IsDisjoint table (t ∷ u ∷ front) back r d f b lo fo = (
  d.0,
  All-insert (LeftOf t) (u ∷ front) table back d.1
      (Before-trans t.max_key u.min_key table.min_key d.1.0 (ground (arith, f.1.0))),
  insert-IsDisjoint table (u ∷ front) back r d.2 f.1 b lo fo,
)

-- What a split gives.
pub split-append :
    (test : TableMeta → Bool) (level : Level)
    → (split_at_first_not test level).0 ++ (split_at_first_not test level).1 ≡ level
unfolding split_at_first_not
split-append test [] = refl
split-append test (t ∷ ts) = ground (arith, split-append test ts)

pub split_front :
    (test : TableMeta → Bool) (level : Level)
    → All (λ c. test c ≡ true) (split_at_first_not test level).0
unfolding split_at_first_not
split_front test [] = tt
split_front test (t ∷ ts) = ground (arith, split_front test ts)

split_back :
    (test : TableMeta → Bool) (level : Level) → HeadFails test (split_at_first_not test level).1
unfolding split_at_first_not
split_back test [] = tt
split_back test (t ∷ ts) = ground (arith, split_back test ts)

-- A level stays in order and without overlaps when a table is accepted.
pub add_to_sorted_level-IsDisjoint :
    (table : TableMeta) (level new_level : Level)
    → IsRange table
    → IsDisjoint level
    → add_to_sorted_level table level ≡ some new_level
    → IsDisjoint new_level
unfolding add_to_sorted_level
add_to_sorted_level-IsDisjoint table level new_level r d e =
    let test = λ (c : TableMeta). str_lt c.min_key table.min_key in
    let front = (split_at_first_not test level).0 in
    let back = (split_at_first_not test level).1 in
    let fits =
      insert-IsDisjoint table front back r (subst IsDisjoint (sym (split-append test level)) d)
        (split_front test level) (split_back test level) in
    ground (arith, fits)

last_overlaps-In :
    (ts : Level) (table : TableMeta)
    → last_overlaps ts table ≡ true
    → (t : TableMeta) × In t ts × (ranges_overlap t table.min_key table.max_key ≡ true)
last_overlaps-In [] table h = cc
last_overlaps-In (t ∷ []) table h = (t, inl refl, h)
last_overlaps-In (t ∷ u ∷ ts) table h =
    let (v, i, o) = last_overlaps-In (u ∷ ts) table h in (v, inr i, o)

first_overlaps-In :
    (ts : Level) (table : TableMeta)
    → first_overlaps ts table ≡ true
    → (t : TableMeta) × In t ts × (ranges_overlap t table.min_key table.max_key ≡ true)
first_overlaps-In [] table h = cc
first_overlaps-In (t ∷ ts) table h = (t, inl refl, h)

-- A table is refused only if it overlaps one that the level has.
pub add_to_sorted_level_refuses :
    (table : TableMeta) (level : Level)
    → add_to_sorted_level table level ≡ none
    → (t : TableMeta) × In t level × (ranges_overlap t table.min_key table.max_key ≡ true)
unfolding add_to_sorted_level
add_to_sorted_level_refuses table level e =
    let test = λ (c : TableMeta). str_lt c.min_key table.min_key in
    let front = (split_at_first_not test level).0 in
    let back = (split_at_first_not test level).1 in
    let whole = split-append test level in
    elim (Bool-cases (last_overlaps front table)) [
      | inl o ↦
          let (t, i, h) = last_overlaps-In front table o in
          (t, subst (In t) whole (In-append_left t front back i), h)
      | inr clear ↦
          let (t, i, h) = first_overlaps-In back table (ground (arith, clear)) in
          (t, subst (In t) whole (In-append_right t front back i), h)
    ]
