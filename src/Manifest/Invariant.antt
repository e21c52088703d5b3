-- ===== src/Manifest/Invariant.antt =====
-- The levels of a manifest stay in order: level 0 has the newest table first, and the tables of a
-- level above it stand in the order of their keys and do not overlap.
use lsmtree.Base.{
  ℕ, zero, suc, ◌+◌, ◌-◌, ◌≤◌, ◌<◌, ◌≡◌, ◌↔◌, List, [], ◌∷◌, ◌++◌, Bool, false, some, ltb, ◌==◌,
  All, All-append, Bool-cases, In, inl, inr, arith, map, get_or, set, replicate, length,
  Option-cases,
}
use lsmtree.Manifest.{
  Manifest, TableMeta, Level, split_at_first_not, add_to_level_zero, add_to_sorted_level, add_table,
  add_tables, erase_tables, replace_tables, resize_levels, get_table_meta,
}
use lsmtree.Manifest.Levels.{IsRange, LeftOf, IsDisjoint, add_to_sorted_level-IsDisjoint}
use lsmtree.Manifest.Lookup.{Covers, find_table-covered, find_table-In}
use lsmtree.Base.Checked.{ok}
use lsmtree.Text.{Str}

abbrev pub IsNewestFirst : Level → Type 0
IsNewestFirst [] = Unit
IsNewestFirst (t ∷ ts) = All (λ u. u.number ≤ t.number) ts × IsNewestFirst ts

abbrev pub AreOrdered : List Level → Type 0
AreOrdered [] = Unit
AreOrdered (l ∷ ls) = IsNewestFirst l × All IsDisjoint ls

abbrev pub IsWellFormed : Manifest → Type 0
IsWellFormed m = AreOrdered m.levels

All-set :
    (ls : List Level) (n : ℕ) (l : Level)
    → All IsDisjoint ls
    → IsDisjoint l
    → All IsDisjoint (set ls n l)
All-set [] n l a d = tt
All-set (k ∷ ls) zero l a d = (d, a.1)
All-set (k ∷ ls) (suc n) l a d = (a.0, All-set ls n l a.1 d)

All-get_or : (ls : List Level) (n : ℕ) → All IsDisjoint ls → IsDisjoint (get_or ls n [])
All-get_or [] n a = tt
All-get_or (k ∷ ls) zero a = a.0
All-get_or (k ∷ ls) (suc n) a = All-get_or ls n a.1

All-replicate : (n : ℕ) → All IsDisjoint (replicate n [])
All-replicate zero = tt
All-replicate (suc n) = (tt, All-replicate n)

replicate-AreOrdered : (n : ℕ) → AreOrdered (replicate n [])
replicate-AreOrdered zero = tt
replicate-AreOrdered (suc n) = (tt, All-replicate n)

append_levels-AreOrdered :
    (ls : List Level) (n : ℕ) → AreOrdered ls → AreOrdered (ls ++ replicate n [])
append_levels-AreOrdered [] n a = replicate-AreOrdered n
append_levels-AreOrdered (l ∷ ls) n a =
    (a.0, All-append IsDisjoint ls (replicate n []) a.1 (All-replicate n))

resize_levels-AreOrdered :
    (target : ℕ) (ls : List Level) → AreOrdered ls → AreOrdered (resize_levels target ls)
resize_levels-AreOrdered target ls a =
    ground (arith, append_levels-AreOrdered ls (target + 1 - length ls) a)

numbers_below :
    (test : TableMeta → Bool) (n : ℕ) (t : TableMeta) (ts : Level)
    → All (λ u. u.number ≤ n) ts
    → t.number ≤ n
    → All (λ u. u.number ≤ n) ((split_at_first_not test ts).0 ++ t ∷ (split_at_first_not test ts).1)
unfolding split_at_first_not
numbers_below test n t [] a h = (h, tt)
numbers_below test n t (u ∷ ts) a h = ground (arith, numbers_below test n t ts)

All_weaken :
    (n m : ℕ) (ts : Level) → n ≤ m → All (λ u. u.number ≤ n) ts → All (λ u. u.number ≤ m) ts
All_weaken n m [] h a = tt
All_weaken n m (t ∷ ts) h a = (omega (arith, a.0), All_weaken n m ts h a.1)

add_to_level_zero-IsNewestFirst :
    (table : TableMeta) (l : Level) → IsNewestFirst l → IsNewestFirst (add_to_level_zero table l)
unfolding add_to_level_zero split_at_first_not
add_to_level_zero-IsNewestFirst table [] h = (tt, tt)
add_to_level_zero-IsNewestFirst table (t ∷ ts) h = elim (Bool-cases (ltb table.number t.number)) [
  | inl older ↦ rw older (
    numbers_below (λ c. ltb table.number c.number) t.number table ts h.0 (ground (arith, older)),
    add_to_level_zero-IsNewestFirst table ts h.1,
  )
  | inr newer ↦
      let below : t.number ≤ table.number = ground (arith, newer) in
      rw newer ((below, All_weaken t.number table.number ts below h.0), h)
]

suc_not_zero : (n : ℕ) → (suc n == 0) ≡ false
suc_not_zero n = ground arith

set_zero-AreOrdered :
    (ls : List Level) (l : Level) → AreOrdered ls → IsNewestFirst l → AreOrdered (set ls 0 l)
set_zero-AreOrdered [] l a h = tt
set_zero-AreOrdered (k ∷ ls) l a h = (h, a.1)

get_zero-IsNewestFirst : (ls : List Level) → AreOrdered ls → IsNewestFirst (get_or ls 0 [])
get_zero-IsNewestFirst [] a = tt
get_zero-IsNewestFirst (k ∷ ls) a = a.0

set-suc-AreOrdered :
    (ls : List Level) (n : ℕ) (l : Level)
    → AreOrdered ls
    → IsDisjoint l
    → AreOrdered (set ls (suc n) l)
set-suc-AreOrdered [] n l a d = tt
set-suc-AreOrdered (k ∷ ls) n l a d = (a.0, All-set ls n l a.1 d)

get_suc-IsDisjoint : (ls : List Level) (n : ℕ) → AreOrdered ls → IsDisjoint (get_or ls (suc n) [])
get_suc-IsDisjoint [] n a = tt
get_suc-IsDisjoint (k ∷ ls) n a = All-get_or ls n a.1

-- Adding a table whose smallest key is not above its largest to a manifest in order keeps the order
-- of the levels, also where it throws.
pub add_table-IsWellFormed :
    (table : TableMeta) (target : ℕ) (m : Manifest)
    → IsRange table
    → IsWellFormed m
    → IsWellFormed (add_table table target m).1
unfolding add_table
add_table-IsWellFormed table zero m r w =
    let levels = resize_levels-AreOrdered 0 m.levels w in
    set_zero-AreOrdered (resize_levels 0 m.levels) _ levels (
      add_to_level_zero-IsNewestFirst table _
        (get_zero-IsNewestFirst (resize_levels 0 m.levels) levels))
add_table-IsWellFormed table (suc n) m r w =
    let levels = resize_levels-AreOrdered (suc n) m.levels w in
    let old = get_or (resize_levels (suc n) m.levels) (suc n) [] in
    elim (Option-cases (add_to_sorted_level table old)) [
      | inl e ↦ rw (suc_not_zero n, e) levels
      | inr (new, e) ↦
          rw (suc_not_zero n, e)
            (set-suc-AreOrdered (resize_levels (suc n) m.levels) n new levels (
              add_to_sorted_level-IsDisjoint table old new r
                (get_suc-IsDisjoint (resize_levels (suc n) m.levels) n levels) e))
    ]

add_tables-IsWellFormed :
    (tables : List TableMeta) (target : ℕ) (m : Manifest)
    → All IsRange tables
    → IsWellFormed m
    → IsWellFormed (add_tables tables target m).1
unfolding add_tables
add_tables-IsWellFormed [] target m r w = w
add_tables-IsWellFormed (t ∷ ts) target m r w =
    let kept = add_table-IsWellFormed t target m r.0 w in
    ground (arith, kept, add_tables-IsWellFormed ts target (add_table t target m).1 r.1 kept)

pub All-erase_tables :
    (P : TableMeta → Type 0) (removed : List ℕ) (l : Level)
    → All P l
    → All P (erase_tables removed l)
unfolding erase_tables
All-erase_tables P removed [] a = tt
All-erase_tables P removed (t ∷ ts) a = ground (arith, All-erase_tables P removed ts a.1)

erase_tables-IsNewestFirst :
    (removed : List ℕ) (l : Level) → IsNewestFirst l → IsNewestFirst (erase_tables removed l)
unfolding erase_tables
erase_tables-IsNewestFirst removed [] a = tt
erase_tables-IsNewestFirst removed (t ∷ ts) a = ground (
  arith,
  erase_tables-IsNewestFirst removed ts a.1,
  All-erase_tables (λ u. u.number ≤ t.number) removed ts a.0,
)

pub erase_tables-IsDisjoint :
    (removed : List ℕ) (l : Level) → IsDisjoint l → IsDisjoint (erase_tables removed l)
unfolding erase_tables
erase_tables-IsDisjoint removed [] a = tt
erase_tables-IsDisjoint removed (t ∷ ts) a =
    ground
      (arith, erase_tables-IsDisjoint removed ts a.2, All-erase_tables (LeftOf t) removed ts a.1)

erase_levels-IsDisjoint :
    (removed : List ℕ) (ls : List Level)
    → All IsDisjoint ls
    → All IsDisjoint (map (erase_tables removed) ls)
erase_levels-IsDisjoint removed [] a = tt
erase_levels-IsDisjoint removed (l ∷ ls) a =
    (erase_tables-IsDisjoint removed l a.0, erase_levels-IsDisjoint removed ls a.1)

erase_levels-AreOrdered :
    (removed : List ℕ) (ls : List Level)
    → AreOrdered ls
    → AreOrdered (map (erase_tables removed) ls)
erase_levels-AreOrdered removed [] a = tt
erase_levels-AreOrdered removed (l ∷ ls) a =
    (erase_tables-IsNewestFirst removed l a.0, erase_levels-IsDisjoint removed ls a.1)

-- Replacing tables in a manifest in order, where no added table has a smallest key above its
-- largest, keeps the order: level 0 newest first, and the other levels by key and without overlaps.
-- This holds also where it throws.
pub replace_tables-IsWellFormed :
    (removed : List ℕ) (added : List TableMeta) (target : ℕ) (m : Manifest)
    → All IsRange added
    → IsWellFormed m
    → IsWellFormed (replace_tables removed added target m).1
unfolding replace_tables
replace_tables-IsWellFormed removed added target m r w =
    add_tables-IsWellFormed added target _ r (erase_levels-AreOrdered removed m.levels w)

-- On a level above 0 of a manifest in order, a table is returned exactly if it stands on the level and
-- the key lies between its smallest and its largest key.
pub get_table_meta_lem :
    (m : Manifest) (number : ℕ) (key : Str) (t : TableMeta)
    → IsWellFormed m
    → suc number < length m.levels
    → (get_table_meta m (suc number) key ≡ ok (some t))
      ↔ (In t (get_or m.levels (suc number) []) × Covers t key)
unfolding get_table_meta
get_table_meta_lem m number key t w h =
    let l = get_or m.levels (suc number) [] in
    let found = find_table-covered key l t (get_suc-IsDisjoint m.levels number w) in
    let sound = find_table-In key l t in
    (λ e. sound (ground arith), λ p. ground (arith, found p.0 p.1))
