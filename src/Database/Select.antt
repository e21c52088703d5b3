-- ===== src/Database/Select.antt =====
-- Which tables the compactions of src/DB.cpp take, and when a level is over its budget.
use lsmtree.Base.{
  ℕ, zero, suc, ◌+◌, ◌-◌, ◌*◌, ◌%◌, ◌^◌, List, [], ◌∷◌, ltb, leb, ◌==◌, ◌||◌, not, if◌then◌else◌,
  Option, none, some,
}
use lsmtree.Database.{Options}
use lsmtree.Manifest.{
  Manifest, TableMeta, Level, level, level_count, ranges_overlap, split_at_first_not,
}
use lsmtree.Text.{Str, str_lt}

-- `insert` into a set in descending order
unfoldable pub insert_number : ℕ → List ℕ → List ℕ
insert_number n [] = n ∷ []
insert_number n (m ∷ ms) =
    let rest = insert_number n ms in
    if ltb m n then n ∷ m ∷ ms else if n == m then m ∷ ms else m ∷ rest

-- The first loop of `selectLevelZeroCompactionTables`.
unfoldable pub insert_tables : Level → List ℕ → List ℕ
insert_tables [] selected = selected
insert_tables (t ∷ ts) selected = insert_tables ts (insert_number t.number selected)

-- `std::min` and `std::max` on strings
abbrev pub min_str : Str → Str → Str
min_str a b = if str_lt b a then b else a

abbrev pub max_str : Str → Str → Str
max_str a b = if str_lt a b then b else a

-- The loop over the ranges of level 0.
unfoldable pub hull : Level → Str → Str → Str × Str
hull [] low high = (low, high)
hull (t ∷ ts) low high = hull ts (min_str low t.min_key) (max_str high t.max_key)

-- The last loop of `selectLevelZeroCompactionTables`.
unfoldable pub insert_overlapping : Str → Str → Level → List ℕ → List ℕ
insert_overlapping low high [] selected = selected
insert_overlapping low high (t ∷ ts) selected = insert_overlapping low high ts (
    if str_lt high t.min_key || str_lt t.max_key low
    then selected
    else insert_number t.number selected)

-- `selectLevelZeroCompactionTables`, of a level 0 that has a table
unfoldable pub select_level_zero_compaction_tables : Manifest → TableMeta → Level → List ℕ
select_level_zero_compaction_tables m t ts =
    let (low, high) = hull (t ∷ ts) t.min_key t.max_key in
    insert_overlapping low high (level m 1) (insert_tables (t ∷ ts) [])

-- `compactionCursors_.find`
unfoldable pub find_cursor : List (ℕ × Str) → ℕ → Option Str
find_cursor [] number = none
find_cursor ((n, key) ∷ cursors) number =
    let rest = find_cursor cursors number in if n == number then some key else rest

-- `compactionCursors_.insert_or_assign`
unfoldable pub set_cursor : List (ℕ × Str) → ℕ → Str → List (ℕ × Str)
set_cursor [] number key = (number, key) ∷ []
set_cursor ((n, old) ∷ cursors) number key =
    let rest = set_cursor cursors number key in
    if n == number then (n, key) ∷ cursors else (n, old) ∷ rest

-- The table that the cursor selects, of a level that starts with `t`.
unfoldable pub select_table : Option Str → TableMeta → Level → TableMeta
select_table none t ts = t
select_table (some cursor) t ts =
    elim (split_at_first_not (λ u. not (str_lt cursor u.min_key)) (t ∷ ts)).1 [
      | [] ↦ t
      | u ∷ us ↦ u
    ]

-- The loop of `appendOverlappingTables`.
unfoldable pub overlapping_tables : TableMeta → Level → Level
overlapping_tables selected [] = []
overlapping_tables selected (t ∷ ts) =
    let rest = overlapping_tables selected ts in
    if ranges_overlap t selected.min_key selected.max_key then t ∷ rest else rest

-- `appendOverlappingTables`: what it appends
abbrev pub append_overlapping_tables : Manifest → TableMeta → ℕ → Level
append_overlapping_tables m selected next_level =
    if leb (level_count m) next_level then [] else overlapping_tables selected (level m next_level)

-- `levelSizeBytes`
unfoldable pub sum_sizes : Level → ℕ → ℕ
sum_sizes [] total = total
sum_sizes (t ∷ ts) total = sum_sizes ts ((total + t.size) % 2 ^ 64)

abbrev pub level_size_bytes : Manifest → ℕ → ℕ
level_size_bytes m number = sum_sizes (level m number) 0

-- The loop of `levelCompactionBudget`, in so many rounds.
unfoldable pub grow_budget : ℕ → ℕ → ℕ
grow_budget zero budget = budget
grow_budget (suc rounds) budget = grow_budget rounds (budget * 10 % 2 ^ 64)

-- `levelCompactionBudget`
abbrev pub level_compaction_budget : Options → ℕ → ℕ
level_compaction_budget o number = grow_budget (number - 1) o.compaction_base_threshold_bytes

-- The loop of `firstOverBudgetLevel`: so many levels from this one on.
unfoldable pub first_over_budget : Options → Manifest → ℕ → ℕ → Option ℕ
first_over_budget o m zero number = none
first_over_budget o m (suc left) number =
    let rest = first_over_budget o m left (suc number) in
    if ltb (level_compaction_budget o number) (level_size_bytes m number) then some number else rest

-- `firstOverBudgetLevel`
abbrev pub first_over_budget_level : Options → Manifest → Option ℕ
first_over_budget_level o m = first_over_budget o m (level_count m - 1) 1
