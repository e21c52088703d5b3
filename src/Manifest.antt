-- ===== src/Manifest.antt =====
-- `class Manifest` of src/Manifest.cpp: which tables stand on which level, and the counters.
pub mod Levels
pub mod Lookup
pub mod Codec
pub mod Invariant
pub mod Positions
pub mod Replace
use lsmtree.Base.{
  ℕ, zero, suc, ◌+◌, ◌-◌, ◌%◌, ◌^◌, List, [], ◌∷◌, ◌++◌, length, get_or, set, replicate, ltb, leb,
  ◌==◌, not, ◌&&◌, ◌||◌, if◌then◌else◌, Bool, true, false, Option, none, some, map,
}
use lsmtree.Base.Checked.{Checked, ok, err}
use lsmtree.Text.{Str, str_lt, str_le}

pub record TableMeta : Type 0 where
  pub number : ℕ
  pub size : ℕ
  pub min_key : Str
  pub max_key : Str

-- `rangesOverlap`
abbrev pub ranges_overlap : TableMeta → Str → Str → Bool
ranges_overlap t min_key max_key = str_le min_key t.max_key && str_le t.min_key max_key

abbrev pub Level : Type 0
Level = List TableMeta

pub record Manifest : Type 0 where
  pub levels : List Level
  pub next_table_number : ℕ
  pub log_number : ℕ
  pub last_seq : ℕ

-- The manifest of a directory that has no MANIFEST file.
abbrev pub new_manifest : Manifest
new_manifest = record { levels = []; next_table_number = 0; log_number = 0; last_seq = 0 }

-- `allocateNumber`: the old number, and the counter moved on in 64 bits
unfoldable pub allocate_number : Manifest → ℕ × Manifest
allocate_number m =
    (m.next_table_number, record m { next_table_number = (m.next_table_number + 1) % 2 ^ 64 })

-- What `std::lower_bound` and `std::upper_bound` find in a level that is ordered for the test: the
-- tables in front of the position and those from it on.
unfoldable pub split_at_first_not : (TableMeta → Bool) → Level → Level × Level
split_at_first_not test [] = ([], [])
split_at_first_not test (t ∷ ts) =
    let (front, back) = split_at_first_not test ts in
    if test t then (t ∷ front, back) else ([], t ∷ ts)

-- Whether `*std::prev(position)` overlaps, where there is one.
abbrev pub last_overlaps : Level → TableMeta → Bool
last_overlaps [] table = false
last_overlaps (t ∷ []) table = ranges_overlap t table.min_key table.max_key
last_overlaps (t ∷ u ∷ ts) table = last_overlaps (u ∷ ts) table

-- Whether `*position` overlaps, where it is not the end.
abbrev pub first_overlaps : Level → TableMeta → Bool
first_overlaps [] table = false
first_overlaps (t ∷ ts) table = ranges_overlap t table.min_key table.max_key

-- Level 0: the newest table first.
unfoldable pub add_to_level_zero : TableMeta → Level → Level
add_to_level_zero table level =
    let (front, back) = split_at_first_not (λ c. ltb table.number c.number) level in
    front ++ table ∷ back

-- The other levels: by key, and `none` where `addTable` throws "overlapping key range".
unfoldable pub add_to_sorted_level : TableMeta → Level → Option Level
add_to_sorted_level table level =
    let (front, back) = split_at_first_not (λ c. str_lt c.min_key table.min_key) level in
    if last_overlaps front table
    then none
    else if first_overlaps back table
    then none
    else some (front ++ table ∷ back)

-- `levels_.resize(targetLevel + 1)`, where there are fewer
abbrev pub resize_levels : ℕ → List Level → List Level
resize_levels target levels =
    if leb (length levels) target
    then levels ++ replicate (target + 1 - length levels) []
    else levels

-- `addTable`: false where it throws, which leaves the levels that it has added.
unfoldable pub add_table : TableMeta → ℕ → Manifest → Bool × Manifest
add_table table target m =
    let levels = resize_levels target m.levels in
    if target == 0
    then (true, record m { levels = set levels 0 (add_to_level_zero table (get_or levels 0 [])) })
    else elim (add_to_sorted_level table (get_or levels target [])) [
      | none ↦ (false, record m { levels = levels })
      | some level ↦ (true, record m { levels = set levels target level })
    ]

-- `std::ranges::find(removed, table.number) != removed.end()`
unfoldable pub is_removed : List ℕ → ℕ → Bool
is_removed [] number = false
is_removed (n ∷ removed) number = if n == number then true else is_removed removed number

-- `std::erase_if` on one level
unfoldable pub erase_tables : List ℕ → Level → Level
erase_tables removed [] = []
erase_tables removed (t ∷ ts) =
    let rest = erase_tables removed ts in if is_removed removed t.number then rest else t ∷ rest

-- The loop of `replaceTables` over the added tables; a throw ends it.
unfoldable pub add_tables : List TableMeta → ℕ → Manifest → Bool × Manifest
add_tables [] target m = (true, m)
add_tables (t ∷ ts) target m =
    let (added, m') = add_table t target m in
    let rest = add_tables ts target m' in if added then rest else (false, m')

-- `replaceTables`
unfoldable pub replace_tables : List ℕ → List TableMeta → ℕ → Manifest → Bool × Manifest
replace_tables removed added target m =
    add_tables added target (record m { levels = map (erase_tables removed) m.levels })

-- `level`
abbrev pub level : Manifest → ℕ → Level
level m number = get_or m.levels number []

-- `levelCount`
abbrev pub level_count : Manifest → ℕ
level_count m = length m.levels

-- The last table in front of the position, if it holds `key` in its range.
abbrev pub last_covering : Str → Level → Option TableMeta
last_covering key [] = none
last_covering key (t ∷ []) = if str_le t.min_key key && str_le key t.max_key then some t else none
last_covering key (t ∷ u ∷ ts) = last_covering key (u ∷ ts)

-- The search in one level.
unfoldable pub find_table : Str → Level → Option TableMeta
find_table key level =
    last_covering key (split_at_first_not (λ t. not (str_lt key t.min_key)) level).0

-- `getTableMeta`; level zero throws.
unfoldable pub get_table_meta : Manifest → ℕ → Str → Checked (Unit {0}) (Option TableMeta)
get_table_meta m number key =
    if number == 0
    then err tt
    else if leb (length m.levels) number
    then ok none
    else ok (find_table key (get_or m.levels number []))
