-- ===== src/Scan/Sound.antt =====
-- A scan is right: it gives the newest value in view of every key in its range, and nothing else.
use lsmtree.Base.{
  ℕ, ◌≡◌, append_assoc, refl, sym, ap, subst, List, [], ◌∷◌, ◌++◌, map, arith, All, All-append,
  All-In, In, inl, inr, Bool-cases, true, In-append, In-append_left, In-append_right,
}
use lsmtree.Manifest.{TableMeta, Level}
use lsmtree.MemTable.{records}
use lsmtree.Merge.Queue.{Sources}
use lsmtree.Merge.Queue.Loop.{concat}
use lsmtree.Record.{Record}
use lsmtree.Record.Sorted.{IsSorted}
use lsmtree.Scan.{Db, snapshot_records, overlaps_scan_range, select_of_level, select_of_levels}
use lsmtree.Scan.Iterators.{below, snapshot_records-below, below-IsSorted, below-append}
use lsmtree.Scan.Sublists.{Sublist, Sublist-refl, Sublist-append, Sublist-append_right, AreApart}
use lsmtree.Text.{Str, str_lt, str_le}
use lsmtree.Text.Order.{Before-trans, compare_str→eq}
use lsmtree.Manifest.Levels.{le_Before}

-- The records of some tables.
unfoldable pub table_records : (ℕ → List Record) → List TableMeta → List Record
table_records files [] = []
table_records files (t ∷ ts) = files t.number ++ table_records files ts

unfoldable pub level_records : (ℕ → List Record) → List Level → List Record
level_records files [] = []
level_records files (l ∷ ls) = table_records files l ++ level_records files ls

-- All that a database holds: its memtable and every table of its manifest.
unfoldable pub stored : Db → List Record
stored db = records db.active_mem_table.table ++ level_records db.files db.manifest.levels

-- The file of a table is sorted, and its keys lie between the table's smallest and its largest.
pub record IsTable (files : ℕ → List Record) (t : TableMeta) : Type 0 where
  pub sorted : IsSorted (files t.number)
  pub in_bounds :
      All (λ r. (str_le t.min_key r.key ≡ true) × (str_le r.key t.max_key ≡ true)) (files t.number)

-- Sources are sorted, the metadata is true, and no two records share key and sequence.
pub record IsConsistent (db : Db) : Type 0 where
  pub memory : IsSorted (records db.active_mem_table.table)
  pub tables : All (λ l. All (IsTable db.files) l) db.manifest.levels
  pub apart : AreApart (stored db)

concat-append : (xs ys : Sources) → concat (xs ++ ys) ≡ concat xs ++ concat ys
unfolding concat
concat-append [] ys = refl
concat-append (x ∷ xs) ys = rw (concat-append xs ys) (simp append_assoc)

map-append : (f : ℕ → List Record) (xs ys : List ℕ) → map f (xs ++ ys) ≡ map f xs ++ map f ys
map-append f [] ys = refl
map-append f (x ∷ xs) ys = ap (◌∷◌ (f x)) (map-append f xs ys)

-- What the selected tables of a level hold.
select_of_level-Sublist :
    (files : ℕ → List Record) (l : Level) (start end : Str)
    → Sublist (concat (map files (select_of_level l start end))) (table_records files l)
unfolding select_of_level table_records concat
select_of_level-Sublist files [] start end = Sublist.none
select_of_level-Sublist files (t ∷ ts) start end =
    elim (Bool-cases (overlaps_scan_range t start end)) [
      | inl o ↦ rw o (
          Sublist-append (Sublist-refl (files t.number))
            (select_of_level-Sublist files ts start end))
      | inr o ↦
          rw o (Sublist-append_right (files t.number) (select_of_level-Sublist files ts start end))
    ]

pub select_of_levels-Sublist :
    (files : ℕ → List Record) (ls : List Level) (start end : Str)
    → Sublist (concat (map files (select_of_levels ls start end))) (level_records files ls)
unfolding select_of_levels level_records
select_of_levels-Sublist files [] start end = unfold concat in Sublist.none
select_of_levels-Sublist files (l ∷ ls) start end =
    rw
      (
        map-append files (select_of_level l start end) (select_of_levels ls start end),
        concat-append (map files (select_of_level l start end))
            (map files (select_of_levels ls start end)),
      )
      (Sublist-append (select_of_level-Sublist files l start end)
        (select_of_levels-Sublist files ls start end))

pub le_trans : (a b c : Str) → str_le a b ≡ true → str_le b c ≡ true → str_le a c ≡ true
le_trans a b c h k = ground (arith, compare_str→eq a b, compare_str→eq b c, Before-trans a b c)

-- A table with a key of the range is selected.
overlaps :
    (files : ℕ → List Record) (t : TableMeta) (start end : Str) (r : Record)
    → IsTable files t
    → In r (files t.number)
    → str_le start r.key ≡ true
    → str_lt r.key end ≡ true
    → overlaps_scan_range t start end ≡ true
overlaps files t start end r h i low high =
    let (least, greatest) =
      All-In (λ q. (str_le t.min_key q.key ≡ true) × (str_le q.key t.max_key ≡ true))
        (files t.number) r h.in_bounds i in
    ground (arith, le_trans start r.key t.max_key, le_Before t.min_key r.key end)

select_of_level-In :
    (files : ℕ → List Record) (l : Level) (start end : Str) (r : Record)
    → All (IsTable files) l
    → str_le start r.key ≡ true
    → str_lt r.key end ≡ true
    → In r (table_records files l)
    → In r (concat (map files (select_of_level l start end)))
unfolding select_of_level table_records concat
select_of_level-In files [] start end r h low high i = i
select_of_level-In files (t ∷ ts) start end r h low high i =
    elim (In-append r (files t.number) (table_records files ts) i) [
      | inl j ↦
          rw (overlaps files t start end r h.0 j low high) (In-append_left r (files t.number) _ j)
      | inr j ↦
          let later = select_of_level-In files ts start end r h.1 low high j in
          elim (Bool-cases (overlaps_scan_range t start end)) [
            | inl o ↦ rw o (In-append_right r (files t.number) _ later)
            | inr o ↦ rw o later
          ]
    ]

pub select_of_levels-In :
    (files : ℕ → List Record) (ls : List Level) (start end : Str) (r : Record)
    → All (λ l. All (IsTable files) l) ls
    → str_le start r.key ≡ true
    → str_lt r.key end ≡ true
    → In r (level_records files ls)
    → In r (concat (map files (select_of_levels ls start end)))
unfolding select_of_levels level_records
select_of_levels-In files [] start end r h low high i = absurd i
select_of_levels-In files (l ∷ ls) start end r h low high i =
    let here = map files (select_of_level l start end) in
    let others = map files (select_of_levels ls start end) in
    rw
      (
        map-append files (select_of_level l start end) (select_of_levels ls start end),
        concat-append here others,
      )
      (elim (In-append r (table_records files l) (level_records files ls) i) [
        | inl j ↦
            In-append_left r (concat here) (concat others)
              (select_of_level-In files l start end r h.0 low high j)
        | inr j ↦
            In-append_right r (concat here) (concat others)
              (select_of_levels-In files ls start end r h.1 low high j)
      ])

-- The files of the selected tables are sorted.
selected_level-IsSorted :
    (files : ℕ → List Record) (l : Level) (start end : Str)
    → All (IsTable files) l
    → All IsSorted (map files (select_of_level l start end))
unfolding select_of_level
selected_level-IsSorted files [] start end h = tt
selected_level-IsSorted files (t ∷ ts) start end h =
    ground (arith, selected_level-IsSorted files ts start end h.1, h.0.sorted)

pub selected-IsSorted :
    (files : ℕ → List Record) (ls : List Level) (start end : Str)
    → All (λ l. All (IsTable files) l) ls
    → All IsSorted (map files (select_of_levels ls start end))
unfolding select_of_levels
selected-IsSorted files [] start end h = tt
selected-IsSorted files (l ∷ ls) start end h =
    rw (map-append files (select_of_level l start end) (select_of_levels ls start end)) (
      All-append IsSorted (map files (select_of_level l start end))
        (map files (select_of_levels ls start end)) (selected_level-IsSorted files l start end h.0)
        (selected-IsSorted files ls start end h.1))

-- Cutting every source at a sequence cuts what they hold together.
pub concat-snapshot_records :
    (s : ℕ) (ss : Sources) → concat (map (snapshot_records s) ss) ≡ below s (concat ss)
unfolding concat
concat-snapshot_records s [] = unfold below in refl
concat-snapshot_records s (x ∷ ss) =
    rw (snapshot_records-below s x, concat-snapshot_records s ss)
      (sym (below-append s x (concat ss)))

pub snapshots-IsSorted :
    (s : ℕ) (ss : Sources) → All IsSorted ss → All IsSorted (map (snapshot_records s) ss)
snapshots-IsSorted s [] h = tt
snapshots-IsSorted s (x ∷ ss) h = (
  subst IsSorted (sym (snapshot_records-below s x)) (below-IsSorted s x h.0),
  snapshots-IsSorted s ss h.1,
)
