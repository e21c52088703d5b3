-- ===== src/Merge.antt =====
-- Merging records, src/utils.cpp: what compaction keeps, what a scan shows, and the merge itself.
pub mod Retain
pub mod Latest
pub mod Queue
use lsmtree.Base.{ℕ, ◌+◌, List, [], ◌∷◌, ltb, not, if◌then◌else◌, Bool, true, false, ◌||◌}
use lsmtree.Record.{Record, RecordType}
use lsmtree.Text.{Str, str_eq}

-- The loop of `retainForCompaction`, from a current key and whether its boundary has been kept.
unfoldable pub retain_loop : Str → Bool → ℕ → List Record → List Record
retain_loop current kept oldest [] = []
retain_loop current kept oldest (r ∷ rs) =
    let same = str_eq r.key current in
    let current' = if same then current else r.key in
    let kept' = if same then kept else false in
    let above = ltb oldest r.seq in
    let rest = retain_loop current' (if above then kept' else true) oldest rs in
    if above || not kept' then r ∷ rest else rest

-- `retainForCompaction`
unfoldable pub retain_for_compaction : ℕ → List Record → List Record
retain_for_compaction oldest [] = []
retain_for_compaction oldest (r ∷ rs) = retain_loop r.key false oldest (r ∷ rs)

-- `std::ranges::unique` by key: what follows the last record that was kept, whose key is `last`
unfoldable pub unique_after : Str → List Record → List Record
unique_after last [] = []
unique_after last (r ∷ rs) =
    let same = str_eq last r.key in
    let rest = unique_after (if same then last else r.key) rs in if same then rest else r ∷ rest

unfoldable pub unique : List Record → List Record
unique [] = []
unique (r ∷ rs) = r ∷ unique_after r.key rs

abbrev pub is_tombstone : RecordType → Bool
is_tombstone RecordType.value = false
is_tombstone RecordType.tombstone = true

-- `std::erase_if` of the tombstones
unfoldable pub erase_tombstones : List Record → List Record
erase_tombstones [] = []
erase_tombstones (r ∷ rs) =
    let rest = erase_tombstones rs in if is_tombstone r.type then rest else r ∷ rest

-- `latestVisiblePerKey`
unfoldable pub latest_visible_per_key : List Record → List Record
latest_visible_per_key rs = erase_tombstones (unique rs)
