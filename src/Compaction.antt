-- ===== src/Compaction.antt =====
-- The records of a compaction, src/DB.cpp: what `compactRange` keeps of its input tables, and how
-- `writeCompactionOutput` cuts it into tables.
pub mod Slices
pub mod Reads
pub mod Pieces
use lsmtree.Base.{
  ℕ, zero, suc, ◌+◌, ◌%◌, ◌^◌, List, [], ◌∷◌, ◌++◌, leb, ltb, not, ◌==◌, ◌||◌, if◌then◌else◌, Bool,
  true, false, min,
}
use lsmtree.Merge.{retain_for_compaction}
use lsmtree.Merge.Queue.{Sources, merge_all}
use lsmtree.Record.{Record, encoded_record_size}
use lsmtree.Text.{Str, str_eq}

-- `smallestActiveSnapshot`, of a multiset in ascending order
abbrev pub smallest_active_snapshot : List ℕ → ℕ → ℕ
smallest_active_snapshot [] last_seq = last_seq
smallest_active_snapshot (s ∷ snapshots) last_seq = s

-- The records that `compactRange` writes, from those of its input tables.
unfoldable pub compacted_records : List ℕ → ℕ → Sources → List Record
compacted_records snapshots last_seq sources =
    retain_for_compaction (smallest_active_snapshot snapshots last_seq) (merge_all sources)

-- Whether a next record has the key of `r`.
abbrev pub next_has_key : Record → List Record → Bool
next_has_key r [] = false
next_has_key r (q ∷ rs) = str_eq r.key q.key

-- The loop of `writeCompactionOutput`, from the bytes and the records of the current slice.
unfoldable pub slice_loop : ℕ → ℕ → List Record → List Record → List (List Record)
slice_loop threshold bytes slice [] = if bytes == 0 then [] else slice ∷ []
slice_loop threshold bytes slice (r ∷ rs) =
    let bytes' = (bytes + encoded_record_size r) % 2 ^ 64 in
    let slice' = slice ++ r ∷ [] in
    let goes_on = leb bytes' threshold || next_has_key r rs in
    let rest =
      slice_loop threshold (if goes_on then bytes' else 0) (if goes_on then slice' else []) rs in
    if goes_on then rest else slice' ∷ rest

-- The slices that `writeCompactionOutput` writes as one table each.
unfoldable pub compaction_slices : ℕ → List Record → List (List Record)
compaction_slices threshold records = slice_loop threshold 0 [] records
