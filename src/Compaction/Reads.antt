-- ===== src/Compaction/Reads.antt =====
-- A compaction answers every read that is still possible as its input tables did.
use lsmtree.Base.{ℕ, ◌≡◌, ◌≤◌, ◌↔◌, sym, ◌∙◌, List, some, All}
use lsmtree.Compaction.{smallest_active_snapshot, compacted_records}
use lsmtree.Merge.Queue.{Sources, merge_all}
use lsmtree.Merge.Queue.Loop.{concat}
use lsmtree.Merge.Queue.Members.{In-merge_all}
use lsmtree.Merge.Queue.Sorted.{merge_all-IsSorted}
use lsmtree.Merge.Retain.{visible-retain_for_compaction, retain_for_compaction-IsSorted}
use lsmtree.Record.{Record}
use lsmtree.Record.Latest.{visible-IsLatest, IsLatest-visible}
use lsmtree.Record.Sorted.{IsSorted}
use lsmtree.Record.Visible.{visible, IsLatest}
use lsmtree.Scan.Sublists.{AreApart, AreApart-Pairwise}
use lsmtree.Text.{Str}

-- The newest record of a merge is the newest of its sources.
IsLatest-merge_all :
    (k : Str) (s : ℕ) (ss : Sources) (r : Record)
    → IsLatest k s (merge_all ss) r ↔ IsLatest k s (concat ss) r
IsLatest-merge_all k s ss r = (
  λ l. record {
    stored = (In-merge_all r ss).0 l.stored;
    same_key = l.same_key;
    in_view = l.in_view;
    newest = λ q i. l.newest q ((In-merge_all q ss).1 i);
  },
  λ l. record {
    stored = (In-merge_all r ss).1 l.stored;
    same_key = l.same_key;
    in_view = l.in_view;
    newest = λ q i. l.newest q ((In-merge_all q ss).0 i);
  },
)

-- For a read at or above the smallest active snapshot, or the last sequence where there is none, the
-- records that a compaction writes give a record exactly if it is the newest in view of all that the
-- sorted input tables hold under its key, where no two records share key and sequence.
pub visible-compacted_records :
    (snapshots : List ℕ) (last_seq : ℕ) (ss : Sources) (k : Str) (s : ℕ) (r : Record)
    → All IsSorted ss
    → AreApart (concat ss)
    → smallest_active_snapshot snapshots last_seq ≤ s
    → (visible k s (compacted_records snapshots last_seq ss) ≡ some r) ↔ IsLatest k s (concat ss) r
unfolding compacted_records
visible-compacted_records snapshots last_seq ss k s r a p h =
    let sorted = merge_all-IsSorted ss a (AreApart-Pairwise (concat ss) p) in
    let same =
      visible-retain_for_compaction k s (smallest_active_snapshot snapshots last_seq) (merge_all ss)
        h sorted in
    let (out, into) = IsLatest-merge_all k s ss r in
    (
      λ e. out (visible-IsLatest k s (merge_all ss) r (sym same ∙ e)),
      λ l. same ∙ IsLatest-visible k s (merge_all ss) r sorted (into l),
    )

-- What a compaction writes is sorted.
pub compacted_records-IsSorted :
    (snapshots : List ℕ) (last_seq : ℕ) (ss : Sources)
    → All IsSorted ss
    → AreApart (concat ss)
    → IsSorted (compacted_records snapshots last_seq ss)
unfolding compacted_records
compacted_records-IsSorted snapshots last_seq ss a p =
    retain_for_compaction-IsSorted (smallest_active_snapshot snapshots last_seq) (merge_all ss)
      (merge_all-IsSorted ss a (AreApart-Pairwise (concat ss) p))
