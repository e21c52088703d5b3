-- ===== src/Compaction/Pieces.antt =====
-- Each slice of a compaction is a table that can be written: it is sorted and has a record, and its
-- records come from the input tables.
use lsmtree.Base.{
  ℕ, ◌+◌, ◌%◌, ◌^◌, ◌≡◌, ◌≢◌, refl, List, [], ◌∷◌, ◌++◌, leb, ◌==◌, ◌||◌, All, All-intro, All-In,
  In, inl, inr, Bool-cases, ==_iff,
}
use lsmtree.Compaction.{
  next_has_key, slice_loop, compaction_slices, compacted_records, smallest_active_snapshot,
}
use lsmtree.Merge.Queue.{Sources, merge_all}
use lsmtree.Merge.Queue.Loop.{concat}
use lsmtree.Merge.Queue.Members.{In-merge_all}
use lsmtree.Merge.Retain.{All-retain_for_compaction}
use lsmtree.Record.{Record, encoded_record_size}
use lsmtree.Record.Sorted.{IsSorted, Precedes}

-- What a compaction writes, its sources hold.
pub In-compacted_records :
    (snapshots : List ℕ) (last_seq : ℕ) (ss : Sources) (r : Record)
    → In r (compacted_records snapshots last_seq ss)
    → In r (concat ss)
unfolding compacted_records
In-compacted_records snapshots last_seq ss r i = (In-merge_all r ss).0 (
    All-In (λ q. In q (merge_all ss)) (compacted_records snapshots last_seq ss) r
      (All-retain_for_compaction (λ q. In q (merge_all ss))
        (smallest_active_snapshot snapshots last_seq) (merge_all ss)
        (All-intro (λ q. In q (merge_all ss)) (merge_all ss) (λ q j. j)))
      i)

snoc_some : (rs : List Record) (r : Record) → rs ++ r ∷ [] ≢ []
snoc_some [] r e = cc
snoc_some (q ∷ rs) r e = cc

slice_loop_some :
    (threshold bytes : ℕ) (slice rs : List Record)
    → (slice ≡ [] → bytes ≡ 0)
    → All (λ s. s ≢ []) (slice_loop threshold bytes slice rs)
unfolding slice_loop
slice_loop_some threshold bytes slice [] f = elim (Bool-cases (bytes == 0)) [
  | inl e ↦ rw e tt
  | inr e ↦ rw e (λ none. cc ((==_iff bytes 0).1 (f none), e), tt)
]
slice_loop_some threshold bytes slice (r ∷ rs) f =
    let bytes' = (bytes + encoded_record_size r) % 2 ^ 64 in
    elim (Bool-cases (leb bytes' threshold || next_has_key r rs)) [
      | inl e ↦ rw e (
          slice_loop_some threshold bytes' (slice ++ r ∷ []) rs
            (λ none. absurd (snoc_some slice r none)))
      | inr e ↦ rw e (snoc_some slice r, slice_loop_some threshold 0 [] rs (λ none. refl))
    ]

-- No slice is empty.
pub compaction_slices_some :
    (threshold : ℕ) (rs : List Record) → All (λ s. s ≢ []) (compaction_slices threshold rs)
unfolding compaction_slices
compaction_slices_some threshold rs = slice_loop_some threshold 0 [] rs (λ none. refl)

All_front : (P : Record → Type 0) (xs ys : List Record) → All P (xs ++ ys) → All P xs
All_front P [] ys a = tt
All_front P (x ∷ xs) ys a = (a.0, All_front P xs ys a.1)

pub All_back : (P : Record → Type 0) (xs ys : List Record) → All P (xs ++ ys) → All P ys
All_back P [] ys a = a
All_back P (x ∷ xs) ys a = All_back P xs ys a.1

pub IsSorted_front : (xs ys : List Record) → IsSorted (xs ++ ys) → IsSorted xs
IsSorted_front [] ys h = tt
IsSorted_front (x ∷ xs) ys h = (All_front (Precedes x) xs ys h.0, IsSorted_front xs ys h.1)

IsSorted_back : (xs ys : List Record) → IsSorted (xs ++ ys) → IsSorted ys
IsSorted_back [] ys h = h
IsSorted_back (x ∷ xs) ys h = IsSorted_back xs ys h.1

-- The parts of a sorted list are sorted, and what holds of all records holds of those of each part.
pub pieces :
    (P : Record → Type 0) (slices : Sources)
    → IsSorted (concat slices)
    → All P (concat slices)
    → All (λ s. s ≢ []) slices
    → All (λ s. IsSorted s × (s ≢ []) × All P s) slices
unfolding concat
pieces P [] h a n = tt
pieces P (s ∷ slices) h a n = (
  (IsSorted_front s (concat slices) h, n.0, All_front P s (concat slices) a),
  pieces P slices (IsSorted_back s (concat slices) h) (All_back P s (concat slices) a) n.1,
)
