-- ===== src/Merge/Queue/Members.antt =====
-- The merge holds the records of its sources and no others.
use lsmtree.Base.{
  ℕ, zero, suc, ◌≡◌, ◌↔◌, ◌⊎◌, ◌≤◌, subst, List, [], ◌∷◌, ◌++◌, get_or, set, In, inl, inr, arith,
  In-append_left, In-append_right, In-append,
}
use lsmtree.Record.{Record}
use lsmtree.Merge.Queue.{
  MergeItem, Sources, pop_top, enqueue_current, enqueue_all, total, merge_loop, merge_all,
}
use lsmtree.Merge.Queue.Loop.{
  concat, Tracks, Tracks-step, Tracks-enqueue_all, total-set, winner-IsHead,
}
use lsmtree.Merge.Queue.Sound.{merge_loop-step, In-merge_loop, total-zero, concat-nil}

In-concat-rest :
    (d : Record) (ss : Sources) (i : ℕ) (r : Record) (rs : List Record)
    → get_or ss i [] ≡ r ∷ rs
    → In d (concat ss)
    → (d ≡ r) ⊎ In d (concat (set ss i rs))
unfolding concat
In-concat-rest d [] i r rs e k = cc
In-concat-rest d (s ∷ ss) zero r rs e k = subst (λ t. In d (t ++ concat ss)) e k
In-concat-rest d (s ∷ ss) (suc i) r rs e k = elim (In-append d s (concat ss) k) [
  | inl j ↦ inr (In-append_left d s (concat (set ss i rs)) j)
  | inr j ↦ elim (In-concat-rest d ss i r rs e j) [
    | inl same ↦ inl same
    | inr later ↦ inr (In-append_right d s (concat (set ss i rs)) later)
  ]
]

merge_loop-In :
    (d : Record) (fuel : ℕ) (q : List MergeItem) (ss : Sources)
    → total ss ≤ fuel
    → Tracks q ss
    → In d (concat ss)
    → In d (merge_loop fuel q ss)
merge_loop-In d zero q ss h t k = absurd (subst (λ l. In d l) (total-zero ss h) k)
merge_loop-In d (suc fuel) [] ss h t k = absurd (subst (λ l. In d l) (concat-nil ss t.complete) k)
merge_loop-In d (suc fuel) (x ∷ q) ss h t k =
    let (r, rs, e, f) = winner-IsHead x q ss t in
    let i = (pop_top x q).0.source_index in
    rw (merge_loop-step fuel x q ss r rs e) (elim (In-concat-rest d ss i r rs e k) [
      | inl same ↦ inl same
      | inr later ↦ inr (
          merge_loop-In d fuel (enqueue_current (pop_top x q).1 (set ss i rs) i) (set ss i rs)
            (omega (arith, total-set ss i r rs e)) (Tracks-step x q ss t r rs e) later)
    ])

pub In-merge_all : (d : Record) (ss : Sources) → In d (merge_all ss) ↔ In d (concat ss)
unfolding merge_all
In-merge_all d ss = (
  In-merge_loop d (total ss) (enqueue_all [] 0 ss) ss (Tracks-enqueue_all ss),
  merge_loop-In d (total ss) (enqueue_all [] 0 ss) ss (omega arith) (Tracks-enqueue_all ss),
)
