-- ===== src/Merge/Queue/Sound.antt =====
-- `mergeAll` returns all records of its sources, and no others.
use lsmtree.Base.{
  ℕ, zero, suc, ◌≡◌, ◌≤◌, refl, sym, subst, List, [], ◌∷◌, ◌++◌, get_or, set, arith, In, inl, inr,
  In-append_left, In-append_right, In-append,
}
use mathlib.Core.List.Perm
use mathlib.Core.List.{Perm}
use lsmtree.Record.{Record}
use lsmtree.Merge.Queue.{
  MergeItem, Sources, enqueue_current, enqueue_all, pop_top, total, merge_loop, merge_all,
}
use lsmtree.Merge.Queue.Loop.{
  concat, concat-perm, total-set, Tracks, Tracks-step, Tracks-enqueue_all, winner-IsHead,
}

pub merge_loop-step :
    (fuel : ℕ) (x : MergeItem) (q : List MergeItem) (ss : Sources) (r : Record) (rs : List Record)
    → get_or ss (pop_top x q).0.source_index [] ≡ r ∷ rs
    → merge_loop (suc fuel) (x ∷ q) ss
      ≡ r
        ∷ merge_loop fuel
            (enqueue_current
              (pop_top x q).1
              (set ss (pop_top x q).0.source_index rs)
              (pop_top x q).0.source_index)
            (set ss (pop_top x q).0.source_index rs)
unfolding merge_loop
merge_loop-step fuel x q ss r rs e = rw (e, merge_loop)

pub merge_loop-zero : (q : List MergeItem) (ss : Sources) → merge_loop zero q ss ≡ []
unfolding merge_loop
merge_loop-zero q ss = refl

pub merge_loop-nil : (fuel : ℕ) (ss : Sources) → merge_loop (suc fuel) [] ss ≡ []
unfolding merge_loop
merge_loop-nil fuel ss = refl

pub concat-nil :
    (ss : Sources)
    → ((i : ℕ) (r : Record) (rs : List Record) → get_or ss i [] ≡ r ∷ rs → ⊥)
    → concat ss ≡ []
unfolding concat
concat-nil [] h = refl
concat-nil ([] ∷ ss) h = concat-nil ss (λ i. h (suc i))
concat-nil ((r ∷ rs) ∷ ss) h = absurd (h 0 r rs refl)

pub total-zero : (ss : Sources) → total ss ≤ 0 → concat ss ≡ []
unfolding concat total
total-zero [] h = refl
total-zero ([] ∷ ss) h = total-zero ss (omega arith)
total-zero ((r ∷ rs) ∷ ss) h = absurd (omega arith)

merge_loop-perm :
    (fuel : ℕ) (q : List MergeItem) (ss : Sources)
    → total ss ≤ fuel
    → Tracks q ss
    → Perm (merge_loop fuel q ss) (concat ss)
merge_loop-perm zero q ss h t = rw (merge_loop-zero q ss, total-zero ss h) (Perm.refl [])
merge_loop-perm (suc fuel) [] ss h t =
    rw (merge_loop-nil fuel ss, concat-nil ss t.complete) (Perm.refl [])
merge_loop-perm (suc fuel) (x ∷ q) ss h t =
    let (r, rs, e, f) = winner-IsHead x q ss t in
    let i = (pop_top x q).0.source_index in
    rw (merge_loop-step fuel x q ss r rs e) (
      Perm.trans
        (Perm.cons r (
          merge_loop-perm fuel (enqueue_current (pop_top x q).1 (set ss i rs) i) (set ss i rs)
            (omega (arith, total-set ss i r rs e)) (Tracks-step x q ss t r rs e)))
        (concat-perm ss i r rs e))

-- The merge gives the records of all its sources, each as often as they hold it, and no others.
pub merge_all-perm : (ss : Sources) → Perm (merge_all ss) (concat ss)
unfolding merge_all
merge_all-perm ss =
    merge_loop-perm (total ss) (enqueue_all [] 0 ss) ss (omega arith) (Tracks-enqueue_all ss)

pub In-concat-set :
    (d : Record) (ss : Sources) (i : ℕ) (r : Record) (rs : List Record)
    → get_or ss i [] ≡ r ∷ rs
    → In d (concat (set ss i rs))
    → In d (concat ss)
unfolding concat
In-concat-set d [] i r rs e k = cc
In-concat-set d (s ∷ ss) zero r rs e k = subst (λ t. In d (t ++ concat ss)) (sym e) (inr k)
In-concat-set d (s ∷ ss) (suc i) r rs e k = elim (In-append d s (concat (set ss i rs)) k) [
  | inl j ↦ In-append_left d s (concat ss) j
  | inr j ↦ In-append_right d s (concat ss) (In-concat-set d ss i r rs e j)
]

In-concat-head :
    (ss : Sources) (i : ℕ) (r : Record) (rs : List Record)
    → get_or ss i [] ≡ r ∷ rs
    → In r (concat ss)
unfolding concat
In-concat-head [] i r rs e = cc
In-concat-head (s ∷ ss) zero r rs e = subst (λ t. In r (t ++ concat ss)) (sym e) (inl refl)
In-concat-head (s ∷ ss) (suc i) r rs e =
    In-append_right r s (concat ss) (In-concat-head ss i r rs e)

pub In-merge_loop :
    (d : Record) (fuel : ℕ) (q : List MergeItem) (ss : Sources)
    → Tracks q ss
    → In d (merge_loop fuel q ss)
    → In d (concat ss)
In-merge_loop d zero q ss t k = absurd (unfold merge_loop in k)
In-merge_loop d (suc fuel) [] ss t k = absurd (unfold merge_loop in k)
In-merge_loop d (suc fuel) (x ∷ q) ss t k =
    let (r, rs, e, f) = winner-IsHead x q ss t in
    let i = (pop_top x q).0.source_index in
    let k' = subst (λ l. In d l) (merge_loop-step fuel x q ss r rs e) k in
    elim k' [
      | inl same ↦ subst (λ (z : Record). In z (concat ss)) (sym same) (In-concat-head ss i r rs e)
      | inr later ↦ In-concat-set d ss i r rs e (
          In-merge_loop d fuel (enqueue_current (pop_top x q).1 (set ss i rs) i) (set ss i rs)
            (Tracks-step x q ss t r rs e) later)
    ]
