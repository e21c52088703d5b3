-- ===== src/Merge/Queue/Sorted.antt =====
-- `mergeAll` returns its records in the order of the keys.
use lsmtree.Base.{
  All-intro, ℕ, zero, suc, ◌≡◌, ◌≢◌, ◌≤◌, ◌<◌, refl, sym, subst, List, [], ◌∷◌, get_or, set, arith,
  All, In, inl, inr, All-In, In-append,
}
use mathlib.Core.List.Perm
use mathlib.Core.HLevel.{¬_prop}
use mathlib.Core.List.{Pairwise, Pairwise-cons, Mem, mem-cons_self, mem-cons_of_mem}
use lsmtree.Record.{Record}
use lsmtree.Record.Sorted.{IsSorted, Precedes}
use lsmtree.Merge.Queue.{
  MergeItem, Sources, item, enqueue_current, enqueue_all, pop_top, total, merge_loop, merge_all,
}
use lsmtree.Merge.Queue.Order.{Leads, Leads-trans, pop_top-In, pop_top-Leads}
use lsmtree.Merge.Queue.Loop.{concat, Tracks, Tracks-step, Tracks-enqueue_all, winner-IsHead}
use lsmtree.Merge.Queue.Sound.{
  merge_loop-step, merge_loop-zero, merge_loop-nil, merge_all-perm, In-merge_loop, In-concat-set,
}

-- `a` may stand before `b` in what is merged.
abbrev pub RecordLeads : Record → Record → Type 0
RecordLeads a b = Leads (item a 0) (item b 0)

abbrev pub Ordered : List Record → Type 0
Ordered [] = Unit
Ordered (r ∷ rs) = All (RecordLeads r) rs × Ordered rs

pub leads_of_Precedes : (a b : Record) → Precedes a b → RecordLeads a b
leads_of_Precedes a b (inl p) = inl p
leads_of_Precedes a b (inr p) = inr (p.0, omega arith)

-- What leads the head of every sorted source leads every record.
leads_all :
    (w d : Record) (ss : Sources)
    → All IsSorted ss
    → ((i : ℕ) (r : Record) (rs : List Record) → get_or ss i [] ≡ r ∷ rs → RecordLeads w r)
    → In d (concat ss)
    → RecordLeads w d
unfolding concat
leads_all w d [] h l k = absurd k
leads_all w d ([] ∷ ss) h l k = leads_all w d ss h.1 (λ i. l (suc i)) k
leads_all w d ((r ∷ rs) ∷ ss) h l (inl same) =
    subst (λ (z : Record). RecordLeads w z) (sym same) (l 0 r rs refl)
leads_all w d ((r ∷ rs) ∷ ss) h l (inr k) = elim (In-append d rs (concat ss) k) [
  | inl j ↦
      Leads-trans (item w 0) (item r 0) (item d 0) (l 0 r rs refl)
        (leads_of_Precedes r d (All-In (Precedes r) rs d h.0.0 j))
  | inr j ↦ leads_all w d ss h.1 (λ i. l (suc i)) j
]

-- The winner's record leads the current record of every source.
winner-Leads :
    (x : MergeItem) (q : List MergeItem) (ss : Sources) (t : Tracks (x ∷ q) ss)
    → (i : ℕ) (r : Record) (rs : List Record) → get_or ss i [] ≡ r ∷ rs
    → Leads (pop_top x q).0 (item r i)
winner-Leads x q ss t i r rs e = elim (pop_top-In (item r i) x q (t.complete i r rs e)) [
  | inl same ↦ subst (λ (z : MergeItem). Leads z (item r i)) same (inr (refl, omega arith))
  | inr k ↦ All-In (Leads (pop_top x q).0) (pop_top x q).1 (item r i) (pop_top-Leads x q).1 k
]

All-set :
    (P : List Record → Type 0) (ss : Sources) (i : ℕ) (new : List Record)
    → P new
    → All P ss
    → All P (set ss i new)
All-set P [] i new p a = tt
All-set P (s ∷ ss) zero new p a = (p, a.1)
All-set P (s ∷ ss) (suc i) new p a = (a.0, All-set P ss i new p a.1)

tail-IsSorted :
    (ss : Sources) (i : ℕ) (r : Record) (rs : List Record)
    → get_or ss i [] ≡ r ∷ rs
    → All IsSorted ss
    → IsSorted rs
tail-IsSorted [] i r rs e a = cc
tail-IsSorted (s ∷ ss) zero r rs e a = (subst IsSorted e a.0).1
tail-IsSorted (s ∷ ss) (suc i) r rs e a = tail-IsSorted ss i r rs e a.1

merge_loop-Ordered :
    (fuel : ℕ) (q : List MergeItem) (ss : Sources)
    → Tracks q ss
    → All IsSorted ss
    → Ordered (merge_loop fuel q ss)
merge_loop-Ordered zero q ss t a = rw (merge_loop-zero q ss) tt
merge_loop-Ordered (suc fuel) [] ss t a = rw (merge_loop-nil fuel ss) tt
merge_loop-Ordered (suc fuel) (x ∷ q) ss t a =
    let (r, rs, e, f) = winner-IsHead x q ss t in
    let i = (pop_top x q).0.source_index in
    let next = Tracks-step x q ss t r rs e in
    let q' = enqueue_current (pop_top x q).1 (set ss i rs) i in
    subst Ordered (sym (merge_loop-step fuel x q ss r rs e)) (
      All-intro (RecordLeads r) (merge_loop fuel q' (set ss i rs)) (λ d k.
          leads_all r d ss a
            (λ j h hs g.
              subst (λ (z : MergeItem). Leads z (item h j)) f (winner-Leads x q ss t j h hs g))
            (In-concat-set d ss i r rs e (In-merge_loop d fuel q' (set ss i rs) next k))),
      merge_loop-Ordered fuel q' (set ss i rs) next
          (All-set IsSorted ss i rs (tail-IsSorted ss i r rs e a) a),
    )

-- The merge of sorted sources is in order: by key, and from new to old within a key.
pub merge_all-Ordered : (ss : Sources) → All IsSorted ss → Ordered (merge_all ss)
unfolding merge_all
merge_all-Ordered ss a =
    merge_loop-Ordered (total ss) (enqueue_all [] 0 ss) ss (Tracks-enqueue_all ss) a

-- Two records that no sequence number is shared by.
abbrev pub Apart : Record → Record → Type 0
Apart a b = ¬ ((a.key ≡ b.key) × (a.seq ≡ b.seq))

In→Mem : (d : Record) (rs : List Record) → In d rs → Mem d rs
In→Mem d [] i = absurd i
In→Mem d (r ∷ rs) (inl e) = subst (λ z. Mem z (r ∷ rs)) (sym e) mem-cons_self
In→Mem d (r ∷ rs) (inr i) = mem-cons_of_mem r (In→Mem d rs i)

lt_of_le_of_ne : (m n : ℕ) → m ≤ n → m ≢ n → m < n
lt_of_le_of_ne m n h k = omega arith

strict : (a b : Record) → RecordLeads a b → Apart a b → Precedes a b
strict a b (inl p) h = inl p
strict a b (inr p) h = inr (p.0, lt_of_le_of_ne b.seq a.seq p.1 (λ e. h (p.0, sym e)))

IsSorted-of_Ordered : (rs : List Record) → Ordered rs → Pairwise Apart rs → IsSorted rs
IsSorted-of_Ordered [] o p = tt
IsSorted-of_Ordered (r ∷ rs) o p =
    let (first, later) = Pairwise-cons.0 p in
    (
      All-intro (Precedes r) rs
          (λ d i. strict r d (All-In (RecordLeads r) rs d o.0 i) (first d (In→Mem d rs i))),
      IsSorted-of_Ordered rs o.1 later,
    )

-- The merge of sorted sources, where no two records share key and sequence, is sorted: by key, and
-- strictly newest first within a key.
pub merge_all-IsSorted :
    (ss : Sources) → All IsSorted ss → Pairwise Apart (concat ss) → IsSorted (merge_all ss)
merge_all-IsSorted ss a p = IsSorted-of_Ordered (merge_all ss) (merge_all-Ordered ss a) (
    Perm.pairwise (λ a b. ¬_prop) (λ a b h e. h (sym e.0, sym e.1)) (Perm.symm (merge_all-perm ss))
      p)
