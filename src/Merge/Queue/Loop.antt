-- ===== src/Merge/Queue/Loop.antt =====
-- The queue holds the current record of every source that has one.
use lsmtree.Base.{
  ℕ, zero, suc, ◌+◌, ◌≡◌, ◌≢◌, ◌<◌, refl, sym, ap, subst, ◌∙◌, List, [], ◌∷◌, ◌++◌, get_or, set,
  length, arith, All, All_map, In, inl, inr,
}
use native.Mathlib.Decide.{ℕ_discrete}
use mathlib.Core.List.Perm
use mathlib.Core.List.{Perm, perm_middle}
use lsmtree.Record.{Record}
use lsmtree.Merge.Queue.{
  MergeItem, Sources, item, enqueue_source, enqueue_current, enqueue_all, pop_top, total,
}
use lsmtree.Merge.Queue.Order.{Distinct, pop_top-All, pop_top-In, pop_top-Distinct}

-- All records of the sources.
unfoldable pub concat : Sources → List Record
concat [] = []
concat (source ∷ sources) = source ++ concat sources

pub get_or-set_self :
    (ss : Sources) (i : ℕ) (r : Record) (rs new : List Record)
    → get_or ss i [] ≡ r ∷ rs
    → get_or (set ss i new) i [] ≡ new
get_or-set_self [] i r rs new e = cc
get_or-set_self (s ∷ ss) zero r rs new e = refl
get_or-set_self (s ∷ ss) (suc i) r rs new e = get_or-set_self ss i r rs new e

pub get_or-set_ne :
    (ss : Sources) (i j : ℕ) (new : List Record)
    → j ≢ i
    → get_or (set ss i new) j [] ≡ get_or ss j []
get_or-set_ne [] i j new ne = refl
get_or-set_ne (s ∷ ss) zero zero new ne = absurd (ne refl)
get_or-set_ne (s ∷ ss) zero (suc j) new ne = refl
get_or-set_ne (s ∷ ss) (suc i) zero new ne = refl
get_or-set_ne (s ∷ ss) (suc i) (suc j) new ne = get_or-set_ne ss i j new (λ e. ne (ap suc e))

pub concat-perm :
    (ss : Sources) (i : ℕ) (r : Record) (rs : List Record)
    → get_or ss i [] ≡ r ∷ rs
    → Perm (r ∷ concat (set ss i rs)) (concat ss)
unfolding concat
concat-perm [] i r rs e = cc
concat-perm (s ∷ ss) zero r rs e =
    subst (λ t. Perm (r ∷ (rs ++ concat ss)) (t ++ concat ss)) (sym e) (Perm.refl _)
concat-perm (s ∷ ss) (suc i) r rs e =
    Perm.trans (Perm.symm (perm_middle s (concat (set ss i rs))))
      (Perm.append_left s (concat-perm ss i r rs e))

pub total-set :
    (ss : Sources) (i : ℕ) (r : Record) (rs : List Record)
    → get_or ss i [] ≡ r ∷ rs
    → total ss ≡ suc (total (set ss i rs))
unfolding total
total-set [] i r rs e = cc
total-set (s ∷ ss) zero r rs e = omega (arith, ap length e)
total-set (s ∷ ss) (suc i) r rs e = omega (arith, total-set ss i r rs e)

-- `it` stands for the current record of its source.
abbrev pub IsHead : Sources → MergeItem → Type 0
IsHead ss it =
    (r : Record) × (rs : List Record) × (get_or ss it.source_index [] ≡ r ∷ rs)
    × (it ≡ item r it.source_index)

pub record Tracks (queue : List MergeItem) (ss : Sources) : Type 0 where
  pub heads : All (IsHead ss) queue
  pub complete :
      (i : ℕ) (r : Record) (rs : List Record) → get_or ss i [] ≡ r ∷ rs → In (item r i) queue
  pub distinct : Distinct queue

module _ (x : MergeItem) (q : List MergeItem) (ss : Sources) (t : Tracks (x ∷ q) ss) where
  abbrev winner : MergeItem
  winner = (pop_top x q).0

  abbrev others : List MergeItem
  others = (pop_top x q).1

  pub winner-IsHead : IsHead ss winner
  winner-IsHead = (pop_top-All (IsHead ss) x q t.heads.0 t.heads.1).0

  module _ (r : Record) (rs : List Record)
      (e : get_or ss (pop_top x q).0.source_index [] ≡ r ∷ rs) where
    abbrev index : ℕ
    index = (pop_top x q).0.source_index

    others-heads :
        (its : List MergeItem)
        → All (IsHead ss) its
        → All (λ y. y.source_index ≢ index) its
        → All (IsHead (set ss index rs)) its
    others-heads [] h d = tt
    others-heads (it ∷ its) ((r', rs', g, f), h) (ne, d) =
        ((r', rs', get_or-set_ne ss index it.source_index rs ne ∙ g, f), others-heads its h d)

    others-complete :
        (i : ℕ) (r' : Record) (rs' : List Record)
        → i ≢ index
        → get_or (set ss index rs) i [] ≡ r' ∷ rs'
        → In (item r' i) others
    others-complete i r' rs' ne g =
        elim (pop_top-In (item r' i) x q
          (t.complete i r' rs' (sym (get_or-set_ne ss index i rs ne) ∙ g))) [
            | inl same ↦ absurd (ne (ap (λ (it : MergeItem). it.source_index) same))
            | inr i' ↦ i'
          ]

    others-Distinct : All (λ y. y.source_index ≢ index) others × Distinct others
    others-Distinct = pop_top-Distinct x q t.distinct

    new_heads : All (IsHead (set ss index rs)) others
    new_heads =
        others-heads others (pop_top-All (IsHead ss) x q t.heads.0 t.heads.1).1 others-Distinct.0

    -- At the winner's source the next record, if there is one, is at the head.
    at_index :
        (i : ℕ) (r' : Record) (rs' : List Record)
        → i ≡ index
        → get_or (set ss index rs) i [] ≡ r' ∷ rs'
        → rs ≡ r' ∷ rs'
    at_index i r' rs' same g =
        sym (get_or-set_self ss index r rs rs e)
        ∙ ap (λ j. get_or (set ss index rs) j []) (sym same)
        ∙ g

    Tracks-source :
        (new : List Record) → rs ≡ new → Tracks (enqueue_source others new index) (set ss index rs)
    Tracks-source [] en = record {
      heads = new_heads;
      complete = λ i r' rs' g. elim (ℕ_discrete i index) [
        | yes same ↦ absurd (cc (at_index i r' rs' same g))
        | no ne ↦ others-complete i r' rs' ne g
      ];
      distinct = others-Distinct.1;
    }
    Tracks-source (a ∷ as') en = record {
      heads = ((a, as', get_or-set_self ss index r rs rs e ∙ en, refl), new_heads);
      complete = λ i r' rs' g. elim (ℕ_discrete i index) [
        | yes same ↦ inl (cc (at_index i r' rs' same g))
        | no ne ↦ inr (others-complete i r' rs' ne g)
      ];
      distinct = others-Distinct;
    }

    -- One round keeps the queue in step with the sources.
    pub Tracks-step : Tracks (enqueue_current others (set ss index rs) index) (set ss index rs)
    unfolding enqueue_current
    Tracks-step = rw (get_or-set_self ss index r rs rs e) (Tracks-source rs refl)

-- Filling the queue from an index on.
fill_heads :
    (queue : List MergeItem) (n : ℕ) (ss whole : Sources)
    → ((i : ℕ) → get_or whole (n + i) [] ≡ get_or ss i [])
    → All (IsHead whole) queue
    → All (IsHead whole) (enqueue_all queue n ss)
unfolding enqueue_all
fill_heads queue n [] whole at h = h
fill_heads queue n ([] ∷ ss) whole at h =
    fill_heads queue (suc n) ss whole (λ i. ap (λ j. get_or whole j []) (omega arith) ∙ at (suc i))
      h
fill_heads queue n ((r ∷ rs) ∷ ss) whole at h =
    fill_heads (item r n ∷ queue) (suc n) ss whole
      (λ i. ap (λ j. get_or whole j []) {y = n + suc i} (omega arith) ∙ at (suc i))
      ((r, rs, ap (λ j. get_or whole j []) {y = n + 0} (omega arith) ∙ at 0, refl), h)

fill_keeps :
    (it : MergeItem) (queue : List MergeItem) (n : ℕ) (ss : Sources)
    → In it queue
    → In it (enqueue_all queue n ss)
unfolding enqueue_all
fill_keeps it queue n [] i = i
fill_keeps it queue n ([] ∷ ss) i = fill_keeps it queue (suc n) ss i
fill_keeps it queue n ((r ∷ rs) ∷ ss) i = fill_keeps it (item r n ∷ queue) (suc n) ss (inr i)

fill_complete :
    (queue : List MergeItem) (n : ℕ) (ss : Sources) (i : ℕ) (r : Record) (rs : List Record)
    → get_or ss i [] ≡ r ∷ rs
    → In (item r (n + i)) (enqueue_all queue n ss)
unfolding enqueue_all
fill_complete queue n [] i r rs e = cc
fill_complete queue n ([] ∷ ss) zero r rs e = cc
fill_complete queue n ((a ∷ as') ∷ ss) zero r rs e =
    fill_keeps (item r (n + 0)) (item a n ∷ queue) (suc n) ss (inl (ground arith))
fill_complete queue n ([] ∷ ss) (suc i) r rs e =
    subst (λ j. In (item r j) (enqueue_all queue (suc n) ss)) {x = suc n + i} (omega arith)
      (fill_complete queue (suc n) ss i r rs e)
fill_complete queue n ((a ∷ as') ∷ ss) (suc i) r rs e =
    subst (λ j. In (item r j) (enqueue_all (item a n ∷ queue) (suc n) ss)) {x = suc n + i}
      (omega arith) (fill_complete (item a n ∷ queue) (suc n) ss i r rs e)

fill-Distinct :
    (queue : List MergeItem) (n : ℕ) (ss : Sources)
    → All (λ y. y.source_index < n) queue
    → Distinct queue
    → Distinct (enqueue_all queue n ss)
unfolding enqueue_all
fill-Distinct queue n [] b d = d
fill-Distinct queue n ([] ∷ ss) b d =
    fill-Distinct queue (suc n) ss
      (All_map (λ y. y.source_index < n) (λ y. y.source_index < suc n) queue (λ y h. omega arith) b)
      d
fill-Distinct queue n ((r ∷ rs) ∷ ss) b d =
    fill-Distinct (item r n ∷ queue) (suc n) ss
      (
        omega arith,
        All_map (λ y. y.source_index < n) (λ y. y.source_index < suc n) queue (λ y h. omega arith)
            b,
      )
      (All_map (λ y. y.source_index < n) (λ y. y.source_index ≢ n) queue (λ y h. omega arith) b, d)

-- The queue that the first loop fills is in step with the sources.
pub Tracks-enqueue_all : (ss : Sources) → Tracks (enqueue_all [] 0 ss) ss
Tracks-enqueue_all ss = record {
  heads = fill_heads [] 0 ss ss (λ i. ap (λ j. get_or ss j []) (omega arith)) tt;
  complete = λ i r rs e.
      subst (λ j. In (item r j) (enqueue_all [] 0 ss)) {x = 0 + i} (omega arith)
        (fill_complete [] 0 ss i r rs e);
  distinct = fill-Distinct [] 0 ss tt tt;
}
