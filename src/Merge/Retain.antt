-- ===== src/Merge/Retain.antt =====
-- Compaction drops only records that no read at or above the oldest snapshot can see.
use lsmtree.Base.{
  ℕ, ◌≡◌, ◌≤◌, ◌≢◌, ◌⊎◌, refl, sym, subst, ◌∙◌, All_map, List, [], ◌∷◌, ltb, not, if◌then◌else◌,
  Bool, true, false, ◌||◌, ◌&&◌, arith, All, inl, inr, Bool-cases,
}
use lsmtree.Record.{Record}
use lsmtree.Record.Visible.{visible}
use lsmtree.Record.Sorted.{IsSorted, Precedes, better-visible, all_past}
use lsmtree.Text.{Str, str_eq}
use lsmtree.Text.Order.{compare_str→eq, compare_str_refl, Before, Before-ne}
use lsmtree.Merge.{retain_loop, retain_for_compaction}

All-retain_loop :
    (P : Record → Type 0) (current : Str) (kept : Bool) (oldest : ℕ) (rs : List Record)
    → All P rs
    → All P (retain_loop current kept oldest rs)
unfolding retain_loop
All-retain_loop P current kept oldest [] a = tt
All-retain_loop P current kept oldest (r ∷ rs) a =
    let same = str_eq r.key current in
    let current' = if same then current else r.key in
    let kept' = if same then kept else false in
    let above = ltb oldest r.seq in
    let later = All-retain_loop P current' (if above then kept' else true) oldest rs a.1 in
    elim (Bool-cases (above || not kept')) [ inl e ↦ rw e (a.0, later) | inr e ↦ rw e later ]

retain_loop-IsSorted :
    (current : Str) (kept : Bool) (oldest : ℕ) (rs : List Record)
    → IsSorted rs
    → IsSorted (retain_loop current kept oldest rs)
unfolding retain_loop
retain_loop-IsSorted current kept oldest [] h = tt
retain_loop-IsSorted current kept oldest (r ∷ rs) h =
    let same = str_eq r.key current in
    let current' = if same then current else r.key in
    let kept' = if same then kept else false in
    let above = ltb oldest r.seq in
    let next = if above then kept' else true in
    let later = retain_loop-IsSorted current' next oldest rs h.1 in
    elim (Bool-cases (above || not kept')) [
      | inl e ↦ rw e (All-retain_loop (Precedes r) current' next oldest rs h.0, later)
      | inr e ↦ rw e later
    ]

-- A key whose boundary record has not been kept yet is answered as before.
visible-retain_loop :
    (k : Str) (s : ℕ) (current : Str) (kept : Bool) (oldest : ℕ) (rs : List Record)
    → oldest ≤ s
    → (kept && str_eq k current) ≡ false
    → IsSorted rs
    → visible k s (retain_loop current kept oldest rs) ≡ visible k s rs
unfolding retain_loop visible
visible-retain_loop k s current kept oldest [] o e h = refl
visible-retain_loop k s current kept oldest (r ∷ rs) o e h =
    let same = str_eq r.key current in
    let current' = if same then current else r.key in
    let kept' = if same then kept else false in
    let above = ltb oldest r.seq in
    let next = if above then kept' else true in
    ground (
      arith,
      visible-retain_loop k s current' next oldest rs o,
      compare_str→eq r.key current,
      compare_str→eq r.key k,
      compare_str→eq k current,
      compare_str→eq k r.key,
      compare_str_refl k,
      better-visible k s r rs,
      better-visible k s r (retain_loop current' next oldest rs),
      All-retain_loop (Precedes r) current' next oldest rs,
    )

-- What `retainForCompaction` keeps of sorted records answers every read at or above the snapshot
-- sequence as the records did.
pub visible-retain_for_compaction :
    (k : Str) (s oldest : ℕ) (rs : List Record)
    → oldest ≤ s
    → IsSorted rs
    → visible k s (retain_for_compaction oldest rs) ≡ visible k s rs
unfolding retain_for_compaction
visible-retain_for_compaction k s oldest [] o h = refl
visible-retain_for_compaction k s oldest (r ∷ rs) o h =
    visible-retain_loop k s r.key false oldest (r ∷ rs) o refl h

pub retain_for_compaction-IsSorted :
    (oldest : ℕ) (rs : List Record) → IsSorted rs → IsSorted (retain_for_compaction oldest rs)
unfolding retain_for_compaction
retain_for_compaction-IsSorted oldest [] h = tt
retain_for_compaction-IsSorted oldest (r ∷ rs) h =
    retain_loop-IsSorted r.key false oldest (r ∷ rs) h

pub All-retain_for_compaction :
    (P : Record → Type 0) (oldest : ℕ) (rs : List Record)
    → All P rs
    → All P (retain_for_compaction oldest rs)
unfolding retain_for_compaction
All-retain_for_compaction P oldest [] a = tt
All-retain_for_compaction P oldest (r ∷ rs) a = All-retain_loop P r.key false oldest (r ∷ rs) a

-- Behind a record that only the oldest reads need, no record of its key is left.
abbrev pub OneBoundary : ℕ → List Record → Type 0
OneBoundary oldest [] = Unit
OneBoundary oldest (r ∷ rs) = (r.seq ≤ oldest → All (λ q. q.key ≢ r.key) rs) × OneBoundary oldest rs

-- Once the boundary of the current key has been kept, no record of that key at or below the oldest
-- snapshot follows; and all that follow the boundary in order are at or below it.
no_more :
    (current : Str) (oldest : ℕ) (rs : List Record)
    → All (λ q. Before current q.key ⊎ ((q.key ≡ current) × (q.seq ≤ oldest))) rs
    → IsSorted rs
    → All (λ q. q.key ≢ current) (retain_loop current true oldest rs)
unfolding retain_loop
no_more current oldest [] a h = tt
no_more current oldest (r ∷ rs) (inr (e, low), a) h =
    ground (arith, compare_str_refl current, no_more current oldest rs)
no_more current oldest (r ∷ rs) (inl b, a) h =
    All-retain_loop (λ q. q.key ≢ current) current true oldest (r ∷ rs)
      (All_map (λ q. Before current q.key) (λ q. q.key ≢ current) (r ∷ rs)
        (λ q. Before-ne current q.key) (b, all_past current r rs b h.0))

low_behind :
    (current : Str) (oldest : ℕ) (r : Record) (rs : List Record)
    → r.key ≡ current
    → r.seq ≤ oldest
    → All (Precedes r) rs
    → All (λ q. Before current q.key ⊎ ((q.key ≡ current) × (q.seq ≤ oldest))) rs
low_behind current oldest r [] e l a = tt
low_behind current oldest r (q ∷ rs) e l (inl b, a) =
    (inl (subst (λ k. Before k q.key) e b), low_behind current oldest r rs e l a)
low_behind current oldest r (q ∷ rs) e l (inr (f, n), a) =
    (inr (sym f ∙ e, omega arith), low_behind current oldest r rs e l a)

retain_loop-OneBoundary :
    (current : Str) (kept : Bool) (oldest : ℕ) (rs : List Record)
    → IsSorted rs
    → OneBoundary oldest (retain_loop current kept oldest rs)
unfolding retain_loop
retain_loop-OneBoundary current kept oldest [] h = tt
retain_loop-OneBoundary current kept oldest (r ∷ rs) h =
    let same = str_eq r.key current in
    let current' = if same then current else r.key in
    let kept' = if same then kept else false in
    let above = ltb oldest r.seq in
    let next = if above then kept' else true in
    let later = retain_loop-OneBoundary current' next oldest rs h.1 in
    let current_is : r.key ≡ current' = ground (arith, compare_str→eq r.key current) in
    let boundary : r.seq ≤ oldest
        → All (λ q. q.key ≢ current') (retain_loop current' true oldest rs) =
      λ l. no_more current' oldest rs (low_behind current' oldest r rs current_is l h.0) h.1 in
    elim (Bool-cases (above || not kept')) [
      | inl e ↦ rw e (
        λ l.
            let next_is : true ≡ next = ground arith in
            subst (λ n. All (λ q. q.key ≢ r.key) (retain_loop current' n oldest rs)) next_is
              (subst (λ k. All (λ q. q.key ≢ k) (retain_loop current' true oldest rs))
                (sym current_is) (boundary l)),
        later,
      )
      | inr e ↦ rw e later
    ]

-- Of sorted records, `retainForCompaction` keeps at most one of a key at or below the snapshot
-- sequence: behind such a record none of its key is left.
pub retain_for_compaction-OneBoundary :
    (oldest : ℕ) (rs : List Record)
    → IsSorted rs
    → OneBoundary oldest (retain_for_compaction oldest rs)
unfolding retain_for_compaction
retain_for_compaction-OneBoundary oldest [] h = tt
retain_for_compaction-OneBoundary oldest (r ∷ rs) h =
    retain_loop-OneBoundary r.key false oldest (r ∷ rs) h
