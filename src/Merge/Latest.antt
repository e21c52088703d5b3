-- ===== src/Merge/Latest.antt =====
-- What `latestVisiblePerKey` leaves of sorted records.
use lsmtree.Base.{
  ℕ, ◌≡◌, ◌≢◌, ◌≤◌, ◌⊎◌, ◌↔◌, refl, sym, subst, ◌∙◌, List, [], ◌∷◌, arith, All, In, inl, inr, some,
  none, All-In,
}
use lsmtree.Record.{Record, RecordType}
use lsmtree.Record.Visible.{visible, candidate, candidate-cases, candidate_lem, visible-In}
use lsmtree.Record.Sorted.{IsSorted, Precedes, better-visible, all_past, visible-skip, visible-past}
use lsmtree.Text.{Str}
use lsmtree.Text.Order.{compare_str→eq, compare_str_refl, Before}
use lsmtree.Merge.{unique_after, unique, erase_tombstones, latest_visible_per_key}

-- Keys that ascend, each once.
abbrev pub Ascends : List Record → Type 0
Ascends [] = Unit
Ascends (r ∷ rs) = All (λ q. Before r.key q.key) rs × Ascends rs

All-unique_after :
    (P : Record → Type 0) (last : Str) (rs : List Record) → All P rs → All P (unique_after last rs)
unfolding unique_after
All-unique_after P last [] a = tt
All-unique_after P last (r ∷ rs) a =
    ground (arith, All-unique_after P last rs, All-unique_after P r.key rs)

-- Records of `last` and of larger keys.
abbrev From : Str → Record → Type 0
From last q = Before last q.key ⊎ (last ≡ q.key)

From-sorted : (r : Record) (rs : List Record) → All (Precedes r) rs → All (From r.key) rs
From-sorted r [] a = tt
From-sorted r (q ∷ rs) (inl p, a) = (inl p, From-sorted r rs a)
From-sorted r (q ∷ rs) (inr p, a) = (inr p.0, From-sorted r rs a)

unique_after_larger :
    (last : Str) (r : Record) (rs : List Record)
    → Before last r.key
    → unique_after last (r ∷ rs) ≡ r ∷ unique_after r.key rs
unfolding unique_after
unique_after_larger last r rs b = ground arith

unique_after_same :
    (last : Str) (r : Record) (rs : List Record)
    → last ≡ r.key
    → unique_after last (r ∷ rs) ≡ unique_after last rs
unfolding unique_after
unique_after_same last r rs e = ground (arith, compare_str_refl last)

unique_after-Ascends :
    (last : Str) (rs : List Record)
    → IsSorted rs
    → All (From last) rs
    → All (λ q. Before last q.key) (unique_after last rs) × Ascends (unique_after last rs)
unique_after-Ascends last [] h a = unfold unique_after in (tt, tt)
unique_after-Ascends last (r ∷ rs) h (inr e, a) =
    rw (unique_after_same last r rs e) (unique_after-Ascends last rs h.1 a)
unique_after-Ascends last (r ∷ rs) h (inl b, a) = rw (unique_after_larger last r rs b) (
    let up = unique_after-Ascends r.key rs h.1 (From-sorted r rs h.0) in
    ((b, All-unique_after (λ q. Before last q.key) r.key rs (all_past last r rs b h.0)), up))

unique-Ascends : (rs : List Record) → IsSorted rs → Ascends (unique rs)
unfolding unique
unique-Ascends [] h = tt
unique-Ascends (r ∷ rs) h = unique_after-Ascends r.key rs h.1 (From-sorted r rs h.0)

-- Other keys are answered as before.
visible-unique_after :
    (k : Str) (s : ℕ) (last : Str) (rs : List Record)
    → k ≢ last
    → IsSorted rs
    → All (From last) rs
    → All (λ q. q.seq ≤ s) rs
    → visible k s (unique_after last rs) ≡ visible k s rs
unfolding visible
visible-unique_after k s last [] ne h a v = unfold unique_after in refl
visible-unique_after k s last (r ∷ rs) ne h (inr e, a) v = rw (unique_after_same last r rs e) (
    visible-unique_after k s last rs ne h.1 a v.1
    ∙ sym (visible-skip k s r rs (ground (arith, compare_str→eq r.key k))))
visible-unique_after k s last (r ∷ rs) ne h (inl b, a) v =
    rw (unique_after_larger last r rs b) (elim (candidate-cases k s r) [
      | inl e ↦ rw e (
          visible-unique_after k s r.key rs (λ d. cc (e, candidate_lem k s r (sym d) v.0)) h.1
            (From-sorted r rs h.0) v.1)
      | inr (e, key, seq) ↦
          rw (e, better-visible k s r rs key h.0)
            (better-visible k s r (unique_after r.key rs) key
              (All-unique_after (Precedes r) r.key rs h.0))
    ])

-- Dropping all but the first record of each key changes no answer.
pub visible-unique :
    (k : Str) (s : ℕ) (rs : List Record)
    → IsSorted rs
    → All (λ q. q.seq ≤ s) rs
    → visible k s (unique rs) ≡ visible k s rs
unfolding unique visible
visible-unique k s [] h v = refl
visible-unique k s (r ∷ rs) h v = elim (candidate-cases k s r) [
  | inl e ↦ rw e (
      visible-unique_after k s r.key rs (λ d. cc (e, candidate_lem k s r (sym d) v.0)) h.1
        (From-sorted r rs h.0) v.1)
  | inr (e, key, seq) ↦
      rw (e, better-visible k s r rs key h.0)
        (better-visible k s r (unique_after r.key rs) key
          (All-unique_after (Precedes r) r.key rs h.0))
]

All-unique : (P : Record → Type 0) (rs : List Record) → All P rs → All P (unique rs)
unfolding unique
All-unique P [] a = tt
All-unique P (r ∷ rs) a = (a.0, All-unique_after P r.key rs a.1)

All-erase_tombstones :
    (P : Record → Type 0) (rs : List Record) → All P rs → All P (erase_tombstones rs)
unfolding erase_tombstones
All-erase_tombstones P [] a = tt
All-erase_tombstones P (r ∷ rs) a = ground (arith, All-erase_tombstones P rs)

erase_tombstones-Ascends : (rs : List Record) → Ascends rs → Ascends (erase_tombstones rs)
unfolding erase_tombstones
erase_tombstones-Ascends [] h = tt
erase_tombstones-Ascends (r ∷ rs) h =
    ground (arith, erase_tombstones-Ascends rs, All-erase_tombstones (λ q. Before r.key q.key) rs)

-- The records that a scan returns ascend by key, each key once.
pub latest_visible_per_key-Ascends :
    (rs : List Record) → IsSorted rs → Ascends (latest_visible_per_key rs)
unfolding latest_visible_per_key
latest_visible_per_key-Ascends rs h = erase_tombstones-Ascends (unique rs) (unique-Ascends rs h)

In-erase_tombstones :
    (r : Record) (rs : List Record)
    → In r (erase_tombstones rs) ↔ (In r rs × (r.type ≡ RecordType.value))
unfolding erase_tombstones
In-erase_tombstones r [] = (λ i. absurd i, λ i. absurd i.0)
In-erase_tombstones r (q ∷ rs) =
    let (down, up) = In-erase_tombstones r rs in
    (λ i. ground (arith, down), λ i. ground (arith, up))

candidate_of_larger : (s : ℕ) (q r : Record) → Before q.key r.key → candidate r.key s q ≡ none
candidate_of_larger s q r b = ground arith

-- With each key once, a record in view is the answer for its key.
In-Ascends :
    (s : ℕ) (rs : List Record) (r : Record)
    → Ascends rs
    → All (λ q. q.seq ≤ s) rs
    → In r rs
    → visible r.key s rs ≡ some r
unfolding visible
In-Ascends s [] r h v i = absurd i
In-Ascends s (q ∷ rs) r h v (inl e) =
    subst (λ (x : Record). visible x.key s (q ∷ rs) ≡ some x) (sym e)
      (rw (candidate_lem q.key s q refl v.0, visible-past q.key s rs h.0))
In-Ascends s (q ∷ rs) r h v (inr i) =
    visible-skip r.key s q rs
      (candidate_of_larger s q r (All-In (λ p. Before q.key p.key) rs r h.0 i))
    ∙ In-Ascends s rs r h.1 v.1 i

-- Of sorted records at or below a read sequence, `latestVisiblePerKey` keeps a record exactly if it
-- is what a read of its key finds and it is a value.
pub In-latest_visible_per_key :
    (s : ℕ) (rs : List Record) (r : Record)
    → IsSorted rs
    → All (λ q. q.seq ≤ s) rs
    → In r (latest_visible_per_key rs)
      ↔ ((visible r.key s rs ≡ some r) × (r.type ≡ RecordType.value))
unfolding latest_visible_per_key
In-latest_visible_per_key s rs r h v =
    let (down, up) = In-erase_tombstones r (unique rs) in
    let same = visible-unique r.key s rs h v in
    (
      λ i. (
        sym same
            ∙ In-Ascends s (unique rs) r (unique-Ascends rs h) (All-unique (λ q. q.seq ≤ s) rs v)
                (down i).0,
        (down i).1,
      ),
      λ f. up (visible-In r.key s (unique rs) r (same ∙ f.0), f.1),
    )
