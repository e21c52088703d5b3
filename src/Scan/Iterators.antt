-- ===== src/Scan/Iterators.antt =====
-- A snapshot iterator gives the records that its read sequence sees, in their order.
use lsmtree.Base.{
  ℕ, zero, suc, ◌≡◌, ◌≤◌, ◌↔◌, refl, ap, List, [], ◌∷◌, ◌++◌, length, ltb, if◌then◌else◌, arith,
  All, In, inl, inr, Bool-cases,
}
use lsmtree.Record.{Record}
use lsmtree.Record.Sorted.{IsSorted, Precedes}
use lsmtree.Scan.{skip_invisible_records, snapshot_iterator, advance, drain, snapshot_records}

-- The records at or below a sequence.
unfoldable pub below : ℕ → List Record → List Record
below s [] = []
below s (r ∷ rs) = let rest = below s rs in if ltb s r.seq then rest else r ∷ rest

drain-skip :
    (n s : ℕ) (rs : List Record)
    → length rs ≤ n
    → drain n (record { iterator = skip_invisible_records s rs; read_seq = s }) ≡ below s rs
unfolding drain advance below skip_invisible_records
drain-skip zero s [] h = refl
drain-skip zero s (r ∷ rs) h = absurd (omega arith)
drain-skip (suc n) s [] h = refl
drain-skip (suc n) s (r ∷ rs) h = elim (Bool-cases (ltb s r.seq)) [
  | inl hidden ↦ rw hidden (drain-skip (suc n) s rs (omega arith))
  | inr seen ↦ rw seen (ap (◌∷◌ r) (drain-skip n s rs (omega arith)))
]

-- A snapshot iterator gives exactly the records of its source at or below its read sequence, in order.
pub snapshot_records-below : (s : ℕ) (rs : List Record) → snapshot_records s rs ≡ below s rs
unfolding snapshot_iterator
snapshot_records-below s rs = drain-skip (length rs) s rs (omega arith)

pub In-below : (s : ℕ) (rs : List Record) (r : Record) → In r (below s rs) ↔ (In r rs × (r.seq ≤ s))
unfolding below
In-below s [] r = (λ i. absurd i, λ i. absurd i.0)
In-below s (q ∷ rs) r =
    let (down, up) = In-below s rs r in (λ i. ground (arith, down), λ i. ground (arith, up))

pub All-below : (P : Record → Type 0) (s : ℕ) (rs : List Record) → All P rs → All P (below s rs)
unfolding below
All-below P s [] a = tt
All-below P s (r ∷ rs) a = ground (arith, All-below P s rs a.1)

pub below-IsSorted : (s : ℕ) (rs : List Record) → IsSorted rs → IsSorted (below s rs)
unfolding below
below-IsSorted s [] h = tt
below-IsSorted s (r ∷ rs) h =
    ground (arith, below-IsSorted s rs h.1, All-below (Precedes r) s rs h.0)

pub below-append : (s : ℕ) (xs ys : List Record) → below s (xs ++ ys) ≡ below s xs ++ below s ys
unfolding below
below-append s [] ys = refl
below-append s (x ∷ xs) ys = ground (arith, below-append s xs ys)
