-- ===== src/Scan/Sublists.antt =====
-- What leaving out records keeps: that no two of them share key and sequence.
use lsmtree.Base.{ℕ, sym, List, [], ◌∷◌, ◌++◌, ltb, All, In, inl, inr, Bool-cases, subst}
use mathlib.Core.List.{Pairwise, Mem, mem-cons, not-mem-nil}
use mathlib.Core.Logic.{∥∥₁_elim}
use mathlib.Core.HLevel.{¬_prop}
use lsmtree.Record.{Record}
use lsmtree.Merge.Queue.Sorted.{Apart}
use lsmtree.Scan.Iterators.{below}

-- `Sublist xs ys`: `xs` is `ys` without some of its records.
pub data Sublist : List Record → List Record → Type 0 where
  none : Sublist [] []
  skip : {y : Record} {xs ys : List Record} → Sublist xs ys → Sublist xs (y ∷ ys)
  keep : {x : Record} {xs ys : List Record} → Sublist xs ys → Sublist (x ∷ xs) (x ∷ ys)

pub Sublist-refl : (xs : List Record) → Sublist xs xs
Sublist-refl [] = Sublist.none
Sublist-refl (x ∷ xs) = Sublist.keep (Sublist-refl xs)

pub Sublist-append :
    {xs ys us vs : List Record} → Sublist xs ys → Sublist us vs → Sublist (xs ++ us) (ys ++ vs)
Sublist-append Sublist.none t = t
Sublist-append (Sublist.skip s) t = Sublist.skip (Sublist-append s t)
Sublist-append (Sublist.keep s) t = Sublist.keep (Sublist-append s t)

pub Sublist-append_right :
    {us vs : List Record} (ys : List Record) → Sublist us vs → Sublist us (ys ++ vs)
Sublist-append_right [] s = s
Sublist-append_right (y ∷ ys) s = Sublist.skip (Sublist-append_right ys s)

pub below-Sublist : (s : ℕ) (rs : List Record) → Sublist (below s rs) rs
unfolding below
below-Sublist s [] = Sublist.none
below-Sublist s (r ∷ rs) = elim (Bool-cases (ltb s r.seq)) [
  | inl hidden ↦ rw hidden (Sublist.skip (below-Sublist s rs))
  | inr seen ↦ rw seen (Sublist.keep (below-Sublist s rs))
]

pub All-Sublist : (P : Record → Type 0) {xs ys : List Record} → Sublist xs ys → All P ys → All P xs
All-Sublist P Sublist.none a = tt
All-Sublist P (Sublist.skip s) a = All-Sublist P s a.1
All-Sublist P (Sublist.keep s) a = (a.0, All-Sublist P s a.1)

pub In-Sublist : (r : Record) {xs ys : List Record} → Sublist xs ys → In r xs → In r ys
In-Sublist r Sublist.none i = i
In-Sublist r (Sublist.skip s) i = inr (In-Sublist r s i)
In-Sublist r (Sublist.keep s) (inl e) = inl e
In-Sublist r (Sublist.keep s) (inr i) = inr (In-Sublist r s i)

-- No two records share key and sequence.
abbrev pub AreApart : List Record → Type 0
AreApart [] = Unit
AreApart (r ∷ rs) = All (Apart r) rs × AreApart rs

pub AreApart-Sublist : {xs ys : List Record} → Sublist xs ys → AreApart ys → AreApart xs
AreApart-Sublist Sublist.none a = tt
AreApart-Sublist (Sublist.skip s) a = AreApart-Sublist s a.1
AreApart-Sublist (Sublist.keep {x} s) a = (All-Sublist (Apart x) s a.0, AreApart-Sublist s a.1)

All-Mem : (r d : Record) (rs : List Record) → All (Apart r) rs → Mem d rs → Apart r d
All-Mem r d [] a m = absurd (not-mem-nil m)
All-Mem r d (q ∷ rs) a m =
    ∥∥₁_elim (mem-cons.0 m) ¬_prop
      (λ c. elim c [ inl e ↦ subst (Apart r) (sym e) a.0 | inr i ↦ All-Mem r d rs a.1 i ])

pub AreApart-Pairwise : (rs : List Record) → AreApart rs → Pairwise Apart rs
AreApart-Pairwise [] a = Pairwise.nil
AreApart-Pairwise (r ∷ rs) a =
    Pairwise.cons (λ d m. All-Mem r d rs a.0 m) (AreApart-Pairwise rs a.1)
