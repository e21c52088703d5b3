-- ===== src/Record/Sorted.antt =====
-- Lists of records in the order of `Key::operator<`, and reads of such lists.
use lsmtree.Base.{
  ℕ, ◌≡◌, refl, List, [], ◌∷◌, none, some, arith, ◌≤◌, ◌<◌, All, inl, inr, ◌⊎◌, sym, subst, ◌∙◌,
}
use lsmtree.Text.{Str}
use lsmtree.Text.Order.{Before, Before-trans, compare_str→eq, compare_str_refl}
use lsmtree.Record.{Record}
use lsmtree.Record.Visible.{visible, candidate, better, better_assoc}

-- `a` stands before `b`: a smaller key, or the same key and a newer sequence.
abbrev pub Precedes : Record → Record → Type 0
Precedes a b = Before a.key b.key ⊎ ((a.key ≡ b.key) × (b.seq < a.seq))

abbrev pub IsSorted : List Record → Type 0
IsSorted [] = Unit
IsSorted (r ∷ rs) = All (Precedes r) rs × IsSorted rs

pub Precedes-trans : (a b c : Record) → Precedes a b → Precedes b c → Precedes a c
Precedes-trans a b c (inl p) (inl q) = inl (Before-trans a.key b.key c.key p q)
Precedes-trans a b c (inl p) (inr q) = inl (subst (λ k. Before a.key k) q.0 p)
Precedes-trans a b c (inr p) (inl q) = inl (subst (λ k. Before k c.key) (sym p.0) q)
Precedes-trans a b c (inr p) (inr q) = inr (p.0 ∙ q.0, omega arith)

-- A record that stands behind `r` is no newer answer than `r`.
pub better-candidate :
    (k : Str) (s : ℕ) (r q : Record)
    → r.key ≡ k
    → Precedes r q
    → better (some r) (candidate k s q) ≡ some r
better-candidate k s r q e (inl p) = ground (arith, compare_str→eq q.key k, compare_str_refl k)
better-candidate k s r q e (inr p) = ground arith

pub better-visible :
    (k : Str) (s : ℕ) (r : Record) (rs : List Record)
    → r.key ≡ k
    → All (Precedes r) rs
    → better (some r) (visible k s rs) ≡ some r
unfolding visible
better-visible k s r [] e a = refl
better-visible k s r (q ∷ rs) e a =
    better_assoc (some r) (candidate k s q) (visible k s rs)
    ∙ rw (better-candidate k s r q e a.0) (better-visible k s r rs e a.1)

-- In a sorted list the first record of `k` in view is the answer.
pub visible-first :
    (k : Str) (s : ℕ) (r : Record) (rs : List Record)
    → r.key ≡ k
    → r.seq ≤ s
    → IsSorted (r ∷ rs)
    → visible k s (r ∷ rs) ≡ some r
unfolding visible
visible-first k s r rs e h a = ground (arith, compare_str_refl k, better-visible k s r rs e a.0)

-- A record of another key, or one that is not in view, changes nothing.
pub visible-skip :
    (k : Str) (s : ℕ) (r : Record) (rs : List Record)
    → candidate k s r ≡ none
    → visible k s (r ∷ rs) ≡ visible k s rs
unfolding visible
visible-skip k s r rs e = rw e

-- Behind a key that is larger than `k` nothing answers for `k`.
pub visible-past :
    (k : Str) (s : ℕ) (rs : List Record) → All (λ r. Before k r.key) rs → visible k s rs ≡ none
unfolding visible
visible-past k s [] a = refl
visible-past k s (r ∷ rs) a =
    ground (arith, compare_str→eq r.key k, compare_str_refl k, visible-past k s rs)

-- Nor does it behind a record whose key is larger.
pub all_past :
    (k : Str) (r : Record) (rs : List Record)
    → Before k r.key
    → All (Precedes r) rs
    → All (λ q. Before k q.key) rs
all_past k r [] h a = tt
all_past k r (q ∷ rs) h (inl p, a) = (Before-trans k r.key q.key h p, all_past k r rs h a)
all_past k r (q ∷ rs) h (inr p, a) = (subst (λ j. Before k j) p.0 h, all_past k r rs h a)
