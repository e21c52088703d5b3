-- ===== src/Record/Latest.antt =====
-- A read finds the newest record of its key, and on a sorted list it finds every such record.
use lsmtree.Base.{
  ℕ, ◌≡◌, refl, List, [], ◌∷◌, Option, none, some, leb, if◌then◌else◌, arith, ◌≤◌, In, inl, inr,
  sym, ap, subst, ◌∙◌, All-In, Option-cases,
}
use lsmtree.Text.{Str}
use lsmtree.Text.Order.{compare_str_refl}
use lsmtree.Record.{Record}
use lsmtree.Record.Visible.{
  visible, candidate, better, candidate-cases, candidate_lem, visible-In, IsLatest,
}
use lsmtree.Record.Sorted.{IsSorted, Precedes}

better-bound_left :
    (a : Record) (y : Option Record) → (r : Record) × (better (some a) y ≡ some r) × (a.seq ≤ r.seq)
better-bound_left a none = (a, refl, omega arith)
better-bound_left a (some b) = elim (Option-cases (if leb a.seq b.seq then some b else none)) [
  | inl e ↦ (a, ground arith, omega arith)
  | inr (r, e) ↦ (b, ground arith, ground arith)
]

better-bound_right :
    (x : Option Record) (b : Record) → (r : Record) × (better x (some b) ≡ some r) × (b.seq ≤ r.seq)
better-bound_right none b = (b, refl, omega arith)
better-bound_right (some a) b = elim (Option-cases (if leb a.seq b.seq then some b else none)) [
  | inl e ↦ (a, ground arith, ground arith)
  | inr (r, e) ↦ (b, ground arith, omega arith)
]

-- Every record of the key in view has an answer that is as new.
pub visible-bound :
    (k : Str) (s : ℕ) (rs : List Record) (q : Record)
    → In q rs
    → q.key ≡ k
    → q.seq ≤ s
    → (r : Record) × (visible k s rs ≡ some r) × (q.seq ≤ r.seq)
unfolding visible
visible-bound k s [] q i e h = absurd i
visible-bound k s (p ∷ rs) q (inl same) e h =
    rw (← same, candidate_lem k s q e h) (better-bound_left q (visible k s rs))
visible-bound k s (p ∷ rs) q (inr i) e h =
    let (r, found, low) = visible-bound k s rs q i e h in
    let (r', found', low') = better-bound_right (candidate k s p) r in
    (r', rw found found', omega (arith, low, low'))

-- What is found is a record of the key that is in view.
visible_sound :
    (k : Str) (s : ℕ) (rs : List Record) (r : Record)
    → visible k s rs ≡ some r
    → (r.key ≡ k) × (r.seq ≤ s)
unfolding visible
visible_sound k s [] r e = cc
visible_sound k s (q ∷ rs) r e = ground (arith, visible_sound k s rs r, candidate-cases k s q)

some-injective : (a b : Record) → some a ≡ some b → a ≡ b
some-injective a b e = cc

pub visible-IsLatest :
    (k : Str) (s : ℕ) (rs : List Record) (r : Record) → visible k s rs ≡ some r → IsLatest k s rs r
visible-IsLatest k s rs r e = record {
  stored = visible-In k s rs r e;
  same_key = (visible_sound k s rs r e).0;
  in_view = (visible_sound k s rs r e).1;
  newest = λ q i same h.
      let (r', found, low) = visible-bound k s rs q i same h in
      subst (λ z. q.seq ≤ z.seq) (some-injective r' r (sym found ∙ e)) low;
}

pub apart : (a b : Record) → Precedes a b → a.key ≡ b.key → a.seq ≡ b.seq → ⊥
apart a b (inl p) e f = cc (compare_str_refl a.key, p, e)
apart a b (inr p) e f = omega arith

-- A sorted list has one record of a key and a sequence.
sorted_unique :
    (rs : List Record) (a b : Record)
    → IsSorted rs
    → In a rs
    → In b rs
    → a.key ≡ b.key
    → a.seq ≡ b.seq
    → a ≡ b
sorted_unique [] a b h i j e f = absurd i
sorted_unique (r ∷ rs) a b h (inl x) (inl y) e f = x ∙ sym y
sorted_unique (r ∷ rs) a b h (inr x) (inr y) e f = sorted_unique rs a b h.1 x y e f
sorted_unique (r ∷ rs) a b h (inl x) (inr y) e f =
    absurd (apart a b (subst (λ z. Precedes z b) (sym x) (All-In (Precedes r) rs b h.0 y)) e f)
sorted_unique (r ∷ rs) a b h (inr x) (inl y) e f =
    absurd (
      apart b a (subst (λ z. Precedes z a) (sym y) (All-In (Precedes r) rs a h.0 x)) (sym e)
        (sym f))

-- On a sorted list the newest record in view is what a read finds.
pub IsLatest-visible :
    (k : Str) (s : ℕ) (rs : List Record) (r : Record)
    → IsSorted rs
    → IsLatest k s rs r
    → visible k s rs ≡ some r
IsLatest-visible k s rs r h l =
    let (r', found, low) = visible-bound k s rs r l.stored l.same_key l.in_view in
    let l' = visible-IsLatest k s rs r' found in
    let high = l.newest r' l'.stored l'.same_key l'.in_view in
    found
    ∙ ap some
        (sorted_unique rs r' r h l'.stored l.stored (l'.same_key ∙ sym l.same_key) (omega arith))
