-- ===== src/Merge/Queue/Order.antt =====
-- `pop_top` takes a greatest item and keeps the others.
use lsmtree.Base.{
  ◌≡◌, ◌≢◌, ◌≤◌, ◌⊎◌, refl, sym, subst, ◌∙◌, List, [], ◌∷◌, true, false, arith, All, In, inl, inr,
  Bool-cases,
}
use lsmtree.Text.Order.{compare_str→eq, compare_str_swap, Before, Before-trans}
use lsmtree.Merge.Queue.{MergeItem, item_less, pop_top}

-- `a` is taken no later than `b`.
abbrev pub Leads : MergeItem → MergeItem → Type 0
Leads a b = Before a.key b.key ⊎ ((a.key ≡ b.key) × (b.seq ≤ a.seq))

pub Leads-trans : (a b c : MergeItem) → Leads a b → Leads b c → Leads a c
Leads-trans a b c (inl p) (inl q) = inl (Before-trans a.key b.key c.key p q)
Leads-trans a b c (inl p) (inr q) = inl (subst (λ k. Before a.key k) q.0 p)
Leads-trans a b c (inr p) (inl q) = inl (subst (λ k. Before k c.key) (sym p.0) q)
Leads-trans a b c (inr p) (inr q) = inr (p.0 ∙ q.0, omega arith)

Leads-of_less : (a b : MergeItem) → item_less a b ≡ true → Leads b a
Leads-of_less a b h = ground (arith, compare_str→eq a.key b.key, compare_str_swap a.key b.key)

Leads-of_not_less : (a b : MergeItem) → item_less a b ≡ false → Leads a b
Leads-of_not_less a b h = ground (arith, compare_str→eq a.key b.key, compare_str_swap a.key b.key)

abbrev pub Distinct : List MergeItem → Type 0
Distinct [] = Unit
Distinct (x ∷ q) = All (λ y. y.source_index ≢ x.source_index) q × Distinct q

pop_top_less :
    (x y : MergeItem) (q : List MergeItem)
    → item_less x y ≡ true
    → pop_top x (y ∷ q) ≡ ((pop_top y q).0, x ∷ (pop_top y q).1)
unfolding pop_top
pop_top_less x y q e = rw (e, pop_top)

pop_top_keep :
    (x y : MergeItem) (q : List MergeItem)
    → item_less x y ≡ false
    → pop_top x (y ∷ q) ≡ ((pop_top x q).0, y ∷ (pop_top x q).1)
unfolding pop_top
pop_top_keep x y q e = rw (e, pop_top)

-- What holds of a popped pair in both cases.
pop_top_cases :
    (P : MergeItem × List MergeItem → Type 0) (x y : MergeItem) (q : List MergeItem)
    → (item_less x y ≡ true → P ((pop_top y q).0, x ∷ (pop_top y q).1))
    → (item_less x y ≡ false → P ((pop_top x q).0, y ∷ (pop_top x q).1))
    → P (pop_top x (y ∷ q))
pop_top_cases P x y q f g = elim (Bool-cases (item_less x y)) [
  | inl e ↦ subst P (sym (pop_top_less x y q e)) (f e)
  | inr e ↦ subst P (sym (pop_top_keep x y q e)) (g e)
]

module _ (P : MergeItem → Type 0) where
  pub pop_top-All :
      (x : MergeItem) (q : List MergeItem)
      → P x
      → All P q
      → P (pop_top x q).0 × All P (pop_top x q).1
  pop_top-All x [] p a = unfold pop_top in (p, tt)
  pop_top-All x (y ∷ q) p a =
      pop_top_cases (λ t. P t.0 × All P t.1) x y q
        (λ _. let (w, r) = pop_top-All y q a.0 a.1 in (w, (p, r)))
        (λ _. let (w, r) = pop_top-All x q p a.1 in (w, (a.0, r)))

-- Every item is the winner, or is among the others.
pub pop_top-In :
    (it x : MergeItem) (q : List MergeItem)
    → In it (x ∷ q)
    → (it ≡ (pop_top x q).0) ⊎ In it (pop_top x q).1
pop_top-In it x [] (inl e) = unfold pop_top in inl e
pop_top-In it x [] (inr i) = absurd i
pop_top-In it x (y ∷ q) i =
    pop_top_cases (λ t. (it ≡ t.0) ⊎ In it t.1) x y q (λ _. ground (arith, pop_top-In it y q))
      (λ _. ground (arith, pop_top-In it x q))

-- The winner leads every item.
pub pop_top-Leads :
    (x : MergeItem) (q : List MergeItem)
    → Leads (pop_top x q).0 x × All (Leads (pop_top x q).0) (pop_top x q).1
pop_top-Leads x [] = unfold pop_top in (inr (refl, omega arith), tt)
pop_top-Leads x (y ∷ q) =
    pop_top_cases (λ t. Leads t.0 x × All (Leads t.0) t.1) x y q
      (λ e.
        let (w, r) = pop_top-Leads y q in
        let l = Leads-trans (pop_top y q).0 y x w (Leads-of_less x y e) in (l, (l, r)))
      (λ e.
        let (w, r) = pop_top-Leads x q in
        (w, (Leads-trans (pop_top x q).0 x y w (Leads-of_not_less x y e), r)))

-- With a source each, the others belong to other sources than the winner's.
pub pop_top-Distinct :
    (x : MergeItem) (q : List MergeItem)
    → Distinct (x ∷ q)
    → Distinct ((pop_top x q).0 ∷ (pop_top x q).1)
pop_top-Distinct x [] d = unfold pop_top in d
pop_top-Distinct x (y ∷ q) ((ne, ax), (ay, d)) =
    pop_top_cases (λ t. Distinct (t.0 ∷ t.1)) x y q
      (λ _.
        let (w, r) = pop_top-Distinct y q (ay, d) in
        let (v, a) = pop_top-All (λ z. z.source_index ≢ x.source_index) y q ne ax in
        ((λ e. v (sym e), w), (a, r)))
      (λ _.
        let (w, r) = pop_top-Distinct x q (ax, d) in
        let (v, a) = pop_top-All (λ z. z.source_index ≢ y.source_index) x q (λ e. ne (sym e)) ay in
        ((λ e. v (sym e), w), (a, r)))
