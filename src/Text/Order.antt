-- ===== src/Text/Order.antt =====
-- The order of byte strings is a total order.
use lsmtree.Base.{◌≡◌, ◌≢◌, ap, refl, [], ◌∷◌, Ordering, arith}
use lsmtree.Text.{Str, compare_str}

-- `a` stands before `b`.
abbrev pub Before : Str → Str → Type 0
Before a b = compare_str a b ≡ Ordering.lt

pub compare_str_refl : (a : Str) → compare_str a a ≡ Ordering.eq
unfolding compare_str
compare_str_refl [] = refl
compare_str_refl (x ∷ xs) = ground (arith, compare_str_refl xs)

pub compare_str→eq : (a b : Str) → compare_str a b ≡ Ordering.eq → a ≡ b
unfolding compare_str
compare_str→eq [] [] h = refl
compare_str→eq [] (y ∷ ys) h = cc
compare_str→eq (x ∷ xs) [] h = cc
compare_str→eq (x ∷ xs) (y ∷ ys) h = ground (arith, compare_str→eq xs ys)

pub compare_str_swap :
    (a b : Str)
    → compare_str b a ≡ elim (compare_str a b) [
      | Ordering.lt ↦ Ordering.gt
      | Ordering.eq ↦ Ordering.eq
      | Ordering.gt ↦ Ordering.lt
    ]
unfolding compare_str
compare_str_swap [] [] = refl
compare_str_swap [] (y ∷ ys) = refl
compare_str_swap (x ∷ xs) [] = refl
compare_str_swap (x ∷ xs) (y ∷ ys) = ground (arith, compare_str_swap xs ys)

pub Before-trans : (a b c : Str) → Before a b → Before b c → Before a c
unfolding compare_str
Before-trans [] [] c p q = cc
Before-trans [] (y ∷ ys) [] p q = cc
Before-trans [] (y ∷ ys) (z ∷ zs) p q = refl
Before-trans (x ∷ xs) [] c p q = cc
Before-trans (x ∷ xs) (y ∷ ys) [] p q = cc
Before-trans (x ∷ xs) (y ∷ ys) (z ∷ zs) p q = ground (arith, Before-trans xs ys zs)

pub Before-ne : (a b : Str) → Before a b → b ≢ a
Before-ne a b p e = cc (compare_str_refl a, ap (compare_str a) e)
