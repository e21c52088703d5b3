-- ===== src/Text.antt =====
-- std::string and std::string_view: byte strings and their order, `std::char_traits<char>`'s, which
-- compares bytes as unsigned numbers from the left and puts a proper prefix first.
pub mod Order
pub mod Words
pub mod Decimal
pub mod Affix
use lsmtree.Base.{ℕ, ◌<◌, List, [], ◌∷◌, compare, Ordering, Bool, true, false}

abbrev pub Str : Type 0
Str = List ℕ

abbrev pub IsByte : ℕ → Type 0
IsByte b = b < 256

-- The order of two strings whose first bytes have been compared.
abbrev pub then_compare : Ordering → Ordering → Ordering
then_compare Ordering.eq o = o
then_compare Ordering.lt o = Ordering.lt
then_compare Ordering.gt o = Ordering.gt

-- std::string::compare
unfoldable pub compare_str : Str → Str → Ordering
compare_str [] [] = Ordering.eq
compare_str [] (y ∷ ys) = Ordering.lt
compare_str (x ∷ xs) [] = Ordering.gt
compare_str (x ∷ xs) (y ∷ ys) = then_compare (compare x y) (compare_str xs ys)

-- `a == b`
abbrev pub str_eq : Str → Str → Bool
str_eq a b = elim (compare_str a b) [ Ordering.eq ↦ true | _ ↦ false ]

-- `a < b`, and `b > a`
abbrev pub str_lt : Str → Str → Bool
str_lt a b = elim (compare_str a b) [ Ordering.lt ↦ true | _ ↦ false ]

-- `a <= b`, and `b >= a`
abbrev pub str_le : Str → Str → Bool
str_le a b = elim (compare_str a b) [ Ordering.gt ↦ false | _ ↦ true ]
