-- ===== src/Text/Decimal.antt =====
-- `std::to_string` of an unsigned 64-bit number, the digits at the front of a text, `std::stoull`.
use lsmtree.Base.{
  ℕ, zero, suc, ◌+◌, ◌-◌, ◌*◌, ◌/◌, ◌%◌, ◌^◌, ◌<◌, ◌≡◌, ap, ◌∙◌, arith, [], ◌∷◌, ◌++◌, length,
  Bool-cases, inl, inr, ltb, leb, ◌&&◌, if◌then◌else◌, Option, none, some, All, Bool, true, false,
}
use lsmtree.Text.{Str}

-- `std::isdigit`
abbrev pub is_digit : ℕ → Bool
is_digit c = leb 48 c && leb c 57

-- The digits of `n` before `acc`, with fuel for the number of digits.
unfoldable pub digits_before : ℕ → ℕ → Str → Str
digits_before zero n acc = acc
digits_before (suc f) n acc =
    let more = digits_before f (n / 10) ((48 + n % 10) ∷ acc) in
    if ltb n 10 then (48 + n) ∷ acc else more

-- `std::to_string`; a 64-bit number has at most 20 digits.
unfoldable pub to_string : ℕ → Str
unfolding digits_before
to_string n = digits_before 20 n []

-- The digits at the front, and what stands behind them.
unfoldable pub span_digits : Str → Str × Str
span_digits [] = ([], [])
span_digits (c ∷ cs) =
    let (ds, rest) = span_digits cs in if is_digit c then (c ∷ ds, rest) else ([], c ∷ cs)

unfoldable pub digits_value : ℕ → Str → ℕ
digits_value acc [] = acc
digits_value acc (c ∷ cs) = digits_value (acc * 10 + (c - 48)) cs

-- `std::stoull` of a text of digits: `none` is `std::out_of_range`.
unfoldable pub stoull : Str → Option ℕ
unfolding digits_value
stoull ds = let v = digits_value 0 ds in if ltb v (2 ^ 64) then some v else none

abbrev pub IsDigit : ℕ → Type 0
IsDigit c = is_digit c ≡ true

digits_before-IsDigit :
    (f n : ℕ) (acc : Str) → All IsDigit acc → All IsDigit (digits_before f n acc)
unfolding digits_before
digits_before-IsDigit zero n acc h = h
digits_before-IsDigit (suc f) n acc h =
    ground (arith, digits_before-IsDigit f (n / 10) ((48 + n % 10) ∷ acc))

pub to_string-IsDigit : (n : ℕ) → All IsDigit (to_string n)
unfolding to_string
to_string-IsDigit n = digits_before-IsDigit 20 n [] tt

-- The value of the digits of `n` and of what follows them.
digits_value-digits_before :
    (f n : ℕ) (acc : Str) → n < 10 ^ f → digits_value 0 (digits_before f n acc) ≡ digits_value n acc
unfolding digits_before digits_value
digits_value-digits_before zero n acc h = ap (λ (a : ℕ). digits_value a acc) (omega arith)
digits_value-digits_before (suc f) n acc h = elim (Bool-cases (ltb n 10)) [
  | inl small ↦ rw small (ap (λ (a : ℕ). digits_value a acc) (omega arith))
  | inr large ↦ rw large (
      digits_value-digits_before f (n / 10) ((48 + n % 10) ∷ acc) (grind arith)
      ∙ ap (λ (a : ℕ). digits_value a acc) (omega arith))
]

-- `stoull` reads back the 64-bit number that `to_string` wrote.
pub stoull-to_string : (n : ℕ) → n < 2 ^ 64 → stoull (to_string n) ≡ some n
unfolding stoull to_string
stoull-to_string n h =
    rw (digits_value-digits_before 20 n [] (omega arith)) (unfold digits_value in ground arith)

length-digits_before : (f n : ℕ) (acc : Str) → length acc < length (digits_before (suc f) n acc)
unfolding digits_before
length-digits_before zero n acc = ground arith
length-digits_before (suc f) n acc =
    ground (arith, length-digits_before f (n / 10) ((48 + n % 10) ∷ acc))

pub length-to_string : (n : ℕ) → 0 < length (to_string n)
unfolding to_string
length-to_string n = length-digits_before 19 n []

pub span_digits-append :
    (ds : Str) (c : ℕ) (rest : Str)
    → All IsDigit ds
    → is_digit c ≡ false
    → span_digits (ds ++ c ∷ rest) ≡ (ds, c ∷ rest)
unfolding span_digits
span_digits-append [] c rest h e = rw e
span_digits-append (d ∷ ds) c rest h e = rw (span_digits-append ds c rest h.1 e, h.0)
