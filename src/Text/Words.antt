-- ===== src/Text/Words.antt =====
-- Unsigned integers as bytes, lowest byte first: what appending an integer's memory writes and
-- `std::memcpy` reads back on a little-endian machine.
use lsmtree.Base.{
  ℕ, zero, suc, ◌+◌, ◌*◌, ◌/◌, ◌%◌, ◌^◌, ◌<◌, ◌≡◌, refl, ap, ◌∙◌, arith, [], ◌∷◌, ◌++◌, subst,
  length, take, take-append, drop, drop-append, length-append, ltb, if◌then◌else◌, Option, none,
  some, All,
}
use lsmtree.Text.{Str, IsByte}

-- The `w` bytes of `n`.
unfoldable pub le_bytes : ℕ → ℕ → Str
le_bytes zero n = []
le_bytes (suc w) n = n % 256 ∷ le_bytes w (n / 256)

unfoldable pub le_number : Str → ℕ
le_number [] = 0
le_number (b ∷ bs) = b + 256 * le_number bs

-- `readValue` of MemTable.cpp, at the front of `s`, for a value of `w` bytes
unfoldable pub read_value : ℕ → Str → Option ℕ
unfolding le_number
read_value w s = if ltb (length s) w then none else some (le_number (take w s))

pub length-le_bytes : (w n : ℕ) → length (le_bytes w n) ≡ w
unfolding le_bytes
length-le_bytes zero n = refl
length-le_bytes (suc w) n = ap suc (length-le_bytes w (n / 256))

pub le_bytes-IsByte : (w n : ℕ) → All IsByte (le_bytes w n)
unfolding le_bytes
le_bytes-IsByte zero n = tt
le_bytes-IsByte (suc w) n = (omega arith, le_bytes-IsByte w (n / 256))

pub le_number-le_bytes : (w n : ℕ) → n < 256 ^ w → le_number (le_bytes w n) ≡ n
unfolding le_bytes le_number
le_number-le_bytes zero n h = omega arith
le_number-le_bytes (suc w) n h = omega (arith, le_number-le_bytes w (n / 256) (grind arith))

pub read_value-append : (bs rest : Str) → read_value (length bs) (bs ++ rest) ≡ some (le_number bs)
unfolding read_value
read_value-append bs rest = rw take-append (ground (arith, length-append bs rest))

pub read_value-le_bytes :
    (w n : ℕ) (rest : Str) → n < 256 ^ w → read_value w (le_bytes w n ++ rest) ≡ some n
read_value-le_bytes w n rest h =
    subst (λ (v : ℕ). read_value v (le_bytes w n ++ rest) ≡ some n) (length-le_bytes w n)
      (read_value-append (le_bytes w n) rest ∙ ap some (le_number-le_bytes w n h))

pub take-le_bytes : (w n : ℕ) (rest : Str) → take w (le_bytes w n ++ rest) ≡ le_bytes w n
take-le_bytes w n rest =
    subst (λ (v : ℕ). take v (le_bytes w n ++ rest) ≡ le_bytes w n) (length-le_bytes w n)
      (take-append (le_bytes w n) rest)

pub drop-le_bytes : (w n : ℕ) (rest : Str) → drop w (le_bytes w n ++ rest) ≡ rest
drop-le_bytes w n rest =
    subst (λ (v : ℕ). drop v (le_bytes w n ++ rest) ≡ rest) (length-le_bytes w n)
      (drop-append (le_bytes w n) rest)
