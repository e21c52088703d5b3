-- ===== src/Bloom/Membership.antt =====
-- A filter answers yes for every key that was added: there are no false negatives.
use lsmtree.Base.{
  ℕ, zero, suc, ◌+◌, ◌-◌, ◌*◌, ◌/◌, ◌%◌, ◌^◌, ◌<◌, ◌≤◌, ◌≡◌, ◌≢◌, refl, ap, sym, subst, List, [],
  ◌∷◌, bit_and, get_or, set, length, length-set, length-replicate, ◌==◌, if◌then◌else◌, true, arith,
  inl, inr, In,
}
use native.Mathlib.Decide.{ℕ_discrete}
use native.Mathlib.Nat.{mod-lt}
use lsmtree.Bits.{bit_set, bit_kept}
use lsmtree.Bloom.{
  BloomFilter, get_fnv1a, word_count_for, from_parameters, get_bit_position, set_bit, has_bit,
  add_rounds, add, contain_rounds, might_contain,
}
use lsmtree.Text.{Str}

-- Every bit position has its word.
pub record IsValid (b : BloomFilter) : Type 0 where
  pub some_bits : 0 < b.bit_count
  pub sized : b.bit_count ≤ 64 * length b.words

has_bit_of :
    (words : List ℕ) (p : ℕ)
    → 0 < bit_and (get_or words (p / 64) 0) (2 ^ (p % 64))
    → has_bit words p ≡ true
unfolding has_bit
has_bit_of words p h = ground arith

bit_of_has :
    (words : List ℕ) (p : ℕ)
    → has_bit words p ≡ true
    → 0 < bit_and (get_or words (p / 64) 0) (2 ^ (p % 64))
unfolding has_bit
bit_of_has words p h = ground arith

get_or-set_in : (ws : List ℕ) (i v : ℕ) → i < length ws → get_or (set ws i v) i 0 ≡ v
get_or-set_in [] i v h = absurd (omega arith)
get_or-set_in (w ∷ ws) zero v h = refl
get_or-set_in (w ∷ ws) (suc i) v h = get_or-set_in ws i v (omega arith)

get_or-set_other : (ws : List ℕ) (i j v : ℕ) → j ≢ i → get_or (set ws i v) j 0 ≡ get_or ws j 0
get_or-set_other [] i j v h = refl
get_or-set_other (w ∷ ws) zero zero v h = absurd (h refl)
get_or-set_other (w ∷ ws) zero (suc j) v h = refl
get_or-set_other (w ∷ ws) (suc i) zero v h = refl
get_or-set_other (w ∷ ws) (suc i) (suc j) v h = get_or-set_other ws i j v (λ e. h (ap suc e))

-- The bit that `set_bit` sets is found.
has_bit-set_bit : (ws : List ℕ) (p : ℕ) → p < 64 * length ws → has_bit (set_bit ws p) p ≡ true
unfolding set_bit
has_bit-set_bit ws p h =
    has_bit_of _ p
      (rw (get_or-set_in ws (p / 64) _ (omega arith)) (bit_set (p % 64) (get_or ws (p / 64) 0)))

-- `set_bit` clears no bit.
has_bit-set_bit_kept :
    (ws : List ℕ) (p q : ℕ)
    → p < 64 * length ws
    → has_bit ws q ≡ true
    → has_bit (set_bit ws p) q ≡ true
unfolding set_bit
has_bit-set_bit_kept ws p q h e = elim (ℕ_discrete (q / 64) (p / 64)) [
  | yes same ↦ has_bit_of _ q (
      rw (same, get_or-set_in ws (p / 64) _ (omega arith))
        (omega (
          arith,
          bit_kept (q % 64) (get_or ws (p / 64) 0) (2 ^ (p % 64)),
          (rw same at (bit_of_has ws q e)),
        )))
  | no ne ↦ has_bit_of _ q (rw (get_or-set_other ws (p / 64) (q / 64) _ ne) (bit_of_has ws q e))
]

length-set_bit : (ws : List ℕ) (p : ℕ) → length (set_bit ws p) ≡ length ws
unfolding set_bit
length-set_bit ws p = length-set ws (p / 64) _

position_in :
    (b : BloomFilter) (key : Str) (i : ℕ)
    → IsValid b
    → get_bit_position b key i < 64 * length b.words
unfolding get_bit_position
position_in b key i v = grind (arith, mod-lt)

-- The filter after one round of `add`.
abbrev one_round : BloomFilter → Str → ℕ → BloomFilter
one_round b key i = record b { words = set_bit b.words (get_bit_position b key i) }

one_round-IsValid : (b : BloomFilter) (key : Str) (i : ℕ) → IsValid b → IsValid (one_round b key i)
one_round-IsValid b key i v = record {
  some_bits = v.some_bits;
  sized = omega (arith, v.sized, length-set_bit b.words (get_bit_position b key i));
}

add_rounds-IsValid :
    (n i : ℕ) (b : BloomFilter) (key : Str) → IsValid b → IsValid (add_rounds n i b key)
unfolding add_rounds
add_rounds-IsValid zero i b key v = v
add_rounds-IsValid (suc n) i b key v =
    add_rounds-IsValid n (suc i) (one_round b key i) key (one_round-IsValid b key i v)

-- The rounds change the words alone.
add_rounds_counts :
    (n i : ℕ) (b : BloomFilter) (key : Str)
    → ((add_rounds n i b key).bit_count ≡ b.bit_count)
      × ((add_rounds n i b key).hash_count ≡ b.hash_count)
unfolding add_rounds
add_rounds_counts zero i b key = (refl, refl)
add_rounds_counts (suc n) i b key = add_rounds_counts n (suc i) (one_round b key i) key

add_rounds_kept :
    (n i : ℕ) (b : BloomFilter) (key : Str) (q : ℕ)
    → IsValid b
    → has_bit b.words q ≡ true
    → has_bit (add_rounds n i b key).words q ≡ true
unfolding add_rounds
add_rounds_kept zero i b key q v h = h
add_rounds_kept (suc n) i b key q v h =
    add_rounds_kept n (suc i) (one_round b key i) key q (one_round-IsValid b key i v)
      (has_bit-set_bit_kept b.words (get_bit_position b key i) q (position_in b key i v) h)

get_bit_position-cong :
    (a b : BloomFilter) (key : Str) (i : ℕ)
    → a.bit_count ≡ b.bit_count
    → get_bit_position a key i ≡ get_bit_position b key i
unfolding get_bit_position
get_bit_position-cong a b key i e =
    ap
      (λ (n : ℕ).
        (get_fnv1a key / 2 ^ 32 % 2 ^ 32
          + i * (if get_fnv1a key % 2 ^ 32 == 0 then 1 else get_fnv1a key % 2 ^ 32))
        % 2 ^ 64
        % n)
      e

contain_rounds-add_rounds :
    (n i : ℕ) (b : BloomFilter) (key : Str)
    → IsValid b
    → contain_rounds n i (add_rounds n i b key) key ≡ true
unfolding contain_rounds add_rounds
contain_rounds-add_rounds zero i b key v = refl
contain_rounds-add_rounds (suc n) i b key v =
    let b' = one_round b key i in
    let p = get_bit_position b key i in
    let found =
      add_rounds_kept n (suc i) b' key p (one_round-IsValid b key i v)
        (has_bit-set_bit b.words p (position_in b key i v)) in
    rw
      (
        get_bit_position-cong (add_rounds n (suc i) b' key) b key i
            (add_rounds_counts n (suc i) b' key).0,
        found,
      )
      (contain_rounds-add_rounds n (suc i) b' key (one_round-IsValid b key i v))

contain_rounds_kept :
    (n i m j : ℕ) (b : BloomFilter) (key other : Str)
    → IsValid b
    → contain_rounds n i b key ≡ true
    → contain_rounds n i (add_rounds m j b other) key ≡ true
unfolding contain_rounds
contain_rounds_kept zero i m j b key other v h = refl
contain_rounds_kept (suc n) i m j b key other v h = ground (
  arith,
  get_bit_position-cong (add_rounds m j b other) b key i (add_rounds_counts m j b other).0,
  add_rounds_kept m j b other (get_bit_position b key i) v,
  contain_rounds_kept n (suc i) m j b key other v,
)

-- `add` for every key of a list.
unfoldable pub add_all : BloomFilter → List Str → BloomFilter
add_all b [] = b
add_all b (key ∷ keys) = add_all (add b key) keys

pub add-IsValid : (b : BloomFilter) (key : Str) → IsValid b → IsValid (add b key)
unfolding add
add-IsValid b key v = add_rounds-IsValid b.hash_count 0 b key v

might_contain-add : (b : BloomFilter) (key : Str) → IsValid b → might_contain (add b key) key ≡ true
unfolding might_contain add add_rounds
might_contain-add b key v =
    rw ((add_rounds_counts b.hash_count 0 b key).1)
      (contain_rounds-add_rounds b.hash_count 0 b key v)

might_contain_kept :
    (b : BloomFilter) (key other : Str)
    → IsValid b
    → might_contain b key ≡ true
    → might_contain (add b other) key ≡ true
unfolding might_contain add add_rounds
might_contain_kept b key other v h =
    rw ((add_rounds_counts b.hash_count 0 b other).1)
      (contain_rounds_kept b.hash_count 0 b.hash_count 0 b key other v h)

add_all_kept :
    (b : BloomFilter) (keys : List Str) (key : Str)
    → IsValid b
    → might_contain b key ≡ true
    → might_contain (add_all b keys) key ≡ true
unfolding add_all
add_all_kept b [] key v h = h
add_all_kept b (k ∷ keys) key v h =
    add_all_kept (add b k) keys key (add-IsValid b k v) (might_contain_kept b key k v h)

-- A filter that has some bits, and a word for each, answers yes for every key that was added,
-- whatever was added before and after it.
pub might_contain-add_all :
    (b : BloomFilter) (keys : List Str) (key : Str)
    → IsValid b
    → In key keys
    → might_contain (add_all b keys) key ≡ true
unfolding add_all
might_contain-add_all b [] key v i = absurd i
might_contain-add_all b (k ∷ keys) key v (inl e) =
    add_all_kept (add b k) keys key (add-IsValid b k v)
      (subst (λ j. might_contain (add b k) j ≡ true) (sym e) (might_contain-add b k v))
might_contain-add_all b (k ∷ keys) key v (inr i) =
    might_contain-add_all (add b k) keys key (add-IsValid b k v) i

-- A new filter with some bits, and not so many that their word count wraps, has a word for every
-- bit.
pub from_parameters-IsValid :
    (bit_count hash_count : ℕ)
    → 0 < bit_count
    → bit_count + 63 < 2 ^ 64
    → IsValid (from_parameters bit_count hash_count)
unfolding from_parameters word_count_for
from_parameters-IsValid n k h fits = record {
  some_bits = h;
  sized = omega (arith, length-replicate {A = ℕ} ((n + 64 - 1) % 2 ^ 64 / 64) 0);
}
