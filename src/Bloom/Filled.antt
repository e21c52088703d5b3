-- ===== src/Bloom/Filled.antt =====
-- The filter of a table fits its serialized form.
use lsmtree.Base.{
  ℕ, zero, suc, ◌+◌, ◌*◌, ◌/◌, ◌%◌, ◌^◌, ◌<◌, ◌≡◌, ◌∙◌, refl, List, [], ◌∷◌, get_or, set, replicate,
  length, length-set, length-replicate, bit_or, All, arith,
}
use lsmtree.Bits.{bit_or-bound}
use lsmtree.Bloom.{
  BloomFilter, word_count_for, from_parameters, set_bit, get_bit_position, add_rounds, add,
}
use lsmtree.Bloom.Codec.{FitsFilter}
use lsmtree.Bloom.Membership.{add_all}
use lsmtree.Text.{Str}
use native.Mathlib.Nat.{pow-suc, one-le-pow, pow-le-pow_right}

-- The words are 64-bit words, and there are as many as the bit count asks for.
pub record HasWords (bits hashes : ℕ) (b : BloomFilter) : Type 0 where
  pub bit_count : b.bit_count ≡ bits
  pub hash_count : b.hash_count ≡ hashes
  pub words : All (λ w. w < 2 ^ 64) b.words
  pub count : length b.words ≡ word_count_for bits

All-set :
    (ws : List ℕ) (i v : ℕ)
    → v < 2 ^ 64
    → All (λ w. w < 2 ^ 64) ws
    → All (λ w. w < 2 ^ 64) (set ws i v)
All-set [] i v h a = tt
All-set (w ∷ ws) zero v h a = (h, a.1)
All-set (w ∷ ws) (suc i) v h a = (a.0, All-set ws i v h a.1)

get_or-bound : (ws : List ℕ) (i : ℕ) → All (λ w. w < 2 ^ 64) ws → get_or ws i 0 < 2 ^ 64
get_or-bound [] i a = omega arith
get_or-bound (w ∷ ws) zero a = a.0
get_or-bound (w ∷ ws) (suc i) a = get_or-bound ws i a.1

pow_below : (k n : ℕ) → k < n → 2 ^ k < 2 ^ n
pow_below k n h = omega (
  arith,
  pow-suc 2 k,
  one-le-pow k 2 (omega arith),
  pow-le-pow_right {n = 2} (omega arith) {i = suc k} {j = n} h,
)

set_bit-words :
    (ws : List ℕ) (p : ℕ) → All (λ w. w < 2 ^ 64) ws → All (λ w. w < 2 ^ 64) (set_bit ws p)
unfolding set_bit
set_bit-words ws p a =
    All-set ws (p / 64) (bit_or (get_or ws (p / 64) 0) (2 ^ (p % 64)))
      (bit_or-bound 64 (get_or ws (p / 64) 0) (2 ^ (p % 64)) (get_or-bound ws (p / 64) a)
        (pow_below (p % 64) 64 (omega arith)))
      a

length-set_bit : (ws : List ℕ) (p : ℕ) → length (set_bit ws p) ≡ length ws
unfolding set_bit
length-set_bit ws p = length-set ws (p / 64) (bit_or (get_or ws (p / 64) 0) (2 ^ (p % 64)))

add_rounds-HasWords :
    (bits hashes n i : ℕ) (b : BloomFilter) (key : Str)
    → HasWords bits hashes b
    → HasWords bits hashes (add_rounds n i b key)
unfolding add_rounds
add_rounds-HasWords bits hashes zero i b key h = h
add_rounds-HasWords bits hashes (suc n) i b key h =
    add_rounds-HasWords bits hashes n (suc i)
      (record b { words = set_bit b.words (get_bit_position b key i) }) key
      (record {
        bit_count = h.bit_count;
        hash_count = h.hash_count;
        words = set_bit-words b.words (get_bit_position b key i) h.words;
        count = length-set_bit b.words (get_bit_position b key i) ∙ h.count;
      })

add_all-HasWords :
    (bits hashes : ℕ) (b : BloomFilter) (keys : List Str)
    → HasWords bits hashes b
    → HasWords bits hashes (add_all b keys)
unfolding add_all add
add_all-HasWords bits hashes b [] h = h
add_all-HasWords bits hashes b (k ∷ keys) h =
    add_all-HasWords bits hashes (add b k) keys
      (add_rounds-HasWords bits hashes b.hash_count 0 b k h)

All-replicate : (n : ℕ) → All (λ w. w < 2 ^ 64) (replicate {A = ℕ} n 0)
All-replicate zero = tt
All-replicate (suc n) = (omega arith, All-replicate n)

new-HasWords : (bits hashes : ℕ) → HasWords bits hashes (from_parameters bits hashes)
unfolding from_parameters
new-HasWords bits hashes = record {
  bit_count = refl;
  hash_count = refl;
  words = All-replicate (word_count_for bits);
  count = length-replicate {A = ℕ} (word_count_for bits) 0;
}

-- A new filter to which keys were added is read back as it was serialized, if its numbers fit.
pub add_all-FitsFilter :
    (bits hashes : ℕ) (keys : List Str)
    → bits < 2 ^ 64
    → hashes < 2 ^ 64
    → 16 + 8 * length (add_all (from_parameters bits hashes) keys).words < 2 ^ 64
    → FitsFilter (add_all (from_parameters bits hashes) keys)
add_all-FitsFilter bits hashes keys h k short =
    let w =
      add_all-HasWords bits hashes (from_parameters bits hashes) keys (new-HasWords bits hashes) in
    record {
      bit_count = rw w.bit_count h;
      hash_count = rw w.hash_count k;
      words = w.words;
      sized = rw w.bit_count (rw w.count refl);
      short = short;
    }
