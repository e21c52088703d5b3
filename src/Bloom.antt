-- ===== src/Bloom.antt =====
-- `class BloomFilter` of src/BloomFilter.cpp.
pub mod Membership
pub mod Codec
pub mod Filled
use lsmtree.Base.{
  ℕ, zero, suc, ◌+◌, ◌-◌, ◌*◌, ◌/◌, ◌%◌, ◌^◌, List, [], ◌∷◌, bit_and, bit_or, bit_xor, get_or, set,
  replicate, ◌==◌, if◌then◌else◌, Bool, true, false,
}
use lsmtree.Text.{Str}

pub record BloomFilter : Type 0 where
  pub words : List ℕ
  pub bit_count : ℕ
  pub hash_count : ℕ

abbrev pub bits_per_word : ℕ
bits_per_word = 64

-- `wordCountFor`, in 64-bit arithmetic
unfoldable pub word_count_for : ℕ → ℕ
word_count_for bit_count = (bit_count + bits_per_word - 1) % 2 ^ 64 / bits_per_word

abbrev fnv_offset_basis : ℕ
fnv_offset_basis = 0xcbf29ce484222325

abbrev fnv_prime : ℕ
fnv_prime = 0x100000001b3

fnv1a_from : ℕ → Str → ℕ
fnv1a_from hash [] = hash
fnv1a_from hash (c ∷ key) = fnv1a_from (bit_xor hash c * fnv_prime % 2 ^ 64) key

-- `getFNV1a`
unfoldable pub get_fnv1a : Str → ℕ
unfolding fnv1a_from
get_fnv1a key = fnv1a_from fnv_offset_basis key

-- `BloomFilter::BloomFilter` and `fromParameters`: all bits are zero.
unfoldable pub from_parameters : ℕ → ℕ → BloomFilter
from_parameters bit_count hash_count = record {
  words = replicate (word_count_for bit_count) 0;
  bit_count = bit_count;
  hash_count = hash_count;
}

-- `getBitPosition`. The two hashes are uint32_t, the sum and the product uint64_t.
unfoldable pub get_bit_position : BloomFilter → Str → ℕ → ℕ
get_bit_position b key hash_index =
    let hash = get_fnv1a key in
    let first_hash = hash / 2 ^ 32 % 2 ^ 32 in
    let low = hash % 2 ^ 32 in
    let second_hash = if low == 0 then 1 else low in
    (first_hash + hash_index * second_hash) % 2 ^ 64 % b.bit_count

-- `words_[bitPosition / 64] |= 1 << (bitPosition % 64)`
unfoldable pub set_bit : List ℕ → ℕ → List ℕ
set_bit words position =
    set words (position / bits_per_word)
      (bit_or (get_or words (position / bits_per_word) 0) (2 ^ (position % bits_per_word)))

-- The test of one bit.
unfoldable pub has_bit : List ℕ → ℕ → Bool
has_bit words position =
    if bit_and (get_or words (position / bits_per_word) 0) (2 ^ (position % bits_per_word)) == 0
    then false
    else true

-- The loop of `add`, for the rounds that are left.
unfoldable pub add_rounds : ℕ → ℕ → BloomFilter → Str → BloomFilter
add_rounds zero hash_index b key = b
add_rounds (suc rounds) hash_index b key =
    add_rounds rounds (suc hash_index)
      (record b { words = set_bit b.words (get_bit_position b key hash_index) }) key

-- `add`
unfoldable pub add : BloomFilter → Str → BloomFilter
add b key = add_rounds b.hash_count 0 b key

-- The loop of `mightContain`.
unfoldable pub contain_rounds : ℕ → ℕ → BloomFilter → Str → Bool
contain_rounds zero hash_index b key = true
contain_rounds (suc rounds) hash_index b key =
    let rest = contain_rounds rounds (suc hash_index) b key in
    if has_bit b.words (get_bit_position b key hash_index) then rest else false

-- `mightContain`
unfoldable pub might_contain : BloomFilter → Str → Bool
might_contain b key = contain_rounds b.hash_count 0 b key
