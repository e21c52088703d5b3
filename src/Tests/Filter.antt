-- ===== src/Tests/Filter.antt =====
-- Tests of the Bloom filter.
use lsmtree.Base.{◌≡◌, refl, [], ◌∷◌, true, false, arith, inl}
use lsmtree.Bloom.{
  BloomFilter, from_parameters, word_count_for, might_contain, contain_rounds, has_bit,
  get_bit_position, get_fnv1a,
}
use lsmtree.Base.Checked.{ok}
use lsmtree.Bloom.Codec.{FitsFilter, serialize, from_bytes, from_bytes-serialize}
use lsmtree.Bloom.Membership.{add_all, might_contain-add_all, from_parameters-IsValid}

-- A filter of 128 bits and 3 hashes.
abbrev small : BloomFilter
small = from_parameters 128 3

might_contain-add_all_example :
    might_contain (add_all small ((b'a' ∷ []) ∷ (b'b' ∷ []) ∷ [])) (b'a' ∷ []) ≡ true
might_contain-add_all_example =
    might_contain-add_all small ((b'a' ∷ []) ∷ (b'b' ∷ []) ∷ []) (b'a' ∷ [])
      (from_parameters-IsValid 128 3 (omega arith) (omega arith)) (inl refl)

-- The offset basis is the hash of the empty text, and an empty filter holds no key.
hash_run : get_fnv1a [] ≡ 0xcbf29ce484222325
unfolding get_fnv1a
hash_run = refl

empty_run : might_contain small (b'a' ∷ []) ≡ false
unfolding from_parameters word_count_for might_contain contain_rounds has_bit get_bit_position
    get_fnv1a
empty_run = refl

-- The words of the small filter are zero.
small-FitsFilter : FitsFilter small
unfolding from_parameters word_count_for
small-FitsFilter = record {
  bit_count = omega arith;
  hash_count = omega arith;
  words = (omega arith, (omega arith, tt));
  sized = refl;
  short = omega arith;
}

from_bytes-serialize_example : from_bytes (serialize small) ≡ ok small
from_bytes-serialize_example = from_bytes-serialize small small-FitsFilter
