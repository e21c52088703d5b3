-- ===== src/Bloom/Codec.antt =====
-- `BloomFilter::Serialize` and `fromBytes`.
use lsmtree.Base.{
  ℕ, zero, suc, ◌+◌, ◌*◌, ◌%◌, ◌^◌, ◌<◌, ◌≡◌, refl, List, [], ◌∷◌, ◌++◌, length, take, drop, ltb,
  ◌==◌, ◌||◌, not, true, false, All, arith, length-append,
}
use lsmtree.Base.Checked.{Checked, ok, ◌>>◌, require}
use lsmtree.Bloom.{BloomFilter, word_count_for}
use lsmtree.Text.{Str}
use lsmtree.Text.Words.{
  le_bytes, le_number, length-le_bytes, le_number-le_bytes, take-le_bytes, drop-le_bytes,
}

abbrev pub serialized_header_size : ℕ
serialized_header_size = 16

-- The two messages of `std::length_error`.
pub data FilterError : Type 0 where
  not_words wrong_size : FilterError

unfoldable pub write_words : List ℕ → Str
write_words [] = []
write_words (w ∷ ws) = le_bytes 8 w ++ write_words ws

-- `Serialize`
unfoldable pub serialize : BloomFilter → Str
serialize b = le_bytes 8 b.bit_count ++ (le_bytes 8 b.hash_count ++ write_words b.words)

-- The loop of `fromBytes`, for the words that are left.
unfoldable pub read_words : ℕ → Str → List ℕ
read_words zero bytes = []
read_words (suc n) bytes = le_number (take 8 bytes) ∷ read_words n (drop 8 bytes)

-- `fromBytes`. The size that is compared is a product and a sum in 64 bits.
unfoldable pub from_bytes : Str → Checked FilterError BloomFilter
from_bytes bytes =
    let bit_count = le_number (take 8 bytes) in
    let count = word_count_for bit_count in
    require (not (ltb (length bytes) serialized_header_size || not (length bytes % 8 == 0)))
      not_words
    >> (require (length bytes == (serialized_header_size + count * 8) % 2 ^ 64) wrong_size
        >> ok (record {
          words = read_words count (drop 8 (drop 8 bytes));
          bit_count = bit_count;
          hash_count = le_number (take 8 (drop 8 bytes));
        }))

length-write_words : (ws : List ℕ) → length (write_words ws) ≡ 8 * length ws
unfolding write_words
length-write_words [] = refl
length-write_words (w ∷ ws) = omega (
  arith,
  length-append (le_bytes 8 w) (write_words ws),
  length-le_bytes 8 w,
  length-write_words ws,
)

pub length-serialize : (b : BloomFilter) → length (serialize b) ≡ 16 + 8 * length b.words
unfolding serialize
length-serialize b = omega (
  arith,
  length-append (le_bytes 8 b.bit_count) (le_bytes 8 b.hash_count ++ write_words b.words),
  length-append (le_bytes 8 b.hash_count) (write_words b.words),
  length-le_bytes 8 b.bit_count,
  length-le_bytes 8 b.hash_count,
  length-write_words b.words,
)

read_words-write_words :
    (ws : List ℕ) → All (λ w. w < 2 ^ 64) ws → read_words (length ws) (write_words ws) ≡ ws
unfolding read_words write_words
read_words-write_words [] h = refl
read_words-write_words (w ∷ ws) h =
    rw
      (
        take-le_bytes 8 w (write_words ws),
        drop-le_bytes 8 w (write_words ws),
        le_number-le_bytes 8 w h.0,
        read_words-write_words ws h.1,
      )
      refl

-- The numbers of a filter fit 64 bits, it has as many words as its bit count asks for, and its bytes are
-- fewer than 2^64.
pub record FitsFilter (b : BloomFilter) : Type 0 where
  pub bit_count : b.bit_count < 2 ^ 64
  pub hash_count : b.hash_count < 2 ^ 64
  pub words : All (λ w. w < 2 ^ 64) b.words
  pub sized : word_count_for b.bit_count ≡ length b.words
  pub short : 16 + 8 * length b.words < 2 ^ 64

bit_count_field : (b : BloomFilter) → FitsFilter b → le_number (take 8 (serialize b)) ≡ b.bit_count
unfolding serialize
bit_count_field b f =
    rw
      (
        take-le_bytes 8 b.bit_count (le_bytes 8 b.hash_count ++ write_words b.words),
        le_number-le_bytes 8 b.bit_count f.bit_count,
      )
      refl

behind_bit_count :
    (b : BloomFilter) → drop 8 (serialize b) ≡ le_bytes 8 b.hash_count ++ write_words b.words
unfolding serialize
behind_bit_count b = drop-le_bytes 8 b.bit_count (le_bytes 8 b.hash_count ++ write_words b.words)

-- A filter whose numbers fit 64 bits, that has the words its bit count asks for, and whose bytes are
-- fewer than 2^64, is read back as it was serialized.
pub from_bytes-serialize : (b : BloomFilter) → FitsFilter b → from_bytes (serialize b) ≡ ok b
unfolding from_bytes
from_bytes-serialize b f =
    let long : (ltb (length (serialize b)) 16 || not (length (serialize b) % 8 == 0)) ≡ false =
      ground (arith, length-serialize b) in
    let size : (length (serialize b) == (16 + length b.words * 8) % 2 ^ 64) ≡ true =
      ground (arith, length-serialize b, f.short) in
    rw
      (
        bit_count_field b f,
        f.sized,
        long,
        size,
        behind_bit_count b,
        take-le_bytes 8 b.hash_count (write_words b.words),
        drop-le_bytes 8 b.hash_count (write_words b.words),
        le_number-le_bytes 8 b.hash_count f.hash_count,
        read_words-write_words b.words f.words,
      )
      refl
