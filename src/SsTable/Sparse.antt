-- ===== src/SsTable/Sparse.antt =====
-- The sparse index of a table file, src/SSTable.cpp: how it is made, written, read and searched.
use lsmtree.Base.{
  ℕ, zero, suc, ◌+◌, ◌-◌, ◌%◌, ◌^◌, List, [], ◌∷◌, ◌++◌, length, take, drop, ltb, leb, ◌==◌, ◌||◌,
  not, if◌then◌else◌, Bool, true, Option, none, some,
}
use lsmtree.Base.Checked.{Checked, ok, err, ◌>>=◌, ◌>>◌, require}
use lsmtree.Record.{Record, encoded_record_size}
use lsmtree.Text.{Str, str_lt, str_le}
use lsmtree.Text.Words.{le_bytes, le_number}

-- `Index`
pub record Index : Type 0 where
  pub key_size : ℕ
  pub key : Str
  pub offset : ℕ

-- The messages of the exceptions.
pub data IndexError : Type 0 where
  index_header index_key_size index_length index_key index_offset index_order first_offset :
      IndexError
  -- no exception of the program: the fuel of a loop ran out
  no_fuel : IndexError

abbrev pub block_size : ℕ
block_size = 4096

abbrev pub index_metadata_size : ℕ
index_metadata_size = 12

abbrev pub index_of_record : Record → ℕ → Index
index_of_record r records_size = record {
  key_size = length r.key % 2 ^ 32;
  key = r.key;
  offset = records_size;
}

-- The loop of `addRecordToFile`: the indices, from the size of the records and of the block so far.
unfoldable pub make_indices : ℕ → ℕ → List Record → List Index
make_indices records_size block [] = []
make_indices records_size block (r ∷ rs) =
    let bytes = encoded_record_size r in
    let new = make_indices ((records_size + bytes) % 2 ^ 64) (bytes % 2 ^ 64) rs in
    let old = make_indices ((records_size + bytes) % 2 ^ 64) ((block + bytes) % 2 ^ 64) rs in
    if records_size == 0 || ltb block_size block then index_of_record r records_size ∷ new else old

-- `serializedIndexSize`
abbrev pub serialized_index_size : Index → ℕ
serialized_index_size i = index_metadata_size + length i.key

-- `writeIndex`
unfoldable pub write_index : Index → Str
write_index i = le_bytes 4 i.key_size ++ (i.key ++ le_bytes 8 i.offset)

unfoldable pub write_indices : List Index → Str
write_indices [] = []
write_indices (i ∷ is) = write_index i ++ write_indices is

-- `input.read` of `n` bytes
unfoldable pub read_part : ℕ → IndexError → Str → Checked IndexError (Str × Str)
read_part n e s = if ltb (length s) n then err e else ok (take n s, drop n s)

-- `readIndex`
unfoldable pub read_index : ℕ → Str → Checked IndexError (Index × Str)
read_index available s = do
  require (not (ltb available index_metadata_size)) index_header
  (size, s) ← read_part 4 index_key_size s
  let key_size = le_number size
  require (not (ltb (available - index_metadata_size) key_size)) index_length
  (key, s) ← read_part key_size index_key s
  (offset, s) ← read_part 8 index_offset s
  ok (record { key_size = key_size; key = key; offset = le_number offset }, s)

-- Whether an index may stand behind the last one.
abbrev pub in_order : Option Index → Index → Bool
in_order none i = true
in_order (some back) i = not (leb i.offset back.offset || str_lt i.key back.key)

-- The loop of `readSparseIndex`, with the last index that was read.
unfoldable pub read_indices : ℕ → ℕ → ℕ → Option Index → Str → Checked IndexError (List Index)
read_indices zero left records_size back s = if left == 0 then ok [] else err no_fuel
read_indices (suc fuel) left records_size back s =
    if left == 0
    then ok []
    else read_index left s >>= λ (i, rest).
        require (ltb i.offset records_size) index_offset
        >> (require (in_order back i) index_order
            >> (read_indices fuel (left - serialized_index_size i) records_size (some i) rest
                >>= λ is. ok (i ∷ is)))

-- The first index stands for the first record.
abbrev pub check_first : List Index → Checked IndexError (List Index)
check_first [] = ok []
check_first (i ∷ is) = require (i.offset == 0) first_offset >> ok (i ∷ is)

-- `readSparseIndex`, of the bytes from the index on; every index takes some bytes.
unfoldable pub read_sparse_index : ℕ → ℕ → Str → Checked IndexError (List Index)
read_sparse_index index_size records_size s =
    read_indices index_size index_size records_size none s >>= λ is. check_first is

-- The position at which the test becomes false: what stands in front of it, and from it on.
unfoldable pub split_indices : (Index → Bool) → List Index → List Index × List Index
split_indices test [] = ([], [])
split_indices test (i ∷ is) =
    let (front, back) = split_indices test is in if test i then (i ∷ front, back) else ([], i ∷ is)

-- `std::prev(position)`, behind a first index
unfoldable pub last_index : Index → List Index → Index
last_index i [] = i
last_index i (j ∷ is) = last_index j is

abbrev pub block_end : ℕ → List Index → ℕ
block_end records_size [] = records_size
block_end records_size (i ∷ is) = i.offset

-- The loop over the next blocks, from the position on.
abbrev pub next_block : Str → List Index → List Index
next_block key is = (split_indices (λ i. str_le i.key key) is).1

-- `getBlock` behind `std::lower_bound`: what stands in front of the position, and from it on.
abbrev pub block_at : ℕ → Str → List Index × List Index → Option (Index × ℕ)
block_at records_size key ([], []) = none
block_at records_size key ([], p ∷ back) =
    if str_lt key p.key then none else some (p, block_end records_size (next_block key (p ∷ back)))
block_at records_size key (f ∷ front, []) =
    let p = last_index f front in some (p, block_end records_size (next_block key (p ∷ [])))
block_at records_size key (f ∷ front, q ∷ back) =
    let p = last_index f front in
    if str_le key q.key
    then some (p, block_end records_size (next_block key (p ∷ q ∷ back)))
    else some (q, block_end records_size (next_block key (q ∷ back)))

-- `getBlock`
unfoldable pub get_block : ℕ → List Index → Str → Option (Index × ℕ)
get_block records_size indices key =
    block_at records_size key (split_indices (λ i. str_lt i.key key) indices)
