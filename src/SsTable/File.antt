-- ===== src/SsTable/File.antt =====
-- A whole table file, src/SSTable.cpp: `addRecordToFile`, the constructor of SSTable, `get`, and the
-- iterator. How many bits and hashes `BloomFilter::forEntries` takes for so many entries is a
-- parameter: it computes them with floating-point numbers.
use lsmtree.Base.{
  ℕ, ◌+◌, ◌-◌, ◌%◌, ◌^◌, List, [], ◌∷◌, ◌++◌, map, length, take, drop, ltb, if◌then◌else◌, Option,
  none, some,
}
use lsmtree.Base.Checked.{Checked, ok, err}
use lsmtree.Bloom.{BloomFilter, from_parameters, might_contain}
use lsmtree.Bloom.Membership.{add_all}
use lsmtree.Bloom.Codec.{serialize, from_bytes}
use lsmtree.Record.{Record, Result, encoded_record_size}
use lsmtree.SsTable.{add_records, iterate_records, search_block}
use lsmtree.SsTable.Footer.{Footer, footer_size, read_footer, validate_footer, write_footer}
use lsmtree.SsTable.Sparse.{
  Index, make_indices, serialized_index_size, write_indices, read_sparse_index, get_block,
}
use lsmtree.Text.{Str}

-- A value, unless something was thrown.
abbrev pub returned : {E A B : Type 0} → Checked E A → (A → Option B) → Option B
returned (err e) f = none
returned (ok a) f = f a

abbrev pub BloomSizes : Type 0
BloomSizes = ℕ → ℕ × ℕ

-- `forEntries`, and the calls of `add`
abbrev pub filter_of : BloomSizes → List Record → BloomFilter
filter_of sizes rs =
    let (bits, hashes) = sizes (length rs) in
    add_all (from_parameters bits hashes) (map (λ (r : Record). r.key) rs)

-- Sums of sizes in 64 bits.
unfoldable pub add_sizes : ℕ → List ℕ → ℕ
add_sizes total [] = total
add_sizes total (n ∷ ns) = add_sizes ((total + n) % 2 ^ 64) ns

abbrev pub records_size_of : List Record → ℕ
records_size_of rs = add_sizes 0 (map encoded_record_size rs)

abbrev pub index_size_of : List Index → ℕ
index_size_of is = add_sizes 0 (map serialized_index_size is)

-- The parts of a file behind the bytes of its records.
unfoldable pub file_tail : BloomSizes → List Record → Str
file_tail sizes rs =
    let bloom = serialize (filter_of sizes rs) in
    let indices = make_indices 0 0 rs in
    bloom
    ++ (write_indices indices
        ++ write_footer (record {
          records_size = records_size_of rs;
          bloom_size = length bloom;
          index_size = index_size_of indices;
        }))

-- `addRecordToFile`: the bytes of the file, and the size that it returns; `none` is an exception.
unfoldable pub add_record_to_file : BloomSizes → List Record → Option (Str × ℕ)
add_record_to_file sizes [] = none
add_record_to_file sizes (r ∷ rs) = returned (add_records (r ∷ rs)) (λ bytes. some (
  bytes ++ file_tail sizes (r ∷ rs),
  add_sizes 0 (
      records_size_of (r ∷ rs)
      ∷ length (serialize (filter_of sizes (r ∷ rs)))
      ∷ index_size_of (make_indices 0 0 (r ∷ rs))
      ∷ footer_size
      ∷ []),
))

-- The members of `SSTable` but for the path.
pub record SsTable : Type 0 where
  pub records_size : ℕ
  pub bloom_filter : BloomFilter
  pub indices : List Index

-- The end of the constructor: a table has some index.
abbrev pub with_indices : ℕ → BloomFilter → List Index → Option SsTable
with_indices records_size filter [] = none
with_indices records_size filter (i ∷ is) =
    some (record { records_size = records_size; bloom_filter = filter; indices = i ∷ is })

-- The constructor behind the footer.
unfoldable pub open_parts : Footer → Str → Option SsTable
open_parts f file =
    let behind = drop f.records_size file in
    if ltb (length behind) f.bloom_size
    then none
    else returned (from_bytes (take f.bloom_size behind)) (λ filter.
      returned
        (read_sparse_index f.index_size f.records_size (drop (f.records_size + f.bloom_size) file))
        (λ indices. with_indices f.records_size filter indices))

-- The constructor of SSTable, of the bytes of a file.
unfoldable pub open_table : Str → Option SsTable
open_table file =
    returned (read_footer file)
      (λ f. returned (validate_footer f (length file)) (λ u. open_parts f file))

-- `get` behind `getBlock`; every record takes some bytes.
abbrev pub search_found_block : Str → Str → ℕ → Option (Index × ℕ) → Option Result
search_found_block file key read_seq none = some Result.absent
search_found_block file key read_seq (some (first, block_end)) =
    let left = block_end - first.offset in
    returned (search_block left left key read_seq (drop first.offset file)) (λ r. some r)

-- `get`
unfoldable pub get : SsTable → Str → Str → ℕ → Option Result
get t file key read_seq =
    if might_contain t.bloom_filter key
    then search_found_block file key read_seq (get_block t.records_size t.indices key)
    else some Result.absent

-- What the iterator of a file gives.
unfoldable pub read_file : Str → Option (List Record)
read_file file = returned (read_footer file) (λ f.
    returned (validate_footer f (length file))
      (λ u. returned (iterate_records f.records_size f.records_size file) (λ rs. some rs)))
