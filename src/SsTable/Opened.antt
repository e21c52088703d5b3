-- ===== src/SsTable/Opened.antt =====
-- A table file that was written is opened as what was written.
use lsmtree.Base.{
  ◌*◌, ℕ, ◌+◌, ◌%◌, ◌^◌, ◌<◌, ◌≤◌, ◌≡◌, ◌∙◌, refl, sym, ap, subst, List, [], ◌∷◌, ◌++◌, length, map,
  take, drop, ltb, ◌==◌, true, false, none, some, All, All_map, arith, append_assoc, length-append,
  take-append, drop-append,
}
use lsmtree.Base.Checked.{ok}
use lsmtree.Bloom.{BloomFilter}
use lsmtree.Bloom.Codec.{serialize, from_bytes, from_bytes-serialize, length-serialize, FitsFilter}
use lsmtree.Bloom.Filled.{add_all-FitsFilter}
use lsmtree.Compaction.Slices.{bytes_of}
use lsmtree.Record.{Record, encoded_record_size}
use lsmtree.Record.Sorted.{IsSorted}
use lsmtree.Checksum.{crc32}
use lsmtree.SsTable.{record_header_bytes}
use lsmtree.SsTable.Blocks.{indices_of, blocks_of, cut_blocks, flat-blocks_of, make_indices_lem}
use lsmtree.SsTable.File.{
  BloomSizes, filter_of, add_sizes, records_size_of, index_size_of, file_tail, SsTable, open_parts,
  open_table,
}
use lsmtree.SsTable.Footer.{
  Footer, read_footer, validate_footer, write_footer, read_footer-write_footer,
  validate_footer-eq-ok, length-write_footer,
}
use lsmtree.SsTable.IndexRead.{
  AreAccepted, length-write_index, read_indices-write_indices, indices_of-AreAccepted,
}
use lsmtree.SsTable.RoundTrip.{
  FitsTableRecord, record_bytes, all_record_bytes, length-record_header_bytes,
}
use lsmtree.SsTable.Sparse.{
  write_index, index_of_record, Index, make_indices, serialized_index_size, write_indices,
  read_sparse_index,
}
use lsmtree.Text.{Str}
use lsmtree.Text.Words.{le_bytes, length-le_bytes}

length-record_bytes : (r : Record) → length (record_bytes r) ≡ encoded_record_size r
unfolding record_bytes
length-record_bytes r =
    let encoded = record_header_bytes r ++ (r.key ++ r.value) in
    omega (
      arith,
      length-append encoded (le_bytes 4 (crc32 encoded)),
      length-append (record_header_bytes r) (r.key ++ r.value),
      length-append r.key r.value,
      length-record_header_bytes r,
      length-le_bytes 4 (crc32 encoded),
    )

pub length-all_record_bytes : (rs : List Record) → length (all_record_bytes rs) ≡ bytes_of rs
unfolding all_record_bytes bytes_of
length-all_record_bytes [] = refl
length-all_record_bytes (r ∷ rs) = omega (
  arith,
  length-append (record_bytes r) (all_record_bytes rs),
  length-record_bytes r,
  length-all_record_bytes rs,
)

unfoldable sum : List ℕ → ℕ
sum [] = 0
sum (n ∷ ns) = n + sum ns

add_sizes_lem :
    (total : ℕ) (ns : List ℕ) → total + sum ns < 2 ^ 64 → add_sizes total ns ≡ total + sum ns
unfolding add_sizes sum
add_sizes_lem total [] h = omega arith
add_sizes_lem total (n ∷ ns) h =
    let moved : (total + n) % 2 ^ 64 ≡ total + n = omega (arith, h) in
    rw moved (omega (arith, add_sizes_lem (total + n) ns (omega (arith, h))))

sum_records : (rs : List Record) → sum (map encoded_record_size rs) ≡ bytes_of rs
unfolding sum bytes_of
sum_records [] = refl
sum_records (r ∷ rs) = omega (arith, sum_records rs)

sum_indices : (is : List Index) → sum (map serialized_index_size is) ≡ length (write_indices is)
unfolding sum write_indices
sum_indices [] = refl
sum_indices (i ∷ is) =
    omega (
      arith,
      sum_indices is,
      length-write_index i,
      length-append (write_index i) (write_indices is),
    )

-- What is known of the numbers of a filter of so many keys.
pub record SizesFit (sizes : BloomSizes) : Type 0 where
  pub some_bits : (n : ℕ) → 0 < n → n < 2 ^ 59 → 0 < (sizes n).0
  pub bits : (n : ℕ) → 0 < n → n < 2 ^ 59 → (sizes n).0 + 63 < 2 ^ 64
  pub hashes : (n : ℕ) → 0 < n → n < 2 ^ 59 → (sizes n).1 < 2 ^ 64

-- The bytes of a whole table.
abbrev pub table_bytes : BloomSizes → List Record → Str
table_bytes sizes rs = all_record_bytes rs ++ file_tail sizes rs

pub many_bytes : (rs : List Record) → 16 * length rs ≤ bytes_of rs
unfolding bytes_of
many_bytes [] = omega arith
many_bytes (r ∷ rs) = omega (arith, many_bytes rs)

-- Accepted indices, of which the first is at the front, are read back.
read_sparse_index_lem :
    (records_size : ℕ) (i : Index) (is : List Index) (rest : Str)
    → AreAccepted records_size none (i ∷ is)
    → (i.offset == 0) ≡ true
    → read_sparse_index
        (length (write_indices (i ∷ is)))
        records_size
        (write_indices (i ∷ is) ++ rest)
      ≡ ok (i ∷ is)
unfolding read_sparse_index
read_sparse_index_lem m i is rest a first =
    let n = length (write_indices (i ∷ is)) in
    rw (read_indices-write_indices n n m none (i ∷ is) rest a refl (omega arith), first) refl

open_parts_lem :
    (f : Footer) (file bloom rest : Str) (filter : BloomFilter) (i : Index) (is : List Index)
    → drop f.records_size file ≡ bloom ++ rest
    → f.bloom_size ≡ length bloom
    → from_bytes bloom ≡ ok filter
    → read_sparse_index f.index_size f.records_size (drop (f.records_size + f.bloom_size) file)
      ≡ ok (i ∷ is)
    → open_parts f file
      ≡ some (record { records_size = f.records_size; bloom_filter = filter; indices = i ∷ is })
unfolding open_parts
open_parts_lem f file bloom rest filter i is behind size read indices =
    let long : ltb (length (bloom ++ rest)) f.bloom_size ≡ false =
      ground (arith, size, length-append bloom rest) in
    let cut : take f.bloom_size (bloom ++ rest) ≡ bloom =
      subst (λ (n : ℕ). take n (bloom ++ rest) ≡ bloom) (sym size) (take-append bloom rest) in
    rw (behind, long, cut, read, indices) refl

module _ (sizes : BloomSizes) (good : SizesFit sizes) (r : Record) (rs : List Record)
    (fits : All FitsTableRecord (r ∷ rs)) (sorted : IsSorted (r ∷ rs))
    (short : length (table_bytes sizes (r ∷ rs)) < 2 ^ 63) where
  abbrev all : List Record
  all = r ∷ rs

  abbrev records : Str
  records = all_record_bytes all

  abbrev bloom : Str
  bloom = serialize (filter_of sizes all)

  abbrev indices : List Index
  indices = indices_of 0 (blocks_of r rs)

  abbrev index : Str
  index = write_indices (make_indices 0 0 all)

  abbrev pub footer : Footer
  footer = record {
    records_size = bytes_of all;
    bloom_size = length bloom;
    index_size = length index;
  }

  pub tail_sizes :
      length (table_bytes sizes all) ≡ bytes_of all + (length bloom + (length index + 24))
  unfolding file_tail
  tail_sizes =
      let end = write_footer (record {
        records_size = records_size_of all;
        bloom_size = length bloom;
        index_size = index_size_of (make_indices 0 0 all);
      }) in
      omega (
        arith,
        length-append records (bloom ++ (index ++ end)),
        length-append bloom (index ++ end),
        length-append index end,
        length-all_record_bytes all,
        length-write_footer (record {
          records_size = records_size_of all;
          bloom_size = length bloom;
          index_size = index_size_of (make_indices 0 0 all);
        }),
      )

  made : make_indices 0 0 all ≡ indices
  made = make_indices_lem r rs (omega (arith, short, tail_sizes))

  summed_records : records_size_of all ≡ bytes_of all
  summed_records =
      let s = sum_records all in
      add_sizes_lem 0 (map encoded_record_size all) (omega (arith, s, short, tail_sizes))
      ∙ omega (arith, s)

  summed_indices : index_size_of (make_indices 0 0 all) ≡ length index
  summed_indices =
      let s = sum_indices (make_indices 0 0 all) in
      add_sizes_lem 0 (map serialized_index_size (make_indices 0 0 all))
        (omega (arith, s, short, tail_sizes))
      ∙ omega (arith, s)

  pub tail_lem : file_tail sizes all ≡ bloom ++ (index ++ write_footer footer)
  unfolding file_tail
  tail_lem =
      ap
        (λ (n : ℕ).
          bloom
          ++ (index
              ++ write_footer (record {
                records_size = n;
                bloom_size = length bloom;
                index_size = index_size_of (make_indices 0 0 all);
              })))
        summed_records
      ∙ ap
          (λ (n : ℕ).
            bloom
            ++ (index
                ++ write_footer (record {
                  records_size = bytes_of all;
                  bloom_size = length bloom;
                  index_size = n;
                })))
          summed_indices

  abbrev pub file : Str
  file = records ++ (bloom ++ (index ++ write_footer footer))

  filter_fits : FitsFilter (filter_of sizes all)
  filter_fits =
      let many = many_bytes all in
      let few : length all < 2 ^ 59 = omega (arith, many, short, tail_sizes) in
      let bits = good.bits (length all) (omega arith) few in
      add_all-FitsFilter (sizes (length all)).0 (sizes (length all)).1
        (map (λ (q : Record). q.key) all) (omega (arith, bits))
        (good.hashes (length all) (omega arith) few)
        (omega (arith, length-serialize (filter_of sizes all), short, tail_sizes))

  accepted : AreAccepted (bytes_of all) none indices
  accepted =
      let whole = flat-blocks_of r rs in
      indices_of-AreAccepted (bytes_of all) 0 none (blocks_of r rs)
        (subst IsSorted (sym whole) sorted)
        (subst (All (λ q. length q.key < 2 ^ 32)) (sym whole)
          (All_map FitsTableRecord (λ q. length q.key < 2 ^ 32) all (λ q f. f.key) fits))
        (omega (arith, ap bytes_of whole)) (omega (arith, short, tail_sizes)) tt

  index_read :
      read_sparse_index (length index) (bytes_of all) (index ++ write_footer footer) ≡ ok indices
  unfolding indices_of
  index_read =
      subst
        (λ is.
          read_sparse_index (length (write_indices is)) (bytes_of all)
            (write_indices is ++ write_footer footer)
          ≡ ok indices)
        (sym made)
        (read_sparse_index_lem (bytes_of all) (index_of_record r 0)
          (indices_of (0 + bytes_of (r ∷ (cut_blocks (encoded_record_size r) rs).0))
            (cut_blocks (encoded_record_size r) rs).1)
          (write_footer footer) accepted refl)

  drop_records : drop (bytes_of all) file ≡ bloom ++ (index ++ write_footer footer)
  drop_records =
      subst (λ (n : ℕ). drop n file ≡ bloom ++ (index ++ write_footer footer))
        (length-all_record_bytes all)
        (drop-append records (bloom ++ (index ++ write_footer footer)))

  drop-bloom : drop (bytes_of all + length bloom) file ≡ index ++ write_footer footer
  drop-bloom =
      let size : length (records ++ bloom) ≡ bytes_of all + length bloom =
        omega (arith, length-append records bloom, length-all_record_bytes all) in
      subst (λ (n : ℕ). drop n file ≡ index ++ write_footer footer) size
        (subst (λ s. drop (length (records ++ bloom)) s ≡ index ++ write_footer footer)
          (append_assoc records bloom (index ++ write_footer footer))
          (drop-append (records ++ bloom) (index ++ write_footer footer)))

  -- The table as it is opened.
  abbrev pub opened : SsTable
  opened = record {
    records_size = bytes_of all;
    bloom_filter = filter_of sizes all;
    indices = indices;
  }

  parts_lem : open_parts footer file ≡ some opened
  unfolding indices_of
  parts_lem =
      open_parts_lem footer file bloom (index ++ write_footer footer) (filter_of sizes all)
        (index_of_record r 0)
        (indices_of (0 + bytes_of (r ∷ (cut_blocks (encoded_record_size r) rs).0))
          (cut_blocks (encoded_record_size r) rs).1)
        drop_records refl (from_bytes-serialize (filter_of sizes all) filter_fits)
        (ap (read_sparse_index (length index) (bytes_of all)) drop-bloom ∙ index_read)

  pub footer_read : read_footer file ≡ ok footer
  footer_read =
      subst (λ s. read_footer s ≡ ok footer)
        (append_assoc records (bloom ++ index) (write_footer footer)
          ∙ ap (◌++◌ records) (append_assoc bloom index (write_footer footer)))
        (read_footer-write_footer (records ++ (bloom ++ index)) footer
          (omega (arith, short, tail_sizes)) (omega (arith, short, tail_sizes))
          (omega (arith, short, tail_sizes)))

  pub footer_valid : validate_footer footer (length file) ≡ ok tt
  footer_valid = (validate_footer-eq-ok footer (length file)).1 (
    unfold bytes_of in omega arith,
    omega (arith, tail_sizes, ap (λ s. length (records ++ s)) tail_lem),
  )

  pub open_table_lem : open_table (table_bytes sizes all) ≡ some opened
  unfolding open_table
  open_table_lem =
      subst (λ s. open_table (records ++ s) ≡ some opened) (sym tail_lem)
        (rw (footer_read, footer_valid) parts_lem)
