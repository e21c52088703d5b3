-- ===== src/Tests/DiskFiles.antt =====
-- Table files on a disk of which every call succeeds; a filter has 64 bits and one hash.
use lsmtree.Base.{ℕ, ◌≡◌, ◌⊎◌, refl, List, [], ◌∷◌, true, none, some, inl, inr, arith}
use lsmtree.Record.{Record}
use lsmtree.Record.Visible.{visible, result_of}
use lsmtree.SsTable.Disk.{WriteAnswer, Disk, disk_files}
use lsmtree.SsTable.DiskSteps.{AllOpen}
use lsmtree.SsTable.DiskLaws.{search_table-write_table, disk_laws, missing-IsFree, all_open-Reads}
use lsmtree.SsTable.File.{BloomSizes}
use lsmtree.SsTable.Opened.{SizesFit}
use lsmtree.TableFiles.{TableFiles, TableLaws}
use lsmtree.Tests.{put_a}

abbrev pub small_filters : BloomSizes
small_filters n = (64, 1)

pub small_filters_fit : SizesFit small_filters
small_filters_fit = record {
  some_bits = λ n u v. omega arith;
  bits = λ n u v. omega arith;
  hashes = λ n u v. omega arith;
}

abbrev pub table_files : TableFiles
table_files = disk_files small_filters

abbrev pub table_laws : TableLaws table_files
table_laws = disk_laws small_filters small_filters_fit

abbrev pub empty_disk : Disk
empty_disk = record {
  files = λ n. none;
  cache = λ n. none;
  clock = 0;
  writes = λ t. WriteAnswer.done;
  opens = λ t n. true;
  removes = λ t. true;
}

pub is_free : (n : ℕ) → table_laws.IsFree empty_disk n
is_free n = missing-IsFree small_filters small_filters_fit empty_disk n refl refl

pub all_read : (d : Disk) → ((t n : ℕ) → d.opens t n ≡ true) → table_laws.Reads d
all_read d h = all_open-Reads small_filters small_filters_fit d h

-- A table that can be read holds the records of its file.
pub held :
    (d : Disk) (n : ℕ) (rs qs : List Record)
    → table_laws.Reads d
    → table_laws.Holds d n rs
    → table_laws.Holds d n qs
    → rs ≡ qs
held d n rs qs r h g = elim (table_laws.read_gives d n rs h) [
  | inr p ↦ absurd (p.1 r)
  | inl e ↦ elim (table_laws.read_gives d n qs g) [ inr p ↦ absurd (p.1 r) | inl f ↦ cc (e, f) ]
]

abbrev pub disk_a : Disk
disk_a = (table_files.write_table empty_disk 0 (put_a ∷ [])).0

pub wrote : (table_files.write_table empty_disk 0 (put_a ∷ [])).1 ≡ some 84
unfolding lsmtree.SsTable.File.add_record_to_file lsmtree.SsTable.add_records
    lsmtree.SsTable.add_record lsmtree.SsTable.encode_sstable_record
    lsmtree.SsTable.record_header_bytes lsmtree.Text.Words.le_bytes lsmtree.SsTable.File.file_tail
    lsmtree.Bloom.Codec.serialize lsmtree.Bloom.Codec.write_words lsmtree.Bloom.Membership.add_all
    lsmtree.Bloom.add lsmtree.Bloom.add_rounds lsmtree.Bloom.from_parameters lsmtree.Bloom.set_bit
    lsmtree.Bloom.word_count_for lsmtree.Bloom.get_bit_position lsmtree.Bloom.get_fnv1a
    lsmtree.SsTable.Sparse.write_indices lsmtree.Checksum.crc32 lsmtree.SsTable.File.add_sizes
    lsmtree.SsTable.Footer.write_footer lsmtree.SsTable.Sparse.make_indices
    lsmtree.SsTable.Sparse.write_index
wrote = refl

pub measured : table_files.table_size disk_a 0 ≡ some 84
unfolding lsmtree.SsTable.File.add_record_to_file lsmtree.SsTable.add_records
    lsmtree.SsTable.add_record lsmtree.SsTable.encode_sstable_record
    lsmtree.SsTable.record_header_bytes lsmtree.Text.Words.le_bytes lsmtree.SsTable.File.file_tail
    lsmtree.Bloom.Codec.serialize lsmtree.Bloom.Codec.write_words lsmtree.Bloom.Membership.add_all
    lsmtree.Bloom.add lsmtree.Bloom.add_rounds lsmtree.Bloom.from_parameters lsmtree.Bloom.set_bit
    lsmtree.Bloom.word_count_for lsmtree.Bloom.get_bit_position lsmtree.Bloom.get_fnv1a
    lsmtree.SsTable.Sparse.write_indices lsmtree.Checksum.crc32 lsmtree.SsTable.File.add_sizes
    lsmtree.SsTable.Footer.write_footer lsmtree.SsTable.Sparse.make_indices
    lsmtree.SsTable.Sparse.write_index
measured = refl

pub disk_a_opens : (t n : ℕ) → disk_a.opens t n ≡ true
unfolding lsmtree.SsTable.File.add_record_to_file lsmtree.SsTable.add_records
    lsmtree.SsTable.add_record lsmtree.SsTable.encode_sstable_record
    lsmtree.SsTable.record_header_bytes lsmtree.Text.Words.le_bytes lsmtree.SsTable.File.file_tail
    lsmtree.Bloom.Codec.serialize lsmtree.Bloom.Codec.write_words lsmtree.Bloom.Membership.add_all
    lsmtree.Bloom.add lsmtree.Bloom.add_rounds lsmtree.Bloom.from_parameters lsmtree.Bloom.set_bit
    lsmtree.Bloom.word_count_for lsmtree.Bloom.get_bit_position lsmtree.Bloom.get_fnv1a
    lsmtree.SsTable.Sparse.write_indices lsmtree.Checksum.crc32 lsmtree.SsTable.File.add_sizes
    lsmtree.SsTable.Footer.write_footer lsmtree.SsTable.Sparse.make_indices
    lsmtree.SsTable.Sparse.write_index
disk_a_opens t n = refl

pub Holds-a : table_laws.Holds disk_a 0 (put_a ∷ [])
Holds-a =
    table_laws.write_holds empty_disk 0 (put_a ∷ []) 84 (is_free 0) (tt, tt) (omega arith, tt) wrote

search_table-write_table_example :
    (((table_files.search_table disk_a 0 (b'a' ∷ []) 5).1
        ≡ some (result_of (visible (b'a' ∷ []) 5 (put_a ∷ []))))
      ⊎ (((table_files.search_table disk_a 0 (b'a' ∷ []) 5).1 ≡ none) × (AllOpen disk_a → ⊥)))
    × ((table_files.read_table disk_a 0 ≡ some (put_a ∷ []))
        ⊎ ((table_files.read_table disk_a 0 ≡ none) × (AllOpen disk_a → ⊥)))
search_table-write_table_example =
    search_table-write_table small_filters small_filters_fit empty_disk 0 (put_a ∷ []) 84
      (b'a' ∷ []) 5 refl refl (tt, tt) (omega arith, tt) wrote
