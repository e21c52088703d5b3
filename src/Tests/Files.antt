-- ===== src/Tests/Files.antt =====
-- Tests of table files.
use lsmtree.Base.{◌≡◌, refl, [], ◌∷◌, ◌++◌, All, arith, inl}
use lsmtree.Base.Checked.{ok}
use lsmtree.Compaction.Slices.{bytes_of}
use lsmtree.Record.Sorted.{IsSorted}
use lsmtree.Record.Visible.{visible, result_of}
use lsmtree.SsTable.{iterate_records, search_block}
use lsmtree.SsTable.Footer.{Footer}
use lsmtree.SsTable.RoundTrip.{FitsTableRecord, all_record_bytes, iterate_records-all_record_bytes}
use lsmtree.SsTable.Search.{search_block-all_record_bytes}
use lsmtree.Tests.{two_puts}
use lsmtree.Text.{compare_str}

two_puts-FitsTableRecord : All FitsTableRecord two_puts
two_puts-FitsTableRecord = (
  record { seq = omega arith; key = omega arith; value = omega arith },
  (record { seq = omega arith; key = omega arith; value = omega arith }, tt),
)

iterate_records-all_record_bytes_example :
    iterate_records 2 (bytes_of two_puts) (all_record_bytes two_puts ++ 7 ∷ []) ≡ ok two_puts
iterate_records-all_record_bytes_example =
    iterate_records-all_record_bytes two_puts (7 ∷ []) two_puts-FitsTableRecord

two_puts_in_order : IsSorted two_puts
unfolding compare_str
two_puts_in_order = ((inl refl, tt), (tt, tt))

search_block-all_record_bytes_example :
    search_block 2 (bytes_of two_puts) (b'b' ∷ []) 9 (all_record_bytes two_puts ++ 7 ∷ [])
    ≡ ok (result_of (visible (b'b' ∷ []) 9 two_puts))
search_block-all_record_bytes_example =
    search_block-all_record_bytes two_puts (b'b' ∷ []) 9 (7 ∷ []) two_puts-FitsTableRecord
      two_puts_in_order

abbrev small_footer : Footer
small_footer = record { records_size = 46; bloom_size = 24; index_size = 13 }
