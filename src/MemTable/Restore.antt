-- ===== src/MemTable/Restore.antt =====
-- The constructor of `MemTable`, `WALFileWriter`'s and `restoreFromWAL`. The file is the content
-- that the path names, or `none` where there is no such file. The system calls that set a log up
-- succeed; those that append to it may fail (Wal/Writer.antt).
use lsmtree.Base.{
  ℕ, [], ◌∷◌, ◌++◌, length, drop, get_or, ltb, ◌==◌, not, if◌then◌else◌, false, Option, none, some,
}
use lsmtree.Base.Checked.{Checked, ok, ◌>>=◌, ◌>>◌, require}
use lsmtree.Text.{Str}
use lsmtree.Text.Affix.{starts_with}
use lsmtree.Wal.{Corruption, invalid_format, wal_magic, wal_version, wal_header_size}
use lsmtree.Wal.Frames.{parse_wal_records}
use lsmtree.Wal.Writer.{WalFileWriter, truncate}
use lsmtree.MemTable.{MemTable, apply_all}

abbrev pub wal_header : Str
wal_header = wal_magic ++ wal_version ∷ []

-- `WALFileWriter::WALFileWriter`: a new file gets the header, an old one is left as it is.
unfoldable pub open_writer : Option Str → WalFileWriter
open_writer none = record { file = wal_header; poisoned = false }
open_writer (some content) = record { file = content; poisoned = false }

abbrev pub fresh : WalFileWriter → MemTable
fresh w = record { table = []; wal_writer = w; current_size_bytes = 0; current_seq = 0 }

-- A tail that was not recovered is cut off.
abbrev pub cut : MemTable → Str → ℕ → MemTable
cut m content last_good =
    if last_good == length content
    then m
    else record m { wal_writer = truncate m.wal_writer last_good }

-- `restoreFromWAL`
unfoldable pub restore_from_wal : MemTable → Str → Checked Corruption MemTable
restore_from_wal m content =
    require (not (ltb (length content) wal_header_size)) invalid_format
    >> (require (starts_with content wal_magic) invalid_format
        >> (require (get_or content 4 0 == wal_version) invalid_format
            >> (parse_wal_records (drop wal_header_size content) wal_header_size
                >>= λ (entries, last_good). ok (cut (apply_all m entries) content last_good))))

-- `MemTable::MemTable`
unfoldable pub open_mem_table : Option Str → Checked Corruption MemTable
open_mem_table file = let w = open_writer file in restore_from_wal (fresh w) w.file
