-- ===== src/Lib.antt =====
-- A model of lsmtree, a key-value store on a log-structured merge tree, and the theorems that make
-- its parts correct.
--
-- The program. A write goes to the write-ahead log and then to the memtable, a map ordered by key
-- and, within a key, newest first. A full memtable becomes a sorted table on level 0; a compaction
-- merges tables of a level into the next. The manifest says which table stands on which level. A
-- read or a scan at a sequence number sees the newest record of a key at or below it. The model
-- follows these parts:
--
--   Base        lists over the native numbers, tests into Bool, results of code that may throw
--   Text        byte strings: order, decimal numbers, little-endian words, prefixes
--   Bits        the two facts on bit_or and bit_and that the Bloom filter needs
--   Checksum    crc32 of src/utils.cpp
--   Record      Type, Result, Entry, Record, Key of inc/utils.h; Record.Visible has the
--               specification of a read, the newest record of a key in view, and Record.Latest says
--               it without an algorithm
--   Wal         the log of src/MemTable.cpp: encodeWALRecord and encodeWALFrame (Wal), WALBatchParser
--               (Wal.Batch), validFrameAt, hasValidFrameAfter and WALParser (Wal.Frames),
--               WALFileWriter (Wal.Writer)
--   MemTable    class MemTable: std::map (MemTable.Map), applyBatch, applyToMemory, get, put, remove,
--               the constructor and restoreFromWAL (MemTable.Restore)
--   Merge       latestVisiblePerKey and retainForCompaction of src/utils.cpp; mergeAll and MergeItem
--               (Merge.Queue)
--   Bloom       src/BloomFilter.cpp; Serialize and fromBytes (Bloom.Codec)
--   Manifest    src/Manifest.cpp: levels and lookup; save and the constructor (Manifest.Codec)
--   SsTable     src/SSTable.cpp: readRecord, the iterator, the search of get in a block, and the footer
--               (SsTable.Footer); encodeSSTableRecord and FileWriter::add of src/utils.cpp; the
--               sparse index and getBlock (SsTable.Sparse); addRecordToFile, the constructor and get
--               on the bytes of a file (SsTable.File); DB::searchTable with the table cache, on a
--               disk of files (SsTable.Disk)
--   Scan        DB::scan and selectScanTables of src/DB.cpp, SnapshotIterator of src/utils.cpp
--   Compaction  the records that DB::compactRange writes, and the slices of writeCompactionOutput
--   TableFiles  what DB asks of the table files: operations, and the laws that say what they do.
--               SsTable.Disk implements the operations by the bytes of the program's own files, and
--               SsTable.DiskLaws proves the laws of them; the tests run the database on it.
--   Database    class DB of src/DB.cpp: the state and the reads (Database), WriteBatch of
--               src/WriteBatch.cpp (Database.Batch), write, put, remove and flush (Database.Flush),
--               the tables that compactions select and the budgets (Database.Select), compactLevel,
--               compactRange and maybeCompact (Database.Compact),
--               class Snapshot (Database.Snapshots). Database.Order has the invariant: which source
--               is newer than which, and that every table of the manifest stands in its file.
--   FileNames   walPath, sstablePath and parseNumberedFile of src/utils.cpp, and the two loops of
--               src/DB.cpp that remove files when a database is opened
--   Faults      src/FaultInjection.cpp, and writeAll of src/utils.cpp
--   Tests       runs, and the theorems at concrete inputs
--
-- How the code is read. A C++ name in camelCase is the same name in snake_case. Strings are lists
-- of bytes. An unsigned integer is a natural number, with the reduction modulo 2^64 or 2^32 written
-- where the code's arithmetic can wrap. Memory copies of integers are little-endian. A std::map and
-- a sorted std::vector are lists in their order, and a binary search on them is the first position
-- at which the predicate changes. A container that the code fills is returned. A throw is a value:
-- `err`, `none` or `false`. An iterator is the list of records that it has still to give. In Scan
-- and Compaction the file of a table is the list of records that SSTableIterator reads from it;
-- SsTable has the bytes. The answers of write and fsync are arguments, so that every failure of
-- them is covered. Database takes the table files as a parameter, an interface of operations of
-- which each may throw, with the table cache behind it; an operation that throws leaves the state
-- that the code leaves. On the disk, whether an open, a write or a removal succeeds is part of the
-- state, for each point of time. The numbers of bits and hashes that BloomFilter::forEntries computes
-- are a parameter, BloomSizes; they are taken to be positive and to fit 64 bits (SizesFit). The
-- saves of the manifest, the directory, and the opening and removal of a log answer by arguments
-- too.
--
-- Fuel. The parser of the log takes at least one frame per round, so the length of the log is
-- enough fuel; that the fuel does not run out on a log that the encoder wrote is part of the
-- theorems on recovery, which give the parsed records. The merge takes one record per round and has
-- the number of records as fuel; that all records come out is the theorem on the permutation. The
-- loops over a table take one record per round, and their theorems give the result with the number
-- of records, or of bytes, as fuel; the loop over the sparse index has its size in bytes, and the
-- theorems on an opened table show that this is enough. A decimal text has at most 20 digits.
-- maybeCompact loops as long as a level is over its limit; it has one answer for each round, and its
-- theorem holds after any number of rounds. writeAll has one answer for each call of write, and
-- returns once they have written every byte.
--
-- Not modelled. BloomFilter::forEntries, which computes with floating-point numbers; the constructor
-- of DB but for its cleanup; file descriptors, temporary files and their cleanup (FdGuard, FileWriter,
-- cleanupOrphanedTemps); and the global variable that holds the policy of injected faults.
pub mod Base
pub mod Text
pub mod Checksum
pub mod Bits
pub mod Record
pub mod Wal
pub mod MemTable
pub mod Merge
pub mod Bloom
pub mod Manifest
pub mod Scan
pub mod SsTable
pub mod Compaction
pub mod Database
pub mod TableFiles
pub mod FileNames
pub mod Faults
pub mod Tests
