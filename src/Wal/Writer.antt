-- ===== src/Wal/Writer.antt =====
-- `MemTable::WALFileWriter`: the log file that it appends to, and `poisoned_`. What the system calls
-- answer is an argument: for `write` the count of bytes that reached the file, or `none` for -1;
-- for `fsync` whether it succeeded.
use lsmtree.Base.{
  ℕ, ◌≡◌, [], ◌++◌, length, take, ◌==◌, not, if◌then◌else◌, Bool, true, false, Option, none, some,
  arith,
}
use lsmtree.Text.{Str}

pub record Answers : Type 0 where
  pub written : Option ℕ
  pub synced : Bool

pub record WalFileWriter : Type 0 where
  pub file : Str
  pub poisoned : Bool

-- Every byte is written, and the file is synced.
abbrev pub AllGood : Answers → Str → Type 0
AllGood io bytes = (io.written ≡ some (length bytes)) × (io.synced ≡ true)

-- The bytes that a `write` left in the file.
abbrev written_part : Option ℕ → Str → Str
written_part none bytes = []
written_part (some n) bytes = take n bytes

-- `bytesWritten < 0 || bytesWritten != record.size()`
abbrev write_failed : Option ℕ → Str → Bool
write_failed none bytes = true
write_failed (some n) bytes = not (n == length bytes)

-- `WALFileWriter::write`; `false` is an exception.
unfoldable pub write : Answers → WalFileWriter → Str → Bool × WalFileWriter
write io w bytes =
    if w.poisoned
    then (false, w)
    else if write_failed io.written bytes
    then (false, record { file = w.file ++ written_part io.written bytes; poisoned = true })
    else if not io.synced
    then (false, record { file = w.file ++ bytes; poisoned = true })
    else (true, record { file = w.file ++ bytes; poisoned = false })

-- `WALFileWriter::truncate`, where `ftruncate` succeeds
unfoldable pub truncate : WalFileWriter → ℕ → WalFileWriter
truncate w offset = record w { file = take offset w.file }

-- A write that fails poisons the writer.
pub write_poisons :
    (io : Answers) (w : WalFileWriter) (bytes : Str)
    → (write io w bytes).0 ≡ false
    → (write io w bytes).1.poisoned ≡ true
unfolding write
write_poisons io w bytes h = ground arith

-- A write that succeeds appends exactly its bytes.
pub write_acked :
    (io : Answers) (w : WalFileWriter) (bytes : Str)
    → (write io w bytes).0 ≡ true
    → (write io w bytes).1 ≡ record { file = w.file ++ bytes; poisoned = false }
unfolding write
write_acked io w bytes h = ground arith

-- A poisoned writer refuses every write.
pub write_stays_poisoned :
    (io : Answers) (w : WalFileWriter) (bytes : Str)
    → w.poisoned ≡ true
    → (write io w bytes).0 ≡ false
unfolding write
write_stays_poisoned io w bytes h = rw h
