-- ===== src/MemTable/Reopen.antt =====
-- Opening a log that holds whole frames, and perhaps a torn one behind them.
use lsmtree.Base.{
  ℕ, suc, ◌+◌, ◌<◌, ◌≡◌, refl, ap, ◌∙◌, List, [], ◌∷◌, ◌++◌, length, ltb, ◌==◌, false, none, some,
  arith, All, append-nil, length-append, take, drop, take-append, ==-refl,
}
use lsmtree.Base.Checked.{Checked, ok}
use lsmtree.Record.{Record, Entry}
use lsmtree.Text.{Str}
use lsmtree.Text.Affix.{starts_with}
use lsmtree.Wal.{encode_batch, encode_wal_frame, Corruption}
use lsmtree.Wal.Frames.{parse_wal_records, has_valid_frame_after}
use lsmtree.Wal.Recovery.{FitsBatch, encode_log, entries_of, parse_wal_records-encode_log}
use lsmtree.Wal.Torn.{ends_committed, recover_torn}
use lsmtree.Wal.Writer.{truncate}
use lsmtree.MemTable.{MemTable, apply_to_memory, apply_all}
use lsmtree.MemTable.Restore.{wal_header, open_writer, fresh, cut, restore_from_wal, open_mem_table}

-- The memory of the first memtable and the log file of the second argument.
abbrev pub with_file : MemTable → Str → MemTable
with_file m s = record m { wal_writer = record { file = s; poisoned = false } }

-- The memtable that the entries of a log make, on a file with this content.
abbrev pub loaded : List (Str × Entry) → Str → MemTable
loaded es s = with_file (apply_all (fresh (open_writer none)) es) s

pub apply_all-with_file :
    (m : MemTable) (es : List (Str × Entry)) (s : Str)
    → apply_all (with_file m s) es ≡ with_file (apply_all m es) s
unfolding apply_all apply_to_memory
apply_all-with_file m [] s = refl
apply_all-with_file m ((key, e) ∷ es) s = apply_all-with_file (apply_to_memory m key e) es s

differs : (n m : ℕ) → n < m → (n == m) ≡ false
differs n m h = ground arith

header_fits : (n : ℕ) → ltb (suc (suc (suc (suc (suc n))))) 5 ≡ false
header_fits n = ground arith

abbrev truncated : ℕ → MemTable → Checked Corruption MemTable
truncated n m = ok (record m { wal_writer = truncate m.wal_writer n })

-- A file with a header and behind it what parses.
module _ (s : Str) (es : List (Str × Entry)) (n : ℕ)
    (parsed : parse_wal_records s 5 ≡ ok (es, n)) where
  open_mem_table-parsed :
      open_mem_table (some (wal_header ++ s))
      ≡ ok (cut (apply_all (fresh (open_writer (some (wal_header ++ s)))) es) (wal_header ++ s) n)
  unfolding open_mem_table restore_from_wal open_writer starts_with
  open_mem_table-parsed = rw (header_fits (length s), parsed)

  open_mem_table_whole :
      n ≡ length (wal_header ++ s)
      → open_mem_table (some (wal_header ++ s)) ≡ ok (loaded es (wal_header ++ s))
  unfolding open_writer
  open_mem_table_whole e =
      open_mem_table-parsed
      ∙ rw (e, ==-refl (length (wal_header ++ s)))
          (ap ok (apply_all-with_file (fresh (open_writer none)) es (wal_header ++ s)))

  open_mem_table_cut :
      n < length (wal_header ++ s)
      → open_mem_table (some (wal_header ++ s)) ≡ ok (loaded es (take n (wal_header ++ s)))
  unfolding open_writer truncate
  open_mem_table_cut h =
      open_mem_table-parsed
      ∙ rw (differs n (length (wal_header ++ s)) h)
          (ap (truncated n) (apply_all-with_file (fresh (open_writer none)) es (wal_header ++ s)))

-- Reopening a log loads what its batches hold.
pub open_mem_table-encode_log :
    (log : List (List Record))
    → All FitsBatch log
    → open_mem_table (some (wal_header ++ encode_log log))
      ≡ ok (loaded (entries_of log) (wal_header ++ encode_log log))
open_mem_table-encode_log log fits =
    open_mem_table_whole (encode_log log) (entries_of log) (5 + length (encode_log log))
      (parse_wal_records-encode_log log fits) (omega arith)

take_front : (s t : Str) → take (5 + length s) (wal_header ++ (s ++ t)) ≡ wal_header ++ s
take_front s t =
    ap (λ n. take n (wal_header ++ (s ++ t))) {y = length (wal_header ++ s)} (omega arith)
    ∙ take-append (wal_header ++ s) t

length_front : (s t : Str) → 5 + length s + length t ≡ length (wal_header ++ (s ++ t))
length_front s t = omega (arith, length-append s t)

pub open_mem_table_torn :
    (log : List (List Record)) (ops : List Record) (front back : Str) (b : ℕ)
    → All FitsBatch log
    → FitsBatch ops
    → encode_wal_frame (encode_batch ops) ≡ front ++ b ∷ back
    → ends_committed front ≡ false
    → has_valid_frame_after (drop 1 front) ≡ false
    → open_mem_table (some (wal_header ++ (encode_log log ++ front)))
      ≡ ok (loaded (entries_of log) (wal_header ++ encode_log log))
open_mem_table_torn log ops [] back b fits fit torn e v =
    ap (λ s. open_mem_table (some (wal_header ++ s))) (append-nil (encode_log log))
    ∙ open_mem_table-encode_log log fits
open_mem_table_torn log ops (c ∷ front) back b fits fit torn e v =
    open_mem_table_cut (encode_log log ++ c ∷ front) (entries_of log) (5 + length (encode_log log))
      (recover_torn log ops (c ∷ front) back b fits fit torn e v)
      (omega (arith, length_front (encode_log log) (c ∷ front)))
    ∙ ap (λ s. ok (loaded (entries_of log) s)) (take_front (encode_log log) (c ∷ front))
