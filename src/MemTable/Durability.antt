-- ===== src/MemTable/Durability.antt =====
-- What a memtable acknowledged is what the next process finds in its log.
use lsmtree.Base.{
  ℕ, ◌≡◌, refl, sym, ap, subst, ◌∙◌, List, [], ◌∷◌, ◌++◌, true, false, none, some, All, map,
  append-nil, append_assoc, All-append, drop, Bool-cases, inl, inr,
}
use lsmtree.Base.Checked.{ok}
use lsmtree.Record.{Record, Entry}
use lsmtree.Text.{Str}
use lsmtree.Wal.{encode_batch, encode_wal_frame, entry_of}
use lsmtree.Wal.Frames.{has_valid_frame_after}
use lsmtree.Wal.Recovery.{FitsBatch, encode_log, entries_of}
use lsmtree.Wal.Torn.{ends_committed}
use lsmtree.Wal.Writer.{Answers, write, write_acked}
use lsmtree.MemTable.{MemTable, apply_to_memory, apply_all, apply_records, apply_batch}
use lsmtree.MemTable.Restore.{wal_header, open_writer, fresh, open_mem_table}
use lsmtree.MemTable.Reopen.{
  with_file, loaded, apply_all-with_file, open_mem_table-encode_log, open_mem_table_torn,
}

-- A memtable on a new log, after batches that were all acknowledged.
pub data History : MemTable → List (List Record) → Type 0 where
  opened : History (fresh (open_writer none)) []
  acked :
      {m : MemTable} {log : List (List Record)} (io : Answers) (op : Record) (ops : List Record)
      → History m log
      → FitsBatch (op ∷ ops)
      → (apply_batch io m (op ∷ ops)).0 ≡ true
      → History (apply_batch io m (op ∷ ops)).1 (log ++ (op ∷ ops) ∷ [])

apply_records-apply_all :
    (m : MemTable) (rs : List Record) → apply_records m rs ≡ apply_all m (map entry_of rs)
unfolding apply_records apply_all
apply_records-apply_all m [] = refl
apply_records-apply_all m (r ∷ rs) =
    apply_records-apply_all (apply_to_memory m r.key (entry_of r).1) rs

apply_all-append :
    (m : MemTable) (es ds : List (Str × Entry))
    → apply_all m (es ++ ds) ≡ apply_all (apply_all m es) ds
unfolding apply_all
apply_all-append m [] ds = refl
apply_all-append m ((key, e) ∷ es) ds = apply_all-append (apply_to_memory m key e) es ds

encode_log-append :
    (log : List (List Record)) (ops : List Record)
    → encode_log (log ++ ops ∷ []) ≡ encode_log log ++ encode_wal_frame (encode_batch ops)
unfolding encode_log
encode_log-append [] ops = append-nil _
encode_log-append (b ∷ log) ops =
    ap (◌++◌ (encode_wal_frame (encode_batch b))) (encode_log-append log ops)
    ∙ sym (append_assoc (encode_wal_frame (encode_batch b)) (encode_log log) _)

entries_of-append :
    (log : List (List Record)) (ops : List Record)
    → entries_of (log ++ ops ∷ []) ≡ entries_of log ++ map entry_of ops
unfolding entries_of
entries_of-append [] ops = append-nil _
entries_of-append (b ∷ log) ops =
    ap (◌++◌ (map entry_of b)) (entries_of-append log ops)
    ∙ sym (append_assoc (map entry_of b) (entries_of log) _)

-- An acknowledged batch is in memory, and its frame is at the end of the file.
pub apply_batch_acked :
    (io : Answers) (m : MemTable) (op : Record) (ops : List Record)
    → (apply_batch io m (op ∷ ops)).0 ≡ true
    → (apply_batch io m (op ∷ ops)).1
      ≡ with_file
          (apply_all m (map entry_of (op ∷ ops)))
          (m.wal_writer.file ++ encode_wal_frame (encode_batch (op ∷ ops)))
unfolding apply_batch
apply_batch_acked io m op ops h =
    let frame = encode_wal_frame (encode_batch (op ∷ ops)) in
    elim (Bool-cases (write io m.wal_writer frame).0) [
      | inl e ↦
          rw (e, write_acked io m.wal_writer frame e)
            (apply_records-apply_all (with_file m (m.wal_writer.file ++ frame)) (op ∷ ops)
              ∙ apply_all-with_file m (map entry_of (op ∷ ops)) (m.wal_writer.file ++ frame))
      | inr e ↦ absurd (cc (rw e at h))
    ]

loaded_step :
    (log : List (List Record)) (ops : List Record)
    → with_file
        (apply_all (loaded (entries_of log) (wal_header ++ encode_log log)) (map entry_of ops))
        ((wal_header ++ encode_log log) ++ encode_wal_frame (encode_batch ops))
      ≡ loaded (entries_of (log ++ ops ∷ [])) (wal_header ++ encode_log (log ++ ops ∷ []))
loaded_step log ops = rw (
  entries_of-append log ops,
  encode_log-append log ops,
  apply_all-append (fresh (open_writer none)) (entries_of log) (map entry_of ops),
  apply_all-with_file (apply_all (fresh (open_writer none)) (entries_of log)) (map entry_of ops)
      (wal_header ++ encode_log log),
)

-- The state that a history has led to.
pub History-loaded :
    {m : MemTable} {log : List (List Record)}
    → History m log
    → (m ≡ loaded (entries_of log) (wal_header ++ encode_log log)) × All FitsBatch log
unfolding open_writer entries_of encode_log apply_all
History-loaded opened = (refl, tt)
History-loaded (acked {m} {log} io op ops past fits h) =
    let (e, fine) = History-loaded past in
    (
      apply_batch_acked io m op ops h
          ∙ ap
              (λ (n : MemTable).
                with_file (apply_all n (map entry_of (op ∷ ops)))
                  (n.wal_writer.file ++ encode_wal_frame (encode_batch (op ∷ ops))))
              e
          ∙ loaded_step log (op ∷ ops),
      All-append FitsBatch log ((op ∷ ops) ∷ []) fine (fits, tt),
    )

-- After any history of acknowledged batches on a new log, each with sizes and sequences that fit 64
-- bits, opening the log file anew gives the same memtable: the same table, size, sequence and file.
pub open_mem_table-History :
    {m : MemTable} {log : List (List Record)}
    → History m log
    → open_mem_table (some m.wal_writer.file) ≡ ok m
open_mem_table-History {m} {log} past =
    let (e, fits) = History-loaded past in
    subst (λ (n : MemTable). open_mem_table (some n.wal_writer.file) ≡ ok n) (sym e)
      (open_mem_table-encode_log log fits)

-- A crash in the middle of an append, after any history of acknowledged batches: the file ends in a
-- proper front of the next frame. If that front does not look committed (20 bytes or more that end
-- in the commit marker) and no valid frame begins inside it, opening the file gives the memtable of
-- the acknowledged batches, and the front is cut off.
pub open_mem_table-crash :
    {m : MemTable} {log : List (List Record)} (ops : List Record) (front back : Str) (b : ℕ)
    → History m log
    → FitsBatch ops
    → encode_wal_frame (encode_batch ops) ≡ front ++ b ∷ back
    → ends_committed front ≡ false
    → has_valid_frame_after (drop 1 front) ≡ false
    → open_mem_table (some (m.wal_writer.file ++ front)) ≡ ok m
open_mem_table-crash {m} {log} ops front back b past fit torn e v =
    let (state, fits) = History-loaded past in
    subst (λ (n : MemTable). open_mem_table (some (n.wal_writer.file ++ front)) ≡ ok n) (sym state)
      (open_mem_table_torn log ops front back b fits fit torn e v)
