-- ===== src/MemTable/Size.antt =====
-- The byte count and the largest sequence of a memtable, and what a failed batch leaves.
use lsmtree.Base.{
  ℕ, ◌+◌, ◌%◌, ◌^◌, ◌≤◌, ◌≡◌, refl, List, [], ◌∷◌, max, false, Option, none, some, arith, All,
  All_map, Bool-cases, inl, inr,
}
use lsmtree.Record.{Record, Entry, Key}
use lsmtree.Text.{Str}
use lsmtree.Wal.{entry_of, encode_batch, encode_wal_frame}
use lsmtree.Wal.Writer.{Answers, write, write_poisons, write_stays_poisoned}
use lsmtree.MemTable.Map.{Table, records, find, insert_or_assign}
use lsmtree.MemTable.{
  MemTable, entry_size, release_size, apply_to_memory, apply_records, apply_batch,
}
use lsmtree.MemTable.Insert.{same_key_of_not_less, All-insert_or_assign}

-- The bytes that the entries of a table stand for.
unfoldable pub table_bytes : Table → ℕ
table_bytes [] = 0
table_bytes ((k, e) ∷ t) = entry_size k.key e + table_bytes t

-- What the entry under `k` takes.
abbrev found_bytes : Str → Option Entry → ℕ
found_bytes key none = 0
found_bytes key (some e) = entry_size key e

table_bytes-insert_or_assign :
    (k : Key) (e : Entry) (t : Table)
    → table_bytes (insert_or_assign k e t) + found_bytes k.key (find k t)
      ≡ table_bytes t + entry_size k.key e
unfolding table_bytes insert_or_assign find
table_bytes-insert_or_assign k e [] = omega arith
table_bytes-insert_or_assign k e ((j, d) ∷ t) =
    ground (arith, table_bytes-insert_or_assign k e t, same_key_of_not_less j k)

-- What a memtable promises of its counters: the size is that of its entries, in size_t, and no
-- entry is newer than the largest sequence.
pub record IsCounted (m : MemTable) : Type 0 where
  pub bytes : m.current_size_bytes ≡ table_bytes m.table % 2 ^ 64
  pub newest : All (λ r. r.seq ≤ m.current_seq) (records m.table)

counted_again :
    (key : Str) (e : Entry) (old : Option Entry) (n before after : ℕ)
    → n ≡ before % 2 ^ 64
    → after + found_bytes key old ≡ before + entry_size key e
    → (release_size key old n + entry_size key e) % 2 ^ 64 ≡ after % 2 ^ 64
counted_again key e none n before after h k = omega arith
counted_again key e (some d) n before after h k = omega arith

pub apply_to_memory-IsCounted :
    (m : MemTable) (key : Str) (e : Entry) → IsCounted m → IsCounted (apply_to_memory m key e)
unfolding apply_to_memory
apply_to_memory-IsCounted m key e v =
    let k : Key = record { key = key; seq = e.seq } in
    record {
      bytes =
          counted_again key e (find k m.table) m.current_size_bytes (table_bytes m.table)
            (table_bytes (insert_or_assign k e m.table)) v.bytes
            (table_bytes-insert_or_assign k e m.table);
      newest =
          All-insert_or_assign (λ r. r.seq ≤ max e.seq m.current_seq) k e m.table (omega arith)
            (All_map (λ r. r.seq ≤ m.current_seq) (λ r. r.seq ≤ max e.seq m.current_seq)
              (records m.table) (λ r h. omega arith) v.newest);
    }

pub apply_records-IsCounted :
    (m : MemTable) (rs : List Record) → IsCounted m → IsCounted (apply_records m rs)
unfolding apply_records
apply_records-IsCounted m [] v = v
apply_records-IsCounted m (r ∷ rs) v =
    apply_records-IsCounted (apply_to_memory m r.key (entry_of r).1) rs
      (apply_to_memory-IsCounted m r.key (entry_of r).1 v)

-- Whatever the write and the sync of the log answer, a batch keeps the counters right: the size is
-- that of the entries in 64 bits, and no entry is newer than the largest sequence.
pub apply_batch-IsCounted :
    (io : Answers) (m : MemTable) (ops : List Record)
    → IsCounted m
    → IsCounted (apply_batch io m ops).1
unfolding apply_batch
apply_batch-IsCounted io m [] v = v
apply_batch-IsCounted io m (op ∷ ops) v =
    let frame = encode_wal_frame (encode_batch (op ∷ ops)) in
    elim (Bool-cases (write io m.wal_writer frame).0) [
      | inl e ↦ rw e (
          apply_records-IsCounted (record m { wal_writer = (write io m.wal_writer frame).1 })
            (op ∷ ops) (record { bytes = v.bytes; newest = v.newest }))
      | inr e ↦ rw e (record { bytes = v.bytes; newest = v.newest })
    ]

-- A batch that fails changes nothing in memory, and no later batch that has a record is accepted,
-- whatever the log write would answer.
pub apply_batch_fails :
    (io later : Answers) (m : MemTable) (ops : List Record) (op : Record) (more : List Record)
    → (apply_batch io m ops).0 ≡ false
    → let m' = (apply_batch io m ops).1 in
      (m'.table ≡ m.table)
      × (m'.current_size_bytes ≡ m.current_size_bytes)
      × (m'.current_seq ≡ m.current_seq)
      × ((apply_batch later m' (op ∷ more)).0 ≡ false)
unfolding apply_batch
apply_batch_fails io later m [] op' more h = absurd (cc)
apply_batch_fails io later m (op ∷ ops) op' more h =
    let frame = encode_wal_frame (encode_batch (op ∷ ops)) in
    elim (Bool-cases (write io m.wal_writer frame).0) [
      | inl e ↦ absurd (cc (rw e at h))
      | inr e ↦ rw e (
        refl,
        refl,
        refl,
        rw (
            write_stays_poisoned later (write io m.wal_writer frame).1
              (encode_wal_frame (encode_batch (op' ∷ more)))
              (write_poisons io m.wal_writer frame e)),
      )
    ]
