-- ===== src/Database/Writes.antt =====
-- A write makes a database answer by its records first.
use lsmtree.Base.{
  Bool-cases, ℕ, ◌+◌, ◌%◌, ◌^◌, ◌≤◌, ◌<◌, ◌≡◌, ◌⊎◌, ◌∙◌, refl, sym, ap, subst, List, [], ◌∷◌, All,
  All-In, All-intro, All_map, In, inl, inr, true, false, arith, some, length, Option-cases,
}
use lsmtree.Database.{Database, view}
use lsmtree.Database.Batch.{WriteBatch, number_records}
use lsmtree.Database.Flush.{apply_write}
use lsmtree.Database.Order.{NewerThan, IsOrdered}
use lsmtree.MemTable.{MemTable, records, apply_batch, apply_records, apply_to_memory}
use lsmtree.MemTable.Insert.{All-insert_or_assign}
use lsmtree.MemTable.Lookup.{apply_records-HasOrder, visible-apply_records}
use lsmtree.Record.{Record}
use lsmtree.Record.Latest.{visible-IsLatest}
use lsmtree.Record.Visible.{visible, better, better_assoc, visible-append}
use lsmtree.Record.Sorted.{IsSorted}
use lsmtree.Database.Views.{In-level_records}
use lsmtree.Scan.Sound.{stored, level_records}
use lsmtree.TableFiles.{TableFiles, TableLaws}
use lsmtree.Text.{Str}
use lsmtree.Wal.Writer.{Answers, WalFileWriter, write}
use lsmtree.Wal.{entry_of, encode_batch, encode_wal_frame}

-- The numbers of a batch go on from the next one.
pub number_records_bounds :
    (n : ℕ) (b : WriteBatch)
    → n + length b < 2 ^ 64
    → All (λ r. (n ≤ r.seq) × (r.seq < n + length b)) (number_records n b)
unfolding number_records
number_records_bounds n [] h = tt
number_records_bounds n (x ∷ b) h =
    let next : (n + 1) % 2 ^ 64 ≡ n + 1 = omega (arith, h) in
    (
      (omega arith, omega arith),
      subst (λ (m : ℕ). All (λ r. (n ≤ r.seq) × (r.seq < n + length (x ∷ b))) (number_records m b))
          (sym next)
          (All_map (λ r. ((n + 1) ≤ r.seq) × (r.seq < (n + 1) + length b))
            (λ r. (n ≤ r.seq) × (r.seq < n + length (x ∷ b))) (number_records (n + 1) b)
            (λ r p. (omega (arith, p.0), omega (arith, p.1)))
            (number_records_bounds (n + 1) b (omega (arith, h)))),
    )

-- What the memtable holds behind a batch, it held, or the batch does.
All-apply_records :
    (P : Record → Type 0) (m : MemTable) (rs : List Record)
    → All P (records m.table)
    → All P rs
    → All P (records (apply_records m rs).table)
unfolding apply_records apply_to_memory
All-apply_records P m [] a b = a
All-apply_records P m (r ∷ rs) a b =
    All-apply_records P (apply_to_memory m r.key (entry_of r).1) rs
      (All-insert_or_assign P (record { key = r.key; seq = r.seq }) (entry_of r).1 m.table b.0 a)
      b.1

-- Newer records go behind older ones.
better_swap :
    (k : Str) (s : ℕ) (xs ys : List Record)
    → NewerThan xs ys
    → better (visible k s xs) (visible k s ys) ≡ better (visible k s ys) (visible k s xs)
better_swap k s xs ys n = elim (Option-cases (visible k s xs)) [
  | inl e ↦ elim (Option-cases (visible k s ys)) [
    | inl f ↦ rw (e, f) refl
    | inr (q, f) ↦ rw (e, f) refl
  ]
  | inr (r, e) ↦ elim (Option-cases (visible k s ys)) [
    | inl f ↦ rw (e, f) refl
    | inr (q, f) ↦
        let a = visible-IsLatest k s xs r e in
        let b = visible-IsLatest k s ys q f in
        let newer = n r q a.stored b.stored (a.same_key ∙ sym b.same_key) in
        let left : better (some r) (some q) ≡ some r = ground (arith, newer) in
        let right : better (some q) (some r) ≡ some r = ground (arith, newer) in
        rw (e, f) (left ∙ sym right)
  ]
]

-- A batch that is accepted has been applied, behind its log record.
applied :
    (io : Answers) (m : MemTable) (rs : List Record)
    → (apply_batch io m rs).0 ≡ true
    → (w : WalFileWriter) × ((apply_batch io m rs).1
        ≡ apply_records (record m { wal_writer = w }) rs)
unfolding apply_batch
applied io m [] h = (m.wal_writer, unfold apply_records in refl)
applied io m (r ∷ rs) h =
    let frame = encode_wal_frame (encode_batch (r ∷ rs)) in
    elim (Bool-cases (write io m.wal_writer frame).0) [
      | inl e ↦ ((write io m.wal_writer frame).1, rw e refl)
      | inr e ↦ absurd (cc (rw e at h))
    ]

-- One that is refused has not.
pub refused :
    (io : Answers) (m : MemTable) (rs : List Record)
    → (apply_batch io m rs).0 ≡ false
    → (apply_batch io m rs).1.table ≡ m.table
unfolding apply_batch
refused io m [] h = cc
refused io m (r ∷ rs) h =
    let frame = encode_wal_frame (encode_batch (r ∷ rs)) in
    elim (Bool-cases (write io m.wal_writer frame).0) [
      | inl e ↦ absurd (cc (rw e at h))
      | inr e ↦ rw e refl
    ]

module _ {F : TableFiles} (L : TableLaws F) where
  -- A memtable whose new records are newer than all others keeps the order.
  with_memory-IsOrdered :
      (db : Database F) (contents : ℕ → List Record) (m : MemTable) (next : ℕ)
      → IsOrdered L db contents
      → IsSorted (records m.table)
      → All
          (λ r. In r (records db.active_mem_table.table) ⊎ (db.next_seq ≤ r.seq))
          (records m.table)
      → All (λ r. r.seq < next) (records m.table)
      → db.next_seq ≤ next
      → next < 2 ^ 64
      → IsOrdered L (record db { next_seq = next; active_mem_table = m }) contents
  with_memory-IsOrdered db contents m next o sorted from below grows bound = record {
    memory = sorted;
    memory_old = below;
    tables = λ i t k.
        let s = o.tables i t k in
        record {
          held = s.held;
          table = s.table;
          some_record = s.some_record;
          numbered = s.numbered;
          old =
              All_map (λ r. r.seq < db.next_seq) (λ r. r.seq < next) (contents t.number)
                (λ r h. omega (arith, h, grows)) s.old;
        };
    level_zero = o.level_zero;
    disjoint = o.disjoint;
    newer_memory = λ i t k r q x y e.
        elim (All-In (λ r. In r (records db.active_mem_table.table) ⊎ (db.next_seq ≤ r.seq))
          (records m.table) r from x) [
            | inl h ↦ o.newer_memory i t k r q h y e
            | inr h ↦
                let old =
                  All-In (λ r. r.seq < db.next_seq) (contents t.number) q (o.tables i t k).old y in
                omega (arith, h, old)
          ];
    newer_levels = o.newer_levels;
    in_64_bits = bound;
    free = o.free;
  }

  module _ (log : Answers) (db : Database F) (contents : ℕ → List Record)
      (o : IsOrdered L db contents) (batch : WriteBatch)
      (room : db.next_seq + length batch < 2 ^ 64) where
    abbrev rs : List Record
    rs = number_records db.next_seq batch

    abbrev memory : List Record
    memory = records db.active_mem_table.table

    wraps_not : (db.next_seq + length batch) % 2 ^ 64 ≡ db.next_seq + length batch
    wraps_not = omega (arith, room)

    record IsApplied (m : MemTable) : Type 0 where
      sorted : IsSorted (records m.table)
      from : All (λ r. In r memory ⊎ (db.next_seq ≤ r.seq)) (records m.table)
      below : All (λ r. r.seq < (db.next_seq + length batch) % 2 ^ 64) (records m.table)

    old_below : All (λ r. r.seq < (db.next_seq + length batch) % 2 ^ 64) memory
    old_below =
        All_map (λ r. r.seq < db.next_seq) (λ r. r.seq < (db.next_seq + length batch) % 2 ^ 64)
          memory (λ r h. omega (arith, wraps_not, h)) o.memory_old

    is_applied : IsApplied (apply_batch log db.active_mem_table rs).1
    is_applied = elim (Bool-cases (apply_batch log db.active_mem_table rs).0) [
      | inl e ↦
          let (w, same) = applied log db.active_mem_table rs e in
          let m = record db.active_mem_table { wal_writer = w } in
          let numbers = number_records_bounds db.next_seq batch room in
          subst IsApplied (sym same) (record {
            sorted = apply_records-HasOrder m rs o.memory;
            from =
                All-apply_records (λ r. In r memory ⊎ (db.next_seq ≤ r.seq)) m rs
                  (All-intro (λ r. In r memory ⊎ (db.next_seq ≤ r.seq)) memory (λ r i. inl i))
                  (All_map (λ r. (db.next_seq ≤ r.seq) × (r.seq < db.next_seq + length batch))
                    (λ r. In r memory ⊎ (db.next_seq ≤ r.seq)) rs (λ r h. inr h.0) numbers);
            below =
                All-apply_records (λ r. r.seq < (db.next_seq + length batch) % 2 ^ 64) m rs
                  old_below
                  (All_map (λ r. (db.next_seq ≤ r.seq) × (r.seq < db.next_seq + length batch))
                    (λ r. r.seq < (db.next_seq + length batch) % 2 ^ 64) rs
                    (λ r h. omega (arith, wraps_not, h.1)) numbers);
          })
      | inr e ↦
          let same = refused log db.active_mem_table rs e in
          record {
            sorted = rw same o.memory;
            from =
                rw same
                  (All-intro (λ r. In r memory ⊎ (db.next_seq ≤ r.seq)) memory (λ r i. inl i));
            below = rw same old_below;
          }
    ]

    -- Whatever the log answers, what a write does up to the flush keeps an ordered database ordered, if
    -- its sequence does not wrap.
    pub apply_write-IsOrdered : IsOrdered L (apply_write log db batch).1 contents
    unfolding apply_write
    apply_write-IsOrdered =
        let a = is_applied in
        with_memory-IsOrdered db contents (apply_batch log db.active_mem_table rs).1
          ((db.next_seq + length batch) % 2 ^ 64) o a.sorted a.from a.below
          (omega (arith, wraps_not)) (omega (arith, wraps_not, room))

    batch_newer : NewerThan rs (level_records contents db.manifest.levels)
    batch_newer r q i j e =
        let (l, t, k, h) = (In-level_records db.manifest contents q).0 j in
        let old = All-In (λ r. r.seq < db.next_seq) (contents t.number) q (o.tables l t k).old h in
        let (low, high) =
          All-In (λ r. (db.next_seq ≤ r.seq) × (r.seq < db.next_seq + length batch)) rs r
            (number_records_bounds db.next_seq batch room) i in
        omega (arith, old, low)

    pub apply_write-visible :
        (k : Str) (s : ℕ)
        → (apply_write log db batch).0 ≡ true
        → visible k s (stored (view (apply_write log db batch).1 contents))
          ≡ better (visible k s (stored (view db contents))) (visible k s rs)
    unfolding apply_write stored
    apply_write-visible k s h =
        let (w, same) = applied log db.active_mem_table rs h in
        let m = record db.active_mem_table { wal_writer = w } in
        let tables = level_records contents db.manifest.levels in
        let front : visible k s (records (apply_batch log db.active_mem_table rs).1.table)
            ≡ better (visible k s memory) (visible k s rs) =
          ap (λ (x : MemTable). visible k s (records x.table)) same
          ∙ visible-apply_records k s m rs o.memory
          ∙ visible-append k s memory rs in
        visible-append k s (records (apply_batch log db.active_mem_table rs).1.table) tables
        ∙ ap (λ x. better x (visible k s tables)) front
        ∙ sym (better_assoc (visible k s memory) (visible k s rs) (visible k s tables))
        ∙ ap (better (visible k s memory)) (better_swap k s rs tables batch_newer)
        ∙ better_assoc (visible k s memory) (visible k s tables) (visible k s rs)
        ∙ ap (λ x. better x (visible k s rs)) (sym (visible-append k s memory tables))
