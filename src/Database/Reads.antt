-- ===== src/Database/Reads.antt =====
-- What the newest read finds behind a put or a removal.
use lsmtree.Base.{
  ℕ, ◌+◌, ◌%◌, ◌^◌, ◌≤◌, ◌<◌, ◌≡◌, ◌≢◌, ◌∙◌, refl, sym, ap, subst, List, [], ◌∷◌, All, All-In,
  All-intro, In, inl, inr, ltb, Bool, true, false, Option, none, some, arith, Option-cases,
  if◌then◌else◌,
}
use lsmtree.Database.{Database, Options, view, value_of, get_at, get_newest, last_seq_of}
use lsmtree.Database.Batch.{BatchRecord, WriteBatch, number_records}
use lsmtree.Database.Batch
use lsmtree.Database.Flush.{FlushAnswers, apply_write, flush_if_full, write, put, remove}
use lsmtree.Database.Newest.{get_at-Same}
use lsmtree.Database.Order.{IsOrdered}
use lsmtree.Database.Views.{In-stored}
use lsmtree.Database.Writes.{apply_write-IsOrdered, apply_write-visible, refused}
use lsmtree.Scan.Sound.{level_records}
use lsmtree.Base.{◌++◌, Bool-cases}
use lsmtree.MemTable.{records, size_bytes}
use lsmtree.Record.{Record, RecordType}
use lsmtree.Record.Latest.{visible-IsLatest}
use lsmtree.Record.Visible.{visible, better, candidate, candidate-cases, result_of, better_none}
use lsmtree.Scan.Sound.{stored}
use lsmtree.TableFiles.{TableFiles, TableLaws}
use lsmtree.Text.{Str}
use lsmtree.Text.Order.{compare_str_refl}
use lsmtree.Wal.Writer.{Answers}

-- Two reads that both see every record find the same.
visible_beyond :
    (k : Str) (s t : ℕ) (rs : List Record)
    → All (λ r. (r.seq ≤ s) × (r.seq ≤ t)) rs
    → visible k s rs ≡ visible k t rs
unfolding visible
visible_beyond k s t [] a = refl
visible_beyond k s t (r ∷ rs) a =
    let same : candidate k s r ≡ candidate k t r = ground (arith, a.0) in
    rw (same, visible_beyond k s t rs a.1) refl

visible_one : (k : Str) (r : Record) → r.key ≡ k → visible k r.seq (r ∷ []) ≡ some r
unfolding visible
visible_one k r e = ground (arith, compare_str_refl k, e)

visible_other : (k : Str) (s : ℕ) (r : Record) → r.key ≢ k → visible k s (r ∷ []) ≡ none
unfolding visible
visible_other k s r h = elim (candidate-cases k s r) [
  | inl e ↦ rw e refl
  | inr (e, same, low) ↦ absurd (h same)
]

-- What a read at a record's own sequence found before gives way to the record.
better_newer :
    (k : Str) (rs : List Record) (r : Record) → better (visible k r.seq rs) (some r) ≡ some r
better_newer k rs r = elim (Option-cases (visible k r.seq rs)) [
  | inl e ↦ rw e refl
  | inr (q, e) ↦ let low = (visible-IsLatest k r.seq rs q e).in_view in rw e (ground (arith, low))
]

not_full :
    {F : TableFiles} (o : Options) (io : FlushAnswers) (p : Bool × Database F)
    → ltb o.flush_threshold_bytes (size_bytes p.1.active_mem_table) ≡ false
    → flush_if_full o io p ≡ p
not_full o io (true, db) h = rw h refl
not_full o io (false, db) h = refl

module _ {F : TableFiles} (L : TableLaws F) (o : Options) (log : Answers) (io : FlushAnswers)
    (db : Database F) (contents : ℕ → List Record) (ordered : IsOrdered L db contents)
    (room : db.next_seq + 1 < 2 ^ 64) (reads_on : L.Reads db.files) where
  abbrev numbered : BatchRecord → Record
  numbered b = record { key = b.key; seq = db.next_seq; type = b.type; value = b.value }

  In-old : (r : Record) → In r (stored (view db contents)) → r.seq < db.next_seq
  In-old r i = elim ((In-stored db contents r).0 i) [
    | inl j ↦
        All-In (λ r. r.seq < db.next_seq) (records db.active_mem_table.table) r ordered.memory_old j
    | inr (l, t, k, j) ↦
        All-In (λ r. r.seq < db.next_seq) (contents t.number) r (ordered.tables l t k).old j
  ]

  abbrev AllSeen : List Record → Type 0
  AllSeen rs = All (λ r. (r.seq ≤ db.next_seq) × (r.seq ≤ last_seq_of db.next_seq)) rs

  all_old : AllSeen (stored (view db contents))
  all_old =
      All-intro (λ r. (r.seq ≤ db.next_seq) × (r.seq ≤ last_seq_of db.next_seq))
        (stored (view db contents))
        (λ r i.
          let old : r.seq < db.next_seq = In-old r i in
          (omega (arith, old), omega (arith, old, room)))

  last_seq_after : last_seq_of ((db.next_seq + 1) % 2 ^ 64) ≡ db.next_seq
  last_seq_after = omega (arith, room)

  -- What the newest read answers where the records of the log and the tables give `r`.
  newest_answer :
      (d : Database F) (c : ℕ → List Record) (k : Str) (s : ℕ) (r : Option Record)
      → IsOrdered L d c
      → L.Reads d.files
      → last_seq_of d.next_seq ≡ s
      → visible k s (stored (view d c)) ≡ r
      → (get_newest d k).1 ≡ some (value_of (result_of r))
  unfolding get_newest
  newest_answer d c k s r x u e f =
      let answer : (get_at d k s).1
          ≡ some (value_of (result_of (visible k s (stored (view d c))))) =
        elim (get_at-Same L c k s d x).0 [ inl g ↦ g | inr (g, throws) ↦ absurd (throws u) ] in
      subst (λ (n : ℕ). (get_at d k n).1 ≡ some (value_of (result_of r))) (sym e)
        (subst (λ y. (get_at d k s).1 ≡ some (value_of (result_of y))) f answer)

  module _ (b : BatchRecord) where
    abbrev applied : Bool × Database F
    applied = apply_write log db (b ∷ [])

    abbrev after : Database F
    after = applied.1

    after_last : last_seq_of after.next_seq ≡ db.next_seq
    unfolding apply_write
    after_last = last_seq_after

    after_reads : L.Reads after.files
    unfolding apply_write
    after_reads = reads_on

    after_ordered : IsOrdered L after contents
    after_ordered = apply_write-IsOrdered L log db contents ordered (b ∷ []) room

    reads :
        (k : Str)
        → applied.0 ≡ true
        → visible k db.next_seq (stored (view after contents))
          ≡ better
              (visible k db.next_seq (stored (view db contents)))
              (visible k db.next_seq (numbered b ∷ []))
    unfolding number_records
    reads k done = apply_write-visible L log db contents ordered (b ∷ []) room k db.next_seq done

    refused_reads :
        (k : Str)
        → applied.0 ≡ false
        → visible k db.next_seq (stored (view after contents))
          ≡ visible k db.next_seq (stored (view db contents))
    unfolding apply_write stored
    refused_reads k fails =
        ap (λ t. visible k db.next_seq (records t ++ level_records contents db.manifest.levels))
          (refused log db.active_mem_table (number_records db.next_seq (b ∷ [])) fails)

    same_key :
        applied.0 ≡ true
        → (get_newest after b.key).1 ≡ some (value_of (result_of (some (numbered b))))
    same_key done =
        newest_answer after contents b.key db.next_seq (some (numbered b)) after_ordered after_reads
          after_last
          (reads b.key done
            ∙ ap (better (visible b.key db.next_seq (stored (view db contents))))
                (visible_one b.key (numbered b) refl)
            ∙ better_newer b.key (stored (view db contents)) (numbered b))

    -- A key whose newest record stays is read as before.
    as_before :
        (k : Str)
        → visible k db.next_seq (stored (view after contents))
          ≡ visible k db.next_seq (stored (view db contents))
        → (get_newest after k).1 ≡ (get_newest db k).1
    as_before k same =
        let before = visible k (last_seq_of db.next_seq) (stored (view db contents)) in
        newest_answer after contents k db.next_seq before after_ordered after_reads after_last (
          same
          ∙ visible_beyond k db.next_seq (last_seq_of db.next_seq) (stored (view db contents))
              all_old)
        ∙ sym (
            newest_answer db contents k (last_seq_of db.next_seq) before ordered reads_on refl refl)

    after_key : (get_newest after b.key).1 ≡ (
        if applied.0
        then some (value_of (result_of (some (numbered b))))
        else (get_newest db b.key).1)
    after_key = elim (Bool-cases applied.0) [
      | inl done ↦ rw done (same_key done)
      | inr fails ↦ rw fails (as_before b.key (refused_reads b.key fails))
    ]

    other_key : (k : Str) → b.key ≢ k → (get_newest after k).1 ≡ (get_newest db k).1
    other_key k h = as_before k (elim (Bool-cases applied.0) [
      | inl done ↦
          reads k done
          ∙ ap (better (visible k db.next_seq (stored (view db contents))))
              (visible_other k db.next_seq (numbered b) h)
          ∙ better_none (visible k db.next_seq (stored (view db contents)))
      | inr fails ↦ refused_reads k fails
    ])

    -- What a read finds behind a write, whatever became of it.
    record AnswersBehind (r : Bool × Database F) : Type 0 where
      key : (get_newest r.1 b.key).1 ≡ (
          if r.0 then some (value_of (result_of (some (numbered b)))) else (get_newest db b.key).1)
      others : (j : Str) → b.key ≢ j → (get_newest r.1 j).1 ≡ (get_newest db j).1

    behind :
        ltb o.flush_threshold_bytes (size_bytes after.active_mem_table) ≡ false
        → AnswersBehind (write o log io db (b ∷ []))
    unfolding write
    behind small = elim (Bool-cases db.write_failed) [
      | inl failed ↦
          subst
            (λ (x : Bool). AnswersBehind (if x then (false, db) else flush_if_full o io applied))
            (sym failed) (record { key = refl; others = λ j h. refl })
      | inr healthy ↦
          subst
            (λ (x : Bool). AnswersBehind (if x then (false, db) else flush_if_full o io applied))
            (sym healthy)
            (subst AnswersBehind (sym (not_full o io applied small))
              (record { key = after_key; others = other_key }))
    ]

  -- Over any table files that keep the laws, in an ordered database whose sequence does not wrap and
  -- whose tables can be read, a put behind
  -- which the memtable is not above the flush threshold gives the newest read of its key the value if
  -- it returns true, and leaves it as it was if it returns false, and the newest read of every other
  -- key as it was in both cases.
  pub get_newest-put :
      (k v : Str)
      → ltb o.flush_threshold_bytes
          (size_bytes (apply_write log db (Batch.put [] k v)).1.active_mem_table)
        ≡ false
      → ((get_newest (put o log io db k v).1 k).1
          ≡ (if (put o log io db k v).0 then some (some v) else (get_newest db k).1))
        × ((j : Str) → k ≢ j → (get_newest (put o log io db k v).1 j).1 ≡ (get_newest db j).1)
  unfolding Batch.put
  get_newest-put k v small =
      let a = behind (record { key = k; type = RecordType.value; value = v }) small in
      (a.key, a.others)

  -- Over any table files that keep the laws, in an ordered database whose sequence does not wrap and
  -- whose tables can be read, a removal behind
  -- which the memtable is not above the flush threshold leaves the newest read of its key nothing if
  -- it returns true, and as it was if it returns false, and the newest read of every other key as it
  -- was in both cases.
  pub get_newest-remove :
      (k : Str)
      → ltb o.flush_threshold_bytes
          (size_bytes (apply_write log db (Batch.remove [] k)).1.active_mem_table)
        ≡ false
      → ((get_newest (remove o log io db k).1 k).1
          ≡ (if (remove o log io db k).0 then some none else (get_newest db k).1))
        × ((j : Str) → k ≢ j → (get_newest (remove o log io db k).1 j).1 ≡ (get_newest db j).1)
  unfolding Batch.remove
  get_newest-remove k small =
      let a = behind (record { key = k; type = RecordType.tombstone; value = [] }) small in
      (a.key, a.others)
