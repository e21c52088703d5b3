-- ===== src/Scan/Range.antt =====
-- What a whole scan returns.
use lsmtree.Base.{
  All-intro, ℕ, ◌≡◌, ◌≤◌, ◌↔◌, refl, sym, subst, List, [], ◌∷◌, map, arith, All, In, inl, inr, true,
  false, In-append, In-append_left, In-append_right,
}
use lsmtree.MemTable.{records}
use lsmtree.Merge.{latest_visible_per_key, is_tombstone}
use lsmtree.Merge.Latest.{In-latest_visible_per_key, latest_visible_per_key-Ascends, Ascends}
use lsmtree.Merge.Queue.{merge_all}
use lsmtree.Merge.Queue.Loop.{concat}
use lsmtree.Merge.Queue.Members.{In-merge_all}
use lsmtree.Merge.Queue.Sorted.{merge_all-IsSorted}
use lsmtree.Record.{Record, RecordType}
use lsmtree.Record.Latest.{visible-IsLatest, IsLatest-visible}
use lsmtree.Record.Sorted.{IsSorted}
use lsmtree.Record.Visible.{IsLatest}
use lsmtree.Scan.{Db, snapshot_records, scan_sources, scan_sequence, in_range, scan}
use lsmtree.Scan.Iterators.{In-below}
use lsmtree.Scan.Sublists.{
  Sublist, Sublist-refl, Sublist-append, below-Sublist, In-Sublist, AreApart, AreApart-Sublist,
  AreApart-Pairwise,
}
use lsmtree.Scan.Sound.{
  IsConsistent, stored, level_records, select_of_levels-Sublist, select_of_levels-In,
  selected-IsSorted, concat-snapshot_records, snapshots-IsSorted,
}
use lsmtree.Text.{Str, str_lt, str_le}
use lsmtree.Text.Order.{Before}

In-in_range :
    (start end : Str) (rs : List Record) (r : Record)
    → In r (in_range start end rs) ↔ (
        In r rs
        × (str_le start r.key ≡ true)
        × (str_lt r.key end ≡ true)
        × (is_tombstone r.type ≡ false))
unfolding in_range
In-in_range start end [] r = (λ i. absurd i, λ i. absurd i.0)
In-in_range start end (q ∷ rs) r =
    let (down, up) = In-in_range start end rs r in
    (λ i. ground (arith, down), λ i. ground (arith, up))

All-in_range :
    (P : Record → Type 0) (start end : Str) (rs : List Record)
    → All P rs
    → All P (in_range start end rs)
unfolding in_range
All-in_range P start end [] a = tt
All-in_range P start end (r ∷ rs) a = ground (arith, All-in_range P start end rs a.1)

in_range-Ascends :
    (start end : Str) (rs : List Record) → Ascends rs → Ascends (in_range start end rs)
unfolding in_range
in_range-Ascends start end [] a = tt
in_range-Ascends start end (r ∷ rs) a = ground (
  arith,
  in_range-Ascends start end rs a.1,
  All-in_range (λ q. Before r.key q.key) start end rs a.0,
)

-- What the sources of a scan hold of what is stored.
sources-Sublist :
    (db : Db) (start end : Str) → Sublist (concat (scan_sources db start end)) (stored db)
unfolding concat stored
sources-Sublist db start end =
    Sublist-append (Sublist-refl _) (select_of_levels-Sublist db.files db.manifest.levels start end)

sources-In :
    (db : Db) (start end : Str) (r : Record)
    → IsConsistent db
    → str_le start r.key ≡ true
    → str_lt r.key end ≡ true
    → In r (stored db)
    → In r (concat (scan_sources db start end))
unfolding concat stored
sources-In db start end r c low high i =
    let memory = records db.active_mem_table.table in
    elim (In-append r memory (level_records db.files db.manifest.levels) i) [
      | inl j ↦ In-append_left r memory _ j
      | inr j ↦
          In-append_right r memory _
            (select_of_levels-In db.files db.manifest.levels start end r c.tables low high j)
    ]

-- The merge of a scan.
abbrev pub merged : Db → Str → Str → ℕ → List Record
merged db start end s = merge_all (map (snapshot_records s) (scan_sources db start end))

merged-IsSorted :
    (db : Db) (start end : Str) (s : ℕ) → IsConsistent db → IsSorted (merged db start end s)
merged-IsSorted db start end s c =
    let ss = scan_sources db start end in
    merge_all-IsSorted (map (snapshot_records s) ss)
      (snapshots-IsSorted s ss
        (c.memory, selected-IsSorted db.files db.manifest.levels start end c.tables))
      (AreApart-Pairwise _ (
        subst AreApart (sym (concat-snapshot_records s ss)) (
          AreApart-Sublist (below-Sublist s (concat ss))
            (AreApart-Sublist (sources-Sublist db start end) c.apart))))

In-merged :
    (db : Db) (start end : Str) (s : ℕ) (r : Record)
    → In r (merged db start end s) ↔ (In r (concat (scan_sources db start end)) × (r.seq ≤ s))
In-merged db start end s r =
    let ss = scan_sources db start end in
    let (down, up) = In-merge_all r (map (snapshot_records s) ss) in
    let (out, into) = In-below s (concat ss) r in
    (
      λ i. out (subst (In r) (concat-snapshot_records s ss) (down i)),
      λ i. up (subst (In r) (sym (concat-snapshot_records s ss)) (into i)),
    )

IsLatest-stored :
    (db : Db) (start end : Str) (s : ℕ) (r : Record)
    → IsConsistent db
    → str_le start r.key ≡ true
    → str_lt r.key end ≡ true
    → IsLatest r.key s (merged db start end s) r ↔ IsLatest r.key s (stored db) r
IsLatest-stored db start end s r c low high = (
  λ l. record {
    stored =
        In-Sublist r (sources-Sublist db start end) ((In-merged db start end s r).0 l.stored).0;
    same_key = refl;
    in_view = l.in_view;
    newest = λ q i e h.
        l.newest q
          ((In-merged db start end s q).1 (
            sources-In db start end q c (subst (λ k. str_le start k ≡ true) (sym e) low)
                (subst (λ k. str_lt k end ≡ true) (sym e) high) i,
            h,
          ))
          e h;
  },
  λ l. record {
    stored =
        (In-merged db start end s r).1 (sources-In db start end r c low high l.stored, l.in_view);
    same_key = refl;
    in_view = l.in_view;
    newest = λ q i e h.
        l.newest q
          (In-Sublist q (sources-Sublist db start end) ((In-merged db start end s q).0 i).0) e h;
  },
)

All_merged : (db : Db) (start end : Str) (s : ℕ) → All (λ q. q.seq ≤ s) (merged db start end s)
All_merged db start end s =
    All-intro (λ q. q.seq ≤ s) (merged db start end s) (λ q i. ((In-merged db start end s q).0 i).1)

value_of_type : (t : RecordType) → (is_tombstone t ≡ false) ↔ (t ≡ RecordType.value)
value_of_type RecordType.value = (λ e. refl, λ e. refl)
value_of_type RecordType.tombstone = (λ e. cc, λ e. cc)

-- A scan of a consistent database gives a record exactly if the record's key is in the range, it is a
-- value and no tombstone, and of all that the memtable and the tables hold under that key it is the
-- newest at or below the read sequence.
pub In-scan :
    (db : Db) (start end : Str) (read_seq : ℕ) (r : Record)
    → IsConsistent db
    → In r (scan db start end read_seq) ↔ (
        (str_le start r.key ≡ true)
        × (str_lt r.key end ≡ true)
        × (r.type ≡ RecordType.value)
        × IsLatest r.key (scan_sequence db read_seq) (stored db) r)
unfolding scan
In-scan db start end read_seq r c =
    let s = scan_sequence db read_seq in
    let ms = merged db start end s in
    let sorted = merged-IsSorted db start end s c in
    let (cut, uncut) = In-in_range start end (latest_visible_per_key ms) r in
    let (seen, unseen) = In-latest_visible_per_key s ms r sorted (All_merged db start end s) in
    (
      λ i.
          let (j, low, high, live) = cut i in
          let (found, value) = seen j in
          (
            low,
            high,
            value,
            (IsLatest-stored db start end s r c low high).0 (visible-IsLatest r.key s ms r found),
          ),
      λ p.
          let (low, high, value, latest) = p in
          uncut (
            unseen (
              IsLatest-visible r.key s ms r sorted
                  ((IsLatest-stored db start end s r c low high).1 latest),
              value,
            ),
            low,
            high,
            (value_of_type r.type).1 value,
          ),
    )

-- A scan of a consistent database gives its records in ascending order of their keys, each key once.
pub scan-Ascends :
    (db : Db) (start end : Str) (read_seq : ℕ)
    → IsConsistent db
    → Ascends (scan db start end read_seq)
unfolding scan
scan-Ascends db start end read_seq c =
    in_range-Ascends start end
      (latest_visible_per_key (merged db start end (scan_sequence db read_seq)))
      (latest_visible_per_key-Ascends (merged db start end (scan_sequence db read_seq))
        (merged-IsSorted db start end (scan_sequence db read_seq) c))
