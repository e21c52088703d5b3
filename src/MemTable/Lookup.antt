-- ===== src/MemTable/Lookup.antt =====
-- Reads of a memtable against the history of what was applied to it.
use lsmtree.Base.{ℕ, ◌≡◌, refl, sym, ap, ◌∙◌, List, [], ◌∷◌, ◌++◌, arith, append-nil}
use lsmtree.Record.{Record}
use lsmtree.Record.Visible.{visible, candidate, better, result_of, visible-append, better_assoc}
use lsmtree.Record.Sorted.{IsSorted, visible-first, visible-skip, visible-past, all_past}
use lsmtree.Text.{Str}
use lsmtree.Text.Order.{compare_str→eq, compare_str_swap}
use lsmtree.MemTable.Map.{Table, record_of, records, lower_bound, insert_or_assign}
use lsmtree.MemTable.{MemTable, answer, get, apply_to_memory, apply_records}
use lsmtree.Wal.{entry_of}
use lsmtree.MemTable.Insert.{insert_or_assign-IsSorted, visible-insert_or_assign}

-- `get` answers by the first record in view.
answer-lower_bound :
    (t : Table) (k : Str) (s : ℕ)
    → IsSorted (records t)
    → answer k (lower_bound (record { key = k; seq = s }) t) ≡ result_of (visible k s (records t))
unfolding lower_bound
answer-lower_bound [] k s h = unfold visible in refl
answer-lower_bound ((j, e) ∷ t) k s h = ground (
  arith,
  answer-lower_bound t k s h.1,
  compare_str→eq j.key k,
  compare_str_swap k j.key,
  visible-skip k s (record_of (j, e)) (records t),
  visible-first k s (record_of (j, e)) (records t),
  visible-past k s (records ((j, e) ∷ t)),
  all_past k (record_of (j, e)) (records t),
)

abbrev pub HasOrder : MemTable → Type 0
HasOrder m = IsSorted (records m.table)

pub apply_records-HasOrder :
    (m : MemTable) (rs : List Record) → HasOrder m → HasOrder (apply_records m rs)
unfolding apply_records apply_to_memory
apply_records-HasOrder m [] h = h
apply_records-HasOrder m (r ∷ rs) h =
    apply_records-HasOrder (apply_to_memory m r.key (entry_of r).1) rs
      (insert_or_assign-IsSorted _ _ m.table h)

pub visible-apply_records :
    (k : Str) (s : ℕ) (m : MemTable) (rs : List Record)
    → HasOrder m
    → visible k s (records (apply_records m rs).table) ≡ visible k s (records m.table ++ rs)
unfolding apply_records apply_to_memory
visible-apply_records k s m [] h = ap (visible k s) (sym (append-nil (records m.table)))
visible-apply_records k s m (r ∷ rs) h =
    visible-apply_records k s (apply_to_memory m r.key (entry_of r).1) rs
      (insert_or_assign-IsSorted _ _ m.table h)
    ∙ visible-append k s (records (insert_or_assign _ _ m.table)) rs
    ∙ rw (visible-insert_or_assign k s _ _ m.table h, visible-append k s (records m.table) (r ∷ rs))
        (sym (better_assoc (visible k s (records m.table)) (candidate k s r) (visible k s rs))
          ∙ ap (better (visible k s (records m.table))) (unfold visible in refl))

-- `get` answers by the records of the map.
pub get_lem :
    (k : Str) (s : ℕ) (m : MemTable)
    → HasOrder m
    → get m k s ≡ result_of (visible k s (records m.table))
unfolding get
get_lem k s m h = answer-lower_bound m.table k s h

-- `get` on a memtable whose map was in order, and to which records have been applied, in any order
-- and with any overwrites, answers by the newest record of the key that the read sequence sees.
pub get-apply_records :
    (k : Str) (s : ℕ) (m : MemTable) (rs : List Record)
    → HasOrder m
    → get (apply_records m rs) k s ≡ result_of (visible k s (records m.table ++ rs))
unfolding get
get-apply_records k s m rs h =
    answer-lower_bound (apply_records m rs).table k s (apply_records-HasOrder m rs h)
    ∙ ap result_of (visible-apply_records k s m rs h)
