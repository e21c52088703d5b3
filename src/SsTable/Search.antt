-- ===== src/SsTable/Search.antt =====
-- The search in a block of sorted records answers by the newest record in view.
use lsmtree.Base.{
  ℕ, zero, suc, ◌-◌, ◌≤◌, ◌≡◌, refl, List, [], ◌∷◌, ◌++◌, length, ltb, ◌==◌, ◌||◌, if◌then◌else◌,
  false, none, some, arith, All, append_assoc, Bool-cases, inl, inr,
}
use lsmtree.Base.Checked.{ok}
use lsmtree.Record.{Record, RecordType, Result, encoded_record_size}
use lsmtree.Record.Sorted.{IsSorted, visible-first, visible-skip, visible-past, all_past}
use lsmtree.Record.Visible.{visible, result_of}
use lsmtree.SsTable.{search_block, table_result}
use lsmtree.SsTable.RoundTrip.{
  FitsTableRecord, record_bytes, all_record_bytes, read_sstable_record-record_bytes,
}
use lsmtree.Text.{Str, str_lt}
use lsmtree.Text.Order.{Before, compare_str→eq, compare_str_refl, compare_str_swap}
use lsmtree.Compaction.Slices.{bytes_of}

search_block-step :
    (fuel left read_seq : ℕ) (key : Str) (r : Record) (rs : List Record) (rest : Str)
    → FitsTableRecord r
    → left ≡ bytes_of (r ∷ rs)
    → search_block (suc fuel) left key read_seq (record_bytes r ++ rest) ≡ (
        if str_lt key r.key
        then ok Result.absent
        else (if str_lt r.key key || ltb read_seq r.seq
            then search_block fuel (bytes_of rs) key read_seq rest
            else ok (table_result r.type r.value)))
unfolding search_block
search_block-step fuel left read_seq key r rs rest f h =
    let more : (left == 0) ≡ false = unfold bytes_of in ground (arith, h) in
    let size : encoded_record_size r ≤ left = unfold bytes_of in omega (arith, h) in
    let behind : left - encoded_record_size r ≡ bytes_of rs = unfold bytes_of in omega (arith, h) in
    rw (more, read_sstable_record-record_bytes r left rest f size, behind)

result_of-some : (r : Record) → result_of (some r) ≡ table_result r.type r.value
result_of-some r =
    elim r.type
      as (λ t.
        (elim t [
          | RecordType.value ↦ Result.value r.value
          | RecordType.tombstone ↦ Result.tombstone
        ])
        ≡ table_result t r.value) [ RecordType.value ↦ refl | RecordType.tombstone ↦ refl ]

absent_past :
    (key : Str) (s : ℕ) (r : Record) (rs : List Record)
    → IsSorted (r ∷ rs)
    → Before key r.key
    → visible key s (r ∷ rs) ≡ none
absent_past key s r rs h b = visible-past key s (r ∷ rs) (b, all_past key r rs b h.0)

-- On the bytes of sorted records whose fields fit their widths, the search of `get` ends, with the
-- record count as fuel, and answers by the newest record of the key at or below the read sequence.
pub search_block-all_record_bytes :
    (rs : List Record) (key : Str) (read_seq : ℕ) (rest : Str)
    → All FitsTableRecord rs
    → IsSorted rs
    → search_block (length rs) (bytes_of rs) key read_seq (all_record_bytes rs ++ rest)
      ≡ ok (result_of (visible key read_seq rs))
unfolding all_record_bytes
search_block-all_record_bytes [] key s rest f h = unfold search_block bytes_of visible in refl
search_block-all_record_bytes (r ∷ rs) key s rest f h =
    rw
      (
        append_assoc (record_bytes r) (all_record_bytes rs) rest,
        search_block-step (length rs) (bytes_of (r ∷ rs)) s key r rs (all_record_bytes rs ++ rest)
            f.0 refl,
        search_block-all_record_bytes rs key s rest f.1 h.1,
      )
      (elim (Bool-cases (str_lt key r.key)) [
        | inl past ↦ rw (past, absent_past key s r rs h (ground (arith, past)))
        | inr near ↦ elim (Bool-cases (str_lt r.key key || ltb s r.seq)) [
          | inl skip ↦ rw (
            near,
            skip,
            visible-skip key s r rs
                (ground (arith, skip, compare_str_refl key, compare_str→eq r.key key)),
          )
          | inr hit ↦ rw (
            near,
            hit,
            visible-first key s r rs
                (ground (arith, near, hit, compare_str_swap key r.key, compare_str→eq r.key key))
                (ground (arith, hit)) h,
            result_of-some r,
          )
        ]
      ])

-- More fuel than there are records is as good.
pub search_block_fuel :
    (fuel : ℕ) (rs : List Record) (key : Str) (read_seq : ℕ) (rest : Str)
    → length rs ≤ fuel
    → All FitsTableRecord rs
    → IsSorted rs
    → search_block fuel (bytes_of rs) key read_seq (all_record_bytes rs ++ rest)
      ≡ search_block (length rs) (bytes_of rs) key read_seq (all_record_bytes rs ++ rest)
unfolding all_record_bytes
search_block_fuel zero [] key s rest l f h = refl
search_block_fuel (suc fuel) [] key s rest l f h = unfold search_block bytes_of in refl
search_block_fuel zero (r ∷ rs) key s rest l f h = absurd (omega (arith, l))
search_block_fuel (suc fuel) (r ∷ rs) key s rest l f h = rw (
  append_assoc (record_bytes r) (all_record_bytes rs) rest,
  search_block-step fuel (bytes_of (r ∷ rs)) s key r rs (all_record_bytes rs ++ rest) f.0 refl,
  search_block-step (length rs) (bytes_of (r ∷ rs)) s key r rs (all_record_bytes rs ++ rest) f.0
      refl,
  search_block_fuel fuel rs key s rest (omega (arith, l)) f.1 h.1,
)
