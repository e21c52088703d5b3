-- ===== src/SsTable/Get.antt =====
-- `SSTable::get` on a table that was written answers by the newest record in view, and its iterator
-- gives the records.
use lsmtree.Base.{
  ℕ, ◌+◌, ◌-◌, ◌^◌, ◌<◌, ◌≡◌, ◌∙◌, ◌||◌, refl, sym, ap, subst, List, [], ◌∷◌, ◌++◌, length, map,
  drop, leb, Bool-cases, Option, some, All, In, inl, inr, arith, append_assoc, drop-append,
}
use lsmtree.Base.Checked.{Checked, ok, err, ◌>>=◌}
use lsmtree.Bloom.{from_parameters, might_contain}
use lsmtree.Bloom.Membership.{IsValid, from_parameters-IsValid, might_contain-add_all}
use lsmtree.Compaction.Slices.{bytes_of, IsSorted-behind}
use lsmtree.Compaction.Pieces.{IsSorted_front}
use lsmtree.Database.First.{no_answer}
use lsmtree.Record.{Record}
use lsmtree.Record.Sorted.{IsSorted}
use lsmtree.Record.Visible.{visible, better, better_none, visible-append, result_of}
use lsmtree.SsTable.{encode_sstable_record, add_record, add_records, search_block}
use lsmtree.SsTable.Blocks.{blocks_of, flat-blocks_of}
use lsmtree.SsTable.File.{
  BloomSizes, returned, file_tail, SsTable, search_found_block, get, read_file, add_record_to_file,
}
use lsmtree.SsTable.Located.{Answers, Lacks, get_block-Located}
use lsmtree.SsTable.Opened.{
  length-all_record_bytes, SizesFit, table_bytes, opened, many_bytes, tail_sizes, tail_lem,
  footer_read, footer_valid,
}
use lsmtree.SsTable.RoundTrip.{
  FitsTableRecord, record_bytes, all_record_bytes, add_records_fit, iterate_records_fuel,
}
use lsmtree.SsTable.Search.{search_block-all_record_bytes, search_block_fuel}
use lsmtree.SsTable.Sparse.{Index, get_block}
use lsmtree.Text.{Str}

all_record_bytes-append :
    (xs ys : List Record) → all_record_bytes (xs ++ ys) ≡ all_record_bytes xs ++ all_record_bytes ys
unfolding all_record_bytes
all_record_bytes-append [] ys = refl
all_record_bytes-append (x ∷ xs) ys =
    ap (λ s. record_bytes x ++ s) (all_record_bytes-append xs ys)
    ∙ sym (append_assoc (record_bytes x) (all_record_bytes xs) (all_record_bytes ys))

All_front : (P : Record → Type 0) (xs ys : List Record) → All P (xs ++ ys) → All P xs
All_front P [] ys h = tt
All_front P (x ∷ xs) ys h = (h.0, All_front P xs ys h.1)

All_back : (P : Record → Type 0) (xs ys : List Record) → All P (xs ++ ys) → All P ys
All_back P [] ys h = h
All_back P (x ∷ xs) ys h = All_back P xs ys h.1

-- Of three parts of which the outer ones lack the key, the middle one answers.
visible-middle :
    (k : Str) (s : ℕ) (xs ys zs : List Record)
    → Lacks k xs
    → Lacks k zs
    → visible k s (xs ++ (ys ++ zs)) ≡ visible k s ys
visible-middle k s xs ys zs a b =
    visible-append k s xs (ys ++ zs)
    ∙ ap (λ v. better v (visible k s (ys ++ zs))) (no_answer k s xs a)
    ∙ visible-append k s ys zs
    ∙ ap (better (visible k s ys)) (no_answer k s zs b)
    ∙ better_none (visible k s ys)

-- The search of a part of the records.
search_part :
    (k : Str) (s : ℕ) (before block behind : List Record) (tail : Str) (index : Index)
    → All FitsTableRecord (before ++ (block ++ behind))
    → IsSorted (before ++ (block ++ behind))
    → index.offset ≡ bytes_of before
    → search_found_block
        (all_record_bytes (before ++ (block ++ behind)) ++ tail)
        k
        s
        (some (index, bytes_of before + bytes_of block))
      ≡ some (result_of (visible k s block))
search_part k s before block behind tail index fits sorted start =
    let front = all_record_bytes before in
    let rest = all_record_bytes behind ++ tail in
    let whole : all_record_bytes (before ++ (block ++ behind)) ++ tail
        ≡ front ++ (all_record_bytes block ++ rest) =
      ap (λ x. x ++ tail)
        (all_record_bytes-append before (block ++ behind)
          ∙ ap (λ x. front ++ x) (all_record_bytes-append block behind))
      ∙ append_assoc front (all_record_bytes block ++ all_record_bytes behind) tail
      ∙ ap (λ x. front ++ x)
          (append_assoc (all_record_bytes block) (all_record_bytes behind) tail) in
    let at : index.offset ≡ length front = start ∙ sym (length-all_record_bytes before) in
    let cut : drop index.offset (all_record_bytes (before ++ (block ++ behind)) ++ tail)
        ≡ all_record_bytes block ++ rest =
      ap (drop index.offset) whole
      ∙ subst
          (λ (n : ℕ).
            drop n (front ++ (all_record_bytes block ++ rest)) ≡ all_record_bytes block ++ rest)
          (sym at) (drop-append front (all_record_bytes block ++ rest)) in
    let left : bytes_of before + bytes_of block - index.offset ≡ bytes_of block =
      omega (arith, start) in
    let fits' =
      All_front FitsTableRecord block behind
        (All_back FitsTableRecord before (block ++ behind) fits) in
    let sorted' = IsSorted_front block behind (IsSorted-behind before (block ++ behind) sorted) in
    let many = many_bytes block in
    let found : search_block (bytes_of block) (bytes_of block) k s (all_record_bytes block ++ rest)
        ≡ ok (result_of (visible k s block)) =
      search_block_fuel (bytes_of block) block k s rest (omega (arith, many)) fits' sorted'
      ∙ search_block-all_record_bytes block k s rest fits' sorted' in
    rw (left, cut, found) refl

key-In :
    (k : Str) (rs : List Record) (q : Record)
    → In q rs
    → q.key ≡ k
    → In k (map (λ (r : Record). r.key) rs)
key-In k [] q i e = absurd i
key-In k (r ∷ rs) q (inl same) e = inl (sym e ∙ ap (λ (x : Record). x.key) same)
key-In k (r ∷ rs) q (inr i) e = inr (key-In k rs q i e)

module _ (sizes : BloomSizes) (good : SizesFit sizes) (r : Record) (rs : List Record)
    (fits : All FitsTableRecord (r ∷ rs)) (sorted : IsSorted (r ∷ rs))
    (short : length (table_bytes sizes (r ∷ rs)) < 2 ^ 63) where
  abbrev all : List Record
  all = r ∷ rs

  abbrev t : SsTable
  t = opened sizes good r rs fits sorted short

  located : (k : Str) → Answers k all (get_block t.records_size t.indices k)
  located k =
      let whole = flat-blocks_of r rs in
      subst (λ qs. Answers k qs (get_block (bytes_of qs) t.indices k)) whole
        (get_block-Located k (blocks_of r rs) (subst IsSorted (sym whole) sorted))

  found_block :
      (k : Str) (s : ℕ) (found : Option (Index × ℕ))
      → Answers k all found
      → search_found_block (table_bytes sizes all) k s found ≡ some (result_of (visible k s all))
  found_block k s found (inl (e, lacks)) =
      subst
        (λ f. search_found_block (table_bytes sizes all) k s f ≡ some (result_of (visible k s all)))
        (sym e) (ap (λ v. some (result_of v)) (sym (no_answer k s all lacks)))
  found_block k s found (inr l) =
      ap (search_found_block (table_bytes sizes all) k s) l.place
      ∙ subst
          (λ qs.
            search_found_block (all_record_bytes qs ++ file_tail sizes all) k s
              (some (l.index, bytes_of l.before + bytes_of l.block))
            ≡ some (result_of (visible k s l.block)))
          (sym l.whole)
          (search_part k s l.before l.block l.behind (file_tail sizes all) l.index
            (subst (All FitsTableRecord) l.whole fits) (subst IsSorted l.whole sorted) l.offset)
      ∙ ap (λ v. some (result_of v))
          (sym (
            ap (visible k s) l.whole
            ∙ visible-middle k s l.before l.block l.behind l.not_before l.not_behind))

  filter-IsValid : IsValid (from_parameters (sizes (length all)).0 (sizes (length all)).1)
  filter-IsValid =
      let many = many_bytes all in
      let tail = tail_sizes sizes good r rs fits sorted short in
      let few : length all < 2 ^ 59 = omega (arith, many, short, tail) in
      from_parameters-IsValid (sizes (length all)).0 (sizes (length all)).1
        (good.some_bits (length all) (omega arith) few) (good.bits (length all) (omega arith) few)

  -- A table that was written answers as its records.
  pub get_lem :
      (k : Str) (s : ℕ) → get t (table_bytes sizes all) k s ≡ some (result_of (visible k s all))
  unfolding get
  get_lem k s = elim (Bool-cases (might_contain t.bloom_filter k)) [
    | inl e ↦ rw e (found_block k s (get_block t.records_size t.indices k) (located k))
    | inr e ↦
        let lacks : Lacks k all = λ q i same.
          let there =
            might_contain-add_all (from_parameters (sizes (length all)).0 (sizes (length all)).1)
              (map (λ (r : Record). r.key) all) k filter-IsValid (key-In k all q i same) in
          cc (e, there) in
        rw e (ap (λ v. some (result_of v)) (sym (no_answer k s all lacks)))
  ]

  -- The iterator gives its records.
  pub read_file_lem : read_file (table_bytes sizes all) ≡ some all
  unfolding read_file
  read_file_lem =
      let many = many_bytes all in
      subst (λ x. read_file (all_record_bytes all ++ x) ≡ some all)
        (sym (tail_lem sizes good r rs fits sorted short))
        (rw
          (
            footer_read sizes good r rs fits sorted short,
            footer_valid sizes good r rs fits sorted short,
            iterate_records_fuel (bytes_of all) all _ (omega (arith, many)) fits,
          )
          refl)

add_record_ok : (r : Record) (s : Str) → add_record r ≡ ok s → r.seq < 2 ^ 64 → FitsTableRecord r
unfolding add_record encode_sstable_record
add_record_ok r s e h =
    elim (Bool-cases (leb (2 ^ 32) (length r.key) || leb (2 ^ 32) (length r.value))) [
      | inl large ↦ absurd (cc (rw large at e))
      | inr small ↦ record { seq = h; key = ground (arith, small); value = ground (arith, small) }
    ]

bound :
    {E A B : Type 0} (c : Checked E A) (f : A → Checked E B) (b : B)
    → (c >>= f) ≡ ok b
    → (a : A) × (c ≡ ok a) × (f a ≡ ok b)
bound (err e) f b h = absurd (cc h)
bound (ok a) f b h = (a, refl, h)

-- Records that were written without an exception fit their widths.
add_records_ok :
    (rs : List Record) (s : Str)
    → add_records rs ≡ ok s
    → All (λ r. r.seq < 2 ^ 64) rs
    → All FitsTableRecord rs
unfolding add_records
add_records_ok [] s e h = tt
add_records_ok (r ∷ rs) s e h =
    let (first, e1, e2) =
      bound (add_record r) (λ first. add_records rs >>= λ others. ok (first ++ others)) s e in
    let (others, e3, e4) = bound (add_records rs) (λ others. ok (first ++ others)) s e2 in
    (add_record_ok r first e1 h.0, add_records_ok rs others e3 h.1)

taken :
    {E A B : Type 0} (c : Checked E A) (f : A → Option B) (b : B)
    → returned c f ≡ some b
    → (a : A) × (c ≡ ok a) × (f a ≡ some b)
taken (err e) f b h = absurd (cc h)
taken (ok a) f b h = (a, refl, h)

-- What `addRecordToFile` writes, if it does not throw.
pub add_record_to_file_lem :
    (sizes : BloomSizes) (r : Record) (rs : List Record) (bytes : Str) (size : ℕ)
    → add_record_to_file sizes (r ∷ rs) ≡ some (bytes, size)
    → All (λ q. q.seq < 2 ^ 64) (r ∷ rs)
    → All FitsTableRecord (r ∷ rs) × (bytes ≡ table_bytes sizes (r ∷ rs))
unfolding add_record_to_file
add_record_to_file_lem sizes r rs bytes size e h =
    let (records, wrote, same) = taken (add_records (r ∷ rs)) _ (bytes, size) e in
    let fits = add_records_ok (r ∷ rs) records wrote h in
    let exact : all_record_bytes (r ∷ rs) ≡ records = cc (wrote, add_records_fit (r ∷ rs) fits) in
    (fits, cc (exact, same))
