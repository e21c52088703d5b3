-- ===== src/SsTable/Blocks.antt =====
-- The blocks of a table, and which of them `getBlock` finds for a key.
use lsmtree.Base.{
  ℕ, ◌+◌, ◌%◌, ◌^◌, ◌<◌, ◌≤◌, ◌≡◌, ◌∙◌, refl, ap, List, [], ◌∷◌, ◌++◌, ltb, ◌==◌, if◌then◌else◌,
  Bool, Bool-cases, false, inl, inr, arith,
}
use lsmtree.Compaction.Slices.{bytes_of}
use lsmtree.Record.{Record, encoded_record_size}
use lsmtree.SsTable.Sparse.{Index, index_of_record, make_indices, block_size, split_indices}
use lsmtree.Text.{Str}

-- A block has a first record.
abbrev pub Block : Type 0
Block = Record × List Record

unfoldable pub flat : List Block → List Record
flat [] = []
flat ((r, b) ∷ bs) = r ∷ (b ++ flat bs)

-- The indices of blocks, from an offset on.
unfoldable pub indices_of : ℕ → List Block → List Index
indices_of offset [] = []
indices_of offset ((r, b) ∷ bs) =
    index_of_record r offset ∷ indices_of (offset + bytes_of (r ∷ b)) bs

-- The rest of a block of this size, and the later blocks.
unfoldable pub cut_blocks : ℕ → List Record → List Record × List Block
cut_blocks block [] = ([], [])
cut_blocks block (r ∷ rs) =
    let new = cut_blocks (encoded_record_size r) rs in
    let old = cut_blocks (block + encoded_record_size r) rs in
    if ltb block_size block then ([], (r, new.0) ∷ new.1) else (r ∷ old.0, old.1)

pub bytes_of-append : (xs ys : List Record) → bytes_of (xs ++ ys) ≡ bytes_of xs + bytes_of ys
unfolding bytes_of
bytes_of-append [] ys = omega arith
bytes_of-append (x ∷ xs) ys = omega (arith, bytes_of-append xs ys)

pub bytes_of-flat :
    (r : Record) (b : List Record) (bs : List Block)
    → bytes_of (flat ((r, b) ∷ bs)) ≡ bytes_of (r ∷ b) + bytes_of (flat bs)
unfolding flat bytes_of
bytes_of-flat r b bs = omega (arith, bytes_of-append b (flat bs))

pub flat-cut_blocks :
    (block : ℕ) (rs : List Record) → (cut_blocks block rs).0 ++ flat (cut_blocks block rs).1 ≡ rs
unfolding cut_blocks flat
flat-cut_blocks block [] = refl
flat-cut_blocks block (r ∷ rs) = elim (Bool-cases (ltb block_size block)) [
  | inl e ↦ rw e (ap (◌∷◌ r) (flat-cut_blocks (encoded_record_size r) rs))
  | inr e ↦ rw e (ap (◌∷◌ r) (flat-cut_blocks (block + encoded_record_size r) rs))
]

make_indices-cut_blocks :
    (size block : ℕ) (rs : List Record)
    → 0 < size
    → block ≤ size
    → size + bytes_of rs < 2 ^ 64
    → make_indices size block rs
      ≡ indices_of (size + bytes_of (cut_blocks block rs).0) (cut_blocks block rs).1
unfolding make_indices cut_blocks indices_of bytes_of
make_indices-cut_blocks size block [] h k l = refl
make_indices-cut_blocks size block (r ∷ rs) h k l =
    let n = encoded_record_size r in
    let some_bytes : (size == 0) ≡ false = ground (arith, h) in
    let moved : (size + n) % 2 ^ 64 ≡ size + n = omega (arith, l) in
    let fresh : n % 2 ^ 64 ≡ n = omega (arith, l) in
    let grown : (block + n) % 2 ^ 64 ≡ block + n = omega (arith, l, k) in
    elim (Bool-cases (ltb block_size block)) [
      | inl e ↦
          let c = cut_blocks n rs in
          let ih =
            make_indices-cut_blocks (size + n) n rs (omega (arith, h)) (omega arith)
              (omega (arith, l)) in
          rw (some_bytes, e, moved, fresh, ih)
            (ap (λ (m : ℕ). index_of_record r m ∷ indices_of (size + n + bytes_of c.0) c.1)
                {x = size} {y = size + 0} (omega arith)
              ∙ ap (λ (m : ℕ). index_of_record r (size + 0) ∷ indices_of m c.1)
                  {x = size + n + bytes_of c.0} {y = size + 0 + (n + bytes_of c.0)} (omega arith))
      | inr e ↦
          let c = cut_blocks (block + n) rs in
          let ih =
            make_indices-cut_blocks (size + n) (block + n) rs (omega (arith, h)) (omega (arith, k))
              (omega (arith, l)) in
          rw (some_bytes, e, moved, grown, ih) (ap (λ (m : ℕ). indices_of m c.1) (omega arith))
    ]

-- The blocks of a table.
abbrev pub blocks_of : Record → List Record → List Block
blocks_of r rs = let c = cut_blocks (encoded_record_size r) rs in (r, c.0) ∷ c.1

pub flat-blocks_of : (r : Record) (rs : List Record) → flat (blocks_of r rs) ≡ r ∷ rs
unfolding flat
flat-blocks_of r rs = ap (◌∷◌ r) (flat-cut_blocks (encoded_record_size r) rs)

-- The indices that `addRecordToFile` makes are those of the blocks.
pub make_indices_lem :
    (r : Record) (rs : List Record)
    → bytes_of (r ∷ rs) < 2 ^ 64
    → make_indices 0 0 (r ∷ rs) ≡ indices_of 0 (blocks_of r rs)
unfolding make_indices indices_of bytes_of
make_indices_lem r rs h =
    let n = encoded_record_size r in
    let c = cut_blocks n rs in
    let fresh : n % 2 ^ 64 ≡ n = omega (arith, h) in
    let fresh' : (0 + n) % 2 ^ 64 ≡ n = omega (arith, h) in
    let ih = make_indices-cut_blocks n n rs (omega arith) (omega arith) (omega (arith, h)) in
    ap (λ is. index_of_record r 0 ∷ is)
      (rw (fresh', fresh, ih) (ap (λ (m : ℕ). indices_of m c.1) (omega arith)))

unfoldable pub split_blocks : (Str → Bool) → List Block → List Block × List Block
split_blocks test [] = ([], [])
split_blocks test ((r, b) ∷ bs) =
    let rest = split_blocks test bs in
    if test r.key then ((r, b) ∷ rest.0, rest.1) else ([], (r, b) ∷ bs)

pub split_indices_of :
    (test : Str → Bool) (offset : ℕ) (bs : List Block)
    → split_indices (λ i. test i.key) (indices_of offset bs) ≡ (
      indices_of offset (split_blocks test bs).0,
      indices_of (offset + bytes_of (flat (split_blocks test bs).0)) (split_blocks test bs).1,
    )
unfolding split_indices indices_of split_blocks
split_indices_of test offset [] = refl
split_indices_of test offset ((r, b) ∷ bs) =
    let rest = split_blocks test bs in
    let ih = split_indices_of test (offset + bytes_of (r ∷ b)) bs in
    elim (Bool-cases (test r.key)) [
      | inl e ↦
          rw (e, ih)
            (ap
              (λ (m : ℕ). (
                index_of_record r offset ∷ indices_of (offset + bytes_of (r ∷ b)) rest.0,
                indices_of m rest.1,
              ))
              (omega (arith, bytes_of-flat r b rest.0)))
      | inr e ↦ rw e (
          ap (λ (m : ℕ). ([], index_of_record r m ∷ indices_of (m + bytes_of (r ∷ b)) bs))
            {x = offset} {y = offset + bytes_of (flat [])} (unfold flat bytes_of in omega arith))
    ]
