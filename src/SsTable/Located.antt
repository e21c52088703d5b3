-- ===== src/SsTable/Located.antt =====
-- `getBlock` finds the part of the records in which a key may stand.
use lsmtree.Base.{
  ℕ, ◌+◌, ◌≡◌, ◌⊎◌, ◌∙◌, refl, sym, ap, subst, List, [], ◌∷◌, ◌++◌, Bool, Bool-cases, true, false,
  Option, none, some, All, All-In, In, In-append_right, inl, inr, arith, append_assoc, append-nil,
}
use lsmtree.Compaction.Slices.{bytes_of, IsSorted-behind}
use lsmtree.Record.{Record}
use lsmtree.Record.Sorted.{IsSorted, Precedes}
use lsmtree.SsTable.Blocks.{
  Block, flat, indices_of, bytes_of-append, bytes_of-flat, split_blocks, split_indices_of,
}
use lsmtree.SsTable.Sparse.{
  Index, index_of_record, split_indices, last_index, block_end, next_block, block_at, get_block,
}
use lsmtree.Text.{Str, str_lt, str_le}
use lsmtree.Text.Order.{Before, Before-trans, Before-ne, compare_str_swap}

flat-split_blocks :
    (test : Str → Bool) (bs : List Block)
    → flat bs ≡ flat (split_blocks test bs).0 ++ flat (split_blocks test bs).1
unfolding flat split_blocks
flat-split_blocks test [] = refl
flat-split_blocks test ((r, b) ∷ bs) = elim (Bool-cases (test r.key)) [
  | inl e ↦
      let rest = split_blocks test bs in
      rw e (
        ap (λ x. r ∷ (b ++ x)) (flat-split_blocks test bs)
        ∙ ap (◌∷◌ r) (sym (append_assoc b (flat rest.0) (flat rest.1))))
  | inr e ↦ rw e refl
]

-- The blocks in front of the split pass the test with their first keys.
All-split_blocks :
    (test : Str → Bool) (bs : List Block)
    → All (λ (b : Block). test b.0.key ≡ true) (split_blocks test bs).0
unfolding split_blocks
All-split_blocks test [] = tt
All-split_blocks test ((r, b) ∷ bs) = elim (Bool-cases (test r.key)) [
  | inl e ↦ rw e (e, All-split_blocks test bs)
  | inr e ↦ rw e tt
]

-- The first block behind the split does not.
abbrev Fails : (Str → Bool) → List Block → Type 0
Fails test [] = Unit
Fails test ((r, b) ∷ bs) = test r.key ≡ false

split_blocks-Fails : (test : Str → Bool) (bs : List Block) → Fails test (split_blocks test bs).1
unfolding split_blocks
split_blocks-Fails test [] = tt
split_blocks-Fails test ((r, b) ∷ bs) = elim (Bool-cases (test r.key)) [
  | inl e ↦ rw e (split_blocks-Fails test bs)
  | inr e ↦ rw e e
]

sorted_between :
    (xs ys : List Record) (q r : Record) → IsSorted (xs ++ ys) → In q xs → In r ys → Precedes q r
sorted_between [] ys q r h i j = absurd i
sorted_between (x ∷ xs) ys q r h (inl e) j =
    subst (λ z. Precedes z r) (sym e)
      (All-In (Precedes x) (xs ++ ys) r h.0 (In-append_right r xs ys j))
sorted_between (x ∷ xs) ys q r h (inr i) j = sorted_between xs ys q r h.1 i j

Precedes-Before : (k : Str) (q r : Record) → Precedes q r → Before r.key k → Before q.key k
Precedes-Before k q r (inl p) h = Before-trans q.key r.key k p h
Precedes-Before k q r (inr p) h = subst (λ x. Before x k) (sym p.0) h

Before-Precedes : (k : Str) (q r : Record) → Before k q.key → Precedes q r → Before k r.key
Before-Precedes k q r h (inl p) = Before-trans k q.key r.key h p
Before-Precedes k q r h (inr p) = subst (λ x. Before k x) p.0 h

abbrev pub Lacks : Str → List Record → Type 0
Lacks k rs = (q : Record) → In q rs → q.key ≡ k → ⊥

-- Blocks whose first key is behind `k` do not have it.
behind-Lacks :
    (k : Str) (bs : List Block)
    → IsSorted (flat bs)
    → Fails (λ key. str_le key k) bs
    → Lacks k (flat bs)
unfolding flat
behind-Lacks k [] h f q i e = absurd i
behind-Lacks k ((r, b) ∷ bs) h f q i e =
    let past : Before k r.key =
      ground (arith, f, compare_str_swap k r.key, compare_str_swap r.key k) in
    elim i [
      | inl same ↦ Before-ne k r.key past (ap (λ (x : Record). x.key) (sym same) ∙ e)
      | inr j ↦
          Before-ne k q.key
            (Before-Precedes k r q past (All-In (Precedes r) (b ++ flat bs) q h.0 j)) e
    ]

-- Records in front of a block whose first key is in front of `k` do not have it.
front-Lacks :
    (k : Str) (xs : List Record) (d : Block) (ys : List Record)
    → IsSorted (xs ++ (d.0 ∷ ys))
    → Before d.0.key k
    → Lacks k xs
front-Lacks k xs d ys h p q i e =
    let order = sorted_between xs (d.0 ∷ ys) q d.0 h i (inl refl) in
    Before-ne q.key k (Precedes-Before k q d.0 order p) (sym e)

-- The last of some blocks, and its index.
last_block :
    (offset : ℕ) (r : Record) (b : List Record) (bs : List Block)
    → (ds : List Block) × (d : Block) × (flat ((r, b) ∷ bs) ≡ flat ds ++ (d.0 ∷ d.1))
      × (last_index (index_of_record r offset) (indices_of (offset + bytes_of (r ∷ b)) bs)
          ≡ index_of_record d.0 (offset + bytes_of (flat ds)))
      × In d ((r, b) ∷ bs)
unfolding flat last_index indices_of
last_block offset r b [] = (
  [],
  (r, b),
  ap (◌∷◌ r) (append-nil b),
  ap (index_of_record r) (unfold bytes_of in omega arith),
  inl refl,
)
last_block offset r b ((q, c) ∷ bs) =
    let (ds, d, whole, last, i) = last_block (offset + bytes_of (r ∷ b)) q c bs in
    (
      (r, b) ∷ ds,
      d,
      ap (λ x. r ∷ (b ++ x)) whole ∙ ap (◌∷◌ r) (sym (append_assoc b (flat ds) (d.0 ∷ d.1))),
      last ∙ ap (index_of_record d.0) (omega (arith, bytes_of-flat r b ds)),
      inr i,
    )

-- The part of the records that `getBlock` finds.
pub record Located (k : Str) (rs : List Record) (found : Option (Index × ℕ)) : Type 0 where
  pub before : List Record
  pub block : List Record
  pub behind : List Record
  pub index : Index
  pub whole : rs ≡ before ++ (block ++ behind)
  pub place : found ≡ some (index, bytes_of before + bytes_of block)
  pub offset : index.offset ≡ bytes_of before
  pub not_before : Lacks k before
  pub not_behind : Lacks k behind

-- Where the next blocks start, or the records end, is where the block ends.
block_end_of :
    (offset size : ℕ) (bs : List Block)
    → size ≡ offset + bytes_of (flat bs)
    → block_end size (indices_of offset bs) ≡ offset
unfolding indices_of flat
block_end_of offset size [] e = unfold bytes_of in omega (arith, e)
block_end_of offset size ((r, b) ∷ bs) e = refl

next_block_of :
    (k : Str) (offset : ℕ) (bs : List Block)
    → next_block k (indices_of offset bs)
      ≡ indices_of
          (offset + bytes_of (flat (split_blocks (λ key. str_le key k) bs).0))
          (split_blocks (λ key. str_le key k) bs).1
next_block_of k offset bs = ap (λ x. x.1) (split_indices_of (λ key. str_le key k) offset bs)

split_indices_skips :
    (test : Index → Bool) (p : Index) (is : List Index)
    → test p ≡ true
    → (split_indices test (p ∷ is)).1 ≡ (split_indices test is).1
unfolding split_indices
split_indices_skips test p is e = rw e refl

abbrev Reaches : Str → List Index → Type 0
Reaches k [] = Unit
Reaches k (q ∷ is) = str_le k q.key ≡ true

-- Where some index is in front of the key, the block starts at the last of them.
block_at_front :
    (size : ℕ) (k : Str) (f : Index) (front back : List Index)
    → Reaches k back
    → block_at size k (f ∷ front, back)
      ≡ some (last_index f front, block_end size (next_block k (last_index f front ∷ back)))
block_at_front size k f front [] h = refl
block_at_front size k f front (q ∷ back) h = rw h refl

Reaches-of :
    (k : Str) (offset : ℕ) (bs : List Block)
    → Fails (λ key. str_lt key k) bs
    → Reaches k (indices_of offset bs)
unfolding indices_of
Reaches-of k offset [] h = tt
Reaches-of k offset ((r, b) ∷ bs) h =
    ground (arith, h, compare_str_swap k r.key, compare_str_swap r.key k)

abbrev pub Answers : Str → List Record → Option (Index × ℕ) → Type 0
Answers k rs found = ((found ≡ none) × Lacks k rs) ⊎ Located k rs found

module _ (k : Str) (size : ℕ) where
  -- The blocks that the search of the end passes, and those behind them.
  abbrev passed : List Block → List Block × List Block
  passed gs = split_blocks (λ key. str_le key k) gs

  end_of :
      (offset : ℕ) (gs : List Block)
      → size ≡ offset + bytes_of (flat gs)
      → block_end size (next_block k (indices_of offset gs))
        ≡ offset + bytes_of (flat (passed gs).0)
  end_of offset gs e =
      let parts = ap bytes_of (flat-split_blocks (λ key. str_le key k) gs) in
      let sizes = bytes_of-append (flat (passed gs).0) (flat (passed gs).1) in
      ap (block_end size) (next_block_of k offset gs)
      ∙ block_end_of (offset + bytes_of (flat (passed gs).0)) size (passed gs).1
          (omega (arith, e, parts, sizes))

  passed-Lacks : (gs : List Block) → IsSorted (flat gs) → Lacks k (flat (passed gs).1)
  passed-Lacks gs h =
      let whole = flat-split_blocks (λ key. str_le key k) gs in
      behind-Lacks k (passed gs).1
        (IsSorted-behind (flat (passed gs).0) (flat (passed gs).1) (subst IsSorted whole h))
        (split_blocks-Fails (λ key. str_le key k) gs)

  located :
      (fs gs : List Block)
      → All (λ (b : Block). str_lt b.0.key k ≡ true) fs
      → Fails (λ key. str_lt key k) gs
      → IsSorted (flat fs ++ flat gs)
      → size ≡ bytes_of (flat fs ++ flat gs)
      → Answers k
          (flat fs ++ flat gs)
          (block_at size k (indices_of 0 fs, indices_of (0 + bytes_of (flat fs)) gs))
  unfolding flat indices_of
  located [] [] a f h e = inl (refl, λ q i same. absurd i)
  located [] ((r, b) ∷ gs) a f h e = elim (Bool-cases (str_lt k r.key)) [
    | inl past ↦ rw past (
        inl (
          refl,
          behind-Lacks k ((r, b) ∷ gs) h
              (ground (arith, past, compare_str_swap k r.key, compare_str_swap r.key k)),
        ))
    | inr near ↦
        let start : ℕ = 0 + bytes_of [] in
        let bs = (r, b) ∷ gs in
        let none_before : bytes_of [] ≡ 0 = unfold bytes_of in refl in
        let stop = end_of start bs (omega (arith, e, none_before)) in
        let ends : block_end size (next_block k (indices_of start bs))
            ≡ bytes_of [] + bytes_of (flat (passed bs).0) =
          omega (arith, stop, none_before) in
        rw near (
          inr (record {
            before = [];
            block = flat (passed bs).0;
            behind = flat (passed bs).1;
            index = index_of_record r start;
            whole = flat-split_blocks (λ key. str_le key k) bs;
            place = ap (λ (n : ℕ). some (index_of_record r start, n)) ends;
            offset = omega (arith, none_before);
            not_before = λ q i same. absurd i;
            not_behind = passed-Lacks bs h;
          }))
  ]
  located ((r, b) ∷ fs) gs a f h e =
      let (ds, d, whole, last, i) = last_block 0 r b fs in
      let front = flat ((r, b) ∷ fs) in
      let start : ℕ = 0 + bytes_of front in
      let near : str_lt d.0.key k ≡ true =
        All-In (λ (b : Block). str_lt b.0.key k ≡ true) ((r, b) ∷ fs) d a i in
      let p = index_of_record d.0 (0 + bytes_of (flat ds)) in
      let all : front ++ flat gs ≡ flat ds ++ ((d.0 ∷ d.1) ++ flat gs) =
        ap (λ x. x ++ flat gs) whole ∙ append_assoc (flat ds) (d.0 ∷ d.1) (flat gs) in
      let sizes = bytes_of-append front (flat gs) in
      let front_size = ap bytes_of whole ∙ bytes_of-append (flat ds) (d.0 ∷ d.1) in
      let mid_size = bytes_of-append (d.0 ∷ d.1) (flat (passed gs).0) in
      let ends = end_of start gs (omega (arith, e, sizes)) in
      let skip : next_block k (p ∷ indices_of start gs) ≡ next_block k (indices_of start gs) =
        split_indices_skips (λ j. str_le j.key k) p (indices_of start gs)
          (ground (arith, near, compare_str_swap d.0.key k, compare_str_swap k d.0.key)) in
      inr (record {
        before = flat ds;
        block = (d.0 ∷ d.1) ++ flat (passed gs).0;
        behind = flat (passed gs).1;
        index = p;
        whole =
            all
            ∙ ap (λ x. flat ds ++ ((d.0 ∷ d.1) ++ x)) (flat-split_blocks (λ key. str_le key k) gs)
            ∙ ap (λ x. flat ds ++ x)
                (sym (append_assoc (d.0 ∷ d.1) (flat (passed gs).0) (flat (passed gs).1)));
        place =
            block_at_front size k (index_of_record r 0) (indices_of (0 + bytes_of (r ∷ b)) fs)
              (indices_of start gs) (Reaches-of k start gs f)
            ∙ ap (λ j. some (j, block_end size (next_block k (j ∷ indices_of start gs)))) last
            ∙ ap (λ (n : ℕ). some (p, n))
                (ap (block_end size) skip ∙ ends ∙ omega (arith, front_size, mid_size));
        offset = omega arith;
        not_before =
            front-Lacks k (flat ds) d (d.1 ++ flat gs) (subst IsSorted all h)
              (ground (arith, near));
        not_behind = passed-Lacks gs (IsSorted-behind front (flat gs) h);
      })

-- In sorted blocks, `getBlock` finds the part of the records where the key may stand, or none where it
-- does not stand at all.
pub get_block-Located :
    (k : Str) (bs : List Block)
    → IsSorted (flat bs)
    → Answers k (flat bs) (get_block (bytes_of (flat bs)) (indices_of 0 bs) k)
unfolding get_block
get_block-Located k bs h =
    let test : Str → Bool = λ key. str_lt key k in
    let parts = split_blocks test bs in
    let whole = flat-split_blocks test bs in
    let size = bytes_of (flat bs) in
    subst
      (λ rs. Answers k rs (block_at size k (split_indices (λ i. str_lt i.key k) (indices_of 0 bs))))
      (sym whole)
      (subst (λ x. Answers k (flat parts.0 ++ flat parts.1) (block_at size k x))
        (sym (split_indices_of test 0 bs))
        (located k size parts.0 parts.1 (All-split_blocks test bs) (split_blocks-Fails test bs)
          (subst IsSorted whole h) (ap bytes_of whole)))
