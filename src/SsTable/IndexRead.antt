-- ===== src/SsTable/IndexRead.antt =====
-- The sparse index of a table is read back as it was written.
use lsmtree.Base.{
  ℕ, zero, suc, ◌+◌, ◌-◌, ◌^◌, ◌<◌, ◌≤◌, ◌≡◌, refl, sym, subst, List, [], ◌∷◌, ◌++◌, length, take,
  drop, ltb, ◌==◌, true, false, Option, none, some, All, All_map, inl, inr, arith, append_assoc,
  length-append, take-append, drop-append,
}
use lsmtree.Base.Checked.{ok}
use lsmtree.Compaction.Slices.{bytes_of, IsSorted-behind}
use lsmtree.Record.{Record}
use lsmtree.Record.Sorted.{IsSorted, Precedes}
use lsmtree.SsTable.Blocks.{Block, flat, indices_of, bytes_of-flat}
use lsmtree.SsTable.Sparse.{
  Index, IndexError, index_key_size, index_key, index_offset, index_of_record,
  serialized_index_size, write_index, write_indices, read_part, read_index, in_order, read_indices,
}
use lsmtree.Text.{Str, str_lt}
use lsmtree.Text.Order.{compare_str_swap, compare_str_refl}
use lsmtree.Text.Words.{le_bytes, length-le_bytes, le_number-le_bytes}

-- The numbers of an index fit their widths.
pub record FitsIndex (i : Index) : Type 0 where
  pub key_size : i.key_size ≡ length i.key
  pub key : length i.key < 2 ^ 32
  pub offset : i.offset < 2 ^ 64

read_part-append :
    (n : ℕ) (e : IndexError) (xs rest : Str)
    → length xs ≡ n
    → read_part n e (xs ++ rest) ≡ ok (xs, rest)
unfolding read_part
read_part-append n e xs rest h =
    let long : ltb (length (xs ++ rest)) n ≡ false = ground (arith, h, length-append xs rest) in
    let front : take n (xs ++ rest) ≡ xs =
      subst (λ (k : ℕ). take k (xs ++ rest) ≡ xs) h (take-append xs rest) in
    let back : drop n (xs ++ rest) ≡ rest =
      subst (λ (k : ℕ). drop k (xs ++ rest) ≡ rest) h (drop-append xs rest) in
    rw (long, front, back) refl

pub read_index-write_index :
    (i : Index) (available : ℕ) (rest : Str)
    → FitsIndex i
    → serialized_index_size i ≤ available
    → read_index available (write_index i ++ rest) ≡ ok (i, rest)
unfolding read_index write_index
read_index-write_index i available rest f h =
    let size = le_number-le_bytes 4 i.key_size (omega (arith, f.key_size, f.key)) in
    let assoc : (le_bytes 4 i.key_size ++ (i.key ++ le_bytes 8 i.offset)) ++ rest
        ≡ le_bytes 4 i.key_size ++ (i.key ++ (le_bytes 8 i.offset ++ rest)) =
      simp append_assoc in
    let room : ltb available 12 ≡ false = ground (arith, h) in
    let fits : ltb (available - 12) i.key_size ≡ false = ground (arith, h, f.key_size) in
    rw
      (
        assoc,
        room,
        read_part-append 4 index_key_size (le_bytes 4 i.key_size)
            (i.key ++ (le_bytes 8 i.offset ++ rest)) (length-le_bytes 4 i.key_size),
        size,
        fits,
        read_part-append i.key_size index_key i.key (le_bytes 8 i.offset ++ rest) (sym f.key_size),
        read_part-append 8 index_offset (le_bytes 8 i.offset) rest (length-le_bytes 8 i.offset),
        le_number-le_bytes 8 i.offset f.offset,
      )
      refl

-- Indices that are accepted one behind the other.
abbrev pub AreAccepted : ℕ → Option Index → List Index → Type 0
AreAccepted records_size back [] = Unit
AreAccepted records_size back (i ∷ is) =
    (FitsIndex i × (i.offset < records_size) × (in_order back i ≡ true))
    × AreAccepted records_size (some i) is

pub length-write_index : (i : Index) → length (write_index i) ≡ serialized_index_size i
unfolding write_index
length-write_index i = omega (
  arith,
  length-append (le_bytes 4 i.key_size) (i.key ++ le_bytes 8 i.offset),
  length-append i.key (le_bytes 8 i.offset),
  length-le_bytes 4 i.key_size,
  length-le_bytes 8 i.offset,
)

pub read_indices-write_indices :
    (fuel left records_size : ℕ) (back : Option Index) (is : List Index) (rest : Str)
    → AreAccepted records_size back is
    → left ≡ length (write_indices is)
    → left ≤ fuel
    → read_indices fuel left records_size back (write_indices is ++ rest) ≡ ok is
unfolding read_indices write_indices
read_indices-write_indices zero left m back [] rest a e h = rw e refl
read_indices-write_indices (suc fuel) left m back [] rest a e h = rw e refl
read_indices-write_indices zero left m back (i ∷ is) rest a e h =
    absurd
      (omega (arith, e, h, length-append (write_index i) (write_indices is), length-write_index i))
read_indices-write_indices (suc fuel) left m back (i ∷ is) rest a e h =
    let sizes = length-append (write_index i) (write_indices is) in
    let one = length-write_index i in
    let more : (left == 0) ≡ false = ground (arith, e, sizes, one) in
    let behind : left - serialized_index_size i ≡ length (write_indices is) =
      omega (arith, e, sizes, one) in
    let inside : ltb i.offset m ≡ true = ground (arith, a.0.1) in
    rw
      (
        more,
        append_assoc (write_index i) (write_indices is) rest,
        read_index-write_index i left (write_indices is ++ rest) a.0.0
            (omega (arith, e, sizes, one)),
        inside,
        a.0.2,
        behind,
        read_indices-write_indices fuel (length (write_indices is)) m (some i) is rest a.1 refl
            (omega (arith, h, behind, one)),
      )
      refl

abbrev IsBehind : Option Index → ℕ → List Record → Type 0
IsBehind none offset rs = Unit
IsBehind (some back) offset rs =
    (back.offset < offset) × All (λ r. str_lt r.key back.key ≡ false) rs

Precedes-not : (q r : Record) → Precedes q r → str_lt r.key q.key ≡ false
Precedes-not q r (inl p) =
    ground (arith, p, compare_str_swap q.key r.key, compare_str_swap r.key q.key)
Precedes-not q r (inr p) =
    subst (λ k. str_lt k q.key ≡ false) p.0 (ground (arith, compare_str_refl q.key))

accepted_front :
    (back : Option Index) (r : Record) (offset : ℕ) (rs : List Record)
    → IsBehind back offset (r ∷ rs)
    → in_order back (index_of_record r offset) ≡ true
accepted_front none r offset rs h = refl
accepted_front (some back) r offset rs h = ground (arith, h.0, h.1.0)

All-behind : (P : Record → Type 0) (xs ys : List Record) → All P (xs ++ ys) → All P ys
All-behind P [] ys h = h
All-behind P (x ∷ xs) ys h = All-behind P xs ys h.1

-- The indices of the blocks of a table are accepted.
pub indices_of-AreAccepted :
    (records_size offset : ℕ) (back : Option Index) (bs : List Block)
    → IsSorted (flat bs)
    → All (λ r. length r.key < 2 ^ 32) (flat bs)
    → records_size ≡ offset + bytes_of (flat bs)
    → records_size < 2 ^ 64
    → IsBehind back offset (flat bs)
    → AreAccepted records_size back (indices_of offset bs)
unfolding indices_of flat
indices_of-AreAccepted m offset back [] h k e l b = tt
indices_of-AreAccepted m offset back ((r, c) ∷ bs) h k e l b =
    let size = bytes_of-flat r c bs in
    let here : 0 < bytes_of (r ∷ c) = unfold bytes_of in omega arith in
    (
      (
        record { key_size = omega (arith, k.0); key = k.0; offset = omega (arith, e, l) },
        omega (arith, e, size, here),
        accepted_front back r offset (c ++ flat bs) b,
      ),
      indices_of-AreAccepted m (offset + bytes_of (r ∷ c)) (some (index_of_record r offset)) bs
          (IsSorted-behind c (flat bs) h.1)
          (All-behind (λ r. length r.key < 2 ^ 32) c (flat bs) k.1) (omega (arith, e, size)) l
          (
            omega (arith, here),
            All_map (Precedes r) (λ q. str_lt q.key r.key ≡ false) (flat bs)
                (λ q p. Precedes-not r q p) (All-behind (Precedes r) c (flat bs) h.0),
          ),
    )
