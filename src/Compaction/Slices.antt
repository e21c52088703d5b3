-- ===== src/Compaction/Slices.antt =====
-- The slices of a compaction are its records in order, and no key stands in two of them.
use lsmtree.Base.{
  ℕ, ◌+◌, ◌%◌, ◌^◌, ◌<◌, ◌≡◌, refl, sym, ap, subst, ◌∙◌, List, [], ◌∷◌, ◌++◌, leb, ◌==◌, ◌||◌, Bool,
  true, false, arith, All, inl, inr, Bool-cases, append_assoc,
}
use lsmtree.Compaction.{next_has_key, slice_loop, compaction_slices}
use lsmtree.Merge.Queue.Loop.{concat}
use lsmtree.Record.{Record, encoded_record_size}
use lsmtree.Record.Sorted.{IsSorted, Precedes, all_past}
use lsmtree.Text.{compare_str}
use lsmtree.Text.Order.{Before, Before-trans, compare_str_refl}

-- The encoded bytes of some records.
unfoldable pub bytes_of : List Record → ℕ
bytes_of [] = 0
bytes_of (r ∷ rs) = encoded_record_size r + bytes_of rs

fits_head :
    (bytes : ℕ) (r : Record) (rs : List Record)
    → bytes + bytes_of (r ∷ rs) < 2 ^ 64
    → (bytes + encoded_record_size r) % 2 ^ 64 ≡ bytes + encoded_record_size r
unfolding bytes_of
fits_head bytes r rs h = omega arith

-- The slice that is being filled is empty only while its bytes are none.
abbrev Fills : ℕ → List Record → Type 0
Fills bytes slice = bytes ≡ 0 → slice ≡ []

slice_loop-concat :
    (threshold bytes : ℕ) (slice rs : List Record)
    → bytes + bytes_of rs < 2 ^ 64
    → Fills bytes slice
    → concat (slice_loop threshold bytes slice rs) ≡ slice ++ rs
unfolding slice_loop concat
slice_loop-concat threshold bytes slice [] h f = elim (Bool-cases (bytes == 0)) [
  | inl e ↦ rw (e, f (ground (arith, e))) refl
  | inr e ↦ rw e refl
]
slice_loop-concat threshold bytes slice (r ∷ rs) h f =
    let size = bytes + encoded_record_size r in
    let fits : size + bytes_of rs < 2 ^ 64 = unfold bytes_of in omega arith in
    rw (fits_head bytes r rs h) (elim (Bool-cases (leb size threshold || next_has_key r rs)) [
      | inl e ↦ rw e (
          slice_loop-concat threshold size (slice ++ r ∷ []) rs fits (λ z. absurd (omega arith))
          ∙ append_assoc slice (r ∷ []) rs)
      | inr e ↦ rw e (
          ap (◌++◌ (slice ++ r ∷ []))
            (slice_loop-concat threshold 0 [] rs (omega arith) (λ z. refl))
          ∙ append_assoc slice (r ∷ []) rs)
    ])

-- The slices together are the records of the compaction, in order, if their encoded bytes are fewer
-- than 2^64.
pub concat-compaction_slices :
    (threshold : ℕ) (rs : List Record)
    → bytes_of rs < 2 ^ 64
    → concat (compaction_slices threshold rs) ≡ rs
unfolding compaction_slices
concat-compaction_slices threshold rs h =
    slice_loop-concat threshold 0 [] rs (omega arith) (λ z. refl)

-- All keys of the first slice stand before all keys of the others.
abbrev pub KeysBefore : List Record → List Record → Type 0
KeysBefore xs ys = All (λ x. All (λ y. Before x.key y.key) ys) xs

All-none : (xs : List Record) → KeysBefore xs []
All-none [] = tt
All-none (x ∷ xs) = (tt, All-none xs)

abbrev pub AreDisjoint : List (List Record) → Type 0
AreDisjoint [] = Unit
AreDisjoint (s ∷ ss) = KeysBefore s (concat ss) × AreDisjoint ss

-- A sorted list is cut between two keys.
key_ends :
    (r : Record) (rs : List Record)
    → IsSorted (r ∷ rs)
    → next_has_key r rs ≡ false
    → All (λ y. Before r.key y.key) rs
key_ends r [] h e = tt
key_ends r (q ∷ rs) h e = elim h.0.0 [
  | inl b ↦ (b, all_past r.key q rs b h.1.0)
  | inr p ↦ cc (ap (λ k. compare_str r.key k) (sym p.0), compare_str_refl r.key, e)
]

Before-all :
    (x r : Record) (rs : List Record)
    → Precedes x r
    → All (λ y. Before r.key y.key) rs
    → All (λ y. Before x.key y.key) rs
Before-all x r [] p a = tt
Before-all x r (y ∷ rs) (inl b) a =
    (Before-trans x.key r.key y.key b a.0, Before-all x r rs (inl b) a.1)
Before-all x r (y ∷ rs) (inr e) a =
    (subst (λ k. Before k y.key) (sym e.0) a.0, Before-all x r rs (inr e) a.1)

Precedes-next :
    (x r : Record) (xs rs : List Record) → All (Precedes x) (xs ++ r ∷ rs) → Precedes x r
Precedes-next x r [] rs a = a.0
Precedes-next x r (y ∷ xs) rs a = Precedes-next x r xs rs a.1

pub IsSorted-behind : (xs rs : List Record) → IsSorted (xs ++ rs) → IsSorted rs
IsSorted-behind [] rs h = h
IsSorted-behind (x ∷ xs) rs h = IsSorted-behind xs rs h.1

cut-KeysBefore :
    (slice : List Record) (r : Record) (rs : List Record)
    → IsSorted (slice ++ r ∷ rs)
    → next_has_key r rs ≡ false
    → KeysBefore (slice ++ r ∷ []) rs
cut-KeysBefore [] r rs h e = (key_ends r rs h e, tt)
cut-KeysBefore (x ∷ slice) r rs h e = (
  Before-all x r rs (Precedes-next x r slice rs h.0)
      (key_ends r rs (IsSorted-behind slice (r ∷ rs) h.1) e),
  cut-KeysBefore slice r rs h.1 e,
)

not_next : (a b : Bool) → (a || b) ≡ false → b ≡ false
not_next true b h = cc
not_next false b h = h

slice_loop-AreDisjoint :
    (threshold bytes : ℕ) (slice rs : List Record)
    → bytes + bytes_of rs < 2 ^ 64
    → IsSorted (slice ++ rs)
    → AreDisjoint (slice_loop threshold bytes slice rs)
unfolding slice_loop
slice_loop-AreDisjoint threshold bytes slice [] h o = elim (Bool-cases (bytes == 0)) [
  | inl e ↦ rw e tt
  | inr e ↦ rw e (unfold concat in (All-none slice, tt))
]
slice_loop-AreDisjoint threshold bytes slice (r ∷ rs) h o =
    let size = bytes + encoded_record_size r in
    let fits : size + bytes_of rs < 2 ^ 64 = unfold bytes_of in omega arith in
    rw (fits_head bytes r rs h) (elim (Bool-cases (leb size threshold || next_has_key r rs)) [
      | inl e ↦ rw e (
          slice_loop-AreDisjoint threshold size (slice ++ r ∷ []) rs fits
            (subst IsSorted (sym (append_assoc slice (r ∷ []) rs)) o))
      | inr e ↦ rw e (
        subst (KeysBefore (slice ++ r ∷ []))
            (sym (slice_loop-concat threshold 0 [] rs (omega arith) (λ z. refl)))
            (cut-KeysBefore slice r rs o (not_next (leb size threshold) (next_has_key r rs) e)),
        slice_loop-AreDisjoint threshold 0 [] rs (omega arith) (
            IsSorted-behind (slice ++ r ∷ []) rs
              (subst IsSorted (sym (append_assoc slice (r ∷ []) rs)) o)),
      )
    ])

-- The slices of sorted records have ascending keys and share none: every key of a slice stands before
-- every key of the later slices. The encoded bytes of the records are fewer than 2^64.
pub compaction_slices-AreDisjoint :
    (threshold : ℕ) (rs : List Record)
    → bytes_of rs < 2 ^ 64
    → IsSorted rs
    → AreDisjoint (compaction_slices threshold rs)
unfolding compaction_slices
compaction_slices-AreDisjoint threshold rs h o =
    slice_loop-AreDisjoint threshold 0 [] rs (omega arith) o
