-- ===== src/MemTable/Insert.antt =====
-- `insert_or_assign` and the order of the map, and what a read finds afterwards.
use lsmtree.Base.{
  ℕ, ◌≡◌, sym, subst, ◌∙◌, List, [], ◌∷◌, true, false, arith, All, All_map, Bool-cases, inl, inr,
}
use lsmtree.Record.{Record, Entry, Key, key_less}
use lsmtree.Record.Visible.{
  visible, candidate, better, better_none, better_flip, better_assoc, candidate-cases,
  candidate-same,
}
use lsmtree.Record.Sorted.{IsSorted, Precedes, Precedes-trans, better-visible}
use lsmtree.Text.{Str}
use lsmtree.Text.Order.{Before, compare_str→eq, compare_str_swap}
use lsmtree.MemTable.Map.{Table, record_of, records, insert_or_assign}

-- The order of the map is the order of the records.
pub key_less-Precedes :
    (j k : Key) (d e : Entry) → key_less j k ≡ true → Precedes (record_of (j, d)) (record_of (k, e))
key_less-Precedes j k d e h = ground (arith, compare_str→eq j.key k.key)

pub same_key_of_not_less :
    (j k : Key) → key_less j k ≡ false → key_less k j ≡ false → (j.key ≡ k.key) × (j.seq ≡ k.seq)
same_key_of_not_less j k p q =
    ground (arith, compare_str→eq j.key k.key, compare_str_swap j.key k.key)

Precedes-same : (a b c : Record) → a.key ≡ b.key → a.seq ≡ b.seq → Precedes a c → Precedes b c
Precedes-same a b c e f (inl p) = inl (subst (λ k. Before k c.key) e p)
Precedes-same a b c e f (inr p) = inr (sym e ∙ p.0, omega arith)

pub All-insert_or_assign :
    (P : Record → Type 0) (k : Key) (e : Entry) (t : Table)
    → P (record_of (k, e))
    → All P (records t)
    → All P (records (insert_or_assign k e t))
unfolding insert_or_assign
All-insert_or_assign P k e [] p a = (p, tt)
All-insert_or_assign P k e ((j, d) ∷ t) p a = elim (Bool-cases (key_less j k)) [
  | inl l ↦ rw l (a.0, All-insert_or_assign P k e t p a.1)
  | inr l ↦ elim (Bool-cases (key_less k j)) [
    | inl g ↦ rw (l, g) (p, a)
    | inr g ↦ rw (l, g) (p, a.1)
  ]
]

-- `insert_or_assign` on a map in order leaves it in order.
pub insert_or_assign-IsSorted :
    (k : Key) (e : Entry) (t : Table)
    → IsSorted (records t)
    → IsSorted (records (insert_or_assign k e t))
unfolding insert_or_assign
insert_or_assign-IsSorted k e [] h = (tt, tt)
insert_or_assign-IsSorted k e ((j, d) ∷ t) h = elim (Bool-cases (key_less j k)) [
  | inl l ↦ rw l (
    All-insert_or_assign (Precedes (record_of (j, d))) k e t (key_less-Precedes j k d e l) h.0,
    insert_or_assign-IsSorted k e t h.1,
  )
  | inr l ↦ elim (Bool-cases (key_less k j)) [
    | inl g ↦
        let first = key_less-Precedes k j e d g in
        rw (l, g)
          (
            (
              first,
              All_map (Precedes (record_of (j, d))) (Precedes (record_of (k, e))) (records t)
                  (λ q. Precedes-trans (record_of (k, e)) (record_of (j, d)) q first) h.0,
            ),
            h,
          )
    | inr g ↦
        let same = same_key_of_not_less j k l g in
        rw (l, g)
          (
            All_map (Precedes (record_of (j, d))) (Precedes (record_of (k, e))) (records t)
                (λ q. Precedes-same (record_of (j, d)) (record_of (k, e)) q same.0 same.1) h.0,
            h.1,
          )
  ]
]

-- A record that is put in front of what it precedes, or behind it, gives the same answer.
visible_front :
    (k : Str) (s : ℕ) (r : Record) (rs : List Record)
    → All (Precedes r) rs
    → better (candidate k s r) (visible k s rs) ≡ better (visible k s rs) (candidate k s r)
visible_front k s r rs a = elim (candidate-cases k s r) [
  | inl e ↦ rw (e, better_none)
  | inr (e, key, seq) ↦
      let front = better-visible k s r rs key a in
      rw (e, front, better_flip r (visible k s rs) front)
]

-- The older record of the same key and sequence leaves no trace.
visible_replace :
    (k : Str) (s : ℕ) (old new : Record) (rs : List Record)
    → old.key ≡ new.key
    → old.seq ≡ new.seq
    → All (Precedes old) rs
    → better (candidate k s new) (visible k s rs)
      ≡ better (better (candidate k s old) (visible k s rs)) (candidate k s new)
visible_replace k s old new rs e f a = elim (candidate-cases k s new) [
  | inl c ↦ rw (c, candidate-same k s new old (sym e) (sym f) c, better_none)
  | inr (c, key, seq) ↦
      rw
        (
          c,
          better-visible k s new rs key
              (All_map (Precedes old) (Precedes new) rs (λ q. Precedes-same old new q e f) a),
        )
        (elim (candidate-cases k s old) [
          | inl d ↦ absurd (cc (candidate-same k s old new e f d))
          | inr (d, key', seq') ↦ rw (d, better-visible k s old rs key' a) (ground arith)
        ])
]

-- A read after `insert_or_assign` on a map in order chooses between the old answer and the new
-- record, and takes the new one at a tie.
pub visible-insert_or_assign :
    (k : Str) (s : ℕ) (j : Key) (e : Entry) (t : Table)
    → IsSorted (records t)
    → visible k s (records (insert_or_assign j e t))
      ≡ better (visible k s (records t)) (candidate k s (record_of (j, e)))
unfolding insert_or_assign visible
visible-insert_or_assign k s j e [] h = better_none _
visible-insert_or_assign k s j e ((i, d) ∷ t) h = elim (Bool-cases (key_less i j)) [
  | inl l ↦
      rw (l, visible-insert_or_assign k s j e t h.1)
        (better_assoc (candidate k s (record_of (i, d))) (visible k s (records t))
          (candidate k s (record_of (j, e))))
  | inr l ↦ elim (Bool-cases (key_less j i)) [
    | inl g ↦
        let first = key_less-Precedes j i e d g in
        rw (l, g)
          (visible_front k s (record_of (j, e)) (records ((i, d) ∷ t)) (
            first,
            All_map (Precedes (record_of (i, d))) (Precedes (record_of (j, e))) (records t)
                (λ q. Precedes-trans (record_of (j, e)) (record_of (i, d)) q first) h.0,
          ))
    | inr g ↦
        let same = same_key_of_not_less i j l g in
        rw (l, g)
          (visible_replace k s (record_of (i, d)) (record_of (j, e)) (records t) same.0 same.1 h.0)
  ]
]
