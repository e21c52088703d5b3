-- ===== src/Record/Visible.antt =====
-- The specification of a read: of the records of a key, the newest that a read sequence can see.
use lsmtree.Base.{
  ℕ, ◌≡◌, refl, List, [], ◌∷◌, ◌++◌, Option, none, some, ◌&&◌, leb, if◌then◌else◌, arith, ◌≤◌, ◌⊎◌,
  In, ap, ◌∙◌,
}
use lsmtree.Text.{Str, str_eq}
use lsmtree.Text.Order.{compare_str→eq, compare_str_refl}
use lsmtree.Record.{Record, RecordType, Result}

-- Of an older and a newer answer, the one with the larger sequence; the newer one at a tie.
abbrev pub better : Option Record → Option Record → Option Record
better none y = y
better (some a) none = some a
better (some a) (some b) = if leb a.seq b.seq then some b else some a

-- `r`, if it is a record of `k` that a read at `s` sees.
abbrev pub candidate : Str → ℕ → Record → Option Record
candidate k s r = if str_eq r.key k && leb r.seq s then some r else none

-- What a read of `k` at sequence `s` finds in records that were written in this order.
unfoldable pub visible : Str → ℕ → List Record → Option Record
visible k s [] = none
visible k s (r ∷ rs) = better (candidate k s r) (visible k s rs)

-- The answer that a record stands for.
abbrev pub result_of : Option Record → Result
result_of none = Result.absent
result_of (some r) = elim r.type [
  | RecordType.value ↦ Result.value r.value
  | RecordType.tombstone ↦ Result.tombstone
]

pub better_assoc : (x y z : Option Record) → better x (better y z) ≡ better (better x y) z
better_assoc none y z = refl
better_assoc (some a) none z = refl
better_assoc (some a) (some b) none = ground arith
better_assoc (some a) (some b) (some c) = ground arith

pub visible-append :
    (k : Str) (s : ℕ) (xs ys : List Record)
    → visible k s (xs ++ ys) ≡ better (visible k s xs) (visible k s ys)
unfolding visible
visible-append k s [] ys = refl
visible-append k s (x ∷ xs) ys =
    ap (better (candidate k s x)) (visible-append k s xs ys)
    ∙ better_assoc (candidate k s x) (visible k s xs) (visible k s ys)

-- `r` is the newest record of `k` at or below `s`.
pub record IsLatest (k : Str) (s : ℕ) (rs : List Record) (r : Record) : Type 0 where
  pub stored : In r rs
  pub same_key : r.key ≡ k
  pub in_view : r.seq ≤ s
  pub newest : (q : Record) → In q rs → q.key ≡ k → q.seq ≤ s → q.seq ≤ r.seq

pub better_none : (x : Option Record) → better x none ≡ x
better_none none = refl
better_none (some a) = refl

pub better_flip :
    (r : Record) (v : Option Record) → better (some r) v ≡ some r → better v (some r) ≡ some r
better_flip r none h = refl
better_flip r (some q) h = ground arith

pub candidate-cases :
    (k : Str) (s : ℕ) (r : Record)
    → (candidate k s r ≡ none) ⊎ ((candidate k s r ≡ some r) × (r.key ≡ k) × (r.seq ≤ s))
candidate-cases k s r = ground (arith, compare_str→eq r.key k)

-- Records with the same key and sequence are candidates together.
pub candidate-same :
    (k : Str) (s : ℕ) (r q : Record)
    → r.key ≡ q.key
    → r.seq ≡ q.seq
    → candidate k s r ≡ none
    → candidate k s q ≡ none
candidate-same k s r q e f h = ground arith

pub candidate_lem :
    (k : Str) (s : ℕ) (r : Record) → r.key ≡ k → r.seq ≤ s → candidate k s r ≡ some r
candidate_lem k s r e h = ground (arith, compare_str_refl k)

-- What a read finds stands among the records.
pub visible-In :
    (k : Str) (s : ℕ) (rs : List Record) (r : Record) → visible k s rs ≡ some r → In r rs
unfolding visible
visible-In k s [] r h = cc
visible-In k s (q ∷ rs) r h = ground (arith, visible-In k s rs r, candidate-cases k s q)
