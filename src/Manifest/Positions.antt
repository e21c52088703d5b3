-- ===== src/Manifest/Positions.antt =====
-- Positions in the list of levels, members of a level behind an insertion and a removal, and what it is
-- for tables to join the levels.
use lsmtree.Base.{
  ℕ, zero, suc, ◌+◌, ◌-◌, ◌<◌, ◌≡◌, ◌≢◌, ◌↔◌, refl, sym, ap, List, [], ◌∷◌, ◌++◌, true, false, In,
  inl, inr, ◌⊎◌, arith, map, get_or, set, replicate, length, length-append, length-replicate,
}
use lsmtree.Manifest.{Manifest, TableMeta, Level, level, erase_tables, is_removed, resize_levels}
use lsmtree.Manifest.Levels.{IsDisjoint}

get_or-replicate : (n j : ℕ) → get_or (replicate {A = Level} n []) j [] ≡ []
get_or-replicate zero j = refl
get_or-replicate (suc n) zero = refl
get_or-replicate (suc n) (suc j) = get_or-replicate n j

get_or-append_levels :
    (ls : List Level) (n j : ℕ) → get_or (ls ++ replicate n []) j [] ≡ get_or ls j []
get_or-append_levels [] n j = get_or-replicate n j
get_or-append_levels (l ∷ ls) n zero = refl
get_or-append_levels (l ∷ ls) n (suc j) = get_or-append_levels ls n j

-- More levels hold nothing more.
pub get_or-resize_levels :
    (target : ℕ) (ls : List Level) (j : ℕ) → get_or (resize_levels target ls) j [] ≡ get_or ls j []
get_or-resize_levels target ls j =
    ground (arith, get_or-append_levels ls (target + 1 - length ls) j)

pub length-resize_levels :
    (target : ℕ) (ls : List Level) → target < length (resize_levels target ls)
length-resize_levels target ls = ground (
  arith,
  length-append ls (replicate (target + 1 - length ls) []),
  length-replicate {A = Level} (target + 1 - length ls) [],
)

pub get_or-set_same :
    (ls : List Level) (n : ℕ) (l : Level) → n < length ls → get_or (set ls n l) n [] ≡ l
get_or-set_same [] n l h = absurd (omega arith)
get_or-set_same (k ∷ ls) zero l h = refl
get_or-set_same (k ∷ ls) (suc n) l h = get_or-set_same ls n l (omega arith)

pub get_or-set_other :
    (ls : List Level) (n j : ℕ) (l : Level) → j ≢ n → get_or (set ls n l) j [] ≡ get_or ls j []
get_or-set_other [] n j l h = refl
get_or-set_other (k ∷ ls) zero zero l h = absurd (h refl)
get_or-set_other (k ∷ ls) zero (suc j) l h = refl
get_or-set_other (k ∷ ls) (suc n) zero l h = refl
get_or-set_other (k ∷ ls) (suc n) (suc j) l h = get_or-set_other ls n j l (λ e. h (ap suc e))

pub get_or-map :
    (f : Level → Level) (ls : List Level) (j : ℕ)
    → f [] ≡ []
    → get_or (map f ls) j [] ≡ f (get_or ls j [])
get_or-map f [] j e = sym e
get_or-map f (l ∷ ls) zero e = refl
get_or-map f (l ∷ ls) (suc j) e = get_or-map f ls j e

-- A table in the middle of a level.
pub In-insert :
    (t x : TableMeta) (xs ys : Level) → In t (xs ++ x ∷ ys) ↔ ((t ≡ x) ⊎ In t (xs ++ ys))
In-insert t x [] ys = (λ i. i, λ i. i)
In-insert t x (u ∷ xs) ys =
    let (down, up) = In-insert t x xs ys in
    (
      λ i. elim i [
        | inl e ↦ inr (inl e)
        | inr j ↦ elim (down j) [ inl e ↦ inl e | inr k ↦ inr (inr k) ]
      ],
      λ i. elim i [
        | inl e ↦ inr (up (inl e))
        | inr j ↦ elim j [ inl e ↦ inl e | inr k ↦ inr (up (inr k)) ]
      ],
    )

-- The tables of a level are told apart from the removed ones by their numbers.
pub In-erase_tables :
    (removed : List ℕ) (l : Level) (t : TableMeta)
    → In t (erase_tables removed l) ↔ (In t l × (is_removed removed t.number ≡ false))
unfolding erase_tables
In-erase_tables removed [] t = (λ i. absurd i, λ p. absurd p.0)
In-erase_tables removed (u ∷ l) t =
    let (down, up) = In-erase_tables removed l t in
    (λ i. ground (arith, down), λ p. ground (arith, up))

pub is_removed-In : (removed : List ℕ) (n : ℕ) → (is_removed removed n ≡ true) ↔ In n removed
unfolding is_removed
is_removed-In [] n = (λ e. cc, λ i. absurd i)
is_removed-In (m ∷ removed) n =
    let (down, up) = is_removed-In removed n in (λ e. ground (arith, down), λ i. ground (arith, up))

-- `m'` is `m` with these tables on a level more.
pub record Joins (m m' : Manifest) (target : ℕ) (added : Level) : Type 0 where
  pub others : (j : ℕ) → j ≢ target → level m' j ≡ level m j
  pub members : (t : TableMeta) → In t (level m' target) ↔ (In t added ⊎ In t (level m target))
  pub disjoint : IsDisjoint (level m' target)
  pub rest : m' ≡ record m { levels = m'.levels }
