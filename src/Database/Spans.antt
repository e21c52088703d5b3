-- ===== src/Database/Spans.antt =====
-- The records of consecutive levels.
use lsmtree.Base.{
  ℕ, zero, suc, ◌-◌, ◌≤◌, ◌≡◌, ◌∙◌, refl, ap, subst, List, [], ◌∷◌, ◌++◌, In, In-append, inl, inr,
  arith, get_or, length,
}
use lsmtree.Database.First.{In-table_records}
use lsmtree.Manifest.{TableMeta, Level}
use lsmtree.Record.{Record}
use lsmtree.Scan.Sound.{table_records, level_records}

-- The records of so many levels from this one on.
unfoldable pub span_records : (ℕ → List Record) → List Level → ℕ → ℕ → List Record
span_records contents ls zero n = []
span_records contents ls (suc left) n =
    table_records contents (get_or ls n []) ++ span_records contents ls left (suc n)

span_records-cons :
    (contents : ℕ → List Record) (l : Level) (ls : List Level) (left n : ℕ)
    → span_records contents (l ∷ ls) left (suc n) ≡ span_records contents ls left n
unfolding span_records
span_records-cons contents l ls zero n = refl
span_records-cons contents l ls (suc left) n =
    ap (◌++◌ (table_records contents (get_or ls n [])))
      (span_records-cons contents l ls left (suc n))

pub span_records-whole :
    (contents : ℕ → List Record) (ls : List Level)
    → span_records contents ls (length ls) 0 ≡ level_records contents ls
unfolding span_records level_records
span_records-whole contents [] = refl
span_records-whole contents (l ∷ ls) =
    ap (◌++◌ (table_records contents l))
      (span_records-cons contents l ls (length ls) 0 ∙ span_records-whole contents ls)

-- Level 0 and the levels from 1 on are all levels.
pub whole_levels :
    (contents : ℕ → List Record) (ls : List Level)
    → table_records contents (get_or ls 0 []) ++ span_records contents ls (length ls - 1) 1
      ≡ level_records contents ls
whole_levels contents [] = unfold table_records span_records level_records in refl
whole_levels contents (l ∷ ls) =
    unfold level_records in
    ap (◌++◌ (table_records contents l)) (
      subst (λ (n : ℕ). span_records contents (l ∷ ls) n 1 ≡ level_records contents ls)
        (omega arith)
        (span_records-cons contents l ls (length ls) 0 ∙ span_records-whole contents ls))

pub In-span_records :
    (contents : ℕ → List Record) (ls : List Level) (left n : ℕ) (r : Record)
    → In r (span_records contents ls left n)
    → (j : ℕ) × (n ≤ j) × (t : TableMeta) × In t (get_or ls j []) × In r (contents t.number)
unfolding span_records
In-span_records contents ls zero n r i = absurd i
In-span_records contents ls (suc left) n r i =
    elim (In-append r (table_records contents (get_or ls n [])) _ i) [
      | inl h ↦
          let (t, m, o) = In-table_records contents (get_or ls n []) r h in
          (n, omega arith, t, m, o)
      | inr h ↦
          let (j, le, t, m, o) = In-span_records contents ls left (suc n) r h in
          (j, omega (arith, le), t, m, o)
    ]
