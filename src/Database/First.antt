-- ===== src/Database/First.antt =====
-- Sources that a read looks at from new to old: the first answer is the newest one.
use lsmtree.Base.{
  ℕ, ◌≡◌, ◌∙◌, refl, sym, ap, List, [], ◌∷◌, ◌++◌, none, some, In, In-append, inl, inr, arith,
  Option-cases,
}
use lsmtree.Database.Order.{NewerThan}
use lsmtree.Manifest.{TableMeta, Level}
use lsmtree.Record.{Record, RecordType, Result}
use lsmtree.Record.Latest.{visible-IsLatest}
use lsmtree.Record.Visible.{visible, visible-append, better, result_of}
use lsmtree.Scan.Sound.{table_records}
use lsmtree.Text.{Str}

-- The first answer of two.
abbrev pub first : Result → Result → Result
first Result.absent y = y
first Result.tombstone y = Result.tombstone
first (Result.value v) y = Result.value v

first-absent : (x : Result) → first x Result.absent ≡ x
first-absent Result.absent = refl
first-absent Result.tombstone = refl
first-absent (Result.value v) = refl

first-result_of : (r : Record) (y : Result) → first (result_of (some r)) y ≡ result_of (some r)
first-result_of r y =
    let answer : RecordType → Result = λ t. elim t [
      | RecordType.value ↦ Result.value r.value
      | RecordType.tombstone ↦ Result.tombstone
    ] in
    elim r.type as (λ t. first (answer t) y ≡ answer t) [
      | RecordType.value ↦ refl
      | RecordType.tombstone ↦ refl
    ]

-- A newer source in front of older ones: its answer counts.
pub first-newer :
    (k : Str) (s : ℕ) (xs ys : List Record)
    → NewerThan xs ys
    → first (result_of (visible k s xs)) (result_of (visible k s ys))
      ≡ result_of (visible k s (xs ++ ys))
first-newer k s xs ys n = rw (visible-append k s xs ys) (elim (Option-cases (visible k s xs)) [
  | inl e ↦ rw e refl
  | inr (r, e) ↦ elim (Option-cases (visible k s ys)) [
    | inl f ↦ rw (e, f) (first-absent (result_of (some r)))
    | inr (q, f) ↦
        let a = visible-IsLatest k s xs r e in
        let b = visible-IsLatest k s ys q f in
        let newer = n r q a.stored b.stored (a.same_key ∙ sym b.same_key) in
        let keeps : better (some r) (some q) ≡ some r = ground (arith, newer) in
        rw (e, f, first-result_of r (result_of (some q))) (ap result_of (sym keeps))
  ]
])

-- A table whose keys are all other keys has no answer.
pub no_answer :
    (k : Str) (s : ℕ) (rs : List Record)
    → ((r : Record) → In r rs → r.key ≡ k → ⊥)
    → visible k s rs ≡ none
no_answer k s rs h = elim (Option-cases (visible k s rs)) [
  | inl e ↦ e
  | inr (r, e) ↦ let l = visible-IsLatest k s rs r e in absurd (h r l.stored l.same_key)
]

pub In-table_records :
    (contents : ℕ → List Record) (l : Level) (r : Record)
    → In r (table_records contents l)
    → (t : TableMeta) × In t l × In r (contents t.number)
unfolding table_records
In-table_records contents [] r i = absurd i
In-table_records contents (t ∷ ts) r i =
    elim (In-append r (contents t.number) (table_records contents ts) i) [
      | inl j ↦ (t, inl refl, j)
      | inr j ↦ let (u, m, n) = In-table_records contents ts r j in (u, inr m, n)
    ]
