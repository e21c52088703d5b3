-- ===== src/SsTable/DiskSteps.antt =====
-- What a write and a search leave on a disk, SsTable/Disk.antt.
use lsmtree.Base.{
  ℕ, suc, ◌^◌, ◌<◌, ◌≡◌, ◌≢◌, refl, sym, ap, length, ltb, ◌==◌, ==_iff, ==-refl, Bool, Bool-cases,
  true, false, Option, none, some, ◌⊎◌, inl, inr, arith,
}
use lsmtree.Record.{Result}
use lsmtree.SsTable.Disk.{
  WriteAnswer, Disk, put_at, tick, with_file, finish_write, get_file, open_file, search_opened,
  search_cached, keep_table,
}
use lsmtree.SsTable.File.{SsTable, open_table}
use lsmtree.Text.{Str}

pub put_at-same : {A : Type 0} → (f : ℕ → Option A) (n : ℕ) (x : Option A) → put_at f n x n ≡ x
put_at-same f n x = rw (==-refl n) refl

pub put_at-other :
    {A : Type 0} → (f : ℕ → Option A) (n m : ℕ) (x : Option A) → n ≢ m → put_at f n x m ≡ f m
put_at-other f n m x h = elim (Bool-cases (m == n)) [
  | inl e ↦ absurd (h (sym ((==_iff m n).0 e)))
  | inr e ↦ rw e refl
]

abbrev pub AllOpen : Disk → Type 0
AllOpen d = (t n : ℕ) → d.opens t n ≡ true

pub finish_write-either :
    (answer : WriteAnswer) (d : Disk) (n : ℕ) (w : Option (Str × ℕ))
    → ((finish_write answer d n w).0 ≡ tick d)
      ⊎ ((b : Str) × ((finish_write answer d n w).0 ≡ with_file d n b))
finish_write-either answer d n none = inl refl
finish_write-either WriteAnswer.done d n (some (bytes, size)) =
    elim (Bool-cases (ltb (length bytes) (2 ^ 63))) [
      | inl e ↦ inr (bytes, rw e refl)
      | inr e ↦ inl (rw e refl)
    ]
finish_write-either WriteAnswer.not_renamed d n (some (bytes, size)) = inl refl
finish_write-either WriteAnswer.renamed d n (some (bytes, size)) =
    elim (Bool-cases (ltb (length bytes) (2 ^ 63))) [
      | inl e ↦ inr (bytes, rw e refl)
      | inr e ↦ inl (rw e refl)
    ]

-- A write that returns.
pub finish_write_done :
    (answer : WriteAnswer) (d : Disk) (n : ℕ) (w : Option (Str × ℕ)) (size : ℕ)
    → (finish_write answer d n w).1 ≡ some size
    → (b : Str) × (w ≡ some (b, size))
      × (length b < 2 ^ 63)
      × ((finish_write answer d n w).0 ≡ with_file d n b)
finish_write_done answer d n none size h = absurd (cc h)
finish_write_done WriteAnswer.done d n (some (bytes, size')) size h =
    elim (Bool-cases (ltb (length bytes) (2 ^ 63))) [
      | inl e ↦
          let same : size' ≡ size = cc (rw e at h) in
          (bytes, ap (λ x. some (bytes, x)) same, ground (arith, e), rw e refl)
      | inr e ↦ absurd (cc (rw e at h))
    ]
finish_write_done WriteAnswer.not_renamed d n (some (bytes, size')) size h = absurd (cc h)
finish_write_done WriteAnswer.renamed d n (some (bytes, size')) size h =
    elim (Bool-cases (ltb (length bytes) (2 ^ 63))) [
      | inl e ↦ absurd (cc (rw e at h))
      | inr e ↦ absurd (cc (rw e at h))
    ]

-- The disk behind a search that opened table `n`
abbrev pub with_table : Disk → ℕ → SsTable → Disk
with_table d n t = record d { clock = suc d.clock; cache = put_at d.cache n (some t) }

pub keep_table-either :
    (d : Disk) (n : ℕ) (t : SsTable) (r : Option Result)
    → ((keep_table d n t r).0 ≡ tick d) ⊎ ((keep_table d n t r).0 ≡ with_table d n t)
keep_table-either d n t none = inl refl
keep_table-either d n t (some r) = inr refl

pub keep_table-answer :
    (d : Disk) (n : ℕ) (t : SsTable) (r : Option Result) → (keep_table d n t r).1 ≡ r
keep_table-answer d n t none = refl
keep_table-answer d n t (some r) = refl

pub search_opened-either :
    (d : Disk) (n : ℕ) (key : Str) (s : ℕ) (o : Option SsTable)
    → ((search_opened d n key s o).0 ≡ tick d)
      ⊎ ((t : SsTable) × (o ≡ some t) × ((search_opened d n key s o).0 ≡ with_table d n t))
search_opened-either d n key s none = inl refl
search_opened-either d n key s (some t) =
    elim (keep_table-either d n t (get_file (d.opens (suc d.clock) n) t key s (d.files n))) [
      | inl e ↦ inl e
      | inr e ↦ inr (t, refl, e)
    ]

pub search_cached-either :
    (d : Disk) (n : ℕ) (key : Str) (s : ℕ) (c : Option SsTable)
    → ((search_cached d n key s c).0 ≡ tick d)
      ⊎ ((t : SsTable) × (open_file (d.opens d.clock n) (d.files n) ≡ some t)
          × ((search_cached d n key s c).0 ≡ with_table d n t))
search_cached-either d n key s (some t) = inl refl
search_cached-either d n key s none =
    search_opened-either d n key s (open_file (d.opens d.clock n) (d.files n))

-- A file that is opened is there.
pub open_file_there :
    (b : Bool) (file : Option Str) (t : SsTable)
    → open_file b file ≡ some t
    → (x : Str) × (file ≡ some x) × (open_table x ≡ some t)
open_file_there false file t e = absurd (cc e)
open_file_there true none t e = absurd (cc e)
open_file_there true (some x) t e = (x, refl, e)

pub closed : (d : Disk) (t n : ℕ) → d.opens t n ≡ false → AllOpen d → ⊥
closed d t n e all = let opened = all t n in cc (e, opened)
