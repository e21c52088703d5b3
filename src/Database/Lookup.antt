-- ===== src/Database/Lookup.antt =====
-- A read looks at the sources from new to old and takes the first answer, which is the newest one.
use lsmtree.Base.{
  ℕ, ◌≡◌, ◌⊎◌, refl, sym, subst, List, [], ◌∷◌, Option, none, some, All, All-In, All_map, inl, inr,
  arith, ◌||◌, Bool-cases, true,
}
use lsmtree.Database.{Database, search_table, or_else, search_in_range, search_level_zero}
use lsmtree.Database.First.{first, first-newer, no_answer, In-table_records}
use lsmtree.Database.Order.{
  NewerThan, AreNewestFirst, Same, Same-refl, Same-trans, search_table-Same,
}
use lsmtree.Manifest.{TableMeta, Level}
use lsmtree.Manifest.Lookup.{Covers}
use lsmtree.Record.{Record, Result}
use lsmtree.Record.Visible.{visible, result_of}
use lsmtree.Scan.Sound.{IsTable, table_records}
use lsmtree.TableFiles.{TableFiles, TableLaws}
use lsmtree.Text.{Str, str_lt, str_le}
use lsmtree.Text.Order.{compare_str_swap}

module _ {F : TableFiles} (L : TableLaws F) where
  -- A search from `db` answers with this, or throws since a read does, and changes nothing but the
  -- files, which lose nothing.
  abbrev pub Finds : Database F → Database F × Option Result → Result → Type 0
  Finds db a x = ((a.1 ≡ some x) ⊎ ((a.1 ≡ none) × (L.Reads db.files → ⊥))) × Same L db a.0

  -- A read that throws behind a search would have thrown in front of it.
  after :
      (db d : Database F) (a : Database F × Option Result) (x : Result)
      → Same L db d
      → Finds d a x
      → Finds db a x
  after db d a x s (inl e, t) = (inl e, Same-trans L db d a.0 s t)
  after db d a x (fs, same, keeps) (inr (e, throws), t) = (
    inr (e, λ r. throws (subst (λ (y : Database F). L.Reads y.files) (sym same) (keeps.reads r))),
    Same-trans L db d a.0 (fs, same, keeps) t,
  )

  go_on :
      (db d : Database F) (o : Option Result) (f : Database F → Database F × Option Result)
      (x y : Result)
      → (o ≡ some x) ⊎ ((o ≡ none) × (L.Reads db.files → ⊥))
      → Same L db d
      → ((d : Database F) → Same L db d → Finds d (f d) y)
      → Finds db (or_else (d, o) f) (first x y)
  go_on db d o f Result.absent y (inl e) s h = rw e (after db d (f d) y s (h d s))
  go_on db d o f Result.tombstone y (inl e) s h = rw e (inl refl, s)
  go_on db d o f (Result.value v) y (inl e) s h = rw e (inl refl, s)
  go_on db d o f x y (inr (e, throws)) s h = rw e (inr (refl, throws), s)

  pub or_else-Finds :
      (db : Database F) (a : Database F × Option Result)
      (f : Database F → Database F × Option Result) (x y : Result)
      → Finds db a x
      → ((d : Database F) → Same L db d → Finds d (f d) y)
      → Finds db (or_else a f) (first x y)
  or_else-Finds db (d, o) f x y a h = go_on db d o f x y a.0 a.1 h

  pub search_table-Finds :
      (db : Database F) (n : ℕ) (k : Str) (s : ℕ) (rs : List Record)
      → L.Holds db.files n rs
      → Finds db (search_table db n k s) (result_of (visible k s rs))
  search_table-Finds db n k s rs h =
      (unfold search_table in L.search_finds db.files n k s rs h, search_table-Same L db n k s)

  module _ (contents : ℕ → List Record) (k : Str) (s : ℕ) where
    -- What the search needs to know of a table.
    abbrev pub Serves : Database F → TableMeta → Type 0
    Serves db t = L.Holds db.files t.number (contents t.number) × IsTable contents t

    Serves-Same : (db d : Database F) (t : TableMeta) → Same L db d → Serves db t → Serves d t
    Serves-Same db d t (fs, e, keeps) h =
        subst (λ x. Serves x t) (sym e) (keeps.holds t.number (contents t.number) h.0, h.1)

    pub uncovered :
        (t : TableMeta)
        → IsTable contents t
        → (Covers t k → ⊥)
        → visible k s (contents t.number) ≡ none
    uncovered t h c = no_answer k s (contents t.number) (λ r i same. c (
        subst (λ key. (str_le t.min_key key ≡ true) × (str_le key t.max_key ≡ true)) same
          (All-In (λ q. (str_le t.min_key q.key ≡ true) × (str_le q.key t.max_key ≡ true))
            (contents t.number) r h.in_bounds i)))

    search_in_range-Finds :
        (db : Database F) (t : TableMeta)
        → Serves db t
        → Finds db (search_in_range db t k s) (result_of (visible k s (contents t.number)))
    unfolding search_in_range
    search_in_range-Finds db t h = elim (Bool-cases (str_lt k t.min_key || str_lt t.max_key k)) [
      | inl out ↦
          let none_here = uncovered t h.1 (λ c.
            ground (arith, c, out, compare_str_swap t.min_key k, compare_str_swap k t.max_key)) in
          rw (out, none_here) (inl refl, Same-refl L db)
      | inr within ↦ rw within (search_table-Finds db t.number k s (contents t.number) h.0)
    ]

    All-Serves :
        (db d : Database F) (ts : Level) → Same L db d → All (Serves db) ts → All (Serves d) ts
    All-Serves db d ts e h = All_map (Serves db) (Serves d) ts (λ t. Serves-Same db d t e) h

    pub newer_tables :
        (xs : List Record) (ts : Level)
        → All (λ u. NewerThan xs (contents u.number)) ts
        → NewerThan xs (table_records contents ts)
    newer_tables xs ts a r q i j e =
        let (u, m, n) = In-table_records contents ts q j in
        All-In (λ u. NewerThan xs (contents u.number)) ts u a m r q i n e

    pub search_level_zero-Finds :
        (ts : Level) (db : Database F)
        → All (Serves db) ts
        → AreNewestFirst contents ts
        → Finds db
            (search_level_zero db ts k s)
            (result_of (visible k s (table_records contents ts)))
    unfolding search_level_zero table_records
    search_level_zero-Finds [] db h n = unfold visible in (inl refl, Same-refl L db)
    search_level_zero-Finds (t ∷ ts) db h n =
        subst (λ x. Finds db (search_level_zero db (t ∷ ts) k s) x)
          (first-newer k s (contents t.number) (table_records contents ts)
            (newer_tables (contents t.number) ts n.0))
          (or_else-Finds db (search_in_range db t k s) (λ d. search_level_zero d ts k s)
            (result_of (visible k s (contents t.number)))
            (result_of (visible k s (table_records contents ts))) (search_in_range-Finds db t h.0)
            (λ d e. search_level_zero-Finds ts d (All-Serves db d ts e h.1) n.1))
