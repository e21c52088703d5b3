-- ===== src/Database/Flushed.antt =====
-- A flush turns the memtable into the newest table of level 0.
use lsmtree.Base.{
  ℕ, zero, suc, ◌≤◌, ◌<◌, ◌≡◌, ◌≢◌, ◌⊎◌, ◌↔◌, ◌∙◌, refl, sym, ap, subst, List, [], ◌∷◌, All, All-In,
  All-intro, In, inl, inr, false, ltb, arith, get_or,
}
use lsmtree.Database.{Database, view}
use lsmtree.Database.Compact.{front_key, back_key}
use lsmtree.Database.Grow.{put_contents, put_contents_same, put_contents_below}
use lsmtree.Database.Order.{NewerThan, AreNewestFirst, Stands, IsOrdered}
use lsmtree.Database.Views.{In-stored, stored-AreApart}
use lsmtree.Database.Written.{bounds}
use lsmtree.Manifest.{
  Manifest, TableMeta, Level, level, add_table, add_to_level_zero, split_at_first_not,
  resize_levels,
}
use lsmtree.Manifest.Positions.{
  get_or-resize_levels, length-resize_levels, get_or-set_same, get_or-set_other,
}
use lsmtree.MemTable.{records}
use lsmtree.Record.{Record}
use lsmtree.Record.Apart.{visible-cong, IsLatest-cong}
use lsmtree.Record.Sorted.{IsSorted}
use lsmtree.Record.Visible.{visible}
use lsmtree.Scan.Sound.{stored}
use lsmtree.TableFiles.{TableFiles, TableLaws}
use lsmtree.Text.{Str}

-- A number above all others goes to the front of level 0.
add_to_level_zero_front :
    (t : TableMeta) (l : Level) → All (λ u. u.number < t.number) l → add_to_level_zero t l ≡ t ∷ l
unfolding add_to_level_zero split_at_first_not
add_to_level_zero_front t [] a = refl
add_to_level_zero_front t (u ∷ l) a =
    let front : ltb t.number u.number ≡ false = ground (arith, a.0) in rw front refl

pub add_table_zero :
    (t : TableMeta) (m : Manifest)
    → All (λ u. u.number < t.number) (level m 0)
    → (level (add_table t 0 m).1 0 ≡ t ∷ level m 0)
      × ((j : ℕ) → level (add_table t 0 m).1 (suc j) ≡ level m (suc j))
unfolding add_table
add_table_zero t m a =
    let same = get_or-resize_levels 0 m.levels in
    (
      get_or-set_same (resize_levels 0 m.levels) 0
            (add_to_level_zero t (get_or (resize_levels 0 m.levels) 0 []))
            (length-resize_levels 0 m.levels)
          ∙ ap (add_to_level_zero t) (same 0)
          ∙ add_to_level_zero_front t (level m 0) a,
      λ j.
          get_or-set_other (resize_levels 0 m.levels) 0 (suc j)
            (add_to_level_zero t (get_or (resize_levels 0 m.levels) 0 [])) (λ e. omega (arith, e))
          ∙ same (suc j),
    )

module _ {F : TableFiles} (L : TableLaws F) where
  -- `d` is `db` with its memtable turned into the table `t` of level 0.
  pub record IsFlushed (db d : Database F) (t : TableMeta) : Type 0 where
    pub some_record : records db.active_mem_table.table ≢ []
    pub empty : records d.active_mem_table.table ≡ []
    pub zeroth : level d.manifest 0 ≡ t ∷ level db.manifest 0
    pub others : (j : ℕ) → level d.manifest (suc j) ≡ level db.manifest (suc j)
    pub number : t.number ≡ db.manifest.next_table_number
    pub counted : t.number < d.manifest.next_table_number
    pub min_key : t.min_key ≡ front_key (records db.active_mem_table.table)
    pub max_key : t.max_key ≡ back_key (records db.active_mem_table.table)
    pub next_seq : d.next_seq ≡ db.next_seq
    pub held : L.Holds d.files t.number (records db.active_mem_table.table)
    pub keeps : (n : ℕ) (qs : List Record) → L.Holds db.files n qs → L.Holds d.files n qs
    pub free : (n : ℕ) → d.manifest.next_table_number ≤ n → L.IsFree d.files n

  module _ (db d : Database F) (contents : ℕ → List Record) (o : IsOrdered L db contents)
      (t : TableMeta) (f : IsFlushed db d t) where
    abbrev memory : List Record
    memory = records db.active_mem_table.table

    -- The contents of the tables, with those of the new one.
    abbrev pub flushed_contents : ℕ → List Record
    flushed_contents = put_contents contents t.number memory

    of_new : flushed_contents t.number ≡ memory
    of_new = put_contents_same contents t.number memory

    of_old :
        (j : ℕ) (u : TableMeta)
        → In u (level db.manifest j)
        → flushed_contents u.number ≡ contents u.number
    of_old j u k =
        put_contents_below contents t.number u.number memory
          (omega (arith, f.number, (o.tables j u k).numbered))

    from_level :
        (j : ℕ) (u : TableMeta)
        → In u (level d.manifest j)
        → ((j ≡ 0) × (u ≡ t)) ⊎ In u (level db.manifest j)
    from_level zero u k = elim (subst (In u) f.zeroth k) [ inl e ↦ inl (refl, e) | inr h ↦ inr h ]
    from_level (suc j) u k = inr (subst (In u) (f.others j) k)

    to_level : (j : ℕ) (u : TableMeta) → In u (level db.manifest j) → In u (level d.manifest j)
    to_level zero u k = subst (In u) (sym f.zeroth) (inr k)
    to_level (suc j) u k = subst (In u) (sym (f.others j)) k

    new-Stands : Stands L d flushed_contents t
    new-Stands = record {
      held = subst (L.Holds d.files t.number) (sym of_new) f.held;
      table = record {
        sorted = rw of_new o.memory;
        in_bounds = rw (of_new, f.min_key, f.max_key) (bounds memory o.memory);
      };
      some_record = rw of_new f.some_record;
      numbered = f.counted;
      old = rw (of_new, f.next_seq) o.memory_old;
    }

    old-Stands :
        (j : ℕ) (u : TableMeta) → In u (level db.manifest j) → Stands L d flushed_contents u
    old-Stands j u k =
        let s = o.tables j u k in
        let same = of_old j u k in
        record {
          held = rw same (f.keeps u.number (contents u.number) s.held);
          table = record { sorted = rw same s.table.sorted; in_bounds = rw same s.table.in_bounds };
          some_record = rw same s.some_record;
          numbered = omega (arith, s.numbered, f.counted, f.number);
          old = rw (same, f.next_seq) s.old;
        }

    old_newest_first :
        (ts : Level)
        → All (λ u. flushed_contents u.number ≡ contents u.number) ts
        → AreNewestFirst contents ts
        → AreNewestFirst flushed_contents ts
    old_newest_first [] a n = tt
    old_newest_first (u ∷ ts) a n = (
      All-intro (λ v. NewerThan (flushed_contents u.number) (flushed_contents v.number)) ts
          (λ v k.
            rw (a.0, All-In (λ u. flushed_contents u.number ≡ contents u.number) ts v a.1 k)
              (All-In (λ v. NewerThan (contents u.number) (contents v.number)) ts v n.0 k)),
      old_newest_first ts a.1 n.1,
    )

    new_newer :
        (j : ℕ) (u : TableMeta)
        → In u (level db.manifest j)
        → NewerThan (flushed_contents t.number) (flushed_contents u.number)
    new_newer j u k = rw (of_new, of_old j u k) (o.newer_memory j u k)

    -- The database is ordered with the new table.
    pub flushed-IsOrdered : IsOrdered L d flushed_contents
    flushed-IsOrdered = record {
      memory = subst IsSorted (sym f.empty) tt;
      memory_old = subst (All (λ r. r.seq < d.next_seq)) (sym f.empty) tt;
      tables = λ j u k. elim (from_level j u k) [
        | inl e ↦ subst (Stands L d flushed_contents) (sym e.1) new-Stands
        | inr h ↦ old-Stands j u h
      ];
      level_zero = subst (AreNewestFirst flushed_contents) (sym f.zeroth) (
        All-intro (λ u. NewerThan (flushed_contents t.number) (flushed_contents u.number))
            (level db.manifest 0) (λ u k. new_newer 0 u k),
        old_newest_first (level db.manifest 0)
            (All-intro (λ u. flushed_contents u.number ≡ contents u.number) (level db.manifest 0)
              (λ u k. of_old 0 u k))
            o.level_zero,
      );
      disjoint = λ j. rw (f.others j) (o.disjoint j);
      newer_memory = λ j u k r q x. absurd (subst (In r) f.empty x);
      newer_levels = λ i j u v less k h. elim (from_level i u k) [
        | inl e ↦ elim (from_level j v h) [
          | inl g ↦ absurd (omega (arith, e.0, g.0, less))
          | inr y ↦
              subst (λ w. NewerThan (flushed_contents w.number) (flushed_contents v.number))
                (sym e.1) (new_newer j v y)
        ]
        | inr x ↦ elim (from_level j v h) [
          | inl g ↦ absurd (omega (arith, g.0, less))
          | inr y ↦ rw (of_old i u x, of_old j v y) (o.newer_levels i j u v less x y)
        ]
      ];
      in_64_bits = rw f.next_seq o.in_64_bits;
      free = f.free;
    }

    same_records :
        (r : Record) → In r (stored (view d flushed_contents)) ↔ In r (stored (view db contents))
    same_records r =
        let (down, up) = In-stored d flushed_contents r in
        let (out, into) = In-stored db contents r in
        (
          λ i. into (elim (down i) [
            | inl x ↦ absurd (subst (In r) f.empty x)
            | inr x ↦
                let (j, u, k, h) = x in
                elim (from_level j u k) [
                  | inl e ↦ inl (
                      subst (In r) of_new
                        (subst (λ (v : TableMeta). In r (flushed_contents v.number)) e.1 h))
                  | inr y ↦ inr (j, u, y, subst (In r) (of_old j u y) h)
                ]
          ]),
          λ i. up (elim (out i) [
            | inl x ↦
                inr (0, t, subst (In t) (sym f.zeroth) (inl refl), subst (In r) (sym of_new) x)
            | inr x ↦
                let (j, u, k, h) = x in
                inr (j, u, to_level j u k, subst (In r) (sym (of_old j u k)) h)
          ]),
        )

    -- And it answers every read as before.
    pub flushed-visible :
        (k : Str) (s : ℕ)
        → visible k s (stored (view d flushed_contents)) ≡ visible k s (stored (view db contents))
    flushed-visible k s =
        visible-cong k s (stored (view d flushed_contents)) (stored (view db contents))
          (stored-AreApart L d flushed_contents flushed-IsOrdered) (stored-AreApart L db contents o)
          (λ r.
            IsLatest-cong k s (stored (view d flushed_contents)) (stored (view db contents)) r
              same_records)
