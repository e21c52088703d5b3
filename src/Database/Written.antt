-- ===== src/Database/Written.antt =====
-- What a compaction writes: tables that hold its slices, under numbers that were free.
use lsmtree.Base.{
  ℕ, ◌+◌, ◌%◌, ◌^◌, ◌≤◌, ◌<◌, ◌≡◌, ◌≢◌, ◌∙◌, refl, sym, ap, subst, List, [], ◌∷◌, some, All,
  All-intro, All-In, All_map, In, inl, inr, arith, Option-cases, true,
}
use lsmtree.Database.{Database}
use lsmtree.Database.Compact.{front_key, back_key, write_compaction_slice}
use lsmtree.Database.Grow.{
  put_contents, put_contents_same, put_contents_below, Stands-agree, IsOrdered_agree, grown,
  Stands-grown, IsOrdered_grown,
}
use lsmtree.Database.Order.{Stands, IsOrdered}
use lsmtree.Manifest.{TableMeta, allocate_number}
use lsmtree.Record.{Record}
use lsmtree.Record.Sorted.{IsSorted, Precedes}
use lsmtree.TableFiles.{TableFiles, TableLaws}
use lsmtree.Text.{Str, str_le}
use lsmtree.Text.Order.{compare_str_refl}

str_le_refl : (a : Str) → str_le a a ≡ true
str_le_refl a = ground (arith, compare_str_refl a)

Precedes-le : (a b : Record) → Precedes a b → str_le a.key b.key ≡ true
Precedes-le a b (inl p) = ground (arith, p)
Precedes-le a b (inr p) = subst (λ k. str_le a.key k ≡ true) p.0 (str_le_refl a.key)

from_front : (rs : List Record) → IsSorted rs → All (λ r. str_le (front_key rs) r.key ≡ true) rs
unfolding front_key
from_front [] h = tt
from_front (r ∷ rs) h = (
  str_le_refl r.key,
  All_map (Precedes r) (λ q. str_le r.key q.key ≡ true) rs (Precedes-le r) h.0,
)

pub In-back :
    (r : Record) (rs : List Record) → (q : Record) × In q (r ∷ rs) × (back_key (r ∷ rs) ≡ q.key)
unfolding back_key
In-back r [] = (r, inl refl, refl)
In-back r (q ∷ rs) = let (u, i, e) = In-back q rs in (u, inr i, e)

to_back : (rs : List Record) → IsSorted rs → All (λ r. str_le r.key (back_key rs) ≡ true) rs
unfolding back_key
to_back [] h = tt
to_back (r ∷ []) h = (str_le_refl r.key, tt)
to_back (r ∷ q ∷ rs) h =
    let (u, i, e) = In-back q rs in
    (rw e (Precedes-le r u (All-In (Precedes r) (q ∷ rs) u h.0 i)), to_back (q ∷ rs) h.1)

-- The keys of sorted records lie between those of the first and the last.
pub bounds :
    (rs : List Record)
    → IsSorted rs
    → All (λ r. (str_le (front_key rs) r.key ≡ true) × (str_le r.key (back_key rs) ≡ true)) rs
bounds rs h =
    All-intro (λ r. (str_le (front_key rs) r.key ≡ true) × (str_le r.key (back_key rs) ≡ true)) rs
      (λ r i. (
        All-In (λ r. str_le (front_key rs) r.key ≡ true) rs r (from_front rs h) i,
        All-In (λ r. str_le r.key (back_key rs) ≡ true) rs r (to_back rs h) i,
      ))

-- A slice that can be a table of the database.
abbrev pub IsSlice : ℕ → List Record → Type 0
IsSlice next_seq rs = IsSorted rs × (rs ≢ []) × All (λ r. r.seq < next_seq) rs

module _ {F : TableFiles} (L : TableLaws F) where
  -- `db'` is `db` with more table files: all that stood stands, and its tables hold what they held.
  pub record Extends (db db' : Database F) (contents contents' : ℕ → List Record) : Type 0 where
    pub files : F.Files
    pub next : ℕ
    pub same : db' ≡ grown L db files next
    pub grows : db.manifest.next_table_number ≤ next
    pub agree : (n : ℕ) → n < db.manifest.next_table_number → contents' n ≡ contents n
    pub stands : (t : TableMeta) → Stands L db contents t → Stands L db' contents' t
    pub ordered : IsOrdered L db' contents'

  pub Extends-refl :
      (db : Database F) (contents : ℕ → List Record)
      → IsOrdered L db contents
      → Extends db db contents contents
  Extends-refl db contents o = record {
    files = db.files;
    next = db.manifest.next_table_number;
    same = refl;
    grows = omega arith;
    agree = λ n h. refl;
    stands = λ t s. s;
    ordered = o;
  }

  pub Extends-trans :
      (a b c : Database F) (x y z : ℕ → List Record)
      → Extends a b x y
      → Extends b c y z
      → Extends a c x z
  Extends-trans a b c x y z f g =
      let moved = ap (λ d. d.manifest.next_table_number) f.same in
      record {
        files = g.files;
        next = g.next;
        same = g.same ∙ ap (λ d. grown L d g.files g.next) f.same;
        grows = omega (arith, moved, f.grows, g.grows);
        agree = λ n h. g.agree n (omega (arith, moved, f.grows, h)) ∙ f.agree n h;
        stands = λ t s. g.stands t (f.stands t s);
        ordered = g.ordered;
      }

  -- A table of the records `rs`.
  abbrev pub Describes : (ℕ → List Record) → TableMeta → List Record → Type 0
  Describes contents t rs =
      (contents t.number ≡ rs) × (t.min_key ≡ front_key rs) × (t.max_key ≡ back_key rs)

  module _ (db : Database F) (contents : ℕ → List Record) (o : IsOrdered L db contents)
      (rs : List Record) (slice : IsSlice db.next_seq rs)
      (room : db.manifest.next_table_number + 1 < 2 ^ 64) where
    abbrev number : ℕ
    number = db.manifest.next_table_number

    abbrev after : F.Files
    after = (F.write_table db.files number rs).0

    abbrev with_table : ℕ → List Record
    with_table = put_contents contents number rs

    abbrev written_table : ℕ → TableMeta
    written_table size = record {
      number = number;
      size = size;
      min_key = front_key rs;
      max_key = back_key rs;
    }

    Stands-after :
        (t : TableMeta)
        → Stands L db contents t
        → Stands L (grown L db after (number + 1)) with_table t
    Stands-after t s =
        Stands-agree L (grown L db after (number + 1)) contents with_table t
          (put_contents_below contents number t.number rs s.numbered)
          (Stands-grown L db contents after (number + 1) t (omega arith)
            (L.write_keeps db.files number t.number rs (contents t.number)
              (o.free number (omega arith)) s.held)
            s)

    ordered_after : IsOrdered L (grown L db after (number + 1)) with_table
    ordered_after =
        IsOrdered_agree L (grown L db after (number + 1)) contents with_table
          (λ i t m. put_contents_below contents number t.number rs (o.tables i t m).numbered)
          (IsOrdered_grown L db contents after (number + 1) (omega arith)
            (λ i t m.
              L.write_keeps db.files number t.number rs (contents t.number)
                (o.free number (omega arith)) (o.tables i t m).held)
            (λ n h.
              L.write_free db.files number n rs (λ e. omega (arith, e, h)) (o.free n (omega arith)))
            o)

    new-Stands :
        (size : ℕ)
        → (F.write_table db.files number rs).1 ≡ some size
        → Stands L (grown L db after (number + 1)) with_table (written_table size)
    new-Stands size e =
        let same = put_contents_same contents number rs in
        record {
          held = subst (L.Holds after number) (sym same) (
              L.write_holds db.files number rs size (o.free number (omega arith)) slice.0
                (All_map (λ r. r.seq < db.next_seq) (λ r. r.seq < 2 ^ 64) rs
                  (λ r h. omega (arith, h, o.in_64_bits)) slice.2)
                e);
          table = record { sorted = rw same slice.0; in_bounds = rw same (bounds rs slice.0) };
          some_record = rw same slice.1;
          numbered = omega arith;
          old = rw same slice.2;
        }

    moved_on : (db.manifest.next_table_number + 1) % 2 ^ 64 ≡ number + 1
    moved_on = omega (arith, room)

    pub slice_after : (write_compaction_slice db rs).0 ≡ grown L db after (number + 1)
    unfolding write_compaction_slice allocate_number
    slice_after = ap (λ (n : ℕ). grown L db after n) moved_on

    -- A slice is written under a number that was free.
    pub write_compaction_slice-Extends :
        Extends db (write_compaction_slice db rs).0 contents with_table
    write_compaction_slice-Extends =
        subst (λ d. Extends db d contents with_table) (sym slice_after)
          (record {
            files = after;
            next = number + 1;
            same = refl;
            grows = omega arith;
            agree = λ n h. put_contents_below contents number n rs h;
            stands = Stands-after;
            ordered = ordered_after;
          })

    -- The metadata of the slice is that of a table that stands.
    pub write_compaction_slice-Stands :
        (t : TableMeta)
        → (write_compaction_slice db rs).1 ≡ some t
        → Stands L (write_compaction_slice db rs).0 with_table t
          × Describes with_table t rs
          × (number ≤ t.number)
    unfolding write_compaction_slice allocate_number
    write_compaction_slice-Stands t e = elim (Option-cases (F.write_table db.files number rs).1) [
      | inl f ↦ absurd (cc (rw f at e))
      | inr (size, f) ↦
          let this : written_table size ≡ t = cc (rw f at e) in
          subst
            (λ u.
              Stands L (write_compaction_slice db rs).0 with_table u
              × Describes with_table u rs
              × (number ≤ u.number))
            this
            (
              subst (λ d. Stands L d with_table (written_table size)) (sym slice_after)
                  (new-Stands size f),
              (put_contents_same contents number rs, refl, refl),
              omega arith,
            )
    ]
