-- ===== src/Database/Kept.antt =====
-- Every read that a compaction must still answer is answered as before.
use lsmtree.Base.{
  ℕ, suc, ◌≤◌, ◌≡◌, ◌⊎◌, ◌↔◌, refl, sym, subst, List, [], ◌∷◌, In, inl, inr, arith, Bool-cases,
  some, map, In-append, In-append_left, In-append_right,
}
use lsmtree.Database.{Database, view}
use lsmtree.Database.Order.{IsOrdered}
use lsmtree.Database.Selects.{Selects}
use lsmtree.Database.Swapped.{
  Outputs, new, from_old_or_new, kept, installed, source, swapped-IsOrdered,
}
use lsmtree.Database.Views.{stored-AreApart, In-stored}
use lsmtree.Manifest.{TableMeta, is_removed}
use lsmtree.Manifest.Positions.{is_removed-In}
use lsmtree.Merge.Queue.Loop.{concat}
use lsmtree.Record.{Record}
use lsmtree.Record.Apart.{visible-cong}
use lsmtree.Record.Latest.{visible-IsLatest, visible-bound}
use lsmtree.Record.Visible.{visible, IsLatest}
use lsmtree.Scan.Sound.{stored}
use lsmtree.TableFiles.{TableFiles, TableLaws}
use lsmtree.Text.{Str}

-- The records of the taken tables.
pub In-taken :
    (c : ℕ → List Record) (ns : List ℕ) (r : Record)
    → In r (concat (map c ns)) ↔ ((n : ℕ) × In n ns × In r (c n))
unfolding concat
In-taken c [] r = (λ i. absurd i, λ p. absurd p.1)
In-taken c (n ∷ ns) r =
    let (down, up) = In-taken c ns r in
    (
      λ i. elim (In-append r (c n) (concat (map c ns)) i) [
        | inl j ↦ (n, inl refl, j)
        | inr j ↦ let (m, k, h) = down j in (m, inr k, h)
      ],
      λ p.
          let (m, k, h) = p in
          elim k [
            | inl e ↦ In-append_left r (c n) (concat (map c ns)) (subst (λ (x : ℕ). In r (c x)) e h)
            | inr l ↦ In-append_right r (c n) (concat (map c ns)) (up (m, l, h))
          ],
    )

module _ {F : TableFiles} (L : TableLaws F) (db : Database F) (c : ℕ → List Record)
    (o : IsOrdered L db c) (i : ℕ) (removed : List ℕ) (sel : Selects db.manifest c i removed)
    (ts : List TableMeta) (out : Outputs L db c removed sel.low sel.high ts)
    (compacted : List Record)
    (written : (r : Record) → In r compacted → (t : TableMeta) × In t ts × In r (c t.number)) where
  abbrev before : List Record
  before = stored (view db c)

  abbrev after : List Record
  after = stored (view (record db { manifest = new L db c o i removed sel ts out }) c)

  abbrev taken : List Record
  taken = concat (map c removed)

  -- Nothing is made up.
  after-before : (r : Record) → In r after → In r before
  after-before r k =
      let (down, up) = In-stored (record db { manifest = new L db c o i removed sel ts out }) c r in
      (In-stored db c r).1 (elim (down k) [
        | inl h ↦ inl h
        | inr h ↦
            let (j, t, at, there) = h in
            elim (from_old_or_new L db c o i removed sel ts out j t at) [
              | inl x ↦
                  let (l, low, high, u, here, gone, r_there) =
                    source L db c o i removed sel ts out t r x.1 there in
                  inr (l, u, here, r_there)
              | inr x ↦ inr (j, t, x.0, there)
            ]
      ])

  -- What was not taken is still there.
  before-after : (r : Record) → In r before → In r after ⊎ In r taken
  before-after r k =
      let (down, up) = In-stored (record db { manifest = new L db c o i removed sel ts out }) c r in
      elim ((In-stored db c r).0 k) [
        | inl h ↦ inl (up (inl h))
        | inr h ↦
            let (j, t, at, there) = h in
            elim (Bool-cases (is_removed removed t.number)) [
              | inl gone ↦ inr (
                  (In-taken c removed r).1
                    (t.number, (is_removed-In removed t.number).0 gone, there))
              | inr left ↦
                  inl (up (inr (j, t, kept L db c o i removed sel ts out j t at left, there)))
            ]
      ]

  taken-before : (r : Record) → In r taken → In r before
  taken-before r k =
      let (n, gone, there) = (In-taken c removed r).0 k in
      let (j, at, t, here, same) = sel.taken n gone in
      (In-stored db c r).1 (inr (j, t, here, subst (λ (x : ℕ). In r (c x)) (sym same) there))

  compacted-after : (r : Record) → In r compacted → In r after
  compacted-after r k =
      let (t, h, there) = written r k in
      (In-stored (record db { manifest = new L db c o i removed sel ts out }) c r).1
        (inr (suc i, t, installed L db c o i removed sel ts out t h, there))

  module _ (k : Str) (s : ℕ)
      (same : (r : Record) → (visible k s compacted ≡ some r) ↔ IsLatest k s taken r) where
    IsLatest-after : (r : Record) → IsLatest k s before r → IsLatest k s after r
    IsLatest-after r l =
        let newest : (q : Record) → In q after → q.key ≡ k → q.seq ≤ s → q.seq ≤ r.seq =
          λ q h. l.newest q (after-before q h) in
        elim (before-after r l.stored) [
          | inl h ↦ record {
            stored = h;
            same_key = l.same_key;
            in_view = l.in_view;
            newest = newest;
          }
          | inr h ↦
              let of_taken : IsLatest k s taken r = record {
                stored = h;
                same_key = l.same_key;
                in_view = l.in_view;
                newest = λ q x. l.newest q (taken-before q x);
              } in
              let found = (visible-IsLatest k s compacted r ((same r).1 of_taken)).stored in
              record {
                stored = compacted-after r found;
                same_key = l.same_key;
                in_view = l.in_view;
                newest = newest;
              }
        ]

    IsLatest-before : (r : Record) → IsLatest k s after r → IsLatest k s before r
    IsLatest-before r l = record {
      stored = after-before r l.stored;
      same_key = l.same_key;
      in_view = l.in_view;
      newest = λ q h e low. elim (before-after q h) [
        | inl x ↦ l.newest q x e low
        | inr x ↦
            let (p, found, above) = visible-bound k s taken q x e low in
            let best = visible-IsLatest k s taken p found in
            let kept_one = (visible-IsLatest k s compacted p ((same p).1 best)).stored in
            let below = l.newest p (compacted-after p kept_one) best.same_key best.in_view in
            omega (arith, above, below)
      ];
    }

    -- If the output finds in view what the taken tables had, so does the database.
    pub swapped-visible : visible k s after ≡ visible k s before
    swapped-visible =
        visible-cong k s after before
          (stored-AreApart L (record db { manifest = new L db c o i removed sel ts out }) c
            (swapped-IsOrdered L db c o i removed sel ts out))
          (stored-AreApart L db c o) (λ r. (IsLatest-before r, IsLatest-after r))
