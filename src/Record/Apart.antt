-- ===== src/Record/Apart.antt =====
-- Records of which no two share key and sequence: reads do not depend on their order.
use lsmtree.Base.{
  ℕ, ◌≡◌, ◌↔◌, ◌∙◌, sym, ap, subst, List, [], ◌∷◌, some, All-In, In, inl, inr, arith, Option-cases,
}
use lsmtree.Record.{Record}
use lsmtree.Record.Latest.{visible-IsLatest, visible-bound}
use lsmtree.Record.Visible.{visible, IsLatest}
use lsmtree.Merge.Queue.Sorted.{Apart}
use lsmtree.Scan.Sublists.{AreApart}
use lsmtree.Text.{Str}

-- Two records of a list that share key and sequence are one, where no two of the list do.
apart_unique :
    (rs : List Record) (a b : Record)
    → AreApart rs
    → In a rs
    → In b rs
    → a.key ≡ b.key
    → a.seq ≡ b.seq
    → a ≡ b
apart_unique [] a b h i j e f = absurd i
apart_unique (r ∷ rs) a b h (inl x) (inl y) e f = x ∙ sym y
apart_unique (r ∷ rs) a b h (inr x) (inr y) e f = apart_unique rs a b h.1 x y e f
apart_unique (r ∷ rs) a b h (inl x) (inr y) e f =
    absurd (subst (λ z. Apart z b) (sym x) (All-In (Apart r) rs b h.0 y) (e, f))
apart_unique (r ∷ rs) a b h (inr x) (inl y) e f =
    absurd (subst (λ z. Apart z a) (sym y) (All-In (Apart r) rs a h.0 x) (sym e, sym f))

IsLatest-unique :
    (k : Str) (s : ℕ) (rs : List Record) (a b : Record)
    → AreApart rs
    → IsLatest k s rs a
    → IsLatest k s rs b
    → a ≡ b
IsLatest-unique k s rs a b h l m =
    let low = l.newest b m.stored m.same_key m.in_view in
    let high = m.newest a l.stored l.same_key l.in_view in
    apart_unique rs a b h l.stored m.stored (l.same_key ∙ sym m.same_key) (omega (arith, low, high))

-- A record that is the newest in view is what a read finds.
pub visible-of :
    (k : Str) (s : ℕ) (rs : List Record) (r : Record)
    → AreApart rs
    → IsLatest k s rs r
    → visible k s rs ≡ some r
visible-of k s rs r h l =
    let (q, found, low) = visible-bound k s rs r l.stored l.same_key l.in_view in
    found ∙ ap some (IsLatest-unique k s rs q r h (visible-IsLatest k s rs q found) l)

-- Lists with the same newest records answer alike.
pub visible-cong :
    (k : Str) (s : ℕ) (xs ys : List Record)
    → AreApart xs
    → AreApart ys
    → ((r : Record) → IsLatest k s xs r ↔ IsLatest k s ys r)
    → visible k s xs ≡ visible k s ys
visible-cong k s xs ys a b h = elim (Option-cases (visible k s xs)) [
  | inr (r, e) ↦ e ∙ sym (visible-of k s ys r b ((h r).0 (visible-IsLatest k s xs r e)))
  | inl e ↦ elim (Option-cases (visible k s ys)) [
    | inl f ↦ e ∙ sym f
    | inr (r, f) ↦ visible-of k s xs r a ((h r).1 (visible-IsLatest k s ys r f)) ∙ sym f
  ]
]

-- The newest record depends on which records there are, and not on their order.
pub IsLatest-cong :
    (k : Str) (s : ℕ) (xs ys : List Record) (r : Record)
    → ((q : Record) → In q xs ↔ In q ys)
    → IsLatest k s xs r ↔ IsLatest k s ys r
IsLatest-cong k s xs ys r h = (
  λ l. record {
    stored = (h r).0 l.stored;
    same_key = l.same_key;
    in_view = l.in_view;
    newest = λ q i. l.newest q ((h q).1 i);
  },
  λ l. record {
    stored = (h r).1 l.stored;
    same_key = l.same_key;
    in_view = l.in_view;
    newest = λ q i. l.newest q ((h q).0 i);
  },
)
