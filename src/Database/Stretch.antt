-- ===== src/Database/Stretch.antt =====
-- The range that a compaction writes to: that of the tables it takes, among the tables of a level
-- without overlaps those that meet a given range.
use lsmtree.Base.{
  ◌≡◌, ◌⊎◌, ◌∙◌, refl, sym, subst, [], ◌∷◌, All-In, In, inl, inr, true, false, ◌||◌, arith,
  Bool-cases,
}
use lsmtree.Manifest.{TableMeta, Level}
use lsmtree.Manifest.Levels.{IsRange, IsDisjoint, LeftOf, le_Before, Before-le}
use lsmtree.Scan.Sound.{le_trans}
use lsmtree.Text.{Str, str_le, str_lt}
use lsmtree.Text.Order.{Before, Before-trans, compare_str_swap, compare_str_refl}

-- The table meets the range.
abbrev pub Meets : Str → Str → TableMeta → Type 0
Meets low high t = (str_lt high t.min_key || str_lt t.max_key low) ≡ false

-- The range from `low` to `high` and of all tables that meet it.
pub record Stretch (low high : Str) (l : Level) : Type 0 where
  pub least : Str
  pub greatest : Str
  pub below : str_le least low ≡ true
  pub above : str_le high greatest ≡ true
  pub inside :
      (t : TableMeta)
      → In t l
      → Meets low high t
      → (str_le least t.min_key ≡ true) × (str_le t.max_key greatest ≡ true)
  pub least_from :
      (least ≡ low) ⊎ ((t : TableMeta) × In t l × Meets low high t × (least ≡ t.min_key))
  pub greatest_from :
      (greatest ≡ high) ⊎ ((t : TableMeta) × In t l × Meets low high t × (greatest ≡ t.max_key))

le_refl : (a : Str) → str_le a a ≡ true
le_refl a = ground (arith, compare_str_refl a)

le_of_not_lt : (a b : Str) → str_lt a b ≡ false → str_le b a ≡ true
le_of_not_lt a b h = ground (arith, compare_str_swap a b)

lt_le : (a b : Str) → str_lt a b ≡ true → str_le a b ≡ true
lt_le a b h = ground arith

-- The lesser and the greater of two keys.
lesser : (x y : Str) → (z : Str) × (str_le z x ≡ true) × (str_le z y ≡ true) × ((z ≡ x) ⊎ (z ≡ y))
lesser x y = elim (Bool-cases (str_lt x y)) [
  | inl h ↦ (x, le_refl x, lt_le x y h, inl refl)
  | inr h ↦ (y, le_of_not_lt x y h, le_refl y, inr refl)
]

greater : (x y : Str) → (z : Str) × (str_le x z ≡ true) × (str_le y z ≡ true) × ((z ≡ x) ⊎ (z ≡ y))
greater x y = elim (Bool-cases (str_lt x y)) [
  | inl h ↦ (y, lt_le x y h, le_refl y, inr refl)
  | inr h ↦ (x, le_refl x, le_of_not_lt x y h, inl refl)
]

-- Such a range there is.
pub stretch : (low high : Str) (l : Level) → Stretch low high l
stretch low high [] = record {
  least = low;
  greatest = high;
  below = le_refl low;
  above = le_refl high;
  inside = λ t i m. absurd i;
  least_from = inl refl;
  greatest_from = inl refl;
}
stretch low high (u ∷ l) =
    let s = stretch low high l in
    elim (Bool-cases (str_lt high u.min_key || str_lt u.max_key low)) [
      | inl out ↦ record {
        least = s.least;
        greatest = s.greatest;
        below = s.below;
        above = s.above;
        inside = λ t i m. elim i [
          | inl e ↦ absurd (cc (subst (Meets low high) e m, out))
          | inr j ↦ s.inside t j m
        ];
        least_from = elim s.least_from [ inl e ↦ inl e | inr (t, i, m, e) ↦ inr (t, inr i, m, e) ];
        greatest_from = elim s.greatest_from [
          | inl e ↦ inl e
          | inr (t, i, m, e) ↦ inr (t, inr i, m, e)
        ];
      }
      | inr meets ↦
          let (a, a_old, a_new, a_from) = lesser s.least u.min_key in
          let (b, b_old, b_new, b_from) = greater s.greatest u.max_key in
          record {
            least = a;
            greatest = b;
            below = le_trans a s.least low a_old s.below;
            above = le_trans high s.greatest b s.above b_old;
            inside = λ t i m. elim i [
              | inl e ↦ (
                subst (λ (v : TableMeta). str_le a v.min_key ≡ true) (sym e) a_new,
                subst (λ (v : TableMeta). str_le v.max_key b ≡ true) (sym e) b_new,
              )
              | inr j ↦
                  let (x, y) = s.inside t j m in
                  (le_trans a s.least t.min_key a_old x, le_trans t.max_key s.greatest b y b_old)
            ];
            least_from = elim a_from [
              | inr e ↦ inr (u, inl refl, meets, e)
              | inl e ↦ elim s.least_from [
                | inl f ↦ inl (e ∙ f)
                | inr (t, i, m, f) ↦ inr (t, inr i, m, e ∙ f)
              ]
            ];
            greatest_from = elim b_from [
              | inr e ↦ inr (u, inl refl, meets, e)
              | inl e ↦ elim s.greatest_from [
                | inl f ↦ inl (e ∙ f)
                | inr (t, i, m, f) ↦ inr (t, inr i, m, e ∙ f)
              ]
            ];
          }
    ]

-- Two tables of a level without overlaps are one, or one ends before the other starts.
either_side :
    (l : Level) (t u : TableMeta)
    → IsDisjoint l
    → In t l
    → In u l
    → (t ≡ u) ⊎ (LeftOf t u ⊎ LeftOf u t)
either_side [] t u d i j = absurd i
either_side (v ∷ l) t u d (inl a) (inl b) = inl (a ∙ sym b)
either_side (v ∷ l) t u d (inl a) (inr j) =
    inr (inl (subst (λ w. LeftOf w u) (sym a) (All-In (LeftOf v) l u d.1 j)))
either_side (v ∷ l) t u d (inr i) (inl b) =
    inr (inr (subst (λ w. LeftOf w t) (sym b) (All-In (LeftOf v) l t d.1 i)))
either_side (v ∷ l) t u d (inr i) (inr j) = either_side l t u d.2 i j

IsRange-of : (l : Level) (t : TableMeta) → IsDisjoint l → In t l → IsRange t
IsRange-of [] t d i = absurd i
IsRange-of (u ∷ l) t d (inl e) = subst IsRange (sym e) d.0
IsRange-of (u ∷ l) t d (inr i) = IsRange-of l t d.2 i

-- A table that does not meet the range lies outside the stretched one.
pub outside_stretch :
    (low high : Str) (l : Level) (s : Stretch low high l) (u : TableMeta)
    → IsDisjoint l
    → In u l
    → (str_lt high u.min_key || str_lt u.max_key low) ≡ true
    → Before u.max_key s.least ⊎ Before s.greatest u.min_key
outside_stretch low high l s u d i out = elim (Bool-cases (str_lt u.max_key low)) [
  | inl left ↦ inl (elim s.least_from [
    | inl e ↦ subst (Before u.max_key) (sym e) (ground (arith, left))
    | inr (t, j, m, e) ↦ subst (Before u.max_key) (sym e) (elim (either_side l t u d j i) [
      | inl same ↦ absurd (cc (subst (Meets low high) same m, out))
      | inr (inr right) ↦ right
      | inr (inl wrong) ↦
          let reach = Before-le t.max_key u.min_key u.max_key wrong (IsRange-of l u d i) in
          absurd (
            ground (
              arith,
              m,
              left,
              Before-trans t.max_key u.max_key low reach,
              compare_str_swap t.max_key low,
            ))
    ])
  ])
  | inr right ↦ inr (elim s.greatest_from [
    | inl e ↦ subst (λ x. Before x u.min_key) (sym e) (ground (arith, right, out))
    | inr (t, j, m, e) ↦
        subst (λ x. Before x u.min_key) (sym e)
          (elim (either_side l t u d j i) [
            | inl same ↦ absurd (cc (subst (Meets low high) same m, out))
            | inr (inl left) ↦ left
            | inr (inr wrong) ↦
                let reach = le_Before u.min_key u.max_key t.min_key (IsRange-of l u d i) wrong in
                absurd (ground (arith, m, right, out, Before-trans high u.min_key t.min_key))
          ])
  ])
]
