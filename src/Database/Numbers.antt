-- ===== src/Database/Numbers.antt =====
-- The sets of table numbers that the selection of level 0 builds.
use lsmtree.Base.{
  ℕ, ◌≡◌, ◌≢◌, ◌<◌, ◌⊎◌, ◌↔◌, ◌∙◌, refl, sym, ap, subst, List, [], ◌∷◌, All, All-In, All-intro,
  All_map, In, inl, inr, true, ltb, ◌==◌, ◌||◌, arith, Bool-cases, ==_iff,
}
use lsmtree.Database.Select.{
  insert_number, insert_tables, insert_overlapping, hull, min_str, max_str,
}
use lsmtree.Database.Stretch.{Meets}
use lsmtree.Database.Selects.{AreDistinct}
use lsmtree.Manifest.{TableMeta, Level}
use lsmtree.Scan.Sound.{le_trans}
use lsmtree.Text.{Str, str_lt, str_le}
use lsmtree.Text.Order.{compare_str_swap, compare_str_refl}

pub In-insert_number : (n m : ℕ) (ns : List ℕ) → In n (insert_number m ns) ↔ ((n ≡ m) ⊎ In n ns)
unfolding insert_number
In-insert_number n m [] = (λ i. i, λ i. i)
In-insert_number n m (k ∷ ns) =
    let (down, up) = In-insert_number n m ns in
    elim (Bool-cases (ltb k m)) [
      | inl e ↦ rw e (λ i. i, λ i. i)
      | inr e ↦ elim (Bool-cases (m == k)) [
        | inl f ↦
            rw (e, f) (λ i. inr i, λ i. elim i [ inl g ↦ inl (g ∙ (==_iff m k).0 f) | inr h ↦ h ])
        | inr f ↦
            rw (e, f)
              (
                λ i. elim i [
                  | inl g ↦ inr (inl g)
                  | inr h ↦ elim (down h) [ inl g ↦ inl g | inr x ↦ inr (inr x) ]
                ],
                λ i. elim i [
                  | inl g ↦ inr (up (inl g))
                  | inr h ↦ elim h [ inl g ↦ inl g | inr x ↦ inr (up (inr x)) ]
                ],
              )
      ]
    ]

-- In descending order.
abbrev pub Descends : List ℕ → Type 0
Descends [] = Unit
Descends (n ∷ ns) = All (λ m. m < n) ns × Descends ns

pub Descends-AreDistinct : (ns : List ℕ) → Descends ns → AreDistinct ns
Descends-AreDistinct [] d = tt
Descends-AreDistinct (n ∷ ns) d = (
  All_map (λ m. m < n) (λ m. n ≢ m) ns (λ m h e. omega (arith, h, e)) d.0,
  Descends-AreDistinct ns d.1,
)

insert_number-Descends : (m : ℕ) (ns : List ℕ) → Descends ns → Descends (insert_number m ns)
unfolding insert_number
insert_number-Descends m [] d = (tt, tt)
insert_number-Descends m (k ∷ ns) d = elim (Bool-cases (ltb k m)) [
  | inl e ↦
      let less : k < m = ground (arith, e) in
      rw e ((less, All_map (λ x. x < k) (λ x. x < m) ns (λ x h. omega (arith, h, less)) d.0), d)
  | inr e ↦ elim (Bool-cases (m == k)) [
    | inl f ↦ rw (e, f) d
    | inr f ↦
        let less : m < k = ground (arith, e, f) in
        rw (e, f)
          (
            All-intro (λ x. x < k) (insert_number m ns)
                (λ x i. elim ((In-insert_number x m ns).0 i) [
                  | inl g ↦ omega (arith, g, less)
                  | inr h ↦ All-In (λ x. x < k) ns x d.0 h
                ]),
            insert_number-Descends m ns d.1,
          )
  ]
]

pub In-insert_tables :
    (ts : Level) (selected : List ℕ) (n : ℕ)
    → In n (insert_tables ts selected)
      ↔ (((t : TableMeta) × In t ts × (t.number ≡ n)) ⊎ In n selected)
unfolding insert_tables
In-insert_tables [] selected n = (λ i. inr i, λ i. elim i [ inl x ↦ absurd x.1 | inr j ↦ j ])
In-insert_tables (t ∷ ts) selected n =
    let (down, up) = In-insert_tables ts (insert_number t.number selected) n in
    let (out, into) = In-insert_number n t.number selected in
    (
      λ i. elim (down i) [
        | inl x ↦ let (u, k, e) = x in inl (u, inr k, e)
        | inr j ↦ elim (out j) [ inl e ↦ inl (t, inl refl, sym e) | inr k ↦ inr k ]
      ],
      λ i. elim i [
        | inl x ↦
            let (u, k, e) = x in
            elim k [
              | inl a ↦ up (inr (into (inl (sym e ∙ ap (λ (w : TableMeta). w.number) a))))
              | inr b ↦ up (inl (u, b, e))
            ]
        | inr k ↦ up (inr (into (inr k)))
      ],
    )

pub insert_tables-Descends :
    (ts : Level) (selected : List ℕ) → Descends selected → Descends (insert_tables ts selected)
unfolding insert_tables
insert_tables-Descends [] selected d = d
insert_tables-Descends (t ∷ ts) selected d =
    insert_tables-Descends ts (insert_number t.number selected)
      (insert_number-Descends t.number selected d)

pub In-insert_overlapping :
    (low high : Str) (ts : Level) (selected : List ℕ) (n : ℕ)
    → In n (insert_overlapping low high ts selected)
      ↔ (((t : TableMeta) × In t ts × Meets low high t × (t.number ≡ n)) ⊎ In n selected)
unfolding insert_overlapping
In-insert_overlapping low high [] selected n =
    (λ i. inr i, λ i. elim i [ inl x ↦ absurd x.1 | inr j ↦ j ])
In-insert_overlapping low high (t ∷ ts) selected n =
    elim (Bool-cases (str_lt high t.min_key || str_lt t.max_key low)) [
      | inl out ↦
          let (down, up) = In-insert_overlapping low high ts selected n in
          rw out (
            λ i. elim (down i) [
              | inl x ↦ let (u, k, m, e) = x in inl (u, inr k, m, e)
              | inr j ↦ inr j
            ],
            λ i. elim i [
              | inl x ↦
                  let (u, k, m, e) = x in
                  elim k [
                    | inl a ↦ absurd (cc (subst (Meets low high) a m, out))
                    | inr b ↦ up (inl (u, b, m, e))
                  ]
              | inr j ↦ up (inr j)
            ],
          )
      | inr meets ↦
          let (down, up) = In-insert_overlapping low high ts (insert_number t.number selected) n in
          let (out, into) = In-insert_number n t.number selected in
          rw meets (
            λ i. elim (down i) [
              | inl x ↦ let (u, k, m, e) = x in inl (u, inr k, m, e)
              | inr j ↦ elim (out j) [ inl e ↦ inl (t, inl refl, meets, sym e) | inr k ↦ inr k ]
            ],
            λ i. elim i [
              | inl x ↦
                  let (u, k, m, e) = x in
                  elim k [
                    | inl a ↦ up (inr (into (inl (sym e ∙ ap (λ (w : TableMeta). w.number) a))))
                    | inr b ↦ up (inl (u, b, m, e))
                  ]
              | inr k ↦ up (inr (into (inr k)))
            ],
          )
    ]

pub insert_overlapping-Descends :
    (low high : Str) (ts : Level) (selected : List ℕ)
    → Descends selected
    → Descends (insert_overlapping low high ts selected)
unfolding insert_overlapping
insert_overlapping-Descends low high [] selected d = d
insert_overlapping-Descends low high (t ∷ ts) selected d =
    elim (Bool-cases (str_lt high t.min_key || str_lt t.max_key low)) [
      | inl out ↦ rw out (insert_overlapping-Descends low high ts selected d)
      | inr meets ↦ rw meets (
          insert_overlapping-Descends low high ts (insert_number t.number selected)
            (insert_number-Descends t.number selected d))
    ]

min_str_le : (a b : Str) → (str_le (min_str a b) a ≡ true) × (str_le (min_str a b) b ≡ true)
min_str_le a b = elim (Bool-cases (str_lt b a)) [
  | inl h ↦ rw h (ground (arith, h), ground (arith, compare_str_refl b))
  | inr h ↦ rw h (ground (arith, compare_str_refl a), ground (arith, h, compare_str_swap b a))
]

le_max_str : (a b : Str) → (str_le a (max_str a b) ≡ true) × (str_le b (max_str a b) ≡ true)
le_max_str a b = elim (Bool-cases (str_lt a b)) [
  | inl h ↦ rw h (ground (arith, h), ground (arith, compare_str_refl b))
  | inr h ↦ rw h (ground (arith, compare_str_refl a), ground (arith, h, compare_str_swap a b))
]

-- The range of level 0 holds the ranges of its tables.
pub hull_holds :
    (ts : Level) (low high : Str)
    → let (a, b) = hull ts low high in
      (str_le a low ≡ true)
      × (str_le high b ≡ true)
      × All (λ (t : TableMeta). (str_le a t.min_key ≡ true) × (str_le t.max_key b ≡ true)) ts
unfolding hull
hull_holds [] low high =
    (ground (arith, compare_str_refl low), ground (arith, compare_str_refl high), tt)
hull_holds (t ∷ ts) low high =
    let (x, y, h) = hull_holds ts (min_str low t.min_key) (max_str high t.max_key) in
    let a = (hull ts (min_str low t.min_key) (max_str high t.max_key)).0 in
    let b = (hull ts (min_str low t.min_key) (max_str high t.max_key)).1 in
    let (p, q) = min_str_le low t.min_key in
    let (u, v) = le_max_str high t.max_key in
    (
      le_trans a (min_str low t.min_key) low x p,
      le_trans high (max_str high t.max_key) b u y,
      (
        (
          le_trans a (min_str low t.min_key) t.min_key x q,
          le_trans t.max_key (max_str high t.max_key) b v y,
        ),
        h,
      ),
    )
