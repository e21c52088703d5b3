-- ===== src/Database/Selects.antt =====
-- What a compaction may take: tables of a level and of the next one, such that what it writes fits on
-- the next level and nothing newer slides under something older.
use lsmtree.Base.{ℕ, suc, ◌≡◌, ◌≢◌, ◌⊎◌, sym, subst, List, [], ◌∷◌, All, In, true, false}
use lsmtree.Manifest.{Manifest, TableMeta, level, is_removed}
use lsmtree.Record.{Record}
use lsmtree.Text.{Str, str_le}
use lsmtree.Text.Order.{Before}

-- No number stands twice in the list.
abbrev pub AreDistinct : List ℕ → Type 0
AreDistinct [] = Unit
AreDistinct (n ∷ ns) = All (λ m. n ≢ m) ns × AreDistinct ns

-- Table `n` stands on level `i` or on the next one.
abbrev pub TakenFrom : Manifest → ℕ → ℕ → Type 0
TakenFrom m i n =
    (j : ℕ) × ((j ≡ i) ⊎ (j ≡ suc i)) × (t : TableMeta) × In t (level m j) × (t.number ≡ n)

-- The keys of the taken tables lie between `low` and `high`, and no other table of the next level has
-- a key there. No table that is left on level `i` shares a key with one that is taken from it.
pub record Selects (m : Manifest) (contents : ℕ → List Record) (i : ℕ) (removed : List ℕ)
    : Type 0 where
  pub low : Str
  pub high : Str
  pub taken : (n : ℕ) → In n removed → TakenFrom m i n
  pub distinct : AreDistinct removed
  pub clear :
      (u : TableMeta)
      → In u (level m (suc i))
      → is_removed removed u.number ≡ false
      → Before u.max_key low ⊎ Before high u.min_key
  pub within :
      (n : ℕ)
      → In n removed
      → All (λ r. (str_le low r.key ≡ true) × (str_le r.key high ≡ true)) (contents n)
  pub alone :
      (t u : TableMeta) (r q : Record)
      → In t (level m i)
      → In u (level m i)
      → is_removed removed t.number ≡ false
      → In u.number removed
      → In r (contents t.number)
      → In q (contents u.number)
      → r.key ≢ q.key

-- Contents that agree on the tables of the manifest do as well.
pub Selects_agree :
    (m : Manifest) (contents contents' : ℕ → List Record) (i : ℕ) (removed : List ℕ)
    → ((j : ℕ) (t : TableMeta) → In t (level m j) → contents' t.number ≡ contents t.number)
    → Selects m contents i removed
    → Selects m contents' i removed
Selects_agree m contents contents' i removed e s = record {
  low = s.low;
  high = s.high;
  taken = s.taken;
  distinct = s.distinct;
  clear = s.clear;
  within = λ n k.
      let (j, at, t, h, same) = s.taken n k in
      let here : contents' n ≡ contents n = subst (λ n. contents' n ≡ contents n) same (e j t h) in
      subst (All (λ r. (str_le s.low r.key ≡ true) × (str_le r.key s.high ≡ true))) (sym here)
        (s.within n k);
  alone = λ t u r q h k left taken x y.
      s.alone t u r q h k left taken (subst (In r) (e i t h) x) (subst (In q) (e i u k) y);
}

-- The table counter does not count.
pub Selects_next :
    (m : Manifest) (contents : ℕ → List Record) (i : ℕ) (removed : List ℕ) (next : ℕ)
    → Selects m contents i removed
    → Selects (record m { next_table_number = next }) contents i removed
Selects_next m contents i removed next s = record {
  low = s.low;
  high = s.high;
  taken = s.taken;
  distinct = s.distinct;
  clear = s.clear;
  within = s.within;
  alone = s.alone;
}
