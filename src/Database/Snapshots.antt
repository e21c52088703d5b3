-- ===== src/Database/Snapshots.antt =====
-- `class Snapshot` and the multiset of active snapshots, src/DB.cpp. The multiset is a list in
-- ascending order; a snapshot whose `activeSequences_` no longer points to it is detached.
use lsmtree.Base.{
  ℕ, ◌≤◌, ◌≡◌, ◌∙◌, refl, List, [], ◌∷◌, All, All-In, All_map, In, inl, inr, true, false, ltb, ◌==◌,
  length, arith, Bool, Bool-cases, if◌then◌else◌, ==-refl, ==_iff, ap, sym,
}
use lsmtree.Compaction.{smallest_active_snapshot}
use lsmtree.Database.{Database, Options, view, last_seq_of}
use lsmtree.Database.Compact.{SaveAnswer, compact_level}
use lsmtree.Database.Order.{IsOrdered}
use lsmtree.Database.Rounds.{HasRoomFor, compact_level-Preserves}
use lsmtree.Record.{Record}
use lsmtree.Record.Visible.{visible}
use lsmtree.Scan.Sound.{stored}
use lsmtree.TableFiles.{TableFiles, TableLaws}
use lsmtree.Text.{Str}

pub record Snapshot : Type 0 where
  pub attached : Bool
  pub seq : ℕ

-- `std::multiset::insert`
unfoldable pub insert_sequence : ℕ → List ℕ → List ℕ
insert_sequence s [] = s ∷ []
insert_sequence s (t ∷ ts) =
    let rest = insert_sequence s ts in if ltb s t then s ∷ t ∷ ts else t ∷ rest

-- `find`, and `erase` of what it found
unfoldable pub erase_sequence : ℕ → List ℕ → List ℕ
erase_sequence s [] = []
erase_sequence s (t ∷ ts) = let rest = erase_sequence s ts in if t == s then ts else t ∷ rest

-- `Snapshot::release`
unfoldable pub release : Snapshot → List ℕ → Snapshot × List ℕ
release s active =
    (record s { attached = false }, if s.attached then erase_sequence s.seq active else active)

-- The move constructor: the new snapshot, and the one that is left.
unfoldable pub move : Snapshot → Snapshot × Snapshot
move other = (other, record other { attached = false })

-- The move assignment from another snapshot: both behind it, and the active ones.
unfoldable pub move_assign : Snapshot → Snapshot → List ℕ → (Snapshot × Snapshot) × List ℕ
move_assign this other active =
    let (released, active') = release this active in (move other, active')

module _ {F : TableFiles} where
  -- `snapshot`, with `registerSnapshot`
  unfoldable pub snapshot : Database F → Snapshot × Database F
  snapshot db =
      let sequence = last_seq_of db.next_seq in
      (
        record { attached = true; seq = sequence },
        record db { snapshots = insert_sequence sequence db.snapshots },
      )

  -- `activeSnapshotCount`
  abbrev pub active_snapshot_count : Database F → ℕ
  active_snapshot_count db = length db.snapshots

abbrev pub AreAscending : List ℕ → Type 0
AreAscending [] = Unit
AreAscending (s ∷ ss) = All (λ t. s ≤ t) ss × AreAscending ss

All-insert_sequence :
    (P : ℕ → Type 0) (s : ℕ) (ss : List ℕ) → P s → All P ss → All P (insert_sequence s ss)
unfolding insert_sequence
All-insert_sequence P s [] p a = (p, tt)
All-insert_sequence P s (t ∷ ts) p a = ground (arith, All-insert_sequence P s ts p a.1)

pub insert_sequence-AreAscending :
    (s : ℕ) (ss : List ℕ) → AreAscending ss → AreAscending (insert_sequence s ss)
unfolding insert_sequence
insert_sequence-AreAscending s [] a = (tt, tt)
insert_sequence-AreAscending s (t ∷ ts) a = elim (Bool-cases (ltb s t)) [
  | inl e ↦
      let less : s ≤ t = ground (arith, e) in
      rw e ((less, All_map (λ u. t ≤ u) (λ u. s ≤ u) ts (λ u h. omega (arith, h, less)) a.0), a)
  | inr e ↦
      let more : t ≤ s = ground (arith, e) in
      rw e (All-insert_sequence (λ u. t ≤ u) s ts more a.0, insert_sequence-AreAscending s ts a.1)
]

All-erase_sequence : (P : ℕ → Type 0) (s : ℕ) (ss : List ℕ) → All P ss → All P (erase_sequence s ss)
unfolding erase_sequence
All-erase_sequence P s [] a = tt
All-erase_sequence P s (t ∷ ts) a = ground (arith, All-erase_sequence P s ts a.1)

erase_sequence-AreAscending :
    (s : ℕ) (ss : List ℕ) → AreAscending ss → AreAscending (erase_sequence s ss)
unfolding erase_sequence
erase_sequence-AreAscending s [] a = tt
erase_sequence-AreAscending s (t ∷ ts) a =
    ground (arith, erase_sequence-AreAscending s ts a.1, All-erase_sequence (λ u. t ≤ u) s ts a.0)

-- The multiset stays in order when a snapshot is released.
pub release-AreAscending :
    (s : Snapshot) (active : List ℕ) → AreAscending active → AreAscending (release s active).1
unfolding release
release-AreAscending s active a = ground (arith, erase_sequence-AreAscending s.seq active a)

insert_least : (s : ℕ) (ss : List ℕ) → All (λ t. s ≤ t) ss → insert_sequence s ss ≡ s ∷ ss
unfolding insert_sequence
insert_least s [] a = refl
insert_least s (t ∷ ts) a = elim (Bool-cases (ltb s t)) [
  | inl e ↦ rw e refl
  | inr e ↦
      let same : t ≡ s = ground (arith, e, a.0) in
      rw (e, insert_least s ts a.1) (ap (λ x. x ∷ s ∷ ts) same ∙ ap (λ x. s ∷ x ∷ ts) (sym same))
]

erase-insert :
    (s : ℕ) (ss : List ℕ) → AreAscending ss → erase_sequence s (insert_sequence s ss) ≡ ss
unfolding insert_sequence erase_sequence
erase-insert s [] a = rw (==-refl s) refl
erase-insert s (t ∷ ts) a = elim (Bool-cases (ltb s t)) [
  | inl e ↦ rw (e, ==-refl s) refl
  | inr e ↦ elim (Bool-cases (t == s)) [
    | inl f ↦
        let same : t ≡ s = (==_iff t s).0 f in
        let least =
          insert_least s ts
            (All_map (λ u. t ≤ u) (λ u. s ≤ u) ts (λ u h. omega (arith, h, same)) a.0) in
        rw (e, f) (least ∙ ap (λ x. x ∷ ts) (sym same))
    | inr f ↦ rw (e, f) (ap (◌∷◌ t) (erase-insert s ts a.1))
  ]
]

module _ {F : TableFiles} where
  -- Taking a snapshot keeps the active sequences in ascending order, and releasing it leaves them as
  -- they were before, if they were in ascending order.
  pub release-snapshot :
      (db : Database F)
      → AreAscending db.snapshots
      → AreAscending (snapshot db).1.snapshots
        × ((release (snapshot db).0 (snapshot db).1.snapshots).1 ≡ db.snapshots)
  unfolding snapshot release
  release-snapshot db a = (
    insert_sequence-AreAscending (last_seq_of db.next_seq) db.snapshots a,
    erase-insert (last_seq_of db.next_seq) db.snapshots a,
  )

-- The smallest active snapshot is not above any active one.
smallest_active_snapshot-le :
    (ss : List ℕ) (last_seq s : ℕ)
    → AreAscending ss
    → In s ss
    → smallest_active_snapshot ss last_seq ≤ s
smallest_active_snapshot-le [] last_seq s a i = absurd i
smallest_active_snapshot-le (t ∷ ts) last_seq s a (inl e) = omega (arith, e)
smallest_active_snapshot-le (t ∷ ts) last_seq s a (inr i) = All-In (λ u. t ≤ u) ts s a.0 i

module _ {F : TableFiles} (L : TableLaws F) where
  -- Over any table files that keep the laws, a read at an active snapshot finds after a compaction of any level what it found before, whatever
  -- the system calls answer, if the database is ordered, the active sequences are in ascending order,
  -- and there is room for what the compaction writes.
  pub snapshot_reads :
      (o : Options) (answer : SaveAnswer) (number : ℕ) (db : Database F) (c : ℕ → List Record)
      (k : Str) (s : ℕ)
      → IsOrdered L db c
      → AreAscending db.snapshots
      → HasRoomFor o db c number
      → In s db.snapshots
      → (c' : ℕ → List Record) × IsOrdered L (compact_level o answer number db).1 c'
        × (visible k s (stored (view (compact_level o answer number db).1 c'))
            ≡ visible k s (stored (view db c)))
  snapshot_reads o answer number db c k s ordered a room i =
      let p = compact_level-Preserves L o answer number db c ordered room in
      (
        p.new_contents,
        p.ordered,
        p.reads k s (smallest_active_snapshot-le db.snapshots (last_seq_of db.next_seq) s a i),
      )
