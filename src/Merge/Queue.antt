-- ===== src/Merge/Queue.antt =====
-- `mergeAll`. A source is the list of the records that its iterator has still to give: `valid()` says
-- whether one is left, `current()` is the first and `advance()` drops it. The callers never pass a
-- null iterator. `std::priority_queue` gives a greatest element; at a tie it may be any, and here it
-- is the earliest in the queue.
pub mod Order
pub mod Loop
pub mod Sound
pub mod Sorted
pub mod Members
use lsmtree.Base.{
  ℕ, zero, suc, ◌+◌, List, [], ◌∷◌, ◌++◌, length, get_or, set, ltb, not, if◌then◌else◌, Bool,
}
use lsmtree.Record.{Record}
use lsmtree.Text.{Str, str_eq, str_lt}

pub record MergeItem : Type 0 where
  pub key : Str
  pub source_index : ℕ
  pub seq : ℕ

-- `MergeItem::operator<`: the greatest item has the smallest key and in it the newest sequence.
abbrev pub item_less : MergeItem → MergeItem → Bool
item_less a b = if not (str_eq a.key b.key) then str_lt b.key a.key else ltb a.seq b.seq

abbrev pub Sources : Type 0
Sources = List (List Record)

abbrev pub item : Record → ℕ → MergeItem
item r index = record { key = r.key; source_index = index; seq = r.seq }

-- `queue.emplace`, where the source is valid
abbrev pub enqueue_source : List MergeItem → List Record → ℕ → List MergeItem
enqueue_source queue [] index = queue
enqueue_source queue (r ∷ rs) index = item r index ∷ queue

-- `enqueueCurrent`
unfoldable pub enqueue_current : List MergeItem → Sources → ℕ → List MergeItem
enqueue_current queue sources index = enqueue_source queue (get_or sources index []) index

-- The loop that fills the queue, from an index on.
unfoldable pub enqueue_all : List MergeItem → ℕ → Sources → List MergeItem
enqueue_all queue index [] = queue
enqueue_all queue index (source ∷ sources) =
    enqueue_all (enqueue_source queue source index) (suc index) sources

-- `top` and `pop` of a queue that is not empty: a greatest item and the others.
unfoldable pub pop_top : MergeItem → List MergeItem → MergeItem × List MergeItem
pop_top x [] = (x, [])
pop_top x (y ∷ queue) =
    let (winner, rest) = pop_top (if item_less x y then y else x) queue in
    (winner, (if item_less x y then x else y) ∷ rest)

-- The loop, with fuel for the records that are left.
unfoldable pub merge_loop : ℕ → List MergeItem → Sources → List Record
merge_loop zero queue sources = []
merge_loop (suc fuel) [] sources = []
merge_loop (suc fuel) (x ∷ queue) sources =
    let (winner, rest) = pop_top x queue in
    elim (get_or sources winner.source_index []) [
      | [] ↦ []
      | r ∷ rs ↦
          let sources' = set sources winner.source_index rs in
          r ∷ merge_loop fuel (enqueue_current rest sources' winner.source_index) sources'
    ]

-- The number of records that the sources hold.
unfoldable pub total : Sources → ℕ
total [] = 0
total (source ∷ sources) = length source + total sources

-- `mergeAll`
unfoldable pub merge_all : Sources → List Record
merge_all sources = merge_loop (total sources) (enqueue_all [] 0 sources) sources
