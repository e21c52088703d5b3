-- ===== src/MemTable/Map.antt =====
-- `std::map<Key, Entry>` as its entries in the order of `Key::operator<`.
use lsmtree.Base.{List, [], ◌∷◌, map, if◌then◌else◌, Option, none, some}
use lsmtree.Record.{Record, Entry, Key, key_less}

abbrev pub Table : Type 0
Table = List (Key × Entry)

-- The entries from the first whose key is not less than `k`.
unfoldable pub lower_bound : Key → Table → Table
lower_bound k [] = []
lower_bound k ((j, e) ∷ t) =
    let later = lower_bound k t in if key_less j k then later else (j, e) ∷ t

unfoldable pub find : Key → Table → Option Entry
find k [] = none
find k ((j, e) ∷ t) =
    let later = find k t in if key_less j k then later else if key_less k j then none else some e

unfoldable pub insert_or_assign : Key → Entry → Table → Table
insert_or_assign k e [] = (k, e) ∷ []
insert_or_assign k e ((j, d) ∷ t) =
    let later = (j, d) ∷ insert_or_assign k e t in
    if key_less j k then later else if key_less k j then (k, e) ∷ (j, d) ∷ t else (k, e) ∷ t

-- The entries as records, as `SSTable::build` reads them.
abbrev pub record_of : Key × Entry → Record
record_of (k, e) = record { key = k.key; seq = k.seq; type = e.type; value = e.value }

abbrev pub records : Table → List Record
records = map record_of
