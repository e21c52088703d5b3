-- ===== src/Tests.antt =====
-- Runs at concrete inputs, and the theorems applied to them. The records that the tests share.
mod Log
mod Memory
mod Merging
mod Tables
mod Filter
mod Files
mod DiskFiles
mod Puts
mod Store
mod Calls
mod Directory
mod Compacting
use lsmtree.Base.{ℕ, List, [], ◌∷◌, ◌++◌}
use lsmtree.Record.{Record, RecordType}

-- put("a", "x") at 1, put("b", "y") at 2, remove("a") at 3
abbrev put_a : Record
put_a = record { key = b'a' ∷ []; seq = 1; type = RecordType.value; value = b'x' ∷ [] }

abbrev put_b : Record
put_b = record { key = b'b' ∷ []; seq = 2; type = RecordType.value; value = b'y' ∷ [] }

abbrev remove_a : Record
remove_a = record { key = b'a' ∷ []; seq = 3; type = RecordType.tombstone; value = [] }

abbrev two_puts : List Record
two_puts = put_a ∷ put_b ∷ []
