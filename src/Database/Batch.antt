-- ===== src/Database/Batch.antt =====
-- `class WriteBatch` of src/WriteBatch.cpp.
use lsmtree.Base.{ℕ, ◌+◌, ◌%◌, ◌^◌, List, [], ◌∷◌, ◌++◌}
use lsmtree.Record.{Record, RecordType}
use lsmtree.Text.{Str}

-- `WriteBatch::BatchRecord`
pub record BatchRecord : Type 0 where
  pub key : Str
  pub type : RecordType
  pub value : Str

-- `records_`
abbrev pub WriteBatch : Type 0
WriteBatch = List BatchRecord

-- `put`
unfoldable pub put : WriteBatch → Str → Str → WriteBatch
put batch key value = batch ++ record { key = key; type = RecordType.value; value = value } ∷ []

-- `remove`
unfoldable pub remove : WriteBatch → Str → WriteBatch
remove batch key = batch ++ record { key = key; type = RecordType.tombstone; value = [] } ∷ []

-- `clear`
abbrev pub clear : WriteBatch → WriteBatch
clear batch = []

-- The loop of `DB::write` that numbers the records, in 64 bits.
unfoldable pub number_records : ℕ → WriteBatch → List Record
number_records seq [] = []
number_records seq (b ∷ batch) =
    record { key = b.key; seq = seq; type = b.type; value = b.value }
    ∷ number_records ((seq + 1) % 2 ^ 64) batch
