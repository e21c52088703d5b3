-- ===== src/SsTable/Disk.antt =====
-- The table files on a disk, as `DB` of src/DB.cpp uses them: the interface of TableFiles on the bytes
-- of src/SSTable.cpp. The answers of the file system are part of the state, one for each point of time.
use lsmtree.Base.{
  ℕ, suc, ◌^◌, List, length, ltb, ◌==◌, if◌then◌else◌, Bool, true, false, Option, none, some,
}
use lsmtree.Bloom.{might_contain}
use lsmtree.Record.{Record, Result}
use lsmtree.SsTable.File.{BloomSizes, SsTable, add_record_to_file, open_table, get, read_file}
use lsmtree.TableFiles.{TableFiles}
use lsmtree.Text.{Str}

-- What becomes of the calls of a `FileWriter`: all succeed, one throws in front of the rename, or one
-- behind it.
pub data WriteAnswer : Type 0 where
  done not_renamed renamed : WriteAnswer

-- `files` are the tables of the directory by number, and `cache` is `tableCache_`. `opens t n` says
-- whether table `n` can be opened and read at time `t`.
pub record Disk : Type 0 where
  pub files : ℕ → Option Str
  pub cache : ℕ → Option SsTable
  pub clock : ℕ
  pub writes : ℕ → WriteAnswer
  pub opens : ℕ → ℕ → Bool
  pub removes : ℕ → Bool

abbrev pub put_at : {A : Type 0} → (ℕ → Option A) → ℕ → Option A → ℕ → Option A
put_at f n x m = if m == n then x else f m

abbrev pub tick : Disk → Disk
tick d = record d { clock = suc d.clock }

abbrev pub is_there : Option Str → Bool
is_there none = false
is_there (some file) = true

abbrev pub with_file : Disk → ℕ → Str → Disk
with_file d n bytes = record d { clock = suc d.clock; files = put_at d.files n (some bytes) }

-- The end of a write. A file has fewer than 2^63 bytes; a longer write fails.
abbrev pub finish_write : WriteAnswer → Disk → ℕ → Option (Str × ℕ) → Disk × Option ℕ
finish_write answer d n none = (tick d, none)
finish_write WriteAnswer.done d n (some (bytes, size)) =
    if ltb (length bytes) (2 ^ 63) then (with_file d n bytes, some size) else (tick d, none)
finish_write WriteAnswer.not_renamed d n (some (bytes, size)) = (tick d, none)
finish_write WriteAnswer.renamed d n (some (bytes, size)) =
    if ltb (length bytes) (2 ^ 63) then (with_file d n bytes, none) else (tick d, none)

abbrev pub file_size : Bool → Option Str → Option ℕ
file_size false file = none
file_size true none = none
file_size true (some bytes) = some (length bytes)

-- `get` on an open table: the file must be there, and it is opened if the filter lets the key pass.
abbrev pub get_file : Bool → SsTable → Str → ℕ → Option Str → Option Result
get_file opens t key read_seq none = none
get_file true t key read_seq (some file) = get t file key read_seq
get_file false t key read_seq (some file) =
    if might_contain t.bloom_filter key then none else some Result.absent

-- The constructor of SSTable
abbrev pub open_file : Bool → Option Str → Option SsTable
open_file false file = none
open_file true none = none
open_file true (some file) = open_table file

-- `tableCache_.emplace` behind a search that did not throw
abbrev pub keep_table : Disk → ℕ → SsTable → Option Result → Disk × Option Result
keep_table d n t none = (tick d, none)
keep_table d n t (some r) =
    (record d { clock = suc d.clock; cache = put_at d.cache n (some t) }, some r)

abbrev pub search_opened : Disk → ℕ → Str → ℕ → Option SsTable → Disk × Option Result
search_opened d n key read_seq none = (tick d, none)
search_opened d n key read_seq (some t) =
    keep_table d n t (get_file (d.opens (suc d.clock) n) t key read_seq (d.files n))

-- `DB::searchTable`, of what the cache has
abbrev pub search_cached : Disk → ℕ → Str → ℕ → Option SsTable → Disk × Option Result
search_cached d n key read_seq (some t) =
    (tick d, get_file (d.opens d.clock n) t key read_seq (d.files n))
search_cached d n key read_seq none =
    search_opened d n key read_seq (open_file (d.opens d.clock n) (d.files n))

abbrev pub read_opened : Bool → Option Str → Option (List Record)
read_opened false file = none
read_opened true none = none
read_opened true (some file) = read_file file

abbrev pub remove_answered : Bool → Disk → ℕ → Disk × Bool
remove_answered true d n = (record d { clock = suc d.clock; files = put_at d.files n none }, true)
remove_answered false d n = (tick d, false)

abbrev pub disk_files : BloomSizes → TableFiles
disk_files sizes = record {
  Files = Disk;
  exists_table = λ d n. is_there (d.files n);
  write_table = λ d n rs. finish_write (d.writes d.clock) d n (add_record_to_file sizes rs);
  table_size = λ d n. file_size (d.opens d.clock n) (d.files n);
  search_table = λ d n key s. search_cached d n key s (d.cache n);
  read_table = λ d n. read_opened (d.opens d.clock n) (d.files n);
  remove_table = λ d n. remove_answered (d.removes d.clock) d n;
  forget_table = λ d n. record d { cache = put_at d.cache n none };
}
