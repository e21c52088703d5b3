-- ===== src/TableFiles.antt =====
-- What `DB` of src/DB.cpp asks of the table files of src/SSTable.cpp: the operations as an interface,
-- and the laws by which the database's theorems know them. The files carry the cache of opened tables
-- with them, and whatever decides whether a system call fails.
use lsmtree.Base.{ℕ, ◌≡◌, ◌≢◌, List, Bool, Option, some, none, ◌⊎◌, All, ◌<◌, ◌^◌}
use lsmtree.Record.{Record, Result}
use lsmtree.Record.Sorted.{IsSorted}
use lsmtree.Record.Visible.{visible, result_of}
use lsmtree.Text.{Str}

pub record TableFiles : Type 1 where
  pub Files : Type 0
  -- `std::filesystem::exists` of a table's path
  pub exists_table : Files → ℕ → Bool
  -- `SSTable::addRecordToFile`: the size of the file, or `none` where it throws
  pub write_table : Files → ℕ → List Record → Files × Option ℕ
  -- `std::filesystem::file_size` of a table's path, `none` where it throws
  pub table_size : Files → ℕ → Option ℕ
  -- `DB::searchTable`, `none` where it throws
  pub search_table : Files → ℕ → Str → ℕ → Files × Option Result
  -- what a `SSTableIterator` gives from its start to its end, `none` where it throws
  pub read_table : Files → ℕ → Option (List Record)
  -- `removeFile` of a table's path, `false` where it throws
  pub remove_table : Files → ℕ → Files × Bool
  -- `tableCache_.erase`
  pub forget_table : Files → ℕ → Files

-- `Holds fs n rs`: table `n` is a file of the records `rs`. `IsFree fs n`: neither a file nor the
-- cache has a table `n`. `Reads fs`: no open and no read of a table throws.
pub record TableLaws (F : TableFiles) : Type 1 where
  pub Holds : F.Files → ℕ → List Record → Type 0
  pub IsFree : F.Files → ℕ → Type 0
  pub Reads : F.Files → Type 0
  pub write_holds :
      (fs : F.Files) (n : ℕ) (rs : List Record) (size : ℕ)
      → IsFree fs n
      → IsSorted rs
      → All (λ r. r.seq < 2 ^ 64) rs
      → (F.write_table fs n rs).1 ≡ some size
      → Holds (F.write_table fs n rs).0 n rs
  pub write_keeps :
      (fs : F.Files) (n m : ℕ) (rs qs : List Record)
      → IsFree fs n
      → Holds fs m qs
      → Holds (F.write_table fs n rs).0 m qs
  pub write_free :
      (fs : F.Files) (n m : ℕ) (rs : List Record)
      → n ≢ m
      → IsFree fs m
      → IsFree (F.write_table fs n rs).0 m
  pub search_finds :
      (fs : F.Files) (n : ℕ) (key : Str) (read_seq : ℕ) (rs : List Record)
      → Holds fs n rs
      → ((F.search_table fs n key read_seq).1 ≡ some (result_of (visible key read_seq rs)))
        ⊎ (((F.search_table fs n key read_seq).1 ≡ none) × (Reads fs → ⊥))
  pub search_keeps :
      (fs : F.Files) (n m : ℕ) (key : Str) (read_seq : ℕ) (qs : List Record)
      → Holds fs m qs
      → Holds (F.search_table fs n key read_seq).0 m qs
  pub search_free :
      (fs : F.Files) (n m : ℕ) (key : Str) (read_seq : ℕ)
      → IsFree fs m
      → IsFree (F.search_table fs n key read_seq).0 m
  pub search_reads :
      (fs : F.Files) (n : ℕ) (key : Str) (read_seq : ℕ)
      → Reads fs
      → Reads (F.search_table fs n key read_seq).0
  pub read_gives :
      (fs : F.Files) (n : ℕ) (rs : List Record)
      → Holds fs n rs
      → (F.read_table fs n ≡ some rs) ⊎ ((F.read_table fs n ≡ none) × (Reads fs → ⊥))
  pub remove_keeps :
      (fs : F.Files) (n m : ℕ) (qs : List Record)
      → n ≢ m
      → Holds fs m qs
      → Holds (F.remove_table fs n).0 m qs
  pub remove_free : (fs : F.Files) (n m : ℕ) → IsFree fs m → IsFree (F.remove_table fs n).0 m
  pub forget_keeps :
      (fs : F.Files) (n m : ℕ) (qs : List Record) → Holds fs m qs → Holds (F.forget_table fs n) m qs
  pub forget_free : (fs : F.Files) (n m : ℕ) → IsFree fs m → IsFree (F.forget_table fs n) m
