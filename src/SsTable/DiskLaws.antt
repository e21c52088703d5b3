-- ===== src/SsTable/DiskLaws.antt =====
-- The table files on a disk, SsTable/Disk.antt, fill the interface of the database.
use lsmtree.Base.{
  ℕ, suc, ◌^◌, ◌<◌, ◌≡◌, ◌≢◌, ◌∙◌, refl, sym, ap, subst, List, [], ◌∷◌, length, ◌==◌, ==_iff,
  Bool-cases, true, Option, none, some, ◌⊎◌, inl, inr, All,
}
use lsmtree.Bloom.{might_contain}
use lsmtree.Compaction.Slices.{bytes_of}
use lsmtree.Record.{Record}
use lsmtree.Record.Sorted.{IsSorted}
use lsmtree.Record.Visible.{visible, result_of}
use lsmtree.SsTable.Blocks.{indices_of, blocks_of}
use lsmtree.SsTable.Disk.{
  Disk, put_at, get_file, open_file, search_opened, search_cached, disk_files,
}
use lsmtree.SsTable.File.{BloomSizes, SsTable, filter_of, add_record_to_file, get}
use lsmtree.SsTable.Get.{get_lem, read_file_lem, add_record_to_file_lem}
use lsmtree.SsTable.Opened.{SizesFit, table_bytes, open_table_lem}
use lsmtree.SsTable.RoundTrip.{FitsTableRecord}
use lsmtree.TableFiles.{TableLaws}
use lsmtree.Text.{Str}
use lsmtree.SsTable.DiskSteps.{
  put_at-same, put_at-other, finish_write-either, finish_write_done, keep_table-answer,
  search_cached-either, open_file_there, AllOpen, closed,
}

-- An open table of some records.
abbrev table_of : BloomSizes → Record → List Record → SsTable
table_of sizes r rs = record {
  records_size = bytes_of (r ∷ rs);
  bloom_filter = filter_of sizes (r ∷ rs);
  indices = indices_of 0 (blocks_of r rs);
}

-- A file of some records, and what the cache has of it.
record Stored (sizes : BloomSizes) (file : Option Str) (cache : Option SsTable) (r : Record)
    (rs : List Record) : Type 0 where
  fits : All FitsTableRecord (r ∷ rs)
  sorted : IsSorted (r ∷ rs)
  short : length (table_bytes sizes (r ∷ rs)) < 2 ^ 63
  there : file ≡ some (table_bytes sizes (r ∷ rs))
  cached : (cache ≡ none) ⊎ (cache ≡ some (table_of sizes r rs))

abbrev IsStored : BloomSizes → Option Str → Option SsTable → List Record → Type 0
IsStored sizes file cache [] = ⊥
IsStored sizes file cache (r ∷ rs) = Stored sizes file cache r rs

abbrev Missing : Option Str → Option SsTable → Type 0
Missing file cache = (file ≡ none) × (cache ≡ none)

not_missing :
    (sizes : BloomSizes) (file : Option Str) (cache : Option SsTable) (rs : List Record)
    → IsStored sizes file cache rs
    → file ≢ none
not_missing sizes file cache [] h e = h
not_missing sizes file cache (r ∷ rs) h e = let f = h.there in cc (e, f)

module _ (sizes : BloomSizes) (good : SizesFit sizes) where
  abbrev Holds : Disk → ℕ → List Record → Type 0
  Holds d n rs = IsStored sizes (d.files n) (d.cache n) rs

  abbrev IsFree : Disk → ℕ → Type 0
  IsFree d n = Missing (d.files n) (d.cache n)

  stored :
      (d : Disk) (n : ℕ) (b : Str) (size : ℕ) (rs : List Record)
      → IsFree d n
      → IsSorted rs
      → All (λ r. r.seq < 2 ^ 64) rs
      → add_record_to_file sizes rs ≡ some (b, size)
      → length b < 2 ^ 63
      → IsStored sizes (some b) (d.cache n) rs
  unfolding add_record_to_file
  stored d n b size [] free sorted seqs e short = cc e
  stored d n b size (r ∷ rs) free sorted seqs e short =
      let (fits, same) = add_record_to_file_lem sizes r rs b size e seqs in
      record {
        fits = fits;
        sorted = sorted;
        short = subst (λ x. length x < 2 ^ 63) same short;
        there = ap (λ x. some x) same;
        cached = inl free.1;
      }

  write-Holds :
      (d : Disk) (n : ℕ) (rs : List Record) (size : ℕ)
      → IsFree d n
      → IsSorted rs
      → All (λ r. r.seq < 2 ^ 64) rs
      → ((disk_files sizes).write_table d n rs).1 ≡ some size
      → Holds ((disk_files sizes).write_table d n rs).0 n rs
  write-Holds d n rs size free sorted seqs e =
      let (b, wrote, short, after) =
        finish_write_done (d.writes d.clock) d n (add_record_to_file sizes rs) size e in
      subst (λ (x : Disk). Holds x n rs) (sym after)
        (subst (λ file. IsStored sizes file (d.cache n) rs) (sym (put_at-same d.files n (some b)))
          (stored d n b size rs free sorted seqs wrote short))

  write_keeps :
      (d : Disk) (n m : ℕ) (rs qs : List Record)
      → IsFree d n
      → Holds d m qs
      → Holds ((disk_files sizes).write_table d n rs).0 m qs
  write_keeps d n m rs qs free h =
      let other : n ≢ m =
        λ e. not_missing sizes (d.files m) (d.cache m) qs h (sym (ap d.files e) ∙ free.0) in
      elim (finish_write-either (d.writes d.clock) d n (add_record_to_file sizes rs)) [
        | inl e ↦ subst (λ (x : Disk). Holds x m qs) (sym e) h
        | inr p ↦
            subst (λ (x : Disk). Holds x m qs) (sym p.1)
              (subst (λ file. IsStored sizes file (d.cache m) qs)
                (sym (put_at-other d.files n m (some p.0) other)) h)
      ]

  write-IsFree :
      (d : Disk) (n m : ℕ) (rs : List Record)
      → n ≢ m
      → IsFree d m
      → IsFree ((disk_files sizes).write_table d n rs).0 m
  write-IsFree d n m rs other free =
      elim (finish_write-either (d.writes d.clock) d n (add_record_to_file sizes rs)) [
        | inl e ↦ subst (λ (x : Disk). IsFree x m) (sym e) free
        | inr p ↦
            subst (λ (x : Disk). IsFree x m) (sym p.1)
              (put_at-other d.files n m (some p.0) other ∙ free.0, free.1)
      ]

  open_lem :
      (file : Option Str) (cache : Option SsTable) (r : Record) (rs : List Record)
      → Stored sizes file cache r rs
      → open_file true file ≡ some (table_of sizes r rs)
  open_lem file cache r rs h =
      ap (open_file true) h.there ∙ open_table_lem sizes good r rs h.fits h.sorted h.short

  -- `get` on the file of an open table
  get_file_lem :
      (d : Disk) (time n : ℕ) (file : Option Str) (cache : Option SsTable) (r : Record)
      (rs : List Record) (key : Str) (s : ℕ)
      → Stored sizes file cache r rs
      → (get_file (d.opens time n) (table_of sizes r rs) key s file
          ≡ some (result_of (visible key s (r ∷ rs))))
        ⊎ ((get_file (d.opens time n) (table_of sizes r rs) key s file ≡ none) × (AllOpen d → ⊥))
  unfolding get
  get_file_lem d time n file cache r rs key s h =
      let answer = get_lem sizes good r rs h.fits h.sorted h.short key s in
      elim (Bool-cases (d.opens time n)) [
        | inl e ↦ inl (rw (e, h.there) answer)
        | inr e ↦ elim (Bool-cases (might_contain (filter_of sizes (r ∷ rs)) key)) [
          | inl f ↦ inr (rw (e, h.there, f) refl, closed d time n e)
          | inr f ↦ inl (rw (e, h.there, f) (rw f at answer))
        ]
      ]

  opened_finds :
      (d : Disk) (n : ℕ) (r : Record) (rs : List Record) (key : Str) (s : ℕ)
      → Stored sizes (d.files n) (d.cache n) r rs
      → ((search_cached d n key s none).1 ≡ some (result_of (visible key s (r ∷ rs))))
        ⊎ (((search_cached d n key s none).1 ≡ none) × (AllOpen d → ⊥))
  opened_finds d n r rs key s h = elim (Bool-cases (d.opens d.clock n)) [
    | inl e ↦
        let found : open_file (d.opens d.clock n) (d.files n) ≡ some (table_of sizes r rs) =
          ap (λ b. open_file b (d.files n)) e ∙ open_lem (d.files n) (d.cache n) r rs h in
        let answer : (search_cached d n key s none).1
            ≡ get_file (d.opens (suc d.clock) n) (table_of sizes r rs) key s (d.files n) =
          ap (λ o. (search_opened d n key s o).1) found
          ∙ keep_table-answer d n (table_of sizes r rs)
              (get_file (d.opens (suc d.clock) n) (table_of sizes r rs) key s (d.files n)) in
        elim (get_file_lem d (suc d.clock) n (d.files n) (d.cache n) r rs key s h) [
          | inl f ↦ inl (answer ∙ f)
          | inr p ↦ inr (answer ∙ p.0, p.1)
        ]
    | inr e ↦
        inr
          (ap (λ b. (search_opened d n key s (open_file b (d.files n))).1) e, closed d d.clock n e)
  ]

  search_finds :
      (d : Disk) (n : ℕ) (key : Str) (s : ℕ) (rs : List Record)
      → Holds d n rs
      → (((disk_files sizes).search_table d n key s).1 ≡ some (result_of (visible key s rs)))
        ⊎ ((((disk_files sizes).search_table d n key s).1 ≡ none) × (AllOpen d → ⊥))
  search_finds d n key s [] h = absurd h
  search_finds d n key s (r ∷ rs) h = elim h.cached [
    | inl e ↦
        subst
          (λ c.
            ((search_cached d n key s c).1 ≡ some (result_of (visible key s (r ∷ rs))))
            ⊎ (((search_cached d n key s c).1 ≡ none) × (AllOpen d → ⊥)))
          (sym e) (opened_finds d n r rs key s h)
    | inr e ↦
        subst
          (λ c.
            ((search_cached d n key s c).1 ≡ some (result_of (visible key s (r ∷ rs))))
            ⊎ (((search_cached d n key s c).1 ≡ none) × (AllOpen d → ⊥)))
          (sym e) (get_file_lem d d.clock n (d.files n) (d.cache n) r rs key s h)
  ]

  opened_keeps :
      (d : Disk) (n : ℕ) (t : SsTable) (qs : List Record)
      → open_file (d.opens d.clock n) (d.files n) ≡ some t
      → Holds d n qs
      → IsStored sizes (d.files n) (some t) qs
  opened_keeps d n t [] e h = h
  opened_keeps d n t (r ∷ rs) e h =
      let (x, there, opens) = open_file_there (d.opens d.clock n) (d.files n) t e in
      let same : some t ≡ some (table_of sizes r rs) =
        sym opens ∙ sym (ap (open_file true) there) ∙ open_lem (d.files n) (d.cache n) r rs h in
      record {
        fits = h.fits;
        sorted = h.sorted;
        short = h.short;
        there = h.there;
        cached = inr same;
      }

  search_keeps :
      (d : Disk) (n m : ℕ) (key : Str) (s : ℕ) (qs : List Record)
      → Holds d m qs
      → Holds ((disk_files sizes).search_table d n key s).0 m qs
  search_keeps d n m key s qs h = elim (search_cached-either d n key s (d.cache n)) [
    | inl e ↦ subst (λ (x : Disk). Holds x m qs) (sym e) h
    | inr (t, opens, e) ↦
        subst (λ (x : Disk). Holds x m qs) (sym e)
          (elim (Bool-cases (m == n)) [
            | inl f ↦
                let same : m ≡ n = (==_iff m n).0 f in
                rw f (rw same (opened_keeps d n t qs opens (rw same at h)))
            | inr f ↦ rw f h
          ])
  ]

  search-IsFree :
      (d : Disk) (n m : ℕ) (key : Str) (s : ℕ)
      → IsFree d m
      → IsFree ((disk_files sizes).search_table d n key s).0 m
  search-IsFree d n m key s h = elim (search_cached-either d n key s (d.cache n)) [
    | inl e ↦ subst (λ (x : Disk). IsFree x m) (sym e) h
    | inr (t, opens, e) ↦
        let (x, there, u) = open_file_there (d.opens d.clock n) (d.files n) t opens in
        let other : n ≢ m =
          λ same. let missing = h.0 in let at = ap d.files same in cc (there, missing, at) in
        subst (λ (x : Disk). IsFree x m) (sym e)
          (h.0, put_at-other d.cache n m (some t) other ∙ h.1)
  ]

  search_reads :
      (d : Disk) (n : ℕ) (key : Str) (s : ℕ)
      → AllOpen d
      → AllOpen ((disk_files sizes).search_table d n key s).0
  search_reads d n key s h = elim (search_cached-either d n key s (d.cache n)) [
    | inl e ↦ subst AllOpen (sym e) h
    | inr (t, opens, e) ↦ subst AllOpen (sym e) h
  ]

  read_gives :
      (d : Disk) (n : ℕ) (rs : List Record)
      → Holds d n rs
      → ((disk_files sizes).read_table d n ≡ some rs)
        ⊎ (((disk_files sizes).read_table d n ≡ none) × (AllOpen d → ⊥))
  read_gives d n [] h = absurd h
  read_gives d n (r ∷ rs) h = elim (Bool-cases (d.opens d.clock n)) [
    | inl e ↦ inl (rw (e, h.there) (read_file_lem sizes good r rs h.fits h.sorted h.short))
    | inr e ↦ inr (rw e refl, closed d d.clock n e)
  ]

  remove_keeps :
      (d : Disk) (n m : ℕ) (qs : List Record)
      → n ≢ m
      → Holds d m qs
      → Holds ((disk_files sizes).remove_table d n).0 m qs
  remove_keeps d n m qs other h = elim (Bool-cases (d.removes d.clock)) [
    | inl e ↦ rw e (
        subst (λ file. IsStored sizes file (d.cache m) qs)
          (sym (put_at-other d.files n m none other)) h)
    | inr e ↦ rw e h
  ]

  put_none : {A : Type 0} (f : ℕ → Option A) (n m : ℕ) → f m ≡ none → put_at f n none m ≡ none
  put_none f n m e = elim (Bool-cases (m == n)) [ inl h ↦ rw h refl | inr h ↦ rw h e ]

  remove-IsFree :
      (d : Disk) (n m : ℕ) → IsFree d m → IsFree ((disk_files sizes).remove_table d n).0 m
  remove-IsFree d n m h = elim (Bool-cases (d.removes d.clock)) [
    | inl e ↦ rw e (put_none d.files n m h.0, h.1)
    | inr e ↦ rw e h
  ]

  uncached :
      (file : Option Str) (cache : Option SsTable) (qs : List Record)
      → IsStored sizes file cache qs
      → IsStored sizes file none qs
  uncached file cache [] h = h
  uncached file cache (r ∷ rs) h = record {
    fits = h.fits;
    sorted = h.sorted;
    short = h.short;
    there = h.there;
    cached = inl refl;
  }

  forget_keeps :
      (d : Disk) (n m : ℕ) (qs : List Record)
      → Holds d m qs
      → Holds ((disk_files sizes).forget_table d n) m qs
  forget_keeps d n m qs h = elim (Bool-cases (m == n)) [
    | inl e ↦ rw e (uncached (d.files m) (d.cache m) qs h)
    | inr e ↦ rw e h
  ]

  pub disk_laws : TableLaws (disk_files sizes)
  disk_laws = record {
    Holds = Holds;
    IsFree = IsFree;
    Reads = AllOpen;
    write_holds = write-Holds;
    write_keeps = write_keeps;
    write_free = write-IsFree;
    search_finds = search_finds;
    search_keeps = search_keeps;
    search_free = search-IsFree;
    search_reads = search_reads;
    read_gives = read_gives;
    remove_keeps = remove_keeps;
    remove_free = remove-IsFree;
    forget_keeps = forget_keeps;
    forget_free = λ d n m h. (h.0, put_none d.cache n m h.1);
  }

  pub missing-IsFree :
      (d : Disk) (n : ℕ) → d.files n ≡ none → d.cache n ≡ none → disk_laws.IsFree d n
  unfolding disk_laws
  missing-IsFree d n file cache = (file, cache)

  pub all_open-Reads : (d : Disk) → AllOpen d → disk_laws.Reads d
  unfolding disk_laws
  all_open-Reads d h = h

-- Behind a write of sorted records with 64-bit sequences that returns, on a disk that has no file and no
-- open table of that number, `DB::searchTable` of the table answers by the newest record of the key at
-- or below the read sequence, and the iterator gives the records; each throws instead only where some
-- file cannot be opened or read. The numbers of bits and hashes of the Bloom filter are positive and fit
-- 64 bits.
pub search_table-write_table :
    (sizes : BloomSizes) (good : SizesFit sizes) (d : Disk) (n : ℕ) (rs : List Record) (size : ℕ)
    (k : Str) (s : ℕ)
    → d.files n ≡ none
    → d.cache n ≡ none
    → IsSorted rs
    → All (λ r. r.seq < 2 ^ 64) rs
    → ((disk_files sizes).write_table d n rs).1 ≡ some size
    → ((((disk_files sizes).search_table ((disk_files sizes).write_table d n rs).0 n k s).1
          ≡ some (result_of (visible k s rs)))
        ⊎ ((((disk_files sizes).search_table ((disk_files sizes).write_table d n rs).0 n k s).1
              ≡ none)
            × (AllOpen ((disk_files sizes).write_table d n rs).0 → ⊥)))
      × (((disk_files sizes).read_table ((disk_files sizes).write_table d n rs).0 n ≡ some rs)
          ⊎ (((disk_files sizes).read_table ((disk_files sizes).write_table d n rs).0 n ≡ none)
              × (AllOpen ((disk_files sizes).write_table d n rs).0 → ⊥)))
search_table-write_table sizes good d n rs size k s file cache sorted seqs e =
    let there = write-Holds sizes good d n rs size (file, cache) sorted seqs e in
    (
      search_finds sizes good ((disk_files sizes).write_table d n rs).0 n k s rs there,
      read_gives sizes good ((disk_files sizes).write_table d n rs).0 n rs there,
    )
