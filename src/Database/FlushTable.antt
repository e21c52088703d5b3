-- ===== src/Database/FlushTable.antt =====
-- The steps of a flush up to the compactions, where each succeeds.
use lsmtree.Base.{
  if◌then◌else◌, ℕ, ◌+◌, ◌%◌, ◌^◌, ◌<◌, ◌≡◌, ◌≢◌, ◌∙◌, refl, ap, List, [], All, All-intro, All_map,
  true, false, arith, Bool, some, none,
}
use lsmtree.Base.Checked.{ok}
use lsmtree.Database.{Database, last_seq_of}
use lsmtree.Database.Compact.{SaveAnswer, save, and_then, front_key, back_key}
use lsmtree.Database.Flush.{
  FlushAnswers, take_numbers, build_table, register_table, switch_log, with_log, flush_table,
}
use lsmtree.Database.Flushed.{add_table_zero, IsFlushed}
use lsmtree.Database.Order.{IsOrdered}
use lsmtree.Manifest.{Manifest, TableMeta, level, allocate_number, add_table}
use lsmtree.MemTable.{records}
use lsmtree.MemTable.Restore.{open_mem_table, fresh, open_writer}
use lsmtree.MemTable.Reopen.{open_mem_table-encode_log}
use lsmtree.MemTable.{apply_all}
use lsmtree.Wal.Recovery.{encode_log, entries_of}
use lsmtree.Record.{Record}
use lsmtree.TableFiles.{TableFiles, TableLaws}

-- A log that was not there holds nothing.
open_mem_table_none : open_mem_table none ≡ ok (fresh (open_writer none))
unfolding open_mem_table open_writer encode_log entries_of apply_all
open_mem_table_none = open_mem_table-encode_log [] tt

if_true : {A : Type 0} (b : Bool) (x y : A) → b ≡ true → (if b then x else y) ≡ x
if_true true x y e = refl
if_true false x y e = cc

module _ {F : TableFiles} (L : TableLaws F) where
  -- The steps of a flush succeed, up to the removal of the old log.
  pub record Succeeds (io : FlushAnswers) (db : Database F) : Type 0 where
    pub some_record : records db.active_mem_table.table ≢ []
    pub directory : io.directory ≡ true
    pub absent : F.exists_table db.files db.manifest.next_table_number ≡ false
    pub bytes : ℕ
    pub written :
        (F.write_table db.files db.manifest.next_table_number (records db.active_mem_table.table)).1
        ≡ some bytes
    pub size : ℕ
    pub measured :
        F.table_size
          (F.write_table db.files db.manifest.next_table_number
            (records db.active_mem_table.table)).0
          db.manifest.next_table_number
        ≡ some size
    pub saved : io.manifest ≡ SaveAnswer.saved
    pub no_log : io.log_file ≡ none
    pub opened : io.log_opened ≡ true
    pub room : db.manifest.next_table_number + 2 < 2 ^ 64

  module _ (io : FlushAnswers) (db : Database F) (contents : ℕ → List Record)
      (o : IsOrdered L db contents) (s : Succeeds io db) where
    abbrev n : ℕ
    n = db.manifest.next_table_number

    abbrev memory : List Record
    memory = records db.active_mem_table.table

    abbrev pub flushed_table : TableMeta
    flushed_table = record {
      number = n;
      size = s.size;
      min_key = front_key memory;
      max_key = back_key memory;
    }

    abbrev after : F.Files
    after = (F.write_table db.files n memory).0

    abbrev numbered : Manifest
    numbered = record db.manifest { next_table_number = n + 2; log_number = n + 1 }

    abbrev registered : Manifest
    registered = record ((add_table flushed_table 0 numbered).1) {
      last_seq = last_seq_of db.next_seq;
    }

    -- What the flush leaves in front of the compactions.
    abbrev pub flushed_database : Database F
    flushed_database = record db {
      active_mem_table = fresh (open_writer none);
      wal_number = registered.log_number;
      manifest = registered;
      saved_manifest = registered;
      files = after;
    }

    taken : Database F
    taken = record db { manifest = numbered }

    built : Database F
    unfolding taken
    built = record taken { files = after }

    take : take_numbers io db ≡ (true, taken)
    unfolding take_numbers allocate_number taken
    take =
        let once : (n + 1) % 2 ^ 64 ≡ n + 1 = omega (arith, s.room) in
        let twice : ((n + 1) % 2 ^ 64 + 1) % 2 ^ 64 ≡ n + 2 = omega (arith, s.room) in
        rw (s.directory, twice, once) refl

    build : build_table n taken ≡ (built, some flushed_table)
    unfolding build_table taken built
    build = rw (s.absent, s.written, s.measured) refl

    register :
        register_table (built, some flushed_table) ≡ (true, record built { manifest = registered })
    unfolding register_table add_table taken built
    register = refl

    keep :
        save io.manifest (record built { manifest = registered })
        ≡ (true, record built { manifest = registered; saved_manifest = registered })
    unfolding taken built
    keep = ap (λ a. save a (record built { manifest = registered })) s.saved ∙ (unfold save in refl)

    switch :
        switch_log io (record built { manifest = registered; saved_manifest = registered })
        ≡ (true, flushed_database)
    unfolding switch_log taken built
    switch =
        ap (with_log io (record built { manifest = registered; saved_manifest = registered }))
          (ap open_mem_table s.no_log ∙ open_mem_table_none)
        ∙ if_true io.log_opened (true, flushed_database)
            (false, record built { manifest = registered; saved_manifest = registered }) s.opened

    -- A flush whose steps succeed gets as far as the removal of the old log.
    pub flush_table_lem : flush_table io db ≡ (io.log_removed, flushed_database)
    unfolding flush_table
    flush_table_lem =
        ap
          (λ a. and_then a (λ d. and_then (register_table (build_table n d)) (λ d.
            and_then (save io.manifest d)
              (λ d. and_then (switch_log io d) (λ d. (io.log_removed, d))))))
          take
        ∙ ap
            (λ a. and_then (register_table a) (λ d.
              and_then (save io.manifest d)
                (λ d. and_then (switch_log io d) (λ d. (io.log_removed, d)))))
            build
        ∙ ap
            (λ a. and_then a (λ d.
              and_then (save io.manifest d)
                (λ d. and_then (switch_log io d) (λ d. (io.log_removed, d)))))
            register
        ∙ ap (λ a. and_then a (λ d. and_then (switch_log io d) (λ d. (io.log_removed, d)))) keep
        ∙ ap (λ a. and_then a (λ d. (io.log_removed, d))) switch

    all_below : All (λ (u : TableMeta). u.number < n) (level db.manifest 0)
    all_below =
        All-intro (λ (u : TableMeta). u.number < n) (level db.manifest 0)
          (λ u k. (o.tables 0 u k).numbered)

    next_after : flushed_database.manifest.next_table_number ≡ n + 2
    unfolding add_table
    next_after = refl

    pub flushed_database-IsFlushed : IsFlushed L db flushed_database flushed_table
    flushed_database-IsFlushed =
        let (zeroth, others) = add_table_zero flushed_table numbered all_below in
        record {
          some_record = s.some_record;
          empty = refl;
          zeroth = zeroth;
          others = others;
          number = refl;
          counted = omega (arith, next_after);
          min_key = refl;
          max_key = refl;
          next_seq = refl;
          held =
              L.write_holds db.files n memory s.bytes (o.free n (omega arith)) o.memory
                (All_map (λ r. r.seq < db.next_seq) (λ r. r.seq < 2 ^ 64) memory
                  (λ r h. omega (arith, h, o.in_64_bits)) o.memory_old)
                s.written;
          keeps = λ m qs h. L.write_keeps db.files n m memory qs (o.free n (omega arith)) h;
          free = λ m h.
              L.write_free db.files n m memory (λ e. omega (arith, next_after, h, e))
                (o.free m (omega (arith, next_after, h)));
        }
