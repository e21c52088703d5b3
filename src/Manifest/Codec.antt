-- ===== src/Manifest/Codec.antt =====
-- The MANIFEST file: `Manifest::save` and the constructor that reads it back. The file stands as its
-- bytes; the constructor's input is what it has not read of them.
use lsmtree.Base.{
  ℕ, zero, suc, ◌^◌, ◌<◌, ◌≡◌, refl, List, [], ◌∷◌, ◌++◌, length, take, drop, ltb, ◌==◌,
  if◌then◌else◌, All, arith, append_assoc, append-nil, take-append, drop-append, length-append,
}
use lsmtree.Base.Checked.{Checked, ok, err, ◌>>=◌, ◌>>◌, require, or_throw}
use lsmtree.Manifest.{Manifest, TableMeta, Level}
use lsmtree.Text.{Str}
use lsmtree.Text.Words.{le_bytes, read_value, read_value-le_bytes, drop-le_bytes}

abbrev pub manifest_format_version : ℕ
manifest_format_version = 4

-- The messages of the exceptions.
pub data ManifestError : Type 0 where
  level_number log_number version unsupported_version next last_seq : ManifestError
  table_count table_number table_size min_key_size min_key max_key_size max_key : ManifestError

abbrev pub Reader : Type 0 → Type 0
Reader A = Str → Checked ManifestError (A × Str)

-- `readValue`, of a value of `w` bytes
unfoldable pub read_word : ℕ → ManifestError → Reader ℕ
read_word w e s = or_throw (read_value w s) e >>= λ n. ok (n, drop w s)

-- `readKey`
unfoldable pub read_key : ManifestError → ManifestError → Reader Str
read_key size_error key_error s = do
  (n, s) ← read_word 4 size_error s
  if ltb (length s) n then err key_error else ok (take n s, drop n s)

-- `readTable`
unfoldable pub read_table : Reader TableMeta
read_table s = do
  (number, s) ← read_word 8 table_number s
  (size, s) ← read_word 8 table_size s
  (least, s) ← read_key min_key_size min_key s
  (greatest, s) ← read_key max_key_size max_key s
  ok (record { number = number; size = size; min_key = least; max_key = greatest }, s)

-- The loop over the tables of a level.
unfoldable pub read_tables : ℕ → Reader Level
read_tables zero s = ok ([], s)
read_tables (suc n) s = do (t, s) ← read_table s; (ts, s) ← read_tables n s; ok (t ∷ ts, s)

-- The loop over the levels.
unfoldable pub read_levels : ℕ → Reader (List Level)
read_levels zero s = ok ([], s)
read_levels (suc n) s = do
  (count, s) ← read_word 8 table_count s
  (tables, s) ← read_tables count s
  (levels, s) ← read_levels n s
  ok (tables ∷ levels, s)

-- `Manifest::Manifest` on a file that exists; bytes behind the last table are not looked at.
unfoldable pub load_manifest : Str → Checked ManifestError Manifest
load_manifest s = do
  (count, s) ← read_word 8 level_number s
  (log, s) ← read_word 8 log_number s
  (format, s) ← read_word 1 version s
  require (format == manifest_format_version) unsupported_version
  (next_number, s) ← read_word 8 next s
  (sequence, s) ← read_word 8 last_seq s
  (levels, s) ← read_levels count s
  ok (record {
    levels = levels;
    next_table_number = next_number;
    log_number = log;
    last_seq = sequence;
  })

-- `writeKey`: the size is cut to 32 bits, the key is not.
unfoldable pub write_key : Str → Str
write_key key = le_bytes 4 (length key) ++ key

unfoldable pub write_table : TableMeta → Str
write_table t =
    le_bytes 8 t.number ++ (le_bytes 8 t.size ++ (write_key t.min_key ++ write_key t.max_key))

unfoldable pub write_tables : Level → Str
write_tables [] = []
write_tables (t ∷ ts) = write_table t ++ write_tables ts

unfoldable pub write_levels : List Level → Str
write_levels [] = []
write_levels (l ∷ ls) = le_bytes 8 (length l) ++ (write_tables l ++ write_levels ls)

-- What `save` writes.
unfoldable pub save_manifest : Manifest → Str
save_manifest m =
    le_bytes 8 (length m.levels)
    ++ (le_bytes 8 m.log_number
        ++ (le_bytes 1 manifest_format_version
            ++ (le_bytes 8 m.next_table_number
                ++ (le_bytes 8 m.last_seq ++ write_levels m.levels))))

pub record FitsTable (t : TableMeta) : Type 0 where
  pub number : t.number < 2 ^ 64
  pub size : t.size < 2 ^ 64
  pub min_key : length t.min_key < 2 ^ 32
  pub max_key : length t.max_key < 2 ^ 32

pub record FitsLevel (l : Level) : Type 0 where
  pub count : length l < 2 ^ 64
  pub tables : All FitsTable l

-- The numbers are 64-bit numbers and the keys are shorter than 2^32 bytes.
pub record FitsManifest (m : Manifest) : Type 0 where
  pub count : length m.levels < 2 ^ 64
  pub levels : All FitsLevel m.levels
  pub next : m.next_table_number < 2 ^ 64
  pub log : m.log_number < 2 ^ 64
  pub last : m.last_seq < 2 ^ 64

read_word-le_bytes :
    (w n : ℕ) (e : ManifestError) (rest : Str)
    → n < 256 ^ w
    → read_word w e (le_bytes w n ++ rest) ≡ ok (n, rest)
unfolding read_word
read_word-le_bytes w n e rest h = rw (read_value-le_bytes w n rest h, drop-le_bytes) refl

read_key-write_key :
    (e f : ManifestError) (key rest : Str)
    → length key < 2 ^ 32
    → read_key e f (write_key key ++ rest) ≡ ok (key, rest)
unfolding read_key write_key
read_key-write_key e f key rest h =
    rw
      (
        append_assoc (le_bytes 4 (length key)) key rest,
        read_word-le_bytes 4 (length key) e (key ++ rest) h,
        take-append,
        drop-append,
      )
      (ground (arith, length-append key rest))

write_table-append :
    (t : TableMeta) (rest : Str)
    → write_table t ++ rest
      ≡ le_bytes 8 t.number
        ++ (le_bytes 8 t.size ++ (write_key t.min_key ++ (write_key t.max_key ++ rest)))
unfolding write_table
write_table-append t rest = simp append_assoc

read_table-write_table :
    (t : TableMeta) (rest : Str) → FitsTable t → read_table (write_table t ++ rest) ≡ ok (t, rest)
unfolding read_table
read_table-write_table t rest f = rw write_table-append (
    rw (
      read_word-le_bytes 8 t.number table_number _ f.number,
      read_word-le_bytes 8 t.size table_size _ f.size,
      read_key-write_key min_key_size min_key t.min_key _ f.min_key,
      read_key-write_key max_key_size max_key t.max_key rest f.max_key,
    ))

read_tables-write_tables :
    (ts : Level) (rest : Str)
    → All FitsTable ts
    → read_tables (length ts) (write_tables ts ++ rest) ≡ ok (ts, rest)
unfolding read_tables write_tables
read_tables-write_tables [] rest f = refl
read_tables-write_tables (t ∷ ts) rest f = rw (
  append_assoc (write_table t) (write_tables ts) rest,
  read_table-write_table t (write_tables ts ++ rest) f.0,
  read_tables-write_tables ts rest f.1,
)

read_levels-write_levels :
    (ls : List Level) (rest : Str)
    → All FitsLevel ls
    → read_levels (length ls) (write_levels ls ++ rest) ≡ ok (ls, rest)
unfolding read_levels write_levels
read_levels-write_levels [] rest f = refl
read_levels-write_levels (l ∷ ls) rest f = rw (
  append_assoc (le_bytes 8 (length l)) (write_tables l ++ write_levels ls) rest,
  append_assoc (write_tables l) (write_levels ls) rest,
  read_word-le_bytes 8 (length l) table_count (write_tables l ++ (write_levels ls ++ rest))
      f.0.count,
  read_tables-write_tables l (write_levels ls ++ rest) f.0.tables,
  read_levels-write_levels ls rest f.1,
)

-- A manifest whose numbers have 64 bits and whose keys are shorter than 2^32 bytes is read back as it
-- was saved.
pub load_manifest-save_manifest :
    (m : Manifest) → FitsManifest m → load_manifest (save_manifest m) ≡ ok m
unfolding load_manifest save_manifest
load_manifest-save_manifest m f =
    rw
      (
        read_word-le_bytes 8 (length m.levels) level_number _ f.count,
        read_word-le_bytes 8 m.log_number log_number _ f.log,
        read_word-le_bytes 1 manifest_format_version version _ (omega arith),
        read_word-le_bytes 8 m.next_table_number next _ f.next,
        read_word-le_bytes 8 m.last_seq last_seq _ f.last,
        ← append-nil (write_levels m.levels),
        read_levels-write_levels m.levels [] f.levels,
      )
      refl
