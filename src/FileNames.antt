-- ===== src/FileNames.antt =====
-- The names of the numbered files, `parseNumberedFile` of src/utils.cpp, and which files the
-- constructor of DB removes, src/DB.cpp.
pub mod Cleanup
use lsmtree.Base.{
  ℕ, ◌+◌, ◌-◌, ◌%◌, ◌^◌, ◌<◌, ◌≤◌, ◌≡◌, ◌≢◌, ◌↔◌, ◌∙◌, refl, sym, ap, List, [], ◌∷◌, ◌++◌, ◌&&◌,
  ◌||◌, not, length, take, drop, ltb, leb, ◌==◌, if◌then◌else◌, Bool, Bool-cases, true, false,
  Option, none, some, All, In, inl, inr, arith, length-append, take-append, drop-append, append-nil,
}
use lsmtree.Manifest.{is_removed}
use lsmtree.Manifest.Positions.{is_removed-In}
use lsmtree.Text.{Str, str_eq}
use lsmtree.Text.Affix.{starts_with, ends_with, starts_with-append}
use lsmtree.Text.Decimal.{
  is_digit, IsDigit, span_digits, stoull, to_string, stoull-to_string, to_string-IsDigit,
  length-to_string, span_digits-append,
}

-- `kWalPrefix` is "wal_", `kWalSuffix` ".wal", `kSSTablePrefix` "sst_", `kSSTableSuffix` ".sst".
abbrev pub wal_prefix : Str
wal_prefix = b'w' ∷ b'a' ∷ b'l' ∷ b'_' ∷ []

abbrev pub wal_suffix : Str
wal_suffix = b'.' ∷ b'w' ∷ b'a' ∷ b'l' ∷ []

abbrev pub sstable_prefix : Str
sstable_prefix = b's' ∷ b's' ∷ b't' ∷ b'_' ∷ []

abbrev pub sstable_suffix : Str
sstable_suffix = b'.' ∷ b's' ∷ b's' ∷ b't' ∷ []

-- The last part of `walPath` and of `sstablePath`.
abbrev pub wal_name : ℕ → Str
wal_name number = wal_prefix ++ (to_string number ++ wal_suffix)

abbrev pub sstable_name : ℕ → Str
sstable_name number = sstable_prefix ++ (to_string number ++ sstable_suffix)

-- `std::isspace` in the C locale
abbrev pub is_space : ℕ → Bool
is_space c = c == 32 || (leb 9 c && leb c 13)

-- `std::stoull` of a text of which every character is parsed: `none` is an exception, or that some
-- character is not. Spaces in front and a sign are allowed; a negative number wraps in 64 bits.
abbrev pub whole_digits : Str × Str → Option ℕ
whole_digits ([], rest) = none
whole_digits (d ∷ ds, []) = stoull (d ∷ ds)
whole_digits (d ∷ ds, c ∷ rest) = none

abbrev pub negated : Option ℕ → Option ℕ
negated none = none
negated (some v) = some ((2 ^ 64 - v) % 2 ^ 64)

abbrev pub signed_number : Str → Option ℕ
signed_number [] = none
signed_number (c ∷ cs) =
    if c == b'-'
    then negated (whole_digits (span_digits cs))
    else if c == b'+'
    then whole_digits (span_digits cs)
    else whole_digits (span_digits (c ∷ cs))

unfoldable pub whole_number : Str → Option ℕ
whole_number [] = none
whole_number (c ∷ cs) =
    let rest = whole_number cs in if is_space c then rest else signed_number (c ∷ cs)

-- `parseNumberedFile`
unfoldable pub parse_numbered_file : Str → Str → Str → Option ℕ
parse_numbered_file filename prefix suffix =
    if leb (length filename) (length prefix + length suffix)
      || (not (starts_with filename prefix) || not (ends_with filename suffix))
    then none
    else whole_number
        (take (length filename - length prefix - length suffix) (drop (length prefix) filename))

-- An entry of a directory.
pub record DirectoryEntry : Type 0 where
  pub name : Str
  pub is_regular_file : Bool

abbrev pub is_below : Option ℕ → ℕ → Bool
is_below none current = false
is_below (some number) current = ltb number current

-- The loops over a directory: the files that they remove, in order; a removal that throws ends it.
unfoldable pub removed_files : (Str → Bool) → List DirectoryEntry → List Str
removed_files test [] = []
removed_files test (e ∷ es) =
    let rest = removed_files test es in
    if e.is_regular_file && test e.name then e.name ∷ rest else rest

abbrev pub is_old_wal : ℕ → Str → Bool
is_old_wal current name = is_below (parse_numbered_file name wal_prefix wal_suffix) current

-- `cleanupOldWALFiles`
abbrev pub cleanup_old_wal_files : List DirectoryEntry → ℕ → List Str
cleanup_old_wal_files es current = removed_files (is_old_wal current) es

-- `extension() != ".sst"`: the name ".sst" has no extension.
abbrev pub has_sstable_extension : Str → Bool
has_sstable_extension name = ends_with name sstable_suffix && ltb 4 (length name)

abbrev pub is_untracked : Option ℕ → List ℕ → Bool
is_untracked none active = false
is_untracked (some number) active = not (is_removed active number)

abbrev pub is_untracked_sstable : List ℕ → Str → Bool
is_untracked_sstable active name =
    has_sstable_extension name
    && is_untracked (parse_numbered_file name sstable_prefix sstable_suffix) active

-- What `is_regular_file(error)` says of an entry: `unknown` is an error, as of a dangling link.
pub data EntryStatus : Type 0 where
  regular other unknown : EntryStatus

-- One round of `cleanupUntrackedSSTables`, of what the later ones do: whether the file is untracked,
-- and whether its removal succeeds. The error of an `unknown` entry is not cleared, so the next round
-- returns.
abbrev pub cleanup_entry : EntryStatus → Bool → Bool → Str → Bool × List Str → Bool × List Str
cleanup_entry EntryStatus.unknown untracked removed name rest = (true, [])
cleanup_entry EntryStatus.other untracked removed name rest = rest
cleanup_entry EntryStatus.regular untracked removed name rest =
    if not untracked then rest else if removed then (rest.0, name ∷ rest.1) else (false, [])

-- `cleanupUntrackedSSTables`, of the status of each entry by its name: whether it returns, and the
-- files that it removes, in order. `removes` says which removals succeed; one that throws ends it.
unfoldable pub cleanup_untracked_sstables :
    (Str → EntryStatus) → (Str → Bool) → List ℕ → List Str → Bool × List Str
cleanup_untracked_sstables status removes active [] = (true, [])
cleanup_untracked_sstables status removes active (name ∷ names) =
    cleanup_entry (status name) (is_untracked_sstable active name) (removes name) name
      (cleanup_untracked_sstables status removes active names)
