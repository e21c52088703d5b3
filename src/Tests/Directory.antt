-- ===== src/Tests/Directory.antt =====
-- Tests of the cleanup of a directory.
use lsmtree.Base.{ℕ, ◌≡◌, List, [], ◌∷◌, In, inl, inr, arith, Bool, true, not, refl, sym, subst}
use lsmtree.FileNames.{
  DirectoryEntry, EntryStatus, wal_name, sstable_name, cleanup_untracked_sstables,
}
use lsmtree.FileNames.Cleanup.{removed-cleanup_untracked_sstables, In-cleanup_untracked_sstables}
use lsmtree.Text.{Str, str_eq}

abbrev logs : List DirectoryEntry
logs =
    record { name = wal_name 3; is_regular_file = true }
    ∷ record { name = wal_name 7; is_regular_file = true }
    ∷ []

-- Table 4 is left over, and so is table 6, which cannot be removed.
abbrev tables : List Str
tables = sstable_name 4 ∷ sstable_name 5 ∷ sstable_name 6 ∷ []

abbrev all_regular : Str → EntryStatus
all_regular name = EntryStatus.regular

abbrev not_six : Str → Bool
not_six name = not (str_eq name (sstable_name 6))

abbrev left_over : Bool × List Str
left_over = cleanup_untracked_sstables all_regular not_six (5 ∷ []) tables

table_4_removed : left_over.1 ≡ sstable_name 4 ∷ []
unfolding cleanup_untracked_sstables lsmtree.Text.Affix.ends_with lsmtree.Text.Decimal.to_string
    lsmtree.FileNames.parse_numbered_file lsmtree.FileNames.whole_number
    lsmtree.Text.Decimal.span_digits lsmtree.Text.Decimal.stoull lsmtree.Manifest.is_removed
    lsmtree.Text.compare_str
table_4_removed = refl

table_4_in : In (sstable_name 4) left_over.1
table_4_in = subst (In (sstable_name 4)) (sym table_4_removed) (inl refl)

not_active : ¬ In {A = ℕ} 4 (5 ∷ [])
not_active i = elim i [ inl e ↦ omega (arith, e) | inr j ↦ j ]

removed-cleanup_untracked_sstables_example :
    In (sstable_name 4) tables
    × (all_regular (sstable_name 4) ≡ EntryStatus.regular)
    × ¬ In {A = ℕ} 4 (5 ∷ [])
removed-cleanup_untracked_sstables_example =
    removed-cleanup_untracked_sstables all_regular not_six (5 ∷ []) tables 4 (omega arith)
      table_4_in

In-cleanup_untracked_sstables_example :
    In (sstable_name 4) (cleanup_untracked_sstables all_regular (λ name. true) (5 ∷ []) tables).1
In-cleanup_untracked_sstables_example =
    In-cleanup_untracked_sstables all_regular (λ name. true) (5 ∷ []) tables 4 (omega arith)
      (λ x i e. let wrong : EntryStatus.regular ≡ EntryStatus.unknown = e in cc wrong) (λ x i. refl)
      (inl refl) refl not_active
