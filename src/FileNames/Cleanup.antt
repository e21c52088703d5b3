-- ===== src/FileNames/Cleanup.antt =====
-- A numbered file is known by its name, and the cleanup of a directory removes no file in use.
use lsmtree.Base.{
  ℕ, ◌+◌, ◌-◌, ◌^◌, ◌<◌, ◌≡◌, ◌≢◌, ◌⊎◌, ◌∙◌, refl, sym, ap, subst, List, [], ◌∷◌, ◌++◌, ◌&&◌, not,
  length, ltb, leb, ◌==◌, Bool, Bool-cases, true, false, some, All, In, inl, inr, arith,
  length-append, take-append, drop-append, append-nil, append_assoc,
}
use lsmtree.FileNames.{
  sstable_prefix, sstable_suffix, sstable_name, is_space, whole_number, whole_digits,
  parse_numbered_file, EntryStatus, is_untracked_sstable, cleanup_untracked_sstables,
  has_sstable_extension, is_untracked,
}
use lsmtree.Manifest.{is_removed}
use lsmtree.Manifest.Positions.{is_removed-In}
use lsmtree.Text.{Str}
use lsmtree.Text.Affix.{starts_with, ends_with, starts_with-append}
use lsmtree.Text.Decimal.{
  IsDigit, span_digits, stoull, to_string, stoull-to_string, to_string-IsDigit, length-to_string,
}

ends_with-append : (x s : Str) → ends_with (x ++ s) s ≡ true
unfolding ends_with
ends_with-append x s =
    let size = length-append x s in
    let short : ltb (length (x ++ s)) (length s) ≡ false = ground (arith, size) in
    let start : length (x ++ s) - length s ≡ length x = omega (arith, size) in
    let whole : starts_with s s ≡ true =
      subst (λ y. starts_with y s ≡ true) (append-nil s) (starts_with-append s []) in
    rw (short, start, drop-append x s) whole

span_digits-all : (ds : Str) → All IsDigit ds → span_digits ds ≡ (ds, [])
unfolding span_digits
span_digits-all [] a = refl
span_digits-all (d ∷ ds) a = rw (span_digits-all ds a.1, a.0) refl

whole_number-digits : (ds : Str) → All IsDigit ds → 0 < length ds → whole_number ds ≡ stoull ds
unfolding whole_number
whole_number-digits [] a h = absurd (omega (arith, h))
whole_number-digits (d ∷ ds) a h =
    let all = span_digits-all (d ∷ ds) a in
    let space : is_space d ≡ false = ground (arith, a.0) in
    let minus : (d == b'-') ≡ false = ground (arith, a.0) in
    let plus : (d == b'+') ≡ false = ground (arith, a.0) in
    rw (space, minus, plus) (ap whole_digits all)

-- A file's number is read back from its name.
pub parse_numbered_file-name :
    (prefix suffix : Str) (n : ℕ)
    → n < 2 ^ 64
    → parse_numbered_file (prefix ++ (to_string n ++ suffix)) prefix suffix ≡ some n
unfolding parse_numbered_file
parse_numbered_file-name prefix suffix n h =
    let digits = to_string n in
    let some_digit = length-to_string n in
    let size = length-append prefix (digits ++ suffix) in
    let size' = length-append digits suffix in
    let long : leb (length (prefix ++ (digits ++ suffix))) (length prefix + length suffix) ≡ false =
      ground (arith, size, size', some_digit) in
    let ends : ends_with (prefix ++ (digits ++ suffix)) suffix ≡ true =
      subst (λ x. ends_with x suffix ≡ true) (append_assoc prefix digits suffix)
        (ends_with-append (prefix ++ digits) suffix) in
    let cut : length (prefix ++ (digits ++ suffix)) - length prefix - length suffix
        ≡ length digits =
      omega (arith, size, size') in
    rw
      (
        long,
        starts_with-append prefix (digits ++ suffix),
        ends,
        cut,
        drop-append prefix (digits ++ suffix),
        take-append digits suffix,
      )
      (whole_number-digits digits (to_string-IsDigit n) some_digit ∙ stoull-to_string n h)

named_sstable : (n : ℕ) → has_sstable_extension (sstable_name n) ≡ true
named_sstable n =
    let digits = to_string n in
    let size = length-append digits sstable_suffix in
    let ends : ends_with (sstable_name n) sstable_suffix ≡ true =
      subst (λ x. ends_with x sstable_suffix ≡ true)
        (append_assoc sstable_prefix digits sstable_suffix)
        (ends_with-append (sstable_prefix ++ digits) sstable_suffix) in
    let long : ltb 4 (length (sstable_name n)) ≡ true = ground (arith, size) in rw (ends, long) refl

untracked_name :
    (active : List ℕ) (n : ℕ)
    → n < 2 ^ 64
    → is_untracked_sstable active (sstable_name n) ≡ not (is_removed active n)
untracked_name active n h =
    ap
      (λ b.
        b
        && is_untracked (parse_numbered_file (sstable_name n) sstable_prefix sstable_suffix) active)
      (named_sstable n)
    ∙ ap (λ x. is_untracked x active) (parse_numbered_file-name sstable_prefix sstable_suffix n h)

EntryStatus-cases :
    (x : EntryStatus)
    → (x ≡ EntryStatus.regular) ⊎ ((x ≡ EntryStatus.other) ⊎ (x ≡ EntryStatus.unknown))
EntryStatus-cases EntryStatus.regular = inl refl
EntryStatus-cases EntryStatus.other = inr (inl refl)
EntryStatus-cases EntryStatus.unknown = inr (inr refl)

regular-other : EntryStatus.regular ≢ EntryStatus.other
regular-other e = cc e

module _ (status : Str → EntryStatus) (removes : Str → Bool) (active : List ℕ) where
  removed_entry :
      (x : Str) (names : List Str)
      → In x (cleanup_untracked_sstables status removes active names).1
      → In x names × (status x ≡ EntryStatus.regular) × (is_untracked_sstable active x ≡ true)
  unfolding cleanup_untracked_sstables
  removed_entry x [] i = absurd i
  removed_entry x (name ∷ names) i =
      let ih = removed_entry x names in
      elim (EntryStatus-cases (status name)) [
        | inr (inr e) ↦ absurd (rw e at i)
        | inr (inl e) ↦ let (a, b, c) = ih (rw e at i) in (inr a, b, c)
        | inl e ↦ elim (Bool-cases (is_untracked_sstable active name)) [
          | inr f ↦ let (a, b, c) = ih (rw (e, f) at i) in (inr a, b, c)
          | inl f ↦ elim (Bool-cases (removes name)) [
            | inr g ↦ absurd (rw (e, f, g) at i)
            | inl g ↦ elim (rw (e, f, g) at i) [
              | inl same ↦ (inl same, ap status same ∙ e, ap (is_untracked_sstable active) same ∙ f)
              | inr j ↦ let (a, b, c) = ih j in (inr a, b, c)
            ]
          ]
        ]
      ]

  all_removed :
      (names : List Str)
      → ((x : Str) → In x names → status x ≢ EntryStatus.unknown)
      → ((x : Str) → In x names → removes x ≡ true)
      → (x : Str) → In x names
      → status x ≡ EntryStatus.regular
      → is_untracked_sstable active x ≡ true
      → In x (cleanup_untracked_sstables status removes active names).1
  unfolding cleanup_untracked_sstables
  all_removed [] known removed x i r u = absurd i
  all_removed (name ∷ names) known removed x i r u =
      let ih = all_removed names (λ y j. known y (inr j)) (λ y j. removed y (inr j)) x in
      elim (EntryStatus-cases (status name)) [
        | inr (inr e) ↦ absurd (known name (inl refl) e)
        | inr (inl e) ↦ rw e (elim i [
          | inl same ↦ absurd (regular-other (sym r ∙ ap status same ∙ e))
          | inr j ↦ ih j r u
        ])
        | inl e ↦ elim (Bool-cases (is_untracked_sstable active name)) [
          | inr f ↦
              rw (e, f)
                (elim i [
                  | inl same ↦
                      absurd (let g = ap (is_untracked_sstable active) same in cc (f, g, u))
                  | inr j ↦ ih j r u
                ])
          | inl f ↦
              rw (e, f, removed name (inl refl))
                (elim i [ inl same ↦ inl same | inr j ↦ inr (ih j r u) ])
        ]
      ]

-- Whatever the cleanup of the tables removes, and however it ends: of the names of a table with a
-- 64-bit number, it removes only those that the directory lists, whose status is a regular file, and
-- whose number is not active. So no table in use is removed.
pub removed-cleanup_untracked_sstables :
    (status : Str → EntryStatus) (removes : Str → Bool) (active : List ℕ) (names : List Str) (n : ℕ)
    → n < 2 ^ 64
    → In (sstable_name n) (cleanup_untracked_sstables status removes active names).1
    → In (sstable_name n) names × (status (sstable_name n) ≡ EntryStatus.regular) × ¬ In n active
removed-cleanup_untracked_sstables status removes active names n h i =
    let (listed, regular, untracked) =
      removed_entry status removes active (sstable_name n) names i in
    let absent = sym (untracked_name active n h) ∙ untracked in
    (listed, regular, λ m. let there = (is_removed-In active n).1 m in cc (absent, there))

-- Where the status of no entry is an error and every removal succeeds, the cleanup of the tables
-- removes, of the names of a table with a 64-bit number, every regular file of the directory whose
-- number is not active.
pub In-cleanup_untracked_sstables :
    (status : Str → EntryStatus) (removes : Str → Bool) (active : List ℕ) (names : List Str) (n : ℕ)
    → n < 2 ^ 64
    → ((x : Str) → In x names → status x ≢ EntryStatus.unknown)
    → ((x : Str) → In x names → removes x ≡ true)
    → In (sstable_name n) names
    → status (sstable_name n) ≡ EntryStatus.regular
    → ¬ In n active
    → In (sstable_name n) (cleanup_untracked_sstables status removes active names).1
In-cleanup_untracked_sstables status removes active names n h known removed listed regular absent =
    all_removed status removes active names known removed (sstable_name n) listed regular (
      untracked_name active n h ∙ elim (Bool-cases (is_removed active n)) [
        | inl e ↦ absurd (absent ((is_removed-In active n).0 e))
        | inr e ↦ rw e refl
      ])
