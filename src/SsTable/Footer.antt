-- ===== src/SsTable/Footer.antt =====
-- The footer of a table file: `readFooter`, `validateFooter` and `writeFooter` of src/SSTable.cpp.
use lsmtree.Base.{
  ℕ, ◌+◌, ◌-◌, ◌<◌, ◌^◌, ◌≡◌, ◌↔◌, refl, subst, [], ◌++◌, length, take, drop, ltb, ◌==◌, ◌||◌,
  if◌then◌else◌, false, arith, length-append, drop-append, append-nil,
}
use lsmtree.Base.Checked.{Checked, ok, err}
use lsmtree.Text.{Str}
use lsmtree.Text.Words.{
  le_bytes, le_number, length-le_bytes, le_number-le_bytes, take-le_bytes, drop-le_bytes,
}

pub record Footer : Type 0 where
  pub records_size : ℕ
  pub bloom_size : ℕ
  pub index_size : ℕ

-- The messages of the exceptions.
pub data FooterError : Type 0 where
  bad_footer bad_size bad_records_size bad_bloom_size bad_index_size : FooterError

abbrev pub footer_size : ℕ
footer_size = 24

-- `readFooter`, of a whole file
unfoldable pub read_footer : Str → Checked FooterError Footer
read_footer s =
    if ltb (length s) footer_size
    then err bad_footer
    else (let buffer = drop (length s - footer_size) s in
        ok (record {
          records_size = le_number (take 8 buffer);
          bloom_size = le_number (take 8 (drop 8 buffer));
          index_size = le_number (take 8 (drop 8 (drop 8 buffer)));
        }))

-- `validateFooter`
unfoldable pub validate_footer : Footer → ℕ → Checked FooterError (Unit {0})
validate_footer f file_size =
    let remaining = file_size - footer_size in
    if ltb file_size footer_size
    then err bad_size
    else if f.records_size == 0 || ltb remaining f.records_size
    then err bad_records_size
    else if ltb (remaining - f.records_size) f.bloom_size
    then err bad_bloom_size
    else if f.index_size == remaining - f.records_size - f.bloom_size
    then ok tt
    else err bad_index_size

-- `writeFooter`
unfoldable pub write_footer : Footer → Str
write_footer f = le_bytes 8 f.records_size ++ (le_bytes 8 f.bloom_size ++ le_bytes 8 f.index_size)

-- A footer is accepted exactly if there is a record and the three parts and the footer fill the file.
pub validate_footer-eq-ok :
    (f : Footer) (file_size : ℕ)
    → (validate_footer f file_size ≡ ok tt)
      ↔ ((0 < f.records_size) × (f.records_size + f.bloom_size + f.index_size + 24 ≡ file_size))
unfolding validate_footer
validate_footer-eq-ok f file_size = (λ e. ground arith, λ p. ground arith)

pub length-write_footer : (f : Footer) → length (write_footer f) ≡ 24
unfolding write_footer
length-write_footer f = omega (
  arith,
  length-append (le_bytes 8 f.records_size) (le_bytes 8 f.bloom_size ++ le_bytes 8 f.index_size),
  length-append (le_bytes 8 f.bloom_size) (le_bytes 8 f.index_size),
  length-le_bytes 8 f.records_size,
  length-le_bytes 8 f.bloom_size,
  length-le_bytes 8 f.index_size,
)

last_footer :
    (body : Str) (f : Footer)
    → drop (length (body ++ write_footer f) - 24) (body ++ write_footer f) ≡ write_footer f
last_footer body f =
    subst (λ (n : ℕ). drop n (body ++ write_footer f) ≡ write_footer f)
      (omega (arith, length-append body (write_footer f), length-write_footer f))
      (drop-append body (write_footer f))

-- A footer of 64-bit numbers at the end of a file is read back as it was written.
pub read_footer-write_footer :
    (body : Str) (f : Footer)
    → f.records_size < 2 ^ 64
    → f.bloom_size < 2 ^ 64
    → f.index_size < 2 ^ 64
    → read_footer (body ++ write_footer f) ≡ ok f
unfolding read_footer
read_footer-write_footer body f h k l =
    let long : ltb (length (body ++ write_footer f)) 24 ≡ false =
      ground (arith, length-append body (write_footer f), length-write_footer f) in
    rw (long, last_footer body f)
      (unfold write_footer in
        rw
          (
            take-le_bytes 8 f.records_size (le_bytes 8 f.bloom_size ++ le_bytes 8 f.index_size),
            drop-le_bytes 8 f.records_size (le_bytes 8 f.bloom_size ++ le_bytes 8 f.index_size),
            take-le_bytes 8 f.bloom_size (le_bytes 8 f.index_size),
            drop-le_bytes 8 f.bloom_size (le_bytes 8 f.index_size),
            ← append-nil (le_bytes 8 f.index_size),
            take-le_bytes 8 f.index_size [],
            le_number-le_bytes 8 f.records_size h,
            le_number-le_bytes 8 f.bloom_size k,
            le_number-le_bytes 8 f.index_size l,
          )
          refl)
