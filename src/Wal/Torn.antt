-- ===== src/Wal/Torn.antt =====
-- Recovery of a log whose last append did not finish.
use lsmtree.Base.{
  ℕ, zero, suc, ◌+◌, ◌-◌, ◌<◌, ◌≤◌, ◌≡◌, refl, ap, ◌∙◌, List, [], ◌∷◌, ◌++◌, length, drop, leb,
  Bool, true, false, arith, append-nil, ◌&&◌, All, replicate,
}
use lsmtree.Base.Checked.{ok, err}
use lsmtree.Record.{Record}
use lsmtree.Text.{Str}
use lsmtree.Text.Affix.{starts_with, ends_with}
use lsmtree.Wal.{encode_batch, encode_wal_frame, commit_magic, before_committed_batch}
use lsmtree.Wal.Frames.{
  parse_wal_records, has_valid_frame_after, valid_frame_at, incomplete_tail_or_corruption,
}
use lsmtree.Wal.FrameRoundTrip.{read_frame_torn, read_frame_zeros, has_valid_frame_after_zeros}
use lsmtree.Wal.Recovery.{
  FitsBatch, encode_log, entries_of, parse_wal_records-incomplete, parse_wal_records-encode_log,
}

-- The two tests by which the parser tells a torn tail from corruption.
abbrev pub ends_committed : Str → Bool
ends_committed tail = leb 20 (length tail) && ends_with tail commit_magic

-- A torn tail loses the batch that was being appended and nothing else.
pub recover_torn :
    (log : List (List Record)) (ops : List Record) (front back : Str) (b : ℕ)
    → All FitsBatch log
    → FitsBatch ops
    → encode_wal_frame (encode_batch ops) ≡ front ++ b ∷ back
    → ends_committed front ≡ false
    → has_valid_frame_after (drop 1 front) ≡ false
    → parse_wal_records (encode_log log ++ front) 5
      ≡ ok (entries_of log, 5 + length (encode_log log))
unfolding incomplete_tail_or_corruption
recover_torn log ops [] back b fits fit torn e v =
    ap (λ s. parse_wal_records s 5) (append-nil (encode_log log))
    ∙ parse_wal_records-encode_log log fits
recover_torn log ops (c ∷ front) back b fits fit torn e v =
    parse_wal_records-incomplete log c front fits
      (read_frame_torn (encode_batch ops) (c ∷ front) back b fit.payload torn)
    ∙ rw (e, v)

-- Where fewer bytes than a frame's metadata reached the file, the tests need not be assumed.
has_valid_frame_after_short : (s : Str) → length s < 20 → has_valid_frame_after s ≡ false
unfolding has_valid_frame_after valid_frame_at
has_valid_frame_after_short [] h = refl
has_valid_frame_after_short (c ∷ s) h = ground (arith, has_valid_frame_after_short s)

length-drop_one : (s : Str) → length (drop 1 s) ≤ length s
length-drop_one [] = omega arith
length-drop_one (c ∷ s) = omega arith

-- A log of whole frames that ends in fewer than 20 bytes of the next frame is read as if it ended
-- before them: every batch is recovered, and the offset is the end of the whole frames. The sizes of
-- the batches fit 64 bits.
pub recover_torn_short :
    (log : List (List Record)) (ops : List Record) (front back : Str) (b : ℕ)
    → All FitsBatch log
    → FitsBatch ops
    → encode_wal_frame (encode_batch ops) ≡ front ++ b ∷ back
    → length front < 20
    → parse_wal_records (encode_log log ++ front) 5
      ≡ ok (entries_of log, 5 + length (encode_log log))
recover_torn_short log ops front back b fits fit torn short =
    recover_torn log ops front back b fits fit torn (ground arith)
      (has_valid_frame_after_short (drop 1 front) (omega (arith, length-drop_one front)))

starts_with_zeros : (n : ℕ) → starts_with (replicate n 0) commit_magic ≡ false
unfolding starts_with
starts_with_zeros zero = refl
starts_with_zeros (suc n) = refl

drop-replicate : (k n : ℕ) → drop {A = ℕ} k (replicate n 0) ≡ replicate (n - k) 0
drop-replicate zero n = ap (λ m. replicate m 0) (omega arith)
drop-replicate (suc k) zero = ap (λ m. replicate m 0) {x = 0} (omega arith)
drop-replicate (suc k) (suc n) = drop-replicate k n ∙ ap (λ m. replicate m 0) (omega arith)

ends_with_zeros : (n : ℕ) → ends_with (replicate n 0) commit_magic ≡ false
unfolding ends_with
ends_with_zeros n =
    rw (drop-replicate (length {A = ℕ} (replicate n 0) - 4) n, starts_with_zeros) (ground arith)

-- A tail of zero bytes, which a file system may leave behind a log of whole frames, loses nothing.
-- The sizes of the batches fit 64 bits.
pub recover_zero_tail :
    (log : List (List Record)) (n : ℕ)
    → All FitsBatch log
    → parse_wal_records (encode_log log ++ replicate n 0) 5
      ≡ ok (entries_of log, 5 + length (encode_log log))
unfolding incomplete_tail_or_corruption
recover_zero_tail log zero fits =
    ap (λ s. parse_wal_records s 5) (append-nil (encode_log log))
    ∙ parse_wal_records-encode_log log fits
recover_zero_tail log (suc n) fits =
    parse_wal_records-incomplete log 0 (replicate n 0) fits (read_frame_zeros (suc n))
    ∙ rw (has_valid_frame_after_zeros n, ends_with_zeros (suc n)) (ground arith)

-- A torn append of 20 bytes or more whose last byte on disk ends the bytes "WCMT" is taken for
-- corruption: the whole log is refused, though every batch before it is whole. The sizes of the
-- batches fit 64 bits.
pub torn_marker_refused :
    (log : List (List Record)) (ops : List Record) (c : ℕ) (front back : Str) (b : ℕ)
    → All FitsBatch log
    → FitsBatch ops
    → encode_wal_frame (encode_batch ops) ≡ c ∷ front ++ b ∷ back
    → ends_committed (c ∷ front) ≡ true
    → parse_wal_records (encode_log log ++ c ∷ front) 5 ≡ err before_committed_batch
unfolding incomplete_tail_or_corruption
torn_marker_refused log ops c front back b fits fit torn e =
    parse_wal_records-incomplete log c front fits
      (read_frame_torn (encode_batch ops) (c ∷ front) back b fit.payload torn)
    ∙ rw e
