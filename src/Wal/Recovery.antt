-- ===== src/Wal/Recovery.antt =====
-- Recovery of a log: whole frames, and what follows the last of them.
use lsmtree.Base.{
  ℕ, zero, suc, ◌+◌, ◌-◌, ◌^◌, ◌<◌, ◌≤◌, ◌≡◌, refl, sym, ap, ◌∙◌, List, [], ◌∷◌, ◌++◌, length,
  arith, append_assoc, append-nil, length-append, map, All,
}
use mathlib.Core.Path.{ap₂}
use native.Mathlib.Nat.{zero-add, add-zero, suc-add}
use lsmtree.Base.Checked.{ok, ◌>>=◌}
use lsmtree.Record.{Record, Entry}
use lsmtree.Text.{Str}
use lsmtree.Wal.{encode_batch, encode_wal_frame, entry_of}
use lsmtree.Wal.Batch.{parse_batch}
use lsmtree.Wal.BatchRoundTrip.{FitsWal, parse_batch-encode_batch}
use lsmtree.Wal.Frames.{
  frame, incomplete, read_frame, parse_frames, parse_wal_records, incomplete_tail_or_corruption,
}
use lsmtree.Wal.FrameRoundTrip.{read_frame-encode_wal_frame, length-encode_wal_frame}

-- What the log of these batches holds behind its header.
unfoldable pub encode_log : List (List Record) → Str
encode_log [] = []
encode_log (ops ∷ log) = encode_wal_frame (encode_batch ops) ++ encode_log log

-- What the batches put in memory, in order.
unfoldable pub entries_of : List (List Record) → List (Str × Entry)
entries_of [] = []
entries_of (ops ∷ log) = map entry_of ops ++ entries_of log

-- All sizes of a batch are 64-bit numbers.
pub record FitsBatch (ops : List Record) : Type 0 where
  pub few : length ops < 2 ^ 64
  pub records : All FitsWal ops
  pub payload : length (encode_batch ops) < 2 ^ 64

parse_frames-empty :
    (fuel : ℕ) (records : List (Str × Entry)) (last_good : ℕ)
    → parse_frames fuel [] records last_good ≡ ok (records, last_good)
unfolding parse_frames
parse_frames-empty zero records last_good = refl
parse_frames-empty (suc fuel) records last_good = refl

-- One round, on content that begins with a frame.
parse_frames-frame :
    (fuel : ℕ) (s payload rest : Str) (records : List (Str × Entry)) (last_good : ℕ)
    → 0 < length s
    → read_frame s ≡ frame payload rest
    → parse_frames (suc fuel) s records last_good ≡ (
        parse_batch payload >>= λ batch.
        parse_frames fuel rest (records ++ batch) (last_good + (20 + length payload)))
unfolding parse_frames
parse_frames-frame fuel [] payload rest records last_good h e = absurd (omega arith)
parse_frames-frame fuel (c ∷ s) payload rest records last_good h e = rw (e, parse_frames)

parse_frames-incomplete :
    (fuel : ℕ) (s : Str) (records : List (Str × Entry)) (last_good : ℕ)
    → 0 < length s
    → read_frame s ≡ incomplete
    → parse_frames (suc fuel) s records last_good
      ≡ incomplete_tail_or_corruption s records last_good
unfolding parse_frames
parse_frames-incomplete fuel [] records last_good h e = absurd (omega arith)
parse_frames-incomplete fuel (c ∷ s) records last_good h e = rw (e, parse_frames)

frame_begins : (p rest : Str) → 0 < length (encode_wal_frame p ++ rest)
frame_begins p rest =
    omega (arith, length-append (encode_wal_frame p) rest, length-encode_wal_frame p)

-- The whole frames at the front of a log are taken one by one.
parse_frames-encode_log :
    (log : List (List Record)) (tail : Str) (fuel : ℕ) (records : List (Str × Entry))
    (last_good : ℕ)
    → All FitsBatch log
    → parse_frames (length log + fuel) (encode_log log ++ tail) records last_good
      ≡ parse_frames fuel tail (records ++ entries_of log) (last_good + length (encode_log log))
unfolding encode_log entries_of
parse_frames-encode_log [] tail fuel records last_good fits = simp (append-nil, zero-add, add-zero)
parse_frames-encode_log (ops ∷ log) tail fuel records last_good fits =
    rw
      (
        append_assoc (encode_wal_frame (encode_batch ops)) (encode_log log) tail,
        suc-add (length log) fuel,
        parse_frames-frame (length log + fuel) _ (encode_batch ops) (encode_log log ++ tail) records
            last_good (frame_begins (encode_batch ops) (encode_log log ++ tail))
            (read_frame-encode_wal_frame (encode_batch ops) (encode_log log ++ tail)
              fits.0.payload),
        parse_batch-encode_batch ops fits.0.few fits.0.records,
      )
      (parse_frames-encode_log log tail fuel (records ++ map entry_of ops)
          (last_good + (20 + length (encode_batch ops))) fits.1
        ∙ ap₂ (λ rs n. parse_frames fuel tail rs n)
            (append_assoc records (map entry_of ops) (entries_of log))
            (omega (
              arith,
              length-append (encode_wal_frame (encode_batch ops)) (encode_log log),
              length-encode_wal_frame (encode_batch ops),
            )))

length-encode_log : (log : List (List Record)) → length log ≤ length (encode_log log)
unfolding encode_log
length-encode_log [] = omega arith
length-encode_log (ops ∷ log) = omega (
  arith,
  length-encode_log log,
  length-append (encode_wal_frame (encode_batch ops)) (encode_log log),
  length-encode_wal_frame (encode_batch ops),
)

-- The fuel that is left when the whole frames have been taken.
fuel_left : List (List Record) → Str → ℕ
fuel_left log tail = length (encode_log log) - length log + length tail

parse_wal_records-tail :
    (log : List (List Record)) (tail : Str)
    → All FitsBatch log
    → parse_wal_records (encode_log log ++ tail) 5
      ≡ parse_frames (fuel_left log tail) tail (entries_of log) (5 + length (encode_log log))
unfolding parse_wal_records fuel_left
parse_wal_records-tail log tail fits =
    ap (λ f. parse_frames f (encode_log log ++ tail) [] 5)
      (omega (arith, length-append (encode_log log) tail, length-encode_log log))
    ∙ parse_frames-encode_log log tail (fuel_left log tail) [] 5 fits

-- A log of whole frames, of batches whose sizes fit 64 bits, is read to its end, and every batch in
-- it is recovered.
pub parse_wal_records-encode_log :
    (log : List (List Record))
    → All FitsBatch log
    → parse_wal_records (encode_log log) 5 ≡ ok (entries_of log, 5 + length (encode_log log))
parse_wal_records-encode_log log fits =
    ap (λ s. parse_wal_records s 5) (sym (append-nil (encode_log log)))
    ∙ parse_wal_records-tail log [] fits
    ∙ parse_frames-empty _ _ _

pub parse_wal_records-incomplete :
    (log : List (List Record)) (c : ℕ) (tail : Str)
    → All FitsBatch log
    → read_frame (c ∷ tail) ≡ incomplete
    → parse_wal_records (encode_log log ++ c ∷ tail) 5
      ≡ incomplete_tail_or_corruption (c ∷ tail) (entries_of log) (5 + length (encode_log log))
unfolding fuel_left
parse_wal_records-incomplete log c tail fits e =
    parse_wal_records-tail log (c ∷ tail) fits
    ∙ ap (λ f. parse_frames f (c ∷ tail) (entries_of log) (5 + length (encode_log log)))
        (omega arith)
    ∙ parse_frames-incomplete (length (encode_log log) - length log + length tail) (c ∷ tail)
        (entries_of log) (5 + length (encode_log log)) (omega arith) e
