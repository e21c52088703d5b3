-- ===== src/Wal/FrameRoundTrip.antt =====
-- What the parser meets at the start of a written frame, of a part of one, and of zero bytes.
use lsmtree.Base.{
  ℕ, zero, suc, ◌+◌, ◌-◌, ◌^◌, ◌<◌, ◌≤◌, ◌≡◌, refl, sym, ap, ◌∙◌, [], ◌∷◌, ◌++◌, length, take, drop,
  ltb, true, false, arith, append_assoc, append-nil, take-append, drop-append, length-append,
  ==-refl, some, replicate, length-drop, Bool-cases, inl, inr,
}
use lsmtree.Checksum.{crc32, crc32-bound}
use lsmtree.Text.{Str}
use lsmtree.Text.Affix.{starts_with, starts_with-append}
use lsmtree.Text.Words.{le_bytes, read_value, read_value-le_bytes, length-le_bytes, drop-le_bytes}
use lsmtree.Wal.{encode_wal_frame, frame_magic, commit_magic}
use lsmtree.Wal.Frames.{after_size, incomplete, frame, read_frame, has_valid_frame_after}

pub length-encode_wal_frame : (p : Str) → length (encode_wal_frame p) ≡ 20 + length p
unfolding encode_wal_frame
length-encode_wal_frame p =
    rw
      (
        length-append (le_bytes 8 (length p)),
        length-append p,
        length-append (le_bytes 4 (crc32 p)),
        length-le_bytes 8 (length p),
        length-le_bytes 4 (crc32 p),
      )
      (omega arith)

-- A frame and what follows it, bracketed to the right.
encode_wal_frame-append :
    (p rest : Str)
    → encode_wal_frame p ++ rest
      ≡ frame_magic
        ++ (le_bytes 8 (length p) ++ (p ++ (le_bytes 4 (crc32 p) ++ (commit_magic ++ rest))))
unfolding encode_wal_frame
encode_wal_frame-append p rest = simp append_assoc

after_checksum :
    (checksum rest : Str) → length checksum ≡ 4 → drop 8 (checksum ++ (commit_magic ++ rest)) ≡ rest
after_checksum (a ∷ b ∷ c ∷ d ∷ []) rest e = refl
after_checksum [] rest e = absurd (omega arith)
after_checksum (a ∷ []) rest e = absurd (omega arith)
after_checksum (a ∷ b ∷ []) rest e = absurd (omega arith)
after_checksum (a ∷ b ∷ c ∷ []) rest e = absurd (omega arith)
after_checksum (a ∷ b ∷ c ∷ d ∷ f ∷ g) rest e = absurd (omega arith)

module _ (p rest : Str) (fits : length p < 2 ^ 64) where
  long_enough : ltb (length (encode_wal_frame p ++ rest)) 20 ≡ false
  long_enough = ground (arith, length-append (encode_wal_frame p) rest, length-encode_wal_frame p)

  payload_in_bounds : ltb (length (encode_wal_frame p ++ rest) - 20) (length p) ≡ false
  payload_in_bounds =
      ground (arith, length-append (encode_wal_frame p) rest, length-encode_wal_frame p)

  has_magic : starts_with (encode_wal_frame p ++ rest) frame_magic ≡ true
  has_magic = rw encode_wal_frame-append (starts_with-append frame_magic _)

  size_field : read_value 8 (drop 4 (encode_wal_frame p ++ rest)) ≡ some (length p)
  size_field = rw encode_wal_frame-append (read_value-le_bytes 8 (length p) _ fits)

  body :
      after_size (encode_wal_frame p ++ rest)
      ≡ p ++ (le_bytes 4 (crc32 p) ++ (commit_magic ++ rest))
  body = rw encode_wal_frame-append (drop-le_bytes 8 (length p) _)

  -- A written frame with a payload shorter than 2^64 bytes is read whole, whatever follows it.
  pub read_frame-encode_wal_frame : read_frame (encode_wal_frame p ++ rest) ≡ frame p rest
  unfolding read_frame
  read_frame-encode_wal_frame = rw (
    long_enough,
    has_magic,
    size_field,
    payload_in_bounds,
    body,
    take-append p,
    drop-append p,
    read_value-le_bytes 4 (crc32 p) (commit_magic ++ rest) (crc32-bound p),
    drop-le_bytes 4 (crc32 p) (commit_magic ++ rest),
    starts_with-append commit_magic rest,
    ==-refl (crc32 p),
    after_checksum (le_bytes 4 (crc32 p)) rest (length-le_bytes 4 (crc32 p)),
  )

take-prefix : (w : ℕ) (s t : Str) → w ≤ length s → take w (s ++ t) ≡ take w s
take-prefix zero s t h = refl
take-prefix (suc w) [] t h = absurd (omega arith)
take-prefix (suc w) (c ∷ s) t h = ap (◌∷◌ c) (take-prefix w s t (omega arith))

drop-prefix : (k : ℕ) (s t : Str) → k ≤ length s → drop k (s ++ t) ≡ drop k s ++ t
drop-prefix zero s t h = refl
drop-prefix (suc k) [] t h = absurd (omega arith)
drop-prefix (suc k) (c ∷ s) t h = drop-prefix k s t (omega arith)

-- A field inside the front of a content reads the same in the whole content.
read_value-prefix :
    (w k : ℕ) (s t : Str)
    → k + w ≤ length s
    → read_value w (drop k (s ++ t)) ≡ read_value w (drop k s)
unfolding read_value
read_value-prefix w k s t h =
    rw
      (drop-prefix k s t (omega arith), take-prefix w (drop k s) t (omega (arith, length-drop k s)))
      (ground (arith, length-append (drop k s) t, length-drop k s))

module _ (p front back : Str) (b : ℕ) (fits : length p < 2 ^ 64)
    (torn : encode_wal_frame p ≡ front ++ b ∷ back) where
  front_size : length front < 20 + length p
  front_size =
      omega (arith, ap length torn, length-encode_wal_frame p, length-append front (b ∷ back))

  front_size_field : 20 ≤ length front → read_value 8 (drop 4 front) ≡ some (length p)
  front_size_field h =
      sym (read_value-prefix 8 4 front (b ∷ back) (omega arith))
      ∙ ap (λ t. read_value 8 (drop 4 t)) (sym torn ∙ sym (append-nil (encode_wal_frame p)))
      ∙ size_field p [] fits

  -- A proper front of a frame, with a payload shorter than 2^64 bytes, is never taken for a whole
  -- frame.
  pub read_frame_torn : read_frame front ≡ incomplete
  unfolding read_frame
  read_frame_torn = elim (Bool-cases (ltb (length front) 20)) [
    | inl short ↦ rw short
    | inr long ↦ rw (long, front_size_field (ground arith)) (ground (arith, front_size))
  ]

-- Zero bytes are no frame, and no frame begins among them.
pub read_frame_zeros : (n : ℕ) → read_frame (replicate n 0) ≡ incomplete
unfolding read_frame starts_with
read_frame_zeros zero = refl
read_frame_zeros (suc n) = ground arith

pub has_valid_frame_after_zeros : (n : ℕ) → has_valid_frame_after (replicate n 0) ≡ false
unfolding has_valid_frame_after starts_with
has_valid_frame_after_zeros zero = refl
has_valid_frame_after_zeros (suc n) = has_valid_frame_after_zeros n
