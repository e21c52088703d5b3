-- ===== src/Wal/Frames.antt =====
-- `validFrameAt`, `hasValidFrameAfter` and `WALParser`. The parser's position is kept as the part of
-- the content behind it; `last_good` counts the bytes before it.
use lsmtree.Base.{
  ℕ, zero, suc, ◌+◌, ◌-◌, List, [], ◌∷◌, ◌++◌, length, take, drop, ltb, leb, ◌==◌, ◌&&◌, ◌||◌, not,
  if◌then◌else◌, Bool, true, false, Option, none, some,
}
use lsmtree.Base.Checked.{Checked, ok, err, ◌>>=◌}
use lsmtree.Checksum.{crc32}
use lsmtree.Record.{Entry}
use lsmtree.Text.{Str}
use lsmtree.Text.Affix.{starts_with, ends_with}
use lsmtree.Text.Words.{read_value}
use lsmtree.Wal.{
  Corruption, frame_checksum, before_committed_batch, stuck, frame_magic, commit_magic,
  frame_metadata_size,
}
use lsmtree.Wal.Batch.{parse_batch}

-- The bytes behind the frame magic and the payload size.
abbrev pub after_size : Str → Str
after_size s = drop 8 (drop 4 s)

-- The test of the checksum and the commit marker at the end of a payload.
abbrev closes_frame : Str → Str → Option ℕ → Bool
closes_frame payload tail none = false
closes_frame payload tail (some stored) =
    starts_with (drop 4 tail) commit_magic && crc32 payload == stored

abbrev valid_payload : Str → Option ℕ → Bool
valid_payload s none = false
valid_payload s (some n) =
    if ltb (length s - frame_metadata_size) n
    then false
    else closes_frame (take n (after_size s)) (drop n (after_size s))
        (read_value 4 (drop n (after_size s)))

-- `validFrameAt`, of the content from `frameStart` on
unfoldable pub valid_frame_at : Str → Bool
valid_frame_at s =
    if ltb (length s) frame_metadata_size || not (starts_with s frame_magic)
    then false
    else valid_payload s (read_value 8 (drop 4 s))

-- `hasValidFrameAfter`, of the content from the search position on
unfoldable pub has_valid_frame_after : Str → Bool
has_valid_frame_after [] = false
has_valid_frame_after (c ∷ s) =
    let later = has_valid_frame_after s in
    if starts_with (c ∷ s) frame_magic && valid_frame_at (c ∷ s) then true else later

-- What the parser meets at a frame's start: nothing whole, a committed frame whose checksum does not
-- fit, or a payload and what follows its frame.
pub data Frame : Type 0 where
  incomplete bad_checksum : Frame
  frame : Str → Str → Frame

abbrev close_frame : Str → Str → Option ℕ → Frame
close_frame payload tail none = incomplete
close_frame payload tail (some stored) =
    if not (starts_with (drop 4 tail) commit_magic)
    then incomplete
    else if crc32 payload == stored
    then frame payload (drop 8 tail)
    else bad_checksum

abbrev read_payload : Str → Option ℕ → Frame
read_payload s none = incomplete
read_payload s (some n) =
    if ltb (length s - frame_metadata_size) n
    then incomplete
    else close_frame (take n (after_size s)) (drop n (after_size s))
        (read_value 4 (drop n (after_size s)))

-- The tests of one round of `WALParser::parse`.
unfoldable pub read_frame : Str → Frame
read_frame s =
    if ltb (length s) frame_metadata_size || not (starts_with s frame_magic)
    then incomplete
    else read_payload s (read_value 8 (drop 4 s))

-- The records, and `lastGoodOffset`.
abbrev pub Parsed : Type 0
Parsed = Checked Corruption (List (Str × Entry) × ℕ)

-- `incompleteTailOrCorruption`
unfoldable pub incomplete_tail_or_corruption : Str → List (Str × Entry) → ℕ → Parsed
incomplete_tail_or_corruption s records last_good =
    if (leb frame_metadata_size (length s) && ends_with s commit_magic)
      || has_valid_frame_after (drop 1 s)
    then err before_committed_batch
    else ok (records, last_good)

-- `WALParser::parse`. Each round takes a frame, so the length of the content is enough fuel.
unfoldable pub parse_frames : ℕ → Str → List (Str × Entry) → ℕ → Parsed
parse_frames fuel [] records last_good = ok (records, last_good)
parse_frames zero (c ∷ s) records last_good = err stuck
parse_frames (suc fuel) (c ∷ s) records last_good = elim (read_frame (c ∷ s)) [
  | incomplete ↦ incomplete_tail_or_corruption (c ∷ s) records last_good
  | bad_checksum ↦ err frame_checksum
  | frame payload rest ↦ parse_batch payload >>= λ batch.
      parse_frames fuel rest (records ++ batch) (last_good + (frame_metadata_size + length payload))
]

-- `MemTable::parseWALRecords`, of the content behind the header
unfoldable pub parse_wal_records : Str → ℕ → Parsed
parse_wal_records s last_good = parse_frames (length s) s [] last_good
