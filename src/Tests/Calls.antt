-- ===== src/Tests/Calls.antt =====
-- Tests of the injected failures, and of writes to a file.
use lsmtree.Base.{◌≡◌, refl, List, [], ◌∷◌, ◌++◌, arith, if◌then◌else◌, ◌+◌, ◌==◌, ◌<◌, ◌^◌}
use lsmtree.Faults.{
  Op, SysAnswer, Ending, is_op, fail_nth, state_after, count_op, eintr, write_all, fail_nth_lem,
  write_all_front, write_all_returns,
}
use lsmtree.Text.{Str}

-- Two writes around an fsync.
abbrev calls : List Op
calls = Op.write ∷ Op.fsync ∷ Op.write ∷ []

two_writes : count_op Op.write calls + 1 < 2 ^ 32
unfolding count_op
two_writes = omega arith

-- The third write fails with errno 5.
fail_nth_lem_example :
    ((fail_nth Op.write 3 5).decide (state_after (fail_nth Op.write 3 5) 0 calls) Op.write 7 100).0
    ≡ (if is_op Op.write Op.write then (if count_op Op.write calls + 1 == 3 then 5 else 0) else 0)
fail_nth_lem_example = fail_nth_lem Op.write Op.write 3 5 7 100 calls two_writes

abbrev abc : Str
abc = b'a' ∷ b'b' ∷ b'c' ∷ []

-- An interruption, and a write of two of three bytes.
abbrev answers : List SysAnswer
answers = SysAnswer.failed eintr ∷ SysAnswer.count 2 ∷ SysAnswer.count 1 ∷ SysAnswer.count 1 ∷ []

write_all_front_example :
    ((rest : Str) × ((write_all answers abc).0 ++ rest ≡ abc))
    × ((write_all answers abc).1 ≡ Ending.returned → (write_all answers abc).0 ≡ abc)
write_all_front_example = write_all_front answers abc

write_all_returns_example : (write_all answers abc).1 ≡ Ending.returned
write_all_returns_example =
    write_all_returns answers abc (refl, (omega arith, (omega arith, (omega arith, tt))))
      (omega arith)
