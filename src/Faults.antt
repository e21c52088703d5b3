-- ===== src/Faults.antt =====
-- The seam for injected failures, src/FaultInjection.cpp, and `writeAll` of src/utils.cpp on top of it.
-- A policy is what it does to its own state and what it decides.
use lsmtree.Base.{
  ℕ, suc, ◌+◌, ◌%◌, ◌^◌, ◌≤◌, ◌<◌, ◌≡◌, ◌∙◌, refl, sym, ap, subst, List, [], ◌∷◌, ◌++◌, All, length,
  take, drop, ◌==◌, ==_iff, if◌then◌else◌, Bool, true, false, Option, none, some, arith, Bool-cases,
  inl, inr, append_assoc, take-append-drop, length-drop,
}
use lsmtree.Text.{Str}

-- `enum class Op`
pub data Op : Type 0 where
  write fsync : Op

-- `errnoValue` of a `Decision`; 0 lets the call pass.
abbrev pub Decision : Type 0
Decision = ℕ

-- `Policy`, with the state of the closure
pub record Policy (S : Type 0) : Type 0 where
  pub decide : S → Op → ℕ → ℕ → Decision × S

abbrev pub is_op : Op → Op → Bool
is_op Op.write Op.write = true
is_op Op.write Op.fsync = false
is_op Op.fsync Op.write = false
is_op Op.fsync Op.fsync = true

-- `failNth`: the state counts the calls of the kind, in 32 bits.
unfoldable pub fail_nth : Op → ℕ → ℕ → Policy ℕ
fail_nth operation occurrence errno = record {
  decide = λ seen current fd size.
      let seen' = (seen + 1) % 2 ^ 32 in
      if is_op current operation
      then (if seen' == occurrence then errno else 0, seen')
      else (0, seen);
}

-- `failEvery`
unfoldable pub fail_every : Op → ℕ → Policy (Unit {0})
fail_every operation errno = record {
  decide = λ s current fd size. (if is_op current operation then errno else 0, s);
}

-- `consult`, of the installed policy
abbrev pub consult : {S : Type 0} → Option (Policy S) → S → Op → ℕ → ℕ → Decision × S
consult none s op fd size = (0, s)
consult (some p) s op fd size = p.decide s op fd size

-- What the system call answers.
pub data SysAnswer : Type 0 where
  count : ℕ → SysAnswer
  failed : ℕ → SysAnswer

-- `fault::write` and `fault::fsync`: the call's answer, unless the policy decides for an error
unfoldable pub call : {S : Type 0} → Option (Policy S) → S → Op → ℕ → ℕ → SysAnswer → SysAnswer × S
call policy s op fd size real =
    let (errno, s') = consult policy s op fd size in
    (if errno == 0 then real else SysAnswer.failed errno, s')

-- The state of a policy behind some calls.
unfoldable pub state_after : {S : Type 0} → Policy S → S → List Op → S
state_after p s [] = s
state_after p s (op ∷ ops) = state_after p (p.decide s op 0 0).1 ops

-- How many calls of the kind there are.
unfoldable pub count_op : Op → List Op → ℕ
count_op op [] = 0
count_op op (q ∷ ops) = let rest = count_op op ops in if is_op q op then suc rest else rest

-- `EINTR`
abbrev pub eintr : ℕ
eintr = 4

-- How `writeAll` ends: it returns, it throws, or it waits for another answer.
pub data Ending : Type 0 where
  returned thrown waiting : Ending

-- `writeAll`: what reaches the file, and how it ends. The answers are those of its calls of `write`.
unfoldable pub write_all : List SysAnswer → Str → Str × Ending
write_all answers [] = ([], Ending.returned)
write_all [] (b ∷ bytes) = ([], Ending.waiting)
write_all (SysAnswer.failed errno ∷ answers) (b ∷ bytes) =
    let again = write_all answers (b ∷ bytes) in
    if errno == eintr then again else ([], Ending.thrown)
write_all (SysAnswer.count n ∷ answers) (b ∷ bytes) =
    let rest = write_all answers (drop n (b ∷ bytes)) in
    if n == 0 then ([], Ending.thrown) else (take n (b ∷ bytes) ++ rest.0, rest.1)

state_of_fail_nth :
    (op : Op) (n errno seen : ℕ) (ops : List Op)
    → seen + count_op op ops < 2 ^ 32
    → state_after (fail_nth op n errno) seen ops ≡ seen + count_op op ops
unfolding state_after count_op fail_nth
state_of_fail_nth op n errno seen [] h = omega arith
state_of_fail_nth op n errno seen (q ∷ ops) h = elim (Bool-cases (is_op q op)) [
  | inl e ↦
      let count : count_op op (q ∷ ops) ≡ suc (count_op op ops) = unfold count_op in rw e refl in
      let step : (seen + 1) % 2 ^ 32 ≡ seen + 1 = omega (arith, h, count) in
      let next : state_after (fail_nth op n errno) (seen + 1) ops ≡ seen + 1 + count_op op ops =
        state_of_fail_nth op n errno (seen + 1) ops (omega (arith, h, count)) in
      rw (e, step) (omega (arith, next))
  | inr e ↦
      let count : count_op op (q ∷ ops) ≡ count_op op ops = unfold count_op in rw e refl in
      rw e (state_of_fail_nth op n errno seen ops (omega (arith, h, count)))
]

-- A policy that fails the nth call of a kind decides for the error on that call and on no other: behind
-- any calls, of which fewer than 2^32 - 1 are of the kind, the next call fails exactly if it is of the
-- kind and one less than `n` of the calls before it are.
pub fail_nth_lem :
    (op q : Op) (n errno fd size : ℕ) (ops : List Op)
    → count_op op ops + 1 < 2 ^ 32
    → ((fail_nth op n errno).decide (state_after (fail_nth op n errno) 0 ops) q fd size).0
      ≡ (if is_op q op then (if count_op op ops + 1 == n then errno else 0) else 0)
fail_nth_lem op q n errno fd size ops h =
    let seen : state_after (fail_nth op n errno) 0 ops ≡ count_op op ops =
      state_of_fail_nth op n errno 0 ops (omega (arith, h)) ∙ omega arith in
    let step : (count_op op ops + 1) % 2 ^ 32 ≡ count_op op ops + 1 = omega (arith, h) in
    subst
      (λ (m : ℕ).
        ((fail_nth op n errno).decide m q fd size).0
        ≡ (if is_op q op then (if count_op op ops + 1 == n then errno else 0) else 0))
      (sym seen)
      (unfold fail_nth in
        elim (Bool-cases (is_op q op)) [ inl e ↦ rw (e, step) refl | inr e ↦ rw e refl ])

-- An answer that brings `writeAll` on: some bytes are written, or the call was interrupted.
abbrev pub IsProgress : SysAnswer → Type 0
IsProgress (SysAnswer.count n) = 0 < n
IsProgress (SysAnswer.failed errno) = errno ≡ eintr

-- How many of the answers are not interruptions.
abbrev pub writes : List SysAnswer → ℕ
writes [] = 0
writes (SysAnswer.count n ∷ answers) = suc (writes answers)
writes (SysAnswer.failed errno ∷ answers) = writes answers

-- Whatever is answered, what reaches the file is a front of the bytes, and all of them where
-- `writeAll` returns.
pub write_all_front :
    (answers : List SysAnswer) (bytes : Str)
    → ((rest : Str) × ((write_all answers bytes).0 ++ rest ≡ bytes))
      × ((write_all answers bytes).1 ≡ Ending.returned → (write_all answers bytes).0 ≡ bytes)
unfolding write_all
write_all_front answers [] = (([], refl), λ e. refl)
write_all_front [] (b ∷ bytes) = ((b ∷ bytes, refl), λ e. cc)
write_all_front (SysAnswer.failed errno ∷ answers) (b ∷ bytes) =
    let (front, whole) = write_all_front answers (b ∷ bytes) in
    elim (Bool-cases (errno == eintr)) [
      | inl e ↦ rw e (front, whole)
      | inr e ↦ rw e ((b ∷ bytes, refl), λ e. cc)
    ]
write_all_front (SysAnswer.count n ∷ answers) (b ∷ bytes) =
    let (front, whole) = write_all_front answers (drop n (b ∷ bytes)) in
    let cut = take-append-drop n (b ∷ bytes) in
    elim (Bool-cases (n == 0)) [
      | inl e ↦ rw e ((b ∷ bytes, refl), λ e. cc)
      | inr e ↦ rw e (
        (
          front.0,
          append_assoc (take n (b ∷ bytes)) (write_all answers (drop n (b ∷ bytes))).0 front.0
              ∙ ap (◌++◌ (take n (b ∷ bytes))) front.1
              ∙ cut,
        ),
        λ e. ap (◌++◌ (take n (b ∷ bytes))) (whole e) ∙ cut,
      )
    ]

-- `writeAll` returns if no call fails otherwise than by an interruption, none writes nothing, and there
-- are as many writes as there are bytes.
pub write_all_returns :
    (answers : List SysAnswer) (bytes : Str)
    → All IsProgress answers
    → length bytes ≤ writes answers
    → (write_all answers bytes).1 ≡ Ending.returned
unfolding write_all
write_all_returns answers [] p h = refl
write_all_returns [] (b ∷ bytes) p h = absurd (omega (arith, h))
write_all_returns (SysAnswer.failed errno ∷ answers) (b ∷ bytes) p h =
    let again : (errno == eintr) ≡ true = (==_iff errno eintr).1 p.0 in
    rw again (write_all_returns answers (b ∷ bytes) p.1 h)
write_all_returns (SysAnswer.count n ∷ answers) (b ∷ bytes) p h =
    let some : (n == 0) ≡ false = ground (arith, p.0) in
    let less = length-drop n (b ∷ bytes) in
    rw some (write_all_returns answers (drop n (b ∷ bytes)) p.1 (omega (arith, less, h, p.0)))
