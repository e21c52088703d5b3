-- ===== src/Base/Checked.antt =====
-- Results of code that may throw: a value, or what was thrown.
use mathlib.Core.Bool.{Bool, true, false}
use mathlib.Core.Option.{Option, none, some}

pub data Checked (E : Type 0) (A : Type 0) : Type 0 where
  ok : A → Checked E A
  err : E → Checked E A

-- The value of an option, or the error that stands for its absence.
abbrev pub or_throw : {E A : Type 0} → Option A → E → Checked E A
or_throw none e = err e
or_throw (some a) e = ok a

-- `if (!test) throw e;`
abbrev pub require : {E : Type 0} → Bool → E → Checked E (Unit {0})
require false e = err e
require true e = ok tt

-- What was thrown first is what the whole throws.
infixl 5 ◌>>=◌ ◌>>◌
abbrev pub ◌>>=◌ : {E A B : Type 0} → Checked E A → (A → Checked E B) → Checked E B
err e >>= f = err e
ok a >>= f = f a

abbrev pub ◌>>◌ : {E B : Type 0} → Checked E (Unit {0}) → Checked E B → Checked E B
err e >> k = err e
ok u >> k = k
