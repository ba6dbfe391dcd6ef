-- ===== src/Prelude/Outcome.antt =====
-- The result of code that returns a `Result` and may panic. `panic` stands for an index out of
-- range, a missing key, and an `unwrap` or `expect` that fails.
use mathlib.Core.Bool.{Bool}
use mathlib.Core.Option.{Option, none, some}
use mathlib.Core.List.{List, [], ◌∷◌}
use wsts.Prelude.Tests.{if◌then◌else◌}

pub data Outcome (E A : Type 0) : Type 0 where
  ok : A → Outcome E A
  err : E → Outcome E A
  panic : Outcome E A

module _ {E : Type 0} where
  infixl 5 ◌>>=◌ ◌>>◌
  abbrev pub ◌>>=◌ : {A B : Type 0} → Outcome E A → (A → Outcome E B) → Outcome E B
  ok a >>= f = f a
  err e >>= f = err e
  panic >>= f = panic

  abbrev pub ◌>>◌ : {A B : Type 0} → Outcome E A → Outcome E B → Outcome E B
  m >> k = m >>= λ _. k

  -- The value of an expression that may panic.
  abbrev pub value : {A : Type 0} → Option A → Outcome E A
  value none = panic
  value (some a) = ok a

  -- An early return of an error unless the test passes.
  abbrev pub require : Bool → E → Outcome E (Unit {0})
  require b e = if b then ok tt else err e

  -- The items that a test which may fail or panic selects.
  abbrev pub try_filter : {A : Type 0} → (A → Outcome E Bool) → List A → Outcome E (List A)
  try_filter p [] = ok []
  try_filter p (x ∷ xs) = do
    keep ← p x
    rest ← try_filter p xs
    ok (if keep then x ∷ rest else rest)
