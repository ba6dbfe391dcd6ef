-- ===== src/Prelude/Run.antt =====
-- A method that takes `&mut self` and returns a `Result`: it leaves a state whatever the outcome.
use wsts.Prelude.Outcome.{Outcome, ok, err, panic}

abbrev pub Run : Type 0 → Type 0 → Type 0 → Type 0
Run S E A = S → S × Outcome E A

module _ {S E : Type 0} where
  abbrev pub after : {A B : Type 0} → (A → Run S E B) → S → Outcome E A → S × Outcome E B
  after f s (ok a) = f a s
  after f s (err e) = (s, err e)
  after f s panic = (s, panic)

  infixl 5 ◌>>=◌ ◌>>◌
  abbrev pub ◌>>=◌ : {A B : Type 0} → Run S E A → (A → Run S E B) → Run S E B
  ◌>>=◌ m f s = let r = m s in after f r.0 r.1

  abbrev pub ◌>>◌ : {A B : Type 0} → Run S E A → Run S E B → Run S E B
  m >> k = m >>= λ _. k

  abbrev pub pure : {A : Type 0} → A → Run S E A
  pure a s = (s, ok a)

  abbrev pub get : Run S E S
  get s = (s, ok s)

  abbrev pub modify : (S → S) → Run S E (Unit {0})
  modify f s = (f s, ok tt)

  -- Code that reads the state only.
  abbrev pub lift : {A : Type 0} → Outcome E A → Run S E A
  lift o s = (s, o)
