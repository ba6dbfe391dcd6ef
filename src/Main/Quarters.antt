-- ===== src/Main/Quarters.antt =====
-- src/main.rs: the signers that sign, and the other numbers of a run.
use wsts.Prelude.{
  ℕ, zero, suc, ◌*◌, ◌^◌, ◌≤◌, ◌<◌, ◌≡◌, refl, ap, some, List, [], ◌∷◌, ◌++◌, length, replicate,
  take, arith,
}
use wsts.Curve.{Curve}
use wsts.Compute.Lagrange.{Apart, Distinct}
use wsts.Main.{num_signing, slice, divides}

pub num_signing-le : (k : ℕ) → k * 3 < 2 ^ 32 → num_signing k ≤ k
num_signing-le k h = omega (arith, h)

pub slice-take : {A : Type 0} (j : ℕ) (xs : List A) → j ≤ length xs → slice j xs ≡ some (take j xs)
slice-take j xs h = ground (arith, h)

pub divides-pos : (n : ℕ) → 0 < n → divides n ≡ some tt
divides-pos zero h = absurd (omega (arith, h))
divides-pos (suc n) h = refl

pub length-replicate : (k m : ℕ) → length (replicate k m) ≡ k
length-replicate zero m = refl
length-replicate (suc k) m = ap suc (length-replicate k m)

module _ ⦃c : Curve⦄ where
  Apart-left : (i : ℕ) (xs ys : List ℕ) → Apart i (xs ++ ys) → Apart i xs
  Apart-left i [] ys h = tt
  Apart-left i (x ∷ xs) ys (a, h) = (a, Apart-left i xs ys h)

  pub Distinct-left : (xs ys : List ℕ) → Distinct (xs ++ ys) → Distinct xs
  Distinct-left [] ys h = tt
  Distinct-left (x ∷ xs) ys (a, h) = (Apart-left x xs ys a, Distinct-left xs ys h)
