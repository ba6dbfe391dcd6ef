-- ===== src/Compute/Poly.antt =====
-- src/compute.rs: what `poly` and `intermediate` return.
use mathlib.Core.List.{foldl}
use wsts.Prelude.{
  ℕ, zero, suc, ◌≡◌, refl, sym, ap, ◌∙◌, List, [], ◌∷◌, length, zip, some, arith, length-map,
}
use wsts.Curve.{Curve, Scalar, Point, Bytes, MultimultSucceeds, combination, ◌⊗◌, ◌⊞◌, ◌⊙◌}
use wsts.Curve.Algebra.{
  smul-plus, mul-smul, one-smul, plus-origin, origin-plus, plus_assoc, smul-origin,
}
use wsts.Common.{PublicNonce}
use wsts.Compute.{poly, powers, powers_loop, intermediate, bound}
use wsts.Compute.Interpolation.{evaluate}

module _ ⦃c : Curve⦄ where
  length-powers : (n : ℕ) (x pow : Scalar) → length (powers_loop n x pow) ≡ n
  unfolding powers_loop
  length-powers zero x pow = refl
  length-powers (suc n) x pow = ap suc (length-powers n x (pow ⊗ x))

  combination-powers :
      (x pow : Scalar) (f : List Point)
      → combination c.plus c.smul c.origin (powers_loop (length f) x pow) f ≡ pow ⊙ evaluate x f
  unfolding powers_loop evaluate
  combination-powers x pow [] = sym (smul-origin pow)
  combination-powers x pow (p ∷ ps) =
      rw (combination-powers x (pow ⊗ x) ps, mul-smul pow x (evaluate x ps))
        (sym (smul-plus pow p (x ⊙ evaluate x ps)))

  -- If the multiplication succeeds, `poly` is the value of the polynomial.
  pub poly-evaluate :
      (x : Scalar) (f : List Point) {p : Point} → poly x f ≡ some p → p ≡ evaluate x f
  unfolding poly powers
  poly-evaluate x f h =
      c.multimult-combination (powers_loop (length f) x c.one) f (length-powers (length f) x c.one)
        h
      ∙ combination-powers x c.one f
      ∙ one-smul (evaluate x f)

  pub poly-total :
      MultimultSucceeds → (x : Scalar) (f : List Point) → poly x f ≡ some (evaluate x f)
  poly-total works x f = found.1 ∙ ap some (poly-evaluate x f found.1)
    where
      found : (p : Point) × (poly x f ≡ some p)
      found =
          unfold poly powers in
          works (powers_loop (length f) x c.one) f (length-powers (length f) x c.one)

  unfoldable pub sum_points : List Point → Point
  sum_points [] = c.origin
  sum_points (p ∷ ps) = p ⊞ sum_points ps

  foldl-sum_points :
      (acc : Point) (ps : List Point) → foldl (λ r r_i. r ⊞ r_i) acc ps ≡ acc ⊞ sum_points ps
  unfolding sum_points
  foldl-sum_points acc [] = sym (plus-origin acc)
  foldl-sum_points acc (p ∷ ps) = foldl-sum_points (acc ⊞ p) ps ∙ plus_assoc acc p (sum_points ps)

  -- The aggregate nonce is the sum of the bound nonces.
  pub intermediate-sum :
      (msg : Bytes) (ids : List ℕ) (nonces : List PublicNonce)
      → (intermediate msg ids nonces).1 ≡ sum_points (intermediate msg ids nonces).0
  unfolding intermediate
  intermediate-sum msg ids nonces = foldl-sum_points c.origin _ ∙ origin-plus _

  length-zip {ℓ κ} :
      {A : Type ℓ} {B : Type κ} (xs : List A) (ys : List B)
      → length xs ≡ length ys
      → length (zip xs ys) ≡ length ys
  length-zip [] [] h = refl
  length-zip [] (y ∷ ys) h = absurd (omega arith)
  length-zip (x ∷ xs) [] h = absurd (omega arith)
  length-zip (x ∷ xs) (y ∷ ys) h = ap suc (length-zip xs ys (omega arith))

  pub length-intermediate :
      (msg : Bytes) (ids : List ℕ) (nonces : List PublicNonce)
      → length nonces ≡ length ids
      → length (intermediate msg ids nonces).0 ≡ length ids
  unfolding intermediate
  length-intermediate msg ids nonces h =
      length-map _ bound ∙ length-zip nonces _ (h ∙ sym (length-map ids _)) ∙ length-map ids _
