-- ===== src/V1/GroupKey.antt =====
-- src/v1.rs: the keys that `compute_secret` leaves, and the polynomial that `Aggregator::init` stores.
use wsts.Prelude.{
  ℕ, zero, suc, ◌+◌, ◌≡◌, refl, sym, ap, ◌∙◌, Option, some, none, List, [], ◌∷◌, get_elem?, drop,
  drop-get, drop-length, Option-cases, inl, inr, arith,
}
use mathlib.Core.Path.{ap₂, subst}
use wsts.Prelude.Outcome.{Outcome, ok, err, panic}
use wsts.Curve.{Curve, Scalar, Point, ◌⊞◌, ◌⊙◌}
use wsts.Curve.Algebra.{module_laws, origin-plus, smul-origin}
use wsts.Common.{PolyCommitment}
use wsts.Compute.Interpolation.{evaluate}
use wsts.Errors.{AggregatorError}
use wsts.V1.Aggregator.{Aggregator, column, columns, group_poly}
use wsts.V1.Batch.{AllLength}
use wsts.V1.BatchSum.{values_sum}

zero_plus : (n : ℕ) → n ≡ 0 + n
zero_plus n = omega arith

plus_zero : (n : ℕ) → n + 0 ≡ n
plus_zero n = omega arith

plus_suc : (m n : ℕ) → m + suc n ≡ suc m + n
plus_suc m n = omega arith

module _ ⦃c : Curve⦄ where
  pub group_poly-columns :
      (self : Aggregator) (comms : List PolyCommitment) (poly : List Point)
      → group_poly self comms ≡ ok poly
      → columns 0 self.threshold comms ≡ ok poly
  unfolding group_poly
  group_poly-columns self comms poly h = ground (arith, h)

  -- The sum of the values at `x` of the polynomials without their first coefficients.
  abbrev tails_sum : Scalar → ℕ → List PolyCommitment → Point
  tails_sum x i [] = c.origin
  tails_sum x i (comm ∷ comms) = evaluate x (drop i comm.poly) ⊞ tails_sum x i comms

  apart_left : (x : Scalar) (p e t : Point) → p ⊞ x ⊙ (e ⊞ t) ≡ x ⊙ e ⊞ (p ⊞ x ⊙ t)
  apart_left x p e t = simp module_laws

  apart_right : (x : Scalar) (acc a e t : Point) → x ⊙ e ⊞ ((acc ⊞ a) ⊞ t) ≡ acc ⊞ ((a ⊞ x ⊙ e) ⊞ t)
  apart_right x acc a e t = simp module_laws

  column-tails :
      (x : Scalar) (i : ℕ) (comms : List PolyCommitment) (acc p : Point)
      → column i comms acc ≡ some p
      → p ⊞ x ⊙ tails_sum x (suc i) comms ≡ acc ⊞ tails_sum x i comms
  unfolding column evaluate
  column-tails x i [] acc p h = ap₂ (λ a b. a ⊞ b) (cc h) (smul-origin x)
  column-tails x i (comm ∷ comms) acc p h = elim (Option-cases (get_elem? comm.poly i)) [
    | inl e ↦ absurd (ground (arith, h, e))
    | inr (a, e) ↦
        apart_left x p (evaluate x (drop (suc i) comm.poly)) (tails_sum x (suc i) comms)
        ∙ ap (λ q. x ⊙ evaluate x (drop (suc i) comm.poly) ⊞ q)
            (column-tails x i comms (acc ⊞ a) p (rw (column, e) at h))
        ∙ apart_right x acc a (evaluate x (drop (suc i) comm.poly)) (tails_sum x i comms)
        ∙ ap (λ f. acc ⊞ (evaluate x f ⊞ tails_sum x i comms)) (sym (drop-get i comm.poly a e))
  ]

  tails-end :
      (x : Scalar) (i : ℕ) (comms : List PolyCommitment)
      → AllLength i comms
      → tails_sum x i comms ≡ c.origin
  unfolding evaluate
  tails-end x i [] all = refl
  tails-end x i (comm ∷ comms) (l, all) =
      ap₂ (λ f t. evaluate x f ⊞ t) (ap (λ n. drop n comm.poly) (sym l) ∙ drop-length comm.poly)
        (tails-end x i comms all)
      ∙ origin-plus c.origin

  pub columns-split :
      (i n : ℕ) (comms : List PolyCommitment) (poly : List Point)
      → columns i (suc n) comms ≡ ok poly
      → (p : Point) × (ps : List Point) × (column i comms c.origin ≡ some p)
        × (columns (suc i) n comms ≡ ok ps)
        × (poly ≡ p ∷ ps)
  unfolding columns
  columns-split i n comms poly h =
      by_results (column i comms c.origin) refl (columns (suc i) n comms) refl
    where
      by_results :
          (o : Option Point)
          → column i comms c.origin ≡ o
          → (r : Outcome AggregatorError (List Point)) → columns (suc i) n comms ≡ r
          → (p : Point) × (ps : List Point) × (column i comms c.origin ≡ some p)
            × (columns (suc i) n comms ≡ ok ps)
            × (poly ≡ p ∷ ps)
      by_results none e r f = absurd (ground (arith, h, e))
      by_results (some p) e (ok ps) f = (p, ps, e, f, ground (arith, h, e, f))
      by_results (some p) e (err x) f = absurd (ground (arith, h, e, f))
      by_results (some p) e panic f = absurd (ground (arith, h, e, f))

  nil_of :
      (i : ℕ) (comms : List PolyCommitment) (poly : List Point)
      → columns i 0 comms ≡ ok poly
      → poly ≡ []
  unfolding columns
  nil_of i comms poly h = ground (arith, h)

  columns-tails :
      (x : Scalar) (i n : ℕ) (comms : List PolyCommitment) (poly : List Point)
      → AllLength (i + n) comms
      → columns i n comms ≡ ok poly
      → evaluate x poly ≡ tails_sum x i comms
  unfolding evaluate
  columns-tails x i zero comms poly all h =
      ap (evaluate x) (nil_of i comms poly h)
      ∙ sym (tails-end x i comms (subst (λ m. AllLength m comms) (plus_zero i) all))
  columns-tails x i (suc n) comms poly all h =
      let (p, ps, e, f, g) = columns-split i n comms poly h in
      ap (evaluate x) g
      ∙ ap (λ q. p ⊞ x ⊙ q)
          (columns-tails x (suc i) n comms ps (subst (λ m. AllLength m comms) (plus_suc i n) all) f)
      ∙ column-tails x i comms c.origin p e
      ∙ origin-plus (tails_sum x i comms)

  tails-values :
      (x : Scalar) (comms : List PolyCommitment) → tails_sum x 0 comms ≡ values_sum x comms
  unfolding values_sum
  tails-values x [] = refl
  tails-values x (comm ∷ comms) = ap (λ q. evaluate x comm.poly ⊞ q) (tails-values x comms)

  pub columns-values :
      (t : ℕ) (comms : List PolyCommitment) (poly : List Point) (x : Scalar)
      → AllLength t comms
      → columns 0 t comms ≡ ok poly
      → evaluate x poly ≡ values_sum x comms
  columns-values t comms poly x all h =
      columns-tails x 0 t comms poly (subst (λ m. AllLength m comms) (zero_plus t) all) h
      ∙ tails-values x comms

  -- The polynomial that `init` makes of commitments that all have as many points as its threshold
  -- says takes at every place the sum of their values.
  pub group_poly-values :
      (self : Aggregator) (comms : List PolyCommitment) (poly : List Point) (x : Scalar)
      → AllLength self.threshold comms
      → group_poly self comms ≡ ok poly
      → evaluate x poly ≡ values_sum x comms
  group_poly-values self comms poly x all h =
      columns-values self.threshold comms poly x all (group_poly-columns self comms poly h)
