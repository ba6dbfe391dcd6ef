-- ===== src/Compute/AggregateNonce.antt =====
-- src/compute.rs: `aggregate_nonce`, which sums all the nonces in one multiplication, and
-- `intermediate`, which binds them one by one.
use wsts.Prelude.{
  ℕ, ◌≡◌, refl, sym, ap, ◌∙◌, some, List, [], ◌∷◌, ◌++◌, map, zip, flat_map, length, arith,
}
use mathlib.Core.Path.{ap₂, fun_ext}
use wsts.Curve.{Curve, Scalar, Point, Bytes, MultimultSucceeds, combination, ◌⊞◌, ◌⊙◌}
use wsts.Curve.Algebra.{one-smul, plus_assoc}
use wsts.Common.{PublicNonce}
use wsts.Compute.{
  id, binding, binding_compressed, bound, compress_nonce, intermediate, aggregate_nonce,
}
use wsts.Compute.Poly.{sum_points, intermediate-sum}

module _ ⦃c : Curve⦄ where
  compressed-bytes :
      (nonces : List PublicNonce)
      → flat_map (λ b. b.0 ++ b.1) (map compress_nonce nonces)
        ≡ flat_map (λ b. c.compress b.D ++ c.compress b.E) nonces
  compressed-bytes [] = refl
  compressed-bytes (n ∷ nonces) =
      ap (λ bs. (c.compress n.D ++ c.compress n.E) ++ bs) (compressed-bytes nonces)

  binding-compressed :
      (id : Scalar) (nonces : List PublicNonce) (msg : Bytes)
      → binding_compressed id (map compress_nonce nonces) msg ≡ binding id nonces msg
  unfolding binding_compressed binding
  binding-compressed id nonces msg = rw (compressed-bytes nonces) refl

  abbrev factors : (ℕ → Scalar) → List ℕ → List Scalar
  factors rho = flat_map λ i. c.of_u32 1 ∷ rho i ∷ []

  abbrev points : List PublicNonce → List Point
  points = flat_map λ n. n.D ∷ n.E ∷ []

  length-factors :
      (rho : ℕ → Scalar) (ids : List ℕ) (nonces : List PublicNonce)
      → length nonces ≡ length ids
      → length (factors rho ids) ≡ length (points nonces)
  length-factors rho [] [] h = refl
  length-factors rho [] (n ∷ nonces) h = absurd (omega arith)
  length-factors rho (i ∷ ids) [] h = absurd (omega arith)
  length-factors rho (i ∷ ids) (n ∷ nonces) h =
      omega (arith, length-factors rho ids nonces (omega arith))

  combination-bound :
      (rho : ℕ → Scalar) (ids : List ℕ) (nonces : List PublicNonce)
      → length nonces ≡ length ids
      → combination c.plus c.smul c.origin (factors rho ids) (points nonces)
        ≡ sum_points (map bound (zip nonces (map rho ids)))
  unfolding sum_points
  combination-bound rho [] [] h = refl
  combination-bound rho [] (n ∷ nonces) h = absurd (omega arith)
  combination-bound rho (i ∷ ids) [] h = absurd (omega arith)
  combination-bound rho (i ∷ ids) (n ∷ nonces) h =
      ap₂ (λ p q. p ⊞ (rho i ⊙ n.E ⊞ q)) (ap (λ a. a ⊙ n.D) c.of_u32_one ∙ one-smul n.D)
        (combination-bound rho ids nonces (omega arith))
      ∙ sym (plus_assoc n.D (rho i ⊙ n.E) (sum_points (map bound (zip nonces (map rho ids)))))

  -- Where the multiplication does not fail and there is a nonce for each party, `aggregate_nonce` is
  -- the sum of the bound nonces that `intermediate` returns.
  pub aggregate_nonce-intermediate :
      (works : MultimultSucceeds) (msg : Bytes) (ids : List ℕ) (nonces : List PublicNonce)
      → length nonces ≡ length ids
      → aggregate_nonce msg ids nonces ≡ some (intermediate msg ids nonces).1
  unfolding aggregate_nonce
  aggregate_nonce-intermediate works msg ids nonces h =
      found.1
      ∙ ap some (
          c.multimult-combination (factors compressed ids) (points nonces) lengths found.1
          ∙ combination-bound compressed ids nonces h
          ∙ ap (λ rho. sum_points (map bound (zip nonces (map rho ids))))
              (fun_ext λ i. binding-compressed (id i) nonces msg)
          ∙ sym (unfold intermediate in intermediate-sum msg ids nonces))
    where
      compressed : ℕ → Scalar
      compressed i = binding_compressed (id i) (map compress_nonce nonces) msg

      lengths : length (factors compressed ids) ≡ length (points nonces)
      lengths = length-factors compressed ids nonces h

      found : (p : Point) × (c.multimult (factors compressed ids) (points nonces) ≡ some p)
      found = works (factors compressed ids) (points nonces) lengths
