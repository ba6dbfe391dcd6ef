-- ===== src/Vss.antt =====
-- src/vss.rs.
use wsts.Prelude.{ℕ, zero, suc, ◌+◌, ◌%◌, ◌^◌, List, [], ◌∷◌}
use wsts.Curve.{Curve, Scalar, Polynomial, Rng}

module _ ⦃c : Curve⦄ where
  random_scalars : ℕ → Rng → List Scalar × Rng
  random_scalars zero rng = ([], rng)
  random_scalars (suc n) rng =
      let (s, rng') = c.random rng in let (ss, rng'') = random_scalars n rng' in (s ∷ ss, rng'')

  unfoldable pub random_poly : ℕ → Rng → Polynomial × Rng
  unfolding random_scalars
  random_poly n rng =
      let (params, rng') = random_scalars ((n + 1) % 2 ^ 32) rng in (c.polynomial params, rng')
