-- ===== src/Schnorr.antt =====
-- src/schnorr.rs: an ID with a Schnorr proof that its owner knows the logarithm of a point.
use wsts.Prelude.{Bool, true, false, ◌++◌, ite}
use wsts.Curve.{Curve, Scalar, Point, Rng, G, ◌⊕◌, ◌⊗◌, ◌⊞◌, ◌⊙◌}
use wsts.Util.{hash_to_scalar}

module _ ⦃c : Curve⦄ where
  pub record SchnorrId : Type 0 where
    pub id : Scalar
    pub k_g : Point
    pub kca : Scalar

  unfoldable pub challenge : Scalar → Point → Point → Scalar
  challenge id k a = hash_to_scalar (c.to_bytes id ++ c.compress k ++ c.compress a)

  unfoldable pub new : Scalar → Scalar → Rng → SchnorrId × Rng
  unfolding challenge
  new id a rng =
      let (k, rng') = c.random rng in
      let h = challenge id (k ⊙ G) (a ⊙ G) in
      (record { id = id; k_g = k ⊙ G; kca = k ⊕ h ⊗ a }, rng')

  unfoldable pub verify : SchnorrId → Point → Bool
  unfolding challenge
  verify proof a =
      let h = challenge proof.id proof.k_g a in
      ite (c.point_discrete (proof.kca ⊙ G) (proof.k_g ⊞ h ⊙ a)) true false
