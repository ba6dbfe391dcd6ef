-- ===== src/Common/Verify.antt =====
-- src/common.rs: `Signature::verify`.
use wsts.Prelude.{Bool, true, false, ite}
use wsts.Curve.{Curve, Point, Bytes, G, ◌⊞◌, ◌⊙◌}
use wsts.Common.{Signature}
use wsts.Compute.{challenge}

module _ ⦃c : Curve⦄ where
  unfoldable pub verify : Signature → Point → Bytes → Bool
  verify sig public_key msg =
      let h = challenge public_key sig.R msg in
      let r = sig.z ⊙ G ⊞ c.neg h ⊙ public_key in ite (c.point_discrete r sig.R) true false
