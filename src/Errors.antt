-- ===== src/Errors.antt =====
-- src/errors.rs. A `PointError` carries nothing that the code reads.
use wsts.Prelude.{ℕ, List}
use wsts.Curve.{Curve, Scalar}

pub data DkgError : Type 0 where
  missing_shares bad_ids not_enough_shares bad_shares : List ℕ → DkgError
  point : DkgError

module _ ⦃c : Curve⦄ where
  pub data AggregatorError : Type 0 where
    bad_poly_commitment_len : ℕ → ℕ → AggregatorError
    bad_poly_commitments : List Scalar → AggregatorError
    bad_nonce_len : ℕ → ℕ → AggregatorError
    bad_party_keys bad_party_sigs : List ℕ → AggregatorError
    bad_group_sig : AggregatorError
