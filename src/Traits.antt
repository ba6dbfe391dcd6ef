-- ===== src/Traits.antt =====
-- src/traits.rs: what the coordinator asks of an aggregator, and the signers' state
-- machine of a signer.
use wsts.Prelude.{ℕ, List, Option}
use wsts.Prelude.Maps.{Map}
use wsts.Prelude.Run.{Run}
use wsts.Curve.{Curve, Scalar, Point, Rng, Bytes}
use wsts.Common.{PolyCommitment, PublicNonce, SignatureShare, Signature}
use wsts.Errors.{AggregatorError, DkgError}
use wsts.Taproot.{SchnorrProof}

module _ ⦃c : Curve⦄ where
  pub record AggregatorTrait : Type 1 where
    pub Self : Type 0
    pub new : ℕ → ℕ → Self
    pub init : List PolyCommitment → Run Self AggregatorError (Unit {0})
    pub sign :
        Bytes → List PublicNonce → List SignatureShare → List ℕ → Run Self AggregatorError Signature
    pub sign_taproot :
        Bytes
        → List PublicNonce
        → List SignatureShare
        → List ℕ
        → Option Bytes
        → Run Self AggregatorError SchnorrProof

  -- The methods that may panic return an `Option`, and those that draw random numbers take and return
  -- the source.
  pub record SignerTrait : Type 1 where
    pub Self : Type 0
    pub new : ℕ → List ℕ → ℕ → ℕ → ℕ → Rng → Self × Rng
    pub get_id : Self → ℕ
    pub get_key_ids : Self → List ℕ
    pub get_num_parties : Self → ℕ
    pub get_poly_commitments : Self → Rng → Option (List PolyCommitment × Rng)
    pub reset_polys : Self → Rng → Option (Self × Rng)
    pub get_shares : Self → Map (Map Scalar)
    pub compute_secrets :
        Map (Map Scalar) → List PolyCommitment → Run Self (Map DkgError) (Unit {0})
    pub gen_nonces : Self → Rng → Self × List PublicNonce × Rng
    pub compute_intermediate : Bytes → List ℕ → List ℕ → List PublicNonce → List Point × Point
    pub sign : Self → Bytes → List ℕ → List ℕ → List PublicNonce → Option (List SignatureShare)
    pub sign_taproot :
        Self
        → Bytes
        → List ℕ
        → List ℕ
        → List PublicNonce
        → Option Bytes
        → Option (List SignatureShare)
