-- ===== src/StateMachine.antt =====
-- src/state_machine/mod.rs.
pub mod Coordinator
pub mod Signer
pub mod Feedback
use wsts.Curve.{Curve, Point}
use wsts.Common.{Signature}
use wsts.Taproot.{SchnorrProof}

module _ ⦃c : Curve⦄ where
  pub data OperationResult : Type 0 where
    dkg : Point → OperationResult
    sign : Signature → OperationResult
    sign_taproot : SchnorrProof → OperationResult
