-- ===== src/StateMachine/Coordinator.antt =====
-- src/state_machine/coordinator/mod.rs: the states and the errors of a coordinator.
pub mod Frost
use wsts.Prelude.{ℕ, Bool, true, false, Option, List, ite}
use native.Mathlib.Decide.{ℕ_discrete}
use wsts.Curve.{Curve}
use wsts.Errors.{AggregatorError}

pub data State : Type 0 where
  idle dkg_public_distribute dkg_public_gather dkg_private_distribute dkg_end_gather : State
  nonce_request nonce_gather sig_share_request sig_share_gather : Bool → Option (List ℕ) → State

unfoldable pub State-discrete : Discrete State
State-discrete = hlevel ℕ_discrete

module _ ⦃c : Curve⦄ where
  pub data Error : Type 0 where
    bad_state_change : State → State → Error
    bad_dkg_id bad_sign_id bad_sign_iter_id : ℕ → ℕ → Error
    aggregator : AggregatorError → Error
    schnorr_proof_failed missing_aggregate_public_key missing_schnorr_proof : Error
    missing_signature : Error
