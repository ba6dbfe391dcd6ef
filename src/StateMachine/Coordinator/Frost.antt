-- ===== src/StateMachine/Coordinator/Frost.antt =====
-- src/state_machine/coordinator/frost.rs: the coordinator's state and its moves.
pub mod Dkg
pub mod Signing
pub mod Process
pub mod Progress
pub mod Rounds
pub mod Nonces
pub mod NonceRound
pub mod Batch
pub mod BatchNonces
pub mod BatchRequest
pub mod BatchShares
pub mod NonceArrivals
pub mod NonceEnd
pub mod BatchResult
use wsts.Prelude.{ℕ, Bool, true, false, ◌||◌, ite, Option, none, some, List, [], range}
use wsts.Prelude.Maps.{Map}
use wsts.Prelude.Outcome.{Outcome, ok, err, panic, require}
use wsts.Prelude.Run.{Run, ◌>>=◌, ◌>>◌, get, modify, lift}
use wsts.Curve.{Curve, Scalar, Point, Bytes}
use wsts.Common.{PolyCommitment, SignatureShare, Signature}
use wsts.Errors.{AggregatorError}
use wsts.Net.{DkgPublicShares, NonceResponse}
use wsts.Taproot.{SchnorrProof}
use wsts.Traits.{AggregatorTrait}
use wsts.StateMachine.Coordinator.{
  State, State-discrete, idle, dkg_public_distribute, dkg_public_gather, dkg_private_distribute,
  dkg_end_gather, nonce_request, nonce_gather, sig_share_request, sig_share_gather, Error,
  bad_state_change, aggregator,
}

-- `==` on states.
abbrev pub is : State → State → Bool
is s t = ite (State-discrete s t) true false

-- The match of `can_move_to`: from the first state to the second.
unfoldable pub accepted : State → State → Bool
accepted prev idle = true
accepted prev dkg_public_distribute =
    is prev idle || (is prev dkg_public_gather || is prev dkg_end_gather)
accepted prev dkg_public_gather = is prev dkg_public_distribute || is prev dkg_public_gather
accepted prev dkg_private_distribute = is prev dkg_public_gather
accepted prev dkg_end_gather = is prev dkg_private_distribute
accepted prev (nonce_request t r) = is prev idle || is prev dkg_end_gather
accepted prev (nonce_gather t r) = is prev (nonce_request t r) || is prev (nonce_gather t r)
accepted prev (sig_share_request t r) = is prev (nonce_gather t r)
accepted prev (sig_share_gather t r) =
    is prev (sig_share_request t r) || is prev (sig_share_gather t r)

module _ ⦃c : Curve⦄ ⦃agg : AggregatorTrait⦄ where
  pub record Coordinator : Type 0 where
    pub current_dkg_id : ℕ
    pub current_sign_id : ℕ
    pub current_sign_iter_id : ℕ
    pub total_signers : ℕ
    pub total_keys : ℕ
    pub threshold : ℕ
    pub dkg_public_shares : Map DkgPublicShares
    pub party_polynomials : Map PolyCommitment
    pub public_nonces : Map NonceResponse
    pub signature_shares : Map (List SignatureShare)
    pub aggregate_public_key : Option Point
    pub signature : Option Signature
    pub schnorr_proof : Option SchnorrProof
    pub message_private_key : Scalar
    pub ids_to_await : List ℕ
    pub message : Bytes
    pub state : State
    pub aggregator : agg.Self

  unfoldable pub new : ℕ → ℕ → ℕ → Scalar → Coordinator
  new total_signers total_keys threshold message_private_key = record {
    current_dkg_id = 0;
    current_sign_id = 0;
    current_sign_iter_id = 0;
    total_signers = total_signers;
    total_keys = total_keys;
    threshold = threshold;
    dkg_public_shares = [];
    party_polynomials = [];
    public_nonces = [];
    signature_shares = [];
    aggregate_public_key = none;
    signature = none;
    schnorr_proof = none;
    message_private_key = message_private_key;
    ids_to_await = range total_signers;
    message = [];
    state = idle;
    aggregator = agg.new total_keys threshold;
  }

  unfoldable pub can_move_to : Coordinator → State → Outcome Error (Unit {0})
  unfolding accepted
  can_move_to self state = require (accepted self.state state) (bad_state_change self.state state)

  unfoldable pub move_to : State → Run Coordinator Error (Unit {0})
  unfolding can_move_to
  move_to state = do
    self ← get
    lift (can_move_to self state)
    modify (λ s. record s { state = state })

  -- `?` on an aggregator's result: the aggregator keeps what the call left of it.
  abbrev pub from_aggregator : {A : Type 0} → Outcome AggregatorError A → Outcome Error A
  from_aggregator (ok a) = ok a
  from_aggregator (err e) = err (Error.aggregator e)
  from_aggregator panic = panic

  abbrev pub on_aggregator : {A : Type 0} → Run agg.Self AggregatorError A → Run Coordinator Error A
  on_aggregator m s = let r = m s.aggregator in (record s { aggregator = r.0 }, from_aggregator r.1)

  abbrev pub get_aggregate_public_key : Coordinator → Option Point
  get_aggregate_public_key self = self.aggregate_public_key

  unfoldable pub set_aggregate_public_key : Option Point → Coordinator → Coordinator
  set_aggregate_public_key key self = record self { aggregate_public_key = key }

  unfoldable pub reset : Coordinator → Coordinator
  reset self = record self {
    state = idle;
    dkg_public_shares = [];
    party_polynomials = [];
    public_nonces = [];
    signature_shares = [];
    ids_to_await = range self.total_signers;
  }
