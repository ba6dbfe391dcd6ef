-- ===== src/StateMachine/Signer.antt =====
-- src/state_machine/signer/mod.rs: the states, the errors and the state of a signing round. Where the
-- code calls the system's source of randomness, `OsRng`, it reads and advances the field `os_rng`.
pub mod Dkg
pub mod Signing
pub mod Process
pub mod Sharing
pub mod Cycle
pub mod Moves
pub mod Traces
pub mod Failures
use wsts.Prelude.{ℕ, Bool, true, false, ◌||◌, ite, Option, none, some, List, [], leb, if◌then◌else◌}
use wsts.Prelude.Maps.{Map}
use wsts.Prelude.Outcome.{Outcome, ok, panic, require}
use wsts.Prelude.Run.{Run, ◌>>=◌, ◌>>◌, get, modify, lift}
use wsts.Curve.{Curve, Scalar, Rng}
use wsts.Channel.{Channel}
use wsts.Common.{PolyCommitment, PublicNonce}
use wsts.Traits.{SignerTrait}

pub data State : Type 0 where
  idle dkg_public_distribute dkg_public_gather dkg_private_distribute : State
  dkg_private_gather sign_gather signed : State

unfoldable pub State-discrete : Discrete State
State-discrete = hlevel

pub data Error : Type 0 where
  invalid_party_id invalid_dkg_public_shares : Error
  invalid_dkg_private_shares : List ℕ → Error
  invalid_nonce_response invalid_signature_share : Error
  bad_state_change : State → State → Error

abbrev pub is : State → State → Bool
is s t = ite (State-discrete s t) true false

-- The match of `can_move_to`: from the first state to the second.
unfoldable pub accepted : State → State → Bool
accepted prev idle = true
accepted prev dkg_public_distribute =
    is prev idle || (is prev dkg_public_gather || is prev dkg_private_distribute)
accepted prev dkg_public_gather = is prev dkg_public_distribute
accepted prev dkg_private_distribute = is prev dkg_public_gather
accepted prev dkg_private_gather = is prev dkg_private_distribute
accepted prev sign_gather = is prev idle
accepted prev signed = is prev sign_gather

module _ ⦃c : Curve⦄ ⦃ch : Channel⦄ where
  pub record PublicKeys : Type 0 where
    pub signers : Map ch.PublicKey
    pub key_ids : Map ch.PublicKey

module _ ⦃c : Curve⦄ ⦃ch : Channel⦄ ⦃sgn : SignerTrait⦄ where
  pub record SigningRound : Type 0 where
    pub dkg_id : ℕ
    pub sign_id : ℕ
    pub sign_iter_id : ℕ
    pub threshold : ℕ
    pub total_signers : ℕ
    pub total_keys : ℕ
    pub signer : sgn.Self
    pub signer_id : ℕ
    pub state : State
    pub commitments : Map PolyCommitment
    pub decrypted_shares : Map (Map Scalar)
    pub invalid_private_shares : List ℕ
    pub public_nonces : List PublicNonce
    pub network_private_key : Scalar
    pub public_keys : PublicKeys
    pub os_rng : Rng

  -- Panics where the assertion on the threshold fails.
  unfoldable pub new :
      ℕ → ℕ → ℕ → ℕ → List ℕ → Scalar → PublicKeys → Rng → Outcome Error SigningRound
  new threshold total_signers total_keys signer_id key_ids network_private_key public_keys rng =
      let (signer, rng') = sgn.new signer_id key_ids total_signers total_keys threshold rng in
      if leb threshold total_keys
      then ok (record {
        dkg_id = 0;
        sign_id = 1;
        sign_iter_id = 1;
        threshold = threshold;
        total_signers = total_signers;
        total_keys = total_keys;
        signer = signer;
        signer_id = signer_id;
        state = idle;
        commitments = [];
        decrypted_shares = [];
        invalid_private_shares = [];
        public_nonces = [];
        network_private_key = network_private_key;
        public_keys = public_keys;
        os_rng = rng';
      })
      else panic

  unfoldable pub can_move_to : SigningRound → State → Outcome Error (Unit {0})
  unfolding accepted
  can_move_to self state = require (accepted self.state state) (bad_state_change self.state state)

  unfoldable pub move_to : State → Run SigningRound Error (Unit {0})
  unfolding can_move_to
  move_to state = do
    self ← get
    lift (can_move_to self state)
    modify (λ s. record s { state = state })

  abbrev reset_signer : Option (sgn.Self × Rng) → Run SigningRound Error (Unit {0})
  reset_signer none self = (self, panic)
  reset_signer (some (signer, rng)) self = (record self { signer = signer; os_rng = rng }, ok tt)

  -- `reset`, with the system's source of randomness.
  unfoldable pub reset : ℕ → Run SigningRound Error (Unit {0})
  reset dkg_id = do
    modify (λ s. record s {
      dkg_id = dkg_id;
      commitments = [];
      decrypted_shares = [];
      invalid_private_shares = [];
      public_nonces = [];
    })
    self ← get
    reset_signer (sgn.reset_polys self.signer self.os_rng)
