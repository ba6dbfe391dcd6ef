-- ===== src/Tests/Exchange.antt =====
-- Signers of src/v1.rs and a coordinator.
use wsts.Prelude.{
  ℕ, ◌≡◌, ◌≤◌, refl, some, none, false, List, [], ◌∷◌, ◌++◌, arith, replicate, length, range,
  flat_map,
}
use wsts.Prelude.Outcome.{ok}
use wsts.Curve.Five.{f2, f3, f4, five}
use wsts.Net
use wsts.Net.{Packet, hash, sign, signed}
use wsts.Traits.{AggregatorTrait, SignerTrait}
use wsts.Util.Encryption.{encrypt, decrypt, decrypt-encrypt, make_shared_secret}
use wsts.TestHelpers.{gen_signer_ids}
use wsts.TestHelpers.Ids.{gen_signer_ids-range}
use wsts.V1.Trait.{aggregator_trait, signer_trait}
use wsts.StateMachine.Coordinator.{nonce_request}
use wsts.StateMachine.Coordinator.Frost.{Coordinator}
use wsts.StateMachine.Signer.{SigningRound, idle}
use wsts.StateMachine.Signer.Cycle.{Trace, is_ok}
use wsts.StateMachine.Signer.Traces.{process_inbound_messages-Trace}
use wsts.StateMachine.Signer.Dkg.{received, encrypt_share}
use wsts.StateMachine.Signer.Process.{process_inbound_messages}
use wsts.StateMachine.Signer.Sharing.{received-encrypt_share}
use wsts.Tests.Channel.{channel}

abbrev pub agg : AggregatorTrait ⦃c = five⦄
agg = aggregator_trait ⦃c = five⦄

abbrev pub sgn : SignerTrait ⦃c = five⦄
sgn = signer_trait ⦃c = five⦄

abbrev pub Group : Type 0
Group = Coordinator ⦃c = five⦄ ⦃agg = agg⦄

abbrev pub Participant : Type 0
Participant = SigningRound ⦃c = five⦄ ⦃ch = channel⦄ ⦃sgn = sgn⦄

abbrev pub participant : ℕ → Participant
participant i = record {
  dkg_id = 0;
  sign_id = 1;
  sign_iter_id = 1;
  threshold = 2;
  total_signers = 2;
  total_keys = 2;
  signer = record { id = i; num_keys = 2; group_key = f2; parties = [] };
  signer_id = i;
  state = idle;
  commitments = [];
  decrypted_shares = [];
  invalid_private_shares = [];
  public_nonces = [];
  network_private_key = f3;
  public_keys = record { signers = []; key_ids = [] };
  os_rng = 1;
}

abbrev pub asking : Group
asking = record {
  current_dkg_id = 1;
  current_sign_id = 1;
  current_sign_iter_id = 0;
  total_signers = 2;
  total_keys = 2;
  threshold = 2;
  dkg_public_shares = [];
  party_polynomials = [];
  public_nonces = [];
  signature_shares = [];
  aggregate_public_key = some f2;
  signature = none;
  schnorr_proof = none;
  message_private_key = f3;
  ids_to_await = [];
  message = 7 ∷ [];
  state = nonce_request false none;
  aggregator = record { num_keys = 2; threshold = 2; poly = [] };
}

abbrev pub request : Packet ⦃c = five⦄
request = record {
  msg = Net.nonce_request (record { dkg_id = 1; sign_id = 1; sign_iter_id = 0 });
  sig = 3 ∷ 253 ∷ [];
}

decrypt-encrypt_example :
    decrypt ⦃c = five⦄ ⦃ch = channel⦄ (1 ∷ []) (replicate 12 0 ++ 4 ∷ []) ≡ ok (4 ∷ [])
unfolding encrypt
decrypt-encrypt_example =
    decrypt-encrypt ⦃c = five⦄ ⦃ch = channel⦄ (1 ∷ []) (4 ∷ []) 0 (replicate 12 0 ++ 4 ∷ []) refl

received-encrypt_share_example :
    received ⦃c = five⦄ ⦃ch = channel⦄ 0 1
      (decrypt ⦃c = five⦄ ⦃ch = channel⦄
        (make_shared_secret ⦃c = five⦄ f3 f2)
        (replicate 12 0 ++ 4 ∷ []))
      ([], [])
    ≡ some ((1, f4) ∷ [], [])
unfolding encrypt encrypt_share
received-encrypt_share_example =
    received-encrypt_share ⦃c = five⦄ ⦃ch = channel⦄ f2 f3 f4 ((2, f3) ∷ []) 0 1 0 0
      (replicate 12 0 ++ 4 ∷ []) [] [] refl refl

-- The start of a round of key generation, and the request for nonces.
abbrev arriving : List (Packet ⦃c = five⦄)
arriving = record { msg = Net.dkg_begin (record { dkg_id = 1 }); sig = [] } ∷ request ∷ []

process_inbound_messages-Trace_example :
    Trace ⦃c = five⦄ arriving idle
      (process_inbound_messages ⦃c = five⦄ ⦃ch = channel⦄ ⦃sgn = sgn⦄ arriving
        (participant 0)).0.state
      (is_ok
        (process_inbound_messages ⦃c = five⦄ ⦃ch = channel⦄ ⦃sgn = sgn⦄ arriving (participant 0)).1)
process_inbound_messages-Trace_example =
    process_inbound_messages-Trace ⦃c = five⦄ ⦃ch = channel⦄ ⦃sgn = sgn⦄ arriving (participant 0)

gen_signer_ids-range_example :
    (ids : List (List ℕ)) × (gen_signer_ids 7 3 ≡ some ids)
    × (length ids ≡ 3)
    × (flat_map (λ is. is) ids ≡ range 6)
    × (6 ≤ 7)
gen_signer_ids-range_example = gen_signer_ids-range 7 3 (omega arith)
