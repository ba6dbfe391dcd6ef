-- ===== src/Tests/Conversation.antt =====
-- The conversation of two signers of src/v1.rs and a coordinator that sign a message.
use wsts.Prelude.{ℕ, ◌≡◌, refl, some, none, false, List, [], ◌∷◌, arith, map}
use wsts.Curve.Five.{F5, f0, f1, f2, f3, f4, five}
use wsts.Common.{SignatureShare, from, random, verify}
use wsts.Schnorr
use wsts.Common.Verify
use wsts.Compute.{
  id, intermediate, aggregate_nonce, binding_compressed, poly, powers, lambda, binding, challenge,
  tagged_hash,
}
use wsts.Net
use wsts.Net.{Packet, sign, signed, SignatureShareRequest}
use wsts.Util.{hash_to_scalar}
use wsts.V1.Party
use wsts.V1.Party.{Party, sign_precomputed, commitment_response}
use wsts.V1.Signer
use wsts.V1.Aggregator
use wsts.V1.Aggregator.{Aggregator, init}
use wsts.StateMachine.Coordinator.{nonce_gather, idle, State-discrete}
use wsts.StateMachine.Coordinator.Frost.{move_to}
use wsts.StateMachine.Coordinator.Frost.Process.{start_signing_message}
use wsts.StateMachine.Coordinator.Frost.Signing.{start_signing_round}
use wsts.StateMachine.Coordinator.Frost.BatchRequest.{share_request}
use wsts.StateMachine.{OperationResult}
use wsts.StateMachine.Coordinator.Frost.BatchShares.{HasResult}
use wsts.StateMachine.Feedback.{feedback_messages}
use wsts.StateMachine.Feedback.Conversation.{feedback_messages-ends}
use wsts.StateMachine.Feedback.NonceReply.{request_of}
use wsts.StateMachine.Feedback.NonceRound.{answers_to, after_answer}
use wsts.Tests.Channel.{channel}
use wsts.Tests.KeyGeneration.{comm}
use wsts.Tests.Exchange.{Group, Participant, agg, sgn, asking, participant}

abbrev holder : ℕ → F5 → Party ⦃c = five⦄
holder i key = record {
  id = i;
  public_key = key;
  f = f1 ∷ f3 ∷ [];
  n = 2;
  private_key = key;
  group_key = f2;
  nonce = record { d = f1; e = f2 };
}

abbrev pub keyed : ℕ → F5 → Participant
keyed i key = record (participant i) {
  signer = record { id = i; num_keys = 2; group_key = f2; parties = holder i key ∷ [] };
}

abbrev both : List Participant
both = keyed 0 f3 ∷ keyed 1 f4 ∷ []

abbrev pub coordinator : Group
coordinator = record asking { state = idle; party_polynomials = (0, comm 0) ∷ (1, comm 1) ∷ [] }

abbrev pub begun : Group
begun = record coordinator {
  current_sign_id = 2;
  ids_to_await = 0 ∷ 1 ∷ [];
  state = nonce_gather false none;
}

abbrev pub packet : Packet ⦃c = five⦄
packet = record {
  msg = Net.nonce_request (record { dkg_id = 1; sign_id = 2; sign_iter_id = 0 });
  sig = 3 ∷ 254 ∷ [];
}

abbrev request : SignatureShareRequest ⦃c = five⦄
request = share_request ⦃c = five⦄ ⦃agg = agg⦄ false none begun (
    answers_to ⦃c = five⦄ ⦃ch = channel⦄ ⦃sgn = sgn⦄
      (request_of ⦃c = five⦄ ⦃ch = channel⦄ ⦃sgn = sgn⦄ ⦃agg = agg⦄ begun) both)

abbrev after : List Participant
after = map (after_answer ⦃c = five⦄ ⦃ch = channel⦄ ⦃sgn = sgn⦄) both

abbrev all : List (List (SignatureShare ⦃c = five⦄))
all =
    (record { id = 0; z_i = f3; key_ids = 0 ∷ [] } ∷ [])
    ∷ (record { id = 1; z_i = f0; key_ids = 1 ∷ [] } ∷ [])
    ∷ []

abbrev stored : Aggregator ⦃c = five⦄
stored = record { num_keys = 2; threshold = 2; poly = f2 ∷ f1 ∷ [] }

abbrev result : OperationResult ⦃c = five⦄
result = OperationResult.sign (record { R = f4; z = f3 })

feedback_messages-ends_example :
    (v : Group) × (w : Group) × (sent : Packet ⦃c = five⦄) × (feedback_messages ⦃c = five⦄
        ⦃ch = channel⦄ ⦃sgn = sgn⦄ ⦃agg = agg⦄ begun both
        (packet ∷ [])
      ≡ some ((v, after), sent ∷ [], []))
    × (sent.msg ≡ Net.signature_share_request request)
    × (feedback_messages ⦃c = five⦄ ⦃ch = channel⦄ ⦃sgn = sgn⦄ ⦃agg = agg⦄ v after (sent ∷ [])
        ≡ some ((w, after), [], result ∷ []))
    × (w.state ≡ idle)
    × HasResult ⦃c = five⦄ ⦃agg = agg⦄ false none w result
unfolding start_signing_message start_signing_round init Aggregator.sign Aggregator.sign_with_tweak
    Signer.sign Signer.gen_nonces Signer.get_key_ids id intermediate aggregate_nonce lambda binding
    binding_compressed challenge poly powers tagged_hash hash_to_scalar from random signed sign
    move_to State-discrete Party.sign Party.gen_nonce sign_precomputed commitment_response verify
    Schnorr.verify Schnorr.new Verify.verify
feedback_messages-ends_example =
    feedback_messages-ends ⦃c = five⦄ ⦃ch = channel⦄ ⦃sgn = sgn⦄ ⦃agg = agg⦄ false none (7 ∷ [])
      coordinator begun packet both all result (omega arith) (λ digest. (_, refl)) refl
      ((refl, λ digest. (_, refl)), ((refl, λ digest. (_, refl)), tt)) refl
      (omega arith, refl, (omega arith, refl, tt)) (refl, stored, stored, refl, refl)
