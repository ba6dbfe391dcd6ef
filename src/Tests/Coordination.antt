-- ===== src/Tests/Coordination.antt =====
-- A coordinator of two signers and two keys, with the aggregator of src/v1.rs.
use wsts.Prelude.{ℕ, ◌≡◌, ◌≢◌, refl, false, none, some, List, [], ◌∷◌}
use wsts.Prelude.Outcome.{ok, panic}
use wsts.Curve.Five.{f1, f2, f3, five}
use wsts.Net
use wsts.Net.{Packet, NonceResponse, hash, sign, signed}
use wsts.Traits.{AggregatorTrait}
use wsts.V1.Trait.{aggregator_trait}
use wsts.StateMachine.Coordinator.{dkg_public_gather, nonce_request, bad_dkg_id, State-discrete}
use wsts.StateMachine.Coordinator.Frost.{Coordinator, new}
use wsts.StateMachine.Coordinator.Frost.Dkg.{start_dkg_round, gather_public_shares}
use wsts.StateMachine.Coordinator.Frost.Signing.{
  request_nonces, gather_nonces, all_nonce_responses, finish_sig_shares,
}
use wsts.StateMachine.Coordinator.Frost.Process.{process_message}
use wsts.StateMachine.Coordinator.Frost.Progress.{process_message-ne_none}
use wsts.StateMachine.Coordinator.Frost.NonceRound.{
  requested, gathered, all_nonce_responses-Collects,
}
use wsts.StateMachine.Coordinator.Frost.Nonces.{finish_sig_shares-panic}
use wsts.StateMachine.Coordinator.Frost.Rounds.{
  gather_nonces-err_unchanged, gather_public_shares-err_unchanged, start_dkg_round-awaits,
}

abbrev agg : AggregatorTrait ⦃c = five⦄
agg = aggregator_trait ⦃c = five⦄

abbrev Group : Type 0
Group = Coordinator ⦃c = five⦄ ⦃agg = agg⦄

abbrev fresh : Group
fresh = new ⦃c = five⦄ ⦃agg = agg⦄ 2 2 2 f3

abbrev asking : Group
asking = record fresh { state = nonce_request false none; aggregate_public_key = some f2 }

abbrev response : ℕ → ℕ → NonceResponse ⦃c = five⦄
response dkg i = record {
  dkg_id = dkg;
  sign_id = 0;
  sign_iter_id = 0;
  signer_id = i;
  key_ids = i ∷ [];
  nonces = record { D = f1; E = f2 } ∷ [];
}

abbrev nonces : ℕ → ℕ → Packet ⦃c = five⦄
nonces dkg i = record { msg = Net.nonce_response (response dkg i); sig = [] }

abbrev asked : Group
asked = (request_nonces ⦃c = five⦄ ⦃agg = agg⦄ false none asking).0

-- The second signer answers twice, and once for another key generation, before the first does.
abbrev gather : Packet ⦃c = five⦄ → Group → Group
gather packet s = (gather_nonces ⦃c = five⦄ ⦃agg = agg⦄ packet false none s).0

abbrev answered : Group
answered =
    gather (nonces 0 0) (gather (nonces 9 1) (gather (nonces 0 1) (gather (nonces 0 1) asked)))

process_message-ne_none_example :
    (process_message ⦃c = five⦄ ⦃agg = agg⦄ (nonces 0 0) (gather (nonces 0 1) asked)).1 ≢ ok none
process_message-ne_none_example =
    process_message-ne_none ⦃c = five⦄ ⦃agg = agg⦄ (nonces 0 0) (gather (nonces 0 1) asked)

all_nonce_responses-Collects_example :
    (responses : List (NonceResponse ⦃c = five⦄)) × (all_nonce_responses ⦃c = five⦄ ⦃agg = agg⦄
        answered
      ≡ some responses)
unfolding request_nonces signed sign State-discrete gather_nonces new
all_nonce_responses-Collects_example =
    all_nonce_responses-Collects ⦃c = five⦄ ⦃agg = agg⦄ false none answered
      (gathered _ (nonces 0 0) (
        gathered _ (nonces 9 1)
          (gathered _ (nonces 0 1) (gathered _ (nonces 0 1) (requested asking refl)))))
      refl

-- A third signer, that nobody asked, has sent its nonces.
abbrev intruded : Group
intruded = gather (nonces 0 2) asked

finish_sig_shares-panic_example :
    (finish_sig_shares ⦃c = five⦄ ⦃agg = agg⦄ false none intruded).1 ≡ panic
unfolding request_nonces gather_nonces signed sign State-discrete new
finish_sig_shares-panic_example =
    finish_sig_shares-panic ⦃c = five⦄ ⦃agg = agg⦄ false none intruded 2 refl refl

gather_nonces-err_unchanged_example : gather (nonces 9 0) asked ≡ asked
unfolding gather_nonces request_nonces signed sign State-discrete new
gather_nonces-err_unchanged_example =
    gather_nonces-err_unchanged ⦃c = five⦄ ⦃agg = agg⦄ (nonces 9 0) false none asked
      {e = bad_dkg_id 9 0} refl refl

abbrev gathering : Group
gathering = record fresh { state = dkg_public_gather }

abbrev public_shares : Packet ⦃c = five⦄
public_shares = record {
  msg = Net.dkg_public_shares (record { dkg_id = 9; signer_id = 0; comms = [] });
  sig = [];
}

gather_public_shares-err_unchanged_example :
    (gather_public_shares ⦃c = five⦄ ⦃agg = agg⦄ public_shares gathering).0 ≡ gathering
unfolding gather_public_shares new
gather_public_shares-err_unchanged_example =
    gather_public_shares-err_unchanged ⦃c = five⦄ ⦃agg = agg⦄ public_shares gathering
      {e = bad_dkg_id 9 0} refl refl

-- The first signer has answered when the round starts anew.
abbrev half : Group
half = record fresh { state = dkg_public_gather; ids_to_await = 1 ∷ [] }

start_dkg_round-awaits_example :
    ((start_dkg_round ⦃c = five⦄ ⦃agg = agg⦄ half).0.ids_to_await ≡ 1 ∷ [])
    × ((start_dkg_round ⦃c = five⦄ ⦃agg = agg⦄ half).0.party_polynomials ≡ [])
    × ((start_dkg_round ⦃c = five⦄ ⦃agg = agg⦄ half).0.state ≡ dkg_public_gather)
    × ((start_dkg_round ⦃c = five⦄ ⦃agg = agg⦄ half).0.current_dkg_id ≡ 1)
unfolding start_dkg_round State-discrete signed sign new
start_dkg_round-awaits_example = start_dkg_round-awaits ⦃c = five⦄ ⦃agg = agg⦄ half refl
