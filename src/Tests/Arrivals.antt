-- ===== src/Tests/Arrivals.antt =====
-- Nonces of two signers that arrive out of their order.
use wsts.Prelude.{
  ℕ, ◌≡◌, ◌<◌, zero, suc, refl, some, none, inl, inr, false, List, [], ◌∷◌, arith, range, map,
}
use wsts.Prelude.Outcome.{ok}
use wsts.Curve.Five.{f1, f2, f3, f4, five}
use wsts.Net
use wsts.Net.{Packet, NonceResponse, sign, signed}
use wsts.StateMachine.Coordinator.{nonce_gather, sig_share_gather, State-discrete}
use wsts.StateMachine.Coordinator.Frost.{move_to}
use wsts.StateMachine.Coordinator.Frost.Signing.{all_nonce_responses, start_signing_round}
use wsts.StateMachine.Coordinator.Frost.Nonces.{IsCovered}
use wsts.StateMachine.Coordinator.Frost.NonceArrivals.{AllAnswered}
use wsts.StateMachine.Coordinator.Frost.NonceEnd.{process_inbound_messages-asks}
use wsts.StateMachine.Coordinator.Frost.BatchRequest.{share_request}
use wsts.StateMachine.Coordinator.Frost.Process.{process_inbound_messages, start_signing_message}
use wsts.StateMachine.Feedback.{feedback_messages}
use wsts.StateMachine.Feedback.Ignored.{AllReady}
use wsts.StateMachine.Feedback.NonceExchange.{HasSigner, nonce_exchange-ends}
use wsts.StateMachine.Feedback.NonceRound.{after_answer}
use wsts.Tests.Channel.{channel}
use wsts.Tests.Conversation.{begun, packet, coordinator, keyed}
use wsts.Tests.Exchange.{Group, Participant, agg, sgn, asking, request}

abbrev gathering : Group
gathering = record asking { state = nonce_gather false none; ids_to_await = 0 ∷ 1 ∷ [] }

abbrev reply : ℕ → Packet ⦃c = five⦄
reply i = record {
  msg = Net.nonce_response (record {
    dkg_id = 1;
    sign_id = 1;
    sign_iter_id = 0;
    signer_id = i;
    key_ids = i ∷ [];
    nonces = record { D = f1; E = f2 } ∷ [];
  });
  sig = [];
}

-- The last of them comes too late.
abbrev replies : List (Packet ⦃c = five⦄)
replies = reply 1 ∷ request ∷ reply 1 ∷ reply 0 ∷ reply 1 ∷ []

gathering-IsCovered : IsCovered ⦃c = five⦄ ⦃agg = agg⦄ gathering
gathering-IsCovered zero h = inl refl
gathering-IsCovered (suc zero) h = inl refl
gathering-IsCovered (suc (suc i)) h = absurd (omega (arith, h))

replies-AllAnswered : AllAnswered ⦃c = five⦄ ⦃agg = agg⦄ gathering replies
replies-AllAnswered zero h = inr (inr (inr (inl (_, refl, refl))))
replies-AllAnswered (suc zero) h = inl (_, refl, refl)
replies-AllAnswered (suc (suc i)) h = absurd (ground (arith, h))

process_inbound_messages-asks_example :
    (u : Group) × (sent : Packet ⦃c = five⦄) × (responses : List (NonceResponse ⦃c = five⦄))
    × (process_inbound_messages ⦃c = five⦄ ⦃agg = agg⦄ replies gathering ≡ (u, ok (sent ∷ [], [])))
    × (sent.msg
        ≡ Net.signature_share_request
            (share_request ⦃c = five⦄ ⦃agg = agg⦄ false none gathering responses))
    × (all_nonce_responses ⦃c = five⦄ ⦃agg = agg⦄ u ≡ some responses)
    × (u.state ≡ sig_share_gather false none)
    × (u.ids_to_await ≡ range 2)
process_inbound_messages-asks_example =
    process_inbound_messages-asks ⦃c = five⦄ ⦃agg = agg⦄ false none replies gathering (omega arith)
      (λ digest. (_, refl)) refl refl gathering-IsCovered
      (
        inl (_, refl, (refl, refl, refl)),
        (
          inr tt,
          (
            inl (_, refl, (refl, refl, refl)),
            (inl (_, refl, (refl, refl, refl)), (inl (_, refl, (refl, refl, refl)), tt)),
          ),
        ),
      )
      replies-AllAnswered

abbrev turned : List Participant
turned = keyed 1 f4 ∷ keyed 0 f3 ∷ []

turned_all : (i : ℕ) → i < 2 → HasSigner ⦃c = five⦄ ⦃ch = channel⦄ ⦃sgn = sgn⦄ i turned
turned_all zero h = inr (inl refl)
turned_all (suc zero) h = inl refl
turned_all (suc (suc i)) h = absurd (omega (arith, h))

nonce_exchange-ends_example :
    (v : Group) × (sent : Packet ⦃c = five⦄) × (responses : List (NonceResponse ⦃c = five⦄))
    × (feedback_messages ⦃c = five⦄ ⦃ch = channel⦄ ⦃sgn = sgn⦄ ⦃agg = agg⦄ begun turned
          (packet ∷ [])
        ≡ some
            ((v, map (after_answer ⦃c = five⦄ ⦃ch = channel⦄ ⦃sgn = sgn⦄) turned), sent ∷ [], []))
    × AllReady ⦃c = five⦄ ⦃ch = channel⦄ ⦃sgn = sgn⦄
        (map (after_answer ⦃c = five⦄ ⦃ch = channel⦄ ⦃sgn = sgn⦄) turned)
    × (sent.msg
        ≡ Net.signature_share_request
            (share_request ⦃c = five⦄ ⦃agg = agg⦄ false none begun responses))
    × (all_nonce_responses ⦃c = five⦄ ⦃agg = agg⦄ v ≡ some responses)
    × (v.state ≡ sig_share_gather false none)
    × (v.ids_to_await ≡ range 2)
unfolding start_signing_message start_signing_round signed sign move_to State-discrete
nonce_exchange-ends_example =
    nonce_exchange-ends ⦃c = five⦄ ⦃ch = channel⦄ ⦃sgn = sgn⦄ ⦃agg = agg⦄ false none (7 ∷ [])
      coordinator begun packet turned (omega arith) (λ digest. (_, refl)) refl
      ((refl, λ digest. (_, refl)), ((refl, λ digest. (_, refl)), tt)) turned_all
