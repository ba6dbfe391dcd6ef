-- ===== src/StateMachine/Feedback/Conversation.antt =====
-- src/state_machine/mod.rs: the conversation of a signing round in its tests, from the coordinator's
-- start to its result.
use wsts.Prelude.{
  ◌+◌, ◌%◌, ◌^◌, ◌<◌, ◌≡◌, refl, sym, ap, ◌∙◌, Bool, Option, some, none, List, [], ◌∷◌, map,
  flat_map, arith, range,
}
use mathlib.Core.Path.{subst}
use wsts.Prelude.Outcome.{ok}
use wsts.Curve.{Curve, Bytes}
use wsts.Channel.{Channel}
use wsts.Common.{SignatureShare}
use wsts.Net
use wsts.Net.{Message, Packet, NonceResponse, SignatureShareRequest, signed}
use wsts.Net.Signed.{CanSign, signed-msg}
use wsts.StateMachine.{OperationResult}
use wsts.Traits.{AggregatorTrait, SignerTrait}
use wsts.StateMachine.Signer.{SigningRound}
use wsts.StateMachine.Feedback.Ignored.{AllReady}
use wsts.StateMachine.Coordinator.{nonce_request, idle}
use wsts.StateMachine.Coordinator.Frost.{Coordinator, move_to, can_move_to}
use wsts.StateMachine.Coordinator.Frost.Signing.{start_signing_round, request_nonces}
use wsts.StateMachine.Coordinator.Frost.Process.{start_signing_message}
use wsts.StateMachine.Coordinator.Frost.BatchRequest.{share_request, awaiting_shares}
use wsts.StateMachine.Coordinator.Frost.BatchShares.{Signs, HasResult}
use wsts.StateMachine.Feedback.{feedback_messages}
use wsts.StateMachine.Feedback.NonceRound.{after_answer, answers_to}
use wsts.StateMachine.Feedback.ShareRound.{AllSign}
use wsts.StateMachine.Feedback.ShareReply.{feedback_messages-shares}
use wsts.StateMachine.Feedback.NonceReply.{
  request_of, HasAsked, ids_of_answers, feedback_messages-nonces,
}

module _ ⦃c : Curve⦄ ⦃ch : Channel⦄ ⦃sgn : SignerTrait⦄ ⦃agg : AggregatorTrait⦄ where
  ids_after :
      (signers : List SigningRound)
      → map (λ signer. signer.signer_id) (map after_answer signers)
        ≡ map (λ signer. signer.signer_id) signers
  ids_after [] = refl
  ids_after (s ∷ signers) = ap (λ is. s.signer_id ∷ is) (ids_after signers)

  module _ (t : Bool) (r : Option Bytes) where
    HasAsked-request_nonces :
        (s : Coordinator) (packet : Packet)
        → (request_nonces t r s).1 ≡ ok packet
        → HasAsked t r (request_nonces t r s).0 packet
    unfolding request_nonces
    HasAsked-request_nonces s packet h =
        by_signed (signed s.message_private_key (Net.nonce_request (request_of s))) refl
      where
        by_signed :
            (o : Option Packet)
            → signed s.message_private_key (Net.nonce_request (request_of s)) ≡ o
            → HasAsked t r (request_nonces t r s).0 packet
        by_signed none g = absurd (ground (arith, h, g))
        by_signed (some sent) g =
            let same : packet.msg ≡ Net.nonce_request (request_of s) =
              signed-msg s.message_private_key (Net.nonce_request (request_of s)) packet
                (ground (arith, h, g)) in
            (
              ground (arith, h, g, same),
              ground (arith, h, g),
              ground (arith, h, g),
              ground (arith, h, g),
            )

    -- The coordinator that `start_signing_message` asks for nonces.
    abbrev started : Bytes → Coordinator → Coordinator
    started message s = record s {
      message = message;
      current_sign_id = (s.current_sign_id + 1) % 2 ^ 64;
      state = nonce_request t r;
    }

    start_signing_message-begins :
        (message : Bytes) (s : Coordinator) (packet : Packet)
        → (start_signing_message message t r s).1 ≡ ok packet
        → start_signing_message message t r s ≡ request_nonces t r (started message s)
    unfolding start_signing_message start_signing_round move_to can_move_to
    start_signing_message-begins message s packet h = ground (arith, h)

    pub HasAsked-start_signing_message :
        (message : Bytes) (s : Coordinator) (packet : Packet)
        → (start_signing_message message t r s).1 ≡ ok packet
        → HasAsked t r (start_signing_message message t r s).0 packet
    HasAsked-start_signing_message message s packet h =
        let begun : start_signing_message message t r s ≡ request_nonces t r (started message s) =
          start_signing_message-begins message s packet h in
        subst (λ o. o.1 ≡ ok packet → HasAsked t r o.0 packet) (sym begun)
          (HasAsked-request_nonces (started message s) packet) h

    -- A coordinator of at least one signer starts to sign a message, and idle signers, whose ids are
    -- those below the number of signers in order, get its packet. Their private keys for messages and
    -- the coordinator's are such that ecdsa signs with them. Every signer can make signature shares, after its nonces and for the nonces of all, and the coordinator's
    -- aggregator makes a result of those shares. Then two rounds of messages end the conversation:
    -- after the first the coordinator sends one packet, which requests the signature shares and has
    -- the nonces of every signer in order, and after the second it sends nothing, is idle, and has
    -- and reports that result, a signature or, for taproot, a proof.
    pub feedback_messages-ends :
        (message : Bytes) (s u : Coordinator) (packet : Packet) (signers : List SigningRound)
        (all : List (List SignatureShare)) (result : OperationResult)
        → 0 < u.total_signers
        → CanSign u.message_private_key
        → start_signing_message message t r s ≡ (u, ok packet)
        → AllReady signers
        → map (λ signer. signer.signer_id) signers ≡ range u.total_signers
        → AllSign
            (share_request t r u (answers_to (request_of u) signers))
            u.total_signers
            (map after_answer signers)
            all
        → Signs t r u (answers_to (request_of u) signers) (flat_map (λ ss. ss) all) result
        → (v : Coordinator) × (w : Coordinator) × (sent : Packet) × (feedback_messages u signers
              (packet ∷ [])
            ≡ some ((v, map after_answer signers), sent ∷ [], []))
          × (sent.msg
              ≡ Net.signature_share_request
                  (share_request t r u (answers_to (request_of u) signers)))
          × (feedback_messages v (map after_answer signers) (sent ∷ [])
              ≡ some ((w, map after_answer signers), [], result ∷ []))
          × (w.state ≡ idle)
          × HasResult t r w result
    feedback_messages-ends message s u packet signers all result some_signer key start at_rest ids
          can signs =
        let asked : HasAsked t r u packet =
          subst (λ x. HasAsked t r x packet) (ap (λ o. o.0) start)
            (HasAsked-start_signing_message message s packet (ap (λ o. o.1) start)) in
        let (sent, asks, first, again) =
          feedback_messages-nonces t r u packet signers key some_signer asked at_rest ids in
        let (w, second, rests, has) =
          feedback_messages-shares t r u (answers_to (request_of u) signers) sent
            (map after_answer signers) all result some_signer asked.3
            (ids_of_answers (request_of u) signers ∙ ids) asks again (ids_after signers ∙ ids) can
            signs in
        (
          awaiting_shares t r (answers_to (request_of u) signers) u,
          w,
          sent,
          first,
          asks,
          second,
          rests,
          has,
        )
