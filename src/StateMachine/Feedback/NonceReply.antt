-- ===== src/StateMachine/Feedback/NonceReply.antt =====
-- src/state_machine: a round of nonces from the coordinator's request to its request for signature
-- shares.
use wsts.Prelude.{
  suc, ◌<◌, ◌≡◌, refl, sym, ap, ◌∙◌, Bool, Option, some, List, [], ◌∷◌, map, arith, range,
  range_from, length, length-map, length-range_from, resize,
}
use mathlib.Core.List.{append-nil}
use mathlib.Core.Path.{subst}
use wsts.Prelude.Outcome.{ok}
use wsts.Curve.{Curve, Bytes}
use wsts.Channel.{Channel}
use wsts.Net
use wsts.Net.{Packet, NonceRequest, NonceResponse}
use wsts.Net.Signed.{CanSign}
use wsts.StateMachine.{OperationResult}
use wsts.Traits.{AggregatorTrait, SignerTrait}
use wsts.StateMachine.Signer.{SigningRound}
use wsts.StateMachine.Coordinator.{nonce_gather}
use wsts.StateMachine.Coordinator.Frost.{Coordinator}
use wsts.StateMachine.Coordinator.Frost.Process as Frost
use wsts.StateMachine.Coordinator.Frost.BatchNonces.{
  with_nonces, with_all, asking, AllExpected, sends, inbound_loop-nonces,
}
use wsts.StateMachine.Coordinator.Frost.BatchRequest.{
  share_request, awaiting_shares, with_all-keeps, all_nonce_responses-with_all,
  request_sig_shares-sends,
}
use wsts.StateMachine.Feedback.{feedback_messages, process_each}
use wsts.StateMachine.Feedback.Ignored.{AllReady, process_each-ignored}
use wsts.StateMachine.Feedback.NonceRound.{
  after_answer, answers_to, process_each-nonce_request, nonce_response-IsIgnored,
}

module _ ⦃c : Curve⦄ ⦃ch : Channel⦄ ⦃sgn : SignerTrait⦄ ⦃agg : AggregatorTrait⦄ where
  -- The request for the rounds that a coordinator is in.
  abbrev pub request_of : Coordinator → NonceRequest
  request_of s = record {
    dkg_id = s.current_dkg_id;
    sign_id = s.current_sign_id;
    sign_iter_id = s.current_sign_iter_id;
  }

  answers_to-AllExpected :
      (t : Bool) (r : Option Bytes) (u : Coordinator) (signers : List SigningRound)
      → u.state ≡ nonce_gather t r
      → AllExpected t r u (answers_to (request_of u) signers)
  answers_to-AllExpected t r u [] h = tt
  answers_to-AllExpected t r u (s ∷ signers) h =
      ((h, (refl, refl, refl)), answers_to-AllExpected t r u signers h)

  pub share_request-with_all :
      (t : Bool) (r : Option Bytes) (responses all : List NonceResponse) (u : Coordinator)
      → share_request t r (asking t r (with_all t r responses u)) all ≡ share_request t r u all
  share_request-with_all t r [] all u = refl
  share_request-with_all t r (response ∷ responses) all u =
      share_request-with_all t r responses all (with_nonces response u)

  pub ids_of_answers :
      (request : NonceRequest) (signers : List SigningRound)
      → map (λ nr. nr.signer_id) (answers_to request signers) ≡ map (λ s. s.signer_id) signers
  ids_of_answers request [] = refl
  ids_of_answers request (s ∷ signers) =
      ap (λ is. s.signer_id ∷ is) (ids_of_answers request signers)

  module _ (t : Bool) (r : Option Bytes) where
    -- A coordinator that has asked all signers for nonces, and its packet.
    abbrev pub HasAsked : Coordinator → Packet → Type 0
    HasAsked u packet =
        (packet.msg ≡ Net.nonce_request (request_of u))
        × (u.state ≡ nonce_gather t r)
        × (u.ids_to_await ≡ range u.total_signers)
        × (u.public_nonces ≡ [])

    -- A coordinator that awaits all signers, and one packet with nonces of each, in their order.
    gathers-sends :
        (u : Coordinator) (responses : List NonceResponse) (packets : List Packet)
        → CanSign u.message_private_key
        → 0 < u.total_signers
        → u.ids_to_await ≡ range u.total_signers
        → AllExpected t r u responses
        → map (λ nr. nr.signer_id) responses ≡ range u.total_signers
        → map (λ packet. packet.msg) packets ≡ map Net.nonce_response responses
        → (sent : Packet) × (sent.msg ≡ Net.signature_share_request (share_request t r u responses))
          × (Frost.process_inbound_messages packets u
              ≡ (awaiting_shares t r responses u, ok (sent ∷ [], [])))
    unfolding Frost.process_inbound_messages
    gathers-sends u [] packets signs some_signer awaits current ids e = absurd (
        omega (arith, some_signer, sym (length-range_from 0 u.total_signers) ∙ sym (ap length ids)))
    gathers-sends u (response ∷ responses) packets signs some_signer awaits current ids e =
        let whole : range u.total_signers ≡ range_from 0 (suc (length responses)) =
          resize 0 0 u.total_signers (suc (length responses)) refl (
            sym (length-range_from 0 u.total_signers)
            ∙ sym (ap length ids)
            ∙ length-map (response ∷ responses) (λ nr. nr.signer_id)) in
        let (sent, asks, done) =
          request_sig_shares-sends t r (asking t r (with_all t r (response ∷ responses) u))
            (response ∷ responses)
            (subst CanSign (sym (with_all-keeps t r (response ∷ responses) u).1) signs) refl
            (all_nonce_responses-with_all t r (response ∷ responses) u ids) in
        (
          sent,
          asks
              ∙ ap Net.signature_share_request
                  (share_request-with_all t r (response ∷ responses) (response ∷ responses) u),
          inbound_loop-nonces t r response responses packets u 0 [] [] e current (ids ∙ whole)
                (awaits ∙ whole)
              ∙ ap (sends t r [] []) done,
        )

    -- One round of messages: the signers answer, ignore each other's answers, and the coordinator
    -- gets the answers only.
    pub feedback-steps :
        (u u' : Coordinator) (signers after : List SigningRound) (messages out sent : List Packet)
        (results : List OperationResult)
        → process_each messages signers ≡ some (after, out)
        → process_each out after ≡ some (after, [])
        → Frost.process_inbound_messages out u ≡ (u', ok (sent, results))
        → feedback_messages u signers messages ≡ some ((u', after), sent, results)
    unfolding feedback_messages
    feedback-steps u u' signers after messages out sent results a b d =
        rw (a, b, append-nil out, d) refl

    -- The round of nonces of a coordinator that has asked for them.
    pub feedback_messages-nonces :
        (u : Coordinator) (packet : Packet) (signers : List SigningRound)
        → CanSign u.message_private_key
        → 0 < u.total_signers
        → HasAsked u packet
        → AllReady signers
        → map (λ signer. signer.signer_id) signers ≡ range u.total_signers
        → (sent : Packet) × (sent.msg
            ≡ Net.signature_share_request (share_request t r u (answers_to (request_of u) signers)))
          × (feedback_messages u signers (packet ∷ [])
              ≡ some (
                (
                  awaiting_shares t r (answers_to (request_of u) signers) u,
                  map after_answer signers,
                ),
                sent ∷ [],
                [],
              ))
          × AllReady (map after_answer signers)
    feedback_messages-nonces u packet signers signs some_signer (asks, gathers, awaits, fresh)
          at_rest ids =
        let responses : List NonceResponse = answers_to (request_of u) signers in
        let (out, answered, msgs, again) =
          process_each-nonce_request packet (request_of u) asks signers at_rest in
        let (sent, asked, done) =
          gathers-sends u responses out signs some_signer awaits
            (answers_to-AllExpected t r u signers gathers)
            (ids_of_answers (request_of u) signers ∙ ids) msgs in
        (
          sent,
          asked,
          feedback-steps u (awaiting_shares t r responses u) signers (map after_answer signers)
              (packet ∷ []) out (sent ∷ []) [] answered
              (process_each-ignored Net.nonce_response nonce_response-IsIgnored out responses msgs
                (map after_answer signers) again)
              done,
          again,
        )
