-- ===== src/StateMachine/Feedback/ShareReply.antt =====
-- src/state_machine: a round of signature shares, from the coordinator's request to its result.
use wsts.Prelude.{
  ℕ, ◌<◌, ◌≡◌, refl, sym, ap, ◌∙◌, Bool, Option, some, List, [], ◌∷◌, map, flat_map, arith, range,
}
use mathlib.Core.Path.{subst}
use wsts.Curve.{Curve, Bytes}
use wsts.Channel.{Channel}
use wsts.Common.{SignatureShare}
use wsts.Net
use wsts.Net.{Message, Packet, NonceResponse, SignatureShareRequest, signed}
use wsts.StateMachine.{OperationResult}
use wsts.Traits.{AggregatorTrait, SignerTrait}
use wsts.StateMachine.Signer.{SigningRound}
use wsts.StateMachine.Coordinator.{sig_share_gather, idle}
use wsts.StateMachine.Coordinator.Frost.{Coordinator}
use wsts.StateMachine.Coordinator.Frost.BatchNonces.{with_nonces}
use wsts.StateMachine.Coordinator.Frost.BatchRequest.{
  share_request, awaiting_shares, with_all-keeps, all_nonce_responses-with_all, keys-with_all,
}
use wsts.StateMachine.Coordinator.Frost.BatchShares.{Signs, HasResult}
use wsts.StateMachine.Coordinator.Frost.BatchResult.{AllExpected, shares-result}
use wsts.StateMachine.Feedback.{feedback_messages}
use wsts.StateMachine.Feedback.Ignored.{AllReady, process_each-ignored}
use wsts.StateMachine.Feedback.ShareRound.{
  AllSign, share_responses, process_each-share_request, share_response-IsIgnored,
}
use wsts.StateMachine.Feedback.NonceReply.{share_request-with_all, feedback-steps}

module _ ⦃c : Curve⦄ ⦃ch : Channel⦄ ⦃sgn : SignerTrait⦄ ⦃agg : AggregatorTrait⦄ where
  ids_of_shares :
      (q : SignatureShareRequest) (n : ℕ) (signers : List SigningRound)
      (all : List (List SignatureShare))
      → AllSign q n signers all
      → (map (λ x. x.signer_id) (share_responses q signers all)
          ≡ map (λ signer. signer.signer_id) signers)
        × (map (λ x. x.signature_shares) (share_responses q signers all) ≡ all)
  ids_of_shares q n [] [] h = (refl, refl)
  ids_of_shares q n [] (shares ∷ all) h = absurd h
  ids_of_shares q n (s ∷ signers) [] h = absurd h
  ids_of_shares q n (s ∷ signers) (shares ∷ all) (below, can, h) =
      let (ids, same) = ids_of_shares q n signers all h in
      (ap (λ is. s.signer_id ∷ is) ids, ap (λ xs. shares ∷ xs) same)

  module _ (t : Bool) (r : Option Bytes) where
    AllExpected-share_responses :
        (v : Coordinator) (q : SignatureShareRequest) (signers : List SigningRound)
        (all : List (List SignatureShare))
        → v.state ≡ sig_share_gather t r
        → q.dkg_id ≡ v.current_dkg_id
        → q.sign_id ≡ v.current_sign_id
        → AllExpected t r v (share_responses q signers all)
    AllExpected-share_responses v q [] all at a b = tt
    AllExpected-share_responses v q (s ∷ signers) [] at a b = tt
    AllExpected-share_responses v q (s ∷ signers) (shares ∷ all) at a b =
        ((at, a, b), AllExpected-share_responses v q signers all at a b)

    Signs-with_nonces :
        (xs : List NonceResponse) (u : Coordinator) (responses : List NonceResponse)
        (shares : List SignatureShare) (result : OperationResult)
        → Signs t r u responses shares result
        → Signs t r (awaiting_shares t r xs u) responses shares result
    Signs-with_nonces [] u responses shares (OperationResult.sign sig) h = h
    Signs-with_nonces [] u responses shares (OperationResult.sign_taproot proof) h = h
    Signs-with_nonces [] u responses shares (OperationResult.dkg key) h = h
    Signs-with_nonces (x ∷ xs) u responses shares result h =
        Signs-with_nonces xs (with_nonces x u) responses shares result (kept result h)
      where
        kept :
            (result : OperationResult)
            → Signs t r u responses shares result
            → Signs t r (with_nonces x u) responses shares result
        kept (OperationResult.sign sig) h = h
        kept (OperationResult.sign_taproot proof) h = h
        kept (OperationResult.dkg key) h = h

    -- The second round of messages: the coordinator has the nonces of every signer.
    pub feedback_messages-shares :
        (u : Coordinator) (responses : List NonceResponse) (sent : Packet)
        (signers : List SigningRound) (all : List (List SignatureShare)) (result : OperationResult)
        → 0 < u.total_signers
        → u.public_nonces ≡ []
        → map (λ nr. nr.signer_id) responses ≡ range u.total_signers
        → sent.msg ≡ Net.signature_share_request (share_request t r u responses)
        → AllReady signers
        → map (λ signer. signer.signer_id) signers ≡ range u.total_signers
        → AllSign (share_request t r u responses) u.total_signers signers all
        → Signs t r u responses (flat_map (λ ss. ss) all) result
        → (w : Coordinator) × (feedback_messages
              (awaiting_shares t r responses u)
              signers
              (sent ∷ [])
            ≡ some ((w, signers), [], result ∷ []))
          × (w.state ≡ idle)
          × HasResult t r w result
    feedback_messages-shares u responses sent signers all result some_signer fresh asked asks
          at_rest ids can signs =
        let q : SignatureShareRequest = share_request t r u responses in
        let v : Coordinator = awaiting_shares t r responses u in
        let total : v.total_signers ≡ u.total_signers = (with_all-keeps t r responses u).0 in
        let same : share_request t r v responses ≡ q =
          share_request-with_all t r responses responses u in
        let (out, answered, msgs) =
          process_each-share_request sent q u.total_signers asks asked signers all at_rest can in
        let (ids_out, shares_out) = ids_of_shares q u.total_signers signers all can in
        let (w, done, rests, has) =
          shares-result t r v (share_responses q signers all) out responses result
            (omega (arith, some_signer, total)) refl
            (keys-with_all t r responses u fresh asked ∙ ap range (sym total))
            (all_nonce_responses-with_all t r responses u asked)
            (AllExpected-share_responses v q signers all refl (sym (ap (λ x. x.dkg_id) same))
              (sym (ap (λ x. x.sign_id) same)))
            (ids_out ∙ ids ∙ ap range (sym total)) msgs
            (subst (λ xs. Signs t r v responses (flat_map (λ ss. ss) xs) result) (sym shares_out)
              (Signs-with_nonces responses u responses (flat_map (λ ss. ss) all) result signs)) in
        (
          w,
          feedback-steps t r v w signers signers (sent ∷ []) out [] (result ∷ []) answered
              (process_each-ignored Net.signature_share_response share_response-IsIgnored out
                (share_responses q signers all) msgs signers at_rest)
              done,
          rests,
          has,
        )
