-- ===== src/StateMachine/Signer/Signing.antt =====
-- src/state_machine/signer/mod.rs: a signing round, as a signer sees it.
use wsts.Prelude.{ℕ, ◌==◌, Bool, true, false, Option, some, List, [], ◌∷◌, map, flat_map, ◌>>=◌}
use wsts.Prelude.Outcome.{value}
use wsts.Prelude.Run.{Run, lift, pure}
use wsts.Curve.{Curve}
use wsts.Channel.{Channel}
use wsts.Common.{PublicNonce, SignatureShare}
use wsts.Net
use wsts.Net.{NonceRequest, NonceResponse, SignatureShareRequest, SignatureShareResponse, Message}
use wsts.Traits.{SignerTrait}
use wsts.StateMachine.Signer.{Error, SigningRound}

module _ ⦃c : Curve⦄ ⦃ch : Channel⦄ ⦃sgn : SignerTrait⦄ where
  unfoldable pub nonce_request : NonceRequest → Run SigningRound Error (List Message)
  nonce_request request self =
      let (signer, nonces, rng) = sgn.gen_nonces self.signer self.os_rng in
      pure
        (Net.nonce_response (record {
          dkg_id = request.dkg_id;
          sign_id = request.sign_id;
          sign_iter_id = request.sign_iter_id;
          signer_id = self.signer_id;
          key_ids = sgn.get_key_ids self.signer;
          nonces = nonces;
        })
          ∷ [])
        (record self { signer = signer; os_rng = rng })

  abbrev pub request_signer_ids : SignatureShareRequest → List ℕ
  request_signer_ids request = map (λ nr. nr.signer_id) request.nonce_responses

  abbrev pub request_key_ids : SignatureShareRequest → List ℕ
  request_key_ids request = flat_map (λ nr. nr.key_ids) request.nonce_responses

  abbrev pub request_nonces : SignatureShareRequest → List PublicNonce
  request_nonces request = flat_map (λ nr. nr.nonces) request.nonce_responses

  -- The shares for a request; `None` stands for a panic.
  abbrev pub signed_by : SigningRound → SignatureShareRequest → Bool → Option (List SignatureShare)
  signed_by self request true =
      sgn.sign_taproot self.signer request.message (request_signer_ids request)
        (request_key_ids request) (request_nonces request) request.merkle_root
  signed_by self request false =
      sgn.sign self.signer request.message (request_signer_ids request) (request_key_ids request)
        (request_nonces request)

  abbrev pub response_to : SignatureShareRequest → ℕ → List SignatureShare → Message
  response_to request signer_id shares = Net.signature_share_response (record {
    dkg_id = request.dkg_id;
    sign_id = request.sign_id;
    sign_iter_id = request.sign_iter_id;
    signer_id = signer_id;
    signature_shares = shares;
  })

  -- The loop over the ids of a request: an answer for every mention of this signer.
  unfoldable pub answers : SigningRound → SignatureShareRequest → List ℕ → Option (List Message)
  answers self request [] = some []
  answers self request (signer_id ∷ ids) = elim (signer_id == self.signer_id) [
    | true ↦ do
      shares ← signed_by self request request.is_taproot
      rest ← answers self request ids
      some (response_to request signer_id shares ∷ rest)
    | false ↦ answers self request ids
  ]

  unfoldable pub sign_share_request : SignatureShareRequest → Run SigningRound Error (List Message)
  unfolding answers
  sign_share_request request self =
      lift (value (answers self request (request_signer_ids request))) self
