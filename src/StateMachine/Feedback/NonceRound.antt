-- ===== src/StateMachine/Feedback/NonceRound.antt =====
-- src/state_machine: the signers' two turns of the messages in a round of nonces.
use wsts.Prelude.{◌≡◌, refl, ap, ◌∙◌, some, List, [], ◌∷◌, map, arith}
use wsts.Prelude.Outcome.{ok}
use wsts.Curve.{Curve}
use wsts.Channel.{Channel}
use wsts.Net
use wsts.Net.{Message, Packet, NonceRequest, NonceResponse, signed}
use wsts.Net.Signed.{CanSign, signed-hash}
use wsts.Traits.{SignerTrait}
use wsts.StateMachine.Signer.{idle, SigningRound}
use wsts.StateMachine.Signer.Dkg.{public_shares_done, can_dkg_end}
use wsts.StateMachine.Signer.Signing.{nonce_request}
use wsts.StateMachine.Signer.Process.{
  handle, advance, process, process_inbound_messages, inbound_loop, sign_all,
}
use wsts.StateMachine.Feedback.{process_each}
use wsts.StateMachine.Feedback.Ignored.{AllReady, IsIgnored}

module _ ⦃c : Curve⦄ ⦃ch : Channel⦄ ⦃sgn : SignerTrait⦄ where
  -- What an asked signer sends.
  abbrev pub answer : SigningRound → NonceRequest → NonceResponse
  answer s request = record {
    dkg_id = request.dkg_id;
    sign_id = request.sign_id;
    sign_iter_id = request.sign_iter_id;
    signer_id = s.signer_id;
    key_ids = sgn.get_key_ids s.signer;
    nonces = (sgn.gen_nonces s.signer s.os_rng).1;
  }

  -- A signer after it has answered a request for nonces.
  abbrev pub after_answer : SigningRound → SigningRound
  after_answer s =
      let (signer, nonces, rng) = sgn.gen_nonces s.signer s.os_rng in
      record s { signer = signer; os_rng = rng }

  process-nonce_request :
      (request : NonceRequest) (s : SigningRound)
      → s.state ≡ idle
      → process (Net.nonce_request request) s
        ≡ (after_answer s, ok (Net.nonce_response (answer s request) ∷ []))
  unfolding process handle advance nonce_request public_shares_done can_dkg_end
  process-nonce_request request s h = ground (arith, h)

  inbound-nonce_request :
      (packet : Packet) (request : NonceRequest) (s : SigningRound)
      → packet.msg ≡ Net.nonce_request request
      → s.state ≡ idle
      → CanSign s.network_private_key
      → (sent : Packet) × (sent.msg ≡ Net.nonce_response (answer s request))
        × (process_inbound_messages (packet ∷ []) s ≡ (after_answer s, ok (sent ∷ [])))
  unfolding process_inbound_messages inbound_loop sign_all Net.hash
  inbound-nonce_request packet request s e at_rest signs =
      let (sent, g, same) =
        signed-hash s.network_private_key (Net.nonce_response (answer s request))
          (Net.hash_nonce_response (answer s request)) signs refl in
      (sent, same, rw (ap (λ m. process m s) e ∙ process-nonce_request request s at_rest, g) refl)

  -- The nonces of signers that have answered.
  abbrev pub answers_to : NonceRequest → List SigningRound → List NonceResponse
  answers_to request = map λ s. answer s request

  -- Signers that are ready answer a request for nonces in their order, and are ready again.
  pub process_each-nonce_request :
      (packet : Packet) (request : NonceRequest)
      → packet.msg ≡ Net.nonce_request request
      → (signers : List SigningRound) → AllReady signers
      → (out : List Packet) × (process_each (packet ∷ []) signers
          ≡ some (map after_answer signers, out))
        × (map (λ sent. sent.msg) out ≡ map Net.nonce_response (answers_to request signers))
        × AllReady (map after_answer signers)
  unfolding process_each
  process_each-nonce_request packet request e [] h = ([], refl, refl, tt)
  process_each-nonce_request packet request e (s ∷ signers) ((i, k), h) =
      let (sent, same, f) = inbound-nonce_request packet request s e i k in
      let (out, g, msgs, rest) = process_each-nonce_request packet request e signers h in
      (sent ∷ out, rw (f, g) refl, ground (arith, same, msgs), ((i, k), rest))

  -- Idle signers ignore the nonces of others.
  pub nonce_response-IsIgnored : IsIgnored Net.nonce_response
  unfolding process handle advance public_shares_done can_dkg_end
  nonce_response-IsIgnored x s at_rest = ground (arith, at_rest)
