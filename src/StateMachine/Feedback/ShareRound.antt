-- ===== src/StateMachine/Feedback/ShareRound.antt =====
-- src/state_machine: the signers' two turns of the messages in a round of signature shares.
use wsts.Prelude.{
  ℕ, zero, suc, ◌+◌, ◌≤◌, ◌<◌, ◌≡◌, refl, ap, ◌∙◌, some, List, [], ◌∷◌, map, arith, range,
  range_from, ==_iff,
}
use wsts.Prelude.Outcome.{ok}
use wsts.Curve.{Curve}
use wsts.Channel.{Channel}
use wsts.Common.{SignatureShare}
use wsts.Net
use wsts.Net.{Message, Packet, SignatureShareRequest, SignatureShareResponse}
use wsts.Net.Signed.{CanSign, signed-hash}
use wsts.Traits.{SignerTrait}
use wsts.StateMachine.Signer.{idle, SigningRound}
use wsts.StateMachine.Signer.Dkg.{public_shares_done, can_dkg_end}
use wsts.StateMachine.Signer.Signing.{
  sign_share_request, answers, signed_by, response_to, request_signer_ids,
}
use wsts.StateMachine.Signer.Process.{
  handle, advance, process, process_inbound_messages, inbound_loop, sign_all,
}
use wsts.StateMachine.Feedback.{process_each}
use wsts.StateMachine.Feedback.Ignored.{AllReady, IsIgnored}

module _ ⦃c : Curve⦄ ⦃ch : Channel⦄ ⦃sgn : SignerTrait⦄ where
  abbrev pub share_response :
      SignatureShareRequest → ℕ → List SignatureShare → SignatureShareResponse
  share_response q signer_id shares = record {
    dkg_id = q.dkg_id;
    sign_id = q.sign_id;
    sign_iter_id = q.sign_iter_id;
    signer_id = signer_id;
    signature_shares = shares;
  }

  answers-others :
      (s : SigningRound) (q : SignatureShareRequest) (a n : ℕ)
      → s.signer_id < a
      → answers s q (range_from a n) ≡ some []
  unfolding answers
  answers-others s q a zero h = refl
  answers-others s q a (suc n) h =
      ground (arith, h, ==_iff a s.signer_id, answers-others s q (suc a) n (omega (arith, h)))

  -- A signer whose id a request mentions once answers once.
  answers-once :
      (s : SigningRound) (q : SignatureShareRequest) (shares : List SignatureShare) (a n : ℕ)
      → signed_by s q q.is_taproot ≡ some shares
      → a ≤ s.signer_id
      → s.signer_id < a + n
      → answers s q (range_from a n) ≡ some (response_to q s.signer_id shares ∷ [])
  unfolding answers
  answers-once s q shares a zero signs l h = absurd (omega (arith, l, h))
  answers-once s q shares a (suc n) signs l h =
      let later : a < s.signer_id
          → answers s q (range_from (suc a) n) ≡ some (response_to q s.signer_id shares ∷ []) =
        λ more. answers-once s q shares (suc a) n signs (omega (arith, more)) (omega (arith, h)) in
      ground (arith, signs, l, h, later, ==_iff a s.signer_id, answers-others s q (suc a) n)

  process-share_request :
      (q : SignatureShareRequest) (s : SigningRound) (shares : List SignatureShare) (n : ℕ)
      → s.state ≡ idle
      → request_signer_ids q ≡ range n
      → s.signer_id < n
      → signed_by s q q.is_taproot ≡ some shares
      → process (Net.signature_share_request q) s ≡ (s, ok (response_to q s.signer_id shares ∷ []))
  unfolding process handle advance sign_share_request public_shares_done can_dkg_end
  process-share_request q s shares n at_rest ids below signs = ground (
    arith,
    at_rest,
    ap (answers s q) ids ∙ answers-once s q shares 0 n signs (omega arith) (omega (arith, below)),
  )

  inbound-share_request :
      (packet : Packet) (q : SignatureShareRequest) (s : SigningRound)
      (shares : List SignatureShare) (n : ℕ)
      → packet.msg ≡ Net.signature_share_request q
      → s.state ≡ idle
      → CanSign s.network_private_key
      → request_signer_ids q ≡ range n
      → s.signer_id < n
      → signed_by s q q.is_taproot ≡ some shares
      → (sent : Packet) × (sent.msg ≡ response_to q s.signer_id shares)
        × (process_inbound_messages (packet ∷ []) s ≡ (s, ok (sent ∷ [])))
  unfolding process_inbound_messages inbound_loop sign_all Net.hash
  inbound-share_request packet q s shares n e at_rest signs ids below can =
      let reply : SignatureShareResponse = share_response q s.signer_id shares in
      let (sent, g, same) =
        signed-hash s.network_private_key (Net.signature_share_response reply)
          (Net.hash_signature_share_response reply) signs refl in
      (
        sent,
        same,
        rw (ap (λ m. process m s) e ∙ process-share_request q s shares n at_rest ids below can, g)
            refl,
      )

  -- Every signer can make the shares for a request, and these are they.
  abbrev pub AllSign :
      SignatureShareRequest → ℕ → List SigningRound → List (List SignatureShare) → Type 0
  AllSign q n [] [] = Unit {0}
  AllSign q n [] (shares ∷ rest) = ⊥
  AllSign q n (s ∷ signers) [] = ⊥
  AllSign q n (s ∷ signers) (shares ∷ rest) =
      (s.signer_id < n) × (signed_by s q q.is_taproot ≡ some shares) × AllSign q n signers rest

  -- Their answers.
  abbrev pub share_responses :
      SignatureShareRequest
      → List SigningRound
      → List (List SignatureShare)
      → List SignatureShareResponse
  share_responses q [] all = []
  share_responses q (s ∷ signers) [] = []
  share_responses q (s ∷ signers) (shares ∷ rest) =
      share_response q s.signer_id shares ∷ share_responses q signers rest

  -- Signers that are ready and can make shares answer a request in their order, and stay as they are.
  pub process_each-share_request :
      (packet : Packet) (q : SignatureShareRequest) (n : ℕ)
      → packet.msg ≡ Net.signature_share_request q
      → request_signer_ids q ≡ range n
      → (signers : List SigningRound) (all : List (List SignatureShare)) → AllReady signers
      → AllSign q n signers all
      → (out : List Packet) × (process_each (packet ∷ []) signers ≡ some (signers, out))
        × (map (λ sent. sent.msg) out
            ≡ map Net.signature_share_response (share_responses q signers all))
  unfolding process_each
  process_each-share_request packet q n e ids [] all h can = ([], refl, refl)
  process_each-share_request packet q n e ids (s ∷ signers) [] h can = absurd can
  process_each-share_request packet q n e ids (s ∷ signers) (shares ∷ all) ((i, k), h)
        (below, can, later) =
      let (sent, same, f) = inbound-share_request packet q s shares n e i k ids below can in
      let (out, g, msgs) = process_each-share_request packet q n e ids signers all h later in
      (sent ∷ out, rw (f, g) refl, ground (arith, same, msgs))

  -- Idle signers ignore the shares of others.
  pub share_response-IsIgnored : IsIgnored Net.signature_share_response
  unfolding process handle advance public_shares_done can_dkg_end
  share_response-IsIgnored x s at_rest = ground (arith, at_rest)
