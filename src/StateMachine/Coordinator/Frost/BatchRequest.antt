-- ===== src/StateMachine/Coordinator/Frost/BatchRequest.antt =====
-- src/state_machine/coordinator/frost.rs: the request for signature shares that follows the nonces
-- of every signer.
use wsts.Prelude.{
  ◌+◌, ◌≡◌, refl, ap, ◌∙◌, Bool, Option, some, List, [], ◌∷◌, map, arith, range, resize,
}
use wsts.Prelude.Maps.{keys}
use wsts.Prelude.Sorted.{insert_all, traverse-insert_all, keys-insert_all}
use wsts.Prelude.Outcome.{ok}
use wsts.Curve.{Curve, Bytes}
use wsts.Net
use wsts.Net.{Message, Packet, NonceResponse, SignatureShareRequest}
use wsts.Net.Signed.{CanSign, signed-hash}
use wsts.Traits.{AggregatorTrait}
use wsts.StateMachine.Coordinator.{sig_share_request, sig_share_gather}
use wsts.StateMachine.Coordinator.Frost.{Coordinator}
use wsts.StateMachine.Coordinator.Frost.Signing.{request_sig_shares, all_nonce_responses}
use wsts.StateMachine.Coordinator.Frost.BatchNonces.{with_nonces, with_all, asking}

map_self : {A : Type 0} (xs : List A) → map (λ x. x) xs ≡ xs
map_self [] = refl
map_self (x ∷ xs) = ap (λ ys. x ∷ ys) (map_self xs)

module _ ⦃c : Curve⦄ ⦃agg : AggregatorTrait⦄ (t : Bool) (r : Option Bytes) where
  public_nonces-with_all :
      (responses : List NonceResponse) (s : Coordinator)
      → (with_all t r responses s).public_nonces
        ≡ insert_all (λ nr. nr.signer_id) (λ nr. nr) responses s.public_nonces
  public_nonces-with_all [] s = refl
  public_nonces-with_all (response ∷ responses) s =
      public_nonces-with_all responses (with_nonces response s)

  -- Only the nonces and the awaited signers change.
  pub with_all-keeps :
      (responses : List NonceResponse) (s : Coordinator)
      → ((with_all t r responses s).total_signers ≡ s.total_signers)
        × ((with_all t r responses s).message_private_key ≡ s.message_private_key)
  with_all-keeps [] s = (refl, refl)
  with_all-keeps (response ∷ responses) s = with_all-keeps responses (with_nonces response s)

  pub all_nonce_responses-with_all :
      (responses : List NonceResponse) (s : Coordinator)
      → map (λ nr. nr.signer_id) responses ≡ range s.total_signers
      → all_nonce_responses (asking t r (with_all t r responses s)) ≡ some responses
  all_nonce_responses-with_all responses s ids =
      rw ((with_all-keeps responses s).0, public_nonces-with_all responses s)
        (traverse-insert_all (λ nr. nr.signer_id) (λ nr. nr) responses s.public_nonces 0
            s.total_signers ids
          ∙ ap some (map_self responses))

  pub keys-with_all :
      (responses : List NonceResponse) (s : Coordinator)
      → s.public_nonces ≡ []
      → map (λ nr. nr.signer_id) responses ≡ range s.total_signers
      → keys (with_all t r responses s).public_nonces ≡ range s.total_signers
  keys-with_all responses s fresh ids =
      rw (public_nonces-with_all responses s, fresh)
        (keys-insert_all (λ nr. nr.signer_id) (λ nr. nr) responses [] 0 0 s.total_signers refl
            (ids ∙ resize 0 (0 + 0) s.total_signers s.total_signers refl refl)
          ∙ resize 0 0 (0 + s.total_signers) s.total_signers refl (omega arith))

  -- The request of a coordinator for signature shares.
  abbrev pub share_request : Coordinator → List NonceResponse → SignatureShareRequest
  share_request u responses = record {
    dkg_id = u.current_dkg_id;
    sign_id = u.current_sign_id;
    sign_iter_id = u.current_sign_iter_id;
    nonce_responses = responses;
    message = u.message;
    is_taproot = t;
    merkle_root = r;
  }

  -- A coordinator that has asked for signature shares, after the nonces of every signer.
  abbrev pub awaiting_shares : List NonceResponse → Coordinator → Coordinator
  awaiting_shares responses u = record (with_all t r responses u) {
    signature_shares = [];
    ids_to_await = range (with_all t r responses u).total_signers;
    state = sig_share_gather t r;
  }

  pub request_sig_shares-sends :
      (u : Coordinator) (responses : List NonceResponse)
      → CanSign u.message_private_key
      → u.state ≡ sig_share_request t r
      → all_nonce_responses u ≡ some responses
      → (sent : Packet) × (sent.msg ≡ Net.signature_share_request (share_request u responses))
        × (request_sig_shares t r u ≡ (
          record u {
            signature_shares = [];
            ids_to_await = range u.total_signers;
            state = sig_share_gather t r;
          },
          ok sent,
        ))
  unfolding request_sig_shares Net.hash
  request_sig_shares-sends u responses signs at h =
      let (sent, e, same) =
        signed-hash u.message_private_key (Net.signature_share_request (share_request u responses))
          (Net.hash_signature_share_request (share_request u responses)) signs refl in
      (sent, same, ground (arith, at, h, e))
