-- ===== src/StateMachine/Coordinator/Frost/Signing.antt =====
-- src/state_machine/coordinator/frost.rs: a signing round.
use wsts.Prelude.{
  ◌+◌, ◌%◌, ◌^◌, ◌==◌, Bool, true, false, Option, none, some, List, [], range, remove, is_empty,
  flat_map, traverse, if◌then◌else◌,
}
use wsts.Prelude.Maps.{lookup, insert_sorted, keys, values}
use wsts.Prelude.Outcome.{Outcome, err, require, value}
use wsts.Prelude.Run.{Run, ◌>>=◌, ◌>>◌, get, modify, lift, pure}
use wsts.Curve.{Curve, Point, Bytes}
use wsts.Common.{SignatureShare}
use wsts.Compute.{intermediate}
use wsts.Net
use wsts.Net.{NonceResponse, SignatureShareResponse, Message, Packet, signed}
use wsts.Traits.{AggregatorTrait}
use wsts.StateMachine.Coordinator.{
  nonce_request, nonce_gather, sig_share_request, sig_share_gather, idle, Error, bad_dkg_id,
  bad_sign_id, bad_sign_iter_id, missing_aggregate_public_key,
}
use wsts.StateMachine.Coordinator.Frost.{Coordinator, move_to, on_aggregator}

module _ ⦃c : Curve⦄ ⦃agg : AggregatorTrait⦄ where
  unfoldable pub request_nonces : Bool → Option Bytes → Run Coordinator Error Packet
  unfolding move_to
  request_nonces is_taproot merkle_root = do
    modify (λ s. record s { public_nonces = [] })
    self ← get
    packet ← lift (
        value (
          signed self.message_private_key (
            Net.nonce_request (record {
              dkg_id = self.current_dkg_id;
              sign_id = self.current_sign_id;
              sign_iter_id = self.current_sign_iter_id;
            }))))
    modify (λ s. record s { ids_to_await = range s.total_signers })
    move_to (nonce_gather is_taproot merkle_root)
    pure packet

  abbrev pub has_key : Option Point → Outcome Error (Unit {0})
  has_key none = err missing_aggregate_public_key
  has_key (some key) = value (some tt)

  unfoldable pub start_signing_round : Bool → Option Bytes → Run Coordinator Error Packet
  unfolding request_nonces
  start_signing_round is_taproot merkle_root = do
    self ← get
    lift (has_key self.aggregate_public_key)
    modify (λ s. record s { current_sign_id = (s.current_sign_id + 1) % 2 ^ 64 })
    move_to (nonce_request is_taproot merkle_root)
    request_nonces is_taproot merkle_root

  abbrev receive_nonces : NonceResponse → Run Coordinator Error (Unit {0})
  receive_nonces response = do
    self ← get
    lift (
        require (response.dkg_id == self.current_dkg_id)
          (bad_dkg_id response.dkg_id self.current_dkg_id))
    lift (
        require (response.sign_id == self.current_sign_id)
          (bad_sign_id response.sign_id self.current_sign_id))
    lift (
        require (response.sign_iter_id == self.current_sign_iter_id)
          (bad_sign_iter_id response.sign_iter_id self.current_sign_iter_id))
    modify (λ s. record s {
      public_nonces = insert_sorted response.signer_id response s.public_nonces;
      ids_to_await = remove response.signer_id s.ids_to_await;
    })

  abbrev pub accept_nonces : Message → Run Coordinator Error (Unit {0})
  accept_nonces (Net.nonce_response response) = receive_nonces response
  accept_nonces other = pure tt

  -- The point that `gather_nonces` writes to the log.
  unfoldable pub compute_aggregate_nonce : Coordinator → Point
  compute_aggregate_nonce self =
      (intermediate self.message (flat_map (λ pn. pn.key_ids) (values self.public_nonces))
        (flat_map (λ pn. pn.nonces) (values self.public_nonces))).1

  unfoldable pub gather_nonces : Packet → Bool → Option Bytes → Run Coordinator Error (Unit {0})
  unfolding move_to
  gather_nonces packet is_taproot merkle_root = do
    accept_nonces packet.msg
    self ← get
    if is_empty self.ids_to_await
        then move_to (sig_share_request is_taproot merkle_root)
        else pure tt

  -- `(0..self.total_signers).map(|i| self.public_nonces[&i].clone())`
  abbrev pub all_nonce_responses : Coordinator → Option (List NonceResponse)
  all_nonce_responses self = traverse (λ i. lookup i self.public_nonces) (range self.total_signers)

  unfoldable pub request_sig_shares : Bool → Option Bytes → Run Coordinator Error Packet
  unfolding move_to
  request_sig_shares is_taproot merkle_root = do
    modify (λ s. record s { signature_shares = [] })
    self ← get
    nonce_responses ← lift (value (all_nonce_responses self))
    packet ← lift (
        value (
          signed self.message_private_key (
            Net.signature_share_request (record {
              dkg_id = self.current_dkg_id;
              sign_id = self.current_sign_id;
              sign_iter_id = self.current_sign_iter_id;
              nonce_responses = nonce_responses;
              message = self.message;
              is_taproot = is_taproot;
              merkle_root = merkle_root;
            }))))
    modify (λ s. record s { ids_to_await = range s.total_signers })
    move_to (sig_share_gather is_taproot merkle_root)
    pure packet

  abbrev pub receive_sig_shares : SignatureShareResponse → Run Coordinator Error (Unit {0})
  receive_sig_shares response = do
    self ← get
    lift (
        require (response.dkg_id == self.current_dkg_id)
          (bad_dkg_id response.dkg_id self.current_dkg_id))
    lift (
        require (response.sign_id == self.current_sign_id)
          (bad_sign_id response.sign_id self.current_sign_id))
    modify (λ s. record s {
      signature_shares =
          insert_sorted response.signer_id response.signature_shares s.signature_shares;
      ids_to_await = remove response.signer_id s.ids_to_await;
    })

  abbrev pub accept_sig_shares : Message → Run Coordinator Error (Unit {0})
  accept_sig_shares (Net.signature_share_response response) = receive_sig_shares response
  accept_sig_shares other = pure tt

  -- The shares of the signers that sent nonces; `None` where one sent no share.
  abbrev pub all_shares : Coordinator → Option (List (List SignatureShare))
  all_shares self = traverse (λ i. lookup i self.signature_shares) (keys self.public_nonces)

  unfoldable pub sign_group :
      List NonceResponse
      → List SignatureShare
      → Bool
      → Option Bytes
      → Run Coordinator Error (Unit {0})
  sign_group responses shares true merkle_root = do
    self ← get
    proof ← on_aggregator (
        agg.sign_taproot self.message (flat_map (λ nr. nr.nonces) responses) shares
          (flat_map (λ nr. nr.key_ids) responses) merkle_root)
    modify (λ s. record s { schnorr_proof = some proof })
  sign_group responses shares false merkle_root = do
    self ← get
    sig ← on_aggregator (
        agg.sign self.message (flat_map (λ nr. nr.nonces) responses) shares
          (flat_map (λ nr. nr.key_ids) responses))
    modify (λ s. record s { signature = some sig })

  -- What `gather_sig_shares` does once no signer is awaited.
  unfoldable pub finish_sig_shares : Bool → Option Bytes → Run Coordinator Error (Unit {0})
  unfolding move_to
  finish_sig_shares is_taproot merkle_root = do
    self ← get
    responses ← lift (value (all_nonce_responses self))
    shares ← lift (value (all_shares self))
    on_aggregator (agg.init (values self.party_polynomials))
    sign_group responses (flat_map (λ ss. ss) shares) is_taproot merkle_root
    move_to idle

  unfoldable pub gather_sig_shares : Packet → Bool → Option Bytes → Run Coordinator Error (Unit {0})
  gather_sig_shares packet is_taproot merkle_root = do
    accept_sig_shares packet.msg
    self ← get
    if is_empty self.ids_to_await then finish_sig_shares is_taproot merkle_root else pure tt
