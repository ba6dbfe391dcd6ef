-- ===== src/StateMachine/Coordinator/Frost/BatchShares.antt =====
-- src/state_machine/coordinator/frost.rs: the signature shares of every signer in one call of
-- `process_inbound_messages`.
use wsts.Prelude.{
  ℕ, ◌≡◌, refl, Bool, true, false, Option, some, none, List, [], ◌∷◌, flat_map, arith, remove,
}
use wsts.Prelude.Maps.{insert_sorted, values}
use wsts.Prelude.Outcome.{ok}
use wsts.Curve.{Curve, Bytes}
use wsts.Common.{SignatureShare}
use wsts.Net
use wsts.Net.{Packet, NonceResponse, SignatureShareResponse}
use wsts.Traits.{AggregatorTrait}
use wsts.StateMachine.{OperationResult, sign, sign_taproot}
use wsts.StateMachine.Coordinator.{sig_share_gather, idle}
use wsts.StateMachine.Coordinator.Frost.{Coordinator, accepted}
use wsts.StateMachine.Coordinator.Frost.Signing.{
  gather_sig_shares, finish_sig_shares, sign_group, all_nonce_responses, all_shares,
}
use wsts.StateMachine.Coordinator.Frost.Process.{turn, turns, process_message}

module _ ⦃c : Curve⦄ ⦃agg : AggregatorTrait⦄ where
  -- The coordinator with the shares of a signer.
  abbrev pub with_shares : SignatureShareResponse → Coordinator → Coordinator
  with_shares response s = record s {
    signature_shares =
        insert_sorted response.signer_id response.signature_shares s.signature_shares;
    ids_to_await = remove response.signer_id s.ids_to_await;
  }

  -- What the aggregator makes of nonces, shares and key ids, and the result that it stands for.
  abbrev pub Signs :
      Bool
      → Option Bytes
      → Coordinator
      → List NonceResponse
      → List SignatureShare
      → OperationResult
      → Type 0
  Signs t r u responses shares (sign sig) =
      (t ≡ false)
      × (a : agg.Self) × (a' : agg.Self) × (agg.init (values u.party_polynomials) u.aggregator
          ≡ (a, ok tt))
      × (agg.sign u.message (flat_map (λ nr. nr.nonces) responses) shares
            (flat_map (λ nr. nr.key_ids) responses) a
          ≡ (a', ok sig))
  Signs t r u responses shares (sign_taproot proof) =
      (t ≡ true)
      × (a : agg.Self) × (a' : agg.Self) × (agg.init (values u.party_polynomials) u.aggregator
          ≡ (a, ok tt))
      × (agg.sign_taproot u.message (flat_map (λ nr. nr.nonces) responses) shares
            (flat_map (λ nr. nr.key_ids) responses) r a
          ≡ (a', ok proof))
  Signs t r u responses shares (OperationResult.dkg key) = ⊥

  module _ (t : Bool) (r : Option Bytes) where
    -- A coordinator that gathers signature shares expects those for its rounds.
    abbrev pub Expects : Coordinator → SignatureShareResponse → Type 0
    Expects s response =
        (s.state ≡ sig_share_gather t r)
        × (response.dkg_id ≡ s.current_dkg_id)
        × (response.sign_id ≡ s.current_sign_id)

    pub process_message-more :
        (packet : Packet) (response : SignatureShareResponse) (s : Coordinator) (i : ℕ)
        (is : List ℕ)
        → Expects s response
        → packet.msg ≡ Net.signature_share_response response
        → remove response.signer_id s.ids_to_await ≡ i ∷ is
        → process_message packet s ≡ (with_shares response s, ok (some (none, none)))
    unfolding process_message turns turn gather_sig_shares
    process_message-more packet response s i is (gathers, a, b) e left = ground arith

    -- A coordinator that is done, with the result.
    abbrev pub HasResult : Coordinator → OperationResult → Type 0
    HasResult s (sign sig) = (t ≡ false) × (s.signature ≡ some sig)
    HasResult s (sign_taproot proof) = (t ≡ true) × (s.schnorr_proof ≡ some proof)
    HasResult s (OperationResult.dkg key) = ⊥

    pub finish-result :
        (u : Coordinator) (responses : List NonceResponse) (shares : List (List SignatureShare))
        (result : OperationResult)
        → u.state ≡ sig_share_gather t r
        → all_nonce_responses u ≡ some responses
        → all_shares u ≡ some shares
        → Signs t r u responses (flat_map (λ ss. ss) shares) result
        → (s' : Coordinator) × (finish_sig_shares t r u ≡ (s', ok tt))
          × (s'.state ≡ idle)
          × HasResult s' result
    unfolding finish_sig_shares sign_group accepted
    finish-result u responses shares (sign sig) gathers found all (f, x, y, i, o) = (
      record u { aggregator = y; signature = some sig; state = idle },
      rw (found, all, i, f, o) refl,
      refl,
      (f, refl),
    )
    finish-result u responses shares (sign_taproot proof) gathers found all (f, x, y, i, o) = (
      record u { aggregator = y; schnorr_proof = some proof; state = idle },
      rw (found, all, i, f, o) refl,
      refl,
      (f, refl),
    )
    finish-result u responses shares (OperationResult.dkg key) gathers found all h = absurd h

    pub process_message-finish :
        (packet : Packet) (response : SignatureShareResponse) (s s' : Coordinator)
        (result : OperationResult)
        → Expects s response
        → packet.msg ≡ Net.signature_share_response response
        → remove response.signer_id s.ids_to_await ≡ []
        → finish_sig_shares t r (with_shares response s) ≡ (s', ok tt)
        → s'.state ≡ idle
        → HasResult s' result
        → process_message packet s ≡ (s', ok (some (none, some result)))
    unfolding process_message turns turn gather_sig_shares
    process_message-finish packet response s s' (sign sig) (gathers, a, b) e left done rests
          (f, g) =
        ground (arith, gathers, a, b, e, left, done, rests, f, g)
    process_message-finish packet response s s' (sign_taproot proof) (gathers, a, b) e left done
          rests (f, g) =
        ground (arith, gathers, a, b, e, left, done, rests, f, g)
    process_message-finish packet response s s' (OperationResult.dkg key) h e left done rests x =
        absurd x
