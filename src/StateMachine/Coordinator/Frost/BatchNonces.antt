-- ===== src/StateMachine/Coordinator/Frost/BatchNonces.antt =====
-- src/state_machine/coordinator/frost.rs: the nonces of every signer in one call of
-- `process_inbound_messages`.
use wsts.Prelude.{
  ℕ, suc, ◌≡◌, refl, ap, ◌∙◌, Bool, Option, some, none, List, [], ◌∷◌, ◌++◌, map, arith, remove,
  range_from, length,
}
use wsts.Prelude.Maps.{insert_sorted}
use wsts.Prelude.Outcome.{Outcome, ok, err, panic}
use wsts.Curve.{Curve, Bytes}
use wsts.Net
use wsts.Net.{Message, Packet, NonceResponse}
use wsts.Traits.{AggregatorTrait}
use wsts.StateMachine.{OperationResult}
use wsts.StateMachine.Coordinator.{nonce_gather, sig_share_request, Error}
use wsts.StateMachine.Coordinator.Frost.{Coordinator, is}
use wsts.StateMachine.Coordinator.Frost.Signing.{gather_nonces, request_sig_shares}
use wsts.StateMachine.Coordinator.Frost.Batch.{taken_all, ExpectsAll, inbound_loop-batch}
use wsts.StateMachine.Coordinator.Frost.Process.{turn, turns, process_message, inbound_loop, Reply}

module _ ⦃c : Curve⦄ ⦃agg : AggregatorTrait⦄ where
  -- The nonces are for the rounds that the coordinator is in.
  abbrev pub IsCurrent : Coordinator → NonceResponse → Type 0
  IsCurrent s response =
      (response.dkg_id ≡ s.current_dkg_id)
      × (response.sign_id ≡ s.current_sign_id)
      × (response.sign_iter_id ≡ s.current_sign_iter_id)

  -- The coordinator with the nonces of a signer.
  abbrev pub with_nonces : NonceResponse → Coordinator → Coordinator
  with_nonces response s = record s {
    public_nonces = insert_sorted response.signer_id response s.public_nonces;
    ids_to_await = remove response.signer_id s.ids_to_await;
  }

  module _ (t : Bool) (r : Option Bytes) where
    -- A coordinator that gathers nonces expects those for its rounds.
    abbrev pub Expects : Coordinator → NonceResponse → Type 0
    Expects s response = (s.state ≡ nonce_gather t r) × IsCurrent s response

    pub process_message-more :
        (packet : Packet) (response : NonceResponse) (s : Coordinator) (i : ℕ) (is : List ℕ)
        → Expects s response
        → packet.msg ≡ Net.nonce_response response
        → remove response.signer_id s.ids_to_await ≡ i ∷ is
        → process_message packet s ≡ (with_nonces response s, ok (some (none, none)))
    unfolding process_message turns turn gather_nonces
    process_message-more packet response s i is (gathers, current) e left = ground arith

    -- The state in which a coordinator asks for signature shares.
    abbrev pub asking : Coordinator → Coordinator
    asking s = record s { state = sig_share_request t r }

    abbrev pub reply_of :
        Coordinator × Outcome Error Packet → Coordinator × Outcome Error (Option Reply)
    reply_of (s, ok packet) = (s, ok (some (some packet, none)))
    reply_of (s, err e) = (s, err e)
    reply_of (s, panic) = (s, panic)

    pub process_message-last :
        (packet : Packet) (response : NonceResponse) (s : Coordinator)
        → Expects s response
        → packet.msg ≡ Net.nonce_response response
        → remove response.signer_id s.ids_to_await ≡ []
        → process_message packet s
          ≡ reply_of (request_sig_shares t r (asking (with_nonces response s)))
    unfolding process_message turns turn gather_nonces
    process_message-last packet response s (gathers, current) e left = ground arith

    -- The packets that the coordinator sends if its last step sends one.
    abbrev pub sends :
        List Packet
        → List OperationResult
        → Coordinator × Outcome Error Packet
        → Coordinator × Outcome Error (List Packet × List OperationResult)
    sends outbound results (s, ok packet) = (s, ok (outbound ++ packet ∷ [], results))
    sends outbound results (s, err e) = (s, err e)
    sends outbound results (s, panic) = (s, panic)

    inbound_loop-last :
        (packet : Packet) (s : Coordinator) (asked : Coordinator × Outcome Error Packet)
        (outbound : List Packet) (results : List OperationResult)
        → process_message packet s ≡ reply_of asked
        → inbound_loop (packet ∷ []) outbound results s ≡ sends outbound results asked
    unfolding inbound_loop
    inbound_loop-last packet s (s', ok sent) outbound results h = rw h refl
    inbound_loop-last packet s (s', err e) outbound results h = rw h refl
    inbound_loop-last packet s (s', panic) outbound results h = rw h refl

    -- The coordinator with the nonces of several signers, in the order they came.
    abbrev pub with_all : List NonceResponse → Coordinator → Coordinator
    with_all = taken_all Net.nonce_response (λ nr. nr.signer_id) with_nonces Expects

    abbrev pub AllExpected : Coordinator → List NonceResponse → Type 0
    AllExpected = ExpectsAll Net.nonce_response (λ nr. nr.signer_id) with_nonces Expects

    pub inbound_loop-nonces :
        (response : NonceResponse) (responses : List NonceResponse) (packets : List Packet)
        (s : Coordinator) (a : ℕ) (outbound : List Packet) (results : List OperationResult)
        → map (λ packet. packet.msg) packets ≡ map Net.nonce_response (response ∷ responses)
        → AllExpected s (response ∷ responses)
        → map (λ nr. nr.signer_id) (response ∷ responses) ≡ range_from a (suc (length responses))
        → s.ids_to_await ≡ range_from a (suc (length responses))
        → inbound_loop packets outbound results s
          ≡ sends outbound results
              (request_sig_shares t r (asking (with_all (response ∷ responses) s)))
    inbound_loop-nonces response responses packets s a outbound results e expects ids awaits =
        let (s', last, y, fits, same, alone, all, left) =
          inbound_loop-batch Net.nonce_response (λ nr. nr.signer_id) with_nonces Expects
            process_message-more (λ x y s h. h) (λ x s. refl) response responses packets s a
            outbound results e expects ids awaits in
        left
        ∙ inbound_loop-last last s' (request_sig_shares t r (asking (with_nonces y s'))) outbound
            results (process_message-last last y s' fits same alone)
        ∙ ap (λ u. sends outbound results (request_sig_shares t r (asking u))) all
