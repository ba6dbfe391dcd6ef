-- ===== src/StateMachine/Coordinator/Frost/BatchResult.antt =====
-- src/state_machine/coordinator/frost.rs: the end of a signing round, once the signature shares of
-- every signer are there.
use wsts.Prelude.{
  ℕ, suc, ◌<◌, ◌≡◌, refl, sym, ap, ◌∙◌, Bool, Option, some, none, List, [], ◌∷◌, ◌++◌, map,
  flat_map, arith, range, range_from, length, length-map, length-range_from, resize,
}
use wsts.Prelude.Maps.{keys}
use wsts.Prelude.Sorted.{insert_all, traverse-insert_all}
use wsts.Prelude.Outcome.{ok}
use wsts.Curve.{Curve, Bytes}
use wsts.Common.{SignatureShare}
use wsts.Net
use wsts.Net.{Packet, NonceResponse, SignatureShareResponse}
use wsts.Traits.{AggregatorTrait}
use wsts.StateMachine.{OperationResult}
use wsts.StateMachine.Coordinator.{idle}
use wsts.StateMachine.Coordinator.Frost.{Coordinator}
use wsts.StateMachine.Coordinator.Frost.Signing.{finish_sig_shares, all_nonce_responses, all_shares}
use wsts.StateMachine.Coordinator.Frost.Batch.{taken_all, ExpectsAll, inbound_loop-batch}
use wsts.StateMachine.Coordinator.Frost.BatchShares.{
  with_shares, Signs, Expects, HasResult, finish-result, process_message-more,
  process_message-finish,
}
use wsts.StateMachine.Coordinator.Frost.Process.{
  process_message, inbound_loop, process_inbound_messages,
}

module _ ⦃c : Curve⦄ ⦃agg : AggregatorTrait⦄ (t : Bool) (r : Option Bytes) where
  -- The coordinator with the shares of several signers, in the order they came.
  abbrev with_all : List SignatureShareResponse → Coordinator → Coordinator
  with_all = taken_all Net.signature_share_response (λ x. x.signer_id) with_shares (Expects t r)

  abbrev pub AllExpected : Coordinator → List SignatureShareResponse → Type 0
  AllExpected = ExpectsAll Net.signature_share_response (λ x. x.signer_id) with_shares (Expects t r)

  all_nonce_responses-with_all :
      (xs : List SignatureShareResponse) (u : Coordinator)
      → all_nonce_responses (with_all xs u) ≡ all_nonce_responses u
  all_nonce_responses-with_all [] u = refl
  all_nonce_responses-with_all (x ∷ xs) u = all_nonce_responses-with_all xs (with_shares x u)

  Signs-with_all :
      (xs : List SignatureShareResponse) (u : Coordinator) (responses : List NonceResponse)
      (shares : List SignatureShare) (result : OperationResult)
      → Signs t r u responses shares result
      → Signs t r (with_all xs u) responses shares result
  Signs-with_all [] u responses shares result h = h
  Signs-with_all (x ∷ xs) u responses shares result h =
      Signs-with_all xs (with_shares x u) responses shares result (kept result h)
    where
      kept :
          (result : OperationResult)
          → Signs t r u responses shares result
          → Signs t r (with_shares x u) responses shares result
      kept (OperationResult.sign sig) h = h
      kept (OperationResult.sign_taproot proof) h = h
      kept (OperationResult.dkg key) h = h

  all_shares-with_all :
      (xs : List SignatureShareResponse) (u : Coordinator) (n : ℕ)
      → keys u.public_nonces ≡ range n
      → map (λ x. x.signer_id) xs ≡ range n
      → all_shares (with_all xs u) ≡ some (map (λ x. x.signature_shares) xs)
  all_shares-with_all xs u n asked ids =
      rw ((kept xs u).0, (kept xs u).1, asked)
        (traverse-insert_all (λ x. x.signer_id) (λ x. x.signature_shares) xs u.signature_shares 0 n
          ids)
    where
      kept :
          (xs : List SignatureShareResponse) (u : Coordinator)
          → ((with_all xs u).public_nonces ≡ u.public_nonces)
            × ((with_all xs u).signature_shares
                ≡ insert_all (λ x. x.signer_id) (λ x. x.signature_shares) xs u.signature_shares)
      kept [] u = (refl, refl)
      kept (x ∷ xs) u = kept xs (with_shares x u)

  inbound_loop-result :
      (packet : Packet) (s s' : Coordinator) (outbound : List Packet)
      (results : List OperationResult) (result : OperationResult)
      → process_message packet s ≡ (s', ok (some (none, some result)))
      → inbound_loop (packet ∷ []) outbound results s ≡ (s', ok (outbound, results ++ result ∷ []))
  unfolding inbound_loop
  inbound_loop-result packet s s' outbound results result h = rw h refl

  -- A coordinator that awaits all signers, and one packet with signature shares of each, in their
  -- order.
  pub shares-result :
      (u : Coordinator) (xs : List SignatureShareResponse) (packets : List Packet)
      (responses : List NonceResponse) (result : OperationResult)
      → 0 < u.total_signers
      → u.ids_to_await ≡ range u.total_signers
      → keys u.public_nonces ≡ range u.total_signers
      → all_nonce_responses u ≡ some responses
      → AllExpected u xs
      → map (λ x. x.signer_id) xs ≡ range u.total_signers
      → map (λ packet. packet.msg) packets ≡ map Net.signature_share_response xs
      → Signs t r u responses (flat_map (λ ss. ss) (map (λ x. x.signature_shares) xs)) result
      → (u' : Coordinator) × (process_inbound_messages packets u ≡ (u', ok ([], result ∷ [])))
        × (u'.state ≡ idle)
        × HasResult t r u' result
  unfolding process_inbound_messages
  shares-result u [] packets responses result some_signer awaits asked found expects ids e signs =
      absurd (
        omega (arith, some_signer, sym (length-range_from 0 u.total_signers) ∙ sym (ap length ids)))
  shares-result u (x ∷ xs) packets responses result some_signer awaits asked found expects ids e
        signs =
      let whole : range u.total_signers ≡ range_from 0 (suc (length xs)) =
        resize 0 0 u.total_signers (suc (length xs)) refl (
          sym (length-range_from 0 u.total_signers)
          ∙ sym (ap length ids)
          ∙ length-map (x ∷ xs) (λ x. x.signer_id)) in
      let (s', last, y, fits, same, alone, all, left) =
        inbound_loop-batch Net.signature_share_response (λ x. x.signer_id) with_shares (Expects t r)
          (process_message-more t r) (λ x y s h. h) (λ x s. refl) x xs packets u 0 [] [] e expects
          (ids ∙ whole) (awaits ∙ whole) in
      let (u', done, rests, has) =
        finish-result t r (with_all (x ∷ xs) u) responses (map (λ x. x.signature_shares) (x ∷ xs))
          result (sym (ap (λ s. s.state) all) ∙ fits.0)
          (all_nonce_responses-with_all (x ∷ xs) u ∙ found)
          (all_shares-with_all (x ∷ xs) u u.total_signers asked ids)
          (Signs-with_all (x ∷ xs) u responses _ result signs) in
      (
        u',
        left
            ∙ inbound_loop-result last s' u' [] [] result (
                process_message-finish t r last y s' u' result fits same alone
                  (ap (finish_sig_shares t r) all ∙ done) rests has),
        rests,
        has,
      )
