-- ===== src/StateMachine/Coordinator/Frost/NonceEnd.antt =====
-- src/state_machine/coordinator/frost.rs: how `process_inbound_messages` ends a round of nonces.
use wsts.Prelude.{
  ℕ, ◌<◌, ◌≡◌, refl, ap, ◌∙◌, ◌⊎◌, inl, inr, Bool, false, Option, some, none, List, [], ◌∷◌, arith,
  remove, range, is_empty, ==_iff,
}
use mathlib.Core.Path.{subst}
use wsts.Prelude.Outcome.{ok}
use wsts.Curve.{Curve, Bytes}
use wsts.Net
use wsts.Net.{Message, Packet, NonceResponse}
use wsts.Net.Signed.{CanSign}
use wsts.Traits.{AggregatorTrait}
use wsts.StateMachine.Coordinator.{nonce_gather, sig_share_gather}
use wsts.StateMachine.Coordinator.Frost.{Coordinator}
use wsts.StateMachine.Coordinator.Frost.Signing.{all_nonce_responses}
use wsts.StateMachine.Coordinator.Frost.Nonces.{IsCovered, all_nonce_responses_of_IsCovered}
use wsts.StateMachine.Coordinator.Frost.Batch.{inbound_loop-more}
use wsts.StateMachine.Coordinator.Frost.BatchNonces.{
  IsCurrent, with_nonces, asking, reply_of, process_message-more, process_message-last,
}
use wsts.StateMachine.Coordinator.Frost.BatchRequest.{share_request, request_sig_shares-sends}
use wsts.StateMachine.Coordinator.Frost.Process.{
  process_message, inbound_loop, process_inbound_messages,
}
use wsts.StateMachine.Coordinator.Frost.NonceArrivals.{
  range-is_empty, IsUnrelated, AllFit, AllFit-with_nonces, IsCovered-with_nonces, AllAnswered,
  AllAnswered-with_nonces, process_message-unrelated, inbound_loop-late,
}

list_cases : (xs : List ℕ) → (xs ≡ []) ⊎ ((i : ℕ) × (is : List ℕ) × (xs ≡ i ∷ is))
list_cases [] = inl refl
list_cases (i ∷ is) = inr (i, is, refl)

module _ ⦃c : Curve⦄ ⦃agg : AggregatorTrait⦄ where
  module _ (t : Bool) (r : Option Bytes) where
    inbound_loop-reply :
        (packet sent : Packet) (packets : List Packet) (s u : Coordinator)
        → process_message packet s ≡ (u, ok (some (some sent, none)))
        → inbound_loop (packet ∷ packets) [] [] s ≡ inbound_loop packets (sent ∷ []) [] u
    unfolding inbound_loop
    inbound_loop-reply packet sent packets s u h = rw h refl

    -- The coordinator asks for signature shares, and says nothing else.
    abbrev Asks : Coordinator → List Packet → Type 0
    Asks s packets =
        (u : Coordinator) × (sent : Packet) × (responses : List NonceResponse) × (inbound_loop
            packets [] [] s
          ≡ (u, ok (sent ∷ [], [])))
        × (sent.msg ≡ Net.signature_share_request (share_request t r s responses))
        × (all_nonce_responses u ≡ some responses)
        × (u.state ≡ sig_share_gather t r)
        × (u.ids_to_await ≡ range s.total_signers)

    last-Asks :
        (packet : Packet) (packets : List Packet) (response : NonceResponse) (s : Coordinator)
        → 0 < s.total_signers
        → s.state ≡ nonce_gather t r
        → CanSign s.message_private_key
        → IsCovered s
        → packet.msg ≡ Net.nonce_response response
        → IsCurrent s response
        → AllFit s packets
        → remove response.signer_id s.ids_to_await ≡ []
        → Asks s (packet ∷ packets)
    last-Asks packet packets response s some_signer at signs covered e current fit left =
        let v : Coordinator = with_nonces response s in
        let (responses, found) =
          all_nonce_responses_of_IsCovered v (IsCovered-with_nonces response s covered) left in
        let (sent, asks, done) =
          request_sig_shares-sends t r (asking t r v) responses signs refl found in
        let u : Coordinator = record v {
          signature_shares = [];
          ids_to_await = range s.total_signers;
          state = sig_share_gather t r;
        } in
        (
          u,
          sent,
          responses,
          inbound_loop-reply packet sent packets s u (
                process_message-last t r packet response s (at, current) e left
                ∙ ap (reply_of t r) done)
              ∙ inbound_loop-late t r packets (sent ∷ []) s u refl
                  (range-is_empty s.total_signers some_signer) fit,
          asks,
          found,
          refl,
          refl,
        )

    more-Asks :
        (packet : Packet) (packets : List Packet) (s s' : Coordinator)
        → process_message packet s ≡ (s', ok (some (none, none)))
        → ((responses : List NonceResponse)
            → share_request t r s' responses ≡ share_request t r s responses)
        → s'.total_signers ≡ s.total_signers
        → Asks s' packets
        → Asks s (packet ∷ packets)
    more-Asks packet packets s s' h same total (u, sent, responses, e, asks, found, at, awaits) = (
      u,
      sent,
      responses,
      inbound_loop-more packet packets s s' [] [] h ∙ e,
      asks ∙ ap Net.signature_share_request (same responses),
      found,
      at,
      awaits ∙ ap range total,
    )

    -- What holds while nonces are gathered.
    abbrev Gathers : Coordinator → List Packet → Type 0
    Gathers s packets =
        (0 < s.total_signers)
        × (s.state ≡ nonce_gather t r)
        × CanSign s.message_private_key
        × IsCovered s
        × AllFit s packets
        × AllAnswered s packets

    nobody_left : (s : Coordinator) → is_empty s.ids_to_await ≡ false → AllAnswered s [] → ⊥
    nobody_left s awaits answered = elim (list_cases s.ids_to_await) [
      | inl e ↦ cc (awaits, ap is_empty e)
      | inr (i, is, e) ↦ answered i (rw e (ground (arith, ==_iff i i)))
    ]

    unrelated-AllAnswered :
        (packet : Packet) (packets : List Packet) (s : Coordinator)
        → IsUnrelated packet.msg
        → AllAnswered s (packet ∷ packets)
        → AllAnswered s packets
    unrelated-AllAnswered packet packets s h answered i waiting = elim (answered i waiting) [
      | inl (response, e, id) ↦ absurd (subst IsUnrelated e h)
      | inr later ↦ later
    ]

    inbound_loop-Asks :
        (packets : List Packet) (s : Coordinator)
        → is_empty s.ids_to_await ≡ false
        → Gathers s packets
        → Asks s packets
    inbound_loop-Asks [] s awaits (some_signer, at, signs, covered, fit, answered) =
        absurd (nobody_left s awaits answered)
    inbound_loop-Asks (packet ∷ packets) s awaits
          (some_signer, at, signs, covered, (inr h, fit), answered) =
        more-Asks packet packets s s (process_message-unrelated t r packet s at awaits h)
          (λ responses. refl) refl
          (inbound_loop-Asks packets s awaits (
            some_signer,
            at,
            signs,
            covered,
            fit,
            unrelated-AllAnswered packet packets s h answered,
          ))
    inbound_loop-Asks (packet ∷ packets) s awaits
          (some_signer, at, signs, covered, (inl (response, e, current), fit), answered) =
        elim (list_cases (remove response.signer_id s.ids_to_await)) [
          | inl left ↦
              last-Asks packet packets response s some_signer at signs covered e current fit left
          | inr (i, is, left) ↦
              more-Asks packet packets s (with_nonces response s)
                (process_message-more t r packet response s i is (at, current) e left)
                (λ responses. refl) refl
                (inbound_loop-Asks packets (with_nonces response s) (ap is_empty left) (
                  some_signer,
                  at,
                  signs,
                  IsCovered-with_nonces response s covered,
                  AllFit-with_nonces response packets s fit,
                  AllAnswered-with_nonces packet response packets s e answered,
                ))
        ]

    -- A coordinator of at least one signer, with a private key with which ecdsa signs, gathers nonces
    -- and awaits somebody; every signer is awaited or its nonces are recorded. Packets arrive in
    -- whatever order and number, each with nonces for the current rounds or with neither nonces nor
    -- signature shares, and every awaited signer's nonces are among them. Then
    -- `process_inbound_messages` succeeds with one packet and no result: the request for signature
    -- shares, for the coordinator's rounds and message, with the recorded nonces of every signer in
    -- order. It gathers signature shares and awaits all signers.
    pub process_inbound_messages-asks :
        (packets : List Packet) (s : Coordinator)
        → 0 < s.total_signers
        → CanSign s.message_private_key
        → s.state ≡ nonce_gather t r
        → is_empty s.ids_to_await ≡ false
        → IsCovered s
        → AllFit s packets
        → AllAnswered s packets
        → (u : Coordinator) × (sent : Packet) × (responses : List NonceResponse)
          × (process_inbound_messages packets s ≡ (u, ok (sent ∷ [], [])))
          × (sent.msg ≡ Net.signature_share_request (share_request t r s responses))
          × (all_nonce_responses u ≡ some responses)
          × (u.state ≡ sig_share_gather t r)
          × (u.ids_to_await ≡ range s.total_signers)
    unfolding process_inbound_messages
    process_inbound_messages-asks packets s some_signer signs at awaits covered fit answered =
        inbound_loop-Asks packets s awaits (some_signer, at, signs, covered, fit, answered)
