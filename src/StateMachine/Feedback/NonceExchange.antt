-- ===== src/StateMachine/Feedback/NonceExchange.antt =====
-- src/state_machine: a round of nonces with signers in whatever order.
use wsts.Prelude.{
  ℕ, zero, suc, ◌+◌, ◌<◌, ◌≡◌, refl, sym, ap, ◌∙◌, ◌⊎◌, inl, inr, Bool, true, Option, some, List,
  [], ◌∷◌, map, arith, contains, contains-range_from, is_empty, range, range_from,
}
use mathlib.Core.Path.{subst}
use wsts.Prelude.Outcome.{ok}
use wsts.Curve.{Curve, Bytes}
use wsts.Channel.{Channel}
use wsts.Net
use wsts.Net.{Packet, NonceResponse}
use wsts.Net.Signed.{CanSign}
use wsts.Traits.{AggregatorTrait, SignerTrait}
use wsts.StateMachine.Signer.{SigningRound}
use wsts.StateMachine.Coordinator.{sig_share_gather}
use wsts.StateMachine.Coordinator.Frost.{Coordinator}
use wsts.StateMachine.Coordinator.Frost.Signing.{all_nonce_responses}
use wsts.StateMachine.Coordinator.Frost.Nonces.{IsCovered}
use wsts.StateMachine.Coordinator.Frost.NonceArrivals.{range-is_empty, IsAnswered, AllFit}
use wsts.StateMachine.Coordinator.Frost.NonceEnd.{process_inbound_messages-asks}
use wsts.StateMachine.Coordinator.Frost.BatchRequest.{share_request}
use wsts.StateMachine.Feedback.{feedback_messages}
use wsts.StateMachine.Feedback.Ignored.{AllReady, process_each-ignored}
use wsts.StateMachine.Feedback.NonceRound.{
  answer, after_answer, answers_to, process_each-nonce_request, nonce_response-IsIgnored,
}
use wsts.StateMachine.Feedback.NonceReply.{request_of, HasAsked, feedback-steps}
use wsts.StateMachine.Feedback.Conversation.{HasAsked-start_signing_message}
use wsts.StateMachine.Coordinator.Frost.Process.{start_signing_message}

contains-range_lt : (start n i : ℕ) → contains (range_from start n) i ≡ true → i < start + n
contains-range_lt start zero i h = absurd (ground (arith, h))
contains-range_lt start (suc n) i h = ground (arith, h, contains-range_lt (suc start) n i)

module _ ⦃c : Curve⦄ ⦃ch : Channel⦄ ⦃sgn : SignerTrait⦄ where
  -- A signer with this id is among some.
  abbrev pub HasSigner : ℕ → List SigningRound → Type 0
  HasSigner i [] = ⊥
  HasSigner i (s ∷ signers) = (s.signer_id ≡ i) ⊎ HasSigner i signers

module _ ⦃c : Curve⦄ ⦃ch : Channel⦄ ⦃sgn : SignerTrait⦄ ⦃agg : AggregatorTrait⦄ where
  answers-AllFit :
      (u : Coordinator) (signers : List SigningRound) (out : List Packet)
      → map (λ sent. sent.msg) out ≡ map Net.nonce_response (answers_to (request_of u) signers)
      → AllFit u out
  answers-AllFit u signers [] e = tt
  answers-AllFit u [] (sent ∷ out) e = absurd (cc e)
  answers-AllFit u (s ∷ signers) (sent ∷ out) e = (
    inl (answer s (request_of u), ground (arith, e), (refl, refl, refl)),
    answers-AllFit u signers out (ground (arith, e)),
  )

  answers-IsAnswered :
      (u : Coordinator) (i : ℕ) (signers : List SigningRound) (out : List Packet)
      → map (λ sent. sent.msg) out ≡ map Net.nonce_response (answers_to (request_of u) signers)
      → HasSigner i signers
      → IsAnswered i out
  answers-IsAnswered u i [] out e h = absurd h
  answers-IsAnswered u i (s ∷ signers) [] e h = absurd (cc e)
  answers-IsAnswered u i (s ∷ signers) (sent ∷ out) e (inl h) =
      inl (answer s (request_of u), ground (arith, e), h)
  answers-IsAnswered u i (s ∷ signers) (sent ∷ out) e (inr h) =
      inr (answers-IsAnswered u i signers out (ground (arith, e)) h)

  module _ (t : Bool) (r : Option Bytes) where
    -- A coordinator of at least one signer starts to sign a message, and idle signers, one among them
    -- for every id below the number of signers, in whatever order and number, get its packet. Their
    -- private keys for messages and the coordinator's are such that ecdsa signs with them. Then one
    -- round of messages succeeds: every signer answers and is idle again, and the coordinator sends
    -- one packet and reports no result. It is the request for signature shares, with the recorded
    -- nonces of every signer in order, and the coordinator gathers the shares and awaits all signers.
    pub nonce_exchange-ends :
        (message : Bytes) (s u : Coordinator) (packet : Packet) (signers : List SigningRound)
        → 0 < u.total_signers
        → CanSign u.message_private_key
        → start_signing_message message t r s ≡ (u, ok packet)
        → AllReady signers
        → ((i : ℕ) → i < u.total_signers → HasSigner i signers)
        → (v : Coordinator) × (sent : Packet) × (responses : List NonceResponse)
          × (feedback_messages u signers (packet ∷ [])
              ≡ some ((v, map after_answer signers), sent ∷ [], []))
          × AllReady (map after_answer signers)
          × (sent.msg ≡ Net.signature_share_request (share_request t r u responses))
          × (all_nonce_responses v ≡ some responses)
          × (v.state ≡ sig_share_gather t r)
          × (v.ids_to_await ≡ range u.total_signers)
    nonce_exchange-ends message s u packet signers some_signer key start ready all =
        let (asks, gathers, awaits, fresh) = asked in
        let (out, answered, msgs, again) =
          process_each-nonce_request packet (request_of u) asks signers ready in
        let (v, sent, responses, done, same, found, at, next) =
          process_inbound_messages-asks t r out u some_signer key gathers
            (ap is_empty awaits ∙ range-is_empty u.total_signers some_signer) (covered awaits)
            (answers-AllFit u signers out msgs)
            (λ i waiting. answers-IsAnswered u i signers out msgs (
              all i (
                omega (
                  arith,
                  contains-range_lt 0 u.total_signers i
                      (sym (ap (λ ids. contains ids i) awaits) ∙ waiting),
                )))) in
        (
          v,
          sent,
          responses,
          feedback-steps t r u v signers (map after_answer signers) (packet ∷ []) out (sent ∷ []) []
              answered
              (process_each-ignored Net.nonce_response nonce_response-IsIgnored out
                (answers_to (request_of u) signers) msgs (map after_answer signers) again)
              done,
          again,
          same,
          found,
          at,
          next,
        )
      where
        asked : HasAsked t r u packet
        asked =
            subst (λ x. HasAsked t r x packet) (ap (λ o. o.0) start)
              (HasAsked-start_signing_message t r message s packet (ap (λ o. o.1) start))

        covered : u.ids_to_await ≡ range u.total_signers → IsCovered u
        covered awaits i below = inl (
            ap (λ ids. contains ids i) awaits
            ∙ contains-range_from 0 u.total_signers i (omega arith) (omega (arith, below)))
