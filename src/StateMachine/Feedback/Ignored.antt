-- ===== src/StateMachine/Feedback/Ignored.antt =====
-- src/state_machine: the messages that are for the coordinator, at the signers.
use wsts.Prelude.{◌≡◌, refl, ap, ◌∙◌, some, List, [], ◌∷◌, map, arith}
use wsts.Prelude.Outcome.{ok}
use wsts.Curve.{Curve}
use wsts.Channel.{Channel}
use wsts.Net.{Message, Packet}
use wsts.Net.Signed.{CanSign}
use wsts.Traits.{SignerTrait}
use wsts.StateMachine.Signer.{idle, SigningRound}
use wsts.StateMachine.Signer.Process.{process, process_inbound_messages, inbound_loop, sign_all}
use wsts.StateMachine.Feedback.{process_each}

module _ ⦃c : Curve⦄ ⦃ch : Channel⦄ ⦃sgn : SignerTrait⦄ where
  -- All are idle and have keys that can sign.
  abbrev pub AllReady : List SigningRound → Type 0
  AllReady [] = Unit {0}
  AllReady (s ∷ signers) = ((s.state ≡ idle) × CanSign s.network_private_key) × AllReady signers

module _ ⦃c : Curve⦄ ⦃ch : Channel⦄ ⦃sgn : SignerTrait⦄ {R : Type 0} (message : R → Message) where
  -- An idle signer does nothing with such a message.
  abbrev pub IsIgnored : Type 0
  IsIgnored = (x : R) (s : SigningRound) → s.state ≡ idle → process (message x) s ≡ (s, ok [])

  module _ (ignored : IsIgnored) where
    inbound_loop-ignored :
        (packets out : List Packet) (xs : List R) (s : SigningRound)
        → map (λ packet. packet.msg) packets ≡ map message xs
        → s.state ≡ idle
        → inbound_loop packets out s ≡ (s, ok out)
    unfolding inbound_loop sign_all
    inbound_loop-ignored [] out xs s e at_rest = refl
    inbound_loop-ignored (packet ∷ packets) out [] s e at_rest = absurd (cc e)
    inbound_loop-ignored (packet ∷ packets) out (x ∷ xs) s e at_rest =
        let same : packet.msg ≡ message x = ground (arith, e) in
        rw (ap (λ m. process m s) same ∙ ignored x s at_rest)
          (inbound_loop-ignored packets out xs s (ground (arith, e)) at_rest)

    -- Idle signers ignore them all.
    pub process_each-ignored :
        (packets : List Packet) (xs : List R)
        → map (λ packet. packet.msg) packets ≡ map message xs
        → (signers : List SigningRound) → AllReady signers
        → process_each packets signers ≡ some (signers, [])
    unfolding process_each process_inbound_messages
    process_each-ignored packets xs e [] h = refl
    process_each-ignored packets xs e (s ∷ signers) ((i, k), h) =
        rw (inbound_loop-ignored packets [] xs s e i, process_each-ignored packets xs e signers h)
          refl
