-- ===== src/StateMachine/Coordinator/Frost/NonceRound.antt =====
-- src/state_machine/coordinator/frost.rs: a round of nonces as a sequence of packets.
use wsts.Prelude.{◌≡◌, Bool, Option, some, List, []}
use wsts.Prelude.Outcome.{ok}
use wsts.Curve.{Curve, Bytes}
use wsts.Net.{Packet, NonceResponse}
use wsts.Traits.{AggregatorTrait}
use wsts.StateMachine.Coordinator.Frost.{Coordinator}
use wsts.StateMachine.Coordinator.Frost.Signing.{request_nonces, gather_nonces, all_nonce_responses}
use wsts.StateMachine.Coordinator.Frost.Nonces.{
  IsCovered, request_nonces-IsCovered, gather_nonces-IsCovered, all_nonce_responses_of_IsCovered,
}

module _ ⦃c : Curve⦄ ⦃agg : AggregatorTrait⦄ (t : Bool) (r : Option Bytes) where
  -- The states that a coordinator goes through from its request for nonces on, whatever packets
  -- come, whether it accepts or refuses them.
  pub data Collects : Coordinator → Type 0 where
    requested :
        (s : Coordinator) {packet : Packet}
        → (request_nonces t r s).1 ≡ ok packet
        → Collects (request_nonces t r s).0
    gathered :
        (s : Coordinator) (packet : Packet) → Collects s → Collects (gather_nonces packet t r s).0

  Collects-IsCovered : (s : Coordinator) → Collects s → IsCovered s
  Collects-IsCovered _ (requested s h) = request_nonces-IsCovered t r s h
  Collects-IsCovered _ (gathered s packet h) =
      gather_nonces-IsCovered packet t r s (Collects-IsCovered s h)

  -- From a request for nonces on, whatever packets come in whatever order and number: as soon as no
  -- signer is awaited, the nonces of every signer are there, so that the request for signature
  -- shares finds them all.
  pub all_nonce_responses-Collects :
      (s : Coordinator)
      → Collects s
      → s.ids_to_await ≡ []
      → (responses : List NonceResponse) × (all_nonce_responses s ≡ some responses)
  all_nonce_responses-Collects s h = all_nonce_responses_of_IsCovered s (Collects-IsCovered s h)
